-- ===== src/RateLimiter/Redis.antt =====
-- The Redis back end of backend/app/security/rate_limiter.py: the Lua script, the WATCH/MULTI
-- fallback, and the choice between them. The commands of Redis are parameters.
pub mod Agreement
use cogentrex.Prelude.{
  All, ◌≤◌, ◌++◌, ℕ, zero, suc, ◌+◌, ◌-◌, ◌*◌, ◌≡◌, Bool, true, false, ◌&&◌, Option, none, some,
  List, [], ◌∷◌, String, length, filter, bit, ltb, if◌then◌else◌, codes,
}
use cogentrex.Permissions.{contains}
use cogentrex.RateLimiter.{RateLimitResult, max, ceil_div, is_active}

-- The number `now - window`, which may be negative.
pub record Cutoff : Type 0 where
  pub now : ℕ
  pub window : ℕ

abbrev pub is_above : Cutoff → ℕ → Bool
is_above cutoff score = is_active cutoff.window cutoff.now score

abbrev pub first : List ℕ → Option ℕ
first [] = none
first (x ∷ xs) = some x

-- Sorted sets as Redis documents them.
pub record SortedSets : Type 1 where
  pub Bucket : Type 0
  -- The scores in their order.
  pub scores : Bucket → List ℕ
  pub has_member : String → Bucket → Bool
  -- `ZREMRANGEBYSCORE key -inf cutoff`
  pub zremrangebyscore : Cutoff → Bucket → Bucket
  -- `ZRANGEBYSCORE key (cutoff +inf`
  pub zrangebyscore : Cutoff → Bucket → List ℕ
  pub zcard : Bucket → ℕ
  -- `ZRANGE key 0 0`
  pub zrange_first : Bucket → Option ℕ
  pub zadd : ℕ → String → Bucket → Bucket
  pub pexpire : ℕ → Bucket → Bucket
  pub scores-zremrangebyscore :
      (cutoff : Cutoff) (b : Bucket)
      → scores (zremrangebyscore cutoff b) ≡ filter (is_above cutoff) (scores b)
  pub scores-zrangebyscore :
      (cutoff : Cutoff) (b : Bucket) → zrangebyscore cutoff b ≡ filter (is_above cutoff) (scores b)
  pub scores-zcard : (b : Bucket) → zcard b ≡ length (scores b)
  pub scores-zrange_first : (b : Bucket) → zrange_first b ≡ first (scores b)
  pub has_member-zremrangebyscore :
      (cutoff : Cutoff) (member : String) (b : Bucket)
      → has_member member b ≡ false
      → has_member member (zremrangebyscore cutoff b) ≡ false
  -- A new member with the greatest score is the last.
  pub scores-zadd :
      (score : ℕ) (member : String) (b : Bucket)
      → has_member member b ≡ false
      → All (λ s. s ≤ score) (scores b)
      → scores (zadd score member b) ≡ scores b ++ (score ∷ [])
  pub scores-pexpire : (ttl : ℕ) (b : Bucket) → scores (pexpire ttl b) ≡ scores b

-- What the script and the fallback answer, with times in milliseconds.
pub record Values : Type 0 where
  pub allowed : Bool
  pub current : ℕ
  pub remaining : ℕ
  pub retry_ms : ℕ

-- `_redis_result`
abbrev pub redis_result : ℕ → Values → RateLimitResult
redis_result limit values = record {
  allowed = values.allowed;
  current = values.current;
  limit = limit;
  remaining = values.remaining;
  retry_after = if values.allowed then none else some (max 1 (ceil_div values.retry_ms 1000));
}

-- How the server answers EVAL: it runs the script, or it fails with a text and leaves a bucket.
pub data Server (Bucket : Type 0) : Type 0 where
  runs_script : Server Bucket
  fails : String → Bucket → Server Bucket

-- What a loop has come to, within the passes that it was given.
pub data Looped (A : Type 0) : Type 0 where
  ended : A → Looped A
  index_error : Looped A
  still_running : Looped A

-- The answer of `_check_redis`, the error of EVAL, or the IndexError of `active[0]`.
pub data Answer : Type 0 where
  answered : RateLimitResult → Answer
  eval_error : String → Answer
  no_active_entry : Answer
  no_answer_yet : Answer

-- The text is in lower case.
abbrev pub is_unknown_eval : List ℕ → Bool
is_unknown_eval text = contains (codes "unknown command") text && contains (codes "eval") text

abbrev pub lua_retry : ℕ → ℕ → Option ℕ → ℕ
lua_retry window now none = window
lua_retry window now (some oldest) = max 1 (oldest + window - now)

-- `retry_ms` of the fallback: `active[0]` is read only when the request is refused.
abbrev pub fallback_retry : ℕ → ℕ → Bool → List ℕ → Option ℕ
fallback_retry window now true active = some 0
fallback_retry window now false [] = none
fallback_retry window now false (oldest ∷ active) = some (max 1 (oldest + window - now))

abbrev pub fallback_values : ℕ → Bool → ℕ → ℕ → Values
fallback_values limit allowed count retry_ms = record {
  allowed = allowed;
  current = count + bit allowed;
  remaining = limit - (count + bit allowed);
  retry_ms = retry_ms;
}

abbrev pub answer : {Bucket : Type 0} → ℕ → Looped (Values × Bucket) → Bucket → Answer × Bucket
answer limit index_error b = (no_active_entry, b)
answer limit still_running b = (no_answer_yet, b)
answer limit (ended (values, left)) b = (answered (redis_result limit values), left)

-- What EXEC meets in each pass: nothing, or the bucket that another client has left since WATCH.
abbrev pub Others : Type 0 → Type 0
Others Bucket = ℕ → Option Bucket

module _ (redis : SortedSets) (window limit now : ℕ) (member : String) where
  open redis use {Bucket, zremrangebyscore, zrangebyscore, zcard, zrange_first, zadd, pexpire}

  -- The bucket without the entries that have left the window.
  abbrev pub trim : Bucket → Bucket
  trim = zremrangebyscore (record { now = now; window = window })

  -- The script, from `ZCARD` on.
  abbrev pub decide : ℕ → Option ℕ → Bucket → Values × Bucket
  decide count oldest trimmed =
      if ltb count limit
      then (
        record { allowed = true; current = count + 1; remaining = limit - count - 1; retry_ms = 0 },
        pexpire window (zadd now member trimmed),
      )
      else (
        record {
          allowed = false;
          current = count;
          remaining = 0;
          retry_ms = lua_retry window now oldest;
        },
        pexpire window trimmed,
      )

  -- The script.
  abbrev pub lua : Bucket → Values × Bucket
  lua b = decide (zcard (trim b)) (zrange_first (trim b)) (trim b)

  -- The commands between MULTI and EXEC.
  abbrev pub queued : Bool → Bucket → Bucket
  queued allowed b = pexpire window (if allowed then zadd now member (trim b) else trim b)

  -- What a pass that read the active scores does, up to EXEC.
  abbrev pub attempted : Bool → Option ℕ → List ℕ → Bucket → Option (Values × Bucket)
  attempted allowed none active b = none
  attempted allowed (some retry_ms) active b =
      some (fallback_values limit allowed (length active) retry_ms, queued allowed b)

  abbrev pub attempt_with : List ℕ → Bucket → Option (Values × Bucket)
  attempt_with active b =
      let allowed = ltb (length active) limit in
      attempted allowed (fallback_retry window now allowed active) active b

  -- One pass of the loop, up to EXEC.
  abbrev pub attempt : Bucket → Option (Values × Bucket)
  attempt b = attempt_with (zrangebyscore (record { now = now; window = window }) b) b

  -- EXEC: the pass counts if no other client came between, else the loop goes on.
  abbrev pub executed :
      Option (Values × Bucket)
      → Option Bucket
      → (Bucket → Looped (Values × Bucket))
      → Looped (Values × Bucket)
  executed none other next = index_error
  executed (some result) none next = ended result
  executed (some lost) (some changed) next = next changed

  -- The loop, which the code does not bound, in its first passes.
  abbrev pub transaction : ℕ → Others Bucket → Bucket → Looped (Values × Bucket)
  transaction zero others b = still_running
  transaction (suc passes) others b =
      executed (attempt b) (others 0) (transaction passes (λ i. others (suc i)))

  -- `_check_redis`; `lower` is `str.lower`.
  abbrev pub check_redis :
      (List ℕ → List ℕ) → Server Bucket → ℕ → Others Bucket → Bucket → Answer × Bucket
  check_redis lower runs_script passes others b = answer limit (ended (lua b)) b
  check_redis lower (fails text left) passes others b =
      if is_unknown_eval (lower (codes text))
      then answer limit (transaction passes others left) left
      else (eval_error text, left)
