-- ===== src/RateLimiter/Redis/Agreement.antt =====
-- The ways in which backend/app/security/rate_limiter.py decides a request, against one another.
use cogentrex.Prelude.{
  All-filter, ℕ, zero, suc, ◌<◌, Option, none, Option-cases, ◌≤◌, ◌≡◌, refl, sym, ◌∙◌, ap, inl, inr,
  true, false, some, List, [], ◌∷◌, ◌++◌, String, length, All, filter, ltb, Bool-cases, arith,
  length-append, str_eq, eq_iff,
}
use cogentrex.RateLimiter.{Store, stamps, is_active, kept, result_of, check_bucket}
use cogentrex.RateLimiter.Windows.{stamps-assign}
use cogentrex.RateLimiter.Redis.{
  Cutoff, is_above, first, SortedSets, redis_result, trim, lua, decide, attempt_with, attempt,
  transaction, Others, Values, Looped, ended, still_running,
}

module _ (redis : SortedSets) (window limit now : ℕ) (member : String) where
  open redis use {
    Bucket, scores, has_member, zremrangebyscore, zrangebyscore, zcard, zrange_first,
    scores-zremrangebyscore, scores-zrangebyscore, scores-zcard, scores-zrange_first,
    scores-pexpire, scores-zadd, has_member-zremrangebyscore, pexpire, zadd,
  }

  abbrev quiet_or : Option Bucket → Bucket → (Bucket → Option Bucket) → Option Bucket
  quiet_or none b next = some b
  quiet_or (some changed) b next = next changed

  -- The bucket that the first pass without interference meets, if one of the passes is without.
  abbrev pub quiet_bucket : ℕ → Others Bucket → Bucket → Option Bucket
  quiet_bucket zero others b = none
  quiet_bucket (suc passes) others b =
      quiet_or (others 0) b (quiet_bucket passes (λ i. others (suc i)))

  -- The script on that bucket, or no end yet.
  abbrev pub lua_on : Option Bucket → Looped (Values × Bucket)
  lua_on none = still_running
  lua_on (some b) = ended (lua redis window limit now member b)

  trim-scores :
      (b : Bucket)
      → scores (trim redis window limit now member b) ≡ filter (is_active window now) (scores b)
  trim-scores b = scores-zremrangebyscore (record { now = now; window = window }) b

  -- The script reads the scores that are left.
  lua-decide :
      (b : Bucket)
      → let entries = filter (is_active window now) (scores b) in
        lua redis window limit now member b
        ≡ decide redis window limit now member
            (length entries)
            (first entries)
            (trim redis window limit now member b)
  lua-decide b =
      let trimmed = trim redis window limit now member b in
      ap (λ n. decide redis window limit now member n (zrange_first trimmed) trimmed)
        (scores-zcard trimmed ∙ ap length (trim-scores b))
      ∙ ap
          (λ oldest.
            decide redis window limit now member (length (filter (is_active window now) (scores b)))
              oldest trimmed)
          (scores-zrange_first trimmed ∙ ap first (trim-scores b))

  attempt_with-decide :
      (active : List ℕ) (b : Bucket)
      → 1 ≤ limit
      → attempt_with redis window limit now member active b
        ≡ some (
            decide redis window limit now member
              (length active)
              (first active)
              (trim redis window limit now member b))
  attempt_with-decide [] b one = ground arith
  attempt_with-decide (x ∷ active) b one = elim (Bool-cases (ltb (length (x ∷ active)) limit)) [
    | inl room ↦ rw room (ground arith)
    | inr full ↦ rw full (ground arith)
  ]

  attempt-lua :
      (b : Bucket)
      → 1 ≤ limit
      → attempt redis window limit now member b ≡ some (lua redis window limit now member b)
  attempt-lua b one =
      let c : Cutoff = record { now = now; window = window } in
      ap (λ active. attempt_with redis window limit now member active b) (scores-zrangebyscore c b)
      ∙ attempt_with-decide (filter (is_above c) (scores b)) b one
      ∙ ap some (sym (lua-decide b) ∙ refl)

  quiet_bucket-some :
      (passes k : ℕ) (others : Others Bucket) (b : Bucket)
      → k < passes
      → others k ≡ none
      → (found : Bucket) × (quiet_bucket passes others b ≡ some found)
  quiet_bucket-some zero k others b h quiet = absurd (omega (arith, h))
  quiet_bucket-some (suc passes) zero others b h quiet = rw quiet (b, refl)
  quiet_bucket-some (suc passes) (suc k) others b h quiet = elim (Option-cases (others 0)) [
    | inl none_here ↦ rw none_here (b, refl)
    | inr (changed, here) ↦
        rw here (quiet_bucket-some passes k (λ i. others (suc i)) changed (omega (arith, h)) quiet)
  ]

  transaction-lua_on :
      (passes : ℕ) (others : Others Bucket) (b : Bucket)
      → 1 ≤ limit
      → transaction redis window limit now member passes others b
        ≡ lua_on (quiet_bucket passes others b)
  transaction-lua_on zero others b one = refl
  transaction-lua_on (suc passes) others b one = elim (Option-cases (others 0)) [
    | inl quiet ↦ rw (attempt-lua b one, quiet) refl
    | inr (changed, here) ↦
        rw (attempt-lua b one, here) (transaction-lua_on passes (λ i. others (suc i)) changed one)
  ]

  -- With a positive limit, whatever buckets other clients leave in between, the loop of the fallback
  -- gives the answer and the bucket that the script gives on the bucket of its first pass that no
  -- other client interferes with, goes on as long as there is none, and has ended after any number
  -- of passes that has one.
  pub transaction-lua :
      (passes : ℕ) (others : Others Bucket) (b : Bucket)
      → 1 ≤ limit
      → (transaction redis window limit now member passes others b
          ≡ lua_on (quiet_bucket passes others b))
        × ((k : ℕ)
            → k < passes
            → others k ≡ none
            → (found : Bucket) × (transaction redis window limit now member passes others b
                ≡ ended (lua redis window limit now member found)))
  transaction-lua passes others b one =
      let same = transaction-lua_on passes others b one in
      (
        same,
        λ k h quiet.
            let (found, e) = quiet_bucket-some passes k others b h quiet in
            (found, same ∙ ap lua_on e),
      )

  decide-allowed :
      (trimmed : Bucket) (entries : List ℕ)
      → has_member member trimmed ≡ false
      → All (λ s. s ≤ now) entries
      → scores trimmed ≡ entries
      → ltb (length entries) limit ≡ true
      → let (values, left) =
          decide redis window limit now member (length entries) (first entries) trimmed in
        (redis_result limit values ≡ result_of 1000 window limit now true (entries ++ (now ∷ [])))
        × (scores left ≡ entries ++ (now ∷ []))
  decide-allowed trimmed entries new sorted e room = (
    rw room (ground (arith, length-append entries (now ∷ []))),
    rw room (
        scores-pexpire window (zadd now member trimmed)
        ∙ scores-zadd now member trimmed new (rw e sorted)
        ∙ ap (λ xs. xs ++ (now ∷ [])) e),
  )

  decide-refused :
      (trimmed : Bucket) (entries : List ℕ)
      → 1 ≤ limit
      → scores trimmed ≡ entries
      → ltb (length entries) limit ≡ false
      → let (values, left) =
          decide redis window limit now member (length entries) (first entries) trimmed in
        (redis_result limit values ≡ result_of 1000 window limit now false entries)
        × (scores left ≡ entries)
  decide-refused trimmed [] one e full = absurd (ground arith)
  decide-refused trimmed (oldest ∷ entries) one e full =
      (rw full (ground arith), rw full (scores-pexpire window trimmed ∙ e))

  -- With a positive limit, a new member and no score in the future, the script on a bucket with the
  -- stamps of a local bucket gives the result of the local limiter at a clock of 1000 ticks a
  -- second, and leaves a bucket with the stamps that the local limiter leaves.
  pub lua-check_bucket :
      (key : String) (store : Store) (b : Bucket)
      → 1 ≤ limit
      → has_member member b ≡ false
      → All (λ s. s ≤ now) (scores b)
      → scores b ≡ stamps key store
      → let (values, left) = lua redis window limit now member b in
        let (result, local) = check_bucket 1000 window limit now key store in
        (redis_result limit values ≡ result) × (scores left ≡ stamps key local)
  lua-check_bucket key store b one new sorted same =
      let entries = filter (is_active window now) (stamps key store) in
      let e = trim-scores b ∙ ap (filter (is_active window now)) same in
      let there = stamps-assign key key (kept window limit now entries) store in
      let itself : str_eq key key ≡ true = (eq_iff key key).1 refl in
      elim (Bool-cases (ltb (length entries) limit)) [
        | inl room ↦
            let done =
              decide-allowed (trim redis window limit now member b) entries
                (has_member-zremrangebyscore (record { now = now; window = window }) member b new)
                (All-filter (λ s. s ≤ now) (is_active window now) (stamps key store)
                  (rw same at sorted))
                e room in
            rw (there, lua-decide b, same, itself, room) (rw room at done)
        | inr full ↦
            let done = decide-refused (trim redis window limit now member b) entries one e full in
            rw (there, lua-decide b, same, itself, full) (rw full at done)
      ]
