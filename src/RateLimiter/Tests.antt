-- ===== src/RateLimiter/Tests.antt =====
-- Runs of the limiter, and the theorems at concrete inputs.
use cogentrex.Prelude.{
  ℕ, zero, suc, ◌<◌, Option, ◌+◌, ◌*◌, ◌≤◌, ◌≡◌, refl, true, false, none, some, List, [], ◌∷◌, ◌++◌,
  String, length, filter, map, arith,
}
use cogentrex.RateLimiter.{
  RateLimiter, new_limiter, passed, empty, bucket, Store, stamps, check, check_bucket,
}
use cogentrex.RateLimiter.History.{Request, verdict, admitted, turned_away, checks, judge_all}
use cogentrex.RateLimiter.Refinement.{checks-refine}
use cogentrex.RateLimiter.Bound.{within, admissions, admissions-bound}
use cogentrex.RateLimiter.Retry.{is_allowed, retry_after_of, check-retry}
use cogentrex.RateLimiter.Redis.{is_above, first, SortedSets, redis_result, lua, transaction, ended}
use cogentrex.RateLimiter.Redis.Agreement.{transaction-lua, lua-check_bucket}

abbrev digest : String → String
digest identifier = identifier

abbrev two_a_minute : RateLimiter
two_a_minute = record { max_requests = 2; window = 60; prefix = "rate_limit" }

two_a_minute_is_valid : new_limiter 2 60 "rate_limit" ≡ passed two_a_minute
two_a_minute_is_valid = refl

abbrev by_ann : ℕ → Request
by_ann t = record { identifier = "ann"; max_requests = none; at = t }

abbrev four : List Request
four = by_ann 100 ∷ by_ann 110 ∷ by_ann 120 ∷ by_ann 160 ∷ []

four_verdicts :
    map verdict (checks digest 1 two_a_minute four empty).0
    ≡ admitted 1 ∷ admitted 2 ∷ turned_away 2 ∷ admitted 2 ∷ []
four_verdicts = refl

checks-refine_example :
    map verdict (checks digest 1 two_a_minute four empty).0
    ≡ (judge_all digest 1 two_a_minute four []).0
checks-refine_example =
    checks-refine digest 1 two_a_minute four
      (omega arith, (omega arith, (omega arith, (omega arith, tt))))

admissions-bound_example :
    within 60 120 "rate_limit:ann"
      (admissions digest 1 two_a_minute four (checks digest 1 two_a_minute four empty).0)
    ≤ 2
admissions-bound_example =
    admissions-bound digest 1 two_a_minute 2 120 "rate_limit:ann" four
      (omega arith, (omega arith, (omega arith, (omega arith, tt))))
      (omega arith, (omega arith, (omega arith, (omega arith, tt))))

abbrev two : List Request
two = by_ann 100 ∷ by_ann 110 ∷ []

check-retry_example :
    let refusal =
      check digest 1 two_a_minute "ann" (some 2) 120 (checks digest 1 two_a_minute two empty).1 in
    (retry : ℕ) × (retry_after_of refusal.0 ≡ some retry)
    × (1 ≤ retry)
    × ((later : ℕ)
        → 120 + retry * 1 ≤ later
        → is_allowed (check digest 1 two_a_minute "ann" (some 2) later refusal.1).0 ≡ true)
check-retry_example =
    check-retry digest 1 two_a_minute 2 two "ann" 120 (omega arith) (omega arith)
      (omega arith, (omega arith, tt)) refl

-- A server whose buckets are their scores: it forgets the members, which are new.
abbrev score_lists : SortedSets
score_lists = record {
  Bucket = List ℕ;
  scores = λ b. b;
  has_member = λ member b. false;
  zremrangebyscore = λ cutoff b. filter (is_above cutoff) b;
  zrangebyscore = λ cutoff b. filter (is_above cutoff) b;
  zcard = λ b. length b;
  zrange_first = λ b. first b;
  zadd = λ score member b. b ++ (score ∷ []);
  pexpire = λ ttl b. b;
  scores-zremrangebyscore = λ cutoff b. refl;
  scores-zrangebyscore = λ cutoff b. refl;
  scores-zcard = λ b. refl;
  scores-zrange_first = λ b. refl;
  has_member-zremrangebyscore = λ cutoff member b h. refl;
  scores-zadd = λ score member b h sorted. refl;
  scores-pexpire = λ ttl b. refl;
}

-- Another client is admitted while the first pass runs.
abbrev one_conflict : ℕ → Option (List ℕ)
one_conflict zero = some (100000 ∷ 110000 ∷ [])
one_conflict (suc k) = none

transaction-lua_example :
    (transaction score_lists 60000 2 120000 "m" 3 one_conflict (100000 ∷ [])
      ≡ ended (lua score_lists 60000 2 120000 "m" (100000 ∷ 110000 ∷ [])))
    × ((k : ℕ)
        → k < 3
        → one_conflict k ≡ none
        → (found : List ℕ) × (transaction score_lists 60000 2 120000 "m" 3 one_conflict
              (100000 ∷ [])
            ≡ ended (lua score_lists 60000 2 120000 "m" found)))
transaction-lua_example =
    transaction-lua score_lists 60000 2 120000 "m" 3 one_conflict (100000 ∷ []) (omega arith)

abbrev local_bucket : Store
local_bucket = bucket "k" (10000 ∷ 100000 ∷ 110000 ∷ []) empty

lua-check_bucket_example :
    (redis_result 2 (lua score_lists 60000 2 120000 "m" (10000 ∷ 100000 ∷ 110000 ∷ [])).0
      ≡ (check_bucket 1000 60000 2 120000 "k" local_bucket).0)
    × ((lua score_lists 60000 2 120000 "m" (10000 ∷ 100000 ∷ 110000 ∷ [])).1
        ≡ stamps "k" (check_bucket 1000 60000 2 120000 "k" local_bucket).1)
lua-check_bucket_example =
    lua-check_bucket score_lists 60000 2 120000 "m" "k" local_bucket (10000 ∷ 100000 ∷ 110000 ∷ [])
      (omega arith) refl (omega arith, (omega arith, (omega arith, tt))) refl
