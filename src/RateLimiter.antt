-- ===== src/RateLimiter.antt =====
-- The sliding-window rate limiter: backend/app/security/rate_limiter.py. SHA-256 is a library's, and
-- a parameter here. Instants are whole ticks of a clock, `second` of them a second.
mod Windows
pub mod History
mod Agreement
pub mod Refinement
pub mod Bound
pub mod Retry
pub mod Redis
mod Tests
use cogentrex.Prelude.{
  ℕ, suc, ◌+◌, ◌-◌, ◌*◌, ◌/◌, Bool, true, false, Option, none, some, List, [], ◌∷◌, ◌++◌, String,
  length, filter, str_eq, ltb, if◌then◌else◌,
}
use Prim.Native.String.{◌++◌ as text_append}

pub record RateLimitResult : Type 0 where
  pub allowed : Bool
  pub current : ℕ
  pub limit : ℕ
  pub remaining : ℕ
  pub retry_after : Option ℕ

-- The configuration of a limiter.
pub record RateLimiter : Type 0 where
  pub max_requests : ℕ
  pub window : ℕ
  pub prefix : String

pub data LimiterError : Type 0 where
  max_requests_not_positive window_seconds_not_positive key_prefix_empty : LimiterError

pub data Checked (A : Type 0) : Type 0 where
  passed : A → Checked A
  refused : LimiterError → Checked A

abbrev pub new_limiter : ℕ → ℕ → String → Checked RateLimiter
new_limiter max_requests window_seconds key_prefix =
    if ltb max_requests 1
    then refused max_requests_not_positive
    else if ltb window_seconds 1
    then refused window_seconds_not_positive
    else if str_eq key_prefix ""
    then refused key_prefix_empty
    else passed
        (record { max_requests = max_requests; window = window_seconds; prefix = key_prefix })

abbrev pub max : ℕ → ℕ → ℕ
max a b = if ltb a b then b else a

-- `math.ceil(n / unit)`.
abbrev pub ceil_div : ℕ → ℕ → ℕ
ceil_div n unit = (n + (unit - 1)) / unit

-- The stamps of each key, `dict[str, list[float]]`.
pub data Store : Type 0 where
  empty : Store
  bucket : String → List ℕ → Store → Store

abbrev pub stamps : String → Store → List ℕ
stamps key empty = []
stamps key (bucket k entries rest) =
    let others = stamps key rest in if str_eq k key then entries else others

abbrev pub assign : String → List ℕ → Store → Store
assign key new empty = bucket key new empty
assign key new (bucket k entries rest) =
    let others = assign key new rest in
    if str_eq k key then bucket k new rest else bucket k entries others

-- `stamp > now - window`.
abbrev pub is_active : ℕ → ℕ → ℕ → Bool
is_active window now stamp = ltb now (stamp + window)

-- What is left of the window of the oldest entry, in whole seconds and at least one.
abbrev pub retry_of : ℕ → ℕ → ℕ → List ℕ → Option ℕ
retry_of second window now [] = none
retry_of second window now (oldest ∷ entries) =
    some (max 1 (ceil_div (oldest + window - now) second))

abbrev pub result_of : ℕ → ℕ → ℕ → ℕ → Bool → List ℕ → RateLimitResult
result_of second window limit now allowed entries = record {
  allowed = allowed;
  current = length entries;
  limit = limit;
  remaining = limit - length entries;
  retry_after = if allowed then none else retry_of second window now entries;
}

-- The entries that `check_local` leaves in the bucket.
abbrev pub kept : ℕ → ℕ → ℕ → List ℕ → List ℕ
kept window limit now entries =
    if ltb (length entries) limit then entries ++ (now ∷ []) else entries

abbrev pub key_of : (String → String) → RateLimiter → String → String
key_of sha256 limiter identifier = text_append limiter.prefix (text_append ":" (sha256 identifier))

abbrev pub limit_of : RateLimiter → Option ℕ → ℕ
limit_of limiter none = limiter.max_requests
limit_of limiter (some limit) = limit

-- The locked block of `_check_local`.
abbrev pub check_bucket : ℕ → ℕ → ℕ → ℕ → String → Store → RateLimitResult × Store
check_bucket second window limit now key store =
    let entries = filter (is_active window now) (stamps key store) in
    let left = kept window limit now entries in
    (result_of second window limit now (ltb (length entries) limit) left, assign key left store)

module _ (sha256 : String → String) (second : ℕ) where
  abbrev pub check_local : RateLimiter → String → ℕ → ℕ → Store → RateLimitResult × Store
  check_local limiter identifier limit now store =
      check_bucket second (limiter.window * second) limit now (key_of sha256 limiter identifier)
        store

  -- `check` without a Redis client.
  abbrev pub check : RateLimiter → String → Option ℕ → ℕ → Store → Checked RateLimitResult × Store
  check limiter identifier max_requests now store =
      let limit = limit_of limiter max_requests in
      if ltb limit 1
      then (refused max_requests_not_positive, store)
      else let (result, left) = check_local limiter identifier limit now store in
        (passed result, left)
