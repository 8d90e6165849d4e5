-- ===== src/RateLimiter/Retry.antt =====
-- What a refusal of the limiter of backend/app/security/rate_limiter.py tells its caller.
use cogentrex.Prelude.{
  ℕ, ◌+◌, ◌-◌, ◌*◌, ◌≤◌, ◌<◌, ◌≡◌, refl, ◌∙◌, ap, inl, inr, Bool, true, false, Option, none, some,
  List, [], ◌∷◌, String, length, All, filter, ltb, Bool-cases, arith, eq_iff, length-append,
}
use native.Mathlib.Nat.{lt-div-mul-add, mul-le-mul_right}
use cogentrex.RateLimiter.{
  RateLimiter, RateLimitResult, Checked, passed, refused, Store, empty, stamps, is_active, kept,
  max, ceil_div, key_of, limit_of, check_bucket, check,
}
use cogentrex.RateLimiter.Windows.{length-filter, matched-le-length, stamps-assign}
use cogentrex.RateLimiter.History.{Request, checks}

abbrev pub is_allowed : Checked RateLimitResult → Bool
is_allowed (refused error) = false
is_allowed (passed result) = result.allowed

abbrev pub retry_after_of : Checked RateLimitResult → Option ℕ
retry_after_of (refused error) = none
retry_after_of (passed result) = result.retry_after

-- No bucket is longer than a limit.
abbrev pub Short : ℕ → Store → Type 0
Short most store = (key : String) → length (stamps key store) ≤ most

check_bucket-Short :
    (second window most limit now : ℕ) (key : String) (store : Store)
    → limit ≤ most
    → Short most store
    → Short most (check_bucket second window limit now key store).1
check_bucket-Short second window most limit now key store le h k =
    let entries = filter (is_active window now) (stamps key store) in
    let fewer : length entries ≤ length (stamps key store) = omega (
      arith,
      length-filter (is_active window now) (stamps key store),
      matched-le-length (is_active window now) (stamps key store),
    ) in
    rw (stamps-assign key k (kept window limit now entries) store)
      (ground (arith, fewer, h key, h k, length-append entries (now ∷ [])))

ceil_div-covers : (n unit : ℕ) → 0 < unit → n ≤ ceil_div n unit * unit
ceil_div-covers n unit h = omega (arith, lt-div-mul-add {a = n + (unit - 1)} h, h)

-- Waiting for the answer of a refusal takes the oldest entry out of the window.
retry-covers :
    (second window now later oldest : ℕ)
    → 0 < second
    → now + max 1 (ceil_div (oldest + window - now) second) * second ≤ later
    → is_active window later oldest ≡ false
retry-covers second window now later oldest h le =
    let n = oldest + window - now in
    let rounded = ceil_div-covers n second h in
    let more : ceil_div n second * second ≤ max 1 (ceil_div n second) * second =
      mul-le-mul_right second (ground arith) in
    ground (arith, rounded, more)

-- With the oldest entry gone there is room.
check_bucket-room :
    (second window limit later : ℕ) (key : String) (oldest : ℕ) (entries : List ℕ) (store : Store)
    → stamps key store ≡ oldest ∷ entries
    → length (oldest ∷ entries) ≤ limit
    → is_active window later oldest ≡ false
    → (check_bucket second window limit later key store).0.allowed ≡ true
check_bucket-room second window limit later key oldest entries store e le gone =
    rw (e, gone)
      (ground (
        arith,
        le,
        length-filter (is_active window later) entries,
        matched-le-length (is_active window later) entries,
      ))

-- What a refusal promises: a number of seconds, after which the key has room.
abbrev Promise : ℕ → ℕ → ℕ → ℕ → String → RateLimitResult × Store → Type 0
Promise second window limit now key refusal =
    (retry : ℕ) × (refusal.0.retry_after ≡ some retry)
    × (1 ≤ retry)
    × ((later : ℕ)
        → now + retry * second ≤ later
        → (check_bucket second window limit later key refusal.1).0.allowed ≡ true)

check_bucket-Promise :
    (second window limit now : ℕ) (key : String) (store : Store) (entries : List ℕ)
    → 0 < second
    → 1 ≤ limit
    → Short limit store
    → filter (is_active window now) (stamps key store) ≡ entries
    → (check_bucket second window limit now key store).0.allowed ≡ false
    → Promise second window limit now key (check_bucket second window limit now key store)
check_bucket-Promise second window limit now key store [] positive one short e full =
    let shut : ltb 0 limit ≡ false = rw e at full in absurd (ground (arith, shut))
check_bucket-Promise second window limit now key store (oldest ∷ entries) positive one short e
      full =
    let shut : ltb (length (oldest ∷ entries)) limit ≡ false = rw e at full in
    let left : stamps key (check_bucket second window limit now key store).1 ≡ oldest ∷ entries =
      stamps-assign key key
        (kept window limit now (filter (is_active window now) (stamps key store))) store
      ∙ rw (e, (eq_iff key key).1 refl, shut) refl in
    let fits = check_bucket-Short second window limit limit now key store (omega arith) short key in
    (
      max 1 (ceil_div (oldest + window - now) second),
      rw (e, shut) refl,
      ground arith,
      λ later le.
          check_bucket-room second window limit later key oldest entries
            (check_bucket second window limit now key store).1 left
            (omega (arith, fits, ap length left))
            (retry-covers second window now later oldest positive le),
    )

module _ (sha256 : String → String) (second : ℕ) (limiter : RateLimiter) where
  checks-Short :
      (most : ℕ) (requests : List Request) (store : Store)
      → All (λ r. limit_of limiter r.max_requests ≤ most) requests
      → Short most store
      → Short most (checks sha256 second limiter requests store).1
  checks-Short most [] store bounds h = h
  checks-Short most (request ∷ requests) store bounds h =
      elim (Bool-cases (ltb (limit_of limiter request.max_requests) 1)) [
        | inl bad ↦ rw bad (checks-Short most requests store bounds.1 h)
        | inr good ↦ rw good (
            checks-Short most requests _ bounds.1 (
              check_bucket-Short second (limiter.window * second) most
                (limit_of limiter request.max_requests) request.at
                (key_of sha256 limiter request.identifier) store bounds.0 h))
      ]

  -- After any requests whose limits are at most that of a check, when the check is refused it tells a
  -- number of seconds, at least one, and the same check is allowed once they have passed, if nobody
  -- else was admitted meanwhile.
  pub check-retry :
      (limit : ℕ) (requests : List Request) (identifier : String) (now : ℕ)
      → 0 < second
      → 1 ≤ limit
      → All (λ r. limit_of limiter r.max_requests ≤ limit) requests
      → let store = (checks sha256 second limiter requests empty).1 in
        let refusal = check sha256 second limiter identifier (some limit) now store in
        is_allowed refusal.0 ≡ false
        → (retry : ℕ) × (retry_after_of refusal.0 ≡ some retry)
          × (1 ≤ retry)
          × ((later : ℕ)
              → now + retry * second ≤ later
              → is_allowed (check sha256 second limiter identifier (some limit) later refusal.1).0
                ≡ true)
  check-retry limit requests identifier now positive one bounds full =
      let store = (checks sha256 second limiter requests empty).1 in
      let key = key_of sha256 limiter identifier in
      let good : ltb limit 1 ≡ false = ground arith in
      let shut : (check_bucket second (limiter.window * second) limit now key store).0.allowed
          ≡ false =
        rw good at full in
      rw good (
        check_bucket-Promise second (limiter.window * second) limit now key store
          (filter (is_active (limiter.window * second) now) (stamps key store)) positive one
          (checks-Short limit requests empty bounds (λ k. omega arith)) refl shut)
