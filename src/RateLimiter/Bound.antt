-- ===== src/RateLimiter/Bound.antt =====
-- How many requests the limiter of backend/app/security/rate_limiter.py admits in a window.
use cogentrex.Prelude.{
  ℕ, ◌+◌, ◌*◌, ◌≤◌, ◌≡◌, refl, sym, ◌∙◌, ap, inl, inr, Bool, false, ◌&&◌, List, [], ◌∷◌, ◌++◌,
  String, All, matched, bit, str_eq, leb, ltb, ltb→lt, if◌then◌else◌, Bool-cases, map, arith,
  eq_iff, &&-elim,
}
use cogentrex.Effects.Tables.{matched-append}
use cogentrex.RateLimiter.{
  RateLimiter, RateLimitResult, Checked, passed, refused, empty, is_active, key_of, limit_of,
}
use cogentrex.RateLimiter.Windows.{matched_mono, is_active_earlier}
use cogentrex.RateLimiter.History.{
  Request, Admission, Verdict, verdict, Later, used, admits, judge, record_admission, checks,
  judge_all, units, admitted, turned_away, invalid,
}
use cogentrex.RateLimiter.Refinement.{checks-refine}

-- The admissions of one window of a key, its end included.
abbrev pub within : ℕ → ℕ → String → List Admission → ℕ
within window t k log = matched (λ a. str_eq a.key k && (is_active window t a.at && leb a.at t)) log

within-append :
    (window t : ℕ) (k : String) (log more : List Admission)
    → within window t k (log ++ more) ≡ within window t k log + within window t k more
within-append window t k log more =
    matched-append (λ a. str_eq a.key k && (is_active window t a.at && leb a.at t)) log more

-- A window that ends later counts no more of the past than one that ends now.
within-used :
    (window now t : ℕ) (k : String) (log : List Admission)
    → now ≤ t
    → within window t k log ≤ used window now k log
within-used window now t k log le =
    matched_mono (λ a. str_eq a.key k && (is_active window t a.at && leb a.at t))
      (λ a. str_eq a.key k && is_active window now a.at) log
      (λ a h. ground (arith, is_active_earlier window now t le a.at))

module _ (sha256 : String → String) (second : ℕ) (limiter : RateLimiter) where
  -- The requests that were allowed.
  abbrev pub admissions : List Request → List (Checked RateLimitResult) → List Admission
  admissions (request ∷ requests) (passed result ∷ results) =
      let rest = admissions requests results in
      if result.allowed
      then record { key = key_of sha256 limiter request.identifier; at = request.at } ∷ rest
      else rest
  admissions (request ∷ requests) (refused error ∷ results) = admissions requests results
  admissions _ _ = []

  -- The same, from the verdicts.
  abbrev granted : List Request → List Verdict → List Admission
  granted (request ∷ requests) (admitted n ∷ verdicts) =
      record { key = key_of sha256 limiter request.identifier; at = request.at }
      ∷ granted requests verdicts
  granted (request ∷ requests) (turned_away n ∷ verdicts) = granted requests verdicts
  granted (request ∷ requests) (invalid ∷ verdicts) = granted requests verdicts
  granted _ _ = []

  granted-verdict :
      (requests : List Request) (results : List (Checked RateLimitResult))
      → granted requests (map verdict results) ≡ admissions requests results
  granted-verdict [] [] = refl
  granted-verdict [] (x ∷ results) = refl
  granted-verdict (request ∷ requests) [] = refl
  granted-verdict (request ∷ requests) (passed result ∷ results) =
      elim (Bool-cases result.allowed) [
        | inl hit ↦ rw (hit, granted-verdict requests results) refl
        | inr miss ↦ rw (miss, granted-verdict requests results) refl
      ]
  granted-verdict (request ∷ requests) (refused error ∷ results) = granted-verdict requests results

  -- Whether a request is admitted to the window.
  abbrev joins : ℕ → String → Request → List Admission → Bool
  joins t k request log =
      admits sha256 second limiter request log
      && (str_eq (key_of sha256 limiter request.identifier) k
          && (is_active (limiter.window * second) t request.at && leb request.at t))

  joins-room :
      (most t : ℕ) (k : String) (request : Request) (log : List Admission)
      → limit_of limiter request.max_requests ≤ most
      → within (limiter.window * second) t k log ≤ most
      → within (limiter.window * second) t k log + bit (joins t k request log) ≤ most
  joins-room most t k request log bound h = elim (Bool-cases (joins t k request log)) [
    | inl joined ↦
        let (room, there) =
          &&-elim (admits sha256 second limiter request log)
            (str_eq (key_of sha256 limiter request.identifier) k
              && (is_active (limiter.window * second) t request.at && leb request.at t))
            joined in
        let (same_key, now) =
          &&-elim (str_eq (key_of sha256 limiter request.identifier) k)
            (is_active (limiter.window * second) t request.at && leb request.at t) there in
        let same : key_of sha256 limiter request.identifier ≡ k =
          (eq_iff (key_of sha256 limiter request.identifier) k).0 same_key in
        let before = within-used (limiter.window * second) request.at t k log (ground arith) in
        rw joined (
          omega (
            arith,
            bound,
            before,
            ltb→lt (units sha256 second limiter request log) (limit_of limiter request.max_requests)
                room,
            ap (λ key. used (limiter.window * second) request.at key log) same,
          ))
    | inr out ↦ rw out (omega (arith, h))
  ]

  record_admission-within :
      (t : ℕ) (k : String) (request : Request) (log : List Admission)
      → within (limiter.window * second) t k (record_admission sha256 second limiter request log)
        ≡ within (limiter.window * second) t k log + bit (joins t k request log)
  record_admission-within t k request log =
      elim (Bool-cases (admits sha256 second limiter request log)) [
        | inl hit ↦ rw hit (within-append (limiter.window * second) t k log (_ ∷ []) ∙ ground arith)
        | inr miss ↦ rw miss (omega arith)
      ]

  granted-within :
      (t : ℕ) (k : String) (request : Request) (log : List Admission) (requests : List Request)
      (verdicts : List Verdict)
      → within
          (limiter.window * second)
          t
          k
          (granted (request ∷ requests) (judge sha256 second limiter request log ∷ verdicts))
        ≡ bit (joins t k request log)
          + within (limiter.window * second) t k (granted requests verdicts)
  granted-within t k request log requests verdicts =
      elim (Bool-cases (ltb (limit_of limiter request.max_requests) 1)) [
        | inl bad ↦
            let shut : admits sha256 second limiter request log ≡ false = ground arith in
            rw (bad, shut) (omega arith)
        | inr good ↦ elim (Bool-cases (admits sha256 second limiter request log)) [
          | inl hit ↦ rw (good, hit) (ground arith)
          | inr miss ↦ rw (good, miss) (omega arith)
        ]
      ]

  judge_all-within :
      (most t : ℕ) (k : String) (requests : List Request) (log : List Admission)
      → All (λ r. limit_of limiter r.max_requests ≤ most) requests
      → within (limiter.window * second) t k log ≤ most
      → within (limiter.window * second) t k log
          + within
              (limiter.window * second)
              t
              k
              (granted requests (judge_all sha256 second limiter requests log).0)
        ≤ most
  judge_all-within most t k [] log bounds h = omega (arith, h)
  judge_all-within most t k (request ∷ requests) log bounds h =
      let recorded = record_admission-within t k request log in
      let rest =
        judge_all-within most t k requests (record_admission sha256 second limiter request log)
          bounds.1 (rw recorded (joins-room most t k request log bounds.0 h)) in
      rw
        (granted-within t k request log requests
          (judge_all sha256 second limiter requests
            (record_admission sha256 second limiter request log)).0)
        (omega (arith, rest, recorded))

  -- However the requests fall, no window has more admissions of a key than the greatest limit that
  -- they name, when they come in the order of their times.
  pub admissions-bound :
      (most t : ℕ) (k : String) (requests : List Request)
      → Later 0 requests
      → All (λ r. limit_of limiter r.max_requests ≤ most) requests
      → within
          (limiter.window * second)
          t
          k
          (admissions requests (checks sha256 second limiter requests empty).0)
        ≤ most
  admissions-bound most t k requests later bounds =
      rw
        (
          sym (granted-verdict requests (checks sha256 second limiter requests empty).0),
          checks-refine sha256 second limiter requests later,
        )
        (omega (arith, judge_all-within most t k requests [] bounds (omega arith)))
