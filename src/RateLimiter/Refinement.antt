-- ===== src/RateLimiter/Refinement.antt =====
-- The limiter of backend/app/security/rate_limiter.py against one that remembers every admission.
use cogentrex.Prelude.{ℕ, ◌*◌, ◌≡◌, refl, ◌&&◌, List, [], ◌∷◌, String, matched, str_eq, leb, map}
use cogentrex.RateLimiter.{RateLimiter, Store, empty, is_active}
use cogentrex.RateLimiter.History.{Request, Admission, verdict, Later, checks, judge_all}
use cogentrex.RateLimiter.Agreement.{Agree, start-Agree, check-judge, check-Agree}

-- The admissions of one window of a key, its end included.
abbrev pub within : ℕ → ℕ → String → List Admission → ℕ
within window t k log = matched (λ a. str_eq a.key k && (is_active window t a.at && leb a.at t)) log

module _ (sha256 : String → String) (second : ℕ) (limiter : RateLimiter) where
  -- The verdicts from a store and a history that agree.
  checks-judge_all :
      (requests : List Request) {now : ℕ} {store : Store} {log : List Admission}
      → Agree (limiter.window * second) now store log
      → Later now requests
      → map verdict (checks sha256 second limiter requests store).0
        ≡ (judge_all sha256 second limiter requests log).0
  checks-judge_all [] h later = refl
  checks-judge_all (request ∷ requests) h later =
      rw
        (
          check-judge sha256 second limiter request h later.0,
          checks-judge_all requests (check-Agree sha256 second limiter request h later.0) later.1,
        )
        refl

  -- On requests in the order of their times, the limiter's verdicts, with the units used, are those of a
  -- limiter that keeps every admission and counts those of the window.
  pub checks-refine :
      (requests : List Request)
      → Later 0 requests
      → map verdict (checks sha256 second limiter requests empty).0
        ≡ (judge_all sha256 second limiter requests []).0
  checks-refine requests later =
      checks-judge_all requests (start-Agree (limiter.window * second)) later
