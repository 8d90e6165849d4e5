-- ===== src/RateLimiter/History.antt =====
-- Sequences of requests to the limiter of backend/app/security/rate_limiter.py, and a limiter that
-- remembers every admission.
use cogentrex.Prelude.{
  ℕ, suc, ◌*◌, ◌≤◌, Bool, ◌&&◌, Option, List, [], ◌∷◌, ◌++◌, String, matched, str_eq, ltb,
  if◌then◌else◌,
}
use cogentrex.RateLimiter.{
  RateLimiter, RateLimitResult, Checked, passed, refused, Store, is_active, key_of, limit_of, check,
}

pub record Request : Type 0 where
  pub identifier : String
  pub max_requests : Option ℕ
  pub at : ℕ

pub record Admission : Type 0 where
  pub key : String
  pub at : ℕ

-- What a caller sees of a check, with the number of units used in the window.
pub data Verdict : Type 0 where
  invalid : Verdict
  admitted turned_away : ℕ → Verdict

abbrev pub verdict : Checked RateLimitResult → Verdict
verdict (refused error) = invalid
verdict (passed result) =
    if result.allowed then admitted result.current else turned_away result.current

-- No request is earlier than one before it.
abbrev pub Later : ℕ → List Request → Type 0
Later now [] = Unit
Later now (request ∷ requests) = (now ≤ request.at) × Later request.at requests

-- The units of a key that are used in the window that ends at an instant.
abbrev pub used : ℕ → ℕ → String → List Admission → ℕ
used window now key log = matched (λ a. str_eq a.key key && is_active window now a.at) log

module _ (sha256 : String → String) (second : ℕ) (limiter : RateLimiter) where
  abbrev pub checks : List Request → Store → List (Checked RateLimitResult) × Store
  checks [] store = ([], store)
  checks (request ∷ requests) store =
      let (result, left) =
        check sha256 second limiter request.identifier request.max_requests request.at store in
      let (results, last) = checks requests left in (result ∷ results, last)

  -- The limiter that keeps the whole history.
  abbrev pub units : Request → List Admission → ℕ
  units request log =
      used (limiter.window * second) request.at (key_of sha256 limiter request.identifier) log

  abbrev pub admits : Request → List Admission → Bool
  admits request log = ltb (units request log) (limit_of limiter request.max_requests)

  abbrev pub judge : Request → List Admission → Verdict
  judge request log =
      if ltb (limit_of limiter request.max_requests) 1
      then invalid
      else if admits request log
      then admitted (suc (units request log))
      else turned_away (units request log)

  abbrev pub record_admission : Request → List Admission → List Admission
  record_admission request log =
      if admits request log
      then log ++ (record { key = key_of sha256 limiter request.identifier; at = request.at } ∷ [])
      else log

  abbrev pub judge_all : List Request → List Admission → List Verdict × List Admission
  judge_all [] log = ([], log)
  judge_all (request ∷ requests) log =
      let (verdicts, last) = judge_all requests (record_admission request log) in
      (judge request log ∷ verdicts, last)
