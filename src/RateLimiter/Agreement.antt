-- ===== src/RateLimiter/Agreement.antt =====
-- The store of backend/app/security/rate_limiter.py counts what the whole history counts.
use cogentrex.Prelude.{
  ℕ, suc, ◌+◌, ◌*◌, ◌≤◌, ◌≡◌, refl, sym, ◌∙◌, ap, inl, inr, ◌&&◌, List, [], ◌∷◌, ◌++◌, String,
  length, filter, matched, bit, str_eq, ltb, if◌then◌else◌, Bool-cases, arith, eq_iff,
  length-append,
}
use cogentrex.Effects.Tables.{matched-append}
use cogentrex.RateLimiter.{
  RateLimiter, passed, Store, empty, stamps, is_active, kept, key_of, limit_of, check, check_bucket,
  result_of,
}
use cogentrex.RateLimiter.Windows.{length-filter, matched-filter, stamps-assign, is_active_earlier}
use cogentrex.RateLimiter.History.{
  Request, Admission, admitted, turned_away, verdict, used, admits, judge, record_admission,
}

-- The store has, of each key, what the history has in every window that ends now or later.
pub record Agree (window now : ℕ) (store : Store) (log : List Admission) : Type 0 where
  pub counts :
      (key : String) (t : ℕ)
      → now ≤ t
      → matched (is_active window t) (stamps key store) ≡ used window t key log

pub start-Agree : (window : ℕ) → Agree window 0 empty []
start-Agree window = record { counts = λ key t le. refl }

bucket-used :
    {window : ℕ} {last : ℕ} (now : ℕ) (key : String) {store : Store} {log : List Admission}
    → Agree window last store log
    → last ≤ now
    → length (filter (is_active window now) (stamps key store)) ≡ used window now key log
bucket-used {window} now key {store} h le =
    length-filter (is_active window now) (stamps key store) ∙ h.counts key now le

matched-kept :
    (window limit now t : ℕ) (entries : List ℕ)
    → matched (is_active window t) (kept window limit now entries)
      ≡ matched (is_active window t) entries
        + bit (ltb (length entries) limit && is_active window t now)
matched-kept window limit now t entries =
    ground (arith, matched-append (is_active window t) entries (now ∷ []))

-- What a window of the store counts after a check of the same or of another key.
check_bucket-counts :
    (second window limit now : ℕ) (key k : String) (t : ℕ) (store : Store)
    → now ≤ t
    → let entries = filter (is_active window now) (stamps key store) in
      matched (is_active window t) (stamps k (check_bucket second window limit now key store).1)
      ≡ matched (is_active window t) (stamps k store)
        + bit (ltb (length entries) limit && (str_eq key k && is_active window t now))
check_bucket-counts second window limit now key k t store le =
    let entries = filter (is_active window now) (stamps key store) in
    let kept_rows = matched-kept window limit now t entries in
    let unfiltered =
      matched-filter (is_active window t) (is_active window now) (stamps key store)
        (is_active_earlier window now t le) in
    elim (Bool-cases (str_eq key k)) [
      | inl hit ↦
          let same : key ≡ k = (eq_iff key k).0 hit in
          rw (stamps-assign key k (kept window limit now entries) store, hit)
            (kept_rows ∙ rw (unfiltered, same) refl)
      | inr miss ↦
          rw (stamps-assign key k (kept window limit now entries) store, miss) (ground arith)
    ]

-- A test on the extended history.
pub used-append :
    (window t : ℕ) (k : String) (log : List Admission) (a : Admission)
    → used window t k (log ++ (a ∷ []))
      ≡ used window t k log + bit (str_eq a.key k && is_active window t a.at)
used-append window t k log a =
    ground (arith, matched-append (λ x. str_eq x.key k && is_active window t x.at) log (a ∷ []))

verdict-result_of :
    (second window limit now : ℕ) (entries : List ℕ)
    → verdict (
        passed (
          result_of second window limit now
            (ltb (length entries) limit)
            (kept window limit now entries)))
      ≡ (if ltb (length entries) limit
          then admitted (suc (length entries))
          else turned_away (length entries))
verdict-result_of second window limit now entries = elim (Bool-cases (ltb (length entries) limit)) [
  | inl hit ↦ rw hit (ap admitted (omega (arith, length-append entries (now ∷ []))))
  | inr miss ↦ rw miss refl
]

module _ (sha256 : String → String) (second : ℕ) (limiter : RateLimiter) where
  record_admission-used :
      (request : Request) (log : List Admission) (k : String) (t : ℕ)
      → used (limiter.window * second) t k (record_admission sha256 second limiter request log)
        ≡ used (limiter.window * second) t k log
          + bit (
              admits sha256 second limiter request log
              && (str_eq (key_of sha256 limiter request.identifier) k
                  && is_active (limiter.window * second) t request.at))
  record_admission-used request log k t =
      elim (Bool-cases (admits sha256 second limiter request log)) [
        | inl hit ↦ rw hit (
            used-append (limiter.window * second) t k log
              (record { key = key_of sha256 limiter request.identifier; at = request.at }))
        | inr miss ↦ rw miss (omega arith)
      ]

  -- One check gives the verdict of the history.
  pub check-judge :
      {now : ℕ} {store : Store} {log : List Admission} (request : Request)
      → Agree (limiter.window * second) now store log
      → now ≤ request.at
      → verdict
          (check sha256 second limiter request.identifier request.max_requests request.at store).0
        ≡ judge sha256 second limiter request log
  check-judge {store = store} {log = log} request h le =
      let limit = limit_of limiter request.max_requests in
      let same = bucket-used request.at (key_of sha256 limiter request.identifier) h le in
      elim (Bool-cases (ltb limit 1)) [
        | inl bad ↦ rw bad refl
        | inr good ↦ rw good (
            verdict-result_of second (limiter.window * second) limit request.at (
              filter (is_active (limiter.window * second) request.at)
                (stamps (key_of sha256 limiter request.identifier) store))
            ∙ rw same refl)
      ]

  check-counts :
      (store : Store) (request : Request) (k : String) (t : ℕ)
      → request.at ≤ t
      → let entries =
          filter
            (is_active (limiter.window * second) request.at)
            (stamps (key_of sha256 limiter request.identifier) store) in
        matched (is_active (limiter.window * second) t) (
          stamps k
            (check sha256 second limiter request.identifier request.max_requests request.at
              store).1)
        ≡ matched (is_active (limiter.window * second) t) (stamps k store)
          + bit (
              ltb (length entries) (limit_of limiter request.max_requests)
              && (str_eq (key_of sha256 limiter request.identifier) k
                  && is_active (limiter.window * second) t request.at))
  check-counts store request k t le =
      let limit = limit_of limiter request.max_requests in
      elim (Bool-cases (ltb limit 1)) [
        | inl bad ↦ rw bad (ground arith)
        | inr good ↦ rw good (
            check_bucket-counts second (limiter.window * second) limit request.at
              (key_of sha256 limiter request.identifier) k t store le)
      ]

  pub check-Agree :
      {now : ℕ} {store : Store} {log : List Admission} (request : Request)
      → Agree (limiter.window * second) now store log
      → now ≤ request.at
      → Agree
          (limiter.window * second)
          request.at
          (check sha256 second limiter request.identifier request.max_requests request.at store).1
          (record_admission sha256 second limiter request log)
  check-Agree {store = store} {log = log} request h le = record {
    counts = λ k t le2.
        check-counts store request k t le2
        ∙ rw
            (
              bucket-used request.at (key_of sha256 limiter request.identifier) h le,
              h.counts k t (omega (arith, le, le2)),
            )
            (sym (record_admission-used request log k t));
  }
