-- ===== src/RateLimiter/Windows.antt =====
-- Counting the entries of a window, for backend/app/security/rate_limiter.py.
use cogentrex.Prelude.{
  ℕ, ◌≤◌, ◌≡◌, refl, inl, inr, Bool, true, List, [], ◌∷◌, String, length, filter, matched, str_eq,
  if◌then◌else◌, Bool-cases, eq_iff, arith,
}
use cogentrex.RateLimiter.{Store, empty, bucket, stamps, assign, is_active}

module _ {A : Type 0} where
  pub length-filter : (p : A → Bool) (xs : List A) → length (filter p xs) ≡ matched p xs
  length-filter p [] = refl
  length-filter p (x ∷ xs) = ground (arith, length-filter p xs)

  pub matched-le-length : (m : A → Bool) (xs : List A) → matched m xs ≤ length xs
  matched-le-length m [] = omega arith
  matched-le-length m (x ∷ xs) = ground (arith, matched-le-length m xs)

  -- A narrower test counts no more.
  pub matched_mono :
      (m n : A → Bool) (xs : List A)
      → ((x : A) → m x ≡ true → n x ≡ true)
      → matched m xs ≤ matched n xs
  matched_mono m n [] h = omega arith
  matched_mono m n (x ∷ xs) h = ground (arith, matched_mono m n xs h, h x)

  -- Nothing is lost by a filter that is wider than the test.
  pub matched-filter :
      (m p : A → Bool) (xs : List A)
      → ((x : A) → m x ≡ true → p x ≡ true)
      → matched m (filter p xs) ≡ matched m xs
  matched-filter m p [] h = refl
  matched-filter m p (x ∷ xs) h = ground (arith, matched-filter m p xs h, h x)

pub stamps-assign :
    (key k : String) (new : List ℕ) (store : Store)
    → stamps k (assign key new store) ≡ (if str_eq key k then new else stamps k store)
stamps-assign key k new empty = refl
stamps-assign key k new (bucket other entries rest) = elim (Bool-cases (str_eq other key)) [
  | inl hit ↦ let same : other ≡ key = (eq_iff other key).0 hit in rw hit (rw same (ground arith))
  | inr miss ↦
      rw miss (
        ground
          (arith, stamps-assign key k new rest, eq_iff other key, eq_iff other k, eq_iff key k))
]

-- An entry that is active later is active now.
pub is_active_earlier :
    (window now later : ℕ)
    → now ≤ later
    → (x : ℕ) → is_active window later x ≡ true
    → is_active window now x ≡ true
is_active_earlier window now later le x h = ground arith
