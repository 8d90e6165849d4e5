-- ===== src/Ledger/Takes.antt =====
-- The first elements of a list and the rest, and filters that agree.
use cogentrex.Prelude.{
  take, drop, ℕ, zero, suc, ◌+◌, ◌≤◌, ◌≡◌, refl, sym, ◌∙◌, ap, inl, inr, Bool, List, [], ◌∷◌, ◌++◌,
  filter, length, All, ltb, if◌then◌else◌, Bool-cases, arith,
}

module _ {A : Type 0} where
  pub filter-ext :
      (p q : A → Bool) (xs : List A) → All (λ x. p x ≡ q x) xs → filter p xs ≡ filter q xs
  filter-ext p q [] h = refl
  filter-ext p q (x ∷ xs) h = elim (Bool-cases (q x)) [
    | inl hit ↦ rw (h.0, hit) (ap (λ ys. x ∷ ys) (filter-ext p q xs h.1))
    | inr miss ↦ rw (h.0, miss) (filter-ext p q xs h.1)
  ]

  pub All-take : (P : A → Type 0) (n : ℕ) (xs : List A) → All P xs → All P (take n xs)
  All-take P zero xs h = tt
  All-take P (suc n) [] h = tt
  All-take P (suc n) (x ∷ xs) h = (h.0, All-take P n xs h.1)

  pub All-drop : (P : A → Type 0) (n : ℕ) (xs : List A) → All P xs → All P (drop n xs)
  All-drop P zero xs h = h
  All-drop P (suc n) [] h = tt
  All-drop P (suc n) (x ∷ xs) h = All-drop P n xs h.1

  pub take_all : (n : ℕ) (xs : List A) → length xs ≤ n → take n xs ≡ xs
  take_all zero [] h = refl
  take_all zero (x ∷ xs) h = absurd (omega (arith, h))
  take_all (suc n) [] h = refl
  take_all (suc n) (x ∷ xs) h = ap (λ ys. x ∷ ys) (take_all n xs (omega (arith, h)))

  pub take_none : (m : ℕ) → take {A = A} m [] ≡ []
  take_none zero = refl
  take_none (suc m) = refl

  pub take-drop : (n m : ℕ) (xs : List A) → take (n + m) xs ≡ take n xs ++ take m (drop n xs)
  take-drop zero m xs = let same : 0 + m ≡ m = omega arith in rw same refl
  take-drop (suc n) m [] = take_none (suc n + m) ∙ sym (take_none m)
  take-drop (suc n) m (x ∷ xs) =
      let same : suc n + m ≡ suc (n + m) = omega arith in
      rw same (ap (λ ys. x ∷ ys) (take-drop n m xs))

  pub length-take :
      (n : ℕ) (xs : List A) → length (take n xs) ≡ (if ltb (length xs) n then length xs else n)
  length-take zero xs = ground arith
  length-take (suc n) [] = ground arith
  length-take (suc n) (x ∷ xs) = ground (arith, length-take n xs)
