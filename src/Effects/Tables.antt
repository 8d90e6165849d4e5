-- ===== src/Effects/Tables.antt =====
-- Row counts and positions under inserts and updates.
use cogentrex.Prelude.{
  ℕ, zero, suc, ◌+◌, ◌≡◌, refl, inl, inr, Bool, true, none, some, List, [], ◌∷◌, ◌++◌, select,
  update, matched, get_elem?, Bool-cases, arith,
}
use mathlib.Core.Path.{subst}

module _ {A : Type 0} where
  pub matched-append :
      (m : A → Bool) (xs ys : List A) → matched m (xs ++ ys) ≡ matched m xs + matched m ys
  matched-append m [] ys = omega arith
  matched-append m (x ∷ xs) ys = ground (arith, matched-append m xs ys)

  pub matched-update :
      (m c : A → Bool) (u : A → A) (xs : List A)
      → ((x : A) → m (u x) ≡ m x)
      → matched m (update c u xs) ≡ matched m xs
  matched-update m c u [] h = refl
  matched-update m c u (x ∷ xs) h = elim (Bool-cases (c x)) [
    | inl hit ↦ rw (hit, h x, matched-update m c u xs h) refl
    | inr miss ↦ rw (miss, matched-update m c u xs h) refl
  ]

  pub select-matched : (m : A → Bool) (xs : List A) → select m xs ≡ none → matched m xs ≡ 0
  select-matched m [] e = refl
  select-matched m (x ∷ xs) e = ground (arith, select-matched m xs)

  pub matched-get_elem? :
      (m : A → Bool) (xs : List A)
      → matched m xs ≡ 1
      → (i : ℕ) × (x : A) × (get_elem? xs i ≡ some x) × (m x ≡ true)
  matched-get_elem? m [] e = absurd (omega (arith, e))
  matched-get_elem? m (x ∷ xs) e = elim (Bool-cases (m x)) [
    | inl hit ↦ (zero, x, refl, hit)
    | inr miss ↦
        let (i, y, at, holds) = matched-get_elem? m xs (ground arith) in (suc i, y, at, holds)
  ]

  -- Every row of the first table is in the second at its place, related to what it was.
  abbrev pub Grows : (A → A → Type 0) → List A → List A → Type 0
  Grows R xs ys =
      (i : ℕ) (x : A) → get_elem? xs i ≡ some x → (y : A) × (get_elem? ys i ≡ some y) × R x y

  pub Grows-refl : (R : A → A → Type 0) → ((x : A) → R x x) → (xs : List A) → Grows R xs xs
  Grows-refl R reflexive xs i x e = (x, e, reflexive x)

  pub Grows-append :
      (R : A → A → Type 0) → ((x : A) → R x x) → (xs more : List A) → Grows R xs (xs ++ more)
  Grows-append R reflexive [] more i x e = absurd (cc)
  Grows-append R reflexive (y ∷ xs) more zero x e = (x, e, reflexive x)
  Grows-append R reflexive (y ∷ xs) more (suc i) x e = Grows-append R reflexive xs more i x e

  pub Grows-update :
      (R : A → A → Type 0) (c : A → Bool) (u : A → A) (xs : List A)
      → ((x : A) → R x x)
      → ((x : A) → c x ≡ true → R x (u x))
      → Grows R xs (update c u xs)
  Grows-update R c u [] reflexive h i x e = absurd (cc)
  Grows-update R c u (y ∷ xs) reflexive h zero x e = elim (Bool-cases (c y)) [
    | inl hit ↦ (u y, rw hit refl, subst (λ z. R z (u y)) (cc) (h y hit))
    | inr miss ↦ (y, rw miss refl, subst (λ z. R z y) (cc) (reflexive y))
  ]
  Grows-update R c u (y ∷ xs) reflexive h (suc i) x e = Grows-update R c u xs reflexive h i x e

  -- The row that an update changed, at its place.
  pub get_elem?-update :
      (c : A → Bool) (u : A → A) (xs : List A) (i : ℕ) {x : A}
      → get_elem? xs i ≡ some x
      → c x ≡ true
      → get_elem? (update c u xs) i ≡ some (u x)
  get_elem?-update c u [] i e h = absurd (cc)
  get_elem?-update c u (y ∷ xs) zero {x} e h = let same : y ≡ x = cc in rw (same, h) refl
  get_elem?-update c u (y ∷ xs) (suc i) e h = get_elem?-update c u xs i e h
