-- ===== src/Prelude/Tables.antt =====
-- A database table as a list of rows: `SELECT`, `UPDATE ... WHERE` with its row count, and sums.
use Prim.Native.Nat.{ℕ, zero, suc, ◌+◌, ◌*◌}
use mathlib.Core.Path.{◌≡◌, refl}
use mathlib.Core.Bool.{Bool, true, false}
use mathlib.Core.Option.{Option, none, some}
use mathlib.Core.List.{List, [], ◌∷◌, ◌++◌}
use native.Mathlib.Omega.{arith}
use mathlib.Core.Logic.{inl, inr}
use cogentrex.Prelude.Lists.{All, get_elem?, remove}
use cogentrex.Prelude.Tests.{if◌then◌else◌, Bool-cases}

abbrev pub bit : Bool → ℕ
bit true = 1
bit false = 0

module _ {ℓ} {A : Type ℓ} where
  -- The first row that satisfies the condition.
  abbrev pub select : (A → Bool) → List A → Option A
  select m [] = none
  select m (x ∷ xs) = if m x then some x else select m xs

  abbrev pub update : (A → Bool) → (A → A) → List A → List A
  update m u [] = []
  update m u (x ∷ xs) = (if m x then u x else x) ∷ update m u xs

  -- The row count of an update.
  abbrev pub matched : (A → Bool) → List A → ℕ
  matched m [] = 0
  matched m (x ∷ xs) = let rest = matched m xs in if m x then suc rest else rest

  abbrev pub sum : (A → ℕ) → List A → ℕ
  sum f [] = 0
  sum f (x ∷ xs) = f x + sum f xs

  pub sum-append : (f : A → ℕ) (xs ys : List A) → sum f (xs ++ ys) ≡ sum f xs + sum f ys
  sum-append f [] ys = omega arith
  sum-append f (x ∷ xs) ys = omega (arith, sum-append f xs ys)

  -- An update that moves each matched row's weight from `e` more to `d` more moves the sum so.
  pub sum-update :
      (f : A → ℕ) (m : A → Bool) (u : A → A) (d e : ℕ) (xs : List A)
      → ((x : A) → m x ≡ true → f (u x) + d ≡ f x + e)
      → sum f (update m u xs) + matched m xs * d ≡ sum f xs + matched m xs * e
  sum-update f m u d e [] h = omega arith
  sum-update f m u d e (x ∷ xs) h = elim (Bool-cases (m x)) [
    | inl hit ↦ rw hit (omega (arith, sum-update f m u d e xs h, h x hit))
    | inr miss ↦ rw miss (omega (arith, sum-update f m u d e xs h))
  ]

  pub select-holds : (m : A → Bool) (xs : List A) {x : A} → select m xs ≡ some x → m x ≡ true
  select-holds m [] e = cc
  select-holds m (y ∷ xs) {x} e = ground (arith, select-holds m xs {x = x})

  pub matched-remove :
      (m : A → Bool) (xs : List A) (i : ℕ) {y : A}
      → get_elem? xs i ≡ some y
      → matched m xs ≡ matched m (remove xs i) + bit (m y)
  matched-remove m [] i e = cc
  matched-remove m (x ∷ xs) zero e = ground arith
  matched-remove m (x ∷ xs) (suc i) e = ground (arith, matched-remove m xs i e)

  pub matched_none : (m : A → Bool) (xs : List A) → All (λ x. m x ≡ false) xs → matched m xs ≡ 0
  matched_none m [] h = refl
  matched_none m (x ∷ xs) h = rw h.0 (matched_none m xs h.1)

  pub select-found :
      (m : A → Bool) (xs : List A) (i : ℕ) {x : A}
      → get_elem? xs i ≡ some x
      → m x ≡ true
      → (y : A) × (select m xs ≡ some y)
  select-found m [] i e h = cc
  select-found m (y ∷ xs) zero e h = (y, ground arith)
  select-found m (y ∷ xs) (suc i) e h =
      let (z, found) = select-found m xs i e h in
      elim (Bool-cases (m y)) [ inl hit ↦ (y, rw hit) | inr miss ↦ (z, rw miss found) ]
