-- ===== src/Ledger/Selects.antt =====
-- What a SELECT by key finds after an insert, an update or a delete.
use cogentrex.Prelude.{
  ◌≤◌, ◌≡◌, refl, ap, inl, inr, Bool, true, false, Option, none, some, List, [], ◌∷◌, ◌++◌, filter,
  select, update, matched, if◌then◌else◌, Bool-cases, arith,
}

module _ {A : Type 0} where
  abbrev pub or_else : Option A → Option A → Option A
  or_else none other = other
  or_else (some x) other = some x

  abbrev pub mapped : (A → A) → Option A → Option A
  mapped f none = none
  mapped f (some x) = some (f x)

  pub select-append :
      (m : A → Bool) (xs ys : List A) → select m (xs ++ ys) ≡ or_else (select m xs) (select m ys)
  select-append m [] ys = refl
  select-append m (x ∷ xs) ys = elim (Bool-cases (m x)) [
    | inl hit ↦ rw hit refl
    | inr miss ↦ rw miss (select-append m xs ys)
  ]

  -- An update that keeps the key.
  pub select-update :
      (m c : A → Bool) (u : A → A) (xs : List A)
      → ((x : A) → m (u x) ≡ m x)
      → select m (update c u xs) ≡ mapped (λ x. if c x then u x else x) (select m xs)
  select-update m c u [] h = refl
  select-update m c u (x ∷ xs) h = elim (Bool-cases (c x)) [
    | inl changed ↦ elim (Bool-cases (m x)) [
      | inl hit ↦ rw (changed, h x, hit) (rw changed refl)
      | inr miss ↦ rw (changed, h x, miss) (select-update m c u xs h)
    ]
    | inr kept ↦ elim (Bool-cases (m x)) [
      | inl hit ↦ rw (kept, hit) (rw kept refl)
      | inr miss ↦ rw (kept, miss) (select-update m c u xs h)
    ]
  ]

  pub select-filter_kept :
      (m p : A → Bool) (xs : List A)
      → ((x : A) → m x ≡ true → p x ≡ true)
      → select m (filter p xs) ≡ select m xs
  select-filter_kept m p [] h = refl
  select-filter_kept m p (x ∷ xs) h = elim (Bool-cases (m x)) [
    | inl hit ↦ rw (h x hit, hit) refl
    | inr miss ↦ elim (Bool-cases (p x)) [
      | inl stays ↦ rw (stays, miss) (select-filter_kept m p xs h)
      | inr goes ↦ rw (goes, miss) (select-filter_kept m p xs h)
    ]
  ]

  pub select-filter_gone :
      (m p : A → Bool) (xs : List A)
      → ((x : A) → m x ≡ true → p x ≡ false)
      → select m (filter p xs) ≡ none
  select-filter_gone m p [] h = refl
  select-filter_gone m p (x ∷ xs) h = elim (Bool-cases (m x)) [
    | inl hit ↦ rw (h x hit) (select-filter_gone m p xs h)
    | inr miss ↦ elim (Bool-cases (p x)) [
      | inl stays ↦ rw (stays, miss) (select-filter_gone m p xs h)
      | inr goes ↦ rw goes (select-filter_gone m p xs h)
    ]
  ]

  pub filter-append :
      (p : A → Bool) (xs ys : List A) → filter p (xs ++ ys) ≡ filter p xs ++ filter p ys
  filter-append p [] ys = refl
  filter-append p (x ∷ xs) ys = elim (Bool-cases (p x)) [
    | inl hit ↦ rw hit (ap (λ zs. x ∷ zs) (filter-append p xs ys))
    | inr miss ↦ rw miss (filter-append p xs ys)
  ]

  pub filter-filter_kept :
      (m p : A → Bool) (xs : List A)
      → ((x : A) → m x ≡ true → p x ≡ true)
      → filter m (filter p xs) ≡ filter m xs
  filter-filter_kept m p [] h = refl
  filter-filter_kept m p (x ∷ xs) h = elim (Bool-cases (m x)) [
    | inl hit ↦ rw (h x hit, hit) (ap (λ zs. x ∷ zs) (filter-filter_kept m p xs h))
    | inr miss ↦ elim (Bool-cases (p x)) [
      | inl stays ↦ rw (stays, miss) (filter-filter_kept m p xs h)
      | inr goes ↦ rw (goes, miss) (filter-filter_kept m p xs h)
    ]
  ]

  pub filter-filter_gone :
      (m p : A → Bool) (xs : List A)
      → ((x : A) → m x ≡ true → p x ≡ false)
      → filter m (filter p xs) ≡ []
  filter-filter_gone m p [] h = refl
  filter-filter_gone m p (x ∷ xs) h = elim (Bool-cases (m x)) [
    | inl hit ↦ rw (h x hit) (filter-filter_gone m p xs h)
    | inr miss ↦ elim (Bool-cases (p x)) [
      | inl stays ↦ rw (stays, miss) (filter-filter_gone m p xs h)
      | inr goes ↦ rw goes (filter-filter_gone m p xs h)
    ]
  ]

  pub matched-filter_le : (m p : A → Bool) (xs : List A) → matched m (filter p xs) ≤ matched m xs
  matched-filter_le m p [] = omega arith
  matched-filter_le m p (x ∷ xs) = ground (arith, matched-filter_le m p xs)

  select-counts :
      (m c : A → Bool) (xs : List A) {x : A}
      → ((y : A) → c y ≡ true → m y ≡ true)
      → select c xs ≡ some x
      → 1 ≤ matched m xs
  select-counts m c [] h e = absurd (cc)
  select-counts m c (y ∷ xs) {x} h e = elim (Bool-cases (c y)) [
    | inl hit ↦ rw (h y hit) (omega arith)
    | inr miss ↦ ground (arith, select-counts m c xs {x = x} h (rw miss at e))
  ]

  -- Where at most one row has the key, a narrower condition finds that row.
  pub select-narrow :
      (m c : A → Bool) (xs : List A) {x : A}
      → ((y : A) → c y ≡ true → m y ≡ true)
      → matched m xs ≤ 1
      → select c xs ≡ some x
      → select m xs ≡ some x
  select-narrow m c [] h one e = cc
  select-narrow m c (y ∷ xs) {x} h one e = elim (Bool-cases (c y)) [
    | inl hit ↦ rw (h y hit) (rw hit at e)
    | inr miss ↦
        let rest : select c xs ≡ some x = rw miss at e in
        elim (Bool-cases (m y)) [
          | inl found ↦ absurd (ground (arith, select-counts m c xs h rest, (rw found at one)))
          | inr unfound ↦ rw unfound (select-narrow m c xs h (rw unfound at one) rest)
        ]
  ]
