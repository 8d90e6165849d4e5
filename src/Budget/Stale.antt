-- ===== src/Budget/Stale.antt =====
-- What the loop of `recover_stale` does to the charges.
use cogentrex.Prelude.{
  ℕ, ◌+◌, ◌≡◌, ◌⊎◌, refl, sym, ◌∙◌, inl, inr, Bool, true, false, ◌&&◌, List, [], ◌∷◌, All, matched,
  update, ltb, Bool-cases, if◌then◌else◌, arith, ok,
}
use cogentrex.Budget.Rows.{
  ChargeState, ChargeRow, Db, Outcome, is_active, is_reserved, released, indeterminate,
}
use cogentrex.Budget.Recovery.{Candidate, stale_condition}

abbrev pub is_stale : ℕ → ChargeRow → Bool
is_stale cutoff row = is_active row.state && ltb row.updated_at cutoff

abbrev pub recovered_state : ChargeState → ChargeState
recovered_state state = if is_reserved state then released else indeterminate

-- A stale reservation that is released, or a stale dispatch that becomes indeterminate; its
-- identity, its quote and its price stay.
pub record Recovered (cutoff : ℕ) (row row' : ChargeRow) : Type 0 where
  pub stale : is_stale cutoff row ≡ true
  pub new_state : row'.state ≡ recovered_state row.state
  pub charge_id : row'.charge_id ≡ row.charge_id
  pub owner_id : row'.owner_id ≡ row.owner_id
  pub project_id : row'.project_id ≡ row.project_id
  pub run_id : row'.run_id ≡ row.run_id
  pub ordinal : row'.ordinal ≡ row.ordinal
  pub reserved_nusd : row'.reserved_nusd ≡ row.reserved_nusd
  pub actual_nusd : row'.actual_nusd ≡ row.actual_nusd

-- The same charges, of which some stale ones are recovered.
abbrev pub RecoveredAll : ℕ → List ChargeRow → List ChargeRow → Type 0
RecoveredAll cutoff [] [] = Unit
RecoveredAll cutoff [] (y ∷ ys) = ⊥
RecoveredAll cutoff (x ∷ xs) [] = ⊥
RecoveredAll cutoff (x ∷ xs) (y ∷ ys) = ((y ≡ x) ⊎ Recovered cutoff x y) × RecoveredAll cutoff xs ys

pub RecoveredAll-refl : (cutoff : ℕ) (xs : List ChargeRow) → RecoveredAll cutoff xs xs
RecoveredAll-refl cutoff [] = tt
RecoveredAll-refl cutoff (x ∷ xs) = (inl refl, RecoveredAll-refl cutoff xs)

recovered_state-inactive : (s : ChargeState) → is_active (recovered_state s) ≡ false
recovered_state-inactive s = ground arith

-- A recovered charge is not stale.
pub Recovered-stale :
    (cutoff : ℕ) (x y : ChargeRow) → Recovered cutoff x y → is_stale cutoff y ≡ false
Recovered-stale cutoff x y h = rw (h.new_state, recovered_state-inactive x.state) refl

Recovered-trans :
    (cutoff : ℕ) (x y z : ChargeRow)
    → (y ≡ x) ⊎ Recovered cutoff x y
    → (z ≡ y) ⊎ Recovered cutoff y z
    → (z ≡ x) ⊎ Recovered cutoff x z
Recovered-trans cutoff x y z (inl e) (inl e') = inl (e' ∙ e)
Recovered-trans cutoff x y z (inl e) (inr h) = inr (rw e at h)
Recovered-trans cutoff x y z (inr h) (inl e') = inr (rw e' h)
Recovered-trans cutoff x y z (inr h) (inr h') =
    let clash = sym (Recovered-stale cutoff x y h) ∙ h'.stale in absurd (cc)

pub RecoveredAll-trans :
    (cutoff : ℕ) (xs ys zs : List ChargeRow)
    → RecoveredAll cutoff xs ys
    → RecoveredAll cutoff ys zs
    → RecoveredAll cutoff xs zs
RecoveredAll-trans cutoff [] [] [] h k = tt
RecoveredAll-trans cutoff [] [] (z ∷ zs) h k = k
RecoveredAll-trans cutoff [] (y ∷ ys) zs h k = absurd h
RecoveredAll-trans cutoff (x ∷ xs) [] zs h k = absurd h
RecoveredAll-trans cutoff (x ∷ xs) (y ∷ ys) [] h k = k
RecoveredAll-trans cutoff (x ∷ xs) (y ∷ ys) (z ∷ zs) h k =
    (Recovered-trans cutoff x y z h.0 k.0, RecoveredAll-trans cutoff xs ys zs h.1 k.1)

module _ (cutoff : ℕ) (cond : ChargeRow → Bool) (change : ChargeRow → ChargeRow)
    (each : (x : ChargeRow) → cond x ≡ true → Recovered cutoff x (change x)) where
  pub update-RecoveredAll : (xs : List ChargeRow) → RecoveredAll cutoff xs (update cond change xs)
  update-RecoveredAll [] = tt
  update-RecoveredAll (x ∷ xs) = elim (Bool-cases (cond x)) [
    | inl hit ↦ rw hit (inr (each x hit), update-RecoveredAll xs)
    | inr miss ↦ rw miss (inl refl, update-RecoveredAll xs)
  ]

  -- Each row that the update matches was stale, and is not stale after it.
  pub update-stale :
      (xs : List ChargeRow)
      → matched (is_stale cutoff) xs
        ≡ matched cond xs + matched (is_stale cutoff) (update cond change xs)
  update-stale [] = omega arith
  update-stale (x ∷ xs) = elim (Bool-cases (cond x)) [
    | inl hit ↦
        let h = each x hit in
        let before = h.stale in
        let after = Recovered-stale cutoff x (change x) h in
        rw (hit, before, after) (omega (arith, update-stale xs))
    | inr miss ↦ elim (Bool-cases (is_stale cutoff x)) [
      | inl here ↦ rw (miss, here) (omega (arith, update-stale xs))
      | inr gone ↦ rw (miss, gone) (omega (arith, update-stale xs))
    ]
  ]

  -- After the update no row satisfies the condition.
  pub update-cleared : (xs : List ChargeRow) → All (λ x. cond x ≡ false) (update cond change xs)
  update-cleared [] = tt
  update-cleared (x ∷ xs) = elim (Bool-cases (cond x)) [
    | inr miss ↦ rw miss (miss, update-cleared xs)
    | inl hit ↦ rw hit (elim (Bool-cases (cond (change x))) [
      | inr done ↦ (done, update-cleared xs)
      | inl again ↦
          let clash =
            sym (Recovered-stale cutoff x (change x) (each x hit))
            ∙ (each (change x) again).stale in
          absurd (cc)
    ])
  ]

-- What one transaction or the loop does: it moves stale charges only, counts them when it ends well,
-- and then leaves none that its candidates describe.
abbrev pub Cleared : ℕ → List ChargeRow → Candidate → Type 0
Cleared cutoff rows k = All (λ row. stale_condition cutoff k row ≡ false) rows

pub record Recovers (cutoff : ℕ) (ks : List Candidate) (db : Db) (outcome : Outcome ℕ)
    : Type 0 where
  pub moved : RecoveredAll cutoff db.charges outcome.1.charges
  pub counted :
      (n : ℕ)
      → outcome.0 ≡ ok n
      → matched (is_stale cutoff) db.charges ≡ n + matched (is_stale cutoff) outcome.1.charges
  pub cleared : (n : ℕ) → outcome.0 ≡ ok n → All (Cleared cutoff outcome.1.charges) ks

pub stale_condition-stale :
    (cutoff : ℕ) (k : Candidate) (x : ChargeRow)
    → stale_condition cutoff k x ≡ true
    → is_stale cutoff x ≡ true
stale_condition-stale cutoff k x h = ground (arith, h)

-- The rows that are recovered satisfy no candidate's condition.
pub RecoveredAll-Cleared :
    (cutoff : ℕ) (k : Candidate) (xs ys : List ChargeRow)
    → RecoveredAll cutoff xs ys
    → Cleared cutoff xs k
    → Cleared cutoff ys k
RecoveredAll-Cleared cutoff k [] [] r h = tt
RecoveredAll-Cleared cutoff k [] (y ∷ ys) r h = absurd r
RecoveredAll-Cleared cutoff k (x ∷ xs) [] r h = absurd r
RecoveredAll-Cleared cutoff k (x ∷ xs) (y ∷ ys) (inl same, r) h =
    (rw same h.0, RecoveredAll-Cleared cutoff k xs ys r h.1)
RecoveredAll-Cleared cutoff k (x ∷ xs) (y ∷ ys) (inr done, r) h =
    let cold = Recovered-stale cutoff x y done in
    let rest = RecoveredAll-Cleared cutoff k xs ys r h.1 in
    elim (Bool-cases (stale_condition cutoff k y)) [
      | inr miss ↦ (miss, rest)
      | inl hit ↦ let clash = sym cold ∙ stale_condition-stale cutoff k y hit in absurd (cc)
    ]

pub matched_zero :
    (m : ChargeRow → Bool) (xs : List ChargeRow) → matched m xs ≡ 0 → All (λ x. m x ≡ false) xs
matched_zero m [] e = tt
matched_zero m (x ∷ xs) e = elim (Bool-cases (m x)) [
  | inl hit ↦ let wrong = rw hit at e in absurd (omega (arith, wrong))
  | inr miss ↦ (miss, matched_zero m xs (rw miss at e))
]
