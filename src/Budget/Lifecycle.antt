-- ===== src/Budget/Lifecycle.antt =====
-- The lifecycle of one charge.
use cogentrex.Prelude.{
  ℕ, zero, suc, ◌≡◌, refl, inl, inr, Bool, true, some, List, [], ◌∷◌, ◌++◌, get_elem?, update,
  Bool-cases,
}
use mathlib.Core.Path.{subst}
use cogentrex.Budget.Rows.{
  ChargeState, reserved, dispatched, reconciled, released, indeterminate, ChargeRow,
}

-- The edges of the lifecycle; no edge leaves the last three states.
pub data Edge : ChargeState → ChargeState → Type 0 where
  dispatch : Edge reserved dispatched
  release : Edge reserved released
  abandon : Edge reserved indeterminate
  reconcile : Edge dispatched reconciled
  lose : Edge dispatched indeterminate

-- A row keeps its identity, its quote and its creation, and moves along one edge at most.
pub data Evolves (row row' : ChargeRow) : Type 0 where
  stays : row' ≡ row → Evolves row row'
  moves :
      Edge row.state row'.state
      → row'.charge_id ≡ row.charge_id
      → row'.owner_id ≡ row.owner_id
      → row'.project_id ≡ row.project_id
      → row'.run_id ≡ row.run_id
      → row'.ordinal ≡ row.ordinal
      → row'.reserved_nusd ≡ row.reserved_nusd
      → row'.created_at ≡ row.created_at
      → Evolves row row'

-- Every row of the first table is in the second at its place, evolved.
abbrev pub Grows : List ChargeRow → List ChargeRow → Type 0
Grows rows rows' =
    (i : ℕ) (row : ChargeRow)
    → get_elem? rows i ≡ some row
    → (row' : ChargeRow) × (get_elem? rows' i ≡ some row') × Evolves row row'

pub Grows-refl : (rows : List ChargeRow) → Grows rows rows
Grows-refl rows i row e = (row, e, stays refl)

pub Grows-append : (rows more : List ChargeRow) → Grows rows (rows ++ more)
Grows-append [] more i row e = absurd (cc)
Grows-append (x ∷ rows) more zero row e = (row, e, stays refl)
Grows-append (x ∷ rows) more (suc i) row e = Grows-append rows more i row e

pub Grows-update :
    (cond : ChargeRow → Bool) (change : ChargeRow → ChargeRow) (rows : List ChargeRow)
    → ((row : ChargeRow) → cond row ≡ true → Evolves row (change row))
    → Grows rows (update cond change rows)
Grows-update cond change [] ev i row e = absurd (cc)
Grows-update cond change (x ∷ rows) ev zero row e = elim (Bool-cases (cond x)) [
  | inl hit ↦ (change x, rw hit, subst (λ y. Evolves y (change x)) (cc) (ev x hit))
  | inr miss ↦ (x, rw miss, stays (cc))
]
Grows-update cond change (x ∷ rows) ev (suc i) row e = Grows-update cond change rows ev i row e
