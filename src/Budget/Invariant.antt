-- ===== src/Budget/Invariant.antt =====
-- The accounting invariant: every account's counters are the sums over its charges, within its limit.
use cogentrex.Prelude.{
  ℕ, ◌+◌, ◌≤◌, ◌≡◌, Bool, true, false, ◌&&◌, Option, none, some, List, String, str_eq, sum,
  if◌then◌else◌,
}
use cogentrex.Pricing.{or_else}
use cogentrex.Budget.Rows.{
  ChargeState, reserved, dispatched, reconciled, indeterminate, ProjectRow, RunRow, ChargeRow, Db,
}

-- A charge holds its quote until it is reconciled or released; an indeterminate one keeps it.
abbrev pub is_holding : ChargeState → Bool
is_holding reserved = true
is_holding dispatched = true
is_holding indeterminate = true
is_holding _ = false

abbrev pub is_reconciled : ChargeState → Bool
is_reconciled reconciled = true
is_reconciled _ = false

abbrev pub held : ChargeRow → ℕ
held row = if is_holding row.state then row.reserved_nusd else 0

abbrev pub spent : ChargeRow → ℕ
spent row = if is_reconciled row.state then or_else row.actual_nusd 0 else 0

abbrev pub of_project : String → String → ChargeRow → Bool
of_project o p row = str_eq row.owner_id o && str_eq row.project_id p

abbrev pub of_run : String → String → String → ChargeRow → Bool
of_run o p r row = of_project o p row && str_eq row.run_id r

abbrev pub when : Bool → ℕ → ℕ
when b n = if b then n else 0

abbrev pub total : (ChargeRow → Bool) → (ChargeRow → ℕ) → List ChargeRow → ℕ
total member weight = sum (λ row. when (member row) (weight row))

-- What the counters of an account must be, given the charges that belong to it.
pub record Balanced (member : ChargeRow → Bool) (charges : List ChargeRow)
    (limit spent_nusd reserved_nusd : ℕ) : Type 0 where
  pub within_limit : spent_nusd + reserved_nusd ≤ limit
  pub reserved_exact : reserved_nusd ≡ total member held charges
  pub spent_exact : spent_nusd ≡ total member spent charges

abbrev pub ProjectBalanced : String → String → List ChargeRow → Option ProjectRow → Type 0
ProjectBalanced o p charges none =
    (total (of_project o p) held charges ≡ 0) × (total (of_project o p) spent charges ≡ 0)
ProjectBalanced o p charges (some row) =
    Balanced (of_project o p) charges row.limit_nusd row.spent_nusd row.reserved_nusd

-- A run that is not opened has spent and reserved nothing.
abbrev pub UnopenedClean : Option ℕ → ℕ → ℕ → Type 0
UnopenedClean none s r = (s ≡ 0) × (r ≡ 0)
UnopenedClean (some _) s r = Unit

abbrev pub RunBalanced : String → List ChargeRow → Option RunRow → Type 0
RunBalanced r charges none = Unit
RunBalanced r charges (some row) =
    Balanced (of_run row.user_id row.project_id r) charges row.limit_nusd row.spent_nusd
      row.reserved_nusd
    × UnopenedClean row.opened_at row.spent_nusd row.reserved_nusd

pub record Inv (db : Db) : Type 0 where
  pub projects_balanced : (o p : String) → ProjectBalanced o p db.charges (db.projects o p)
  pub runs_balanced : (r : String) → RunBalanced r db.charges (db.runs r)
