-- ===== src/Budget/Rows.antt =====
-- The rows of the three tables, their updates with row counts, and the errors of the repository.
use cogentrex.Prelude.{
  ℕ, Bool, true, false, ◌&&◌, ◌==◌, Option, none, some, List, String, str_eq, update, matched,
  select, if◌then◌else◌, Result, ok, err,
}
use cogentrex.Pricing.{PricingError}

pub data ChargeState : Type 0 where
  reserved dispatched reconciled released indeterminate : ChargeState

pub data BudgetError : Type 0 where
  bad_value assertion_failed run_budget_exceeded project_budget_exceeded limit_conflict :
      BudgetError
  state_conflict charge_conflict quote_exceeded : BudgetError
  pricing : PricingError → BudgetError

-- `ProjectBudgetRow`, without its key.
pub record ProjectRow : Type 0 where
  pub limit_nusd : ℕ
  pub spent_nusd : ℕ
  pub reserved_nusd : ℕ
  pub updated_at : ℕ

-- The columns of `RunRow` that the budget reads, without its key.
pub record RunRow : Type 0 where
  pub user_id : String
  pub project_id : String
  pub limit_nusd : ℕ
  pub spent_nusd : ℕ
  pub reserved_nusd : ℕ
  pub opened_at : Option ℕ

-- `ModelChargeRow`, which `ChargeRecord` repeats field by field.
pub record ChargeRow : Type 0 where
  pub charge_id : String
  pub owner_id : String
  pub project_id : String
  pub run_id : String
  pub ordinal : ℕ
  pub state : ChargeState
  pub reserved_nusd : ℕ
  pub actual_nusd : Option ℕ
  pub provider : Option String
  pub model : Option String
  pub input_tokens : Option ℕ
  pub output_tokens : Option ℕ
  pub cache_read_tokens : Option ℕ
  pub cache_write_tokens : Option ℕ
  pub reason_code : Option String
  pub created_at : ℕ
  pub updated_at : ℕ
  pub dispatched_at : Option ℕ
  pub reconciled_at : Option ℕ

pub record Db : Type 0 where
  pub projects : String → String → Option ProjectRow
  pub runs : String → Option RunRow
  pub charges : List ChargeRow

-- What a method returns, and the tables after it.
abbrev pub Outcome : Type 0 → Type 0
Outcome A = Result BudgetError A × Db

abbrev pub is_reserved : ChargeState → Bool
is_reserved reserved = true
is_reserved _ = false

abbrev pub is_dispatched : ChargeState → Bool
is_dispatched dispatched = true
is_dispatched _ = false

-- `ChargeState.RESERVED, ChargeState.DISPATCHED`.
abbrev pub is_active : ChargeState → Bool
is_active reserved = true
is_active dispatched = true
is_active _ = false

abbrev pub put_project : String → String → ProjectRow → Db → Db
put_project o p row db = record db {
  projects = λ o' p'. if str_eq o o' && str_eq p p' then some row else db.projects o' p';
}

abbrev pub put_run : String → RunRow → Db → Db
put_run r row db = record db { runs = λ r'. if str_eq r r' then some row else db.runs r' }

-- `UPDATE project_budgets ... WHERE owner_id = o AND project_id = p AND cond`, with its row count.
abbrev pub update_project :
    String → String → (ProjectRow → Bool) → (ProjectRow → ProjectRow) → Db → ℕ × Db
update_project o p cond change db = elim (db.projects o p) [
  | none ↦ (0, db)
  | some row ↦ if cond row then (1, put_project o p (change row) db) else (0, db)
]

-- `UPDATE runs ... WHERE run_id = r AND user_id = o AND project_id = p AND cond`.
abbrev pub run_in : String → String → RunRow → Bool
run_in o p row = str_eq row.user_id o && str_eq row.project_id p

abbrev pub update_run : String → String → String → (RunRow → Bool) → (RunRow → RunRow) → Db → ℕ × Db
update_run o p r cond change db = elim (db.runs r) [
  | none ↦ (0, db)
  | some row ↦ if run_in o p row && cond row then (1, put_run r (change row) db) else (0, db)
]

abbrev pub update_charges : (ChargeRow → Bool) → (ChargeRow → ChargeRow) → Db → ℕ × Db
update_charges cond change db =
    (matched cond db.charges, record db { charges = update cond change db.charges })

-- `_charge_filters`.
abbrev pub charge_filters : String → String → String → String → ChargeRow → Bool
charge_filters c o p r row =
    str_eq row.charge_id c
    && str_eq row.owner_id o
    && str_eq row.project_id p
    && str_eq row.run_id r

-- Three updates whose row counts must all be 1: the committed tables, or `none` for a rollback.
unfoldable pub settle :
    String
    → String
    → String
    → (ProjectRow → Bool)
    → (ProjectRow → ProjectRow)
    → (RunRow → Bool)
    → (RunRow → RunRow)
    → (ChargeRow → Bool)
    → (ChargeRow → ChargeRow)
    → Db
    → Option Db
settle o p r p_cond p_change r_cond r_change c_cond c_change db =
    let project = update_project o p p_cond p_change db in
    let run = update_run o p r r_cond r_change project.1 in
    let charge = update_charges c_cond c_change run.1 in
    if project.0 == 1 && run.0 == 1 && charge.0 == 1 then some charge.1 else none

-- The row that a method reads back after its commit, and asserts to be there.
abbrev pub persisted : String → Db → Result BudgetError ChargeRow
persisted c db = elim (select (λ row. str_eq row.charge_id c) db.charges) [
  | none ↦ err assertion_failed
  | some row ↦ ok row
]
