-- ===== src/Budget/Transitions.antt =====
-- The transitions of one charge: `_simple_transition`, `mark_dispatched`, `mark_indeterminate`,
-- `_release` and `release`; and the reads `get` and `summary`.
use cogentrex.Prelude.{
  ℕ, ◌-◌, Bool, true, ◌&&◌, Option, none, some, String, str_eq, select, leb, ◌==◌, if◌then◌else◌,
  Result, ok, err,
}
use cogentrex.Budget.Rows.{
  ChargeState, dispatched, released, indeterminate, BudgetError, bad_value, state_conflict,
  ProjectRow, RunRow, ChargeRow, Db, Outcome, is_reserved, is_active, charge_filters, settle,
  persisted,
}
use cogentrex.Budget.Ids.{id_ok, scope_ok, run_scope_ok}

abbrev pub finished : String → Db → Option Db → Outcome ChargeRow
finished c db none = (err state_conflict, db)
finished c db (some db') = (persisted c db', db')

-- The two updates that only take the account locks change no row.
unfoldable pub simple_transition :
    String
    → String
    → String
    → String
    → (ChargeState → Bool)
    → (ChargeRow → ChargeRow)
    → Db
    → Outcome ChargeRow
simple_transition c o p r source change db =
    if scope_ok c o p r
    then finished c db (
        settle o p r (λ _. true) (λ row. row) (λ _. true) (λ row. row)
          (λ row. charge_filters c o p r row && source row.state) change db)
    else (err bad_value, db)

unfoldable pub mark_dispatched : ℕ → String → String → String → String → Db → Outcome ChargeRow
mark_dispatched now c o p r =
    simple_transition c o p r is_reserved
      (λ row. record row { state = dispatched; dispatched_at = some now; updated_at = now })

unfoldable pub mark_indeterminate :
    ℕ → String → String → String → String → String → Db → Outcome ChargeRow
mark_indeterminate now c o p r reason db =
    if id_ok reason 64
    then simple_transition c o p r is_active
        (λ row. record row { state = indeterminate; reason_code = some reason; updated_at = now })
        db
    else (err bad_value, db)

-- The updates of `_release` for a charge that was read with the quote `quote`.
unfoldable pub settle_release : ℕ → String → String → String → String → String → ℕ → Db → Option Db
settle_release now c o p r reason quote =
    settle o p r (λ row. leb quote row.reserved_nusd)
      (λ row. record row { reserved_nusd = row.reserved_nusd - quote; updated_at = now })
      (λ row. leb quote row.reserved_nusd)
      (λ row. record row { reserved_nusd = row.reserved_nusd - quote })
      (λ row. charge_filters c o p r row && is_reserved row.state && row.reserved_nusd == quote)
      (λ row. record row { state = released; reason_code = some reason; updated_at = now })

abbrev pub release_found :
    ℕ → String → String → String → String → String → Option ChargeRow → Db → Outcome ChargeRow
release_found now c o p r reason none db = (err state_conflict, db)
release_found now c o p r reason (some charge) db =
    finished c db (settle_release now c o p r reason charge.reserved_nusd db)

-- `_release`, which `release` calls with the reason "released".
unfoldable pub release : ℕ → String → String → String → String → Db → Outcome ChargeRow
release now c o p r db =
    if scope_ok c o p r
    then release_found now c o p r "released"
        (select (λ row. charge_filters c o p r row && is_reserved row.state) db.charges) db
    else (err bad_value, db)

unfoldable pub get : String → String → String → String → Db → Result BudgetError (Option ChargeRow)
get c o p r db =
    if scope_ok c o p r then ok (select (charge_filters c o p r) db.charges) else err bad_value

pub record BudgetSummary : Type 0 where
  pub owner_id : String
  pub project_id : String
  pub run_id : String
  pub project_limit_nusd : ℕ
  pub project_spent_nusd : ℕ
  pub project_reserved_nusd : ℕ
  pub run_limit_nusd : ℕ
  pub run_spent_nusd : ℕ
  pub run_reserved_nusd : ℕ

-- The join of `summary`.
abbrev pub join :
    String → String → String → Option ProjectRow → Option RunRow → Option BudgetSummary
join o p r none _ = none
join o p r (some project) none = none
join o p r (some project) (some run) =
    if str_eq run.user_id o && str_eq run.project_id p
    then some (record {
      owner_id = o;
      project_id = p;
      run_id = r;
      project_limit_nusd = project.limit_nusd;
      project_spent_nusd = project.spent_nusd;
      project_reserved_nusd = project.reserved_nusd;
      run_limit_nusd = run.limit_nusd;
      run_spent_nusd = run.spent_nusd;
      run_reserved_nusd = run.reserved_nusd;
    })
    else none

unfoldable pub summary : String → String → String → Db → Result BudgetError (Option BudgetSummary)
summary o p r db =
    if run_scope_ok o p r then ok (join o p r (db.projects o p) (db.runs r)) else err bad_value
