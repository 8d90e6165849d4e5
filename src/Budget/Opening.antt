-- ===== src/Budget/Opening.antt =====
-- `open_run`: the project's budget is created once, and the run's limit is set once.
use cogentrex.Prelude.{
  ℕ, Bool, true, false, ◌&&◌, ◌||◌, not, Option, none, some, String, ◌==◌, if◌then◌else◌, Result,
  ok, err,
}
use cogentrex.Budget.Rows.{
  BudgetError, bad_value, limit_conflict, assertion_failed, ProjectRow, RunRow, Db, Outcome,
  put_project, update_run, run_in,
}
use cogentrex.Budget.Ids.{run_scope_ok, amount_ok}
use cogentrex.Budget.Transitions.{BudgetSummary, summary}

-- `INSERT ... ON CONFLICT DO NOTHING`.
unfoldable pub insert_project : ℕ → String → String → ℕ → Db → Db
insert_project now o p limit db = elim (db.projects o p) [
  | none ↦
      put_project o p
        (record { limit_nusd = limit; spent_nusd = 0; reserved_nusd = 0; updated_at = now }) db
  | some _ ↦ db
]

abbrev pub is_unopened : RunRow → Bool
is_unopened row = elim row.opened_at [ none ↦ true | some _ ↦ false ]

-- The check of a run that the update did not open.
abbrev pub check_opened : String → String → ℕ → Option RunRow → Result BudgetError (Unit {0})
check_opened o p limit none = err bad_value
check_opened o p limit (some row) =
    if run_in o p row
    then if is_unopened row || not (row.limit_nusd == limit) then err limit_conflict else ok tt
    else err bad_value

abbrev pub limit_of : Option ProjectRow → Option ℕ
limit_of none = none
limit_of (some row) = some row.limit_nusd

abbrev pub has_limit : ℕ → Option ProjectRow → Bool
has_limit limit none = false
has_limit limit (some row) = row.limit_nusd == limit

-- The summary that `open_run` reads after its commit, and asserts to be there.
abbrev pub summarise : String → String → String → Db → Result BudgetError BudgetSummary
summarise o p r db = elim (summary o p r db) [
  | err e ↦ err e
  | ok none ↦ err assertion_failed
  | ok (some s) ↦ ok s
]

abbrev pub opened_run : ℕ → String → String → String → ℕ → Db → ℕ × Db
opened_run now o p r limit =
    update_run o p r is_unopened (λ row. record row { limit_nusd = limit; opened_at = some now })

abbrev pub already_opened :
    String → String → String → Db → Db → Result BudgetError (Unit {0}) → Outcome BudgetSummary
already_opened o p r db db' (err e) = (err e, db)
already_opened o p r db db' (ok _) = (summarise o p r db', db')

abbrev pub commit_opened : String → String → String → ℕ → Db → ℕ × Db → Outcome BudgetSummary
commit_opened o p r limit db (rows, db') =
    if rows == 1
    then (summarise o p r db', db')
    else already_opened o p r db db' (check_opened o p limit (db'.runs r))

-- The checks and updates after the insert, which gave the second tables.
abbrev pub open_checked : ℕ → String → String → String → ℕ → ℕ → Db → Db → Outcome BudgetSummary
open_checked now o p r run_limit project_limit db db₁ =
    if has_limit project_limit (db₁.projects o p)
    then commit_opened o p r run_limit db (opened_run now o p r run_limit db₁)
    else (err limit_conflict, db)

unfoldable pub open_run : ℕ → String → String → String → ℕ → ℕ → Db → Outcome BudgetSummary
open_run now o p r run_limit project_limit db =
    if run_scope_ok o p r && amount_ok run_limit && amount_ok project_limit
    then open_checked now o p r run_limit project_limit db (insert_project now o p project_limit db)
    else (err bad_value, db)
