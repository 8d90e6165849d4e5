-- ===== src/Budget/Updates.antt =====
-- What a conditional update of one account has done, by its row count.
use cogentrex.Prelude.{
  ℕ, ◌≡◌, Bool, true, ◌&&◌, some, String, arith, Bool-cases, Option-cases, inl, inr,
}
use cogentrex.Budget.Rows.{
  ProjectRow, RunRow, Db, put_project, put_run, run_in, update_project, update_run,
}

pub data ProjectUpdate (o p : String) (cond : ProjectRow → Bool) (change : ProjectRow → ProjectRow)
    (db : Db) (out : ℕ × Db) : Type 0 where
  missed : out ≡ (0, db) → ProjectUpdate o p cond change db out
  hit :
      (row : ProjectRow)
      → db.projects o p ≡ some row
      → cond row ≡ true
      → out ≡ (1, put_project o p (change row) db)
      → ProjectUpdate o p cond change db out

pub update_project_cases :
    (o p : String) (cond : ProjectRow → Bool) (change : ProjectRow → ProjectRow) (db : Db)
    → ProjectUpdate o p cond change db (update_project o p cond change db)
update_project_cases o p cond change db = elim (Option-cases (db.projects o p)) [
  | inl missing ↦ missed (ground arith)
  | inr (row, there) ↦ elim (Bool-cases (cond row)) [
    | inl met ↦ hit row there met (ground arith)
    | inr unmet ↦ missed (ground arith)
  ]
]

pub data RunUpdate (o p r : String) (cond : RunRow → Bool) (change : RunRow → RunRow) (db : Db)
    (out : ℕ × Db) : Type 0 where
  missed : out ≡ (0, db) → RunUpdate o p r cond change db out
  hit :
      (row : RunRow)
      → db.runs r ≡ some row
      → run_in o p row ≡ true
      → cond row ≡ true
      → out ≡ (1, put_run r (change row) db)
      → RunUpdate o p r cond change db out

pub update_run_cases :
    (o p r : String) (cond : RunRow → Bool) (change : RunRow → RunRow) (db : Db)
    → RunUpdate o p r cond change db (update_run o p r cond change db)
update_run_cases o p r cond change db = elim (Option-cases (db.runs r)) [
  | inl missing ↦ missed (ground arith)
  | inr (row, there) ↦ elim (Bool-cases (run_in o p row && cond row)) [
    | inl met ↦ hit row there (ground arith) (ground arith) (ground arith)
    | inr unmet ↦ missed (ground arith)
  ]
]
