-- ===== src/Budget/Settle.antt =====
-- Three updates that move the same amounts through a project, a run and one charge.
use cogentrex.Prelude.{
  ◌≡◌, Bool, true, ◌&&◌, ◌==◌, some, String, update, matched, arith, Bool-cases, Option-cases, inl,
  inr,
}
use cogentrex.Budget.Rows.{ProjectRow, RunRow, ChargeRow, Db, settle, put_project, put_run, run_in}

module _ (o p r : String) (p_cond : ProjectRow → Bool) (p_change : ProjectRow → ProjectRow)
    (r_cond : RunRow → Bool) (r_change : RunRow → RunRow) (c_cond : ChargeRow → Bool)
    (c_change : ChargeRow → ChargeRow) (db : Db) where
  -- What a committed `settle` has found and done.
  pub record Settled (db' : Db) : Type 0 where
    pub project : ProjectRow
    pub run : RunRow
    pub project_found : db.projects o p ≡ some project
    pub project_met : p_cond project ≡ true
    pub run_found : db.runs r ≡ some run
    pub run_owned : run_in o p run ≡ true
    pub run_met : r_cond run ≡ true
    pub one_charge : matched c_cond db.charges ≡ 1
    pub result : db' ≡ record (put_run r (r_change run) (put_project o p (p_change project) db)) {
      charges = update c_cond c_change db.charges;
    }

  pub settle-Settled :
      {db' : Db}
      → settle o p r p_cond p_change r_cond r_change c_cond c_change db ≡ some db'
      → Settled db'
  unfolding settle
  settle-Settled {db'} e = elim (Option-cases (db.projects o p)) [
    | inl missing ↦ absurd (ground arith)
    | inr (project, project_found) ↦ elim (Bool-cases (p_cond project)) [
      | inl met ↦ elim (Option-cases (db.runs r)) [
        | inl missing ↦ absurd (ground arith)
        | inr (run, run_found) ↦ elim (Bool-cases (run_in o p run && r_cond run)) [
          | inl run_met ↦ elim (Bool-cases (matched c_cond db.charges == 1)) [
            | inl one ↦ record {
              project = project;
              run = run;
              project_found = project_found;
              project_met = met;
              run_found = run_found;
              run_owned = ground arith;
              run_met = ground arith;
              one_charge = ground arith;
              result = ground arith;
            }
            | inr many ↦ absurd (ground arith)
          ]
          | inr unmet ↦ absurd (ground arith)
        ]
      ]
      | inr unmet ↦ absurd (ground arith)
    ]
  ]
