-- ===== src/Budget/Accept.antt =====
-- The accounts when a run is opened.
use cogentrex.Prelude.{
  ℕ, ◌≡◌, sym, ap, true, ◌&&◌, none, some, String, str_eq, arith, Bool-cases, Option-cases, inl,
  inr, &&-elim, eq_iff, Result, ok, err, ◌==◌,
}
use mathlib.Core.Path.{subst}
use cogentrex.Budget.Rows.{
  ProjectRow, RunRow, Db, BudgetError, bad_value, limit_conflict, put_project, put_run,
}
use cogentrex.Budget.Ids.{run_scope_ok, amount_ok}
use cogentrex.Budget.Opening.{
  insert_project, is_unopened, check_opened, has_limit, summarise, opened_run, already_opened,
  commit_opened, open_run,
}
use cogentrex.Budget.Updates.{RunUpdate, update_run_cases}
use cogentrex.Budget.Outcomes.{guarded-keeps}
use cogentrex.Budget.Invariant.{Inv, ProjectBalanced, RunBalanced, UnopenedClean}

module _ (now : ℕ) (o p : String) (limit : ℕ) (db : Db) (h : Inv db) where
  abbrev empty_project : ProjectRow
  empty_project = record { limit_nusd = limit; spent_nusd = 0; reserved_nusd = 0; updated_at = now }

  created-Inv : db.projects o p ≡ none → Inv (put_project o p empty_project db)
  created-Inv fresh = record {
    projects_balanced = λ o' p'. elim (Bool-cases (str_eq o o' && str_eq p p')) [
      | inl same ↦ rw same (
          created o' p' ((eq_iff o o').0 (&&-elim (str_eq o o') (str_eq p p') same).0)
            ((eq_iff p p').0 (&&-elim (str_eq o o') (str_eq p p') same).1))
      | inr other ↦ rw other (h.projects_balanced o' p')
    ];
    runs_balanced = h.runs_balanced;
  }
    where
      empty : ProjectBalanced o p db.charges none
      empty = subst (ProjectBalanced o p db.charges) fresh (h.projects_balanced o p)

      created :
          (o' p' : String) → o ≡ o' → p ≡ p' → ProjectBalanced o' p' db.charges (some empty_project)
      created o' p' eo ep =
          rw (← eo, ← ep)
            (record {
              within_limit = omega arith;
              reserved_exact = sym empty.0;
              spent_exact = sym empty.1;
            })

  insert_project-Inv : Inv (insert_project now o p limit db)
  unfolding insert_project
  insert_project-Inv = elim (Option-cases (db.projects o p)) [
    | inl fresh ↦ rw (fresh, insert_project) (created-Inv fresh)
    | inr (row, there) ↦ rw (there, insert_project) h
  ]

-- Setting the limit of a run that was not opened.
limited-Inv :
    (now : ℕ) (r : String) (limit : ℕ) (db : Db) (row : RunRow)
    → db.runs r ≡ some row
    → is_unopened row ≡ true
    → Inv db
    → Inv (put_run r (record row { limit_nusd = limit; opened_at = some now }) db)
limited-Inv now r limit db row there unopened h = record {
  projects_balanced = h.projects_balanced;
  runs_balanced = λ r'. elim (Bool-cases (str_eq r r')) [
    | inl same ↦ rw same (limited r' ((eq_iff r r').0 same))
    | inr other ↦ rw other (h.runs_balanced r')
  ];
}
  where
    old : RunBalanced r db.charges (some row)
    old = subst (RunBalanced r db.charges) there (h.runs_balanced r)

    unset : row.opened_at ≡ none
    unset = ground arith

    clean : UnopenedClean none row.spent_nusd row.reserved_nusd
    clean = rw unset at old.1

    limited :
        (r' : String)
        → r ≡ r'
        → RunBalanced r' db.charges (some (record row { limit_nusd = limit; opened_at = some now }))
    limited r' er = rw (← er) (
      record {
        within_limit = omega (arith, clean);
        reserved_exact = old.0.reserved_exact;
        spent_exact = old.0.spent_exact;
      },
      tt,
    )

opened_run-Inv :
    (now : ℕ) (o p r : String) (limit : ℕ) (db : Db)
    → Inv db
    → Inv (opened_run now o p r limit db).1
opened_run-Inv now o p r limit db h =
    elim (update_run_cases o p r is_unopened
      (λ row. record row { limit_nusd = limit; opened_at = some now }) db) [
        | RunUpdate.missed e ↦ subst Inv (sym (ap (λ x. x.1) e)) h
        | RunUpdate.hit row there owned unopened e ↦
            subst Inv (sym (ap (λ x. x.1) e)) (limited-Inv now r limit db row there unopened h)
      ]

commit_opened-Inv :
    (o p r : String) (limit : ℕ) (db : Db) (out : ℕ × Db)
    → Inv db
    → Inv out.1
    → Inv (commit_opened o p r limit db out).1
commit_opened-Inv o p r limit db (rows, db') h k =
    guarded-keeps Inv (rows == 1) (summarise o p r db', db') _ k
      (go (check_opened o p limit (db'.runs r)))
  where
    go : (checked : Result BudgetError (Unit {0})) → Inv (already_opened o p r db db' checked).1
    go (err e) = h
    go (ok _) = k

pub open_run-Inv :
    (now : ℕ) (o p r : String) (run_limit project_limit : ℕ) (db : Db)
    → Inv db
    → Inv (open_run now o p r run_limit project_limit db).1
unfolding open_run
open_run-Inv now o p r run_limit project_limit db h =
    guarded-keeps Inv (run_scope_ok o p r && amount_ok run_limit && amount_ok project_limit) _
      (err bad_value, db)
      (guarded-keeps Inv
        (has_limit project_limit ((insert_project now o p project_limit db).projects o p)) _
        (err limit_conflict, db)
        (commit_opened-Inv o p r run_limit db
          (opened_run now o p r run_limit (insert_project now o p project_limit db)) h
          (opened_run-Inv now o p r run_limit (insert_project now o p project_limit db)
            (insert_project-Inv now o p project_limit db h)))
        h)
      h
