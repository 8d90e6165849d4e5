-- ===== src/Budget/Log.antt =====
-- Any sequence of repository calls, by any tasks, each as the transaction that it commits.
use cogentrex.Prelude.{
  ℕ, ◌+◌, ◌≤◌, ◌≡◌, refl, none, some, List, [], ◌∷◌, String, arith, Option-cases, inl, inr,
}
use cogentrex.Budget.Rows.{ProjectRow, RunRow, Db}
use cogentrex.Budget.Transitions.{mark_dispatched, mark_indeterminate, release}
use cogentrex.Budget.Opening.{open_run}
use cogentrex.Budget.Reserving.{Call, reserve_call}
use cogentrex.Budget.Reconciling.{Usage, reconcile}
use cogentrex.Budget.Recovery.{Candidate, recover_one}
use cogentrex.Budget.Invariant.{Inv, held, spent, of_project, total, ProjectBalanced, RunBalanced}
use cogentrex.Budget.Preserve.{
  mark_dispatched-Inv, mark_indeterminate-Inv, release-Inv, reconcile-Inv, recover_one-Inv,
}
use cogentrex.Budget.Accept.{open_run-Inv}
use cogentrex.Budget.Reserve.{reserve_call-Inv}
use mathlib.Core.Path.{subst}

-- A call at a time. The loop of `recover_stale` is given by its transactions, each of which may
-- meet the changes that other calls have made since its candidate was read.
pub data Op : Type 0 where
  open_op : String → String → String → ℕ → ℕ → Op
  reserve_op : Call → Op
  dispatch_op : String → String → String → String → Op
  reconcile_op : String → String → String → String → Usage → Op
  release_op : String → String → String → String → Op
  indeterminate_op : String → String → String → String → String → Op
  recover_op : ℕ → Candidate → Op

unfoldable pub apply : ℕ → Op → Db → Db
apply now (open_op o p r run_limit project_limit) db =
    (open_run now o p r run_limit project_limit db).1
apply now (reserve_op call) db = (reserve_call now call db).1
apply now (dispatch_op c o p r) db = (mark_dispatched now c o p r db).1
apply now (reconcile_op c o p r u) db = (reconcile now c o p r u db).1
apply now (release_op c o p r) db = (release now c o p r db).1
apply now (indeterminate_op c o p r reason) db = (mark_indeterminate now c o p r reason db).1
apply now (recover_op cutoff k) db = (recover_one now cutoff k db).1

unfoldable pub run : List (ℕ × Op) → Db → Db
run [] db = db
run ((now, op) ∷ ops) db = run ops (apply now op db)

pub apply-Inv : (now : ℕ) (op : Op) (db : Db) → Inv db → Inv (apply now op db)
unfolding apply
apply-Inv now (open_op o p r rl pl) db h = open_run-Inv now o p r rl pl db h
apply-Inv now (reserve_op call) db h = reserve_call-Inv now call db h
apply-Inv now (dispatch_op c o p r) db h = mark_dispatched-Inv now c o p r db h
apply-Inv now (reconcile_op c o p r u) db h = reconcile-Inv now c o p r u db h
apply-Inv now (release_op c o p r) db h = release-Inv now c o p r db h
apply-Inv now (indeterminate_op c o p r reason) db h =
    mark_indeterminate-Inv now c o p r reason db h
apply-Inv now (recover_op cutoff k) db h = recover_one-Inv now cutoff k db h

-- Every sequence of repository calls keeps the books: in each project and each run the reserved
-- counter is the sum of the quotes that are held, the spent counter is the sum of the reconciled
-- prices, and together they stay within the limit.
pub run-Inv : (ops : List (ℕ × Op)) (db : Db) → Inv db → Inv (run ops db)
unfolding run
run-Inv [] db h = h
run-Inv ((now, op) ∷ ops) db h = run-Inv ops (apply now op db) (apply-Inv now op db h)

-- Tables with no project budget, no charge, and only runs that were never opened.
pub record IsFresh (db : Db) : Type 0 where
  pub no_project : (o p : String) → db.projects o p ≡ none
  pub no_charge : db.charges ≡ []
  pub unopened :
      (r : String) (row : RunRow)
      → db.runs r ≡ some row
      → (row.opened_at ≡ none) × (row.spent_nusd ≡ 0) × (row.reserved_nusd ≡ 0)

pub IsFresh-Inv : (db : Db) → IsFresh db → Inv db
IsFresh-Inv db f = record {
  projects_balanced = λ o p. rw (f.no_project o p, f.no_charge) (refl, refl);
  runs_balanced = λ r. elim (Option-cases (db.runs r)) [
    | inl missing ↦ rw missing tt
    | inr (row, there) ↦ rw there (unused r row (f.unopened r row there))
  ];
}
  where
    unused :
        (r : String) (row : RunRow)
        → (row.opened_at ≡ none) × (row.spent_nusd ≡ 0) × (row.reserved_nusd ≡ 0)
        → RunBalanced r db.charges (some row)
    unused r row (closed, no_spent, no_reserved) =
        rw (f.no_charge, closed, no_spent, no_reserved)
          (
            record { within_limit = omega arith; reserved_exact = refl; spent_exact = refl },
            (refl, refl),
          )

-- From fresh tables, after any calls, what the charges of a project have spent and still hold is
-- within the limit in the project's row.
pub run_within_limit :
    (ops : List (ℕ × Op)) (db : Db) (o p : String) {row : ProjectRow}
    → IsFresh db
    → (run ops db).projects o p ≡ some row
    → total (of_project o p) spent (run ops db).charges
        + total (of_project o p) held (run ops db).charges
      ≤ row.limit_nusd
run_within_limit ops db o p {row} f e =
    let b : ProjectBalanced o p (run ops db).charges (some row) =
      subst (ProjectBalanced o p (run ops db).charges) e
        ((run-Inv ops db (IsFresh-Inv db f)).projects_balanced o p) in
    omega (arith, b.within_limit, b.reserved_exact, b.spent_exact)
