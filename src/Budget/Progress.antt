-- ===== src/Budget/Progress.antt =====
-- The lifecycle of the charges under each repository call.
use cogentrex.Prelude.{
  ℕ, ◌≡◌, refl, sym, inl, inr, Bool, true, ◌&&◌, some, List, String, arith, Bool-cases, ok, err,
  Result, ◌==◌,
}
use mathlib.Core.Path.{subst}
use cogentrex.Budget.Ids.{run_scope_ok, amount_ok, id_ok}
use cogentrex.Budget.Rows.{
  ChargeState, reserved, dispatched, reconciled, released, indeterminate, BudgetError, bad_value,
  limit_conflict, ProjectRow, RunRow, ChargeRow, Db, settle, is_reserved, is_dispatched, is_active,
}
use cogentrex.Budget.Transitions.{mark_dispatched, mark_indeterminate, release, settle_release}
use cogentrex.Budget.Opening.{
  insert_project, is_unopened, check_opened, already_opened, has_limit, summarise, opened_run,
  commit_opened, open_run,
}
use cogentrex.Budget.Reconciling.{Usage, settle_exceeded, settle_reconciled, reconcile}
use cogentrex.Budget.Recovery.{Candidate, settle_stale}
use cogentrex.Budget.Updates.{RunUpdate, update_run_cases}
use cogentrex.Budget.Settle.{settle-Settled}
use cogentrex.Budget.Outcomes.{
  guarded-keeps, simple_transition-keeps, release-keeps, reconcile-keeps,
}
use cogentrex.Budget.Lifecycle.{Edge, Evolves, Grows, Grows-refl, Grows-update}

-- What a call keeps, with the rows that it began with.
abbrev pub From : List ChargeRow → Db → Type 0
From rows db = Grows rows db.charges

settle-Grows :
    (o p r : String) (p_cond : ProjectRow → Bool) (p_change : ProjectRow → ProjectRow)
    (r_cond : RunRow → Bool) (r_change : RunRow → RunRow) (c_cond : ChargeRow → Bool)
    (c_change : ChargeRow → ChargeRow) (db : Db) {db' : Db}
    → ((row : ChargeRow) → c_cond row ≡ true → Evolves row (c_change row))
    → settle o p r p_cond p_change r_cond r_change c_cond c_change db ≡ some db'
    → Grows db.charges db'.charges
settle-Grows o p r p_cond p_change r_cond r_change c_cond c_change db {db'} ev e =
    let s = settle-Settled o p r p_cond p_change r_cond r_change c_cond c_change db e in
    subst (From db.charges) (sym s.result) (Grows-update c_cond c_change db.charges ev)

from_reserved : (s t : ChargeState) → is_reserved s ≡ true → Edge reserved t → Edge s t
from_reserved reserved t h e = e
from_reserved dispatched t h e = cc
from_reserved reconciled t h e = cc
from_reserved released t h e = cc
from_reserved indeterminate t h e = cc

from_dispatched : (s t : ChargeState) → is_dispatched s ≡ true → Edge dispatched t → Edge s t
from_dispatched dispatched t h e = e
from_dispatched reserved t h e = cc
from_dispatched reconciled t h e = cc
from_dispatched released t h e = cc
from_dispatched indeterminate t h e = cc

-- An active charge can be given up.
give_up : (s : ChargeState) → is_active s ≡ true → Edge s indeterminate
give_up reserved h = Edge.abandon
give_up dispatched h = Edge.lose
give_up reconciled h = cc
give_up released h = cc
give_up indeterminate h = cc

pub mark_dispatched-Grows :
    (now : ℕ) (c o p r : String) (db : Db) → From db.charges (mark_dispatched now c o p r db).1
unfolding mark_dispatched
mark_dispatched-Grows now c o p r db =
    simple_transition-keeps (From db.charges) c o p r is_reserved _ db
      (λ db' e.
        settle-Grows o p r (λ _. true) (λ row. row) (λ _. true) (λ row. row) _ _ db
          (λ row hit.
            Evolves.moves (from_reserved row.state dispatched (ground arith) Edge.dispatch) refl
              refl refl refl refl refl refl)
          e)
      (Grows-refl db.charges)

pub mark_indeterminate-Grows :
    (now : ℕ) (c o p r reason : String) (db : Db)
    → From db.charges (mark_indeterminate now c o p r reason db).1
unfolding mark_indeterminate
mark_indeterminate-Grows now c o p r reason db =
    guarded-keeps (From db.charges) (id_ok reason 64) _ (err bad_value, db)
      (simple_transition-keeps (From db.charges) c o p r is_active _ db
        (λ db' e.
          settle-Grows o p r (λ _. true) (λ row. row) (λ _. true) (λ row. row) _ _ db
            (λ row hit.
              Evolves.moves (give_up row.state (ground arith)) refl refl refl refl refl refl refl)
            e)
        (Grows-refl db.charges))
      (Grows-refl db.charges)

pub release-Grows :
    (now : ℕ) (c o p r : String) (db : Db) → From db.charges (release now c o p r db).1
unfolding settle_release
release-Grows now c o p r db =
    release-keeps (From db.charges) now c o p r db
      (λ quote db' e.
        settle-Grows o p r _ _ _ _ _ _ db
          (λ row hit.
            Evolves.moves (from_reserved row.state released (ground arith) Edge.release) refl refl
              refl refl refl refl refl)
          e)
      (Grows-refl db.charges)

pub reconcile-Grows :
    (now : ℕ) (c o p r : String) (u : Usage) (db : Db)
    → From db.charges (reconcile now c o p r u db).1
unfolding settle_exceeded settle_reconciled
reconcile-Grows now c o p r u db =
    reconcile-keeps (From db.charges) now c o p r u db
      (λ db' e.
        settle-Grows o p r _ _ _ _ _ _ db
          (λ row hit.
            Evolves.moves (from_dispatched row.state indeterminate (ground arith) Edge.lose) refl
              refl refl refl refl refl refl)
          e)
      (λ quote family model actual db' le e.
        settle-Grows o p r _ _ _ _ _ _ db
          (λ row hit.
            Evolves.moves (from_dispatched row.state reconciled (ground arith) Edge.reconcile) refl
              refl refl refl refl refl refl)
          e)
      (Grows-refl db.charges)

pub settle_stale-Grows :
    (now cutoff : ℕ) (k : Candidate) (db : Db) {db' : Db}
    → settle_stale now cutoff k db ≡ some db'
    → Grows db.charges db'.charges
unfolding settle_stale
settle_stale-Grows now cutoff k db e = elim (Bool-cases k.was_reserved) [
  | inl was ↦
      settle-Grows k.owner_id k.project_id k.run_id _ _ _ _ _ _ db
        (λ row hit.
          Evolves.moves (from_reserved row.state released (ground arith) Edge.release) refl refl
            refl refl refl refl refl)
        (rw was at e)
  | inr other ↦
      settle-Grows k.owner_id k.project_id k.run_id _ _ _ _ _ _ db
        (λ row hit.
          Evolves.moves (from_dispatched row.state indeterminate (ground arith) Edge.lose) refl refl
            refl refl refl refl refl)
        (rw other at e)
]

insert_project-charges :
    (now : ℕ) (o p : String) (limit : ℕ) (db : Db)
    → (insert_project now o p limit db).charges ≡ db.charges
unfolding insert_project
insert_project-charges now o p limit db = ground arith

pub open_run-charges :
    (now : ℕ) (o p r : String) (run_limit project_limit : ℕ) (db : Db)
    → (open_run now o p r run_limit project_limit db).1.charges ≡ db.charges
unfolding open_run
open_run-charges now o p r run_limit project_limit db =
    guarded-keeps Same (run_scope_ok o p r && amount_ok run_limit && amount_ok project_limit) _
      (err bad_value, db)
      (guarded-keeps Same (has_limit project_limit (db₁.projects o p)) _ (err limit_conflict, db)
        (commit (opened_run now o p r run_limit db₁) opened) refl)
      refl
  where
    Same : Db → Type 0
    Same d = d.charges ≡ db.charges

    db₁ : Db
    db₁ = insert_project now o p project_limit db

    opened : (opened_run now o p r run_limit db₁).1.charges ≡ db.charges
    opened =
        elim (update_run_cases o p r is_unopened
          (λ row. record row { limit_nusd = run_limit; opened_at = some now }) db₁) [
            | RunUpdate.missed e ↦ rw e (insert_project-charges now o p project_limit db)
            | RunUpdate.hit row there owned unopened e ↦
                rw e (insert_project-charges now o p project_limit db)
          ]

    already :
        (db' : Db) (checked : Result BudgetError (Unit {0}))
        → Same db'
        → Same (already_opened o p r db db' checked).1
    already db' (err e) k = refl
    already db' (ok _) k = k

    commit : (out : ℕ × Db) → Same out.1 → Same (commit_opened o p r run_limit db out).1
    commit (rows, db') k =
        guarded-keeps Same (rows == 1) (summarise o p r db', db') _ k
          (already db' (check_opened o p run_limit (db'.runs r)) k)
