-- ===== src/Budget/Preserve.antt =====
-- The accounts over transitions, releases, reconciliations and recoveries.
use cogentrex.Prelude.{
  ℕ, ◌+◌, ◌≤◌, ◌≡◌, refl, Bool, true, ◌&&◌, some, String, arith, Bool-cases, inl, inr, err,
}
use cogentrex.Pricing.{Family}
use cogentrex.Budget.Ids.{id_ok}
use cogentrex.Budget.Rows.{
  bad_value, ChargeState, ChargeRow, Db, charge_filters, is_reserved, is_active,
}
use cogentrex.Budget.Transitions.{
  simple_transition, mark_dispatched, mark_indeterminate, settle_release, release,
}
use cogentrex.Budget.Reconciling.{Usage, settle_exceeded, settle_reconciled, reconcile}
use cogentrex.Budget.Recovery.{Candidate, in_scope, settle_stale, recover_one}
use cogentrex.Budget.Invariant.{Inv, held, spent}
use cogentrex.Budget.Moves.{Moves}
use cogentrex.Budget.Outcomes.{
  guarded-keeps, simple_transition-keeps, release-keeps, reconcile-keeps, recover_one-keeps,
}
use cogentrex.Budget.Balance.{settle-Inv}

-- A charge of the scope that changes none of its identity.
filters-Moves :
    (c o p r : String) (q a : ℕ) (row row' : ChargeRow)
    → charge_filters c o p r row ≡ true
    → row'.owner_id ≡ row.owner_id
    → row'.project_id ≡ row.project_id
    → row'.run_id ≡ row.run_id
    → held row' + q ≡ held row
    → spent row' ≡ spent row + a
    → Moves o p r q a row row'
filters-Moves c o p r q a row row' f so sp sr hf sr' = record {
  owner = ground arith;
  project = ground arith;
  run = ground arith;
  same_owner = so;
  same_project = sp;
  same_run = sr;
  held_falls = hf;
  spent_rises = sr';
}

-- A transition between two states that both hold the quote.
pub simple_transition-Inv :
    (c o p r : String) (source : ChargeState → Bool) (change : ChargeRow → ChargeRow) (db : Db)
    → ((row : ChargeRow)
        → (charge_filters c o p r row && source row.state) ≡ true
        → Moves o p r 0 0 row (change row))
    → Inv db
    → Inv (simple_transition c o p r source change db).1
simple_transition-Inv c o p r source change db moves h =
    simple_transition-keeps Inv c o p r source change db
      (λ db' e.
        settle-Inv o p r 0 0 (λ _. true) (λ row. row) (λ _. true) (λ row. row) _ change db
          (λ row met. ground arith) (λ row met. ground arith) moves e h)
      h

pub mark_dispatched-Inv :
    (now : ℕ) (c o p r : String) (db : Db) → Inv db → Inv (mark_dispatched now c o p r db).1
unfolding mark_dispatched
mark_dispatched-Inv now c o p r db h =
    simple_transition-Inv c o p r is_reserved _ db
      (λ row hit.
        filters-Moves c o p r 0 0 row _ (ground arith) refl refl refl (ground arith) (ground arith))
      h

pub mark_indeterminate-Inv :
    (now : ℕ) (c o p r reason : String) (db : Db)
    → Inv db
    → Inv (mark_indeterminate now c o p r reason db).1
unfolding mark_indeterminate
mark_indeterminate-Inv now c o p r reason db h =
    guarded-keeps Inv (id_ok reason 64) _ (err bad_value, db)
      (simple_transition-Inv c o p r is_active _ db
        (λ row hit.
          filters-Moves c o p r 0 0 row _ (ground arith) refl refl refl (ground arith)
            (ground arith))
        h)
      h

settle_release-Inv :
    (now : ℕ) (c o p r reason : String) (quote : ℕ) (db : Db) {db' : Db}
    → settle_release now c o p r reason quote db ≡ some db'
    → Inv db
    → Inv db'
unfolding settle_release
settle_release-Inv now c o p r reason quote db e h =
    settle-Inv o p r quote 0 _ _ _ _ _ _ db (λ row fits. ground arith) (λ row fits. ground arith)
      (λ row hit.
        filters-Moves c o p r quote 0 row _ (ground arith) refl refl refl (ground arith)
          (ground arith))
      e h

pub release-Inv : (now : ℕ) (c o p r : String) (db : Db) → Inv db → Inv (release now c o p r db).1
release-Inv now c o p r db h =
    release-keeps Inv now c o p r db
      (λ quote db' e. settle_release-Inv now c o p r "released" quote db e h) h

settle_exceeded-Inv :
    (now : ℕ) (c o p r : String) (db : Db) {db' : Db}
    → settle_exceeded now c o p r db ≡ some db'
    → Inv db
    → Inv db'
unfolding settle_exceeded
settle_exceeded-Inv now c o p r db e h =
    settle-Inv o p r 0 0 _ _ _ _ _ _ db (λ row met. ground arith) (λ row met. ground arith)
      (λ row hit.
        filters-Moves c o p r 0 0 row _ (ground arith) refl refl refl (ground arith) (ground arith))
      e h

settle_reconciled-Inv :
    (now : ℕ) (c o p r : String) (u : Usage) (quote : ℕ) (family : Family) (model : String)
    (actual : ℕ) (db : Db) {db' : Db}
    → actual ≤ quote
    → settle_reconciled now c o p r u quote (family, model, actual) db ≡ some db'
    → Inv db
    → Inv db'
unfolding settle_reconciled
settle_reconciled-Inv now c o p r u quote family model actual db le e h =
    settle-Inv o p r quote actual _ _ _ _ _ _ db (λ row met. ground arith) (λ row met. ground arith)
      (λ row hit.
        filters-Moves c o p r quote actual row _ (ground arith) refl refl refl (ground arith)
          (ground arith))
      e h

pub reconcile-Inv :
    (now : ℕ) (c o p r : String) (u : Usage) (db : Db) → Inv db → Inv (reconcile now c o p r u db).1
reconcile-Inv now c o p r u db h =
    reconcile-keeps Inv now c o p r u db (λ db' e. settle_exceeded-Inv now c o p r db e h)
      (λ quote family model actual db' le e.
        settle_reconciled-Inv now c o p r u quote family model actual db le e h)
      h

settle_stale-Inv :
    (now cutoff : ℕ) (k : Candidate) (db : Db) {db' : Db}
    → settle_stale now cutoff k db ≡ some db'
    → Inv db
    → Inv db'
unfolding settle_stale in_scope
settle_stale-Inv now cutoff k db e h = elim (Bool-cases k.was_reserved) [
  | inl yes_reserved ↦
      settle-Inv k.owner_id k.project_id k.run_id k.quote 0 _ _ _ _ _ _ db (λ row met. ground arith)
        (λ row met. ground arith)
        (λ row hit.
          filters-Moves k.charge_id k.owner_id k.project_id k.run_id k.quote 0 row _ (ground arith)
            refl refl refl (ground arith) (ground arith))
        (rw yes_reserved at e) h
  | inr no_reserved ↦
      settle-Inv k.owner_id k.project_id k.run_id 0 0 _ _ _ _ _ _ db (λ row met. ground arith)
        (λ row met. ground arith)
        (λ row hit.
          filters-Moves k.charge_id k.owner_id k.project_id k.run_id 0 0 row _ (ground arith) refl
            refl refl (ground arith) (ground arith))
        (rw no_reserved at e) h
]

pub recover_one-Inv :
    (now cutoff : ℕ) (k : Candidate) (db : Db) → Inv db → Inv (recover_one now cutoff k db).1
recover_one-Inv now cutoff k db h =
    recover_one-keeps Inv now cutoff k db (λ db' e. settle_stale-Inv now cutoff k db e h) h
