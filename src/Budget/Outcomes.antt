-- ===== src/Budget/Outcomes.antt =====
-- What every outcome of a method keeps, given that its committed updates keep it.
use cogentrex.Prelude.{
  ℕ, ◌≤◌, ◌≡◌, refl, Bool, true, false, ◌&&◌, Option, none, some, String, if◌then◌else◌, arith,
  Bool-cases, inl, inr, Result, ok, err, ltb,
}
use cogentrex.Pricing.{Family}
use cogentrex.Budget.Ids.{scope_ok}
use cogentrex.Budget.Rows.{
  BudgetError, bad_value, state_conflict, ChargeState, ChargeRow, Db, Outcome, settle,
  charge_filters, is_dispatched,
}
use cogentrex.Budget.Transitions.{
  finished, simple_transition, settle_release, release_found, release,
}
use cogentrex.Budget.Reconciling.{
  Usage, usage_ok, price_usage, settle_exceeded, settle_reconciled, exceeded, reconcile_priced,
  reconcile_found, reconcile,
}
use cogentrex.Budget.Recovery.{Candidate, settle_stale, recovered, recover_one}

module _ (P : Db → Type 0) where
  pub guarded-keeps :
      {A : Type 0} (b : Bool) (x y : Outcome A) → P x.1 → P y.1 → P (if b then x else y).1
  guarded-keeps true x y hx hy = hx
  guarded-keeps false x y hx hy = hy

  finished-keeps :
      (c : String) (db : Db) (found : Option Db)
      → P db
      → ((db' : Db) → found ≡ some db' → P db')
      → P (finished c db found).1
  finished-keeps c db none h k = h
  finished-keeps c db (some db') h k = k db' refl

  pub simple_transition-keeps :
      (c o p r : String) (source : ChargeState → Bool) (change : ChargeRow → ChargeRow) (db : Db)
      → ((db' : Db)
          → settle o p r
              (λ _. true)
              (λ row. row)
              (λ _. true)
              (λ row. row)
              (λ row. charge_filters c o p r row && source row.state)
              change
              db
            ≡ some db'
          → P db')
      → P db
      → P (simple_transition c o p r source change db).1
  unfolding simple_transition
  simple_transition-keeps c o p r source change db k h =
      guarded-keeps (scope_ok c o p r) _ (err bad_value, db) (finished-keeps c db _ h k) h

  release_found-keeps :
      (now : ℕ) (c o p r reason : String) (found : Option ChargeRow) (db : Db)
      → ((quote : ℕ) (db' : Db) → settle_release now c o p r reason quote db ≡ some db' → P db')
      → P db
      → P (release_found now c o p r reason found db).1
  release_found-keeps now c o p r reason none db k h = h
  release_found-keeps now c o p r reason (some charge) db k h =
      finished-keeps c db _ h (k charge.reserved_nusd)

  pub release-keeps :
      (now : ℕ) (c o p r : String) (db : Db)
      → ((quote : ℕ) (db' : Db) → settle_release now c o p r "released" quote db ≡ some db' → P db')
      → P db
      → P (release now c o p r db).1
  unfolding release
  release-keeps now c o p r db k h =
      guarded-keeps (scope_ok c o p r) _ (err bad_value, db)
        (release_found-keeps now c o p r "released" _ db k h) h

  exceeded-keeps :
      (db : Db) (found : Option Db)
      → P db
      → ((db' : Db) → found ≡ some db' → P db')
      → P (exceeded db found).1
  exceeded-keeps db none h k = h
  exceeded-keeps db (some db') h k = k db' refl

  reconcile_priced-keeps :
      (now : ℕ) (c o p r : String) (u : Usage) (quote : ℕ)
      (priced : Result BudgetError (Family × String × ℕ)) (db : Db)
      → ((db' : Db) → settle_exceeded now c o p r db ≡ some db' → P db')
      → ((family : Family) (model : String) (actual : ℕ) (db' : Db)
          → actual ≤ quote
          → settle_reconciled now c o p r u quote (family, model, actual) db ≡ some db'
          → P db')
      → P db
      → P (reconcile_priced now c o p r u quote priced db).1
  reconcile_priced-keeps now c o p r u quote (err x) db ke kr h = h
  reconcile_priced-keeps now c o p r u quote (ok (family, model, actual)) db ke kr h =
      elim (Bool-cases (ltb quote actual)) [
        | inl over ↦ rw over (exceeded-keeps db _ h ke)
        | inr within ↦
            rw within (finished-keeps c db _ h (λ db'. kr family model actual db' (ground arith)))
      ]

  reconcile_found-keeps :
      (now : ℕ) (c o p r : String) (u : Usage) (found : Option ChargeRow) (db : Db)
      → ((db' : Db) → settle_exceeded now c o p r db ≡ some db' → P db')
      → ((quote : ℕ) (family : Family) (model : String) (actual : ℕ) (db' : Db)
          → actual ≤ quote
          → settle_reconciled now c o p r u quote (family, model, actual) db ≡ some db'
          → P db')
      → P db
      → P (reconcile_found now c o p r u found db).1
  reconcile_found-keeps now c o p r u none db ke kr h = h
  reconcile_found-keeps now c o p r u (some charge) db ke kr h =
      guarded-keeps (is_dispatched charge.state) _ (err state_conflict, db)
        (reconcile_priced-keeps now c o p r u charge.reserved_nusd (price_usage u charge) db ke
          (kr charge.reserved_nusd) h)
        h

  pub reconcile-keeps :
      (now : ℕ) (c o p r : String) (u : Usage) (db : Db)
      → ((db' : Db) → settle_exceeded now c o p r db ≡ some db' → P db')
      → ((quote : ℕ) (family : Family) (model : String) (actual : ℕ) (db' : Db)
          → actual ≤ quote
          → settle_reconciled now c o p r u quote (family, model, actual) db ≡ some db'
          → P db')
      → P db
      → P (reconcile now c o p r u db).1
  unfolding reconcile
  reconcile-keeps now c o p r u db ke kr h =
      guarded-keeps (scope_ok c o p r && usage_ok u) _ (err bad_value, db)
        (reconcile_found-keeps now c o p r u _ db ke kr h) h

  recovered-keeps :
      (cutoff : ℕ) (k : Candidate) (db : Db) (found : Option Db)
      → P db
      → ((db' : Db) → found ≡ some db' → P db')
      → P (recovered cutoff k db found).1
  recovered-keeps cutoff k db none h f = guarded-keeps _ (ok 0, db) (err state_conflict, db) h h
  recovered-keeps cutoff k db (some db') h f = f db' refl

  pub recover_one-keeps :
      (now cutoff : ℕ) (k : Candidate) (db : Db)
      → ((db' : Db) → settle_stale now cutoff k db ≡ some db' → P db')
      → P db
      → P (recover_one now cutoff k db).1
  unfolding recover_one
  recover_one-keeps now cutoff k db f h = recovered-keeps cutoff k db _ h f
