-- ===== src/Budget/Reserve.antt =====
-- The accounts when a call is reserved.
use cogentrex.Prelude.{
  ℕ, ◌+◌, ◌≤◌, ◌≡◌, refl, Bool, true, false, ◌&&◌, Option, none, some, List, [], ◌∷◌, ◌++◌, String,
  str_eq, sum-append, arith, Bool-cases, inl, inr, &&-elim, eq_iff, Result, ok, err,
}
use mathlib.Core.Path.{subst}
use cogentrex.Pricing.{PricingError, Family, validated_pricing_pair, family_name}
use text.Mathlib.TextPositions.{eq_refl}
use cogentrex.Budget.Rows.{
  ProjectRow, RunRow, ChargeRow, Db, Outcome, BudgetError, bad_value, project_budget_exceeded,
  run_budget_exceeded, charge_conflict, put_project, put_run, run_in,
}
use cogentrex.Budget.Opening.{is_unopened}
use cogentrex.Budget.Reserving.{
  ChargeReservation, Call, settled_by, find_duplicate, answered, new_charge, is_taken, project_room,
  project_hold, run_room, run_hold, after_project, insert_charge, reserve_new, reserve_checked,
  reserve_priced, call_ok, reserve_call,
}
use cogentrex.Budget.Updates.{ProjectUpdate, RunUpdate, update_project_cases, update_run_cases}
use cogentrex.Budget.Outcomes.{guarded-keeps}
use cogentrex.Budget.Invariant.{
  Inv, Balanced, ProjectBalanced, RunBalanced, UnopenedClean, held, spent, of_project, of_run, when,
  total,
}

total-insert :
    (member : ChargeRow → Bool) (weight : ChargeRow → ℕ) (charges : List ChargeRow)
    (row : ChargeRow)
    → total member weight (charges ++ (row ∷ []))
      ≡ total member weight charges + when (member row) (weight row)
total-insert member weight charges row =
    omega (arith, sum-append (λ row. when (member row) (weight row)) charges (row ∷ []))

-- An account that holds one more charge, and one that does not.
Balanced-insert :
    (member : ChargeRow → Bool) (charges : List ChargeRow) (row : ChargeRow) (limit s r : ℕ)
    → member row ≡ true
    → spent row ≡ 0
    → held row + s + r ≤ limit
    → Balanced member charges limit s r
    → Balanced member (charges ++ (row ∷ [])) limit s (r + held row)
Balanced-insert member charges row limit s r here none_spent fits b = record {
  within_limit = omega (arith, fits);
  reserved_exact =
      rw (total-insert member held charges row, here) (omega (arith, b.reserved_exact));
  spent_exact =
      rw (total-insert member spent charges row, here, none_spent) (omega (arith, b.spent_exact));
}

Balanced-insert_ne :
    (member : ChargeRow → Bool) (charges : List ChargeRow) (row : ChargeRow) (limit s r : ℕ)
    → member row ≡ false
    → Balanced member charges limit s r
    → Balanced member (charges ++ (row ∷ [])) limit s r
Balanced-insert_ne member charges row limit s r off b = record {
  within_limit = b.within_limit;
  reserved_exact = rw (total-insert member held charges row, off) (omega (arith, b.reserved_exact));
  spent_exact = rw (total-insert member spent charges row, off) (omega (arith, b.spent_exact));
}

-- Both accounts hold the quote, and the new charge is there.
reserved-Inv :
    (now : ℕ) (call : Call) (db : Db) (project project' : ProjectRow) (run : RunRow)
    → db.projects call.owner_id call.project_id ≡ some project
    → project'
      ≡ record project { reserved_nusd = project.reserved_nusd + call.quote; updated_at = now }
    → call.quote + project.spent_nusd + project.reserved_nusd ≤ project.limit_nusd
    → db.runs call.run_id ≡ some run
    → run_in call.owner_id call.project_id run ≡ true
    → is_unopened run ≡ false
    → call.quote + run.spent_nusd + run.reserved_nusd ≤ run.limit_nusd
    → Inv db
    → Inv (
        insert_charge (new_charge now call) (
          put_run call.run_id
            (record run { reserved_nusd = run.reserved_nusd + call.quote })
            (put_project call.owner_id call.project_id project' db)))
reserved-Inv now call db project project' run at_p changed fits_p at_r owned opened fits_r h =
    record {
      projects_balanced = λ o' p'. elim (Bool-cases (str_eq o o' && str_eq p p')) [
        | inl same ↦ rw same (
            project_same o' p' ((eq_iff o o').0 (&&-elim (str_eq o o') (str_eq p p') same).0)
              ((eq_iff p p').0 (&&-elim (str_eq o o') (str_eq p p') same).1))
        | inr other ↦
            rw other (project_other o' p' (db.projects o' p') other (h.projects_balanced o' p'))
      ];
      runs_balanced = λ r'. elim (Bool-cases (str_eq r r')) [
        | inl same ↦ rw same (run_same r' ((eq_iff r r').0 same))
        | inr other ↦ rw other (run_other r' (db.runs r') other (h.runs_balanced r'))
      ];
    }
  where
    o : String
    o = call.owner_id

    p : String
    p = call.project_id

    r : String
    r = call.run_id

    charge : ChargeRow
    charge = new_charge now call

    after : List ChargeRow
    after = db.charges ++ (charge ∷ [])

    project_same : (o' p' : String) → o ≡ o' → p ≡ p' → ProjectBalanced o' p' after (some project')
    project_same o' p' eo ep =
        rw (← eo, ← ep, changed)
          (Balanced-insert (of_project o p) db.charges charge project.limit_nusd project.spent_nusd
            project.reserved_nusd (rw (eq_refl o, eq_refl p)) refl fits_p
            (subst (ProjectBalanced o p db.charges) at_p (h.projects_balanced o p)))

    project_other :
        (o' p' : String) (row : Option ProjectRow)
        → (str_eq o o' && str_eq p p') ≡ false
        → ProjectBalanced o' p' db.charges row
        → ProjectBalanced o' p' after row
    project_other o' p' none off b = (
      rw (total-insert (of_project o' p') held db.charges charge, off) (omega (arith, b)),
      rw (total-insert (of_project o' p') spent db.charges charge, off) (omega (arith, b)),
    )
    project_other o' p' (some row) off b =
        Balanced-insert_ne (of_project o' p') db.charges charge _ _ _ off b

    old : RunBalanced r db.charges (some run)
    old = subst (RunBalanced r db.charges) at_r (h.runs_balanced r)

    owner : run.user_id ≡ o
    owner =
        (eq_iff run.user_id o).0 (&&-elim (str_eq run.user_id o) (str_eq run.project_id p) owned).0

    project_of : run.project_id ≡ p
    project_of =
        (eq_iff run.project_id p).0
          (&&-elim (str_eq run.user_id o) (str_eq run.project_id p) owned).1

    member : of_run run.user_id run.project_id r charge ≡ true
    member = rw (owner, project_of, eq_refl o, eq_refl p, eq_refl r)

    opened_clean :
        (at : Option ℕ)
        → (elim at [ none ↦ true | some _ ↦ false ]) ≡ false
        → UnopenedClean at run.spent_nusd (run.reserved_nusd + call.quote)
    opened_clean none e = cc
    opened_clean (some t) e = tt

    run_same :
        (r' : String)
        → r ≡ r'
        → RunBalanced r' after
            (some (record run { reserved_nusd = run.reserved_nusd + call.quote }))
    run_same r' er = rw (← er) (
      Balanced-insert (of_run run.user_id run.project_id r) db.charges charge run.limit_nusd
          run.spent_nusd run.reserved_nusd member refl fits_r old.0,
      opened_clean run.opened_at opened,
    )

    run_other :
        (r' : String) (row : Option RunRow)
        → str_eq r r' ≡ false
        → RunBalanced r' db.charges row
        → RunBalanced r' after row
    run_other r' none off b = tt
    run_other r' (some row) off (b, clean) = (
      Balanced-insert_ne (of_run row.user_id row.project_id r') db.charges charge _ _ _
          (ground arith) b,
      clean,
    )

answered-Inv :
    (db : Db) (otherwise : Outcome ChargeReservation)
    (found : Result BudgetError (Option ChargeRow))
    → Inv db
    → Inv otherwise.1
    → Inv (answered db otherwise found).1
answered-Inv db otherwise (err e) h k = h
answered-Inv db otherwise (ok none) h k = k
answered-Inv db otherwise (ok (some row)) h k = h

settled_by-Inv : (call : Call) (e : BudgetError) (db : Db) → Inv db → Inv (settled_by call e db).1
settled_by-Inv call e db h = answered-Inv db (err e, db) (find_duplicate call db) h h

reserve_new-Inv : (now : ℕ) (call : Call) (db : Db) → Inv db → Inv (reserve_new now call db).1
unfolding reserve_new
reserve_new-Inv now call db h =
    elim (update_project_cases call.owner_id call.project_id (project_room call)
      (project_hold now call) db) [
        | ProjectUpdate.missed e ↦ rw e (settled_by-Inv call project_budget_exceeded db h)
        | ProjectUpdate.hit project at_p fits e ↦ rw e (held project at_p fits)
      ]
  where
    held :
        (project : ProjectRow)
        → db.projects call.owner_id call.project_id ≡ some project
        → project_room call project ≡ true
        → Inv
            (after_project now call db
              (1, put_project call.owner_id call.project_id (project_hold now call project) db)).1
    held project at_p fits =
        let db₁ = put_project call.owner_id call.project_id (project_hold now call project) db in
        elim (update_run_cases call.owner_id call.project_id call.run_id (run_room call)
          (run_hold call) db₁) [
            | RunUpdate.missed e ↦ rw e (settled_by-Inv call run_budget_exceeded db h)
            | RunUpdate.hit run at_r owned met e ↦ rw e (
                guarded-keeps Inv (is_taken call db₁) _ _ (settled_by-Inv call charge_conflict db h)
                  (reserved-Inv now call db project _ run at_p refl (ground arith) at_r owned
                    (ground arith) (ground arith) h))
          ]

reserve_priced-Inv :
    (now : ℕ) (call : Call) (db : Db) (pair : Result PricingError (Family × String))
    → Inv db
    → Inv (reserve_priced now call db pair).1
unfolding reserve_checked
reserve_priced-Inv now call db (err e) h = h
reserve_priced-Inv now call db (ok (family, model)) h =
    answered-Inv db _ (find_duplicate priced db) h (reserve_new-Inv now priced db h)
  where
    priced : Call
    priced = record call { provider = family_name family; model = model }

pub reserve_call-Inv : (now : ℕ) (call : Call) (db : Db) → Inv db → Inv (reserve_call now call db).1
unfolding reserve_call
reserve_call-Inv now call db h =
    guarded-keeps Inv (call_ok call) _ (err bad_value, db)
      (reserve_priced-Inv now call db (validated_pricing_pair call.model call.provider) h) h
