-- ===== src/Budget/History.antt =====
-- What becomes of one charge over a sequence of repository calls.
use cogentrex.Prelude.{
  ℕ, ◌≡◌, refl, sym, ap, ◌∙◌, false, Option, none, some, List, [], ◌∷◌, String, get_elem?, ok, err,
  Result,
}
use mathlib.Core.Path.{subst}
use cogentrex.Pricing.{Family, PricingError, family_name, validated_pricing_pair}
use cogentrex.Budget.Rows.{
  ChargeState, reserved, dispatched, reconciled, released, indeterminate, BudgetError, bad_value,
  project_budget_exceeded, run_budget_exceeded, charge_conflict, ChargeRow, Db, Outcome, is_active,
  put_project,
}
use cogentrex.Budget.Reserving.{
  ChargeReservation, Call, answered, settled_by, find_duplicate, new_charge, is_taken, project_room,
  project_hold, run_room, run_hold, after_project, reserve_new, reserve_checked, reserve_priced,
  call_ok, reserve_call,
}
use cogentrex.Budget.Updates.{ProjectUpdate, RunUpdate, update_project_cases, update_run_cases}
use cogentrex.Budget.Outcomes.{guarded-keeps, recover_one-keeps}
use cogentrex.Budget.Log.{
  Op, open_op, reserve_op, dispatch_op, reconcile_op, release_op, indeterminate_op, recover_op,
  apply, run,
}
use cogentrex.Budget.Lifecycle.{Edge, Evolves, Grows, Grows-refl, Grows-append}
use cogentrex.Budget.Progress.{
  From, mark_dispatched-Grows, mark_indeterminate-Grows, release-Grows, reconcile-Grows,
  settle_stale-Grows, open_run-charges,
}

answered-Grows :
    (db : Db) (otherwise : Outcome ChargeReservation)
    (found : Result BudgetError (Option ChargeRow))
    → From db.charges otherwise.1
    → From db.charges (answered db otherwise found).1
answered-Grows db otherwise (err e) k = Grows-refl db.charges
answered-Grows db otherwise (ok none) k = k
answered-Grows db otherwise (ok (some row)) k = Grows-refl db.charges

settled_by-Grows :
    (call : Call) (e : BudgetError) (db : Db) → From db.charges (settled_by call e db).1
settled_by-Grows call e db =
    answered-Grows db (err e, db) (find_duplicate call db) (Grows-refl db.charges)

reserve_new-Grows : (now : ℕ) (call : Call) (db : Db) → From db.charges (reserve_new now call db).1
unfolding reserve_new
reserve_new-Grows now call db =
    elim (update_project_cases call.owner_id call.project_id (project_room call)
      (project_hold now call) db) [
        | ProjectUpdate.missed e ↦ rw e (settled_by-Grows call project_budget_exceeded db)
        | ProjectUpdate.hit project at_p fits e ↦ rw e (
            held (put_project call.owner_id call.project_id (project_hold now call project) db)
              refl)
      ]
  where
    held :
        (db₁ : Db)
        → db₁.charges ≡ db.charges
        → From db.charges (after_project now call db (1, db₁)).1
    held db₁ same =
        elim (update_run_cases call.owner_id call.project_id call.run_id (run_room call)
          (run_hold call) db₁) [
            | RunUpdate.missed e ↦ rw e (settled_by-Grows call run_budget_exceeded db)
            | RunUpdate.hit run at_r owned met e ↦ rw e (
                guarded-keeps (From db.charges) (is_taken call db₁) _ _
                  (settled_by-Grows call charge_conflict db)
                  (rw same (Grows-append db.charges (new_charge now call ∷ []))))
          ]

reserve_call-Grows :
    (now : ℕ) (call : Call) (db : Db) → From db.charges (reserve_call now call db).1
unfolding reserve_call
reserve_call-Grows now call db =
    guarded-keeps (From db.charges) (call_ok call) _ (err bad_value, db)
      (priced (validated_pricing_pair call.model call.provider)) (Grows-refl db.charges)
  where
    priced :
        (pair : Result PricingError (Family × String))
        → From db.charges (reserve_priced now call db pair).1
    priced (err e) = Grows-refl db.charges
    priced (ok (family, model)) =
        unfold reserve_checked in
        (answered-Grows db _
          (find_duplicate (record call { provider = family_name family; model = model }) db)
          (reserve_new-Grows now (record call { provider = family_name family; model = model }) db))

apply-Grows : (now : ℕ) (op : Op) (db : Db) → From db.charges (apply now op db)
unfolding apply
apply-Grows now (open_op o p r rl pl) db =
    subst (Grows db.charges) (sym (open_run-charges now o p r rl pl db)) (Grows-refl db.charges)
apply-Grows now (reserve_op call) db = reserve_call-Grows now call db
apply-Grows now (dispatch_op c o p r) db = mark_dispatched-Grows now c o p r db
apply-Grows now (reconcile_op c o p r u) db = reconcile-Grows now c o p r u db
apply-Grows now (release_op c o p r) db = release-Grows now c o p r db
apply-Grows now (indeterminate_op c o p r reason) db =
    mark_indeterminate-Grows now c o p r reason db
apply-Grows now (recover_op cutoff k) db =
    recover_one-keeps (From db.charges) now cutoff k db
      (λ db' e. settle_stale-Grows now cutoff k db e) (Grows-refl db.charges)

-- Once a charge is reconciled, released or indeterminate, no sequence of calls changes its row.
pub run_settled :
    (ops : List (ℕ × Op)) (db : Db) (i : ℕ) {row : ChargeRow}
    → get_elem? db.charges i ≡ some row
    → is_active row.state ≡ false
    → get_elem? (run ops db).charges i ≡ some row
unfolding run
run_settled [] db i e final = e
run_settled ((now, op) ∷ ops) db i {row} e final =
    let (row', at, moved) = apply-Grows now op db i row e in
    run_settled ops (apply now op db) i (at ∙ ap some (stuck row row' final moved)) final
  where
    no_edge : (s t : ChargeState) → is_active s ≡ false → Edge s t → ⊥
    no_edge reserved t h e = cc
    no_edge dispatched t h e = cc
    no_edge reconciled t h e = elim e [ ]
    no_edge released t h e = elim e [ ]
    no_edge indeterminate t h e = elim e [ ]

    stuck : (row row' : ChargeRow) → is_active row.state ≡ false → Evolves row row' → row' ≡ row
    stuck row row' h (Evolves.stays same) = same
    stuck row row' h (Evolves.moves edge _ _ _ _ _ _ _) =
        absurd (no_edge row.state row'.state h edge)

-- After any sequence of calls a charge is still at its place, with its ids, its ordinal and its
-- quote.
pub run_keeps :
    (ops : List (ℕ × Op)) (db : Db) (i : ℕ) {row : ChargeRow}
    → get_elem? db.charges i ≡ some row
    → (row' : ChargeRow) × (get_elem? (run ops db).charges i ≡ some row')
      × (row'.charge_id ≡ row.charge_id)
      × (row'.owner_id ≡ row.owner_id)
      × (row'.project_id ≡ row.project_id)
      × (row'.run_id ≡ row.run_id)
      × (row'.ordinal ≡ row.ordinal)
      × (row'.reserved_nusd ≡ row.reserved_nusd)
unfolding run
run_keeps [] db i {row} e = (row, e, refl, refl, refl, refl, refl, refl)
run_keeps ((now, op) ∷ ops) db i {row} e =
    let (row', at, moved) = apply-Grows now op db i row e in
    let (a, b, c, d, f, g) = kept row row' moved in
    let (last, there, a', b', c', d', f', g') = run_keeps ops (apply now op db) i at in
    (last, there, a' ∙ a, b' ∙ b, c' ∙ c, d' ∙ d, f' ∙ f, g' ∙ g)
  where
    kept :
        (row row' : ChargeRow)
        → Evolves row row'
        → (row'.charge_id ≡ row.charge_id)
          × (row'.owner_id ≡ row.owner_id)
          × (row'.project_id ≡ row.project_id)
          × (row'.run_id ≡ row.run_id)
          × (row'.ordinal ≡ row.ordinal)
          × (row'.reserved_nusd ≡ row.reserved_nusd)
    kept row row' (Evolves.stays same) = rw same (refl, refl, refl, refl, refl, refl)
    kept row row' (Evolves.moves _ a b c d f g _) = (a, b, c, d, f, g)
