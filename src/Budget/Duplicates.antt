-- ===== src/Budget/Duplicates.antt =====
-- Repeated reservations of one call.
use cogentrex.Prelude.{
  ℕ, ◌≡◌, refl, ◌∙◌, ◌⊎◌, inl, inr, Bool, true, false, ◌&&◌, Option, none, some, List, String,
  str_eq, arith, get_elem?, select-found, ok, err, Result, Bool-cases, if◌then◌else◌,
}
use text.Mathlib.TextPositions.{eq_refl}
use cogentrex.Pricing.{Family, PricingError, validated_pricing_pair}
use cogentrex.Budget.Rows.{ChargeRow, Db, Outcome, bad_value}
use cogentrex.Budget.Reserving.{
  ChargeReservation, Call, same_call, in_run_of, duplicate, answered, reserve_checked,
  reserve_priced, call_ok, reserve_call,
}
use cogentrex.Budget.Log.{Op, run}
use cogentrex.Budget.History.{run_keeps}

-- A row of the same call: the charge or the ordinal of the same run.
pub record SameCall (call : Call) (row : ChargeRow) : Type 0 where
  pub owner : row.owner_id ≡ call.owner_id
  pub project : row.project_id ≡ call.project_id
  pub run : row.run_id ≡ call.run_id
  pub key : (row.charge_id ≡ call.charge_id) ⊎ (row.ordinal ≡ call.ordinal)

-- An outcome that does not let its caller dispatch, and changes nothing.
abbrev pub NotDispatched : Db → Outcome ChargeReservation → Type 0
NotDispatched db (err e, db') = db' ≡ db
NotDispatched db (ok res, db') = (res.should_dispatch ≡ false) × (db' ≡ db)

answered-NotDispatched :
    (r : String) (db : Db) (otherwise : Outcome ChargeReservation) (found : Option ChargeRow)
    {row : ChargeRow}
    → found ≡ some row
    → NotDispatched db (answered db otherwise (in_run_of r found))
answered-NotDispatched r db otherwise none e = cc
answered-NotDispatched r db otherwise (some row) e = elim (Bool-cases (str_eq row.run_id r)) [
  | inl same ↦ rw same (refl, refl)
  | inr other ↦ rw other refl
]

same_call-SameCall :
    (call : Call) (row : ChargeRow)
    → SameCall call row
    → (str_eq row.owner_id call.owner_id
        && str_eq row.project_id call.project_id
        && same_call call.charge_id call.run_id call.ordinal row)
      ≡ true
same_call-SameCall call row s =
    rw (s.owner, s.project, eq_refl call.owner_id, eq_refl call.project_id) (key s.key)
  where
    key :
        (row.charge_id ≡ call.charge_id) ⊎ (row.ordinal ≡ call.ordinal)
        → same_call call.charge_id call.run_id call.ordinal row ≡ true
    key (inl e) = rw (e, eq_refl call.charge_id)
    key (inr e) = rw (s.run, eq_refl call.run_id) (ground arith)

guarded-NotDispatched :
    (b : Bool) (db : Db) (x : Outcome ChargeReservation)
    → NotDispatched db x
    → NotDispatched db (if b then x else (err bad_value, db))
guarded-NotDispatched true db x h = h
guarded-NotDispatched false db x h = refl

-- While a charge of the call is in the table, `reserve_call` lets nobody dispatch it.
reserve_call-NotDispatched :
    (now : ℕ) (call : Call) (db : Db) (i : ℕ) {row : ChargeRow}
    → get_elem? db.charges i ≡ some row
    → SameCall call row
    → NotDispatched db (reserve_call now call db)
unfolding reserve_call
reserve_call-NotDispatched now call db i {row} at s =
    guarded-NotDispatched (call_ok call) db _
      (priced (validated_pricing_pair call.model call.provider))
  where
    priced :
        (pair : Result PricingError (Family × String))
        → NotDispatched db (reserve_priced now call db pair)
    priced (err e) = refl
    priced (ok (family, model)) =
        unfold reserve_checked duplicate in
        (let (found, e) = select-found _ db.charges i at (same_call-SameCall call row s) in
          answered-NotDispatched call.run_id db _ _ e)

-- Once the table holds a charge of the call's owner, project and run under its charge id or its
-- ordinal, then after any sequence of repository calls reserving the call fails or answers
-- `should_dispatch = False`, and changes nothing.
pub run_dispatches_once :
    (ops : List (ℕ × Op)) (now : ℕ) (call : Call) (db : Db) (i : ℕ) {row : ChargeRow}
    → get_elem? db.charges i ≡ some row
    → SameCall call row
    → NotDispatched (run ops db) (reserve_call now call (run ops db))
run_dispatches_once ops now call db i {row} at s =
    let (row', there, charge, owner, project, run_same, ordinal, quote) = run_keeps ops db i at in
    reserve_call-NotDispatched now call (run ops db) i there (record {
      owner = owner ∙ s.owner;
      project = project ∙ s.project;
      run = run_same ∙ s.run;
      key = same_key row' charge ordinal s.key;
    })
  where
    same_key :
        (row' : ChargeRow)
        → row'.charge_id ≡ row.charge_id
        → row'.ordinal ≡ row.ordinal
        → (row.charge_id ≡ call.charge_id) ⊎ (row.ordinal ≡ call.ordinal)
        → (row'.charge_id ≡ call.charge_id) ⊎ (row'.ordinal ≡ call.ordinal)
    same_key row' a b (inl e) = inl (a ∙ e)
    same_key row' a b (inr e) = inr (b ∙ e)
