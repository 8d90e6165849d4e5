-- ===== src/Budget/Reserving.antt =====
-- `reserve_call` and `_duplicate`: the conditional updates that hold a quote for a model call.
use cogentrex.Prelude.{
  ℕ, ◌+◌, Bool, true, false, ◌&&◌, ◌||◌, not, Option, none, some, [], ◌∷◌, ◌++◌, String, str_eq,
  select, leb, ◌==◌, if◌then◌else◌, Result, ok, err,
}
use cogentrex.Pricing.{PricingError, Family, family_name, validated_pricing_pair}
use cogentrex.Budget.Rows.{
  ChargeState, reserved, BudgetError, bad_value, charge_conflict, project_budget_exceeded,
  run_budget_exceeded, pricing, ProjectRow, RunRow, ChargeRow, Db, Outcome, update_project,
  update_run,
}
use cogentrex.Budget.Ids.{id_ok, scope_ok, amount_ok}
use cogentrex.Budget.Opening.{is_unopened}

pub record ChargeReservation : Type 0 where
  pub charge_id : String
  pub state : ChargeState
  pub should_dispatch : Bool
  pub reserved_nusd : ℕ

-- `_reservation(row, False)`.
abbrev pub duplicate_of : ChargeRow → ChargeReservation
duplicate_of row = record {
  charge_id = row.charge_id;
  state = row.state;
  should_dispatch = false;
  reserved_nusd = row.reserved_nusd;
}

abbrev pub same_call : String → String → ℕ → ChargeRow → Bool
same_call c r ordinal row =
    str_eq row.charge_id c || (str_eq row.run_id r && row.ordinal == ordinal)

abbrev pub in_run_of : String → Option ChargeRow → Result BudgetError (Option ChargeRow)
in_run_of r none = ok none
in_run_of r (some row) = if str_eq row.run_id r then ok (some row) else err charge_conflict

unfoldable pub duplicate :
    String → String → String → String → ℕ → Db → Result BudgetError (Option ChargeRow)
duplicate c o p r ordinal db = in_run_of r (
    select (λ row. str_eq row.owner_id o && str_eq row.project_id p && same_call c r ordinal row)
      db.charges)

-- A call to reserve, its provider and model in canonical form.
pub record Call : Type 0 where
  pub charge_id : String
  pub owner_id : String
  pub project_id : String
  pub run_id : String
  pub ordinal : ℕ
  pub quote : ℕ
  pub provider : String
  pub model : String

abbrev pub find_duplicate : Call → Db → Result BudgetError (Option ChargeRow)
find_duplicate call db =
    duplicate call.charge_id call.owner_id call.project_id call.run_id call.ordinal db

-- A call that is there already is answered by its reservation, another goes on.
abbrev pub answered :
    Db
    → Outcome ChargeReservation
    → Result BudgetError (Option ChargeRow)
    → Outcome ChargeReservation
answered db otherwise (err e) = (err e, db)
answered db otherwise (ok none) = otherwise
answered db otherwise (ok (some row)) = (ok (duplicate_of row), db)

-- After a rollback: the reservation of a call that is there by now, or the error.
abbrev pub settled_by : Call → BudgetError → Db → Outcome ChargeReservation
settled_by call e db = answered db (err e, db) (find_duplicate call db)

abbrev pub new_charge : ℕ → Call → ChargeRow
new_charge now call = record {
  charge_id = call.charge_id;
  owner_id = call.owner_id;
  project_id = call.project_id;
  run_id = call.run_id;
  ordinal = call.ordinal;
  state = reserved;
  reserved_nusd = call.quote;
  actual_nusd = none;
  provider = some call.provider;
  model = some call.model;
  input_tokens = none;
  output_tokens = none;
  cache_read_tokens = none;
  cache_write_tokens = none;
  reason_code = none;
  created_at = now;
  updated_at = now;
  dispatched_at = none;
  reconciled_at = none;
}

-- The primary key and the constraint `uq_model_charges_run_ordinal`, over every owner.
abbrev pub is_taken : Call → Db → Bool
is_taken call db = elim (select (same_call call.charge_id call.run_id call.ordinal) db.charges) [
  | none ↦ false
  | some _ ↦ true
]

-- `quote <= limit - spent - reserved`, over whole numbers.
abbrev pub project_room : Call → ProjectRow → Bool
project_room call row = leb (call.quote + row.spent_nusd + row.reserved_nusd) row.limit_nusd

abbrev pub project_hold : ℕ → Call → ProjectRow → ProjectRow
project_hold now call row = record row {
  reserved_nusd = row.reserved_nusd + call.quote;
  updated_at = now;
}

abbrev pub hold_project : ℕ → Call → Db → ℕ × Db
hold_project now call =
    update_project call.owner_id call.project_id (project_room call) (project_hold now call)

abbrev pub run_room : Call → RunRow → Bool
run_room call row =
    not (is_unopened row) && leb (call.quote + row.spent_nusd + row.reserved_nusd) row.limit_nusd

abbrev pub run_hold : Call → RunRow → RunRow
run_hold call row = record row { reserved_nusd = row.reserved_nusd + call.quote }

abbrev pub hold_run : Call → Db → ℕ × Db
hold_run call = update_run call.owner_id call.project_id call.run_id (run_room call) (run_hold call)

abbrev pub insert_charge : ChargeRow → Db → Db
insert_charge row db = record db { charges = db.charges ++ (row ∷ []) }

-- From the run's update on, given its row count and the tables after it.
abbrev pub after_run : ℕ → Call → Db → ℕ × Db → Outcome ChargeReservation
after_run now call db (rows, db') =
    if not (rows == 1)
    then settled_by call run_budget_exceeded db
    else if is_taken call db'
    then settled_by call charge_conflict db
    else (
      ok (record {
        charge_id = call.charge_id;
        state = reserved;
        should_dispatch = true;
        reserved_nusd = call.quote;
      }),
      insert_charge (new_charge now call) db',
    )

abbrev pub after_project : ℕ → Call → Db → ℕ × Db → Outcome ChargeReservation
after_project now call db (rows, db') =
    if not (rows == 1)
    then settled_by call project_budget_exceeded db
    else after_run now call db (hold_run call db')

unfoldable pub reserve_new : ℕ → Call → Db → Outcome ChargeReservation
reserve_new now call db = after_project now call db (hold_project now call db)

unfoldable pub reserve_checked : ℕ → Call → Db → Outcome ChargeReservation
reserve_checked now call db = answered db (reserve_new now call db) (find_duplicate call db)

abbrev pub call_ok : Call → Bool
call_ok call =
    scope_ok call.charge_id call.owner_id call.project_id call.run_id
    && leb call.ordinal 2147483647
    && amount_ok call.quote
    && id_ok call.provider 100
    && id_ok call.model 255

abbrev pub reserve_priced :
    ℕ → Call → Db → Result PricingError (Family × String) → Outcome ChargeReservation
reserve_priced now call db (err e) = (err (pricing e), db)
reserve_priced now call db (ok (family, model)) =
    reserve_checked now (record call { provider = family_name family; model = model }) db

unfoldable pub reserve_call : ℕ → Call → Db → Outcome ChargeReservation
reserve_call now call db =
    if call_ok call
    then reserve_priced now call db (validated_pricing_pair call.model call.provider)
    else (err bad_value, db)
