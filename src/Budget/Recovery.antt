-- ===== src/Budget/Recovery.antt =====
-- `recover_stale`: stale reservations are released, stale dispatches become indeterminate, each
-- candidate in a transaction of its own.
use cogentrex.Prelude.{
  ℕ, ◌+◌, ◌-◌, Bool, true, ◌&&◌, Option, none, some, List, [], ◌∷◌, String, matched, leb, ltb, ◌==◌,
  if◌then◌else◌, ok, err,
}
use cogentrex.Budget.Rows.{
  released, indeterminate, state_conflict, ChargeRow, Db, Outcome, is_reserved, is_dispatched,
  is_active, charge_filters, settle,
}

-- The columns that the first query selects.
pub record Candidate : Type 0 where
  pub charge_id : String
  pub owner_id : String
  pub project_id : String
  pub run_id : String
  pub was_reserved : Bool
  pub quote : ℕ

abbrev pub candidate_of : ChargeRow → Candidate
candidate_of row = record {
  charge_id = row.charge_id;
  owner_id = row.owner_id;
  project_id = row.project_id;
  run_id = row.run_id;
  was_reserved = is_reserved row.state;
  quote = row.reserved_nusd;
}

-- The first query, in table order, before its `ORDER BY`.
unfoldable pub candidates : ℕ → List ChargeRow → List Candidate
candidates cutoff [] = []
candidates cutoff (row ∷ rows) =
    let rest = candidates cutoff rows in
    if is_active row.state && ltb row.updated_at cutoff then candidate_of row ∷ rest else rest

unfoldable pub in_scope : Candidate → ChargeRow → Bool
in_scope k = charge_filters k.charge_id k.owner_id k.project_id k.run_id

abbrev pub stale_condition : ℕ → Candidate → ChargeRow → Bool
stale_condition cutoff k row =
    if k.was_reserved
    then in_scope k row
      && is_reserved row.state
      && row.reserved_nusd == k.quote
      && ltb row.updated_at cutoff
    else in_scope k row && is_dispatched row.state && ltb row.updated_at cutoff

unfoldable pub settle_stale : ℕ → ℕ → Candidate → Db → Option Db
settle_stale now cutoff k =
    if k.was_reserved
    then settle k.owner_id k.project_id k.run_id (λ row. leb k.quote row.reserved_nusd)
        (λ row. record row { reserved_nusd = row.reserved_nusd - k.quote; updated_at = now })
        (λ row. leb k.quote row.reserved_nusd)
        (λ row. record row { reserved_nusd = row.reserved_nusd - k.quote })
        (λ row.
          in_scope k row
          && is_reserved row.state
          && row.reserved_nusd == k.quote
          && ltb row.updated_at cutoff)
        (λ row. record row {
          state = released;
          reason_code = some "stale_reserved";
          updated_at = now;
        })
    else settle k.owner_id k.project_id k.run_id (λ _. true) (λ row. row) (λ _. true) (λ row. row)
        (λ row. in_scope k row && is_dispatched row.state && ltb row.updated_at cutoff)
        (λ row. record row {
          state = indeterminate;
          reason_code = some "stale_dispatched";
          updated_at = now;
        })

-- One candidate: recovered (1), overtaken by another transition (0), or a conflict.
abbrev pub recovered : ℕ → Candidate → Db → Option Db → Outcome ℕ
recovered cutoff k db (some db') = (ok 1, db')
recovered cutoff k db none =
    if matched (stale_condition cutoff k) db.charges == 0
    then (ok 0, db)
    else (err state_conflict, db)

unfoldable pub recover_one : ℕ → ℕ → Candidate → Db → Outcome ℕ
recover_one now cutoff k db = recovered cutoff k db (settle_stale now cutoff k db)

abbrev pub add_count : ℕ → Outcome ℕ → Outcome ℕ
add_count n (err e, db) = (err e, db)
add_count n (ok m, db) = (ok (n + m), db)

abbrev pub then_recover : Outcome ℕ → (Db → Outcome ℕ) → Outcome ℕ
then_recover (err e, db) rest = (err e, db)
then_recover (ok n, db) rest = add_count n (rest db)

-- The loop; a conflict ends it, and what was committed before stays. The clock is read anew for
-- each candidate.
unfoldable pub recover_all : (Candidate → ℕ) → ℕ → List Candidate → Db → Outcome ℕ
recover_all clock cutoff [] db = (ok 0, db)
recover_all clock cutoff (k ∷ ks) db =
    then_recover (recover_one (clock k) cutoff k db) (recover_all clock cutoff ks)

-- `order_by` is the database's sort by owner, project, run and charge.
unfoldable pub recover_stale :
    (List Candidate → List Candidate) → (Candidate → ℕ) → ℕ → Db → Outcome ℕ
recover_stale order_by clock cutoff db =
    recover_all clock cutoff (order_by (candidates cutoff db.charges)) db
