-- ===== src/Effects/Repository.antt =====
-- `EffectRepository`: every method is the transaction it opens, over the rows in insertion order.
use cogentrex.Prelude.{
  ℕ, Bool, true, false, ◌&&◌, Option, none, some, List, [], ◌∷◌, ◌++◌, String, str_eq, select,
  update, matched, ltb, ◌==◌, if◌then◌else◌, Result, ok, err,
}
use cogentrex.Effects.Rows.{
  EffectState, reserved, committed, failed, indeterminate, is_reserved, is_indeterminate,
  EffectError, bad_value, state_conflict, review_conflict, EffectRow, EffectBinding, effect_id_ok,
  digest_ok, safe_code_ok, reviewer_ok, disposition_ok, size_ok,
}

-- What a method returns, and the table after it.
abbrev pub Outcome : Type 0 → Type 0
Outcome A = Result EffectError A × List EffectRow

pub record EffectReservation : Type 0 where
  pub effect_id : String
  pub state : EffectState
  pub should_execute : Bool

abbrev pub has_id : String → EffectRow → Bool
has_id e row = str_eq row.effect_id e

abbrev pub new_row : ℕ → EffectBinding → EffectRow
new_row now binding = record {
  effect_id = binding.effect_id;
  identity_version = binding.identity_version;
  owner_id = binding.owner_id;
  project_id = binding.project_id;
  run_id = binding.run_id;
  tool_name = binding.tool_name;
  schema_hash = binding.schema_hash;
  state = reserved;
  output_hash = none;
  output_size = none;
  failure_code = none;
  reserved_at = now;
  completed_at = none;
  review_disposition = none;
  reviewed_by = none;
  reviewed_at = none;
}

abbrev pub reservation : String → EffectState → Bool → EffectReservation
reservation e state should_execute = record {
  effect_id = e;
  state = state;
  should_execute = should_execute;
}

-- The insert that does nothing on a conflict of the primary key, or the state of the row there.
abbrev pub insert_or_read :
    ℕ → EffectBinding → List EffectRow → Option EffectRow → Outcome EffectReservation
insert_or_read now binding rows none =
    (ok (reservation binding.effect_id reserved true), rows ++ (new_row now binding ∷ []))
insert_or_read now binding rows (some row) =
    (ok (reservation binding.effect_id row.state false), rows)

unfoldable pub reserve : ℕ → EffectBinding → List EffectRow → Outcome EffectReservation
reserve now binding rows =
    if effect_id_ok binding.effect_id && digest_ok binding.schema_hash
    then insert_or_read now binding rows (select (has_id binding.effect_id) rows)
    else (err bad_value, rows)

-- The update of a row that must be reserved.
abbrev pub is_open : String → EffectRow → Bool
is_open e row = has_id e row && is_reserved row.state

abbrev pub complete :
    ℕ → EffectState → Option String → Option ℕ → Option String → EffectRow → EffectRow
complete now state hash size code row = record row {
  state = state;
  output_hash = hash;
  output_size = size;
  failure_code = code;
  completed_at = some now;
}

-- `_transition`.
unfoldable pub transition :
    ℕ
    → String
    → EffectState
    → Option String
    → Option ℕ
    → Option String
    → List EffectRow
    → Outcome (Unit {0})
transition now e state hash size code rows =
    if effect_id_ok e
    then (if matched (is_open e) rows == 1
        then (ok tt, update (is_open e) (complete now state hash size code) rows)
        else (err state_conflict, rows))
    else (err bad_value, rows)

unfoldable pub commit : ℕ → String → String → ℕ → List EffectRow → Outcome (Unit {0})
commit now e hash size rows =
    if digest_ok hash && size_ok size
    then transition now e committed (some hash) (some size) none rows
    else (err bad_value, rows)

unfoldable pub fail : ℕ → String → String → List EffectRow → Outcome (Unit {0})
fail now e code rows =
    if safe_code_ok code
    then transition now e failed none none (some code) rows
    else (err bad_value, rows)

unfoldable pub mark_indeterminate : ℕ → String → String → List EffectRow → Outcome (Unit {0})
mark_indeterminate now e code rows =
    if safe_code_ok code
    then transition now e indeterminate none none (some code) rows
    else (err bad_value, rows)

abbrev pub is_stale : ℕ → EffectRow → Bool
is_stale cutoff row = is_reserved row.state && ltb row.reserved_at cutoff

abbrev pub lapse : ℕ → EffectRow → EffectRow
lapse now row = record row {
  state = indeterminate;
  failure_code = some "stale_reservation";
  completed_at = some now;
}

unfoldable pub recover_stale_reservations : ℕ → ℕ → List EffectRow → Outcome ℕ
recover_stale_reservations now cutoff rows =
    (ok (matched (is_stale cutoff) rows), update (is_stale cutoff) (lapse now) rows)

abbrev pub in_scope : String → String → String → String → EffectRow → Bool
in_scope e o p r row =
    has_id e row && str_eq row.owner_id o && str_eq row.project_id p && str_eq row.run_id r

unfoldable pub get :
    String → String → String → String → List EffectRow → Result EffectError (Option EffectRow)
get e o p r rows = if effect_id_ok e then ok (select (in_scope e o p r) rows) else err bad_value

abbrev pub is_none : Option String → Bool
is_none none = true
is_none (some _) = false

abbrev pub is_reviewable : String → String → String → String → EffectRow → Bool
is_reviewable e o p r row =
    in_scope e o p r row && is_indeterminate row.state && is_none row.review_disposition

-- The record that is read back after the commit.
abbrev pub reviewed : Result EffectError (Option EffectRow) → Result EffectError EffectRow
reviewed (err e) = err e
reviewed (ok none) = err review_conflict
reviewed (ok (some row)) = ok row

abbrev pub review : ℕ → String → String → EffectRow → EffectRow
review now disposition reviewer row = record row {
  review_disposition = some disposition;
  reviewed_by = some reviewer;
  reviewed_at = some now;
}

abbrev pub read_reviewed : String → String → String → String → List EffectRow → Outcome EffectRow
read_reviewed e o p r rows = (reviewed (get e o p r rows), rows)

unfoldable pub review_indeterminate :
    ℕ → String → String → String → String → String → String → List EffectRow → Outcome EffectRow
review_indeterminate now e o p r disposition reviewer rows =
    if effect_id_ok e && disposition_ok disposition && reviewer_ok reviewer
    then (if matched (is_reviewable e o p r) rows == 1
        then read_reviewed e o p r
            (update (is_reviewable e o p r) (review now disposition reviewer) rows)
        else (err review_conflict, rows))
    else (err bad_value, rows)

-- The calls by others than an executor, and their effect on the table.
pub data Op : Type 0 where
  reserve_op : EffectBinding → Op
  commit_op : String → String → ℕ → Op
  fail_op mark_op : String → String → Op
  recover_op : ℕ → Op
  review_op : String → String → String → String → String → String → Op

unfoldable pub apply : ℕ → Op → List EffectRow → List EffectRow
apply now (reserve_op binding) rows = (reserve now binding rows).1
apply now (commit_op e hash size) rows = (commit now e hash size rows).1
apply now (fail_op e code) rows = (fail now e code rows).1
apply now (mark_op e code) rows = (mark_indeterminate now e code rows).1
apply now (recover_op cutoff) rows = (recover_stale_reservations now cutoff rows).1
apply now (review_op e o p r disposition reviewer) rows =
    (review_indeterminate now e o p r disposition reviewer rows).1
