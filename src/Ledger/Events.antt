-- ===== src/Ledger/Events.antt =====
-- `events` of backend/app/services/run_ledger.py: pages of a run's events, in the order of their
-- sequences. `json.loads` is a parameter.
use cogentrex.Prelude.{
  take, ℕ, Bool, true, false, not, ◌&&◌, ◌||◌, Option, none, some, List, [], ◌∷◌, String, filter,
  select, str_eq, ltb, leb, ◌==◌, if◌then◌else◌, Result, ok, err, ◌>>=◌,
}
use cogentrex.Ledger.Rows.{
  Json, object, Members, no_member, member, RuntimeEventRow, Db, LedgerError, bad_page,
  bad_event_schema, bad_event_payload, owned,
}
use cogentrex.Ledger.Payload.{safe_fields, allowed_in}
use cogentrex.Ledger.Runs.{schema_version}

-- Insertion sort by sequence: the ORDER BY of the page.
abbrev pub insert_event : RuntimeEventRow → List RuntimeEventRow → List RuntimeEventRow
insert_event event [] = event ∷ []
insert_event event (x ∷ xs) =
    let rest = insert_event event xs in
    if leb event.sequence x.sequence then event ∷ (x ∷ xs) else x ∷ rest

abbrev pub by_sequence : List RuntimeEventRow → List RuntimeEventRow
by_sequence [] = []
by_sequence (x ∷ xs) = insert_event x (by_sequence xs)

abbrev pub is_after : String → String → ℕ → RuntimeEventRow → Bool
is_after user_id run_id after_sequence row =
    str_eq row.run_id run_id && (str_eq row.user_id user_id && ltb after_sequence row.sequence)

-- The rows of a page.
abbrev pub page_rows : String → String → ℕ → ℕ → Db → List RuntimeEventRow
page_rows user_id run_id limit after_sequence db =
    take limit (by_sequence (filter (is_after user_id run_id after_sequence) db.events))

-- `_bounded_page`; a negative position, which it refuses, cannot be written.
abbrev pub page_is_bounded : ℕ → Bool
page_is_bounded limit = leb 1 limit && leb limit 200

pub record RunEventRecord : Type 0 where
  pub run_id : String
  pub project_id : String
  pub conversation_id : String
  pub correlation_id : String
  pub sequence : ℕ
  pub event_at : ℕ
  pub kind : String
  pub schema_version : ℕ
  pub iteration : ℕ
  pub payload : Members

abbrev pub mentions : List String → String → Bool
mentions [] key = false
mentions (x ∷ xs) key = str_eq x key || mentions xs key

abbrev pub keys_allowed : List String → Members → Bool
keys_allowed fields no_member = true
keys_allowed fields (member key value rest) = mentions fields key && keys_allowed fields rest

abbrev pub record_with : RuntimeEventRow → Members → RunEventRecord
record_with row payload = record {
  run_id = row.run_id;
  project_id = row.project_id;
  conversation_id = row.conversation_id;
  correlation_id = row.correlation_id;
  sequence = row.sequence;
  event_at = row.event_at;
  kind = row.kind;
  schema_version = row.schema_version;
  iteration = row.iteration;
  payload = payload;
}

abbrev pub checked_payload :
    List String → RuntimeEventRow → Option Json → Result LedgerError RunEventRecord
checked_payload fields row (some (object payload)) =
    if keys_allowed fields payload then ok (record_with row payload) else err bad_event_payload
checked_payload fields row _ = err bad_event_payload

abbrev pub prepend :
    Result LedgerError RunEventRecord
    → Result LedgerError (List RunEventRecord)
    → Result LedgerError (List RunEventRecord)
prepend first rest = first >>= λ item. rest >>= λ items. ok (item ∷ items)

module _ (loads : String → Option Json) where
  -- `_event_record`
  abbrev pub event_record : RuntimeEventRow → Result LedgerError RunEventRecord
  event_record row = elim (allowed_in row.kind safe_fields) [
    | none ↦ err bad_event_schema
    | some fields ↦
        if row.schema_version == schema_version
        then checked_payload fields row (loads row.payload)
        else err bad_event_schema
  ]

  abbrev pub event_records : List RuntimeEventRow → Result LedgerError (List RunEventRecord)
  event_records [] = ok []
  event_records (row ∷ rows) = prepend (event_record row) (event_records rows)

  abbrev pub page_of :
      Result LedgerError (List RunEventRecord) → Result LedgerError (Option (List RunEventRecord))
  page_of (err failure) = err failure
  page_of (ok items) = ok (some items)

  abbrev pub events :
      String → String → ℕ → ℕ → Db → Result LedgerError (Option (List RunEventRecord))
  events user_id run_id limit after_sequence db =
      if not (page_is_bounded limit)
      then err bad_page
      else elim (select (owned run_id user_id) db.runs) [
        | none ↦ ok none
        | some row ↦ page_of (event_records (page_rows user_id run_id limit after_sequence db))
      ]
