-- ===== src/Ledger/Append.antt =====
-- `append` of backend/app/services/run_ledger.py. The redactor, `json.dumps` and `str` are parameters.
use cogentrex.Prelude.{
  ℕ, suc, ◌-◌, Bool, true, false, ◌&&◌, Option, none, some, [], ◌∷◌, ◌++◌, String, select, update,
  matched, str_eq, ◌==◌, if◌then◌else◌, Result, ok, err,
}
use cogentrex.Ledger.Rows.{
  Json, null, text, Members, RunStatus, completed, failed, cancelled, is_running, measured, RunRow,
  RuntimeEventRow, Db, LedgerError, not_serializable, owner_mismatch, not_running, integrity_error,
  owned, event_of,
}
use cogentrex.Ledger.Payload.{value_of, truth, safe_event_payload}
use cogentrex.Ledger.Runs.{RunKey, schema_version, clip, ensure_run}

pub record EventArgs : Type 0 where
  pub kind : String
  pub iteration : ℕ
  pub payload : Members
  pub input_tokens : ℕ
  pub output_tokens : ℕ
  pub total_tokens : ℕ

abbrev pub is_none : {A : Type 0} → Option A → Bool
is_none none = true
is_none (some a) = false

-- The run of the owner that still takes events.
abbrev pub is_live : String → String → RunRow → Bool
is_live run_id user_id row =
    owned run_id user_id row && (is_running row.status && is_none row.completed_at)

abbrev pub advance : RunRow → RunRow
advance row = record row { next_sequence = suc row.next_sequence }

abbrev pub new_event : ℕ → RunKey → EventArgs → String → ℕ → RuntimeEventRow
new_event now key args encoded sequence = record {
  run_id = key.run_id;
  user_id = key.user_id;
  project_id = key.project_id;
  conversation_id = key.conversation_id;
  correlation_id = key.correlation_id;
  sequence = sequence;
  event_at = now;
  kind = args.kind;
  schema_version = schema_version;
  iteration = args.iteration;
  payload = encoded;
}

-- The unique constraint of run and sequence.
abbrev pub is_taken : String → ℕ → RuntimeEventRow → Bool
is_taken run_id sequence row = event_of run_id row && row.sequence == sequence

-- `get(key)`, where a null is None.
abbrev pub present : String → Members → Option Json
present key payload = elim (value_of key payload) [ none ↦ none | some value ↦ not_null value ]
  where
    not_null : Json → Option Json
    not_null null = none
    not_null value = some value

abbrev pub is_cancelled : Option Json → Bool
is_cancelled (some (text reason)) = str_eq reason "cancelled"
is_cancelled _ = false

abbrev pub is_true : Option Json → Bool
is_true none = false
is_true (some value) = truth value

abbrev pub status_of : Option Json → Option Json → RunStatus
status_of reason error =
    if is_cancelled reason then cancelled else if is_true error then failed else completed

module _ (redact_value : Json → Json) (dumps : Members → Option String) (str : Json → String) where
  abbrev pub stop_reason_of : Option Json → Option String
  stop_reason_of none = none
  stop_reason_of (some reason) = some (clip 100 (str reason))

  abbrev pub finalize : ℕ → EventArgs → Members → RunRow → RunRow
  finalize now args safe_payload row = record row {
    status = status_of (present "reason" safe_payload) (present "error" safe_payload);
    completed_at = some now;
    stop_reason = stop_reason_of (present "reason" safe_payload);
    input_tokens = args.input_tokens;
    output_tokens = args.output_tokens;
    total_tokens = args.total_tokens;
    latency_ms = some (measured row.started_at now);
    iterations = args.iteration;
  }

  -- What RUN_STOPPED does besides, in the same transaction.
  abbrev pub stop_run : ℕ → RunKey → EventArgs → Members → ℕ → Db → Db → Result LedgerError ℕ × Db
  stop_run now key args safe_payload sequence before db =
      if matched (is_live key.run_id key.user_id) db.runs == 1
      then (
        ok sequence,
        record db {
          runs = update (is_live key.run_id key.user_id) (finalize now args safe_payload) db.runs;
        },
      )
      else (err not_running, before)

  -- The event of an allocated sequence; the table's unique constraint is checked by the insert.
  abbrev pub add_event :
      ℕ → RunKey → EventArgs → Members → String → ℕ → Db → Result LedgerError ℕ × Db
  add_event now key args safe_payload encoded sequence db =
      let added = record db {
        runs = update (is_live key.run_id key.user_id) advance db.runs;
        events = db.events ++ (new_event now key args encoded sequence ∷ []);
      } in
      if matched (is_taken key.run_id sequence) db.events == 0
      then (if str_eq args.kind "run_stopped"
          then stop_run now key args safe_payload sequence db added
          else (ok sequence, added))
      else (err integrity_error, db)

  -- The second transaction of `append`.
  abbrev pub write_event :
      ℕ → RunKey → EventArgs → Members → String → Option RunRow → Db → Result LedgerError ℕ × Db
  write_event now key args safe_payload encoded (some row) db =
      add_event now key args safe_payload encoded (suc row.next_sequence - 1) db
  write_event now key args safe_payload encoded none db = (
    if is_none (select (owned key.run_id key.user_id) db.runs)
        then err owner_mismatch
        else err not_running,
    db,
  )

  abbrev pub encode_event :
      ℕ → RunKey → EventArgs → Members → Option String → Db → Result LedgerError ℕ × Db
  encode_event now key args safe_payload none db = (err not_serializable, db)
  encode_event now key args safe_payload (some encoded) db =
      write_event now key args safe_payload encoded
        (select (is_live key.run_id key.user_id) db.runs) db

  abbrev pub check_payload :
      ℕ → RunKey → EventArgs → Result LedgerError Members → Db → Result LedgerError ℕ × Db
  check_payload now key args (err failure) db = (err failure, db)
  check_payload now key args (ok safe_payload) db =
      encode_event now key args safe_payload (dumps safe_payload) db

  abbrev pub after_ensured :
      ℕ → RunKey → EventArgs → Result LedgerError Unit × Db → Result LedgerError ℕ × Db
  after_ensured now key args (err failure, db) = (err failure, db)
  after_ensured now key args (ok done, db) =
      check_payload now key args (safe_event_payload redact_value args.kind args.payload) db

  -- `append`: the run is ensured and committed before the payload is looked at.
  abbrev pub append : ℕ → ℕ → RunKey → EventArgs → Db → Result LedgerError ℕ × Db
  append now later key args db = after_ensured later key args (ensure_run now key db)
