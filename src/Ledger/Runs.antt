-- ===== src/Ledger/Runs.antt =====
-- The rows of runs in backend/app/services/run_ledger.py: ensure_run, ensure_child_run, get and
-- finalize_metadata. The redactor's text function is a parameter.
use Prim.Native.String.{String as Text}
use cogentrex.Prelude.{
  ℕ, zero, suc, Bool, not, ◌&&◌, Option, none, some, [], ◌∷◌, ◌++◌, String, filter, select, update,
  matched, str_eq, ltb, ◌==◌, if◌then◌else◌, Result, ok, err,
}
use cogentrex.Ledger.Rows.{
  RunRow, running, Latency, given, ForkDraftRow, Db, LedgerError, no_parent, parent_owner_mismatch,
  child_identity_mismatch, run_not_found, multiple_rows, bad_run_schema, has_id, owned,
}

-- The arguments that name a run.
pub record RunKey : Type 0 where
  pub run_id : String
  pub user_id : String
  pub project_id : String
  pub conversation_id : String
  pub correlation_id : String
  pub provider : String
  pub model : String

abbrev pub schema_version : ℕ
schema_version = 1

-- A row with the columns' defaults.
abbrev pub new_run : ℕ → Option String → RunKey → RunRow
new_run now parent key = record {
  run_id = key.run_id;
  user_id = key.user_id;
  project_id = key.project_id;
  conversation_id = key.conversation_id;
  correlation_id = key.correlation_id;
  parent_run_id = parent;
  fork_source_sequence = none;
  provider = key.provider;
  model = key.model;
  schema_version = schema_version;
  status = running;
  started_at = now;
  completed_at = none;
  stop_reason = none;
  answer_summary = none;
  input_tokens = 0;
  output_tokens = 0;
  total_tokens = 0;
  cost_usd = none;
  latency_ms = none;
  iterations = 0;
  next_sequence = 1;
}

-- The draft that a new run of the key consumes.
abbrev pub draft_for : RunKey → ForkDraftRow → Bool
draft_for key row =
    str_eq row.user_id key.user_id
    && (str_eq row.project_id key.project_id
        && str_eq row.target_conversation_id key.conversation_id)

abbrev pub set_lineage : ForkDraftRow → RunRow → RunRow
set_lineage draft row = record row {
  parent_run_id = some draft.source_run_id;
  fork_source_sequence = some draft.source_sequence;
}

abbrev pub consume : RunKey → Option ForkDraftRow → Db → Db
consume key none db = db
consume key (some draft) db = record db {
  runs = update (owned key.run_id key.user_id) (set_lineage draft) db.runs;
  drafts = filter (λ row. not (draft_for key row)) db.drafts;
}

-- The transaction that inserted the row.
abbrev pub inserted : ℕ → RunKey → Db → Result LedgerError Unit × Db
inserted now key db =
    if ltb 1 (matched (draft_for key) db.drafts) then (err multiple_rows, db) else (
      ok tt,
      consume key (select (draft_for key) db.drafts)
          (record db { runs = db.runs ++ (new_run now none key ∷ []) }),
    )

abbrev pub unless_found :
    Option RunRow → Db → Result LedgerError Unit × Db → Result LedgerError Unit × Db
unless_found (some existing) db new = (ok tt, db)
unless_found none db new = new

abbrev pub ensure_run : ℕ → RunKey → Db → Result LedgerError Unit × Db
ensure_run now key db = unless_found (select (has_id key.run_id) db.runs) db (inserted now key db)

pub record ChildKey : Type 0 where
  pub run_id : String
  pub parent_run_id : String
  pub user_id : String
  pub project_id : String
  pub provider : String
  pub model : String
  pub conversation_id : Option String
  pub correlation_id : Option String

-- `given or default`: an absent or an empty text gives the default.
abbrev pub text_or : Option String → String → String
text_or none default = default
text_or (some value) default = if str_eq value "" then default else value

abbrev pub child_of : ChildKey → RunRow → RunKey
child_of key parent = record {
  run_id = key.run_id;
  user_id = key.user_id;
  project_id = key.project_id;
  conversation_id = text_or key.conversation_id parent.conversation_id;
  correlation_id = text_or key.correlation_id parent.correlation_id;
  provider = key.provider;
  model = key.model;
}

abbrev pub is_parent : String → Option String → Bool
is_parent run_id none = str_eq "None" run_id
is_parent run_id (some parent) = str_eq parent run_id

abbrev pub same_child : ChildKey → RunRow → Bool
same_child key row =
    str_eq row.user_id key.user_id
    && (str_eq row.project_id key.project_id && is_parent key.parent_run_id row.parent_run_id)

-- The child's row is there, or it is inserted.
abbrev pub child_row : ℕ → ChildKey → RunRow → Option RunRow → Db → Result LedgerError Unit × Db
child_row now key parent (some existing) db =
    (if same_child key existing then ok tt else err child_identity_mismatch, db)
child_row now key parent none db = (
  ok tt,
  record db { runs = db.runs ++ (new_run now (some key.parent_run_id) (child_of key parent) ∷ []) },
)

abbrev pub under_parent : ℕ → ChildKey → Option RunRow → Db → Result LedgerError Unit × Db
under_parent now key none db = (err no_parent, db)
under_parent now key (some parent) db =
    if str_eq parent.user_id key.user_id && str_eq parent.project_id key.project_id
    then child_row now key parent (select (has_id key.run_id) db.runs) db
    else (err parent_owner_mismatch, db)

abbrev pub ensure_child_run : ℕ → ChildKey → Db → Result LedgerError Unit × Db
ensure_child_run now key db = under_parent now key (select (has_id key.parent_run_id) db.runs) db

-- `_run_record` checks the version and copies the row.
abbrev pub run_record : RunRow → Result LedgerError RunRow
run_record row = if row.schema_version == schema_version then ok row else err bad_run_schema

abbrev pub record_of : Option RunRow → Result LedgerError (Option RunRow)
record_of none = ok none
record_of (some row) =
    if row.schema_version == schema_version then ok (some row) else err bad_run_schema

abbrev pub get : String → String → Db → Result LedgerError (Option RunRow)
get user_id run_id db = record_of (select (owned run_id user_id) db.runs)

-- `text[:n]`
abbrev pub clip : ℕ → String → String
clip zero s = ""
clip (suc n) Text.[] = ""
clip (suc n) (Text.◌∷◌ c s) = Text.◌∷◌ c (clip n s)

abbrev pub given_or : Option ℕ → Option ℕ → Option ℕ
given_or none old = old
given_or (some value) old = some value

abbrev pub latency_or : Option ℕ → Option Latency → Option Latency
latency_or none old = old
latency_or (some value) old = some (given value)

abbrev pub set_metadata : String → Option ℕ → Option ℕ → RunRow → RunRow
set_metadata summary cost latency row = record row {
  answer_summary = some summary;
  cost_usd = given_or cost row.cost_usd;
  latency_ms = latency_or latency row.latency_ms;
}

-- A negative cost or latency, which the code ignores, cannot be written.
abbrev pub finalize_metadata :
    (String → String)
    → String
    → String
    → String
    → Option ℕ
    → Option ℕ
    → Db
    → Result LedgerError Unit × Db
finalize_metadata redact_text user_id run_id answer cost latency db =
    let summary = clip 2000 (redact_text answer) in
    if matched (owned run_id user_id) db.runs == 1
    then (
      ok tt,
      record db {
        runs = update (owned run_id user_id) (set_metadata summary cost latency) db.runs;
      },
    )
    else (err run_not_found, db)
