-- ===== src/Ledger/Rows.antt =====
-- The tables of the run ledger: backend/app/services/db_store.py, and the errors of
-- backend/app/services/run_ledger.py. Texts in columns have no bound here.
use cogentrex.Prelude.{ℕ, Bool, true, false, ◌&&◌, Option, List, String, str_eq}

-- What a payload holds.
mutual
  pub data Json : Type 0 where
    null : Json
    boolean : Bool → Json
    number : ℕ → Json
    text : String → Json
    array : Elements → Json
    object : Members → Json

  pub data Elements : Type 0 where
    no_element : Elements
    element : Json → Elements → Elements

  pub data Members : Type 0 where
    no_member : Members
    member : String → Json → Members → Members

pub data RunStatus : Type 0 where
  running completed failed cancelled : RunStatus

abbrev pub is_running : RunStatus → Bool
is_running running = true
is_running _ = false

-- A duration, by its ends or as it was given.
pub data Latency : Type 0 where
  measured : ℕ → ℕ → Latency
  given : ℕ → Latency

pub record RunRow : Type 0 where
  pub run_id : String
  pub user_id : String
  pub project_id : String
  pub conversation_id : String
  pub correlation_id : String
  pub parent_run_id : Option String
  pub fork_source_sequence : Option ℕ
  pub provider : String
  pub model : String
  pub schema_version : ℕ
  pub status : RunStatus
  pub started_at : ℕ
  pub completed_at : Option ℕ
  pub stop_reason : Option String
  pub answer_summary : Option String
  pub input_tokens : ℕ
  pub output_tokens : ℕ
  pub total_tokens : ℕ
  pub cost_usd : Option ℕ
  pub latency_ms : Option Latency
  pub iterations : ℕ
  pub next_sequence : ℕ

-- The payload is the text of its JSON.
pub record RuntimeEventRow : Type 0 where
  pub run_id : String
  pub user_id : String
  pub project_id : String
  pub conversation_id : String
  pub correlation_id : String
  pub sequence : ℕ
  pub event_at : ℕ
  pub kind : String
  pub schema_version : ℕ
  pub iteration : ℕ
  pub payload : String

pub record ConversationRow : Type 0 where
  pub id : String
  pub title : String
  pub user_id : String
  pub created_at : ℕ
  pub updated_at : ℕ
  pub is_active : ℕ

pub record MessageRow : Type 0 where
  pub conversation_id : String
  pub role : String
  pub content : String
  pub created_at : ℕ

-- One message of a snapshot.
pub record SnapshotItem : Type 0 where
  pub role : String
  pub content : String

-- The snapshot and the memory ids stand for the texts of their JSON.
pub record RunCheckpointRow : Type 0 where
  pub checkpoint_id : String
  pub user_id : String
  pub project_id : String
  pub source_run_id : String
  pub source_sequence : ℕ
  pub conversation_snapshot : List SnapshotItem
  pub policy_profile : String
  pub selected_memory_ids : List String
  pub workspace_restoration : String
  pub created_at : ℕ

pub record ForkDraftRow : Type 0 where
  pub id : String
  pub checkpoint_id : String
  pub user_id : String
  pub project_id : String
  pub source_run_id : String
  pub source_sequence : ℕ
  pub target_conversation_id : String
  pub created_at : ℕ

pub record Db : Type 0 where
  pub runs : List RunRow
  pub events : List RuntimeEventRow
  pub conversations : List ConversationRow
  pub messages : List MessageRow
  pub checkpoints : List RunCheckpointRow
  pub drafts : List ForkDraftRow

-- The errors of the repository, and those of the database and of the JSON library.
pub data LedgerError : Type 0 where
  bad_page unsupported_kind payload_not_object not_serializable : LedgerError
  no_parent parent_owner_mismatch child_identity_mismatch : LedgerError
  owner_mismatch not_running run_not_found : LedgerError
  no_source_sequence no_source_conversation no_completion checkpoint_failed : LedgerError
  negative_budget bad_run_schema bad_event_schema bad_event_payload : LedgerError
  integrity_error multiple_rows : LedgerError

-- The primary key of runs, and the condition of an owner's statements.
abbrev pub has_id : String → RunRow → Bool
has_id run_id row = str_eq row.run_id run_id

abbrev pub owned : String → String → RunRow → Bool
owned run_id user_id row = str_eq row.run_id run_id && str_eq row.user_id user_id

abbrev pub event_of : String → RuntimeEventRow → Bool
event_of run_id row = str_eq row.run_id run_id
