-- ===== src/Ledger/Fork.antt =====
-- `fork` of backend/app/services/run_ledger.py. The redactor, the UUIDs and the order of the messages
-- are parameters.
use Prim.Native.String.{◌++◌ as concat}
use cogentrex.Prelude.{
  ℕ, Bool, ◌&&◌, Option, none, some, List, [], ◌∷◌, ◌++◌, String, filter, map, select, str_eq, leb,
  ◌==◌, if◌then◌else◌, Result, ok, err, ◌>>=◌,
}
use cogentrex.Ledger.Rows.{
  RunRow, RuntimeEventRow, ConversationRow, MessageRow, SnapshotItem, RunCheckpointRow,
  ForkDraftRow, Db, LedgerError, no_source_sequence, no_source_conversation, no_completion,
  checkpoint_failed, integrity_error, owned,
}
use cogentrex.Ledger.Runs.{clip}
use cogentrex.Ledger.Append.{is_none}

pub record ForkArgs : Type 0 where
  pub user_id : String
  pub run_id : String
  pub source_sequence : ℕ
  pub policy_profile : String
  pub selected_memory_ids : List String
  -- The fresh UUIDs of the conversation and of the draft.
  pub target_id : String
  pub draft_id : String

pub record ForkResult : Type 0 where
  pub checkpoint_id : String
  pub source_run_id : String
  pub source_sequence : ℕ
  pub target_conversation_id : String
  pub workspace_restoration : String
  pub policy_profile : String
  pub selected_memory_ids : List String
  pub created_at : ℕ

abbrev pub is_source : ForkArgs → RuntimeEventRow → Bool
is_source args row =
    str_eq row.run_id args.run_id
    && (str_eq row.user_id args.user_id && row.sequence == args.source_sequence)

abbrev pub is_conversation : String → String → ConversationRow → Bool
is_conversation id user_id row = str_eq row.id id && str_eq row.user_id user_id

abbrev pub required : {A : Type 0} → LedgerError → Option A → Result LedgerError A
required failure none = err failure
required failure (some a) = ok a

abbrev pub cutoff_of : RunRow → RuntimeEventRow → Option ℕ
cutoff_of run event =
    if str_eq event.kind "run_stopped" then run.completed_at else some event.event_at

abbrev pub is_checkpoint : ForkArgs → RunCheckpointRow → Bool
is_checkpoint args row =
    str_eq row.user_id args.user_id
    && (str_eq row.source_run_id args.run_id && row.source_sequence == args.source_sequence)

-- ON CONFLICT DO NOTHING on the source of the checkpoint; another conflict fails.
abbrev pub insert_checkpoint :
    ForkArgs → RunCheckpointRow → List RunCheckpointRow → Result LedgerError (List RunCheckpointRow)
insert_checkpoint args new rows = elim (select (is_checkpoint args) rows) [
  | some existing ↦ ok rows
  | none ↦
      if is_none (select (λ row. str_eq row.checkpoint_id new.checkpoint_id) rows)
      then ok (rows ++ (new ∷ []))
      else err integrity_error
]

abbrev pub copied : String → ℕ → SnapshotItem → MessageRow
copied target_id now item = record {
  conversation_id = target_id;
  role = item.role;
  content = item.content;
  created_at = now;
}

abbrev pub new_conversation : ℕ → ForkArgs → ConversationRow → ConversationRow
new_conversation now args source = record {
  id = args.target_id;
  title = clip 200 (concat "Fork: " source.title);
  user_id = args.user_id;
  created_at = now;
  updated_at = now;
  is_active = 1;
}

abbrev pub new_draft : ℕ → ForkArgs → RunRow → RunCheckpointRow → ForkDraftRow
new_draft now args run checkpoint = record {
  id = args.draft_id;
  checkpoint_id = checkpoint.checkpoint_id;
  user_id = args.user_id;
  project_id = run.project_id;
  source_run_id = args.run_id;
  source_sequence = args.source_sequence;
  target_conversation_id = args.target_id;
  created_at = now;
}

-- The keys of the new conversation and of the new draft are free.
abbrev pub is_free : ForkArgs → Db → Bool
is_free args db =
    is_none (select (λ row. str_eq row.id args.target_id) db.conversations)
    && (is_none (select (λ row. str_eq row.id args.draft_id) db.drafts)
        && is_none (select (λ row. str_eq row.target_conversation_id args.target_id) db.drafts))

abbrev pub result_of : ForkArgs → RunCheckpointRow → ForkResult
result_of args checkpoint = record {
  checkpoint_id = checkpoint.checkpoint_id;
  source_run_id = args.run_id;
  source_sequence = args.source_sequence;
  target_conversation_id = args.target_id;
  workspace_restoration = "none";
  policy_profile = checkpoint.policy_profile;
  selected_memory_ids = checkpoint.selected_memory_ids;
  created_at = checkpoint.created_at;
}

-- The new conversation, its messages and the draft.
abbrev pub draft_fork :
    ℕ
    → ForkArgs
    → RunRow
    → ConversationRow
    → RunCheckpointRow
    → Db
    → Result LedgerError (ForkResult × Db)
draft_fork now args run source checkpoint db =
    if is_free args db
    then ok (
      result_of args checkpoint,
      record db {
        conversations = db.conversations ++ (new_conversation now args source ∷ []);
        messages = db.messages ++ map (copied args.target_id now) checkpoint.conversation_snapshot;
        drafts = db.drafts ++ (new_draft now args run checkpoint ∷ []);
      },
    )
    else err integrity_error

module _ (redact_text : String → String) (uuid5 : String → String → ℕ → String)
    (in_order : List MessageRow → List MessageRow) where
  abbrev pub snapshot_item : MessageRow → SnapshotItem
  snapshot_item row = record { role = row.role; content = clip 10000 (redact_text row.content) }

  -- The messages of the source up to the cutoff.
  abbrev pub snapshot : String → ℕ → List MessageRow → List SnapshotItem
  snapshot conversation_id cutoff messages = map snapshot_item (
      in_order (
        filter (λ row. str_eq row.conversation_id conversation_id && leb row.created_at cutoff)
          messages))

  abbrev pub new_checkpoint : ℕ → ForkArgs → RunRow → ℕ → Db → RunCheckpointRow
  new_checkpoint now args run cutoff db = record {
    checkpoint_id = uuid5 args.user_id args.run_id args.source_sequence;
    user_id = args.user_id;
    project_id = run.project_id;
    source_run_id = args.run_id;
    source_sequence = args.source_sequence;
    conversation_snapshot = snapshot run.conversation_id cutoff db.messages;
    policy_profile = clip 100 args.policy_profile;
    selected_memory_ids = args.selected_memory_ids;
    workspace_restoration = "none";
    created_at = now;
  }

  abbrev pub fork_run : ℕ → ForkArgs → RunRow → Db → Result LedgerError (ForkResult × Db)
  fork_run now args run db =
      required no_source_sequence (select (is_source args) db.events) >>= λ event.
      required no_source_conversation
        (select (is_conversation run.conversation_id args.user_id) db.conversations)
      >>= λ source. required no_completion (cutoff_of run event) >>= λ cutoff.
          insert_checkpoint args (new_checkpoint now args run cutoff db) db.checkpoints
          >>= λ checkpoints.
              required checkpoint_failed (select (is_checkpoint args) checkpoints) >>= λ checkpoint.
              draft_fork now args run source checkpoint (record db { checkpoints = checkpoints })

  -- A failure leaves the tables as they were.
  abbrev pub committed :
      Result LedgerError (ForkResult × Db) → Db → Result LedgerError (Option ForkResult) × Db
  committed (err failure) db = (err failure, db)
  committed (ok (result, left)) db = (ok (some result), left)

  abbrev pub fork_found :
      ℕ → ForkArgs → Option RunRow → Db → Result LedgerError (Option ForkResult) × Db
  fork_found now args none db = (ok none, db)
  fork_found now args (some run) db = committed (fork_run now args run db) db

  abbrev pub fork : ℕ → ForkArgs → Db → Result LedgerError (Option ForkResult) × Db
  fork now args db = fork_found now args (select (owned args.run_id args.user_id) db.runs) db
