-- ===== src/Ledger/PreserveFork.antt =====
-- `fork` of backend/app/services/run_ledger.py keeps the numbering.
use cogentrex.Prelude.{
  ◌>>=◌, ℕ, ◌≡◌, refl, inl, inr, Option, none, some, select, Bool-cases, arith, Result, ok, err,
}
use cogentrex.Ledger.Rows.{
  no_source_sequence, no_source_conversation, no_completion, checkpoint_failed, ConversationRow,
  RunRow, Db, LedgerError, RunCheckpointRow,
}
use cogentrex.Ledger.Fork.{
  is_free, ForkArgs, ForkResult, fork_run, draft_fork, committed, fork_found, required, is_source,
  is_conversation, cutoff_of, insert_checkpoint, new_checkpoint, is_checkpoint,
}
use cogentrex.Ledger.Log.{Libraries}
use cogentrex.Ledger.Invariant.{Numbered, same-Numbered}

-- What a fork makes of the tables has their runs and events.
abbrev Keeps : Db → Result LedgerError (ForkResult × Db) → Type 0
Keeps db (err failure) = Unit
Keeps db (ok (result, left)) = (left.runs ≡ db.runs) × (left.events ≡ db.events)

>>=-Keeps :
    {A : Type 0} (db : Db) (first : Result LedgerError A)
    (next : A → Result LedgerError (ForkResult × Db))
    → ((a : A) → Keeps db (next a))
    → Keeps db (first >>= next)
>>=-Keeps db (err failure) next h = tt
>>=-Keeps db (ok a) next h = h a

draft_fork-Keeps :
    (now : ℕ) (args : ForkArgs) (source_run : RunRow) (source : ConversationRow)
    (checkpoint : RunCheckpointRow) (db : Db)
    → Keeps db (draft_fork now args source_run source checkpoint db)
draft_fork-Keeps now args source_run source checkpoint db = elim (Bool-cases (is_free args db)) [
  | inl free ↦ rw free (refl, refl)
  | inr taken ↦ rw taken tt
]

fork_run-Keeps :
    (libraries : Libraries) (now : ℕ) (args : ForkArgs) (source_run : RunRow) (db : Db)
    → Keeps db
        (fork_run libraries.redact_text libraries.uuid5 libraries.in_order now args source_run db)
fork_run-Keeps libraries now args source_run db =
    (>>=-Keeps db (required no_source_sequence (select (is_source args) db.events)) _ λ event.
      >>=-Keeps db
        (required no_source_conversation
          (select (is_conversation source_run.conversation_id args.user_id) db.conversations))
        _
        λ source. >>=-Keeps db (required no_completion (cutoff_of source_run event)) _ λ cutoff.
          >>=-Keeps db
            (insert_checkpoint args
              (new_checkpoint libraries.redact_text libraries.uuid5 libraries.in_order now args
                source_run cutoff db)
              db.checkpoints)
            _
            λ checkpoints.
              >>=-Keeps db (required checkpoint_failed (select (is_checkpoint args) checkpoints)) _
                λ checkpoint.
                  draft_fork-Keeps now args source_run source checkpoint
                    (record db { checkpoints = checkpoints }))

committed-Keeps :
    (libraries : Libraries) (result : Result LedgerError (ForkResult × Db)) (db : Db)
    → Keeps db result
    → let left = (committed libraries.redact_text libraries.uuid5 libraries.in_order result db).1 in
      (left.runs ≡ db.runs) × (left.events ≡ db.events)
committed-Keeps libraries (err failure) db keeps = (refl, refl)
committed-Keeps libraries (ok (result, left)) db keeps = keeps

-- A fork leaves the runs and the events.
pub fork_found-keeps :
    (libraries : Libraries) (now : ℕ) (args : ForkArgs) (o : Option RunRow) (db : Db)
    → let left =
        (fork_found libraries.redact_text libraries.uuid5 libraries.in_order now args o db).1 in
      (left.runs ≡ db.runs) × (left.events ≡ db.events)
fork_found-keeps libraries now args none db = (refl, refl)
fork_found-keeps libraries now args (some source_run) db =
    committed-Keeps libraries
      (fork_run libraries.redact_text libraries.uuid5 libraries.in_order now args source_run db) db
      (fork_run-Keeps libraries now args source_run db)

pub fork_found-Numbered :
    (libraries : Libraries) (now : ℕ) (args : ForkArgs) (o : Option RunRow) (db : Db)
    → Numbered db
    → Numbered (fork_found libraries.redact_text libraries.uuid5 libraries.in_order now args o db).1
fork_found-Numbered libraries now args o db h =
    let keeps = fork_found-keeps libraries now args o db in
    same-Numbered db
      (fork_found libraries.redact_text libraries.uuid5 libraries.in_order now args o db).1 h
      (λ id. rw keeps.0 (omega arith)) (λ id. rw keeps.0 refl) (λ id. rw keeps.1 refl)
