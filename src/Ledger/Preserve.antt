-- ===== src/Ledger/Preserve.antt =====
-- Every call of backend/app/services/run_ledger.py keeps the runs and their events in step.
use cogentrex.Prelude.{some, List, [], ◌∷◌, select}
use cogentrex.Ledger.Rows.{Db, has_id, owned}
use cogentrex.Ledger.Log.{
  Libraries, Call, ensuring, ensuring_child, appending, finalizing, forking, pruning, retaining,
  step, run,
}
use cogentrex.Ledger.Invariant.{Numbered}
use cogentrex.Ledger.PreserveRuns.{
  ensure_run-Numbered, under_parent-Numbered, finalize_metadata-Numbered,
  delete_terminal_runs-Numbered, retained-Numbered,
}
use cogentrex.Ledger.PreserveAppend.{append-Numbered}
use cogentrex.Ledger.PreserveFork.{fork_found-Numbered}

pub step-Numbered :
    (libraries : Libraries) (call : Call) (db : Db)
    → Numbered db
    → Numbered (step libraries call db)
step-Numbered libraries (ensuring now key) db h = ensure_run-Numbered now key db h
step-Numbered libraries (ensuring_child now key) db h =
    under_parent-Numbered now key (select (has_id key.parent_run_id) db.runs) db h
step-Numbered libraries (appending now later key args) db h =
    append-Numbered libraries now later key args db h
step-Numbered libraries (finalizing user_id run_id answer cost latency) db h =
    finalize_metadata-Numbered libraries.redact_text user_id run_id answer cost latency db h
step-Numbered libraries (forking now args) db h =
    fork_found-Numbered libraries now args (select (owned args.run_id args.user_id) db.runs) db h
step-Numbered libraries (pruning user_id completed_before) db h =
    delete_terminal_runs-Numbered libraries.immediate _ (some user_id) db h
step-Numbered libraries (retaining max_events) db h =
    retained-Numbered libraries.immediate libraries.oldest_first max_events db h

-- From tables in which the events of each run are numbered from 1 without gaps, every sequence of
-- calls, however it interleaves runs, leads to such tables.
pub run-Numbered :
    (libraries : Libraries) (calls : List Call) (db : Db)
    → Numbered db
    → Numbered (run libraries calls db)
run-Numbered libraries [] db h = h
run-Numbered libraries (call ∷ calls) db h =
    run-Numbered libraries calls (step libraries call db) (step-Numbered libraries call db h)
