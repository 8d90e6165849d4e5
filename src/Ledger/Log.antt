-- ===== src/Ledger/Log.antt =====
-- Sequences of the calls that change the tables of backend/app/services/run_ledger.py.
use cogentrex.Prelude.{ℕ, Bool, true, false, Option, List, [], ◌∷◌, String}
use cogentrex.Ledger.Rows.{Json, Members, RunRow, MessageRow, Db}
use cogentrex.Ledger.Runs.{RunKey, ChildKey, ensure_run, ensure_child_run, finalize_metadata}
use cogentrex.Ledger.Append.{EventArgs, append}
use cogentrex.Ledger.Fork.{ForkArgs, fork}
use cogentrex.Ledger.Prune.{prune_completed, prune_terminal_to_event_budget}

-- The libraries that the repository is given.
pub record Libraries : Type 0 where
  pub redact_value : Json → Json
  pub redact_text : String → String
  pub dumps : Members → Option String
  pub str : Json → String
  pub uuid5 : String → String → ℕ → String
  pub in_order : List MessageRow → List MessageRow
  pub oldest_first : List RunRow → List RunRow
  -- Whether RESTRICT is checked row by row.
  pub immediate : Bool

pub data Call : Type 0 where
  ensuring : ℕ → RunKey → Call
  ensuring_child : ℕ → ChildKey → Call
  appending : ℕ → ℕ → RunKey → EventArgs → Call
  finalizing : String → String → String → Option ℕ → Option ℕ → Call
  forking : ℕ → ForkArgs → Call
  pruning : String → ℕ → Call
  retaining : ℕ → Call

abbrev pub prunes : Call → Bool
prunes (pruning user_id completed_before) = true
prunes (retaining max_events) = true
prunes _ = false

module _ (libraries : Libraries) where
  abbrev pub step : Call → Db → Db
  step (ensuring now key) db = (ensure_run now key db).1
  step (ensuring_child now key) db = (ensure_child_run now key db).1
  step (appending now later key args) db =
      (append libraries.redact_value libraries.dumps libraries.str now later key args db).1
  step (finalizing user_id run_id answer cost latency) db =
      (finalize_metadata libraries.redact_text user_id run_id answer cost latency db).1
  step (forking now args) db =
      (fork libraries.redact_text libraries.uuid5 libraries.in_order now args db).1
  step (pruning user_id completed_before) db =
      (prune_completed libraries.immediate user_id completed_before db).1
  step (retaining max_events) db =
      (prune_terminal_to_event_budget libraries.immediate libraries.oldest_first max_events db).1

  abbrev pub run : List Call → Db → Db
  run [] db = db
  run (call ∷ calls) db = run calls (step call db)
