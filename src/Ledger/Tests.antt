-- ===== src/Ledger/Tests.antt =====
-- A run, its events, its export and its retention, and the theorems at these inputs.
use cogentrex.Prelude.{
  take, ◌≤◌, ◌≡◌, ◌⊎◌, refl, false, Option, none, some, List, [], ◌∷◌, String, filter, map, length,
  matched, select, ltb, arith, ok, err,
}
use cogentrex.Ledger.Rows.{
  Json, object, text, no_member, member, completed, RunRow, Db, not_running, has_id,
}
use cogentrex.Ledger.Runs.{RunKey, new_run}
use cogentrex.Ledger.Append.{EventArgs, append}
use cogentrex.Ledger.Prune.{is_terminal}
use cogentrex.Ledger.Events.{is_after}
use cogentrex.Ledger.Exports.{exported, max_events, all_events}
use cogentrex.Ledger.Log.{Libraries, Call, ensuring, appending, finalizing, retaining, run}
use cogentrex.Ledger.Invariant.{Numbered}
use cogentrex.Ledger.Preserve.{run-Numbered}
use cogentrex.Ledger.Outcome.{run-ended}
use cogentrex.Ledger.Final.{Kept}
use cogentrex.Ledger.Turns.{rec}
use cogentrex.Ledger.Reading.{all_events-reads}
use cogentrex.Ledger.Retention.{prune_terminal_to_event_budget-room}

abbrev loads : String → Option Json
loads s = some (object no_member)

abbrev libraries : Libraries
libraries = record {
  redact_value = λ value. value;
  redact_text = λ s. s;
  dumps = λ members. some "{}";
  str = λ value. "done";
  uuid5 = λ user_id run_id sequence. "checkpoint";
  in_order = λ messages. messages;
  oldest_first = λ runs. runs;
  immediate = false;
}

abbrev fresh : Db
fresh = record {
  runs = [];
  events = [];
  conversations = [];
  messages = [];
  checkpoints = [];
  drafts = [];
}

fresh-Numbered : Numbered fresh
fresh-Numbered = record { unique = λ id. omega arith; started = λ id. tt; numbered = λ id. refl }

abbrev key : String → RunKey
key id = record {
  run_id = id;
  user_id = "ann";
  project_id = "p";
  conversation_id = "c";
  correlation_id = "x";
  provider = "openai";
  model = "m";
}

abbrev happening : String → EventArgs
happening kind = record {
  kind = kind;
  iteration = 1;
  payload = member "reason" (text "done") no_member;
  input_tokens = 3;
  output_tokens = 4;
  total_tokens = 7;
}

-- Two runs, interleaved; the first ends.
abbrev calls : List Call
calls =
    appending 1 1 (key "r1") (happening "run_started")
    ∷ appending 2 2 (key "r2") (happening "run_started")
    ∷ appending 3 3 (key "r1") (happening "run_stopped")
    ∷ appending 4 4 (key "r1") (happening "run_started")
    ∷ []

abbrev db : Db
db = run libraries calls fresh

sequences_of_db : map (λ row. row.sequence) db.events ≡ 1 ∷ 1 ∷ 2 ∷ []
sequences_of_db = refl

late_event :
    (append libraries.redact_value libraries.dumps libraries.str 5 5
      (key "r1")
      (happening "run_started")
      db).0
    ≡ err not_running
late_event = refl

db-Numbered : Numbered db
db-Numbered = run-Numbered libraries calls fresh fresh-Numbered

run-Numbered_example : Numbered (run libraries calls fresh)
run-Numbered_example = run-Numbered libraries calls fresh fresh-Numbered

all_events-reads_example :
    all_events loads "ann" "r1" (λ i. db)
    ≡ some (
        ok (
          some (
            map exported (
                map
                  (rec (λ row. no_member))
                  (take max_events (filter (is_after "ann" "r1" 0) db.events))),
            ltb max_events (length (filter (is_after "ann" "r1" 0) db.events)),
          )))
all_events-reads_example =
    all_events-reads loads (λ row. no_member) "ann" "r1" db db-Numbered refl (refl, (refl, tt))

prune_terminal_to_event_budget-room_example :
    (length (run libraries (retaining 1 ∷ []) db).events ≤ 1)
    ⊎ (matched is_terminal (run libraries (retaining 1 ∷ []) db).runs ≡ 0)
prune_terminal_to_event_budget-room_example =
    prune_terminal_to_event_budget-room false (λ runs. runs) 1 db (λ m rows. refl) db-Numbered refl

abbrev or_new : Option RunRow → RunRow
or_new none = new_run 0 none (key "r1")
or_new (some row) = row

abbrev ended_row : RunRow
ended_row = or_new (select (has_id "r1") db.runs)

ended_row_status : ended_row.status ≡ completed
ended_row_status = refl

abbrev later_calls : List Call
later_calls =
    appending 6 6 (key "r1") (happening "run_stopped")
    ∷ ensuring 7 (key "r1")
    ∷ finalizing "ann" "r1" "answer" none (some 5)
    ∷ []

run-ended_example : Kept "r1" ended_row db (run libraries later_calls db)
run-ended_example =
    run-ended libraries "r1" ended_row later_calls db db-Numbered (refl, (refl, (refl, tt))) refl
      refl
