-- ===== src/Ledger/Outcome.antt =====
-- A run that has ended, through the calls of backend/app/services/run_ledger.py.
use cogentrex.Prelude.{
  ℕ, ◌≡◌, refl, ◌∙◌, ap, inl, inr, true, false, ◌&&◌, Option, none, some, List, [], ◌∷◌, String,
  filter, select, matched, All, str_eq, ◌==◌, Bool-cases,
}
use cogentrex.Ledger.Rows.{RunRow, Db, has_id, owned, event_of}
use cogentrex.Ledger.Runs.{
  RunKey, ChildKey, new_run, ensure_run, child_of, child_row, under_parent, set_metadata,
  finalize_metadata, clip,
}
use cogentrex.Ledger.Append.{EventArgs, append}
use cogentrex.Ledger.Prune.{is_terminal}
use cogentrex.Ledger.Log.{
  Libraries, Call, ensuring, ensuring_child, appending, finalizing, forking, pruning, retaining,
  prunes, step, run,
}
use cogentrex.Ledger.Invariant.{Numbered}
use cogentrex.Ledger.PreserveRuns.{ensure_run-Numbered}
use cogentrex.Ledger.PreserveFork.{fork_found-keeps}
use cogentrex.Ledger.Preserve.{step-Numbered}
use cogentrex.Ledger.Final.{
  Same-refl, Kept, Kept-refl, Kept-update, Kept-trans, Same-terminal, select-insert,
  ensure_run-Kept,
}
use cogentrex.Ledger.Ended.{after_ensured-Kept}

append-Kept :
    (libraries : Libraries) (run_id : String) (row : RunRow) (now later : ℕ) (key : RunKey)
    (args : EventArgs) (db : Db)
    → Numbered db
    → is_terminal row ≡ true
    → select (has_id run_id) db.runs ≡ some row
    → Kept run_id row db
        (append libraries.redact_value libraries.dumps libraries.str now later key args db).1
append-Kept libraries run_id row now later key args db h ended e =
    let ensured = ensure_run-Kept now key run_id row db e in
    let middle = ensured.0.0 in
    Kept-trans run_id row db (ensure_run now key db).1
      (append libraries.redact_value libraries.dumps libraries.str now later key args db).1 ensured
      (after_ensured-Kept libraries run_id middle later key args (ensure_run now key db).0
        (ensure_run now key db).1 (ensure_run-Numbered now key db h)
        (Same-terminal row middle ensured.0.2 ended) ensured.0.1)

child_row-Kept :
    (run_id : String) (row : RunRow) (now : ℕ) (key : ChildKey) (parent : RunRow)
    (o : Option RunRow) (db : Db)
    → select (has_id run_id) db.runs ≡ some row
    → Kept run_id row db (child_row now key parent o db).1
child_row-Kept run_id row now key parent (some existing) db e = Kept-refl run_id row db e
child_row-Kept run_id row now key parent none db e = (
  (
    row,
    select-insert run_id row (new_run now (some key.parent_run_id) (child_of key parent)) db.runs e,
    Same-refl row,
  ),
  refl,
)

under_parent-Kept :
    (run_id : String) (row : RunRow) (now : ℕ) (key : ChildKey) (o : Option RunRow) (db : Db)
    → select (has_id run_id) db.runs ≡ some row
    → Kept run_id row db (under_parent now key o db).1
under_parent-Kept run_id row now key none db e = Kept-refl run_id row db e
under_parent-Kept run_id row now key (some parent) db e =
    elim (Bool-cases
      (str_eq parent.user_id key.user_id && str_eq parent.project_id key.project_id)) [
        | inl same ↦
            rw same
              (child_row-Kept run_id row now key parent (select (has_id key.run_id) db.runs) db e)
        | inr apart ↦ rw apart (Kept-refl run_id row db e)
      ]

finalize_metadata-Kept :
    (redact_text : String → String) (run_id : String) (row : RunRow) (user_id id answer : String)
    (cost latency : Option ℕ) (db : Db)
    → select (has_id run_id) db.runs ≡ some row
    → Kept run_id row db (finalize_metadata redact_text user_id id answer cost latency db).1
finalize_metadata-Kept redact_text run_id row user_id id answer cost latency db e =
    elim (Bool-cases (matched (owned id user_id) db.runs == 1)) [
      | inl found ↦ rw found (
          Kept-update run_id row (owned id user_id)
            (set_metadata (clip 2000 (redact_text answer)) cost latency) db (λ x. refl)
            (Same-refl row) e)
      | inr missing ↦ rw missing (Kept-refl run_id row db e)
    ]

step-Kept :
    (libraries : Libraries) (run_id : String) (row : RunRow) (call : Call) (db : Db)
    → Numbered db
    → prunes call ≡ false
    → is_terminal row ≡ true
    → select (has_id run_id) db.runs ≡ some row
    → Kept run_id row db (step libraries call db)
step-Kept libraries run_id row (ensuring now key) db h stays ended e =
    ensure_run-Kept now key run_id row db e
step-Kept libraries run_id row (ensuring_child now key) db h stays ended e =
    under_parent-Kept run_id row now key (select (has_id key.parent_run_id) db.runs) db e
step-Kept libraries run_id row (appending now later key args) db h stays ended e =
    append-Kept libraries run_id row now later key args db h ended e
step-Kept libraries run_id row (finalizing user_id id answer cost latency) db h stays ended e =
    finalize_metadata-Kept libraries.redact_text run_id row user_id id answer cost latency db e
step-Kept libraries run_id row (forking now args) db h stays ended e =
    let keeps =
      fork_found-keeps libraries now args (select (owned args.run_id args.user_id) db.runs) db in
    (
      (row, ap (select (has_id run_id)) keeps.0 ∙ e, Same-refl row),
      ap (filter (event_of run_id)) keeps.1,
    )
step-Kept libraries run_id row (pruning user_id completed_before) db h stays ended e = absurd (cc)
step-Kept libraries run_id row (retaining max_events) db h stays ended e = absurd (cc)

-- From numbered tables, through every sequence of calls that do not prune, a run that has ended keeps
-- its status, its completion, its stop reason, its counters and its events.
pub run-ended :
    (libraries : Libraries) (run_id : String) (row : RunRow) (calls : List Call) (db : Db)
    → Numbered db
    → All (λ call. prunes call ≡ false) calls
    → is_terminal row ≡ true
    → select (has_id run_id) db.runs ≡ some row
    → Kept run_id row db (run libraries calls db)
run-ended libraries run_id row [] db h stay ended e = Kept-refl run_id row db e
run-ended libraries run_id row (call ∷ calls) db h stay ended e =
    let kept = step-Kept libraries run_id row call db h stay.0 ended e in
    Kept-trans run_id row db (step libraries call db) (run libraries calls (step libraries call db))
      kept
      (run-ended libraries run_id kept.0.0 calls (step libraries call db)
        (step-Numbered libraries call db h) stay.1 (Same-terminal row kept.0.0 kept.0.2 ended)
        kept.0.1)
