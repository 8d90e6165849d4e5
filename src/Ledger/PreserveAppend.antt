-- ===== src/Ledger/PreserveAppend.antt =====
-- `append` of backend/app/services/run_ledger.py keeps the numbering.
use cogentrex.Prelude.{
  ℕ, suc, ◌-◌, ◌≡◌, refl, inl, inr, ◌&&◌, Option, none, some, String, select, matched, str_eq, ◌==◌,
  Bool-cases, Option-cases, Result, ok, err, &&-elim,
}
use cogentrex.Ledger.Rows.{is_running, RunRow, Db, LedgerError, Members, owned}
use cogentrex.Ledger.Runs.{RunKey, ensure_run}
use cogentrex.Ledger.Append.{
  is_none, is_taken, EventArgs, is_live, new_event, add_event, stop_run, finalize, write_event,
  check_payload, after_ensured, append,
}
use cogentrex.Ledger.Payload.{safe_event_payload}
use cogentrex.Ledger.Log.{Libraries}
use cogentrex.Ledger.Allocation.{event-Numbered}
use cogentrex.Ledger.Invariant.{Numbered, update-Numbered}
use cogentrex.Ledger.PreserveRuns.{ensure_run-Numbered}

module _ (libraries : Libraries) where
  stop_run-Numbered :
      (now : ℕ) (key : RunKey) (args : EventArgs) (payload : Members) (sequence : ℕ)
      (before db : Db)
      → Numbered before
      → Numbered db
      → Numbered
          (stop_run libraries.redact_value libraries.dumps libraries.str now key args payload
            sequence before db).1
  stop_run-Numbered now key args payload sequence before db hb h =
      elim (Bool-cases (matched (is_live key.run_id key.user_id) db.runs == 1)) [
        | inl found ↦ rw found (
            update-Numbered (is_live key.run_id key.user_id)
              (finalize libraries.redact_value libraries.dumps libraries.str now args payload) db
              (λ row. refl) (λ row. refl) h)
        | inr missing ↦ rw missing hb
      ]

  add_event-Numbered :
      (now : ℕ) (key : RunKey) (args : EventArgs) (payload : Members) (encoded : String) (db : Db)
      {row : RunRow}
      → select (is_live key.run_id key.user_id) db.runs ≡ some row
      → Numbered db
      → Numbered
          (add_event libraries.redact_value libraries.dumps libraries.str now key args payload
            encoded
            (suc row.next_sequence - 1)
            db).1
  add_event-Numbered now key args payload encoded db {row} e h =
      let sequence = suc row.next_sequence - 1 in
      let added =
        event-Numbered key.run_id (is_live key.run_id key.user_id)
          (new_event now key args encoded sequence) db
          (λ x hit.
            (&&-elim (str_eq x.run_id key.run_id) (str_eq x.user_id key.user_id)
              (&&-elim (owned key.run_id key.user_id x)
                (is_running x.status && is_none x.completed_at) hit).0).0)
          e refl refl h in
      elim (Bool-cases (matched (is_taken key.run_id sequence) db.events == 0)) [
        | inl free ↦ elim (Bool-cases (str_eq args.kind "run_stopped")) [
          | inl stopped ↦
              rw (free, stopped) (stop_run-Numbered now key args payload sequence db _ h added)
          | inr going ↦ rw (free, going) added
        ]
        | inr taken ↦ rw taken h
      ]

  write_event-Numbered :
      (now : ℕ) (key : RunKey) (args : EventArgs) (payload : Members) (encoded : String)
      (o : Option RunRow) (db : Db)
      → select (is_live key.run_id key.user_id) db.runs ≡ o
      → Numbered db
      → Numbered
          (write_event libraries.redact_value libraries.dumps libraries.str now key args payload
            encoded o db).1
  write_event-Numbered now key args payload encoded none db e h = h
  write_event-Numbered now key args payload encoded (some row) db e h =
      add_event-Numbered now key args payload encoded db e h

  check_payload-Numbered :
      (now : ℕ) (key : RunKey) (args : EventArgs) (payload : Result LedgerError Members) (db : Db)
      → Numbered db
      → Numbered
          (check_payload libraries.redact_value libraries.dumps libraries.str now key args payload
            db).1
  check_payload-Numbered now key args (err failure) db h = h
  check_payload-Numbered now key args (ok payload) db h =
      elim (Option-cases (libraries.dumps payload)) [
        | inl bad ↦ rw bad h
        | inr (encoded, e) ↦ rw e (
            write_event-Numbered now key args payload encoded
              (select (is_live key.run_id key.user_id) db.runs) db refl h)
      ]

  after_ensured-Numbered :
      (now : ℕ) (key : RunKey) (args : EventArgs) (ensured : Result LedgerError Unit) (db : Db)
      → Numbered db
      → Numbered
          (after_ensured libraries.redact_value libraries.dumps libraries.str now key args
            (ensured, db)).1
  after_ensured-Numbered now key args (err failure) db h = h
  after_ensured-Numbered now key args (ok done) db h =
      check_payload-Numbered now key args
        (safe_event_payload libraries.redact_value args.kind args.payload) db h

  pub append-Numbered :
      (now later : ℕ) (key : RunKey) (args : EventArgs) (db : Db)
      → Numbered db
      → Numbered
          (append libraries.redact_value libraries.dumps libraries.str now later key args db).1
  append-Numbered now later key args db h =
      after_ensured-Numbered later key args (ensure_run now key db).0 (ensure_run now key db).1
        (ensure_run-Numbered now key db h)
