-- ===== src/Ledger/Ended.antt =====
-- Every call of backend/app/services/run_ledger.py that does not prune leaves a run that has ended
-- as it is.
use cogentrex.Prelude.{
  ℕ, suc, ◌-◌, ◌≡◌, refl, sym, ◌∙◌, ap, inl, inr, true, false, Option, none, some, [], ◌∷◌, ◌++◌,
  String, filter, select, update, matched, str_eq, ◌==◌, Bool-cases, Option-cases, select-holds,
  arith, eq_iff, append_nil, Result, ok, err,
}
use cogentrex.Ledger.Rows.{RunRow, RuntimeEventRow, Db, LedgerError, Members, has_id, event_of}
use cogentrex.Ledger.Runs.{RunKey}
use cogentrex.Ledger.Payload.{safe_event_payload}
use cogentrex.Ledger.Append.{
  EventArgs, is_live, advance, new_event, stop_run, finalize, write_event, check_payload,
  after_ensured, is_taken,
}
use cogentrex.Ledger.Prune.{is_terminal}
use cogentrex.Ledger.Log.{Libraries}
use cogentrex.Ledger.Selects.{select-narrow, filter-append}
use cogentrex.Ledger.Invariant.{Numbered}
use mathlib.Core.Bool.{true≢false}
use cogentrex.Ledger.Final.{Same-refl, Kept, Kept-refl, Kept-elsewhere, terminal-not-live}

module _ (libraries : Libraries) (run_id : String) (row : RunRow) where
  -- The new event belongs to a live run, so not to this one.
  event-elsewhere :
      (key : RunKey) (db : Db) {live : RunRow}
      → Numbered db
      → is_terminal row ≡ true
      → select (has_id run_id) db.runs ≡ some row
      → select (is_live key.run_id key.user_id) db.runs ≡ some live
      → str_eq key.run_id run_id ≡ false
  event-elsewhere key db {live} h ended e found = elim (Bool-cases (str_eq key.run_id run_id)) [
    | inr apart ↦ apart
    | inl hit ↦
        let same : key.run_id ≡ run_id = (eq_iff key.run_id run_id).0 hit in
        let there : select (has_id key.run_id) db.runs ≡ some live =
          select-narrow (has_id key.run_id) (is_live key.run_id key.user_id) db.runs
            (λ x live_row. ground (arith, live_row)) (h.unique key.run_id) found in
        let mine : select (has_id key.run_id) db.runs ≡ some row = rw same e in
        let one : row ≡ live = cc in
        let shut = terminal-not-live key.run_id key.user_id row ended in
        let open_row : is_live key.run_id key.user_id row ≡ true =
          ap (is_live key.run_id key.user_id) one
          ∙ select-holds (is_live key.run_id key.user_id) db.runs found in
        absurd (true≢false (sym open_row ∙ shut))
  ]

  added-Kept :
      (key : RunKey) (event : RuntimeEventRow) (db : Db)
      → event.run_id ≡ key.run_id
      → is_terminal row ≡ true
      → select (has_id run_id) db.runs ≡ some row
      → str_eq key.run_id run_id ≡ false
      → Kept run_id row db (record db {
        runs = update (is_live key.run_id key.user_id) advance db.runs;
        events = db.events ++ (event ∷ []);
      })
  added-Kept key event db mine ended e apart = (
    (
      row,
      Kept-elsewhere run_id row (is_live key.run_id key.user_id) advance db.runs (λ x. refl)
          (terminal-not-live key.run_id key.user_id row ended) e,
      Same-refl row,
    ),
    filter-append (event_of run_id) db.events (event ∷ [])
        ∙ rw (mine, apart) (append_nil (filter (event_of run_id) db.events)),
  )

  stop_run-Kept :
      (now : ℕ) (key : RunKey) (args : EventArgs) (payload : Members) (sequence : ℕ)
      (before db : Db)
      → is_terminal row ≡ true
      → select (has_id run_id) before.runs ≡ some row
      → select (has_id run_id) db.runs ≡ some row
      → filter (event_of run_id) db.events ≡ filter (event_of run_id) before.events
      → Kept run_id row before
          (stop_run libraries.redact_value libraries.dumps libraries.str now key args payload
            sequence before db).1
  stop_run-Kept now key args payload sequence before db ended e e' same =
      elim (Bool-cases (matched (is_live key.run_id key.user_id) db.runs == 1)) [
        | inl found ↦ rw found (
          (
            row,
            Kept-elsewhere run_id row (is_live key.run_id key.user_id)
                (finalize libraries.redact_value libraries.dumps libraries.str now args payload)
                db.runs (λ x. refl) (terminal-not-live key.run_id key.user_id row ended) e',
            Same-refl row,
          ),
          same,
        )
        | inr missing ↦ rw missing (Kept-refl run_id row before e)
      ]

  write_event-Kept :
      (now : ℕ) (key : RunKey) (args : EventArgs) (payload : Members) (encoded : String)
      (o : Option RunRow) (db : Db)
      → select (is_live key.run_id key.user_id) db.runs ≡ o
      → Numbered db
      → is_terminal row ≡ true
      → select (has_id run_id) db.runs ≡ some row
      → Kept run_id row db
          (write_event libraries.redact_value libraries.dumps libraries.str now key args payload
            encoded o db).1
  write_event-Kept now key args payload encoded none db found h ended e = Kept-refl run_id row db e
  write_event-Kept now key args payload encoded (some live) db found h ended e =
      let sequence = suc live.next_sequence - 1 in
      let kept =
        added-Kept key (new_event now key args encoded sequence) db refl ended e
          (event-elsewhere key db h ended e found) in
      elim (Bool-cases (matched (is_taken key.run_id sequence) db.events == 0)) [
        | inr taken ↦ rw taken (Kept-refl run_id row db e)
        | inl free ↦ elim (Bool-cases (str_eq args.kind "run_stopped")) [
          | inr going ↦ rw (free, going) kept
          | inl stopped ↦
              rw (free, stopped)
                (stop_run-Kept now key args payload sequence db _ ended e
                  (Kept-elsewhere run_id row (is_live key.run_id key.user_id) advance db.runs
                    (λ x. refl) (terminal-not-live key.run_id key.user_id row ended) e)
                  kept.1)
        ]
      ]

  check_payload-Kept :
      (now : ℕ) (key : RunKey) (args : EventArgs) (payload : Result LedgerError Members) (db : Db)
      → Numbered db
      → is_terminal row ≡ true
      → select (has_id run_id) db.runs ≡ some row
      → Kept run_id row db
          (check_payload libraries.redact_value libraries.dumps libraries.str now key args payload
            db).1
  check_payload-Kept now key args (err failure) db h ended e = Kept-refl run_id row db e
  check_payload-Kept now key args (ok payload) db h ended e =
      elim (Option-cases (libraries.dumps payload)) [
        | inl bad ↦ rw bad (Kept-refl run_id row db e)
        | inr (encoded, written) ↦ rw written (
            write_event-Kept now key args payload encoded
              (select (is_live key.run_id key.user_id) db.runs) db refl h ended e)
      ]

  pub after_ensured-Kept :
      (now : ℕ) (key : RunKey) (args : EventArgs) (ensured : Result LedgerError Unit) (db : Db)
      → Numbered db
      → is_terminal row ≡ true
      → select (has_id run_id) db.runs ≡ some row
      → Kept run_id row db
          (after_ensured libraries.redact_value libraries.dumps libraries.str now key args
            (ensured, db)).1
  after_ensured-Kept now key args (err failure) db h ended e = Kept-refl run_id row db e
  after_ensured-Kept now key args (ok done) db h ended e =
      check_payload-Kept now key args
        (safe_event_payload libraries.redact_value args.kind args.payload) db h ended e
