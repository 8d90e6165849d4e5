-- ===== src/Ledger/Reading.antt =====
-- Reading a run's events page by page, as backend/app/services/run_exports.py does.
use cogentrex.Prelude.{
  filter-holds, take, drop, length-append, length-map, ℕ, zero, suc, ◌+◌, ◌-◌, ◌≤◌, ◌<◌, ◌≡◌, refl,
  sym, ◌∙◌, ap, inl, inr, true, Option, some, List, [], ◌∷◌, ◌++◌, String, filter, map, length, All,
  All-imp, select, ltb, ltb→lt, Bool-cases, arith, ok,
}
use mathlib.Core.Path.{subst}
use cogentrex.Ledger.Rows.{Json, Members, RunRow, RuntimeEventRow, Db, owned}
use cogentrex.Ledger.Selects.{filter-filter_kept}
use cogentrex.Ledger.Events.{
  record_with, by_sequence, is_after, page_rows, page_is_bounded, event_record, event_records,
  events,
}
use cogentrex.Ledger.Exports.{
  ExportedEvent, exported, max_events, page_size, min, collect, all_events,
}
use cogentrex.Ledger.Invariant.{next_of, allocated, Numbered}
use cogentrex.Ledger.Takes.{filter-ext, All-take, All-drop, length-take}
use cogentrex.Ledger.Paging.{
  Ascending, after-Ascending, by_sequence-Ascending, last_of, last_of-above, after-page,
}
use cogentrex.Ledger.Turns.{rec, answer, probe-answer, turn-answer}

drop-Ascending : (n : ℕ) (rows : List RuntimeEventRow) → Ascending rows → Ascending (drop n rows)
drop-Ascending zero rows h = h
drop-Ascending (suc n) [] h = tt
drop-Ascending (suc n) (x ∷ rows) h = drop-Ascending n rows h.1

is_after-lt :
    (user_id run_id : String) (a : ℕ) (row : RuntimeEventRow)
    → is_after user_id run_id a row ≡ true
    → a < row.sequence
is_after-lt user_id run_id a row h = ground arith

-- What a page leaves to read.
after-last :
    (user_id run_id : String) (a : ℕ) (x : RuntimeEventRow) (n : ℕ)
    (rows db_events : List RuntimeEventRow)
    → filter (is_after user_id run_id a) db_events ≡ x ∷ rows
    → Ascending (x ∷ rows)
    → filter (is_after user_id run_id (last_of x n rows)) db_events ≡ drop n rows
after-last user_id run_id a x n rows db_events e h =
    let last = last_of x n rows in
    let here : All (λ row. is_after user_id run_id a row ≡ true) (x ∷ rows) =
      rw e at (filter-holds (is_after user_id run_id a) db_events) in
    let above : a < last = last_of-above a x n rows (is_after-lt user_id run_id a x here.0) (
      All-imp (λ row. is_after user_id run_id a row ≡ true) (λ row. a < row.sequence) rows
        (λ row hit. is_after-lt user_id run_id a row hit) here.1) in
    sym (
      filter-filter_kept (is_after user_id run_id last) (is_after user_id run_id a) db_events
        (λ row hit. ground (arith, above)))
    ∙ ap (filter (is_after user_id run_id last)) e
    ∙ filter-ext (is_after user_id run_id last) (λ row. ltb last row.sequence) (x ∷ rows)
        (All-imp (λ row. is_after user_id run_id a row ≡ true)
          (λ row. is_after user_id run_id last row ≡ ltb last row.sequence) (x ∷ rows)
          (λ row hit. ground (arith, above)) here)
    ∙ after-page x n rows h

module _ (loads : String → Option Json) (payload : RuntimeEventRow → Members) where
  -- The row has the schema that is read, and its payload is the JSON text of the given one.
  abbrev pub Readable : RuntimeEventRow → Type 0
  Readable row = event_record loads row ≡ ok (record_with row (payload row))

  event_records-Readable :
      (rows : List RuntimeEventRow)
      → All Readable rows
      → event_records loads rows ≡ ok (map (rec payload) rows)
  event_records-Readable [] h = refl
  event_records-Readable (x ∷ rows) h = rw (h.0, event_records-Readable rows h.1) refl

module _ (loads : String → Option Json) (payload : RuntimeEventRow → Members)
    (owner_id run_id : String) (db : Db) where
  -- A page of a run that is there.
  events-page :
      (limit a : ℕ) (rows : List RuntimeEventRow) {found : RunRow}
      → page_is_bounded limit ≡ true
      → select (owned run_id owner_id) db.runs ≡ some found
      → filter (is_after owner_id run_id a) db.events ≡ rows
      → Ascending rows
      → All (Readable loads payload) rows
      → events loads owner_id run_id limit a db ≡ ok (some (map (rec payload) (take limit rows)))
  events-page limit a rows bounded there e h readable =
      let sorted : page_rows owner_id run_id limit a db ≡ take limit rows =
        ap (λ xs. take limit (by_sequence xs)) e ∙ ap (take limit) (by_sequence-Ascending rows h) in
      rw
        (
          bounded,
          there,
          sorted,
          event_records-Readable loads payload (take limit rows)
              (All-take (Readable loads payload) limit rows readable),
        )
        refl

  collect-reads :
      (most fuel : ℕ) (gathered : List ExportedEvent) (a : ℕ) (rows : List RuntimeEventRow)
      {found : RunRow}
      → select (owned run_id owner_id) db.runs ≡ some found
      → filter (is_after owner_id run_id a) db.events ≡ rows
      → Ascending rows
      → All (Readable loads payload) rows
      → length gathered ≤ most
      → most < fuel + length gathered
      → collect loads owner_id run_id (λ i. db) most fuel gathered a
        ≡ answer payload (most - length gathered) gathered rows
  collect-reads most zero gathered a rows there e h readable le fuel_left =
      absurd (omega (arith, le, fuel_left))
  collect-reads most (suc fuel) gathered a rows there e h readable le fuel_left =
      elim (Bool-cases (ltb (length gathered) most)) [
        | inl room ↦
            let k = min page_size (most - length gathered) - 1 in
            let limited : min page_size (most - length gathered) ≡ suc k =
              ground (arith, ltb→lt (length gathered) most room) in
            let fits : suc k ≤ most - length gathered = ground (arith, limited) in
            let page =
              events-page (min page_size (most - length gathered)) a rows (ground (arith, limited))
                there e h readable in
            rw (room, page)
              (rw limited (
                turn-answer payload k (most - length gathered) gathered
                  (collect loads owner_id run_id (λ i. db) most fuel) rows fits
                  (λ x xs same full.
                    let more = map exported (map (rec payload) (take (suc k) rows)) in
                    let ascending : Ascending (x ∷ xs) = subst Ascending same h in
                    let rest : filter (is_after owner_id run_id (last_of x k xs)) db.events
                        ≡ drop (suc k) rows =
                      after-last owner_id run_id a x k xs db.events (e ∙ same) ascending
                      ∙ sym (ap (drop (suc k)) same) in
                    let counted : length (gathered ++ more) ≡ length gathered + suc k =
                      length-append gathered more
                      ∙ ap (λ n. length gathered + n)
                          (length-map exported (map (rec payload) (take (suc k) rows))
                            ∙ length-map (rec payload) (take (suc k) rows)
                            ∙ length-take (suc k) rows
                            ∙ ground (arith, full)) in
                    collect-reads most fuel (gathered ++ more) (last_of x k xs) (drop (suc k) rows)
                      there rest (drop-Ascending (suc k) rows h)
                      (All-drop (Readable loads payload) (suc k) rows readable)
                      (omega (arith, counted, fits, le)) (omega (arith, counted, fuel_left))
                    ∙ ap
                        (λ room_left.
                          answer payload room_left (gathered ++ more) (drop (suc k) rows))
                        (omega (arith, counted, fits)))))
        | inr full ↦
            rw (full, events-page 1 a rows refl there e h readable)
              (probe-answer payload (most - length gathered) gathered rows
                (ground (arith, le, full)))
      ]

  -- When the events of each run are numbered, the run is the owner's and its rows can be read, the
  -- export has the first 10000 of the owner's events of the run, in their order, and tells whether
  -- there are more, if all its pages find the same tables.
  pub all_events-reads :
      {found : RunRow}
      → Numbered db
      → select (owned run_id owner_id) db.runs ≡ some found
      → let rows = filter (is_after owner_id run_id 0) db.events in
        All (Readable loads payload) rows
        → all_events loads owner_id run_id (λ i. db)
          ≡ some (
              ok (
                some (
                  map exported (map (rec payload) (take max_events rows)),
                  ltb max_events (length rows),
                )))
  all_events-reads h there readable =
      collect-reads max_events (suc max_events) [] 0 (filter (is_after owner_id run_id 0) db.events)
        there refl
        (after-Ascending owner_id run_id 0 (allocated (next_of run_id db.runs)) db.events
          (h.numbered run_id))
        readable (omega arith) (omega arith)
