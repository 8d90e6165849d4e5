-- ===== src/Ledger/Allocation.antt =====
-- The allocation of a sequence in `append` of backend/app/services/run_ledger.py keeps the numbering.
use cogentrex.Prelude.{
  append_nil, map-append, ℕ, zero, suc, ◌-◌, ◌≤◌, ◌≡◌, refl, sym, ◌∙◌, ap, inl, inr, Bool, true,
  false, some, List, [], ◌∷◌, ◌++◌, String, filter, map, select, update, matched, str_eq,
  if◌then◌else◌, Bool-cases, Option-cases, select-holds, arith, eq_iff,
}
use mathlib.Core.Path.{subst}
use cogentrex.Effects.Tables.{matched-update}
use cogentrex.Ledger.Rows.{RunRow, RuntimeEventRow, Db, has_id, event_of}
use cogentrex.Ledger.Selects.{select-update, filter-append, select-narrow}
use cogentrex.Ledger.Invariant.{one_to, sequences, next_in, next_of, allocated, Started, Numbered}

one_to-next : (n : ℕ) → 1 ≤ n → one_to (n - 1) ++ ((suc n - 1) ∷ []) ≡ one_to (suc n - 1)
one_to-next zero one = absurd (omega (arith, one))
one_to-next (suc m) one =
    let here : suc m - 1 ≡ m = omega arith in
    let there : suc (suc m) - 1 ≡ suc m = omega arith in rw (here, there) refl

sequences-append :
    (run_id : String) (events : List RuntimeEventRow) (event : RuntimeEventRow)
    → sequences run_id (events ++ (event ∷ []))
      ≡ sequences run_id events ++ (if event_of run_id event then event.sequence ∷ [] else [])
sequences-append run_id events event =
    ap (λ rows. map (λ row. row.sequence) rows)
      (filter-append (event_of run_id) events (event ∷ []))
    ∙ map-append (λ row. row.sequence) (filter (event_of run_id) events)
        (filter (event_of run_id) (event ∷ []))
    ∙ elim (Bool-cases (event_of run_id event)) [ inl hit ↦ rw hit refl | inr miss ↦ rw miss refl ]

abbrev pub advanced : RunRow → RunRow
advanced row = record row { next_sequence = suc row.next_sequence }

-- A row that is not advanced, because its key is another.
next-elsewhere :
    (run_id id : String) (c : RunRow → Bool) (runs : List RunRow)
    → ((x : RunRow) → c x ≡ true → has_id run_id x ≡ true)
    → str_eq run_id id ≡ false
    → next_of id (update c advanced runs) ≡ next_of id runs
next-elsewhere run_id id c runs narrow apart =
    ap next_in (select-update (has_id id) c advanced runs (λ x. refl))
    ∙ elim (Option-cases (select (has_id id) runs)) [
      | inl none_there ↦ rw none_there refl
      | inr (x, there) ↦
          let key = select-holds (has_id id) runs there in
          elim (Bool-cases (c x)) [
            | inl hit ↦ absurd (
                ground (
                  arith,
                  narrow x hit,
                  key,
                  apart,
                  eq_iff x.run_id id,
                  eq_iff x.run_id run_id,
                  eq_iff run_id id,
                ))
            | inr miss ↦ rw there (rw miss refl)
          ]
    ]

next-here :
    (run_id : String) (c : RunRow → Bool) (runs : List RunRow) {row : RunRow}
    → ((x : RunRow) → c x ≡ true → has_id run_id x ≡ true)
    → matched (has_id run_id) runs ≤ 1
    → select c runs ≡ some row
    → (next_of run_id runs ≡ some row.next_sequence)
      × (next_of run_id (update c advanced runs) ≡ some (suc row.next_sequence))
next-here run_id c runs {row} narrow one e =
    let there = select-narrow (has_id run_id) c runs narrow one e in
    let holds = select-holds c runs e in
    (
      rw there refl,
      ap next_in (select-update (has_id run_id) c advanced runs (λ x. refl))
          ∙ rw there (rw holds refl),
    )

-- The next event of a run that still takes events.
pub event-Numbered :
    (run_id : String) (c : RunRow → Bool) (event : RuntimeEventRow) (db : Db) {row : RunRow}
    → ((x : RunRow) → c x ≡ true → has_id run_id x ≡ true)
    → select c db.runs ≡ some row
    → event.run_id ≡ run_id
    → event.sequence ≡ suc row.next_sequence - 1
    → Numbered db
    → Numbered (record db { runs = update c advanced db.runs; events = db.events ++ (event ∷ []) })
event-Numbered run_id c event db {row} narrow e mine next h =
    let here = next-here run_id c db.runs narrow (h.unique run_id) e in
    record {
      unique = λ id.
          omega (arith, h.unique id, matched-update (has_id id) c advanced db.runs (λ x. refl));
      started = λ id. elim (Bool-cases (str_eq run_id id)) [
        | inl hit ↦
            let same : run_id ≡ id = (eq_iff run_id id).0 hit in rw (sym same, here.1) (omega arith)
        | inr miss ↦ rw (next-elsewhere run_id id c db.runs narrow miss) (h.started id)
      ];
      numbered = λ id. elim (Bool-cases (str_eq run_id id)) [
        | inl hit ↦
            let same : run_id ≡ id = (eq_iff run_id id).0 hit in
            let itself : str_eq run_id run_id ≡ true = (eq_iff run_id run_id).1 refl in
            let old : sequences run_id db.events ≡ one_to (row.next_sequence - 1) =
              h.numbered run_id ∙ ap (λ n. one_to (allocated n)) here.0 in
            let begun : Started (some row.next_sequence) = rw here.0 at (h.started run_id) in
            let done : sequences run_id (db.events ++ (event ∷ []))
                ≡ one_to (allocated (next_of run_id (update c advanced db.runs))) =
              sequences-append run_id db.events event
              ∙ rw (mine, itself, old, next, here.1) (one_to-next row.next_sequence begun) in
            subst
              (λ key.
                sequences key (db.events ++ (event ∷ []))
                ≡ one_to (allocated (next_of key (update c advanced db.runs))))
              same done
        | inr miss ↦
            rw
              (
                sequences-append id db.events event,
                mine,
                miss,
                next-elsewhere run_id id c db.runs narrow miss,
              )
              (append_nil (sequences id db.events) ∙ h.numbered id)
      ];
    }
