-- ===== src/Ledger/Deletion.antt =====
-- The deletion of whole runs in backend/app/services/run_ledger.py keeps the numbering.
use cogentrex.Prelude.{
  ◌≡◌, refl, ap, inl, inr, ◌⊎◌, Bool, true, false, not, none, [], String, filter, map, str_eq,
  Bool-cases, arith, eq_iff,
}
use cogentrex.Ledger.Rows.{Db, has_id, event_of}
use cogentrex.Ledger.Selects.{
  select-filter_kept, select-filter_gone, filter-filter_kept, filter-filter_gone, matched-filter_le,
}
use cogentrex.Ledger.Invariant.{sequences, next_in, next_of, Numbered}

-- A key after a deletion: as before, or without a run and events.
abbrev Settled : String → Db → Db → Type 0
Settled id db left =
    ((next_of id left.runs ≡ next_of id db.runs)
      × (sequences id left.events ≡ sequences id db.events))
    ⊎ ((next_of id left.runs ≡ none) × (sequences id left.events ≡ []))

-- A deletion of whole runs with their events.
pub delete-Numbered :
    (gone : String → Bool) (db left : Db)
    → left.runs ≡ filter (λ row. not (gone row.run_id)) db.runs
    → left.events ≡ filter (λ row. not (gone row.run_id)) db.events
    → Numbered db
    → Numbered left
delete-Numbered gone db left runs events h =
    let kept : (id : String)
        → gone id ≡ false
        → (x : String) → str_eq x id ≡ true
        → not (gone x) ≡ true =
      λ id stays x hit. let same : x ≡ id = (eq_iff x id).0 hit in rw (same, stays) refl in
    let dropped : (id : String)
        → gone id ≡ true
        → (x : String) → str_eq x id ≡ true
        → not (gone x) ≡ false =
      λ id goes x hit. let same : x ≡ id = (eq_iff x id).0 hit in rw (same, goes) refl in
    let cases : (id : String) → Settled id db left = λ id. elim (Bool-cases (gone id)) [
      | inl goes ↦ inr (
        rw runs (
            ap next_in (
              select-filter_gone (has_id id) (λ row. not (gone row.run_id)) db.runs
                (λ row hit. dropped id goes row.run_id hit))),
        rw events (
            ap (λ rows. map (λ row. row.sequence) rows)
              (filter-filter_gone (event_of id) (λ row. not (gone row.run_id)) db.events
                (λ row hit. dropped id goes row.run_id hit))),
      )
      | inr stays ↦ inl (
        rw runs (
            ap next_in (
              select-filter_kept (has_id id) (λ row. not (gone row.run_id)) db.runs
                (λ row hit. kept id stays row.run_id hit))),
        rw events (
            ap (λ rows. map (λ row. row.sequence) rows)
              (filter-filter_kept (event_of id) (λ row. not (gone row.run_id)) db.events
                (λ row hit. kept id stays row.run_id hit))),
      )
    ] in
    record {
      unique = λ id. rw runs (
          omega (
            arith,
            h.unique id,
            matched-filter_le (has_id id) (λ row. not (gone row.run_id)) db.runs,
          ));
      started = λ id. elim (cases id) [
        | inl (same, rows) ↦ rw same (h.started id)
        | inr (none_left, rows) ↦ rw none_left tt
      ];
      numbered = λ id. elim (cases id) [
        | inl (same, rows) ↦ rw (same, rows) (h.numbered id)
        | inr (none_left, rows) ↦ rw (none_left, rows) refl
      ];
    }
