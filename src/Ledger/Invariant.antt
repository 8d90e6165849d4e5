-- ===== src/Ledger/Invariant.antt =====
-- The sequences of a run's events in the tables of backend/app/services/run_ledger.py.
use cogentrex.Prelude.{
  ℕ, zero, suc, ◌-◌, ◌≤◌, ◌≡◌, refl, ◌∙◌, ap, inl, inr, ◌⊎◌, Bool, false, Option, none, some, List,
  [], ◌∷◌, ◌++◌, String, filter, map, select, update, matched, str_eq, if◌then◌else◌, Bool-cases,
  arith, eq_iff,
}
use cogentrex.Effects.Tables.{matched-append, matched-update, select-matched}
use cogentrex.Ledger.Rows.{RunRow, RuntimeEventRow, Db, has_id, event_of}
use cogentrex.Ledger.Selects.{or_else, mapped, select-append, select-update}

-- 1, 2, ..., n.
abbrev pub one_to : ℕ → List ℕ
one_to zero = []
one_to (suc n) = one_to n ++ (suc n ∷ [])

abbrev pub sequences : String → List RuntimeEventRow → List ℕ
sequences run_id events = map (λ row. row.sequence) (filter (event_of run_id) events)

abbrev pub next_in : Option RunRow → Option ℕ
next_in none = none
next_in (some row) = some row.next_sequence

-- The allocator of the run with the key.
abbrev pub next_of : String → List RunRow → Option ℕ
next_of run_id runs = next_in (select (has_id run_id) runs)

-- What it has allocated; a run that is not there has allocated nothing.
abbrev pub allocated : Option ℕ → ℕ
allocated none = 0
allocated (some next) = next - 1

abbrev pub Started : Option ℕ → Type 0
Started none = Unit
Started (some next) = 1 ≤ next

-- One run of each key, and the events of each run are numbered from 1 without gaps in the order in
-- which they were added; there are none without their run.
pub record Numbered (db : Db) : Type 0 where
  pub unique : (run_id : String) → matched (has_id run_id) db.runs ≤ 1
  pub started : (run_id : String) → Started (next_of run_id db.runs)
  pub numbered :
      (run_id : String) → sequences run_id db.events ≡ one_to (allocated (next_of run_id db.runs))

-- A change that keeps every allocator and every sequence.
pub same-Numbered :
    (db left : Db)
    → Numbered db
    → ((run_id : String) → matched (has_id run_id) left.runs ≤ matched (has_id run_id) db.runs)
    → ((run_id : String) → next_of run_id left.runs ≡ next_of run_id db.runs)
    → ((run_id : String) → sequences run_id left.events ≡ sequences run_id db.events)
    → Numbered left
same-Numbered db left h fewer next same = record {
  unique = λ id. omega (arith, fewer id, h.unique id);
  started = λ id. rw (next id) (h.started id);
  numbered = λ id. rw (same id, next id) (h.numbered id);
}

next-changed :
    (c : RunRow → Bool) (u : RunRow → RunRow) (o : Option RunRow)
    → ((row : RunRow) → (u row).next_sequence ≡ row.next_sequence)
    → next_in (mapped (λ row. if c row then u row else row) o) ≡ next_in o
next-changed c u none same = refl
next-changed c u (some row) same = elim (Bool-cases (c row)) [
  | inl hit ↦ rw (hit, same row) refl
  | inr miss ↦ rw miss refl
]

-- A change of other columns of runs.
pub update-Numbered :
    (c : RunRow → Bool) (u : RunRow → RunRow) (db : Db)
    → ((row : RunRow) → (u row).run_id ≡ row.run_id)
    → ((row : RunRow) → (u row).next_sequence ≡ row.next_sequence)
    → Numbered db
    → Numbered (record db { runs = update c u db.runs })
update-Numbered c u db same_id same_next h =
    let key : (run_id : String) (row : RunRow) → has_id run_id (u row) ≡ has_id run_id row =
      λ run_id row. ap (λ id. str_eq id run_id) (same_id row) in
    same-Numbered db (record db { runs = update c u db.runs }) h
      (λ id. omega (arith, matched-update (has_id id) c u db.runs (key id)))
      (λ id.
        ap next_in (select-update (has_id id) c u db.runs (key id))
        ∙ next-changed c u (select (has_id id) db.runs) same_next)
      (λ id. refl)

-- What a new row with nothing allocated adds to each key.
or_else-none : (o : Option RunRow) → next_in (or_else o none) ≡ next_in o
or_else-none none = refl
or_else-none (some row) = refl

next-insert :
    (new : RunRow) (runs : List RunRow) (run_id : String)
    → select (has_id new.run_id) runs ≡ none
    → new.next_sequence ≡ 1
    → ((next_of run_id (runs ++ (new ∷ [])) ≡ next_of run_id runs) × (has_id run_id new ≡ false))
      ⊎ ((next_of run_id (runs ++ (new ∷ [])) ≡ some 1)
          × ((next_of run_id runs ≡ none) × (matched (has_id run_id) runs ≡ 0)))
next-insert new runs run_id absent one = elim (Bool-cases (has_id run_id new)) [
  | inl hit ↦
      let same : new.run_id ≡ run_id = (eq_iff new.run_id run_id).0 hit in
      let gone : select (has_id run_id) runs ≡ none = rw same at absent in
      inr (
        ap next_in (select-append (has_id run_id) runs (new ∷ [])) ∙ rw (gone, hit, one) refl,
        (rw gone refl, select-matched (has_id run_id) runs gone),
      )
  | inr miss ↦ inl (
    ap next_in (select-append (has_id run_id) runs (new ∷ []))
        ∙ rw miss (or_else-none (select (has_id run_id) runs)),
    miss,
  )
]

-- A new row of a run.
pub insert-Numbered :
    (new : RunRow) (db : Db)
    → select (has_id new.run_id) db.runs ≡ none
    → new.next_sequence ≡ 1
    → Numbered db
    → Numbered (record db { runs = db.runs ++ (new ∷ []) })
insert-Numbered new db absent one h = record {
  unique = λ id. elim (next-insert new db.runs id absent one) [
    | inl (same, miss) ↦
        rw (matched-append (has_id id) db.runs (new ∷ []), miss) (omega (arith, h.unique id))
    | inr (first, before) ↦
        rw (matched-append (has_id id) db.runs (new ∷ []), before.1) (ground arith)
  ];
  started = λ id. elim (next-insert new db.runs id absent one) [
    | inl (same, miss) ↦ rw same (h.started id)
    | inr (first, before) ↦ rw first (omega arith)
  ];
  numbered = λ id. elim (next-insert new db.runs id absent one) [
    | inl (same, miss) ↦ rw same (h.numbered id)
    | inr (first, before) ↦ rw first (h.numbered id ∙ rw before.0 refl)
  ];
}
