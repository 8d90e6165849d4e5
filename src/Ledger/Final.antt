-- ===== src/Ledger/Final.antt =====
-- What becomes of a run that has ended in backend/app/services/run_ledger.py.
use cogentrex.Prelude.{
  ℕ, ◌≡◌, refl, ◌∙◌, ap, inl, inr, Bool, true, false, not, ◌&&◌, Option, none, some, List, [], ◌∷◌,
  ◌++◌, String, filter, select, update, matched, str_eq, ltb, Bool-cases, Option-cases, arith,
}
use cogentrex.Ledger.Rows.{RunRow, ForkDraftRow, Db, is_running, has_id, owned, event_of}
use cogentrex.Ledger.Runs.{RunKey, new_run, draft_for, set_lineage, consume, ensure_run}
use cogentrex.Ledger.Append.{is_live}
use cogentrex.Ledger.Prune.{is_terminal, is_some}
use cogentrex.Ledger.Selects.{select-append, select-update}

-- The outcome of a run is the same in two rows.
abbrev pub Same : RunRow → RunRow → Type 0
Same row left =
    (left.status ≡ row.status)
    × (left.completed_at ≡ row.completed_at)
    × (left.stop_reason ≡ row.stop_reason)
    × (left.next_sequence ≡ row.next_sequence)
    × (left.iterations ≡ row.iterations)
    × (left.input_tokens ≡ row.input_tokens)
    × (left.output_tokens ≡ row.output_tokens)
    × (left.total_tokens ≡ row.total_tokens)

pub Same-refl : (row : RunRow) → Same row row
Same-refl row = (refl, refl, refl, refl, refl, refl, refl, refl)

-- The run is still there, with its outcome and its events.
abbrev pub Kept : String → RunRow → Db → Db → Type 0
Kept run_id row db left =
    ((row' : RunRow) × (select (has_id run_id) left.runs ≡ some row') × Same row row')
    × (filter (event_of run_id) left.events ≡ filter (event_of run_id) db.events)

pub Kept-refl :
    (run_id : String) (row : RunRow) (db : Db)
    → select (has_id run_id) db.runs ≡ some row
    → Kept run_id row db db
Kept-refl run_id row db e = ((row, e, Same-refl row), refl)

pub Same-trans : (a b c : RunRow) → Same a b → Same b c → Same a c
Same-trans a b c (s, t, u, v, w, x, y, z) (s', t', u', v', w', x', y', z') =
    (s' ∙ s, t' ∙ t, u' ∙ u, v' ∙ v, w' ∙ w, x' ∙ x, y' ∙ y, z' ∙ z)

-- A change of other columns.
pub Kept-update :
    (run_id : String) (row : RunRow) (c : RunRow → Bool) (u : RunRow → RunRow) (db : Db)
    → ((x : RunRow) → (u x).run_id ≡ x.run_id)
    → Same row (u row)
    → select (has_id run_id) db.runs ≡ some row
    → Kept run_id row db (record db { runs = update c u db.runs })
Kept-update run_id row c u db same_id same e =
    let changed =
      select-update (has_id run_id) c u db.runs (λ x. ap (λ id. str_eq id run_id) (same_id x)) in
    elim (Bool-cases (c row)) [
      | inl hit ↦ ((u row, changed ∙ rw e (rw hit refl), same), refl)
      | inr miss ↦ ((row, changed ∙ rw e (rw miss refl), Same-refl row), refl)
    ]

-- A change of other rows.
pub Kept-elsewhere :
    (run_id : String) (row : RunRow) (c : RunRow → Bool) (u : RunRow → RunRow) (runs : List RunRow)
    → ((x : RunRow) → (u x).run_id ≡ x.run_id)
    → c row ≡ false
    → select (has_id run_id) runs ≡ some row
    → select (has_id run_id) (update c u runs) ≡ some row
Kept-elsewhere run_id row c u runs same_id miss e =
    select-update (has_id run_id) c u runs (λ x. ap (λ id. str_eq id run_id) (same_id x))
    ∙ rw e (rw miss refl)

-- A run that has ended takes no events.
pub terminal-not-live :
    (run_id user_id : String) (row : RunRow)
    → is_terminal row ≡ true
    → is_live run_id user_id row ≡ false
terminal-not-live run_id user_id row h = ground arith

pub select-insert :
    (run_id : String) (row new : RunRow) (runs : List RunRow)
    → select (has_id run_id) runs ≡ some row
    → select (has_id run_id) (runs ++ (new ∷ [])) ≡ some row
select-insert run_id row new runs e = select-append (has_id run_id) runs (new ∷ []) ∙ rw e refl

consume-Kept :
    (run_id : String) (row : RunRow) (key : RunKey) (o : Option ForkDraftRow) (db before : Db)
    → before.events ≡ db.events
    → select (has_id run_id) db.runs ≡ some row
    → Kept run_id row before (consume key o db)
consume-Kept run_id row key none db before same e = ((row, e, Same-refl row), rw same refl)
consume-Kept run_id row key (some draft) db before same e =
    let kept =
      Kept-update run_id row (owned key.run_id key.user_id) (set_lineage draft) db (λ x. refl)
        (Same-refl row) e in
    (kept.0, rw same refl)

pub ensure_run-Kept :
    (now : ℕ) (key : RunKey) (run_id : String) (row : RunRow) (db : Db)
    → select (has_id run_id) db.runs ≡ some row
    → Kept run_id row db (ensure_run now key db).1
ensure_run-Kept now key run_id row db e = elim (Option-cases (select (has_id key.run_id) db.runs)) [
  | inr (found, there) ↦ rw there (Kept-refl run_id row db e)
  | inl absent ↦ elim (Bool-cases (ltb 1 (matched (draft_for key) db.drafts))) [
    | inl many ↦ rw (absent, many) (Kept-refl run_id row db e)
    | inr few ↦
        rw (absent, few)
          (consume-Kept run_id row key (select (draft_for key) db.drafts)
            (record db { runs = db.runs ++ (new_run now none key ∷ []) }) db refl
            (select-insert run_id row (new_run now none key) db.runs e))
  ]
]

pub Same-terminal :
    (row left : RunRow) → Same row left → is_terminal row ≡ true → is_terminal left ≡ true
Same-terminal row left same ended =
    ap (λ s. not (is_running s) && is_some left.completed_at) same.0
    ∙ ap (λ c. not (is_running row.status) && is_some c) same.1
    ∙ ended

-- Two changes, one after the other.
pub Kept-trans :
    (run_id : String) (row : RunRow) (db between left : Db) (kept : Kept run_id row db between)
    → Kept run_id kept.0.0 between left
    → Kept run_id row db left
Kept-trans run_id row db between left ((middle, there, same), events)
      ((last, found, same'), events') =
    ((last, found, Same-trans row middle last same same'), events' ∙ events)
