-- ===== src/Ledger/PreserveRuns.antt =====
-- The calls on runs, and retention, in backend/app/services/run_ledger.py keep the numbering.
use cogentrex.Prelude.{
  length, leb, ℕ, ◌≡◌, refl, inl, inr, Bool, ◌&&◌, Option, none, some, List, [], ◌∷◌, String,
  filter, select, matched, str_eq, ltb, ◌==◌, Bool-cases, Option-cases, arith,
}
use cogentrex.Ledger.Rows.{RunRow, Db, has_id, owned}
use cogentrex.Ledger.Runs.{
  RunKey, ChildKey, new_run, draft_for, set_lineage, consume, inserted, ensure_run, child_of,
  child_row, under_parent, set_metadata, finalize_metadata, clip,
}
use cogentrex.Ledger.Prune.{
  stale_of, run_ids_of, is_terminal, listed, eligible_ids, restricted, without,
  delete_terminal_runs, prune_terminal_to_event_budget,
}
use cogentrex.Ledger.Deletion.{delete-Numbered}
use cogentrex.Ledger.Invariant.{Numbered, same-Numbered, update-Numbered, insert-Numbered}

consume-Numbered :
    (key : RunKey) (o : Option _) (db : Db) → Numbered db → Numbered (consume key o db)
consume-Numbered key none db h = h
consume-Numbered key (some draft) db h =
    let updated =
      update-Numbered (owned key.run_id key.user_id) (set_lineage draft) db (λ row. refl)
        (λ row. refl) h in
    same-Numbered _ (consume key (some draft) db) updated (λ id. omega arith) (λ id. refl)
      (λ id. refl)

inserted-Numbered :
    (now : ℕ) (key : RunKey) (db : Db)
    → select (has_id key.run_id) db.runs ≡ none
    → Numbered db
    → Numbered (inserted now key db).1
inserted-Numbered now key db absent h =
    elim (Bool-cases (ltb 1 (matched (draft_for key) db.drafts))) [
      | inl many ↦ rw many h
      | inr few ↦ rw few (
          consume-Numbered key (select (draft_for key) db.drafts) _
            (insert-Numbered (new_run now none key) db absent refl h))
    ]

pub ensure_run-Numbered :
    (now : ℕ) (key : RunKey) (db : Db) → Numbered db → Numbered (ensure_run now key db).1
ensure_run-Numbered now key db h = elim (Option-cases (select (has_id key.run_id) db.runs)) [
  | inl absent ↦ rw absent (inserted-Numbered now key db absent h)
  | inr (row, there) ↦ rw there h
]

child_row-Numbered :
    (now : ℕ) (key : ChildKey) (parent : RunRow) (o : Option RunRow) (db : Db)
    → select (has_id key.run_id) db.runs ≡ o
    → Numbered db
    → Numbered (child_row now key parent o db).1
child_row-Numbered now key parent none db e h =
    insert-Numbered (new_run now (some key.parent_run_id) (child_of key parent)) db e refl h
child_row-Numbered now key parent (some row) db e h = h

pub under_parent-Numbered :
    (now : ℕ) (key : ChildKey) (o : Option RunRow) (db : Db)
    → Numbered db
    → Numbered (under_parent now key o db).1
under_parent-Numbered now key none db h = h
under_parent-Numbered now key (some parent) db h =
    elim (Bool-cases
      (str_eq parent.user_id key.user_id && str_eq parent.project_id key.project_id)) [
        | inl same ↦
            rw same
              (child_row-Numbered now key parent (select (has_id key.run_id) db.runs) db refl h)
        | inr apart ↦ rw apart h
      ]

pub finalize_metadata-Numbered :
    (redact_text : String → String) (user_id run_id answer : String) (cost latency : Option ℕ)
    (db : Db)
    → Numbered db
    → Numbered (finalize_metadata redact_text user_id run_id answer cost latency db).1
finalize_metadata-Numbered redact_text user_id run_id answer cost latency db h =
    elim (Bool-cases (matched (owned run_id user_id) db.runs == 1)) [
      | inl found ↦ rw found (
          update-Numbered (owned run_id user_id)
            (set_metadata (clip 2000 (redact_text answer)) cost latency) db (λ row. refl)
            (λ row. refl) h)
      | inr missing ↦ rw missing h
    ]

-- A deletion, whatever runs it is given.
pub delete_terminal_runs-Numbered :
    (immediate : Bool) (ids : List String) (user_id : Option String) (db : Db)
    → Numbered db
    → Numbered (delete_terminal_runs immediate ids user_id db).1
delete_terminal_runs-Numbered immediate [] user_id db h = h
delete_terminal_runs-Numbered immediate (first ∷ rest) user_id db h =
    let ids = eligible_ids (first ∷ rest) user_id db in
    elim (Bool-cases (restricted immediate ids db.runs)) [
      | inl refused ↦ rw refused h
      | inr deleted ↦ rw deleted (delete-Numbered (listed ids) db (without ids db) refl refl h)
    ]

pub retained-Numbered :
    (immediate : Bool) (ordered : List RunRow → List RunRow) (max_events : ℕ) (db : Db)
    → Numbered db
    → Numbered (prune_terminal_to_event_budget immediate ordered max_events db).1
retained-Numbered immediate ordered max_events db h =
    elim (Bool-cases (leb (length db.events) max_events)) [
      | inl fits ↦ rw fits h
      | inr over ↦ rw over (
          delete_terminal_runs-Numbered immediate
            (stale_of (length db.events) max_events 0 db.events
              (run_ids_of (ordered (filter is_terminal db.runs))))
            none db h)
    ]
