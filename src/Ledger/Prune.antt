-- ===== src/Ledger/Prune.antt =====
-- Retention in backend/app/services/run_ledger.py: `_delete_terminal_runs`, `prune_completed` and
-- `prune_terminal_to_event_budget`. The database's ORDER BY is a parameter.
use cogentrex.Prelude.{
  ℕ, ◌+◌, ◌-◌, Bool, true, false, not, ◌&&◌, ◌||◌, Option, none, some, List, [], ◌∷◌, String,
  filter, map, length, matched, str_eq, ltb, leb, if◌then◌else◌, Result, ok, err,
}
use cogentrex.Policy.{any}
use cogentrex.Ledger.Rows.{
  is_running, RunRow, RuntimeEventRow, RunCheckpointRow, Db, LedgerError, integrity_error, event_of,
}

-- `_terminal_run_filters`: a status of `_TERMINAL_RUN_STATUSES`, and a completion.
abbrev pub is_some : {A : Type 0} → Option A → Bool
is_some none = false
is_some (some a) = true

abbrev pub is_terminal : RunRow → Bool
is_terminal row = not (is_running row.status) && is_some row.completed_at

abbrev pub owner_is : Option String → RunRow → Bool
owner_is none row = true
owner_is (some user_id) row = str_eq row.user_id user_id

abbrev pub listed : List String → String → Bool
listed [] run_id = false
listed (x ∷ xs) run_id = str_eq x run_id || listed xs run_id

-- The runs that the subquery of `_delete_terminal_runs` selects.
abbrev pub is_eligible : List String → Option String → RunRow → Bool
is_eligible run_ids user_id row =
    listed run_ids row.run_id && (is_terminal row && owner_is user_id row)

abbrev pub run_ids_of : List RunRow → List String
run_ids_of rows = map (λ row. row.run_id) rows

abbrev pub eligible_ids : List String → Option String → Db → List String
eligible_ids run_ids user_id db = run_ids_of (filter (is_eligible run_ids user_id) db.runs)

abbrev pub checkpoint_ids_of : List RunCheckpointRow → List String
checkpoint_ids_of rows = map (λ row. row.checkpoint_id) rows

-- The foreign key of `parent_run_id` is RESTRICT: a run that another refers to stays. PostgreSQL
-- looks once the statement has run; SQLite as it deletes each row, before the children, which are later.
abbrev pub is_child_of : List String → RunRow → Bool
is_child_of ids row = elim row.parent_run_id [ none ↦ false | some parent ↦ listed ids parent ]

abbrev pub restricted : Bool → List String → List RunRow → Bool
restricted immediate ids runs =
    any (λ row. is_child_of ids row && (immediate || not (listed ids row.run_id))) runs

-- The deletion, with the cascades from runs to checkpoints and from checkpoints to drafts.
abbrev pub without : List String → Db → Db
without ids db =
    let stale = checkpoint_ids_of (filter (λ row. listed ids row.source_run_id) db.checkpoints) in
    record db {
      runs = filter (λ row. not (listed ids row.run_id)) db.runs;
      events = filter (λ row. not (listed ids row.run_id)) db.events;
      checkpoints = filter (λ row. not (listed ids row.source_run_id)) db.checkpoints;
      drafts = filter (λ row. not (listed stale row.checkpoint_id)) db.drafts;
    }

abbrev pub delete_terminal_runs :
    Bool → List String → Option String → Db → Result LedgerError ℕ × Db
delete_terminal_runs immediate [] user_id db = (ok 0, db)
delete_terminal_runs immediate (first ∷ rest) user_id db =
    let ids = eligible_ids (first ∷ rest) user_id db in
    if restricted immediate ids db.runs
    then (err integrity_error, db)
    else (ok (matched (λ row. listed ids row.run_id) db.runs), without ids db)

abbrev pub is_before : ℕ → Option ℕ → Bool
is_before time none = false
is_before time (some completed_at) = ltb completed_at time

abbrev pub prune_completed : Bool → String → ℕ → Db → Result LedgerError ℕ × Db
prune_completed immediate user_id completed_before db =
    let ids = run_ids_of (
      filter
        (λ row.
          str_eq row.user_id user_id
          && (is_terminal row && is_before completed_before row.completed_at))
        db.runs) in
    delete_terminal_runs immediate ids (some user_id) db

-- The loop over the candidates: the total is what the table had.
abbrev pub stale_of : ℕ → ℕ → ℕ → List RuntimeEventRow → List String → List String
stale_of total max_events removed events [] = []
stale_of total max_events removed events (run_id ∷ candidates) =
    let gone = removed + matched (event_of run_id) events in
    let rest = stale_of total max_events gone events candidates in
    if leb (total - gone) max_events then run_id ∷ [] else run_id ∷ rest

-- `ordered` is the ORDER BY of the candidates. A negative bound, which the code refuses, cannot be
-- written.
abbrev pub prune_terminal_to_event_budget :
    Bool → (List RunRow → List RunRow) → ℕ → Db → Result LedgerError ℕ × Db
prune_terminal_to_event_budget immediate ordered max_events db =
    let total = length db.events in
    let candidates = run_ids_of (ordered (filter is_terminal db.runs)) in
    if leb total max_events
    then (ok 0, db)
    else delete_terminal_runs immediate (stale_of total max_events 0 db.events candidates) none db
