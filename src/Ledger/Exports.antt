-- ===== src/Ledger/Exports.antt =====
-- `_all_events` of backend/app/services/run_exports.py: the pages of a run's events, one after
-- another, up to a bound.
use cogentrex.Prelude.{
  ℕ, zero, suc, ◌-◌, Bool, true, false, Option, none, some, List, [], ◌∷◌, ◌++◌, String, map,
  length, ltb, if◌then◌else◌, Result, ok, err,
}
use cogentrex.Ledger.Rows.{Json, Members, Db, LedgerError}
use cogentrex.Ledger.Events.{RunEventRecord, events}

pub record ExportedEvent : Type 0 where
  pub sequence : ℕ
  pub kind : String
  pub schema_version : ℕ
  pub iteration : ℕ
  pub payload : Members

abbrev pub exported : RunEventRecord → ExportedEvent
exported item = record {
  sequence = item.sequence;
  kind = item.kind;
  schema_version = item.schema_version;
  iteration = item.iteration;
  payload = item.payload;
}

-- `_MAX_EVENTS` and the size of a page.
abbrev pub max_events : ℕ
max_events = 10000

abbrev pub page_size : ℕ
page_size = 200

abbrev pub min : ℕ → ℕ → ℕ
min a b = if ltb b a then b else a

-- `page.items[-1].sequence`
abbrev pub last_sequence : RunEventRecord → List RunEventRecord → ℕ
last_sequence item [] = item.sequence
last_sequence item (x ∷ xs) = last_sequence x xs

-- The events and whether there are more; nothing for a run that is not there. An error is the
-- ledger's.
abbrev pub Gathered : Type 0
Gathered = Result LedgerError (Option (List ExportedEvent × Bool))

abbrev pub is_more : List RunEventRecord → Bool
is_more [] = false
is_more (x ∷ xs) = true

-- The last read, of one event more.
abbrev pub probed :
    List ExportedEvent → Result LedgerError (Option (List RunEventRecord)) → Gathered
probed gathered (err failure) = err failure
probed gathered (ok none) = ok (some (gathered, false))
probed gathered (ok (some items)) = ok (some (gathered, is_more items))

-- What a page leads to: the end, or the next turn of the loop.
abbrev pub after_page :
    ℕ
    → List ExportedEvent
    → (List ExportedEvent → ℕ → Option Gathered)
    → Result LedgerError (Option (List RunEventRecord))
    → Option Gathered
after_page limit gathered next (err failure) = some (err failure)
after_page limit gathered next (ok none) = some (ok none)
after_page limit gathered next (ok (some [])) = some (ok (some (gathered, false)))
after_page limit gathered next (ok (some (item ∷ items))) =
    if ltb (length (item ∷ items)) limit
    then some (ok (some (gathered ++ map exported (item ∷ items), false)))
    else next (gathered ++ map exported (item ∷ items)) (last_sequence item items)

module _ (loads : String → Option Json) (owner_id run_id : String) where
  -- The loop, with fuel; a turn that reads a full page of at least one event takes the next turn.
  -- Each turn reads in a session of its own: `tables` has what the reads find, one after another.
  abbrev pub collect : (ℕ → Db) → ℕ → ℕ → List ExportedEvent → ℕ → Option Gathered
  collect tables most zero gathered after_sequence = none
  collect tables most (suc fuel) gathered after_sequence =
      let limit = min page_size (most - length gathered) in
      if ltb (length gathered) most
      then after_page limit gathered (collect (λ i. tables (suc i)) most fuel)
          (events loads owner_id run_id limit after_sequence (tables 0))
      else some (probed gathered (events loads owner_id run_id 1 after_sequence (tables 0)))

  abbrev pub all_events : (ℕ → Db) → Option Gathered
  all_events tables = collect tables max_events (suc max_events) [] 0
