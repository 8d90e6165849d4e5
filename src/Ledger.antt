-- ===== src/Ledger.antt =====
-- The run ledger: backend/app/services/run_ledger.py over the tables of
-- backend/app/services/db_store.py.
pub mod Rows
pub mod Runs
pub mod Payload
pub mod Append
pub mod Prune
pub mod Fork
pub mod Events
pub mod Log
mod Selects
pub mod Exports
mod Paging
mod Counting
mod Stale
pub mod Retention
mod Final
mod Ended
pub mod Outcome
mod Tests
mod Takes
mod Turns
pub mod Reading
pub mod Invariant
mod Allocation
mod Deletion
mod PreserveRuns
mod PreserveAppend
mod PreserveFork
pub mod Preserve
