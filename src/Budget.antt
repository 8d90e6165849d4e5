-- ===== src/Budget.antt =====
-- The durable budget of model calls: backend/app/services/monetary_budget.py.
-- The tables `project_budgets`, `runs` and `model_charges` (backend/app/services/db_store.py) are
-- maps by primary key and, for the charges, a list of rows in insertion order. Each method is the
-- transaction that it opens: a method that rolls back returns the tables as they were. Timestamps
-- are numbers; the columns of `runs` that the budget does not read are left out.
pub mod Rows
pub mod Ids
pub mod Transitions
pub mod Opening
pub mod Reserving
pub mod Reconciling
pub mod Recovery
pub mod Invariant
pub mod Moves
pub mod Settle
pub mod Balance
pub mod Updates
pub mod Outcomes
pub mod Preserve
pub mod Accept
pub mod Reserve
pub mod Log
pub mod Lifecycle
pub mod Progress
pub mod History
pub mod Duplicates
pub mod Quotes
pub mod Stale
mod Settles
pub mod Sweep
mod Tests
