-- ===== src/Effects.antt =====
-- External effects of tools: the table `effects` of backend/app/services/db_store.py, the
-- repository backend/app/services/effect_ledger.py over it, and the executor
-- backend/app/runtime/effect_executor.py that runs a tool after it has reserved the effect. The
-- identity of an effect, an HMAC over the call (backend/app/runtime/effect_ledger.py), is given.
pub mod Rows
pub mod Repository
pub mod Executor
pub mod Tables
pub mod Counts
pub mod Starts
pub mod Later
pub mod Final
pub mod Ends
pub mod Truth
pub mod Ranks
mod Tests
