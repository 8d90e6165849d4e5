-- ===== src/Compaction.antt =====
-- The compaction of a conversation: backend/app/services/multi_layer_compact.py.
pub mod Messages
pub mod Layers
pub mod Pipeline
pub mod Laws
pub mod Recent
mod Tests
