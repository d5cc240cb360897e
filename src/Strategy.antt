-- ===== src/Strategy.antt =====
-- The strategy engine, backend/app/services/strategy: the lifecycle of its candidates.
pub mod Lifecycle
mod Examples
