-- ===== src/Analysis.antt =====
-- The analysis of closed candles.
pub mod Domain
pub mod Returns
pub mod Range
pub mod Snapshot
pub mod Indicators
pub mod Engine
mod Examples
