-- ===== src/Backtesting.antt =====
-- The backtests, backend/app/services/backtesting: the simulation of fills and its data.
pub mod Domain
pub mod Simulation
pub mod Metrics
mod Examples
