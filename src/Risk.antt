-- ===== src/Risk.antt =====
-- The risk subsystem, backend/app/services/risk: contracts, sizing, cooldown, portfolio capacity,
-- the policy core, and the kill switch.
pub mod Domain
pub mod Sizing
pub mod Cooldown
pub mod Capacity
pub mod News
pub mod PolicyCore
pub mod KillSwitch
pub mod Portfolio
pub mod LiveAdapter
pub mod Engine
pub mod AccountState
mod Examples
