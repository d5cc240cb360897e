-- ===== src/Risk/PolicyCore.antt =====
-- The pure risk evaluation: `evaluate_pure_risk` of risk/policy_core.py, over the contracts of
-- risk/policy_domain.py. Reasons are given by their codes, one code for each text; the audit fields
-- (provenance, payload and fingerprint) are left out. The levels of a plan are the decimals that
-- `Decimal(str(...))` reads.
pub mod Inputs
pub mod Gates
pub mod Evaluate
pub mod Clear
pub mod Outcomes
pub mod Decisions
