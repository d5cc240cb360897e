-- ===== src/Ai.antt =====
-- The AI analysis subsystem, backend/app/services/ai.
pub mod Budget
