-- ===== src/Auth.antt =====
-- The authority of refresh tokens: services/refresh_sessions.py and api/auth.py of backend/app.
pub mod RefreshSessions
pub mod Refresh
mod Examples
