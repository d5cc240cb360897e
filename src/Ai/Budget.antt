-- ===== src/Ai/Budget.antt =====
-- backend/app/services/ai/budget.py: the aggregate resource budget of one analysis request.
-- An object is an index into the list of the reservations that the budget has made; the entry of
-- `_active` under a reservation's id is that reservation itself, so a flag stands for it. Each
-- method runs under the lock, so that a method is one step. Times are ticks of the monotonic clock.
pub mod Domain
pub mod Operations
pub mod Started
pub mod Invariant
pub mod Charges
pub mod Grants
mod Examples
