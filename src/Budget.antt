-- ===== src/Budget.antt =====
-- The token budget of a prompt: `ContextBudgeter` (backend/ai/core/context_budgeter.py).
pub mod Budgeter
pub mod Within
pub mod Shares
mod Tests
