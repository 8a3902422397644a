-- ===== src/Generation.antt =====
-- The durable lifecycle of a Chat generation request: rows, the statements of `ChatRepository`
-- (backend/repositories/chat_repo.py) and the recovery scan
-- (backend/application/chat/generation_recovery.py).
pub mod Row
pub mod Args
pub mod Scope
pub mod Dispatch
pub mod Worker
pub mod Checks
pub mod History
pub mod Invariant
pub mod Progress
pub mod Keys
pub mod Fences
pub mod Bounds
pub mod Message
pub mod Recovery
pub mod Scan
pub mod Due
pub mod Accounts
pub mod FailDue
pub mod Settle
mod Tests
