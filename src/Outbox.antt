-- ===== src/Outbox.antt =====
-- The transactional outbox of Knowledge ingestion: the statements of `TaskOutboxRepository`
-- (backend/repositories/task_outbox_repo.py) and the relay
-- (backend/application/knowledge/outbox_relay.py).
pub mod Store
pub mod Checks
pub mod History
pub mod Relay
pub mod Delivery
pub mod Accounts
mod Tests
