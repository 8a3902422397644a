-- ===== src/Knowledge.antt =====
-- The ingestion of Knowledge files: the tables of files, chunks and tasks, the statements of
-- `TaskRepository` and `KnowledgeRepository`, the ingestion of one file by a worker
-- (backend/application/knowledge/ingestion_workflow.py), the recovery of stale ingestions
-- (backend/services/knowledge_ingestion_recovery_service.py) and the replay of a dead event
-- (backend/application/knowledge/outbox_relay.py).
pub mod Rows
pub mod Jobs
pub mod Files
pub mod Index
pub mod Ingestion
pub mod Recovery
pub mod Worker
pub mod Replay
pub mod Indexed
pub mod Units
pub mod Batches
pub mod Leaves
pub mod Recovered
pub mod Present
pub mod Ingested
pub mod Replayed
pub mod History
pub mod Settles
pub mod Settled
pub mod Counts
pub mod Accounts
pub mod Held
pub mod Workflow
pub mod Claimed
pub mod Completed
pub mod Fences
pub mod Dispatched
pub mod Revived
pub mod Overtaken
mod Tests
