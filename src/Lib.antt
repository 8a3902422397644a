-- ===== src/Lib.antt =====
-- Dewflow: the rules that keep its asynchronous work consistent.
--
-- Dewflow answers chat questions over a knowledge base. A web process accepts a question, writes a
-- generation request and hands it to a task broker; a worker claims the request, generates the answer
-- and finalises it; a periodic recovery settles what a crashed process left behind. Files of the
-- knowledge base are ingested by tasks that a transactional outbox hands to the broker. Calls of
-- external services stand behind a circuit breaker, and prompts are cut to a token budget. Sessions and
-- files belong to workspaces, whose members have roles.
--
-- Base: names that all modules share; lists, sorting, blank texts, and a table as the list of its
--   rows with `UPDATE ... WHERE ... RETURNING` (Base/Table.antt).
-- Generation: the requests of a chat answer.
--   Row, Args, Scope: the tables of backend/models/orm/chat.py and backend/models/orm/access.py, the
--     arguments of the statements, and `_generation_request_actor_scope`.
--   Dispatch, Worker, Message: the statements of `ChatRepository` (backend/repositories/chat_repo.py),
--     each as its condition (`..._guard`), its assignment (`..._assign`) and the method.
--   Recovery, Scan: `ChatGenerationRecoveryService` (backend/application/chat/generation_recovery.py)
--     and the due query.
--   Checks, History, Invariant, Bounds, Keys, Progress, Fences, FailDue, Settle, Accounts, Due: proofs.
-- Outbox: the outbox of Knowledge ingestion.
--   Store: the table of backend/models/orm/task.py and the statements of `TaskOutboxRepository`
--     (backend/repositories/task_outbox_repo.py).
--   Relay: `KnowledgeOutboxRelayService` (backend/application/knowledge/outbox_relay.py).
--   Checks, History, Delivery, Accounts: proofs.
-- Knowledge: the ingestion of files.
--   Rows: the tables of backend/models/orm/task.py, knowledge.py and chunk.py, with the outbox.
--   Jobs: the statements of `TaskRepository` (backend/repositories/task_repo.py), each as its condition
--     (`..._guard`), its assignment (`..._assign`) and the method. Files: those on files and chunks of
--     `KnowledgeRepository` (backend/repositories/knowledge_repo.py).
--   Index: the records of a file's chunks (backend/services/vector_index_service.py).
--   Ingestion: `KnowledgeRAGWorkflow.ingest_file`
--     (backend/application/knowledge/ingestion_workflow.py) as its three units of work. Worker:
--     `_ingest_knowledge_file_task` (backend/worker/tasks/knowledge_tasks.py) around it.
--   Recovery: `KnowledgeIngestionRecoveryService`
--     (backend/services/knowledge_ingestion_recovery_service.py); a block of a unit of work is a value
--     of `Work`, and `commit` keeps what it wrote or the tables before it. Replay: `replay_dead` of the
--     relay (backend/application/knowledge/outbox_relay.py).
--   Proofs. Leaves, Recovered: what an item of the recovery keeps, given what its statements keep (the
--     record Kept). Indexed, Units, Ingested, Replayed, History: files and index agree. Present: the
--     tasks of a scan stay.
--     Batches: the records. Held, Workflow, Claimed, Completed: a whole run of the worker. Fences: the
--     attempts of a task. Settles, Settled, Counts, Accounts: the counters of the recovery. Dispatched,
--     Revived: its retry. Overtaken: a pending task whose event is live again.
-- Circuit: `CircuitBreaker` (backend/core/circuit_breaker.py); Breaker its methods, History the proofs.
-- Budget: `ContextBudgeter` (backend/ai/core/context_budgeter.py); Budgeter the allocation, the other
--   files the proofs.
-- Credit: the accounts of backend/models/orm/credits.py. Ledger: the statements of `CreditRepository`
--   (backend/repositories/credit_repo.py) that expiry uses; Expiry: `expire_credits_for_account`
--   (backend/services/credit_service.py); Spend: `spend_for_model_usage` of the same file, with the
--   quota of backend/repositories/user_repo.py; Settled, Books and Spent: proofs.
-- Workspace: workspaces and their members. Rows: the tables of backend/models/orm/access.py and the
--   statements of `AccessRepository` (backend/repositories/access_repo.py); Permissions: the policy
--   (backend/config/permissions.py) and `PermissionService` (backend/services/permission_service.py);
--   Service, Members: `WorkspaceService` (backend/services/workspace_service.py), where the checks of
--   a member's change and its write are apart; History: requests one after the other. Owners, Checked,
--   Writes, Owned, Rights, Outsiders, Races: proofs.
-- Window: the history that goes into a prompt. Tokens: backend/utils/token_estimation.py; Compressor:
--   backend/ai/core/message_compressor.py; Builder: backend/ai/core/live_window_builder.py; Rounds, Fits,
--   Summary: proofs.
-- Citation: backend/services/citation_validator.py. Markers: the regular expression and the cleaning of a
--   text; Streaming: `validate_citations` and `StreamingCitationFilter`; Cuts, Tails, Equivalence: proofs.
-- Chunking: backend/services/chunking_service.py. Blocks: the paragraphs of a text; Markdown: the sections
--   of a Markdown text and `split_text`; Service: the rest; Windows, Sizes: proofs.
--
-- A statement of a repository is one step on the tables, as PostgreSQL executes it on one row; what
-- other processes do between two units of work is arbitrary in the theorems about histories and scans,
-- and an argument (`meanwhile`, `before_task`, `between`) of a workflow of several units. UUIDs are
-- numbers, times are numbers of microseconds, and texts are the strings themselves, or, where code cuts
-- them, the lists of their code points (Base/Characters.antt). A unit of work that
-- ends in an exception leaves the tables as it found them. The foreign keys of `task_jobs` and
-- `task_outbox` are checked where the recovery inserts rows, so an event of a deleted task raises there. Every loop runs over a list, but for the
-- batches of Knowledge/Index.antt, which have the number of chunks as fuel, and each takes one or more,
-- and the windows of Chunking/Service.antt, which have the length of the text.
-- The broker, pydantic's validation, the drawing of UUIDs, the time that the database writes
-- (`clock`), the extraction and chunking of a text and the embedder are arguments of the definitions
-- that use them; only the theorem about batches asks of one of them, that the embedder works text by
-- text.
--
-- Not modelled: the HTTP layer, the providers of models and embeddings, the retrieval of documents and
-- the web and worker workflows of chat, the upload of files to the object store, the extraction of
-- their text, user accounts, the earning of credits, logs and traces.
pub mod Base
pub mod Generation
pub mod Outbox
pub mod Circuit
pub mod Budget
pub mod Credit
pub mod Knowledge
pub mod Workspace
pub mod Window
pub mod Citation
pub mod Chunking
