-- ===== src/Knowledge/Worker.antt =====
-- The worker's task `_ingest_knowledge_file_task` (backend/worker/tasks/knowledge_tasks.py): claim,
-- heartbeat, ingest, complete. The renewals that `IngestionLeaseHeartbeat` makes in the background are
-- among what happens between the units of work.
use dewflow.Base.{
  ℕ, ◌+◌, ◌*◌, String, Bool, true, false, ◌&&◌, Option, none, some, [], ◌∷◌, if◌then◌else◌, num_is,
  str_eq, not,
}
use dewflow.Knowledge.Rows.{pending, processing, completed, task_status_eq, TaskJob, KnowledgeDb}
use dewflow.Knowledge.Jobs.{
  kb_ingestion, get, try_claim_kb_ingestion_task, try_heartbeat_kb_ingestion_task,
  try_complete_kb_ingestion_task, try_fail_kb_ingestion_task,
}
use dewflow.Knowledge.Index.{
  Failure, app_exception, file_not_found_error, other_exception, Result, ok, err,
}
use dewflow.Knowledge.Ingestion.{IngestionWorkflow, ingest_file}

-- `message_of` is the text that an exception of a code carries.
pub record IngestionWorker : Type 0 where
  pub workflow : IngestionWorkflow
  pub message_of : String → String

abbrev is_duplicate_of : ℕ → Option TaskJob → Bool
is_duplicate_of file_id none = false
is_duplicate_of file_id (some t) =
    str_eq t.action_type kb_ingestion
    && num_is t.knowledge_file_id file_id
    && not (task_status_eq t.status pending)

-- `_is_duplicate_delivery`: any status but PENDING
unfoldable pub is_duplicate_delivery : ℕ → ℕ → KnowledgeDb → Bool
is_duplicate_delivery task_id file_id db = is_duplicate_of file_id (get task_id db)

abbrev is_completed_job : Option TaskJob → Bool
is_completed_job none = false
is_completed_job (some t) = task_status_eq t.status completed

unfoldable pub task_is_completed : ℕ → KnowledgeDb → Bool
task_is_completed task_id db = is_completed_job (get task_id db)

module _ (self : IngestionWorker) where
  abbrev pub lease : ℕ → ℕ
  lease now = now + self.workflow.lease_seconds * 1000000

  abbrev pub error_log_of : Failure → String
  error_log_of (app_exception code) = self.message_of code
  error_log_of file_not_found_error = "知识文件处理失败，请稍后重试"
  error_log_of other_exception = "知识文件处理失败，请稍后重试"

  -- `safe_mark_failed` of a claimed attempt
  unfoldable pub safe_mark_failed : ℕ → ℕ → Failure → ℕ → KnowledgeDb → KnowledgeDb
  safe_mark_failed task_id attempt e now db =
      (try_fail_kb_ingestion_task now task_id (processing ∷ []) (some attempt) (error_log_of e) now
        db).1

  module _ (task_id file_id : ℕ) (meanwhile : ℕ → KnowledgeDb → KnowledgeDb) (later : ℕ → ℕ) where
    abbrev pub failing : ℕ → Failure → KnowledgeDb → Result (Unit {0}) × KnowledgeDb
    failing attempt e db = (err e, safe_mark_failed task_id attempt e (later 5) (meanwhile 5 db))

    abbrev after_complete : ℕ → Bool × KnowledgeDb → Result (Unit {0}) × KnowledgeDb
    after_complete attempt (true, db) = (ok tt, db)
    after_complete attempt (false, db) =
        if task_is_completed task_id (meanwhile 4 db)
        then (ok tt, meanwhile 4 db)
        else failing attempt (app_exception "KNOWLEDGE_TASK_TERMINAL_REJECTED") (meanwhile 4 db)

    abbrev after_ingest : ℕ → Result (Unit {0}) × KnowledgeDb → Result (Unit {0}) × KnowledgeDb
    after_ingest attempt (ok u, db) =
        after_complete attempt
          (try_complete_kb_ingestion_task (later 3) task_id attempt (later 3) (meanwhile 3 db))
    after_ingest attempt (err e, db) = failing attempt e db

    abbrev after_heartbeat : ℕ → Bool × KnowledgeDb → Result (Unit {0}) × KnowledgeDb
    after_heartbeat attempt (true, db) = after_ingest attempt (
        ingest_file self.workflow
          (record { task_id = some task_id; expected_attempt = some attempt }) file_id meanwhile
          later (meanwhile 0 db))
    after_heartbeat attempt (false, db) =
        failing attempt (app_exception "KNOWLEDGE_TASK_LEASE_LOST") db

    abbrev pub after_claim : Option ℕ × KnowledgeDb → Result (Unit {0}) × KnowledgeDb
    after_claim (none, db) =
        if is_duplicate_delivery task_id file_id (meanwhile 6 db)
        then (ok tt, meanwhile 6 db)
        else (err (app_exception "KNOWLEDGE_TASK_CLAIM_REJECTED"), meanwhile 6 db)
    after_claim (some attempt, db) = after_heartbeat attempt (
        try_heartbeat_kb_ingestion_task (later 6) task_id attempt (later 6) (lease (later 6))
          (meanwhile 6 db))

    unfoldable pub ingest_knowledge_file_task : ℕ → KnowledgeDb → Result (Unit {0}) × KnowledgeDb
    ingest_knowledge_file_task now db =
        after_claim (try_claim_kb_ingestion_task now task_id file_id now (lease now) db)
