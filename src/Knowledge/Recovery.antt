-- ===== src/Knowledge/Recovery.antt =====
-- `KnowledgeIngestionRecoveryService` (backend/services/knowledge_ingestion_recovery_service.py), and
-- the tasks that `TaskService` (backend/services/task_service.py) creates for it. `async with self.uow`
-- commits what its block wrote, or nothing if the block raises.
use dewflow.Base.{
  ℕ, ◌+◌, ◌-◌, ◌*◌, String, Bool, true, false, ◌&&◌, ◌||◌, Option, none, some, List, [], ◌∷◌, ◌==◌,
  ltb, leb, if◌then◌else◌, length, any, str_eq, not, is_some, find,
}
use dewflow.Outbox.Store
use dewflow.Outbox.Store.{
  Result, ok, value_error, TaskOutbox, Rows, new_event, try_prepare_replay, Status, published, dead,
}
use dewflow.Knowledge.Rows.{
  TaskStatus, pending, processing, FileStatus, uploaded, parsing, chunking, ready, failed,
  file_status_eq, TaskJob, File, KnowledgeDb, task_key,
}
use dewflow.Knowledge.Jobs.{
  kb_ingestion, ingestion_event, create, try_reconcile_completed_kb_ingestion_task,
  try_fail_kb_ingestion_task, try_reset_expired_kb_ingestion_task,
  try_fail_expired_kb_ingestion_task, get_stale_kb_ingestion_tasks,
  get_pending_kb_tasks_without_active_outbox,
}
use dewflow.Knowledge.Files.{
  get_file, try_transition_file_status, delete_chunks_for_file, is_active_task,
  get_stale_uploaded_files_without_active_task,
}

-- The block of a unit of work: what it leaves, an exception that its caller counts as a conflict
-- (`_ReconcileConflict`, or the IntegrityError of a new task), or one that goes through the whole recovery
-- (a ValueError, or the IntegrityError of an event alone).
pub data Work (A : Type 0) : Type 0 where
  done : A → Work A
  conflict : Work A
  raised : Work A

infixl 5 ◌>>=◌
abbrev pub ◌>>=◌ : {A B : Type 0} → Work A → (A → Work B) → Work B
done a >>= f = f a
conflict >>= f = conflict
raised >>= f = raised

-- `if not changed: raise _ReconcileConflict`
abbrev pub must : Bool × KnowledgeDb → Work KnowledgeDb
must (true, db) = done db
must (false, db) = conflict

abbrev pub must_replay : KnowledgeDb → Result Bool × Rows → Work KnowledgeDb
must_replay db (ok true, rows) = done (record db { outbox = rows })
must_replay db (ok false, rows) = conflict
must_replay db (value_error, rows) = raised

abbrev pub stale_ingestion_error : String
stale_ingestion_error = "知识文件入库租约超时"

abbrev pub dispatch_exhausted_error : String
dispatch_exhausted_error = "知识文件入库派发预算已耗尽"

abbrev pub missing_file_error : String
missing_file_error = "知识文件记录不存在，任务已终止"

-- The settings; the identifiers that `uuid` draws, the documents that JSON makes of a payload, and the
-- database's time in the unit of work of an item, and the users that are there then.
pub record RecoveryService : Type 0 where
  pub stale_timeout_seconds : ℕ
  pub max_ingestion_attempts : ℕ
  pub max_publish_attempts : ℕ
  pub batch_size : ℕ
  pub fresh_outbox_id : ℕ → ℕ
  pub fresh_task_id : ℕ → ℕ
  pub dispatch_payload : ℕ → ℕ → String
  pub task_payload : File → ℕ → String
  pub clock : ℕ → ℕ
  pub user_exists : ℕ → Bool

-- `KnowledgeIngestionRecoveryResult`
pub record RecoveryResult : Type 0 where
  pub scanned_task_count : ℕ
  pub scanned_orphan_file_count : ℕ
  pub created_task_count : ℕ
  pub created_outbox_count : ℕ
  pub replayed_outbox_count : ℕ
  pub retried_task_count : ℕ
  pub completed_task_count : ℕ
  pub failed_file_count : ℕ
  pub failed_task_count : ℕ
  pub conflict_count : ℕ

abbrev pub scanned : ℕ → ℕ → RecoveryResult
scanned tasks files = record {
  scanned_task_count = tasks;
  scanned_orphan_file_count = files;
  created_task_count = 0;
  created_outbox_count = 0;
  replayed_outbox_count = 0;
  retried_task_count = 0;
  completed_task_count = 0;
  failed_file_count = 0;
  failed_task_count = 0;
  conflict_count = 0;
}

-- What an item is counted as.
pub data Tally : Type 0 where
  created_pair created_outbox replayed retried completed_task failed_file failed_task failed_pair
        conflicted :
      Tally

abbrev pub tally : Tally → RecoveryResult → RecoveryResult
tally created_pair c = record c {
  created_task_count = c.created_task_count + 1;
  created_outbox_count = c.created_outbox_count + 1;
}
tally created_outbox c = record c { created_outbox_count = c.created_outbox_count + 1 }
tally replayed c = record c { replayed_outbox_count = c.replayed_outbox_count + 1 }
tally retried c = record c { retried_task_count = c.retried_task_count + 1 }
tally completed_task c = record c { completed_task_count = c.completed_task_count + 1 }
tally failed_file c = record c { failed_file_count = c.failed_file_count + 1 }
tally failed_task c = record c { failed_task_count = c.failed_task_count + 1 }
tally failed_pair c = record c {
  failed_task_count = c.failed_task_count + 1;
  failed_file_count = c.failed_file_count + 1;
}
tally conflicted c = record c { conflict_count = c.conflict_count + 1 }

abbrev pub Outcome : Type 0
Outcome = Result RecoveryResult × KnowledgeDb

-- the commit of a block, or its rollback to the tables before it
abbrev pub commit : RecoveryResult → KnowledgeDb → Work (Tally × KnowledgeDb) → Outcome
commit c before (done (t, after)) = (ok (tally t c), after)
commit c before conflict = (ok (tally conflicted c), before)
commit c before raised = (value_error, before)

-- a block of one statement, counted by its result
abbrev pub if_changed : Tally → Bool × KnowledgeDb → Work (Tally × KnowledgeDb)
if_changed t (true, after) = done (t, after)
if_changed t (false, after) = done (conflicted, after)

abbrev pub if_completed : Result Bool × KnowledgeDb → Work (Tally × KnowledgeDb)
if_completed (ok b, after) = if_changed completed_task (b, after)
if_completed (value_error, after) = raised

abbrev pub lookup_event : ℕ → Rows → Option TaskOutbox
lookup_event task_id [] = none
lookup_event task_id (o ∷ os) =
    if o.task_id == task_id && str_eq o.event_type ingestion_event
    then some o
    else lookup_event task_id os

-- `get_for_task_event`
unfoldable pub get_for_task_event : ℕ → KnowledgeDb → Option TaskOutbox
get_for_task_event task_id db = lookup_event task_id db.outbox

abbrev pub file_of : Option ℕ → KnowledgeDb → Option File
file_of none db = none
file_of (some file_id) db = get_file file_id db

abbrev pub has_task : ℕ → KnowledgeDb → Bool
has_task task_id db = is_some (find task_key task_id db.tasks)

abbrev pub unsettled : List FileStatus
unsettled = uploaded ∷ parsing ∷ chunking ∷ []

module _ (self : RecoveryService) where
  abbrev pub legacy_older_than : ℕ → ℕ
  legacy_older_than now = now - self.stale_timeout_seconds * 1000000

  -- The foreign key `task_outbox.task_id` refuses an event of a task that is gone.
  unfoldable pub create_outbox : ℕ → ℕ → ℕ → KnowledgeDb → Work KnowledgeDb
  unfolding new_event
  create_outbox task_id file_id now db =
      if has_task task_id db
      then done (record db {
        outbox =
            new_event (self.fresh_outbox_id task_id) task_id ingestion_event
              (self.dispatch_payload file_id task_id) now
            ∷ db.outbox;
      })
      else raised

  abbrev pub is_settled_event : Status → Bool
  is_settled_event s = Store.status_eq s published || Store.status_eq s dead

  -- by the outbox event that the task has
  abbrev pub prepare_event :
      Option TaskOutbox → TaskJob → ℕ → ℕ → Bool → KnowledgeDb → Work KnowledgeDb
  prepare_event none task file_id now reset db = create_outbox task.id file_id now db
  prepare_event (some o) task file_id now reset db =
      if is_settled_event o.status
      then must_replay db (try_prepare_replay o.id o.status o.attempt_count now reset db.outbox)
      else done db

  unfoldable pub prepare_task_outbox : TaskJob → ℕ → ℕ → Bool → KnowledgeDb → Work KnowledgeDb
  prepare_task_outbox task file_id now reset_publish_attempts db =
      prepare_event (get_for_task_event task.id db) task file_id now reset_publish_attempts db

  unfoldable pub fail_task_only : TaskJob → String → ℕ → RecoveryResult → KnowledgeDb → Outcome
  fail_task_only task error_log now c db = commit c db (
      if_changed failed_task (
        try_fail_kb_ingestion_task (self.clock task.id) task.id (pending ∷ processing ∷ [])
          (some task.attempt_count) error_log now db))

  -- the task has failed; its file fails with it
  unfoldable pub fail_file_too : TaskJob → File → KnowledgeDb → Work (Tally × KnowledgeDb)
  fail_file_too task file db = do
    db' ← must (
        try_transition_file_status (self.clock task.id) file.id unsettled failed
          (delete_chunks_for_file file.id db))
    done (failed_pair, db')

  unfoldable pub fail_expired_pair : TaskJob → File → ℕ → RecoveryResult → KnowledgeDb → Outcome
  fail_expired_pair task file now c db = commit c db (do
    db' ← must (
        try_fail_expired_kb_ingestion_task (self.clock task.id) task.id task.attempt_count now
          (legacy_older_than now) stale_ingestion_error now db)
    fail_file_too task file db')

  unfoldable pub retry_pair : TaskJob → File → ℕ → RecoveryResult → KnowledgeDb → Outcome
  retry_pair task file now c db = commit c db (do
    db' ← must (
        try_reset_expired_kb_ingestion_task (self.clock task.id) task.id task.attempt_count now
          (legacy_older_than now) stale_ingestion_error db)
    db'' ← must (
        try_transition_file_status (self.clock task.id) file.id (file.status ∷ []) uploaded
          (delete_chunks_for_file file.id db'))
    db''' ← prepare_task_outbox task file.id now true db''
    done (retried, db'''))

  unfoldable pub complete_task : TaskJob → TaskStatus → ℕ → RecoveryResult → KnowledgeDb → Outcome
  complete_task task expected_status now c db = commit c db (
      if_completed (
        try_reconcile_completed_kb_ingestion_task (self.clock task.id) task.id expected_status
          task.attempt_count now db))

  -- by the file that the task names, read before its unit of work
  unfoldable pub reconcile_processing_task :
      Option File → TaskJob → ℕ → RecoveryResult → KnowledgeDb → Outcome
  reconcile_processing_task none task now c db = fail_task_only task missing_file_error now c db
  reconcile_processing_task (some file) task now c db =
      if file_status_eq file.status ready
      then complete_task task processing now c db
      else if file_status_eq file.status failed
      then fail_task_only task stale_ingestion_error now c db
      else if leb self.max_ingestion_attempts task.attempt_count
      then fail_expired_pair task file now c db
      else retry_pair task file now c db

  -- by the outbox event that the task has
  abbrev pub redispatch :
      Option TaskOutbox → TaskJob → File → ℕ → KnowledgeDb → Work (Tally × KnowledgeDb)
  redispatch none task file now db =
      create_outbox task.id file.id now db >>= λ db'. done (created_outbox, db')
  redispatch (some o) task file now db =
      if Store.status_eq o.status published && ltb o.attempt_count self.max_publish_attempts
      then (must_replay db (try_prepare_replay o.id published o.attempt_count now false db.outbox)
          >>= λ db'. done (replayed, db'))
      else (must (
            try_fail_kb_ingestion_task (self.clock task.id) task.id (pending ∷ [])
              (some task.attempt_count) dispatch_exhausted_error now db)
          >>= λ db'. fail_file_too task file db')

  unfoldable pub reconcile_pending_task :
      Option File → TaskJob → ℕ → RecoveryResult → KnowledgeDb → Outcome
  reconcile_pending_task none task now c db = fail_task_only task missing_file_error now c db
  reconcile_pending_task (some file) task now c db =
      if file_status_eq file.status ready
      then complete_task task pending now c db
      else if file_status_eq file.status failed
      then fail_task_only task stale_ingestion_error now c db
      else commit c db (redispatch (get_for_task_event task.id db) task file now db)

  -- `create_kb_ingestion_task` of `TaskService`
  unfoldable pub new_task : File → ℕ → TaskJob
  new_task file user_id = record {
    id = self.fresh_task_id file.id;
    action_type = kb_ingestion;
    status = pending;
    progress = 0;
    payload = self.task_payload file user_id;
    error_log = none;
    knowledge_file_id = some file.id;
    knowledge_base_id = some file.kb_id;
    attempt_count = 0;
    user_id = some user_id;
    started_at = none;
    finished_at = none;
    heartbeat_at = none;
    lease_expires_at = none;
    updated_at = self.clock file.id;
  }

  -- `except IntegrityError`
  abbrev pub refused_as_conflict : Work (Tally × KnowledgeDb) → Work (Tally × KnowledgeDb)
  refused_as_conflict (done out) = done out
  refused_as_conflict _ = conflict

  -- The foreign keys of `task_jobs` refuse a task of a file or a user that is gone (the knowledge base of
  -- a file is there as long as the file), and the index `uq_task_jobs_active_knowledge_file` a second
  -- active task of a file.
  abbrev pub adopt : Option ℕ → File → ℕ → KnowledgeDb → Work (Tally × KnowledgeDb)
  adopt none file now db =
      if_changed failed_file
        (try_transition_file_status (self.clock file.id) file.id (uploaded ∷ []) failed db)
  adopt (some owner_id) file now db =
      if not (is_some (get_file file.id db))
        || not (self.user_exists owner_id)
        || any (is_active_task file.id) db.tasks
      then conflict
      else refused_as_conflict (
          create_outbox (self.fresh_task_id file.id) file.id now
            (create (new_task file owner_id) db)
          >>= λ db'. done (created_pair, db'))

  unfoldable pub reconcile_orphan_file : File → ℕ → RecoveryResult → KnowledgeDb → Outcome
  reconcile_orphan_file file now c db = commit c db (adopt file.owner_id file now db)

  -- Others change the tables before an item (`before_task`, `before_file`), and between the read of
  -- its file and its unit of work (`between`).
  module _ (before_task between : TaskJob → KnowledgeDb → KnowledgeDb)
      (before_file : File → KnowledgeDb → KnowledgeDb) where
    abbrev pub go_on : Outcome → (RecoveryResult → KnowledgeDb → Outcome) → Outcome
    go_on (ok c, db) rest = rest c db
    go_on (value_error, db) rest = (value_error, db)

    unfoldable pub reconcile_processing_tasks :
        List TaskJob → ℕ → RecoveryResult → KnowledgeDb → Outcome
    reconcile_processing_tasks [] now c db = (ok c, db)
    reconcile_processing_tasks (t ∷ ts) now c db =
        go_on
          (reconcile_processing_task (file_of t.knowledge_file_id (before_task t db)) t now c
            (between t (before_task t db)))
          (λ c' after. reconcile_processing_tasks ts now c' after)

    unfoldable pub reconcile_pending_tasks :
        List TaskJob → ℕ → RecoveryResult → KnowledgeDb → Outcome
    reconcile_pending_tasks [] now c db = (ok c, db)
    reconcile_pending_tasks (t ∷ ts) now c db =
        go_on
          (reconcile_pending_task (file_of t.knowledge_file_id (before_task t db)) t now c
            (between t (before_task t db)))
          (λ c' after. reconcile_pending_tasks ts now c' after)

    unfoldable pub reconcile_orphan_files : List File → ℕ → RecoveryResult → KnowledgeDb → Outcome
    reconcile_orphan_files [] now c db = (ok c, db)
    reconcile_orphan_files (f ∷ fs) now c db =
        go_on (reconcile_orphan_file f now c (before_file f db))
          (λ c' after. reconcile_orphan_files fs now c' after)

    abbrev pub reconcile_scanned :
        Result (List TaskJob)
        → Result (List TaskJob)
        → Result (List File)
        → ℕ
        → KnowledgeDb
        → Outcome
    reconcile_scanned (ok stale) (ok gaps) (ok orphans) now db =
        go_on
          (reconcile_processing_tasks stale now
            (scanned (length stale + length gaps) (length orphans)) db)
          (λ c db'.
            go_on (reconcile_pending_tasks gaps now c db')
              (λ c' db''. reconcile_orphan_files orphans now c' db''))
    reconcile_scanned _ _ _ now db = (value_error, db)

    unfoldable pub recover_stale_ingestions : ℕ → KnowledgeDb → Outcome
    recover_stale_ingestions now db =
        reconcile_scanned
          (get_stale_kb_ingestion_tasks now (legacy_older_than now) self.batch_size db)
          (get_pending_kb_tasks_without_active_outbox (legacy_older_than now) self.batch_size db)
          (get_stale_uploaded_files_without_active_task (legacy_older_than now) self.batch_size db)
          now db
