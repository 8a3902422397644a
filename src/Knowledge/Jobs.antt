-- ===== src/Knowledge/Jobs.antt =====
-- The statements of `TaskRepository` (backend/repositories/task_repo.py): each is a condition, an
-- assignment and the method. `clock` is the database's time, which `onupdate` writes to `updated_at`.
use dewflow.Base.{
  ℕ, ◌+◌, String, Bool, true, ◌&&◌, ◌||◌, not, Option, none, some, List, [], ◌∷◌, ltb, leb, ◌==◌,
  if◌then◌else◌, is_none, is_some, num_is, str_eq, due_by, any, keep, take, update_where, returning,
  find, order_by,
}
use dewflow.Outbox.Store.{Result, ok, value_error, clip, Status, TaskOutbox}
use dewflow.Outbox.Store
use dewflow.Knowledge.Rows.{
  TaskStatus, pending, processing, completed, failed, task_status_eq, TaskJob, KnowledgeDb,
  task_key, one_of_tasks,
}

abbrev pub kb_ingestion : String
kb_ingestion = "KB_INGESTION"

-- `KNOWLEDGE_INGESTION_EVENT`
abbrev pub ingestion_event : String
ingestion_event = "knowledge.ingestion.requested"

-- One UPDATE of task_jobs: the row that RETURNING gives, and the tables after it.
unfoldable pub execute :
    (TaskJob → Bool) → (TaskJob → TaskJob) → KnowledgeDb → Option TaskJob × KnowledgeDb
execute guard assign db =
    (returning guard assign db.tasks, record db { tasks = update_where guard assign db.tasks })

-- the statements' result as a Boolean
abbrev pub done : Option TaskJob × KnowledgeDb → Bool × KnowledgeDb
done (row, db) = (is_some row, db)

unfoldable pub get : ℕ → KnowledgeDb → Option TaskJob
get task_id db = find task_key task_id db.tasks

unfoldable pub create : TaskJob → KnowledgeDb → KnowledgeDb
create task db = record db { tasks = task ∷ db.tasks }

-- the general transition of a task, and its three uses
unfoldable pub transition_guard : ℕ → List TaskStatus → TaskJob → Bool
transition_guard task_id expected t = t.id == task_id && one_of_tasks expected t.status

unfoldable pub mark_completed : ℕ → ℕ → ℕ → ℕ → KnowledgeDb → Option TaskJob × KnowledgeDb
mark_completed clock task_id progress now db =
    execute (transition_guard task_id (processing ∷ []))
      (λ t. record t {
        status = completed;
        progress = progress;
        finished_at = some now;
        lease_expires_at = none;
        updated_at = clock;
      })
      db

unfoldable pub mark_failed : ℕ → ℕ → String → ℕ → KnowledgeDb → Option TaskJob × KnowledgeDb
mark_failed clock task_id error_log now db =
    execute (transition_guard task_id (pending ∷ processing ∷ []))
      (λ t. record t {
        status = failed;
        progress = 0;
        error_log = some error_log;
        finished_at = some now;
        lease_expires_at = none;
        updated_at = clock;
      })
      db

unfoldable pub mark_processing : ℕ → ℕ → ℕ → ℕ → KnowledgeDb → Option TaskJob × KnowledgeDb
mark_processing clock task_id progress now db =
    execute (transition_guard task_id (pending ∷ []))
      (λ t. record t {
        status = processing;
        progress = progress;
        started_at = some now;
        heartbeat_at = some now;
        updated_at = clock;
      })
      db

abbrev kb_job : ℕ → TaskJob → Bool
kb_job task_id t = t.id == task_id && str_eq t.action_type kb_ingestion

unfoldable pub claim_guard : ℕ → ℕ → TaskJob → Bool
claim_guard task_id file_id t =
    kb_job task_id t && num_is t.knowledge_file_id file_id && task_status_eq t.status pending

unfoldable pub claim_assign : ℕ → ℕ → ℕ → TaskJob → TaskJob
claim_assign clock claimed_at lease_expires_at t = record t {
  status = processing;
  progress = 5;
  attempt_count = t.attempt_count + 1;
  error_log = none;
  started_at = some claimed_at;
  finished_at = none;
  heartbeat_at = some claimed_at;
  lease_expires_at = some lease_expires_at;
  updated_at = clock;
}

abbrev attempt_of : Option TaskJob → Option ℕ
attempt_of none = none
attempt_of (some t) = some t.attempt_count

unfoldable pub try_claim_kb_ingestion_task :
    ℕ → ℕ → ℕ → ℕ → ℕ → KnowledgeDb → Option ℕ × KnowledgeDb
try_claim_kb_ingestion_task clock task_id file_id claimed_at lease_expires_at db =
    let (row, db') =
      execute (claim_guard task_id file_id) (claim_assign clock claimed_at lease_expires_at) db in
    (attempt_of row, db')

-- The fence of the worker that holds an attempt.
unfoldable pub attempt_guard : TaskStatus → ℕ → ℕ → TaskJob → Bool
attempt_guard status task_id expected_attempt t =
    kb_job task_id t && task_status_eq t.status status && t.attempt_count == expected_attempt

unfoldable pub heartbeat_assign : ℕ → ℕ → ℕ → TaskJob → TaskJob
heartbeat_assign clock heartbeat_at lease_expires_at t = record t {
  heartbeat_at = some heartbeat_at;
  lease_expires_at = some lease_expires_at;
  updated_at = clock;
}

unfoldable pub try_heartbeat_kb_ingestion_task :
    ℕ → ℕ → ℕ → ℕ → ℕ → KnowledgeDb → Bool × KnowledgeDb
try_heartbeat_kb_ingestion_task clock task_id expected_attempt heartbeat_at lease_expires_at db =
    done (
      execute (attempt_guard processing task_id expected_attempt)
        (heartbeat_assign clock heartbeat_at lease_expires_at) db)

unfoldable pub complete_assign : ℕ → ℕ → TaskJob → TaskJob
complete_assign clock finished_at t = record t {
  status = completed;
  progress = 100;
  finished_at = some finished_at;
  heartbeat_at = some finished_at;
  lease_expires_at = none;
  error_log = none;
  updated_at = clock;
}

unfoldable pub try_complete_kb_ingestion_task : ℕ → ℕ → ℕ → ℕ → KnowledgeDb → Bool × KnowledgeDb
try_complete_kb_ingestion_task clock task_id expected_attempt finished_at db = done (
    execute (attempt_guard processing task_id expected_attempt) (complete_assign clock finished_at)
      db)

-- The method refuses a status that is not PENDING or PROCESSING; both callers name one of these.
unfoldable pub try_reconcile_completed_kb_ingestion_task :
    ℕ → ℕ → TaskStatus → ℕ → ℕ → KnowledgeDb → Result Bool × KnowledgeDb
try_reconcile_completed_kb_ingestion_task clock task_id expected_status expected_attempt finished_at
      db =
    if one_of_tasks (pending ∷ processing ∷ []) expected_status
    then (let (completed_one, db') = done (
          execute (attempt_guard expected_status task_id expected_attempt)
            (complete_assign clock finished_at) db) in
        (ok completed_one, db'))
    else (value_error, db)

-- back to the queue
unfoldable pub requeue_assign : ℕ → Option String → TaskJob → TaskJob
requeue_assign clock error_log t = record t {
  status = pending;
  progress = 0;
  error_log = error_log;
  started_at = none;
  finished_at = none;
  heartbeat_at = none;
  lease_expires_at = none;
  updated_at = clock;
}

unfoldable pub try_prepare_failed_kb_ingestion_replay : ℕ → ℕ → ℕ → KnowledgeDb → Bool × KnowledgeDb
try_prepare_failed_kb_ingestion_replay clock task_id expected_attempt db =
    done (execute (attempt_guard failed task_id expected_attempt) (requeue_assign clock none) db)

abbrev attempt_fits : Option ℕ → ℕ → Bool
attempt_fits none attempt = true
attempt_fits (some expected) attempt = attempt == expected

unfoldable pub fail_guard : ℕ → List TaskStatus → Option ℕ → TaskJob → Bool
fail_guard task_id expected_statuses expected_attempt t =
    kb_job task_id t
    && one_of_tasks expected_statuses t.status
    && attempt_fits expected_attempt t.attempt_count

unfoldable pub fail_assign : ℕ → String → ℕ → TaskJob → TaskJob
fail_assign clock error_log finished_at t = record t {
  status = failed;
  progress = 0;
  error_log = some (clip 5000 error_log);
  finished_at = some finished_at;
  lease_expires_at = none;
  updated_at = clock;
}

unfoldable pub try_fail_kb_ingestion_task :
    ℕ → ℕ → List TaskStatus → Option ℕ → String → ℕ → KnowledgeDb → Bool × KnowledgeDb
try_fail_kb_ingestion_task clock task_id expected_statuses expected_attempt error_log finished_at
      db =
    done (
      execute (fail_guard task_id expected_statuses expected_attempt)
        (fail_assign clock error_log finished_at) db)

-- The lease has run out; a task without one counts from its last change.
abbrev is_expired : ℕ → ℕ → TaskJob → Bool
is_expired lease_expired_before legacy_updated_before t =
    due_by t.lease_expires_at lease_expired_before
    || is_none t.lease_expires_at && leb t.updated_at legacy_updated_before

unfoldable pub expired_guard : ℕ → ℕ → ℕ → ℕ → TaskJob → Bool
unfolding attempt_guard
expired_guard task_id expected_attempt lease_expired_before legacy_updated_before t =
    attempt_guard processing task_id expected_attempt t
    && is_expired lease_expired_before legacy_updated_before t

unfoldable pub try_reset_expired_kb_ingestion_task :
    ℕ → ℕ → ℕ → ℕ → ℕ → String → KnowledgeDb → Bool × KnowledgeDb
try_reset_expired_kb_ingestion_task clock task_id expected_attempt lease_expired_before
      legacy_updated_before error_log db =
    done (
      execute (expired_guard task_id expected_attempt lease_expired_before legacy_updated_before)
        (requeue_assign clock (some (clip 5000 error_log))) db)

unfoldable pub try_fail_expired_kb_ingestion_task :
    ℕ → ℕ → ℕ → ℕ → ℕ → String → ℕ → KnowledgeDb → Bool × KnowledgeDb
try_fail_expired_kb_ingestion_task clock task_id expected_attempt lease_expired_before
      legacy_updated_before error_log finished_at db =
    done (
      execute (expired_guard task_id expected_attempt lease_expired_before legacy_updated_before)
        (fail_assign clock error_log finished_at) db)

-- `ORDER BY updated_at, id`
abbrev task_precedes : TaskJob → TaskJob → Bool
task_precedes a b = ltb a.updated_at b.updated_at || a.updated_at == b.updated_at && ltb a.id b.id

abbrev pub bad_limit : ℕ → Bool
bad_limit limit = ltb limit 1 || ltb 500 limit

unfoldable pub get_stale_kb_ingestion_tasks : ℕ → ℕ → ℕ → KnowledgeDb → Result (List TaskJob)
unfolding order_by
get_stale_kb_ingestion_tasks due_at legacy_older_than limit db =
    if bad_limit limit
    then value_error
    else ok (
        take limit (
          order_by task_precedes (
            keep
              (λ t.
                str_eq t.action_type kb_ingestion
                && task_status_eq t.status processing
                && is_expired due_at legacy_older_than t)
              db.tasks)))

abbrev pub is_active_event : ℕ → TaskOutbox → Bool
is_active_event task_id o =
    o.task_id == task_id
    && str_eq o.event_type ingestion_event
    && (Store.status_eq o.status Status.pending || Store.status_eq o.status Status.publishing)

unfoldable pub get_pending_kb_tasks_without_active_outbox :
    ℕ → ℕ → KnowledgeDb → Result (List TaskJob)
unfolding order_by
get_pending_kb_tasks_without_active_outbox older_than limit db =
    if bad_limit limit
    then value_error
    else ok (
        take limit (
          order_by task_precedes (
            keep
              (λ t.
                str_eq t.action_type kb_ingestion
                && task_status_eq t.status pending
                && is_some t.knowledge_file_id
                && leb t.updated_at older_than
                && not (any (is_active_event t.id) db.outbox))
              db.tasks)))
