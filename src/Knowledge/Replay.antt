-- ===== src/Knowledge/Replay.antt =====
-- `KnowledgeOutboxRelayService.replay_dead` (backend/application/knowledge/outbox_relay.py): one unit
-- of work that brings a dead event, and a failed task and file with it, back to their start.
use dewflow.Base.{
  ℕ, String, Bool, true, false, ◌&&◌, Option, none, some, [], ◌∷◌, ◌==◌, if◌then◌else◌, any, find,
}
use dewflow.Outbox.Store
use dewflow.Outbox.Store.{TaskOutbox, Rows, try_prepare_replay, dead}
use dewflow.Knowledge.Rows.{
  TaskStatus, FileStatus, uploaded, task_status_eq, file_status_eq, TaskJob, File, KnowledgeDb,
}
use dewflow.Knowledge.Jobs.{get, try_prepare_failed_kb_ingestion_replay}
use dewflow.Knowledge.Files.{
  get_file, try_transition_file_status, delete_chunks_for_file, is_active_task,
}
use dewflow.Knowledge.Recovery.{Work, done, conflict, raised, ◌>>=◌, must, must_replay}

-- `read_payload` is pydantic's reading of a payload: the task and the file that it names.
pub record DispatchPayload : Type 0 where
  pub task_id : ℕ
  pub file_id : ℕ

abbrev pub outbox_key : TaskOutbox → ℕ
outbox_key o = o.id

-- `if value is None: raise _ReplayConflict`
abbrev pub found : {A : Type 0} → Option A → Work A
found none = conflict
found (some a) = done a

-- `if not b: raise _ReplayConflict`
abbrev pub require : Bool → Work (Unit {0})
require true = done tt
require false = conflict

module _ (read_payload : String → Option DispatchPayload) where
  -- The task goes back to PENDING: the index of active tasks refuses it beside another of its file,
  -- with an IntegrityError that nothing here catches.
  abbrev pub reopen : Option ℕ → KnowledgeDb → Bool × KnowledgeDb → Work KnowledgeDb
  reopen (some file_id) before (true, db) =
      if any (is_active_task file_id) before.tasks then raised else done db
  reopen none before (true, db) = done db
  reopen file_id before (false, db) = conflict

  abbrev pub reset_pair : TaskJob → File → ℕ → KnowledgeDb → Work KnowledgeDb
  reset_pair task file now db = require (file_status_eq file.status FileStatus.failed) >>= λ u.
      reopen task.knowledge_file_id db
        (try_prepare_failed_kb_ingestion_replay now task.id task.attempt_count db)
      >>= λ db'. must (
          try_transition_file_status now file.id (FileStatus.failed ∷ []) uploaded
            (delete_chunks_for_file file.id db'))

  abbrev pub prepare_pair : TaskJob → File → ℕ → KnowledgeDb → Work KnowledgeDb
  prepare_pair task file now db =
      if task_status_eq task.status TaskStatus.failed
      then reset_pair task file now db
      else (require
            (task_status_eq task.status TaskStatus.pending && file_status_eq file.status uploaded)
          >>= λ u. done db)

  unfoldable pub replay_work : ℕ → ℕ → ℕ → KnowledgeDb → Work KnowledgeDb
  replay_work outbox_id expected_attempt now db =
      found (find outbox_key outbox_id db.outbox) >>= λ outbox.
      require (Store.status_eq outbox.status dead && outbox.attempt_count == expected_attempt)
      >>= λ u. found (read_payload outbox.payload) >>= λ payload.
          found (get payload.task_id db) >>= λ task. found (get_file payload.file_id db) >>= λ file.
          prepare_pair task file now db >>= λ db'.
          must_replay db' (try_prepare_replay outbox_id dead expected_attempt now true db'.outbox)

  -- `some b` is the answer, `none` an exception.
  abbrev pub answer : KnowledgeDb → Work KnowledgeDb → Option Bool × KnowledgeDb
  answer before (done after) = (some true, after)
  answer before conflict = (some false, before)
  answer before raised = (none, before)

  unfoldable pub replay_dead : ℕ → ℕ → ℕ → KnowledgeDb → Option Bool × KnowledgeDb
  replay_dead outbox_id expected_attempt now db =
      answer db (replay_work outbox_id expected_attempt now db)
