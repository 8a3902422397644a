-- ===== src/Knowledge/Settled.antt =====
-- What the blocks of the recovery are counted as (backend/services/knowledge_ingestion_recovery_service.py).
use dewflow.Knowledge.Settles.{
  of_task, of_file, Settles, Quiet, bind-Settles, bind-Settles_left, must-Quiet, commit-Settles,
  if_changed-Settles, done-Settles, replay-Quiet, completed-Settles,
}
use dewflow.Base.{
  ℕ, ◌≡◌, refl, String, Bool, true, false, ◌&&◌, Option, none, some, [], ◌∷◌, ltb, leb, any, not,
  is_some, ◌||◌, Bool-cases, inl, inr,
}
use dewflow.Outbox.Store
use dewflow.Outbox.Store.{
  Result, ok, value_error, TaskOutbox, Rows, try_prepare_replay, replay_rejects, execute,
  replay_guard, replay_assign, Status, published, dead,
}
use dewflow.Knowledge.Rows.{
  TaskStatus, pending, processing, uploaded, ready, failed, file_status_eq, one_of_tasks, TaskJob,
  File, KnowledgeDb,
}
use dewflow.Knowledge.Leaves.{HasTask, HasTask-Kept, must-Leaves, try_reset_expired-Kept}
use dewflow.Knowledge.Jobs.{
  create, try_reconcile_completed_kb_ingestion_task, try_fail_kb_ingestion_task,
  try_reset_expired_kb_ingestion_task, try_fail_expired_kb_ingestion_task,
}
use dewflow.Knowledge.Files.{
  try_transition_file_status, delete_chunks_for_file, is_active_task, get_file,
}
use dewflow.Knowledge.Recovery.{
  Work, done, conflict, raised, refused_as_conflict, new_task, created_pair, ◌>>=◌, must,
  must_replay, RecoveryService, RecoveryResult, Tally, replayed, retried, failed_file, failed_task,
  failed_pair, tally, Outcome, if_changed, if_completed, get_for_task_event, legacy_older_than,
  is_settled_event, prepare_event, prepare_task_outbox, fail_task_only, fail_file_too,
  fail_expired_pair, retry_pair, complete_task, reconcile_processing_task, redispatch,
  reconcile_pending_task, unsettled, create_outbox, stale_ingestion_error, missing_file_error,
  dispatch_exhausted_error, adopt, reconcile_orphan_file,
}

module _ (self : RecoveryService) (task : TaskJob) (now : ℕ) where
  prepare_event-Quiet :
      (event : Option TaskOutbox) (file_id : ℕ) (reset : Bool) (db : KnowledgeDb)
      → HasTask task.id db
      → Quiet (prepare_event self event task file_id now reset db)
  prepare_event-Quiet none file_id reset db there =
      unfold create_outbox in rw there (unfold Quiet in tt)
  prepare_event-Quiet (some o) file_id reset db there =
      elim (Bool-cases (is_settled_event self o.status)) [
        | inl e ↦ rw e (replay-Quiet db o.id o.status o.attempt_count now reset db.outbox e)
        | inr e ↦ rw e (unfold Quiet in tt)
      ]

  fail_file_too-Settles :
      (file : File) (db : KnowledgeDb) → Settles of_task (fail_file_too self task file db)
  unfolding fail_file_too
  fail_file_too-Settles file db =
      let out =
        try_transition_file_status (self.clock task.id) file.id unsettled failed
          (delete_chunks_for_file file.id db) in
      bind-Settles of_task (must out) (λ a. done (failed_pair, a)) refl (must-Quiet out)
        (λ a. done-Settles of_task failed_pair a refl)

  redispatch-Settles :
      (event : Option TaskOutbox) (file : File) (db : KnowledgeDb)
      → HasTask task.id db
      → Settles of_task (redispatch self event task file now db)
  redispatch-Settles none file db there = unfold create_outbox in rw there (unfold Settles in refl)
  redispatch-Settles (some o) file db there =
      let out =
        try_fail_kb_ingestion_task (self.clock task.id) task.id (pending ∷ [])
          (some task.attempt_count) dispatch_exhausted_error now db in
      elim (Bool-cases
        (Store.status_eq o.status published && ltb o.attempt_count self.max_publish_attempts)) [
          | inl e ↦ rw e (
              bind-Settles of_task
                (must_replay db
                  (try_prepare_replay o.id published o.attempt_count now false db.outbox))
                (λ a. done (replayed, a)) refl
                (replay-Quiet db o.id published o.attempt_count now false db.outbox refl)
                (λ a. done-Settles of_task replayed a refl))
          | inr e ↦ rw e (
              bind-Settles of_task (must out) (λ a. fail_file_too self task file a) refl
                (must-Quiet out) (λ a. fail_file_too-Settles file a))
        ]

  -- the item is counted once, and nothing is raised
  abbrev IsCounted : RecoveryResult → Outcome → Type 0
  IsCounted c out = (t : Tally) × (of_task t ≡ true) × (out.0 ≡ ok (tally t c))

  module _ (c : RecoveryResult) (db : KnowledgeDb) where
    fail_task_only-IsCounted :
        (error_log : String) → IsCounted c (fail_task_only self task error_log now c db)
    unfolding fail_task_only
    fail_task_only-IsCounted error_log =
        let out =
          try_fail_kb_ingestion_task (self.clock task.id) task.id (pending ∷ processing ∷ [])
            (some task.attempt_count) error_log now db in
        commit-Settles of_task c db (if_changed failed_task out)
          (if_changed-Settles of_task failed_task out refl refl)

    complete_task-IsCounted :
        (s : TaskStatus)
        → one_of_tasks (pending ∷ processing ∷ []) s ≡ true
        → IsCounted c (complete_task self task s now c db)
    unfolding complete_task
    complete_task-IsCounted s h =
        commit-Settles of_task c db
          (if_completed (
            try_reconcile_completed_kb_ingestion_task (self.clock task.id) task.id s
              task.attempt_count now db))
          (completed-Settles (self.clock task.id) task.id task.attempt_count now s db h)

    fail_expired_pair-IsCounted :
        (file : File) → IsCounted c (fail_expired_pair self task file now c db)
    unfolding fail_expired_pair
    fail_expired_pair-IsCounted file =
        let out =
          try_fail_expired_kb_ingestion_task (self.clock task.id) task.id task.attempt_count now
            (legacy_older_than self now) stale_ingestion_error now db in
        commit-Settles of_task c db (must out >>= λ a. fail_file_too self task file a) (
          bind-Settles of_task (must out) (λ a. fail_file_too self task file a) refl
            (must-Quiet out) (λ a. fail_file_too-Settles file a))

    retry_pair-IsCounted :
        (file : File) → HasTask task.id db → IsCounted c (retry_pair self task file now c db)
    unfolding retry_pair prepare_task_outbox
    retry_pair-IsCounted file there =
        let out =
          try_reset_expired_kb_ingestion_task (self.clock task.id) task.id task.attempt_count now
            (legacy_older_than self now) stale_ingestion_error db in
        let withdraw : KnowledgeDb → Bool × KnowledgeDb = λ a.
          try_transition_file_status (self.clock task.id) file.id (file.status ∷ []) uploaded
            (delete_chunks_for_file file.id a) in
        let prepare : KnowledgeDb → Work KnowledgeDb =
          λ b. prepare_event self (get_for_task_event task.id b) task file.id now true b in
        let finish : KnowledgeDb → Work (Tally × KnowledgeDb) = λ d. done (retried, d) in
        let requeue : KnowledgeDb → Work (Tally × KnowledgeDb) = λ b. prepare b >>= finish in
        commit-Settles of_task c db (must out >>= λ a. must (withdraw a) >>= requeue) (
          bind-Settles_left (HasTask task.id) of_task (must out)
            (λ a. must (withdraw a) >>= requeue) refl (must-Quiet out)
            (must-Leaves (HasTask task.id) out (λ made.
              try_reset_expired-Kept (HasTask task.id) (HasTask-Kept task.id) (self.clock task.id)
                task.id task.attempt_count now (legacy_older_than self now) stale_ingestion_error db
                there))
            (λ a left.
              bind-Settles_left (HasTask task.id) of_task (must (withdraw a)) requeue refl
                (must-Quiet (withdraw a))
                (must-Leaves (HasTask task.id) (withdraw a) (λ made.
                  (HasTask-Kept task.id).by_withdrawal (self.clock task.id) file.id
                    (file.status ∷ []) uploaded a left refl made))
                (λ b present.
                  bind-Settles of_task (prepare b) finish refl
                    (prepare_event-Quiet (get_for_task_event task.id b) file.id true b present)
                    (λ d. done-Settles of_task retried d refl))))

    pub reconcile_processing_task-IsCounted :
        (file : Option File)
        → HasTask task.id db
        → IsCounted c (reconcile_processing_task self file task now c db)
    unfolding reconcile_processing_task
    reconcile_processing_task-IsCounted none there = fail_task_only-IsCounted missing_file_error
    reconcile_processing_task-IsCounted (some file) there =
        elim (Bool-cases (file_status_eq file.status ready)) [
          | inl e ↦ rw e (complete_task-IsCounted processing refl)
          | inr e ↦ elim (Bool-cases (file_status_eq file.status failed)) [
            | inl f ↦ rw (e, f) (fail_task_only-IsCounted stale_ingestion_error)
            | inr f ↦ elim (Bool-cases (leb self.max_ingestion_attempts task.attempt_count)) [
              | inl g ↦ rw (e, f, g) (fail_expired_pair-IsCounted file)
              | inr g ↦ rw (e, f, g) (retry_pair-IsCounted file there)
            ]
          ]
        ]

    pub reconcile_pending_task-IsCounted :
        (file : Option File)
        → HasTask task.id db
        → IsCounted c (reconcile_pending_task self file task now c db)
    unfolding reconcile_pending_task
    reconcile_pending_task-IsCounted none there = fail_task_only-IsCounted missing_file_error
    reconcile_pending_task-IsCounted (some file) there =
        elim (Bool-cases (file_status_eq file.status ready)) [
          | inl e ↦ rw e (complete_task-IsCounted pending refl)
          | inr e ↦ elim (Bool-cases (file_status_eq file.status failed)) [
            | inl f ↦ rw (e, f) (fail_task_only-IsCounted stale_ingestion_error)
            | inr f ↦
                rw (e, f)
                  (commit-Settles of_task c db
                    (redispatch self (get_for_task_event task.id db) task file now db)
                    (redispatch-Settles (get_for_task_event task.id db) file db there))
          ]
        ]

module _ (self : RecoveryService) (file : File) (now : ℕ) where
  created-Settles :
      (w : Work KnowledgeDb)
      → Settles of_file (refused_as_conflict self (w >>= λ a. done (created_pair, a)))
  unfolding Settles
  created-Settles (done db) = refl
  created-Settles conflict = refl
  created-Settles raised = refl

  adopt-Settles :
      (owner : Option ℕ) (db : KnowledgeDb) → Settles of_file (adopt self owner file now db)
  adopt-Settles none db =
      if_changed-Settles of_file failed_file
        (try_transition_file_status (self.clock file.id) file.id (uploaded ∷ []) failed db) refl
        refl
  adopt-Settles (some user) db =
      elim (Bool-cases (
        not (is_some (get_file file.id db))
        || not (self.user_exists user)
        || any (is_active_task file.id) db.tasks)) [
          | inl e ↦ rw e (unfold Settles in refl)
          | inr e ↦ rw e (
              created-Settles (
                create_outbox self (self.fresh_task_id file.id) file.id now
                  (create (new_task self file user) db)))
        ]

  pub reconcile_orphan_file-IsCounted :
      (c : RecoveryResult) (db : KnowledgeDb)
      → (t : Tally) × (of_file t ≡ true)
        × ((reconcile_orphan_file self file now c db).0 ≡ ok (tally t c))
  unfolding reconcile_orphan_file
  reconcile_orphan_file-IsCounted c db =
      commit-Settles of_file c db (adopt self file.owner_id file now db)
        (adopt-Settles file.owner_id db)
