-- ===== src/Knowledge/Recovered.antt =====
-- What the blocks of the recovery (backend/services/knowledge_ingestion_recovery_service.py) leave when
-- they are committed: whatever each of their statements keeps.
use dewflow.Knowledge.Leaves.{
  Leaves, Kept, bind-Leaves, commit-Leaves, must-Leaves, if_changed-Leaves,
  try_fail_kb_ingestion_task-Kept, try_fail_expired-Kept, try_reset_expired-Kept,
  must_replay-Leaves, completed-Leaves,
}
use dewflow.Base.{
  ℕ, refl, Bool, true, false, Option, none, some, [], ◌∷◌, Bool-cases, inl, inr, any, not, is_some,
  ◌||◌, ◌&&◌, String, leb, ltb,
}
use dewflow.Outbox.Store.{try_prepare_replay, Rows, TaskOutbox, Result}
use dewflow.Outbox.Store
use dewflow.Knowledge.Rows.{
  FileStatus, uploaded, ready, file_status_eq, TaskStatus, TaskJob, File, KnowledgeDb,
}
use dewflow.Knowledge.Jobs.{
  create, try_fail_kb_ingestion_task, try_reset_expired_kb_ingestion_task,
  try_fail_expired_kb_ingestion_task, try_reconcile_completed_kb_ingestion_task,
}
use dewflow.Knowledge.Files.{try_transition_file_status, delete_chunks_for_file}
use dewflow.Knowledge.Files.{is_active_task, get_file}
use dewflow.Knowledge.Recovery.{
  legacy_older_than, dispatch_exhausted_error, Work, conflict, raised, ◌>>=◌, must, must_replay,
  Tally, RecoveryService, RecoveryResult, Outcome, commit, if_changed, if_completed, fail_task_only,
  fail_expired_pair, retry_pair, complete_task, reconcile_processing_task, reconcile_pending_task,
  reconcile_orphan_file, fail_file_too, prepare_task_outbox, create_outbox, redispatch, adopt,
  has_task, new_task, refused_as_conflict, prepare_event, is_settled_event, get_for_task_event,
  unsettled, missing_file_error, stale_ingestion_error,
}
use dewflow.Knowledge.Recovery

module _ (P : KnowledgeDb → Type 0) (kept : Kept P) (self : RecoveryService) (task : TaskJob)
    (now : ℕ) where
  create_outbox-Leaves :
      (id file_id : ℕ) (db : KnowledgeDb) → P db → Leaves P (create_outbox self id file_id now db)
  unfolding create_outbox Leaves
  create_outbox-Leaves id file_id db h = elim (Bool-cases (has_task id db)) [
    | inl e ↦ rw e (kept.by_outbox _ db h)
    | inr e ↦ rw e tt
  ]

  prepare_event-Leaves :
      (event : Option TaskOutbox) (file_id : ℕ) (reset : Bool) (db : KnowledgeDb)
      → P db
      → Leaves P (prepare_event self event task file_id now reset db)
  unfolding Leaves
  prepare_event-Leaves none file_id reset db h =
      unfold Leaves in create_outbox-Leaves task.id file_id db h
  prepare_event-Leaves (some o) file_id reset db h =
      elim (Bool-cases (is_settled_event self o.status)) [
        | inl e ↦ rw e (must_replay-Leaves P db _ (λ rows. kept.by_outbox rows db h))
        | inr e ↦ rw e h
      ]

  fail_file_too-Leaves :
      (file : File) (db : KnowledgeDb)
      → P db
      → Leaves (λ (r : Tally × KnowledgeDb). P r.1) (fail_file_too self task file db)
  unfolding fail_file_too
  fail_file_too-Leaves file db h =
      let out =
        try_transition_file_status (self.clock task.id) file.id unsettled FileStatus.failed
          (delete_chunks_for_file file.id db) in
      bind-Leaves P (λ (r : Tally × KnowledgeDb). P r.1) (must out) _
        (must-Leaves P out
          (kept.by_withdrawal (self.clock task.id) file.id unsettled FileStatus.failed db h refl))
        (λ a k. unfold Leaves in k)

  redispatch-Leaves :
      (event : Option TaskOutbox) (file : File) (db : KnowledgeDb)
      → P db
      → Leaves (λ (r : Tally × KnowledgeDb). P r.1) (redispatch self event task file now db)
  redispatch-Leaves none file db h =
      bind-Leaves P (λ (r : Tally × KnowledgeDb). P r.1) (create_outbox self task.id file.id now db)
        (λ a. Recovery.done (Tally.created_outbox, a)) (create_outbox-Leaves task.id file.id db h)
        (λ a k. unfold Leaves in k)
  redispatch-Leaves (some o) file db h =
      let replay = try_prepare_replay o.id Store.published o.attempt_count now false db.outbox in
      let out =
        try_fail_kb_ingestion_task (self.clock task.id) task.id (TaskStatus.pending ∷ [])
          (some task.attempt_count) dispatch_exhausted_error now db in
      elim (Bool-cases (
        Store.status_eq o.status Store.published
        && ltb o.attempt_count self.max_publish_attempts)) [
          | inl e ↦ rw e (
              bind-Leaves P (λ (r : Tally × KnowledgeDb). P r.1) (must_replay db replay)
                (λ a. Recovery.done (Tally.replayed, a))
                (must_replay-Leaves P db replay (λ rows. kept.by_outbox rows db h))
                (λ a k. unfold Leaves in k))
          | inr e ↦ rw e (
              bind-Leaves P (λ (r : Tally × KnowledgeDb). P r.1) (must out)
                (λ a. fail_file_too self task file a)
                (must-Leaves P out (λ made.
                  try_fail_kb_ingestion_task-Kept P kept (self.clock task.id) task.id
                    (TaskStatus.pending ∷ []) (some task.attempt_count) dispatch_exhausted_error now
                    db h))
                (λ a k. fail_file_too-Leaves file a k))
        ]

  module _ (c : RecoveryResult) (db : KnowledgeDb) (h : P db) where
    fail_task_only-Kept : (error_log : String) → P (fail_task_only self task error_log now c db).1
    unfolding fail_task_only
    fail_task_only-Kept error_log =
        let out =
          try_fail_kb_ingestion_task (self.clock task.id) task.id
            (TaskStatus.pending ∷ TaskStatus.processing ∷ []) (some task.attempt_count) error_log
            now db in
        commit-Leaves P c db (if_changed Tally.failed_task out) h (
          if_changed-Leaves P Tally.failed_task out (
            try_fail_kb_ingestion_task-Kept P kept (self.clock task.id) task.id
              (TaskStatus.pending ∷ TaskStatus.processing ∷ []) (some task.attempt_count) error_log
              now db h))

    complete_task-Kept : (expected : TaskStatus) → P (complete_task self task expected now c db).1
    unfolding complete_task
    complete_task-Kept expected =
        commit-Leaves P c db
          (if_completed (
            try_reconcile_completed_kb_ingestion_task (self.clock task.id) task.id expected
              task.attempt_count now db))
          h
          (completed-Leaves P kept (self.clock task.id) task.id task.attempt_count now expected db
            h)

    fail_expired_pair-Kept : (file : File) → P (fail_expired_pair self task file now c db).1
    unfolding fail_expired_pair
    fail_expired_pair-Kept file =
        let out =
          try_fail_expired_kb_ingestion_task (self.clock task.id) task.id task.attempt_count now
            (legacy_older_than self now) stale_ingestion_error now db in
        commit-Leaves P c db (must out >>= λ a. fail_file_too self task file a) h (
          bind-Leaves P (λ (r : Tally × KnowledgeDb). P r.1) (must out)
            (λ a. fail_file_too self task file a)
            (must-Leaves P out (λ made.
              try_fail_expired-Kept P kept (self.clock task.id) task.id task.attempt_count now
                (legacy_older_than self now) stale_ingestion_error now db h))
            (λ a k. fail_file_too-Leaves file a k))

    abbrev withdraw : File → KnowledgeDb → Bool × KnowledgeDb
    withdraw file a =
        try_transition_file_status (self.clock task.id) file.id (file.status ∷ []) uploaded
          (delete_chunks_for_file file.id a)

    abbrev requeue : File → KnowledgeDb → Work (Tally × KnowledgeDb)
    requeue file b =
        prepare_task_outbox self task file.id now true b >>= λ d. Recovery.done (Tally.retried, d)

    requeue-Leaves :
        (file : File) (b : KnowledgeDb)
        → P b
        → Leaves (λ (r : Tally × KnowledgeDb). P r.1) (requeue file b)
    unfolding prepare_task_outbox
    requeue-Leaves file b l =
        bind-Leaves P (λ (r : Tally × KnowledgeDb). P r.1)
          (prepare_event self (get_for_task_event task.id b) task file.id now true b)
          (λ d. Recovery.done (Tally.retried, d))
          (prepare_event-Leaves (get_for_task_event task.id b) file.id true b l)
          (λ d m. unfold Leaves in m)

    retry_pair-Kept : (file : File) → P (retry_pair self task file now c db).1
    unfolding retry_pair
    retry_pair-Kept file =
        let out =
          try_reset_expired_kb_ingestion_task (self.clock task.id) task.id task.attempt_count now
            (legacy_older_than self now) stale_ingestion_error db in
        commit-Leaves P c db (must out >>= λ a. must (withdraw file a) >>= requeue file) h (
          bind-Leaves P (λ (r : Tally × KnowledgeDb). P r.1) (must out)
            (λ a. must (withdraw file a) >>= requeue file)
            (must-Leaves P out (λ made.
              try_reset_expired-Kept P kept (self.clock task.id) task.id task.attempt_count now
                (legacy_older_than self now) stale_ingestion_error db h))
            (λ a k.
              bind-Leaves P (λ (r : Tally × KnowledgeDb). P r.1) (must (withdraw file a))
                (requeue file)
                (must-Leaves P (withdraw file a) (
                  kept.by_withdrawal (self.clock task.id) file.id (file.status ∷ []) uploaded a k
                    refl))
                (requeue-Leaves file)))

    pub reconcile_processing_task-Kept :
        (file : Option File) → P (reconcile_processing_task self file task now c db).1
    unfolding reconcile_processing_task
    reconcile_processing_task-Kept none = fail_task_only-Kept missing_file_error
    reconcile_processing_task-Kept (some file) =
        elim (Bool-cases (file_status_eq file.status ready)) [
          | inl e ↦ rw e (complete_task-Kept TaskStatus.processing)
          | inr e ↦ elim (Bool-cases (file_status_eq file.status FileStatus.failed)) [
            | inl f ↦ rw (e, f) (fail_task_only-Kept stale_ingestion_error)
            | inr f ↦ elim (Bool-cases (leb self.max_ingestion_attempts task.attempt_count)) [
              | inl g ↦ rw (e, f, g) (fail_expired_pair-Kept file)
              | inr g ↦ rw (e, f, g) (retry_pair-Kept file)
            ]
          ]
        ]

    pub reconcile_pending_task-Kept :
        (file : Option File) → P (reconcile_pending_task self file task now c db).1
    unfolding reconcile_pending_task
    reconcile_pending_task-Kept none = fail_task_only-Kept missing_file_error
    reconcile_pending_task-Kept (some file) = elim (Bool-cases (file_status_eq file.status ready)) [
      | inl e ↦ rw e (complete_task-Kept TaskStatus.pending)
      | inr e ↦ elim (Bool-cases (file_status_eq file.status FileStatus.failed)) [
        | inl f ↦ rw (e, f) (fail_task_only-Kept stale_ingestion_error)
        | inr f ↦
            rw (e, f)
              (commit-Leaves P c db
                (redispatch self (get_for_task_event task.id db) task file now db) h
                (redispatch-Leaves (get_for_task_event task.id db) file db h))
      ]
    ]

-- A file without a task: a new task and its event, or the failure of the file.
module _ (P : KnowledgeDb → Type 0) (kept : Kept P) (self : RecoveryService) (file : File)
    (now : ℕ) where
  refused-Leaves :
      (w : Work (Tally × KnowledgeDb))
      → Leaves (λ (r : Tally × KnowledgeDb). P r.1) w
      → Leaves (λ (r : Tally × KnowledgeDb). P r.1) (refused_as_conflict self w)
  unfolding Leaves
  refused-Leaves (Recovery.done out) h = h
  refused-Leaves conflict h = tt
  refused-Leaves raised h = tt

  adopt-Leaves :
      (owner : Option ℕ) (db : KnowledgeDb)
      → P db
      → Leaves (λ (r : Tally × KnowledgeDb). P r.1) (adopt self owner file now db)
  unfolding Leaves
  adopt-Leaves none db h =
      if_changed-Leaves P Tally.failed_file _
        (kept.by_move (self.clock file.id) file.id (uploaded ∷ []) FileStatus.failed db h refl refl)
  adopt-Leaves (some user_id) db h =
      elim (Bool-cases (
        not (is_some (get_file file.id db))
        || not (self.user_exists user_id)
        || any (is_active_task file.id) db.tasks)) [
          | inl e ↦ rw e tt
          | inr e ↦
              let made = create (new_task self file user_id) db in
              let outbox = create_outbox self (self.fresh_task_id file.id) file.id now made in
              rw e (
                refused-Leaves (outbox >>= λ a. Recovery.done (Tally.created_pair, a)) (
                  bind-Leaves P (λ (r : Tally × KnowledgeDb). P r.1) outbox
                    (λ a. Recovery.done (Tally.created_pair, a))
                    (create_outbox-Leaves P kept self (new_task self file user_id) now
                      (self.fresh_task_id file.id) file.id made
                      (kept.by_create (new_task self file user_id) db h))
                    (λ a k. unfold Leaves in k)))
        ]

  pub reconcile_orphan_file-Kept :
      (c : RecoveryResult) (db : KnowledgeDb)
      → P db
      → P (reconcile_orphan_file self file now c db).1
  unfolding reconcile_orphan_file
  reconcile_orphan_file-Kept c db h =
      commit-Leaves P c db (adopt self file.owner_id file now db) h
        (adopt-Leaves file.owner_id db h)
