-- ===== src/Knowledge/Replayed.antt =====
-- What the replay of a dead event (backend/application/knowledge/outbox_relay.py) leaves: files and
-- index agree as before.
use dewflow.Base.{
  ℕ, refl, String, Bool, true, false, ◌&&◌, Option, none, some, [], ◌∷◌, Bool-cases, inl, inr, ◌==◌,
  any, find,
}
use dewflow.Outbox.Store.{Rows, try_prepare_replay, dead, TaskOutbox}
use dewflow.Outbox.Store
use dewflow.Knowledge.Rows.{
  uploaded, task_status_eq, file_status_eq, TaskStatus, TaskJob, File, KnowledgeDb, FileStatus,
}
use dewflow.Knowledge.Jobs.{execute, get, try_prepare_failed_kb_ingestion_replay}
use dewflow.Knowledge.Files.{
  get_file, try_transition_file_status, delete_chunks_for_file, is_active_task,
}
use dewflow.Knowledge.Recovery.{Work, done, conflict, raised, ◌>>=◌, must, must_replay}
use dewflow.Knowledge.Leaves.{Leaves, bind-Leaves, must-Leaves, must_replay-Leaves}
use dewflow.Knowledge.Replay.{
  DispatchPayload, outbox_key, found, require, reopen, reset_pair, prepare_pair, replay_work,
  answer, replay_dead,
}
use dewflow.Knowledge.Indexed.{IsIndexed}
use dewflow.Knowledge.Units.{withdrawn-IsIndexed}

-- a read or a test that nothing depends on but the rest
read-Leaves {κ} :
    {A B : Type 0} (Q : B → Type κ) (w : Work A) (f : A → Work B)
    → ((a : A) → Leaves Q (f a))
    → Leaves Q (w >>= f)
unfolding Leaves
read-Leaves Q (done a) f k = k a
read-Leaves Q conflict f k = tt
read-Leaves Q raised f k = tt

module _ (read_payload : String → Option DispatchPayload) where
  answer-keeps :
      (before : KnowledgeDb) (w : Work KnowledgeDb)
      → IsIndexed before
      → Leaves IsIndexed w
      → IsIndexed (answer read_payload before w).1
  unfolding Leaves
  answer-keeps before (done after) h k = k
  answer-keeps before conflict h k = h
  answer-keeps before raised h k = h

  reopen-Leaves :
      (file_id : Option ℕ) (before : KnowledgeDb) (out : Bool × KnowledgeDb)
      → IsIndexed out.1
      → Leaves IsIndexed (reopen read_payload file_id before out)
  unfolding Leaves
  reopen-Leaves none before (true, db) h = h
  reopen-Leaves none before (false, db) h = tt
  reopen-Leaves (some f) before (false, db) h = tt
  reopen-Leaves (some f) before (true, db) h =
      elim (Bool-cases (any (is_active_task f) before.tasks)) [ inl e ↦ rw e tt | inr e ↦ rw e h ]

  try_prepare_failed-IsIndexed :
      (clock id attempt : ℕ) (db : KnowledgeDb)
      → IsIndexed db
      → IsIndexed (try_prepare_failed_kb_ingestion_replay clock id attempt db).1
  unfolding try_prepare_failed_kb_ingestion_replay execute
  try_prepare_failed-IsIndexed clock id attempt db h = h

  module _ (task : TaskJob) (file : File) (now : ℕ) (db : KnowledgeDb) (h : IsIndexed db) where
    reset_pair-Leaves : Leaves IsIndexed (reset_pair read_payload task file now db)
    reset_pair-Leaves =
        let withdraw : KnowledgeDb → Bool × KnowledgeDb = λ a.
          try_transition_file_status now file.id (FileStatus.failed ∷ []) uploaded
            (delete_chunks_for_file file.id a) in
        let out = try_prepare_failed_kb_ingestion_replay now task.id task.attempt_count db in
        let reopened = reopen read_payload task.knowledge_file_id db out in
        read-Leaves IsIndexed (require (file_status_eq file.status FileStatus.failed))
          (λ u. reopened >>= λ a. must (withdraw a))
          (λ u.
            bind-Leaves IsIndexed IsIndexed reopened (λ a. must (withdraw a))
              (reopen-Leaves task.knowledge_file_id db out
                (try_prepare_failed-IsIndexed now task.id task.attempt_count db h))
              (λ a k.
                must-Leaves IsIndexed (withdraw a)
                  (withdrawn-IsIndexed now file.id (FileStatus.failed ∷ []) uploaded a k refl)))

    prepare_pair-Leaves : Leaves IsIndexed (prepare_pair read_payload task file now db)
    prepare_pair-Leaves = elim (Bool-cases (task_status_eq task.status TaskStatus.failed)) [
      | inl e ↦ rw e reset_pair-Leaves
      | inr e ↦ rw e (
          read-Leaves IsIndexed
            (require (
              task_status_eq task.status TaskStatus.pending && file_status_eq file.status uploaded))
            (λ u. done db) (λ u. unfold Leaves in h))
    ]

  module _ (outbox_id expected_attempt now : ℕ) (db : KnowledgeDb) (h : IsIndexed db) where
    abbrev replay_event : KnowledgeDb → Work KnowledgeDb
    replay_event a =
        must_replay a (try_prepare_replay outbox_id dead expected_attempt now true a.outbox)

    abbrev with_file : TaskJob → File → Work KnowledgeDb
    with_file task file = prepare_pair read_payload task file now db >>= replay_event

    abbrev with_task : DispatchPayload → TaskJob → Work KnowledgeDb
    with_task payload task = found (get_file payload.file_id db) >>= with_file task

    abbrev with_payload : DispatchPayload → Work KnowledgeDb
    with_payload payload = found (get payload.task_id db) >>= with_task payload

    replay_work-Leaves :
        Leaves IsIndexed (replay_work read_payload outbox_id expected_attempt now db)
    unfolding replay_work
    replay_work-Leaves = read-Leaves IsIndexed (found (find outbox_key outbox_id db.outbox)) _ (λ o.
        read-Leaves IsIndexed
          (require (Store.status_eq o.status dead && o.attempt_count == expected_attempt)) _
          (λ u. read-Leaves IsIndexed (found (read_payload o.payload)) with_payload (λ p.
            read-Leaves IsIndexed (found (get p.task_id db)) (with_task p) (λ t.
              read-Leaves IsIndexed (found (get_file p.file_id db)) (with_file t) (λ f.
                bind-Leaves IsIndexed IsIndexed (prepare_pair read_payload t f now db) replay_event
                  (prepare_pair-Leaves t f now db h)
                  (λ a k.
                    must_replay-Leaves IsIndexed a
                      (try_prepare_replay outbox_id dead expected_attempt now true a.outbox)
                      (λ rows. k)))))))

    pub replay_dead-IsIndexed :
        IsIndexed (replay_dead read_payload outbox_id expected_attempt now db).1
    unfolding replay_dead
    replay_dead-IsIndexed =
        answer-keeps db (replay_work read_payload outbox_id expected_attempt now db) h
          replay_work-Leaves
