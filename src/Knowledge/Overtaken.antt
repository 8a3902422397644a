-- ===== src/Knowledge/Overtaken.antt =====
-- `_reconcile_pending_task` (backend/services/knowledge_ingestion_recovery_service.py) on a task that has
-- got a live event since the scan.
use dewflow.Base.{ℕ, ◌≡◌, refl, true, false, ◌&&◌, ◌||◌, some, [], ◌∷◌, ltb, any, Distinct, arith}
use dewflow.Outbox.Store.{ok, TaskOutbox, status_eq, published, dead}
use dewflow.Knowledge.Rows.{
  TaskStatus, pending, ready, failed, file_status_eq, one_of_files, TaskJob, File, KnowledgeDb,
  task_key, file_key,
}
use dewflow.Knowledge.Jobs.{
  get, fail_guard, fail_assign, try_fail_kb_ingestion_task, is_active_event,
}
use dewflow.Knowledge.Files.{get_file, delete_chunks_for_file}
use dewflow.Knowledge.Recovery.{
  RecoveryService, RecoveryResult, tally, failed_pair, unsettled, dispatch_exhausted_error,
  get_for_task_event, fail_file_too, reconcile_pending_task,
}
use dewflow.Knowledge.Held.{execute-hit, get-hit, rewritten, transition-hit}
use dewflow.Knowledge.Dispatched.{lookup-active}

module _ (self : RecoveryService) (task : TaskJob) (file : File) (now : ℕ) (c : RecoveryResult)
    (db : KnowledgeDb) (t : TaskJob) (f : File) (o : TaskOutbox) where
  -- If the task is pending as the recovery read it and its file is not settled, but its event is being
  -- dispatched or waits for it, then the recovery fails the task and counts the pair as failed, and the
  -- event of the failed task stays to be dispatched.
  pub overtaken_fails :
      Distinct task_key db.tasks
      → Distinct file_key db.files
      → get task.id db ≡ some t
      → fail_guard task.id (pending ∷ []) (some task.attempt_count) t ≡ true
      → file_status_eq file.status ready ≡ false
      → file_status_eq file.status failed ≡ false
      → get_file file.id db ≡ some f
      → one_of_files unsettled f.status ≡ true
      → get_for_task_event task.id db ≡ some o
      → (status_eq o.status published || status_eq o.status dead) ≡ false
      → (after : KnowledgeDb) × (reconcile_pending_task self (some file) task now c db
          ≡ (ok (tally failed_pair c), after))
        × ((t' : TaskJob) × (get task.id after ≡ some t') × (t'.status ≡ TaskStatus.failed))
        × (any (is_active_event task.id) after.outbox ≡ true)
  unfolding reconcile_pending_task fail_file_too
  overtaken_fails dt df here g unready unfailed there from event live =
      let clock = self.clock task.id in
      let guard = fail_guard task.id (pending ∷ []) (some task.attempt_count) in
      let assign = fail_assign clock dispatch_exhausted_error now in
      let names : (u : TaskJob) → guard u ≡ true → u.id ≡ task.id =
        λ u e. unfold fail_guard in ground (arith, e) in
      let keeps : (u : TaskJob) → (assign u).id ≡ u.id = λ u. unfold fail_assign in refl in
      let a = rewritten guard assign task.id names keeps db t dt here in
      let failing : try_fail_kb_ingestion_task clock task.id (pending ∷ [])
            (some task.attempt_count) dispatch_exhausted_error now db
          ≡ (true, a) =
        unfold try_fail_kb_ingestion_task in
        rw (execute-hit guard assign task.id names keeps db t dt here g) refl in
      let b = delete_chunks_for_file file.id a in
      let (fs, moved, d, found) =
        transition-hit clock file.id unsettled failed b f (unfold delete_chunks_for_file in df)
          (unfold delete_chunks_for_file in unfold get_file in there) from in
      let spent : (status_eq o.status published && ltb o.attempt_count self.max_publish_attempts)
          ≡ false =
        ground (arith, live) in
      (
        record b { files = fs },
        rw (unready, unfailed, event, spent, failing, moved) refl,
        (
          assign t,
          unfold delete_chunks_for_file in
              unfold get in get-hit guard assign task.id names keeps db t dt here g,
          unfold fail_assign in refl,
        ),
        unfold delete_chunks_for_file in
            lookup-active task.id db.outbox o (unfold get_for_task_event in event) live,
      )
