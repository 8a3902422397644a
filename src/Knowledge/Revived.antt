-- ===== src/Knowledge/Revived.antt =====
-- The retry of an expired attempt (`_retry_pair` of
-- backend/services/knowledge_ingestion_recovery_service.py) makes its task claimable again.
use dewflow.Base.{ℕ, ◌≡◌, refl, String, true, Option, some, [], ◌∷◌, any, find, Distinct, arith}
use dewflow.Outbox.Store.{clip, ok}
use dewflow.Knowledge.Dispatched.{prepare_task_outbox-active}
use dewflow.Knowledge.Rows.{
  processing, one_of_files, FileStatus, uploaded, parsing, chunking, ready, TaskJob, File,
  KnowledgeDb, task_key, file_key,
}
use dewflow.Knowledge.Files.{get_file, status_assign, delete_chunks_for_file}
use dewflow.Knowledge.Held.{
  execute-hit, get-hit, rewritten, attempt_guard-names, transition-hit, own, own-delete,
}
use dewflow.Knowledge.Jobs.{
  get, attempt_guard, expired_guard, claim_guard, requeue_assign,
  try_reset_expired_kb_ingestion_task, is_active_event,
}
use dewflow.Knowledge.Recovery.{
  RecoveryService, RecoveryResult, has_task, tally, retried, retry_pair, legacy_older_than,
  stale_ingestion_error,
}

expired_guard-names :
    (id m at old : ℕ) (t : TaskJob) → expired_guard id m at old t ≡ true → t.id ≡ id
unfolding expired_guard
expired_guard-names id m at old t g = attempt_guard-names processing m id t (ground (arith, g))

requeue-claimable :
    (id file_id m at old clock : ℕ) (log : Option String) (t : TaskJob)
    → expired_guard id m at old t ≡ true
    → t.knowledge_file_id ≡ some file_id
    → (claim_guard id file_id (requeue_assign clock log t) ≡ true)
      × ((requeue_assign clock log t).attempt_count ≡ m)
unfolding expired_guard attempt_guard claim_guard requeue_assign
requeue-claimable id file_id m at old clock log t g names =
    (rw names (ground (arith, g)), ground (arith, g))

status-listed : (s : FileStatus) → one_of_files (s ∷ []) s ≡ true
status-listed uploaded = refl
status-listed parsing = refl
status-listed chunking = refl
status-listed ready = refl
status-listed FileStatus.failed = refl

abbrev pub IsRevived : TaskJob → File → KnowledgeDb → Type 0
IsRevived task file after =
    ((t' : TaskJob) × (get task.id after ≡ some t')
      × (claim_guard task.id file.id t' ≡ true)
      × (t'.attempt_count ≡ task.attempt_count))
    × ((f : File) × (get_file file.id after ≡ some f) × (f.status ≡ uploaded))
    × (own file.id after.chunks ≡ [])
    × (any (is_active_event task.id) after.outbox ≡ true)

module _ (self : RecoveryService) (task : TaskJob) (file : File) (now : ℕ) (c : RecoveryResult)
    (db : KnowledgeDb) (t : TaskJob) where
  -- If the task and the file are still as the recovery read them, the lease of the attempt has run out and
  -- the task names the file, then the retry is made: the task can be claimed for the file and keeps its
  -- attempts, the file is UPLOADED, the index has no chunk of it, and an event waits to be dispatched or is
  -- being dispatched.
  pub retry_pair-IsRevived :
      (f : File)
      → Distinct task_key db.tasks
      → Distinct file_key db.files
      → get task.id db ≡ some t
      → expired_guard task.id task.attempt_count now (legacy_older_than self now) t ≡ true
      → t.knowledge_file_id ≡ some file.id
      → get_file file.id db ≡ some f
      → f.status ≡ file.status
      → (after : KnowledgeDb) × (retry_pair self task file now c db ≡ (ok (tally retried c), after))
        × IsRevived task file after
  unfolding retry_pair
  retry_pair-IsRevived f dt df here g names there same =
      let clock = self.clock task.id in
      let old = legacy_older_than self now in
      let guard' = expired_guard task.id task.attempt_count now old in
      let assign' = requeue_assign clock (some (clip 5000 stale_ingestion_error)) in
      let named = expired_guard-names task.id task.attempt_count now old in
      let keeps : (u : TaskJob) → (assign' u).id ≡ u.id = λ u. unfold requeue_assign in refl in
      let a = rewritten guard' assign' task.id named keeps db t dt here in
      let reset : try_reset_expired_kb_ingestion_task clock task.id task.attempt_count now old
            stale_ingestion_error db
          ≡ (true, a) =
        unfold try_reset_expired_kb_ingestion_task in
        rw (execute-hit guard' assign' task.id named keeps db t dt here g) refl in
      let (claimable, kept) =
        requeue-claimable task.id file.id task.attempt_count now old clock
          (some (clip 5000 stale_ingestion_error)) t g names in
      let b = delete_chunks_for_file file.id a in
      let from : one_of_files (file.status ∷ []) f.status ≡ true =
        rw same (status-listed file.status) in
      let (fs, moved, d, found) =
        transition-hit clock file.id (file.status ∷ []) uploaded b f
          (unfold delete_chunks_for_file in df)
          (unfold delete_chunks_for_file in unfold get_file in there) from in
      let e : KnowledgeDb = record b { files = fs } in
      let held : find task_key task.id a.tasks ≡ some (assign' t) =
        unfold get in get-hit guard' assign' task.id named keeps db t dt here g in
      let there' : has_task task.id e ≡ true = unfold delete_chunks_for_file in rw held refl in
      let (rows, prepared, active) = prepare_task_outbox-active self task file.id now e there' in
      (
        record e { outbox = rows },
        rw (reset, moved, prepared) refl,
        (
          (
            assign' t,
            unfold delete_chunks_for_file in
                unfold get in get-hit guard' assign' task.id named keeps db t dt here g,
            claimable,
            kept,
          ),
          (status_assign clock uploaded f, unfold get_file in found, unfold status_assign in refl),
          unfold delete_chunks_for_file in own-delete file.id db.chunks,
          active,
        ),
      )
