-- ===== src/Knowledge/Completed.antt =====
-- A whole run of the worker's task (backend/worker/tasks/knowledge_tasks.py and
-- backend/application/knowledge/ingestion_workflow.py) where others leave its task and file alone.
use dewflow.Base.{ℕ, ◌+◌, ◌*◌, ◌≡◌, refl, true, some, List, [], ◌∷◌, Distinct}
use dewflow.Knowledge.Rows.{
  TaskStatus, processing, completed, FileStatus, uploaded, parsing, chunking, ready, TaskJob, File,
  DocumentChunk, KnowledgeDb, task_key, file_key,
}
use dewflow.Knowledge.Jobs.{get, claim_guard, try_fail_kb_ingestion_task}
use dewflow.Knowledge.Files.{get_file, status_assign}
use dewflow.Knowledge.Index.{Failure, ok, err, IndexChunk, prepare_chunk_records}
use dewflow.Knowledge.Ingestion.{as_raised, cleanup_failed_ingestion, ingest_file}
use dewflow.Knowledge.Worker.{
  error_log_of, IngestionWorker, safe_mark_failed, ingest_knowledge_file_task,
}
use dewflow.Knowledge.Batches.{prepare_chunk_records-AreOf}
use dewflow.Knowledge.Workflow.{ticket_of, load_file-Holds, index_chunks-Holds, cleanup-Holds}
use dewflow.Knowledge.Claimed.{Settled, try_claim-Holds, try_complete-Settled, try_fail-Settled}
use dewflow.Knowledge.Held.{own, Holds, try_heartbeat-Holds}

-- The file when the ingestion has gone through.
abbrev pub ingested : (ℕ → ℕ) → File → File
ingested later file =
    status_assign (later 1) ready
      (status_assign (later 1) chunking (status_assign (later 0) parsing file))

abbrev pub parsed_at : (ℕ → ℕ) → File → File
parsed_at later file = status_assign (later 0) parsing file

-- Others change what they like, but not the task, the file and the chunks that a worker holds.
abbrev LeavesAlone : ℕ → ℕ → ℕ → (ℕ → KnowledgeDb → KnowledgeDb) → Type 0
LeavesAlone task_id file_id n meanwhile =
    (i : ℕ) (file : File) (chunks : List DocumentChunk) (db : KnowledgeDb)
    → Holds task_id file_id n file chunks db
    → Holds task_id file_id n file chunks (meanwhile i db)

module _ (self : IngestionWorker) (task_id file_id : ℕ) (t : TaskJob) (file : File)
    (meanwhile : ℕ → KnowledgeDb → KnowledgeDb) (later : ℕ → ℕ) (now : ℕ) (db : KnowledgeDb) where
  -- If a task of a new file is pending, the text of the file gives chunks, the index prepares their records,
  -- and no one else touches the task, the file and its chunks during the run, then the worker's task
  -- succeeds: the task is COMPLETED with one attempt more, the file is READY, and its chunks in the index
  -- are those records and no other.
  pub ingest_knowledge_file_task-completes :
      (c : IndexChunk) (cs : List IndexChunk) (rs : List DocumentChunk)
      → Distinct task_key db.tasks
      → Distinct file_key db.files
      → get task_id db ≡ some t
      → claim_guard task_id file_id t ≡ true
      → get_file file_id db ≡ some file
      → file.status ≡ uploaded
      → LeavesAlone task_id file_id (t.attempt_count + 1) meanwhile
      → self.workflow.extract_chunks (parsed_at later file) ≡ ok (c ∷ cs)
      → prepare_chunk_records self.workflow.index file_id (c ∷ cs) ≡ ok rs
      → (after : KnowledgeDb) × (ingest_knowledge_file_task self task_id file_id meanwhile later now
            db
          ≡ (ok tt, after))
        × Settled task_id file_id completed (t.attempt_count + 1) (ingested later file) rs after
  unfolding ingest_knowledge_file_task ingest_file
  ingest_knowledge_file_task-completes c cs rs dt df here g there fresh alone extracted prepared =
      let n = t.attempt_count + 1 in
      let lease : ℕ → ℕ = λ at. at + self.workflow.lease_seconds * 1000000 in
      let (a, claimed, ha) =
        try_claim-Holds task_id file_id file (own file_id db.chunks) db t now now (lease now) dt df
          here g there refl in
      let a' = meanwhile 6 a in
      let (b, beat, hb) =
        try_heartbeat-Holds task_id file_id n file (own file_id db.chunks) a'
          (alone 6 file (own file_id db.chunks) a ha) (later 6) (later 6) (lease (later 6)) in
      let (d, loaded, hd) =
        load_file-Holds self.workflow task_id file_id n file (own file_id db.chunks) (meanwhile 0 b)
          (alone 0 file (own file_id db.chunks) b hb) (later 0) fresh in
      let (e, indexed, he) =
        index_chunks-Holds self.workflow task_id file_id n (parsed_at later file)
          (own file_id db.chunks) (meanwhile 1 d)
          (alone 1 (parsed_at later file) (own file_id db.chunks) d hd) (later 1) (c ∷ cs) rs
          (unfold status_assign in refl) prepared
          (prepare_chunk_records-AreOf self.workflow.index file_id c cs rs prepared).1 in
      let (f, finished, hf) =
        try_complete-Settled task_id file_id (ingested later file) rs (meanwhile 3 e) n
          (alone 3 (ingested later file) rs e he) (later 3) (later 3) in
      (f, rw (claimed, beat, loaded, extracted, indexed, finished) refl, hf)

  -- If a task of a new file is pending, the storage or the extraction raises, and no one else touches the
  -- task, the file and its chunks during the run, then the worker's task raises, the task is FAILED with the
  -- attempt that it claimed, the file is FAILED, and the index has no chunk of it.
  pub ingest_knowledge_file_task-fails :
      (x : Failure)
      → Distinct task_key db.tasks
      → Distinct file_key db.files
      → get task_id db ≡ some t
      → claim_guard task_id file_id t ≡ true
      → get_file file_id db ≡ some file
      → file.status ≡ uploaded
      → LeavesAlone task_id file_id (t.attempt_count + 1) meanwhile
      → self.workflow.extract_chunks (parsed_at later file) ≡ err x
      → (y : Failure) × (after : KnowledgeDb) × (ingest_knowledge_file_task self task_id file_id
            meanwhile later now db
          ≡ (err y, after))
        × Settled task_id file_id TaskStatus.failed
            (t.attempt_count + 1)
            (status_assign (later 2) FileStatus.failed (parsed_at later file))
            []
            after
  unfolding ingest_knowledge_file_task ingest_file safe_mark_failed
  ingest_knowledge_file_task-fails x dt df here g there fresh alone extracted =
      let n = t.attempt_count + 1 in
      let lease : ℕ → ℕ = λ at. at + self.workflow.lease_seconds * 1000000 in
      let (a, claimed, ha) =
        try_claim-Holds task_id file_id file (own file_id db.chunks) db t now now (lease now) dt df
          here g there refl in
      let (b, beat, hb) =
        try_heartbeat-Holds task_id file_id n file (own file_id db.chunks) (meanwhile 6 a)
          (alone 6 file (own file_id db.chunks) a ha) (later 6) (later 6) (lease (later 6)) in
      let (d, loaded, hd) =
        load_file-Holds self.workflow task_id file_id n file (own file_id db.chunks) (meanwhile 0 b)
          (alone 0 file (own file_id db.chunks) b hb) (later 0) fresh in
      let hd' = alone 2 (parsed_at later file) (own file_id db.chunks) d hd in
      let he =
        cleanup-Holds self.workflow task_id file_id n (parsed_at later file) (own file_id db.chunks)
          (meanwhile 2 d) hd' (later 2) (unfold status_assign in refl) in
      let cleaned =
        cleanup_failed_ingestion self.workflow (ticket_of task_id n) file_id (later 2)
          (meanwhile 2 d) in
      let failure = status_assign (later 2) FileStatus.failed (parsed_at later file) in
      let y = as_raised self.workflow (ticket_of task_id n) file_id x in
      let log = error_log_of self y in
      (
        y,
        (try_fail_kb_ingestion_task (later 5) task_id (processing ∷ []) (some n) log (later 5)
            (meanwhile 5 cleaned)).1,
        rw (claimed, beat, loaded, extracted) refl,
        try_fail-Settled task_id file_id failure [] (meanwhile 5 cleaned) n
            (alone 5 failure [] cleaned he) (later 5) (later 5) log,
      )
