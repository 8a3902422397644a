-- ===== src/Knowledge/Workflow.antt =====
-- The units of work of an ingestion (backend/application/knowledge/ingestion_workflow.py) under a worker
-- that holds its task and file: they succeed.
use dewflow.Base.{ℕ, ◌+◌, ◌*◌, ◌≡◌, refl, subst, sym, Bool, true, some, List, [], ◌∷◌, All}
use dewflow.Knowledge.Rows.{
  FileStatus, uploaded, parsing, chunking, ready, one_of_files, File, DocumentChunk, KnowledgeDb,
}
use dewflow.Knowledge.Files.{status_assign, delete_chunks_for_file, add_chunks}
use dewflow.Knowledge.Index.{ok, IndexChunk, prepare_chunk_records, replace_file_chunks}
use dewflow.Knowledge.Ingestion.{
  Ticket, IngestionWorkflow, attempt_is_active, load_file, index_chunks, cleanup_failed_ingestion,
}
use dewflow.Knowledge.Held.{
  Holds, try_heartbeat-Holds, try_transition-Holds, delete_chunks-Holds, replace-Holds,
}

abbrev pub ticket_of : ℕ → ℕ → Ticket
ticket_of task_id n = record { task_id = some task_id; expected_attempt = some n }

module _ (self : IngestionWorkflow) (task_id file_id n : ℕ) (file : File)
    (chunks : List DocumentChunk) (db : KnowledgeDb) (h : Holds task_id file_id n file chunks db)
    (now : ℕ) where
  active-Holds :
      (after : KnowledgeDb) × (attempt_is_active self (ticket_of task_id n) file_id now db
        ≡ (true, after))
      × Holds task_id file_id n file chunks after
  unfolding attempt_is_active
  active-Holds =
      try_heartbeat-Holds task_id file_id n file chunks db h now now
        (now + self.lease_seconds * 1000000)

  pub load_file-Holds :
      file.status ≡ uploaded
      → (after : KnowledgeDb) × (load_file self (ticket_of task_id n) file_id now db
          ≡ (ok (status_assign now parsing file), after))
        × Holds task_id file_id n (status_assign now parsing file) chunks after
  unfolding load_file
  load_file-Holds fresh =
      let (a, active, k) = active-Holds in
      let from : one_of_files (uploaded ∷ []) file.status ≡ true = rw fresh refl in
      let (b, moved, l) =
        try_transition-Holds task_id file_id n file chunks a k now (uploaded ∷ []) parsing from in
      (b, rw (active, moved, l.3) refl, l)

  pub index_chunks-Holds :
      (cs : List IndexChunk) (rs : List DocumentChunk)
      → file.status ≡ parsing
      → prepare_chunk_records self.index file_id cs ≡ ok rs
      → All (λ c. c.file_id ≡ file_id) rs
      → (after : KnowledgeDb) × (index_chunks self (ticket_of task_id n) file_id now cs db
          ≡ (ok tt, after))
        × Holds task_id file_id n
            (status_assign now ready (status_assign now chunking file))
            rs
            after
  unfolding index_chunks replace_file_chunks
  index_chunks-Holds cs rs read prepared of =
      let (a, active, k) = active-Holds in
      let from : one_of_files (parsing ∷ []) file.status ≡ true = rw read refl in
      let (b, moved, l) =
        try_transition-Holds task_id file_id n file chunks a k now (parsing ∷ []) chunking from in
      let cut = status_assign now chunking file in
      let m = replace-Holds task_id file_id n cut chunks b l rs of in
      let (d, ended, e) =
        try_transition-Holds task_id file_id n cut rs
          (add_chunks rs (delete_chunks_for_file file_id b)) m now (chunking ∷ []) ready
          (unfold status_assign in refl) in
      (d, rw (active, moved, prepared, ended) refl, e)

  pub cleanup-Holds :
      one_of_files (uploaded ∷ parsing ∷ chunking ∷ ready ∷ []) file.status ≡ true
      → Holds task_id file_id n
          (status_assign now FileStatus.failed file)
          []
          (cleanup_failed_ingestion self (ticket_of task_id n) file_id now db)
  unfolding cleanup_failed_ingestion
  cleanup-Holds from =
      let (a, active, k) = active-Holds in
      let l = delete_chunks-Holds task_id file_id n file chunks a k in
      let (b, moved, m) =
        try_transition-Holds task_id file_id n file [] (delete_chunks_for_file file_id a) l now
          (uploaded ∷ parsing ∷ chunking ∷ ready ∷ []) FileStatus.failed from in
      rw active (
        subst
          (λ (out : Bool × KnowledgeDb).
            Holds task_id file_id n (status_assign now FileStatus.failed file) [] out.1)
          (sym moved) m)
