-- ===== src/Knowledge/Ingestion.antt =====
-- `KnowledgeRAGWorkflow.ingest_file` (backend/application/knowledge/ingestion_workflow.py) and its
-- three units of work. The storage and the extraction of the chunks from the text are arguments.
use dewflow.Base.{ℕ, ◌+◌, ◌*◌, String, Bool, true, false, Option, none, some, List, [], ◌∷◌}
use dewflow.Knowledge.Rows.{uploaded, parsing, chunking, ready, failed, File, KnowledgeDb}
use dewflow.Knowledge.Jobs.{try_heartbeat_kb_ingestion_task}
use dewflow.Knowledge.Files.{get_file, try_transition_file_status, delete_chunks_for_file}
use dewflow.Knowledge.Index.{
  Failure, app_exception, file_not_found_error, other_exception, Result, ok, err, ◌>>=◌, IndexChunk,
  IndexService, replace_file_chunks,
}

-- The fence that a worker carries: the task and the attempt that it has claimed, both or neither.
pub record Ticket : Type 0 where
  pub task_id : Option ℕ
  pub expected_attempt : Option ℕ

-- The settings, the index, and what the storage and the chunking make of a file.
pub record IngestionWorkflow : Type 0 where
  pub lease_seconds : ℕ
  pub index : IndexService
  pub extract_chunks : File → Result (List IndexChunk)

abbrev pub check : String → Bool × KnowledgeDb → Result KnowledgeDb
check code (true, db) = ok db
check code (false, db) = err (app_exception code)

-- by the ticket
abbrev pub active_as :
    IngestionWorkflow → Option ℕ → Option ℕ → ℕ → KnowledgeDb → Bool × KnowledgeDb
active_as self none none now db = (true, db)
active_as self (some task_id) (some attempt) now db =
    try_heartbeat_kb_ingestion_task now task_id attempt now (now + self.lease_seconds * 1000000) db
active_as self _ _ now db = (false, db)

module _ (self : IngestionWorkflow) (ticket : Ticket) (file_id : ℕ) where
  unfoldable pub attempt_is_active : ℕ → KnowledgeDb → Bool × KnowledgeDb
  attempt_is_active now db = active_as self ticket.task_id ticket.expected_attempt now db

  abbrev ensure_active_attempt : ℕ → KnowledgeDb → Result KnowledgeDb
  ensure_active_attempt now db = check "KNOWLEDGE_TASK_LEASE_LOST" (attempt_is_active now db)

  -- A block that raises leaves the tables as they were.
  abbrev pub rolled_back :
      {A : Type 0} → KnowledgeDb → Result (A × KnowledgeDb) → Result A × KnowledgeDb
  rolled_back before (ok (a, after)) = (ok a, after)
  rolled_back before (err e) = (err e, before)

  abbrev pub opened : Option File → KnowledgeDb → Result (File × KnowledgeDb)
  opened none db = err (app_exception "KNOWLEDGE_FILE_NOT_FOUND")
  opened (some file) db = ok (file, db)

  abbrev pub not_opened : Option File → Result (File × KnowledgeDb)
  not_opened none = err (app_exception "KNOWLEDGE_FILE_NOT_FOUND")
  not_opened (some file) = err (app_exception "KNOWLEDGE_FILE_ALREADY_INGESTING")

  abbrev pub open_file : Bool × KnowledgeDb → Result (File × KnowledgeDb)
  open_file (true, db) = opened (get_file file_id db) db
  open_file (false, db) = not_opened (get_file file_id db)

  -- the first unit of work
  unfoldable pub load_file : ℕ → KnowledgeDb → Result File × KnowledgeDb
  load_file now db = rolled_back db (
      ensure_active_attempt now db >>= λ db'.
      open_file (try_transition_file_status now file_id (uploaded ∷ []) parsing db'))

  -- the second unit of work
  unfoldable pub index_chunks : ℕ → List IndexChunk → KnowledgeDb → Result (Unit {0}) × KnowledgeDb
  index_chunks now chunks db = rolled_back db (
      ensure_active_attempt now db >>= λ a.
      check "KNOWLEDGE_FILE_NOT_PARSING"
        (try_transition_file_status now file_id (parsing ∷ []) chunking a)
      >>= λ b. replace_file_chunks self.index file_id chunks b >>= λ c.
          check "KNOWLEDGE_FILE_NOT_CHUNKING"
            (try_transition_file_status now file_id (chunking ∷ []) ready c)
          >>= λ d. ok (tt, d))

  abbrev pub clean : ℕ → Bool × KnowledgeDb → KnowledgeDb
  clean now (true, db) =
      (try_transition_file_status now file_id (uploaded ∷ parsing ∷ chunking ∷ ready ∷ []) failed
        (delete_chunks_for_file file_id db)).1
  clean now (false, db) = db

  -- the unit of work after a failure
  unfoldable pub cleanup_failed_ingestion : ℕ → KnowledgeDb → KnowledgeDb
  cleanup_failed_ingestion now db = clean now (attempt_is_active now db)

  -- what the workflow raises for what went wrong
  abbrev pub as_raised : Failure → Failure
  as_raised (app_exception code) = app_exception code
  as_raised file_not_found_error = app_exception "KNOWLEDGE_FILE_OBJECT_NOT_FOUND"
  as_raised other_exception = app_exception "KNOWLEDGE_FILE_INGEST_FAILED"

  -- `if not chunks: raise`
  abbrev some_chunks : List IndexChunk → Result (List IndexChunk)
  some_chunks [] = err (app_exception "KNOWLEDGE_FILE_NO_TEXT")
  some_chunks (c ∷ cs) = ok (c ∷ cs)

  -- Others change the tables between the units of work; `later n` is the time of the n-th.
  module _ (meanwhile : ℕ → KnowledgeDb → KnowledgeDb) (later : ℕ → ℕ) where
    abbrev after_index : Result (Unit {0}) × KnowledgeDb → Result (Unit {0}) × KnowledgeDb
    after_index (ok u, db) = (ok u, db)
    after_index (err e, db) =
        (err (as_raised e), cleanup_failed_ingestion (later 2) (meanwhile 2 db))

    abbrev after_extract : Result (List IndexChunk) → KnowledgeDb → Result (Unit {0}) × KnowledgeDb
    after_extract (ok chunks) db = after_index (index_chunks (later 1) chunks (meanwhile 1 db))
    after_extract (err e) db =
        (err (as_raised e), cleanup_failed_ingestion (later 2) (meanwhile 2 db))

    abbrev after_load : Result File × KnowledgeDb → Result (Unit {0}) × KnowledgeDb
    after_load (ok file, db) = after_extract (self.extract_chunks file >>= some_chunks) db
    after_load (err e, db) = (err e, db)

    unfoldable pub ingest_file : KnowledgeDb → Result (Unit {0}) × KnowledgeDb
    ingest_file db = after_load (load_file (later 0) db)
