-- ===== src/Knowledge/History.antt =====
-- Files and index over every history of the units of work of Knowledge: uploads and deletions of files,
-- the units of an ingestion (backend/application/knowledge/ingestion_workflow.py), those of the recovery
-- (backend/services/knowledge_ingestion_recovery_service.py) and the replay of a dead event
-- (backend/application/knowledge/outbox_relay.py), each with arguments of its own.
use dewflow.Base.{ℕ, ◌≡◌, String, Bool, Option, none, List, [], ◌∷◌, find}
use dewflow.Outbox.Store.{Rows}
use dewflow.Knowledge.Rows.{TaskJob, File, KnowledgeDb, file_key}
use dewflow.Knowledge.Jobs.{execute, done}
use dewflow.Knowledge.Files.{create_file, delete_file_record}
use dewflow.Knowledge.Index.{IndexChunk}
use dewflow.Knowledge.Ingestion.{
  Ticket, IngestionWorkflow, load_file, index_chunks, cleanup_failed_ingestion,
}
use dewflow.Knowledge.Recovery.{
  RecoveryService, RecoveryResult, reconcile_processing_task, reconcile_pending_task,
  reconcile_orphan_file,
}
use dewflow.Knowledge.Replay.{DispatchPayload, replay_dead}
use dewflow.Knowledge.Indexed.{IsIndexed}
use dewflow.Knowledge.Units.{create_file-IsIndexed, delete_file_record-IsIndexed}
use dewflow.Knowledge.Recovered.{
  reconcile_processing_task-Kept, reconcile_pending_task-Kept, reconcile_orphan_file-Kept,
}
use dewflow.Knowledge.Leaves.{execute-IsIndexed, IsIndexed-Kept}
use dewflow.Knowledge.Ingested.{
  load_file-IsIndexed, index_chunks-IsIndexed, cleanup_failed_ingestion-IsIndexed,
}
use dewflow.Knowledge.Replayed.{replay_dead-IsIndexed}

-- `on_tasks` is any statement on tasks, `on_outbox` any change of the outbox; `index` has the chunks of a
-- text that is not empty.
pub data Op : Type 0 where
  upload : File → Op
  remove : ℕ → Op
  on_tasks : (TaskJob → Bool) → (TaskJob → TaskJob) → Op
  on_outbox : (Rows → Rows) → Op
  load : IngestionWorkflow → Ticket → ℕ → ℕ → Op
  index : IngestionWorkflow → Ticket → ℕ → ℕ → IndexChunk → List IndexChunk → Op
  cleanup : IngestionWorkflow → Ticket → ℕ → ℕ → Op
  recover_processing : RecoveryService → Option File → TaskJob → ℕ → RecoveryResult → Op
  recover_pending : RecoveryService → Option File → TaskJob → ℕ → RecoveryResult → Op
  recover_orphan : RecoveryService → File → ℕ → RecoveryResult → Op
  replay : (String → Option DispatchPayload) → ℕ → ℕ → ℕ → Op

unfoldable pub apply : Op → KnowledgeDb → KnowledgeDb
apply (upload file) db = create_file file db
apply (remove file_id) db = delete_file_record file_id db
apply (on_tasks guard assign) db = (done (execute guard assign db)).1
apply (on_outbox f) db = record db { outbox = f db.outbox }
apply (load self ticket file_id now) db = (load_file self ticket file_id now db).1
apply (index self ticket file_id now c cs) db = (index_chunks self ticket file_id now (c ∷ cs) db).1
apply (cleanup self ticket file_id now) db = cleanup_failed_ingestion self ticket file_id now db
apply (recover_processing self file task now c) db =
    (reconcile_processing_task self file task now c db).1
apply (recover_pending self file task now c) db = (reconcile_pending_task self file task now c db).1
apply (recover_orphan self file now c) db = (reconcile_orphan_file self file now c db).1
apply (replay read_payload outbox_id attempt now) db =
    (replay_dead read_payload outbox_id attempt now db).1

unfoldable pub run : List Op → KnowledgeDb → KnowledgeDb
run [] db = db
run (op ∷ ops) db = run ops (apply op db)

-- A primary key is new when its row is inserted.
abbrev pub Callable : Op → KnowledgeDb → Type 0
Callable (upload file) db = find file_key file.id db.files ≡ none
Callable _ db = Unit

abbrev pub AllCallable : List Op → KnowledgeDb → Type 0
AllCallable [] db = Unit
AllCallable (op ∷ ops) db = Callable op db × AllCallable ops (apply op db)

apply-IsIndexed :
    (op : Op) (db : KnowledgeDb) → Callable op db → IsIndexed db → IsIndexed (apply op db)
unfolding apply
apply-IsIndexed (upload file) db c h = create_file-IsIndexed file db h c
apply-IsIndexed (remove file_id) db c h = delete_file_record-IsIndexed file_id db h
apply-IsIndexed (on_tasks guard assign) db c h = execute-IsIndexed guard assign db h
apply-IsIndexed (on_outbox f) db c h = h
apply-IsIndexed (load self ticket file_id now) db c h =
    load_file-IsIndexed self ticket file_id now db h
apply-IsIndexed (index self ticket file_id now ch cs) db c h =
    index_chunks-IsIndexed self ticket file_id now ch cs db h
apply-IsIndexed (cleanup self ticket file_id now) db c h =
    cleanup_failed_ingestion-IsIndexed self ticket file_id now db h
apply-IsIndexed (recover_processing self file task now r) db c h =
    reconcile_processing_task-Kept IsIndexed IsIndexed-Kept self task now r db h file
apply-IsIndexed (recover_pending self file task now r) db c h =
    reconcile_pending_task-Kept IsIndexed IsIndexed-Kept self task now r db h file
apply-IsIndexed (recover_orphan self file now r) db c h =
    reconcile_orphan_file-Kept IsIndexed IsIndexed-Kept self file now r db h
apply-IsIndexed (replay read_payload outbox_id attempt now) db c h =
    replay_dead-IsIndexed read_payload outbox_id attempt now db h

-- If the ids of files are distinct and a file is READY exactly when the index holds a chunk of it, then
-- this holds after every sequence of uploads, deletions, units of ingestions, recoveries and replays,
-- statements on tasks and changes of the outbox, whatever their arguments, where each upload has a new id.
pub run-IsIndexed :
    (ops : List Op) (db : KnowledgeDb) → AllCallable ops db → IsIndexed db → IsIndexed (run ops db)
unfolding run
run-IsIndexed [] db c h = h
run-IsIndexed (op ∷ ops) db c h = run-IsIndexed ops (apply op db) c.1 (apply-IsIndexed op db c.0 h)
