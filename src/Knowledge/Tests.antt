-- ===== src/Knowledge/Tests.antt =====
-- One file through its ingestion and its recovery, and each theorem about them at it.
use dewflow.Base.{
  any, ℕ, ◌≡◌, refl, String, true, none, some, List, [], ◌∷◌, ◌≤◌, if◌then◌else◌, map, find, str_eq,
}
use dewflow.Outbox.Store.{clip}
use dewflow.Outbox.Store
use dewflow.Knowledge.Rows.{
  TaskStatus, FileStatus, completed, pending, processing, uploaded, parsing, TaskJob, File,
  DocumentChunk, KnowledgeDb,
}
use dewflow.Knowledge.Jobs.{
  fail_guard, is_active_event, kb_ingestion, get, try_claim_kb_ingestion_task, claim_guard,
  expired_guard, attempt_guard,
}
use dewflow.Knowledge.Files.{get_file, status_assign}
use dewflow.Knowledge.Index.{
  IndexChunk, IndexService, prepare_chunk_records, Failure, other_exception, ok, err,
}
use dewflow.Knowledge.Ingestion.{Ticket, IngestionWorkflow}
use dewflow.Knowledge.Worker.{IngestionWorker, ingest_knowledge_file_task}
use dewflow.Knowledge.Overtaken.{overtaken_fails}
use dewflow.Outbox.Store.{TaskOutbox}
use dewflow.Knowledge.Recovery.{
  reconcile_pending_task, failed_pair, get_for_task_event, RecoveryService, scanned, retry_pair,
  tally, retried,
}
use dewflow.Knowledge.Indexed.{IsIndexed}
use dewflow.Knowledge.Batches.{unbatched_records, prepare_chunk_records-unbatched}
use dewflow.Knowledge.History.{Op, upload, load, index, run, run-IsIndexed}
use dewflow.Knowledge.Fences.{Refuses, claim_fences}
use dewflow.Knowledge.Revived.{IsRevived, retry_pair-IsRevived}
use dewflow.Knowledge.Claimed.{Settled}
use dewflow.Knowledge.Completed.{
  ingested, parsed_at, ingest_knowledge_file_task-completes, ingest_knowledge_file_task-fails,
}

abbrev file : File
file = record {
  id = 1;
  kb_id = 2;
  filename = "notes.txt";
  file_path = "kb/2/notes.txt";
  file_size = 9;
  content_sha256 = none;
  status = uploaded;
  owner_id = some 3;
  updated_at = 0;
}

abbrev job : TaskJob
job = record {
  id = 5;
  action_type = kb_ingestion;
  status = pending;
  progress = 0;
  payload = "{}";
  error_log = none;
  knowledge_file_id = some 1;
  knowledge_base_id = some 2;
  attempt_count = 1;
  user_id = some 3;
  started_at = none;
  finished_at = none;
  heartbeat_at = none;
  lease_expires_at = none;
  updated_at = 0;
}

abbrev empty_db : KnowledgeDb
empty_db = record { tasks = []; files = []; chunks = []; outbox = [] }

abbrev new_db : KnowledgeDb
new_db = record { tasks = job ∷ []; files = file ∷ []; chunks = []; outbox = [] }

abbrev first : IndexChunk
first = record { content = "a"; embedding_content = "notes.txt a" }

abbrev second : IndexChunk
second = record { content = "b"; embedding_content = "notes.txt b" }

abbrev text_length : String → ℕ
text_length s = if str_eq s "notes.txt a" then 7 else 8

abbrev one_by_one : IndexService
one_by_one = record { embed_batch_size = 1; encode_documents = λ xs. ok (map text_length xs) }

abbrev workflow : IngestionWorkflow
workflow = record {
  lease_seconds = 60;
  index = one_by_one;
  extract_chunks = λ f. ok (first ∷ second ∷ []);
}

abbrev worker : IngestionWorker
worker = record { workflow = workflow; message_of = λ code. code }

abbrev broken_worker : IngestionWorker
broken_worker = record {
  workflow = record workflow { extract_chunks = λ f. err other_exception };
  message_of = λ code. code;
}

abbrev recovery : RecoveryService
recovery = record {
  stale_timeout_seconds = 1;
  max_ingestion_attempts = 3;
  max_publish_attempts = 3;
  user_exists = λ user_id. true;
  batch_size = 100;
  fresh_outbox_id = λ n. n;
  fresh_task_id = λ n. n;
  dispatch_payload = λ f t. "{}";
  task_payload = λ f u. "{}";
  clock = λ n. 9;
}

abbrev no_ticket : Ticket
no_ticket = record { task_id = none; expected_attempt = none }

abbrev same : {A : Type 0} → A → KnowledgeDb → KnowledgeDb
same a db = db

abbrev later : ℕ → ℕ
later n = 10

prepare_chunk_records-unbatched_example :
    prepare_chunk_records one_by_one 1 (first ∷ second ∷ [])
    ≡ ok (unbatched_records 1 text_length (first ∷ second ∷ []))
prepare_chunk_records-unbatched_example =
    prepare_chunk_records-unbatched 1 text_length one_by_one (λ xs. refl) (first ∷ second ∷ [])

abbrev steps : List Op
steps =
    upload file
    ∷ load workflow no_ticket 1 10
    ∷ index workflow no_ticket 1 20 first (second ∷ [])
    ∷ []

run-IsIndexed_example : IsIndexed (run steps empty_db)
unfolding find
run-IsIndexed_example = run-IsIndexed steps empty_db (refl, (tt, (tt, tt))) (tt, λ k. refl)

job_claimable : claim_guard 5 1 job ≡ true
unfolding claim_guard
job_claimable = refl

job_here : get 5 new_db ≡ some job
unfolding get find
job_here = refl

file_here : get_file 1 new_db ≡ some file
unfolding get_file find
file_here = refl

abbrev records : List DocumentChunk
records = unbatched_records 1 text_length (first ∷ second ∷ [])

prepared : prepare_chunk_records one_by_one 1 (first ∷ second ∷ []) ≡ ok records
prepared =
    prepare_chunk_records-unbatched 1 text_length one_by_one (λ xs. refl) (first ∷ second ∷ [])

claim_fences_example :
    (after : KnowledgeDb) × (try_claim_kb_ingestion_task 10 5 1 10 70 new_db ≡ (some 2, after))
    × ((c other a e : ℕ) → try_claim_kb_ingestion_task c 5 other a e after ≡ (none, after))
    × ((m : ℕ) → m ≤ 1 → Refuses 5 m after)
claim_fences_example =
    claim_fences 5 1 10 10 70 new_db job (unfold find in refl, tt) job_here job_claimable

ingest_knowledge_file_task-completes_example :
    (after : KnowledgeDb) × (ingest_knowledge_file_task worker 5 1 same later 10 new_db
      ≡ (ok tt, after))
    × Settled 5 1 completed 2 (ingested later file) records after
ingest_knowledge_file_task-completes_example =
    ingest_knowledge_file_task-completes worker 5 1 job file same later 10 new_db first
      (second ∷ []) records (unfold find in refl, tt) (unfold find in refl, tt) job_here
      job_claimable file_here refl (λ i f cs db h. h) refl prepared

ingest_knowledge_file_task-fails_example :
    (y : Failure) × (after : KnowledgeDb) × (ingest_knowledge_file_task broken_worker 5 1 same later
        10 new_db
      ≡ (err y, after))
    × Settled 5 1 TaskStatus.failed 2
        (status_assign 10 FileStatus.failed (parsed_at later file))
        []
        after
ingest_knowledge_file_task-fails_example =
    ingest_knowledge_file_task-fails broken_worker 5 1 job file same later 10 new_db other_exception
      (unfold find in refl, tt) (unfold find in refl, tt) job_here job_claimable file_here refl
      (λ i f cs db h. h) refl

-- A worker has vanished with the task and its file.
abbrev lost_job : TaskJob
lost_job = record job { status = processing; lease_expires_at = some 100 }

abbrev lost_file : File
lost_file = record file { status = parsing }

abbrev lost_db : KnowledgeDb
lost_db = record { tasks = lost_job ∷ []; files = lost_file ∷ []; chunks = []; outbox = [] }

lost_job_here : get 5 lost_db ≡ some lost_job
unfolding get find
lost_job_here = refl

lost_file_here : get_file 1 lost_db ≡ some lost_file
unfolding get_file find
lost_file_here = refl

expired : expired_guard 5 1 2000000 1000000 lost_job ≡ true
unfolding expired_guard attempt_guard
expired = refl

retry_pair-IsRevived_example :
    (after : KnowledgeDb) × (retry_pair recovery lost_job lost_file 2000000 (scanned 1 0) lost_db
      ≡ (Store.ok (tally retried (scanned 1 0)), after))
    × IsRevived lost_job lost_file after
retry_pair-IsRevived_example =
    retry_pair-IsRevived recovery lost_job lost_file 2000000 (scanned 1 0) lost_db lost_job
      lost_file (unfold find in refl, tt) (unfold find in refl, tt) lost_job_here expired refl
      lost_file_here refl

-- The event of the task has been opened again since the scan.
abbrev event : TaskOutbox
event = record {
  id = 4;
  task_id = 5;
  event_type = "knowledge.ingestion.requested";
  payload = "{}";
  status = Store.pending;
  attempt_count = 0;
  next_attempt_at = some 10;
  lease_owner = none;
  lease_expires_at = none;
  published_at = none;
  last_error = none;
}

abbrev reopened_db : KnowledgeDb
reopened_db = record new_db { outbox = event ∷ [] }

job_reopened : get 5 reopened_db ≡ some job
unfolding get find
job_reopened = refl

file_reopened : get_file 1 reopened_db ≡ some file
unfolding get_file find
file_reopened = refl

event_here : get_for_task_event 5 reopened_db ≡ some event
unfolding get_for_task_event
event_here = refl

failable : fail_guard 5 (pending ∷ []) (some 1) job ≡ true
unfolding fail_guard
failable = refl

overtaken_fails_example :
    (after : KnowledgeDb) × (reconcile_pending_task recovery
        (some file)
        job
        2000000
        (scanned 1 0)
        reopened_db
      ≡ (Store.ok (tally failed_pair (scanned 1 0)), after))
    × ((t' : TaskJob) × (get 5 after ≡ some t') × (t'.status ≡ TaskStatus.failed))
    × (any (is_active_event 5) after.outbox ≡ true)
overtaken_fails_example =
    overtaken_fails recovery job file 2000000 (scanned 1 0) reopened_db job file event
      (unfold find in refl, tt) (unfold find in refl, tt) job_reopened failable refl refl
      file_reopened refl event_here refl
