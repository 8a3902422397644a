-- ===== src/Knowledge/Files.antt =====
-- The statements of `KnowledgeRepository` on files and chunks (backend/repositories/knowledge_repo.py).
use dewflow.Base.{
  ℕ, Bool, ◌&&◌, ◌||◌, not, Option, List, [], ◌∷◌, ◌++◌, ◌==◌, ltb, leb, if◌then◌else◌, is_some,
  num_is, none, map, str_eq, any, keep, take, order_by, update_where, returning, find,
}
use dewflow.Outbox.Store.{Result, ok, value_error}
use dewflow.Knowledge.Rows.{
  TaskStatus, FileStatus, uploaded, file_status_eq, one_of_files, one_of_tasks, TaskJob, File,
  DocumentChunk, KnowledgeDb, file_key,
}
use dewflow.Knowledge.Jobs.{kb_ingestion, bad_limit}

unfoldable pub get_file : ℕ → KnowledgeDb → Option File
get_file file_id db = find file_key file_id db.files

-- `create_file` of a new upload: the status defaults to UPLOADED
unfoldable pub create_file : File → KnowledgeDb → KnowledgeDb
create_file file db = record db { files = record file { status = uploaded } ∷ db.files }

-- `ON DELETE SET NULL` of `task_jobs.knowledge_file_id`
abbrev pub without_file : ℕ → TaskJob → TaskJob
without_file file_id t = record t {
  knowledge_file_id = if num_is t.knowledge_file_id file_id then none else t.knowledge_file_id;
}

-- The foreign keys delete the chunks of a file with it, and clear it in its tasks.
unfoldable pub delete_file_record : ℕ → KnowledgeDb → KnowledgeDb
delete_file_record file_id db = record db {
  tasks = map (without_file file_id) db.tasks;
  files = keep (λ f. not (f.id == file_id)) db.files;
  chunks = keep (λ c. not (c.file_id == file_id)) db.chunks;
}

unfoldable pub status_guard : ℕ → List FileStatus → File → Bool
status_guard file_id expected_previous_statuses f =
    f.id == file_id && one_of_files expected_previous_statuses f.status

unfoldable pub status_assign : ℕ → FileStatus → File → File
status_assign clock target_status f = record f { status = target_status; updated_at = clock }

unfoldable pub try_transition_file_status :
    ℕ → ℕ → List FileStatus → FileStatus → KnowledgeDb → Bool × KnowledgeDb
try_transition_file_status clock file_id expected_previous_statuses target_status db = (
  is_some (
      returning (status_guard file_id expected_previous_statuses)
        (status_assign clock target_status) db.files),
  record db {
    files =
        update_where (status_guard file_id expected_previous_statuses)
          (status_assign clock target_status) db.files;
  },
)

unfoldable pub delete_chunks_for_file : ℕ → KnowledgeDb → KnowledgeDb
delete_chunks_for_file file_id db = record db {
  chunks = keep (λ c. not (c.file_id == file_id)) db.chunks;
}

unfoldable pub add_chunks : List DocumentChunk → KnowledgeDb → KnowledgeDb
add_chunks new db = record db { chunks = new ++ db.chunks }

abbrev file_precedes : File → File → Bool
file_precedes a b = ltb a.updated_at b.updated_at || a.updated_at == b.updated_at && ltb a.id b.id

abbrev pub is_active_task : ℕ → TaskJob → Bool
is_active_task file_id t =
    num_is t.knowledge_file_id file_id
    && str_eq t.action_type kb_ingestion
    && one_of_tasks (TaskStatus.pending ∷ TaskStatus.processing ∷ []) t.status

unfoldable pub get_stale_uploaded_files_without_active_task :
    ℕ → ℕ → KnowledgeDb → Result (List File)
unfolding order_by
get_stale_uploaded_files_without_active_task older_than limit db =
    if bad_limit limit
    then value_error
    else ok (
        take limit (
          order_by file_precedes (
            keep
              (λ f.
                file_status_eq f.status uploaded
                && leb f.updated_at older_than
                && not (any (is_active_task f.id) db.tasks))
              db.files)))
