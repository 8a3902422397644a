-- ===== src/Knowledge/Rows.antt =====
-- The tables of Knowledge: `TaskJob` (backend/models/orm/task.py), `File`
-- (backend/models/orm/knowledge.py), the chunks of the index, and the outbox. A UUID is a number, a
-- time a number of microseconds, a payload the text of its JSON document.
use dewflow.Base.{ℕ, String, Bool, true, false, Option, List, any}
use dewflow.Outbox.Store.{Rows}

-- `TaskStatus`
pub data TaskStatus : Type 0 where
  pending processing completed failed canceled : TaskStatus

abbrev pub task_status_eq : TaskStatus → TaskStatus → Bool
task_status_eq pending pending = true
task_status_eq processing processing = true
task_status_eq completed completed = true
task_status_eq failed failed = true
task_status_eq canceled canceled = true
task_status_eq _ _ = false

-- `FileStatus`
pub data FileStatus : Type 0 where
  uploaded parsing chunking ready failed : FileStatus

abbrev pub file_status_eq : FileStatus → FileStatus → Bool
file_status_eq uploaded uploaded = true
file_status_eq parsing parsing = true
file_status_eq chunking chunking = true
file_status_eq ready ready = true
file_status_eq FileStatus.failed FileStatus.failed = true
file_status_eq _ _ = false

-- `TaskJob`
pub record TaskJob : Type 0 where
  pub id : ℕ
  pub action_type : String
  pub status : TaskStatus
  pub progress : ℕ
  pub payload : String
  pub error_log : Option String
  pub knowledge_file_id : Option ℕ
  pub knowledge_base_id : Option ℕ
  pub attempt_count : ℕ
  pub user_id : Option ℕ
  pub started_at : Option ℕ
  pub finished_at : Option ℕ
  pub heartbeat_at : Option ℕ
  pub lease_expires_at : Option ℕ
  pub updated_at : ℕ

-- `File`
pub record File : Type 0 where
  pub id : ℕ
  pub kb_id : ℕ
  pub filename : String
  pub file_path : String
  pub file_size : ℕ
  pub content_sha256 : Option String
  pub status : FileStatus
  pub owner_id : Option ℕ
  pub updated_at : ℕ

-- a row of the index that belongs to a file
pub record DocumentChunk : Type 0 where
  pub file_id : ℕ
  pub chunk_index : ℕ
  pub content : String
  pub embedding : ℕ

pub record KnowledgeDb : Type 0 where
  pub tasks : List TaskJob
  pub files : List File
  pub chunks : List DocumentChunk
  pub outbox : Rows

abbrev pub task_key : TaskJob → ℕ
task_key t = t.id

abbrev pub file_key : File → ℕ
file_key f = f.id

abbrev pub one_of_tasks : List TaskStatus → TaskStatus → Bool
one_of_tasks expected s = any (task_status_eq s) expected

abbrev pub one_of_files : List FileStatus → FileStatus → Bool
one_of_files expected s = any (file_status_eq s) expected
