-- ===== src/Generation/Row.antt =====
-- The rows that the durable Chat generation requests are made of, from
-- backend/models/enums.py, backend/models/orm/chat.py and backend/models/orm/access.py.
-- A UUID is a number, since it is only compared; a time is a number of microseconds; a JSON document
-- is its text. Columns that no operation here reads or writes are left out.
use dewflow.Base.{ℕ, String, Bool, true, false, Option, List}

-- `MessageStatus`
pub data MessageStatus : Type 0 where
  thinking streaming success failed : MessageStatus

-- `ChatGenerationStatus`
pub data Status : Type 0 where
  prepared queued running succeeded failed : Status

-- `ChatSession`
pub record ChatSession : Type 0 where
  pub id : ℕ
  pub user_id : ℕ
  pub workspace_id : Option ℕ
  pub deleted_at : Option ℕ

-- `Workspace`
pub record Workspace : Type 0 where
  pub id : ℕ
  pub deleted_at : Option ℕ

-- `UserWorkspaceRole`
pub record UserWorkspaceRole : Type 0 where
  pub user_id : ℕ
  pub workspace_id : ℕ

-- A message's metadata, a JSON document: the empty one, that of `build_safety_metadata`
-- (backend/services/chat_safety_metadata.py) for a failure with no guardrail decision, or another.
pub data Metadata : Type 0 where
  empty : Metadata
  failed_outcome : Metadata
  document : String → Metadata

-- `ChatMessage`
pub record ChatMessage : Type 0 where
  pub id : ℕ
  pub is_assistant : Bool  -- `role == "assistant"`
  pub content : String
  pub status : MessageStatus
  pub search_context : Option String
  pub message_metadata : Metadata
  pub tokens_input : ℕ
  pub tokens_output : ℕ
  pub latency_ms : Option ℕ

-- `ChatGenerationRequest`
pub record GenerationRequest : Type 0 where
  pub id : ℕ
  pub user_id : ℕ
  pub workspace_id : Option ℕ
  pub session_id : ℕ
  pub user_message_id : Option ℕ
  pub assistant_message_id : Option ℕ
  pub client_request_id : String
  pub task_id : Option String
  pub status : Status
  pub attempt : ℕ
  pub dispatch_attempts : ℕ
  pub dispatch_context : Option String
  pub lease_token : Option String
  pub reserved_credits : ℕ
  pub retryable : Bool
  pub error_code : Option String
  pub error_message : Option String
  pub queued_at : Option ℕ
  pub started_at : Option ℕ
  pub heartbeat_at : Option ℕ
  pub lease_expires_at : Option ℕ
  pub recovery_due_at : Option ℕ
  pub finished_at : Option ℕ

-- The tables that a unit of work reads and writes.
pub record ChatDb : Type 0 where
  pub sessions : List ChatSession
  pub workspaces : List Workspace
  pub roles : List UserWorkspaceRole
  pub messages : List ChatMessage
  pub requests : List GenerationRequest

abbrev pub status_eq : Status → Status → Bool
status_eq prepared prepared = true
status_eq queued queued = true
status_eq running running = true
status_eq succeeded succeeded = true
status_eq failed failed = true
status_eq _ _ = false

-- `status in {PREPARED, QUEUED, RUNNING}`
abbrev pub is_nonterminal : Status → Bool
is_nonterminal succeeded = false
is_nonterminal failed = false
is_nonterminal _ = true
