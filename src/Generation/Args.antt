-- ===== src/Generation/Args.antt =====
-- The keyword arguments of the methods of `ChatRepository` (backend/repositories/chat_repo.py), a
-- record for each method, and how a method ends.
use dewflow.Base.{ℕ, String, Bool, Option}
use dewflow.Generation.Row.{Status}

-- The exceptions that the methods and the recovery raise.
pub data Error : Type 0 where
  value_error runtime_error : Error

pub data Result {ℓ} (A : Type ℓ) : Type ℓ where
  ok : A → Result A
  err : Error → Result A

pub record CreateArgs : Type 0 where
  pub id : ℕ  -- the primary key that the session hands out
  pub user_id : ℕ
  pub client_request_id : String
  pub session_id : ℕ
  pub workspace_id : Option ℕ
  pub user_message_id : Option ℕ
  pub assistant_message_id : Option ℕ
  pub dispatch_context : Option String
  pub recovery_due_at : Option ℕ
  pub reserved_credits : ℕ

pub record QueueArgs : Type 0 where
  pub request_id : ℕ
  pub user_id : ℕ
  pub expected_attempt : ℕ
  pub task_id : String
  pub lease_token : String
  pub queued_at : ℕ
  pub recovery_due_at : ℕ

pub record ReserveArgs : Type 0 where
  pub request_id : ℕ
  pub expected_attempt : ℕ
  pub task_id : String
  pub lease_token : String
  pub expected_dispatch_attempts : ℕ
  pub max_dispatch_attempts : ℕ
  pub due_before : ℕ
  pub next_recovery_due_at : ℕ

pub record FailDueArgs : Type 0 where
  pub request_id : ℕ
  pub expected_status : Status
  pub expected_attempt : ℕ
  pub expected_dispatch_attempts : ℕ
  pub task_id : Option String
  pub lease_token : Option String
  pub due_before : ℕ
  pub finished_at : ℕ
  pub error_code : String
  pub error_message : String

pub record ClaimArgs : Type 0 where
  pub request_id : ℕ
  pub user_id : ℕ
  pub session_id : ℕ
  pub assistant_message_id : ℕ
  pub expected_attempt : ℕ
  pub task_id : String
  pub lease_token : String
  pub started_at : ℕ
  pub lease_expires_at : ℕ

pub record HeartbeatArgs : Type 0 where
  pub request_id : ℕ
  pub expected_attempt : ℕ
  pub lease_token : String
  pub heartbeat_at : ℕ
  pub lease_expires_at : ℕ

pub record FinalizeArgs : Type 0 where
  pub request_id : ℕ
  pub expected_attempt : ℕ
  pub lease_token : String
  pub target_status : Status
  pub finished_at : ℕ
  pub assistant_message_id : Option ℕ
  pub retryable : Bool
  pub error_code : Option String
  pub error_message : Option String

pub record RetryArgs : Type 0 where
  pub request_id : ℕ
  pub user_id : ℕ
  pub expected_attempt : ℕ
  pub dispatch_context : String
  pub recovery_due_at : ℕ
