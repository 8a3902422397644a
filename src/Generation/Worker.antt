-- ===== src/Generation/Worker.antt =====
-- The statements of the worker that holds a request, and the retry by its owner
-- (backend/repositories/chat_repo.py): claim, heartbeat, finalize, retry, and the reset of the
-- assistant message.
use dewflow.Base.{
  ℕ, ◌+◌, String, Bool, true, false, ◌&&◌, ◌||◌, Option, none, some, ◌==◌, if◌then◌else◌, is_some,
  num_is, text_is, is_empty, update_where, returning,
}
use dewflow.Generation.Row.{
  GenerationRequest, ChatMessage, ChatDb, Status, prepared, queued, running, succeeded, failed,
  status_eq, MessageStatus, Metadata,
}
use dewflow.Generation.Args.{
  Result, ok, err, value_error, ClaimArgs, HeartbeatArgs, FinalizeArgs, RetryArgs,
}
use dewflow.Generation.Scope.{actor_scope, execute}

unfoldable pub claim_guard : ClaimArgs → GenerationRequest → Bool
claim_guard a r =
    r.id == a.request_id
    && r.user_id == a.user_id
    && r.session_id == a.session_id
    && num_is r.assistant_message_id a.assistant_message_id
    && status_eq r.status queued
    && r.attempt == a.expected_attempt
    && text_is r.task_id a.task_id
    && text_is r.lease_token a.lease_token

unfoldable pub claim_assign : ClaimArgs → GenerationRequest → GenerationRequest
claim_assign a r = record r {
  status = running;
  started_at = some a.started_at;
  heartbeat_at = some a.started_at;
  lease_expires_at = some a.lease_expires_at;
  recovery_due_at = some a.lease_expires_at;
}

unfoldable pub try_claim_generation_request : ClaimArgs → ChatDb → Bool × ChatDb
try_claim_generation_request a db =
    let (row, db') = execute (claim_guard a) (claim_assign a) db in (is_some row, db')

-- The fence of a running attempt, which the heartbeat and the finalisation share.
abbrev pub running_fence : ℕ → ℕ → String → GenerationRequest → Bool
running_fence request_id expected_attempt lease_token r =
    r.id == request_id
    && status_eq r.status running
    && r.attempt == expected_attempt
    && text_is r.lease_token lease_token

unfoldable pub heartbeat_guard : HeartbeatArgs → GenerationRequest → Bool
heartbeat_guard a = running_fence a.request_id a.expected_attempt a.lease_token

unfoldable pub heartbeat_assign : HeartbeatArgs → GenerationRequest → GenerationRequest
heartbeat_assign a r = record r {
  heartbeat_at = some a.heartbeat_at;
  lease_expires_at = some a.lease_expires_at;
  recovery_due_at = some a.lease_expires_at;
}

unfoldable pub try_heartbeat_generation_request : HeartbeatArgs → ChatDb → Bool × ChatDb
try_heartbeat_generation_request a db =
    let (row, db') = execute (heartbeat_guard a) (heartbeat_assign a) db in (is_some row, db')

-- `not error_code` of a text that may be None
abbrev pub is_falsy : Option String → Bool
is_falsy none = true
is_falsy (some t) = is_empty t

-- the three `raise ValueError`, by the target status
abbrev pub finalize_rejects_target : Status → FinalizeArgs → Bool
finalize_rejects_target succeeded a = a.retryable || is_some a.error_code || is_some a.error_message
finalize_rejects_target failed a = is_falsy a.error_code
finalize_rejects_target _ a = true

unfoldable pub finalize_rejects : FinalizeArgs → Bool
finalize_rejects a = finalize_rejects_target a.target_status a

unfoldable pub finalize_guard : FinalizeArgs → GenerationRequest → Bool
finalize_guard a = running_fence a.request_id a.expected_attempt a.lease_token

abbrev pub or_keep : Option ℕ → Option ℕ → Option ℕ
or_keep none old = old
or_keep (some n) old = some n

unfoldable pub finalize_assign : FinalizeArgs → GenerationRequest → GenerationRequest
finalize_assign a r =
    let is_failed = status_eq a.target_status failed in
    record r {
      status = a.target_status;
      finished_at = some a.finished_at;
      recovery_due_at = none;
      retryable = if is_failed then a.retryable else false;
      error_code = if is_failed then a.error_code else none;
      error_message = if is_failed then a.error_message else none;
      assistant_message_id = or_keep a.assistant_message_id r.assistant_message_id;
    }

unfoldable pub try_finalize_generation_request : FinalizeArgs → ChatDb → Result Bool × ChatDb
try_finalize_generation_request a db =
    if finalize_rejects a
    then (err value_error, db)
    else (let (row, db') = execute (finalize_guard a) (finalize_assign a) db in
        (ok (is_some row), db'))

unfoldable pub retry_guard : ChatDb → RetryArgs → GenerationRequest → Bool
retry_guard db a r =
    r.id == a.request_id
    && status_eq r.status failed
    && r.retryable
    && r.attempt == a.expected_attempt
    && actor_scope db a.user_id r

unfoldable pub retry_assign : RetryArgs → GenerationRequest → GenerationRequest
retry_assign a r = record r {
  status = prepared;
  attempt = r.attempt + 1;
  dispatch_attempts = 0;
  dispatch_context = some a.dispatch_context;
  task_id = none;
  lease_token = none;
  retryable = false;
  error_code = none;
  error_message = none;
  queued_at = none;
  started_at = none;
  heartbeat_at = none;
  lease_expires_at = none;
  recovery_due_at = some a.recovery_due_at;
  finished_at = none;
}

-- The attempt that RETURNING gives.
abbrev pub returned_attempt : Option GenerationRequest → Option ℕ
returned_attempt none = none
returned_attempt (some r) = some r.attempt

unfoldable pub try_retry_generation_request : RetryArgs → ChatDb → Option ℕ × ChatDb
try_retry_generation_request a db =
    let (row, db') = execute (retry_guard db a) (retry_assign a) db in (returned_attempt row, db')

is_message_failed : MessageStatus → Bool
is_message_failed MessageStatus.failed = true
is_message_failed _ = false

reset_guard : ℕ → ChatMessage → Bool
unfolding is_message_failed
reset_guard message_id m = m.id == message_id && m.is_assistant && is_message_failed m.status

reset_assign : ChatMessage → ChatMessage
reset_assign m = record m {
  status = MessageStatus.thinking;
  content = "";
  latency_ms = none;
  tokens_input = 0;
  tokens_output = 0;
  search_context = none;
  message_metadata = Metadata.empty;
}

unfoldable pub reset_assistant_message_for_retry : ℕ → ChatDb → Bool × ChatDb
unfolding reset_guard reset_assign
reset_assistant_message_for_retry message_id db = (
  is_some (returning (reset_guard message_id) reset_assign db.messages),
  record db { messages = update_where (reset_guard message_id) reset_assign db.messages },
)
