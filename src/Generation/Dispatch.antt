-- ===== src/Generation/Dispatch.antt =====
-- The statements before a worker has the request (backend/repositories/chat_repo.py): create, queue,
-- redispatch and fail when due. Each method is a guard (the WHERE of its UPDATE), an assignment (its
-- SET) and the method itself, which checks its arguments, runs the statement and reads RETURNING.
use dewflow.Base.{
  ℕ, ◌+◌, String, Bool, true, false, ◌&&◌, ◌||◌, not, Option, none, some, ◌∷◌, ltb, ◌==◌,
  if◌then◌else◌, is_none, is_some, text_is, due_by, is_blank, is_empty,
}
use dewflow.Generation.Row.{
  GenerationRequest, ChatDb, prepared, queued, failed, status_eq, is_nonterminal,
}
use dewflow.Generation.Args.{
  Result, ok, err, value_error, CreateArgs, QueueArgs, ReserveArgs, FailDueArgs,
}
use dewflow.Generation.Scope.{actor_scope, execute}

-- `create_generation_request`: the row that is inserted
unfoldable pub new_request : CreateArgs → GenerationRequest
new_request a = record {
  id = a.id;
  user_id = a.user_id;
  workspace_id = a.workspace_id;
  session_id = a.session_id;
  user_message_id = a.user_message_id;
  assistant_message_id = a.assistant_message_id;
  client_request_id = a.client_request_id;
  task_id = none;
  status = prepared;
  attempt = 1;
  dispatch_attempts = 0;
  dispatch_context = a.dispatch_context;
  lease_token = none;
  reserved_credits = a.reserved_credits;
  retryable = false;
  error_code = none;
  error_message = none;
  queued_at = none;
  started_at = none;
  heartbeat_at = none;
  lease_expires_at = none;
  recovery_due_at = a.recovery_due_at;
  finished_at = none;
}

unfoldable pub create_generation_request : CreateArgs → ChatDb → GenerationRequest × ChatDb
unfolding new_request
create_generation_request a db =
    (new_request a, record db { requests = new_request a ∷ db.requests })

unfoldable pub queue_guard : ChatDb → QueueArgs → GenerationRequest → Bool
queue_guard db a r =
    r.id == a.request_id
    && status_eq r.status prepared
    && r.attempt == a.expected_attempt
    && actor_scope db a.user_id r

unfoldable pub queue_assign : QueueArgs → GenerationRequest → GenerationRequest
queue_assign a r = record r {
  status = queued;
  task_id = some a.task_id;
  lease_token = some a.lease_token;
  dispatch_attempts = r.dispatch_attempts + 1;
  queued_at = some a.queued_at;
  recovery_due_at = some a.recovery_due_at;
  retryable = false;
  error_code = none;
  error_message = none;
  finished_at = none;
}

unfoldable pub try_queue_generation_request : QueueArgs → ChatDb → Bool × ChatDb
try_queue_generation_request a db =
    let (row, db') = execute (queue_guard db a) (queue_assign a) db in (is_some row, db')

unfoldable pub reserve_guard : ReserveArgs → GenerationRequest → Bool
reserve_guard a r =
    r.id == a.request_id
    && status_eq r.status queued
    && r.attempt == a.expected_attempt
    && text_is r.task_id a.task_id
    && text_is r.lease_token a.lease_token
    && r.dispatch_attempts == a.expected_dispatch_attempts
    && ltb r.dispatch_attempts a.max_dispatch_attempts
    && due_by r.recovery_due_at a.due_before

unfoldable pub reserve_assign : ReserveArgs → GenerationRequest → GenerationRequest
reserve_assign a r = record r {
  dispatch_attempts = r.dispatch_attempts + 1;
  recovery_due_at = some a.next_recovery_due_at;
}

-- the two `raise ValueError`
unfoldable pub reserve_rejects : ReserveArgs → Bool
reserve_rejects a = ltb a.expected_dispatch_attempts 1 || ltb a.max_dispatch_attempts 1

-- The dispatch count that RETURNING gives.
abbrev pub returned_dispatch_attempts : Option GenerationRequest → Option ℕ
returned_dispatch_attempts none = none
returned_dispatch_attempts (some r) = some r.dispatch_attempts

unfoldable pub try_reserve_generation_request_redispatch :
    ReserveArgs → ChatDb → Result (Option ℕ) × ChatDb
try_reserve_generation_request_redispatch a db =
    if reserve_rejects a
    then (err value_error, db)
    else (let (row, db') = execute (reserve_guard a) (reserve_assign a) db in
        (ok (returned_dispatch_attempts row), db'))

-- `column IS NULL` for an expected `None`, else `column == value`
abbrev pub same_fence : Option String → Option String → Bool
same_fence column none = is_none column
same_fence column (some t) = text_is column t

-- the conditions that depend on the expected status
abbrev pub fence_guard : FailDueArgs → GenerationRequest → Bool
fence_guard a r =
    if status_eq a.expected_status prepared
    then is_none r.task_id && is_none r.lease_token
    else same_fence r.task_id a.task_id && same_fence r.lease_token a.lease_token

unfoldable pub fail_due_guard : FailDueArgs → GenerationRequest → Bool
fail_due_guard a r =
    r.id == a.request_id
    && status_eq r.status a.expected_status
    && r.attempt == a.expected_attempt
    && r.dispatch_attempts == a.expected_dispatch_attempts
    && due_by r.recovery_due_at a.due_before
    && fence_guard a r

unfoldable pub fail_due_assign : FailDueArgs → GenerationRequest → GenerationRequest
fail_due_assign a r = record r {
  status = failed;
  retryable = true;
  error_code = some a.error_code;
  error_message = some a.error_message;
  recovery_due_at = none;
  finished_at = some a.finished_at;
}

-- `text == ""` of a text that may be None
abbrev pub is_empty_text : Option String → Bool
is_empty_text none = false
is_empty_text (some t) = is_empty t

-- the four `raise ValueError`
unfoldable pub fail_due_rejects : FailDueArgs → Bool
fail_due_rejects a =
    not (is_nonterminal a.expected_status)
    || is_blank a.error_code
    || (if status_eq a.expected_status prepared
        then is_some a.task_id || is_some a.lease_token
        else is_empty_text a.task_id || is_empty_text a.lease_token)

unfoldable pub try_fail_due_generation_request : FailDueArgs → ChatDb → Result Bool × ChatDb
try_fail_due_generation_request a db =
    if fail_due_rejects a
    then (err value_error, db)
    else (let (row, db') = execute (fail_due_guard a) (fail_due_assign a) db in
        (ok (is_some row), db'))
