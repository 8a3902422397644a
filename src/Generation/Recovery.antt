-- ===== src/Generation/Recovery.antt =====
-- `ChatGenerationRecoveryService` (backend/application/chat/generation_recovery.py): the scan that
-- brings due requests back to a worker, or to a failure that the owner can retry.
-- `async with self.uow` commits what its block wrote, or nothing if the block raises; the dispatch to
-- the broker stands outside, and the result counts how it went.
use dewflow.Base.{
  ℕ, ◌+◌, ◌*◌, String, Bool, true, false, ◌||◌, Option, none, some, leb, if◌then◌else◌, is_none,
  is_some, is_empty,
}
use dewflow.Generation.Row.{GenerationRequest, ChatDb, Status, prepared, queued, running, Metadata}
use dewflow.Generation.Args.{Result, ok, err, runtime_error, QueueArgs, ReserveArgs, FailDueArgs}
use dewflow.Generation.Dispatch.{
  try_queue_generation_request, try_reserve_generation_request_redispatch,
  try_fail_due_generation_request,
}
use dewflow.Generation.Message.{update_as_failed}

-- `GenerationAttemptPayload`
pub record AttemptPayload : Type 0 where
  pub request_id : ℕ
  pub attempt : ℕ
  pub task_id : String
  pub lease_token : String

-- The service's settings, and what it asks of code outside the repository: pydantic, which says
-- whether a stored dispatch context is one; `uuid4().hex`, drawn while a request is handled; and the
-- task broker, which takes a message or raises.
pub record RecoveryService : Type 0 where
  pub recovery_seconds : ℕ
  pub max_dispatch_attempts : ℕ
  pub batch_size : ℕ
  pub context_is_valid : Option String → Bool
  pub fresh_task_id : GenerationRequest → String
  pub fresh_lease_token : GenerationRequest → String
  pub accepts : GenerationRequest → AttemptPayload → Bool

-- `ChatGenerationRecoveryResult`
pub record RecoveryResult : Type 0 where
  pub scanned_count : ℕ
  pub prepared_dispatched_count : ℕ
  pub queued_redispatched_count : ℕ
  pub failed_count : ℕ
  pub conflict_count : ℕ
  pub dispatch_error_count : ℕ

abbrev pub dispatch_exhausted_code : String
dispatch_exhausted_code = "CHAT_DISPATCH_RETRY_EXHAUSTED"

abbrev pub lease_expired_code : String
lease_expired_code = "CHAT_GENERATION_LEASE_EXPIRED"

abbrev pub context_unavailable_code : String
context_unavailable_code = "CHAT_RECOVERY_CONTEXT_UNAVAILABLE"

-- One item's outcome is counted in one place.
abbrev pub count_failed : RecoveryResult → RecoveryResult
count_failed c = record c { failed_count = c.failed_count + 1 }

abbrev pub count_conflict : RecoveryResult → RecoveryResult
count_conflict c = record c { conflict_count = c.conflict_count + 1 }

abbrev pub count_dispatch_error : RecoveryResult → RecoveryResult
count_dispatch_error c = record c { dispatch_error_count = c.dispatch_error_count + 1 }

abbrev pub count_prepared : RecoveryResult → RecoveryResult
count_prepared c = record c { prepared_dispatched_count = c.prepared_dispatched_count + 1 }

abbrev pub count_redispatched : RecoveryResult → RecoveryResult
count_redispatched c = record c { queued_redispatched_count = c.queued_redispatched_count + 1 }

abbrev pub Outcome : Type 0
Outcome = Result RecoveryResult × ChatDb

-- the arguments of `_fail_request`'s statement
unfoldable pub fail_args : GenerationRequest → ℕ → String → String → FailDueArgs
fail_args snapshot now error_code error_message = record {
  request_id = snapshot.id;
  expected_status = snapshot.status;
  expected_attempt = snapshot.attempt;
  expected_dispatch_attempts = snapshot.dispatch_attempts;
  task_id = snapshot.task_id;
  lease_token = snapshot.lease_token;
  due_before = now;
  finished_at = now;
  error_code = error_code;
  error_message = error_message;
}

-- the message's part of the transaction, on the tables before it and after the statement
unfoldable pub fail_message : Option ℕ → String → ChatDb → ChatDb → Result Bool × ChatDb
fail_message none error_message before after = (ok true, after)
fail_message (some message_id) error_message before after =
    let (message, after') =
      update_as_failed message_id error_message Metadata.failed_outcome after in
    if is_some message then (ok true, after') else (err runtime_error, before)

-- what follows the statement: a raise rolls back to the tables before it
abbrev pub after_statement :
    Option ℕ → String → ChatDb → Result Bool × ChatDb → Result Bool × ChatDb
after_statement message error_message before (ok true, after) =
    fail_message message error_message before after
after_statement message error_message before (ok false, after) = (ok false, after)
after_statement message error_message before (err e, after) = (err e, before)

unfoldable pub fail_request :
    GenerationRequest → ℕ → String → String → ChatDb → Result Bool × ChatDb
fail_request snapshot now error_code error_message db =
    after_statement snapshot.assistant_message_id error_message db
      (try_fail_due_generation_request (fail_args snapshot now error_code error_message) db)

-- `if await self._fail_request(...): failed_count += 1, else: conflict_count += 1`
abbrev pub count_fail : RecoveryResult → Result Bool × ChatDb → Outcome
count_fail c (ok true, db) = (ok (count_failed c), db)
count_fail c (ok false, db) = (ok (count_conflict c), db)
count_fail c (err e, db) = (err e, db)

-- `not task_id or not lease_token`: a fence that is NULL or empty
unfoldable pub with_fences :
    Option String → Option String → Outcome → (String → String → Outcome) → Outcome
with_fences (some t) (some l) missing use_fences =
    if is_empty t || is_empty l then missing else use_fences t l
with_fences _ _ missing use_fences = missing

module _ (self : RecoveryService) where
  -- `_next_due`
  abbrev pub next_due : ℕ → ℕ
  next_due now = now + self.recovery_seconds * 1000000

  unfoldable pub queue_args : GenerationRequest → ℕ → QueueArgs
  queue_args snapshot now = record {
    request_id = snapshot.id;
    user_id = snapshot.user_id;
    expected_attempt = snapshot.attempt;
    task_id = self.fresh_task_id snapshot;
    lease_token = self.fresh_lease_token snapshot;
    queued_at = now;
    recovery_due_at = next_due now;
  }

  -- `_dispatch`: whether the broker took the message
  unfoldable pub dispatch : GenerationRequest → String → String → Bool
  dispatch snapshot task_id lease_token = self.accepts snapshot (record {
    request_id = snapshot.id;
    attempt = snapshot.attempt;
    task_id = task_id;
    lease_token = lease_token;
  })

  unfoldable pub recover_prepared : GenerationRequest → ℕ → RecoveryResult → ChatDb → Outcome
  recover_prepared snapshot now c db =
      let (was_queued, after) = try_queue_generation_request (queue_args snapshot now) db in
      let sent =
        dispatch snapshot (self.fresh_task_id snapshot) (self.fresh_lease_token snapshot) in
      (
        ok (
            if was_queued
            then (if sent then count_prepared c else count_dispatch_error c)
            else count_conflict c),
        after,
      )

  unfoldable pub reserve_args : GenerationRequest → String → String → ℕ → ReserveArgs
  reserve_args snapshot task_id lease_token now = record {
    request_id = snapshot.id;
    expected_attempt = snapshot.attempt;
    task_id = task_id;
    lease_token = lease_token;
    expected_dispatch_attempts = snapshot.dispatch_attempts;
    max_dispatch_attempts = self.max_dispatch_attempts;
    due_before = now;
    next_recovery_due_at = next_due now;
  }

  -- what follows the reservation
  abbrev pub after_reserve : Bool → RecoveryResult → ChatDb → Result (Option ℕ) × ChatDb → Outcome
  after_reserve sent c before (ok (some n), after) =
      (ok (if sent then count_redispatched c else count_dispatch_error c), after)
  after_reserve sent c before (ok none, after) = (ok (count_conflict c), after)
  after_reserve sent c before (err e, after) = (err e, before)

  -- the redispatch of a request whose fences are known
  unfoldable pub redispatch :
      GenerationRequest → String → String → ℕ → RecoveryResult → ChatDb → Outcome
  redispatch snapshot task_id lease_token now c db =
      after_reserve (dispatch snapshot task_id lease_token) c db (
        try_reserve_generation_request_redispatch (reserve_args snapshot task_id lease_token now)
          db)

  unfoldable pub recover_queued : GenerationRequest → ℕ → RecoveryResult → ChatDb → Outcome
  recover_queued snapshot now c db =
      if leb self.max_dispatch_attempts snapshot.dispatch_attempts
      then count_fail c (fail_request snapshot now dispatch_exhausted_code "生成任务派发失败，请重试" db)
      else with_fences snapshot.task_id snapshot.lease_token
          (count_fail c (fail_request snapshot now context_unavailable_code "生成任务恢复身份不可用，请重试" db))
          (λ t l. redispatch snapshot t l now c db)

  -- the checks of the assistant message and of the dispatch context
  unfoldable pub with_context : GenerationRequest → ℕ → RecoveryResult → ChatDb → Outcome → Outcome
  with_context snapshot now c db recovered =
      if is_none snapshot.assistant_message_id
      then count_fail c (fail_request snapshot now context_unavailable_code "生成任务恢复消息不可用，请重试" db)
      else if self.context_is_valid snapshot.dispatch_context
      then recovered
      else count_fail c (fail_request snapshot now context_unavailable_code "生成任务恢复上下文不可用，请重试" db)

  unfoldable pub reconcile_status :
      Status → GenerationRequest → ℕ → RecoveryResult → ChatDb → Outcome
  reconcile_status running snapshot now c db =
      count_fail c (fail_request snapshot now lease_expired_code "生成任务执行超时，请重试" db)
  reconcile_status prepared snapshot now c db =
      with_context snapshot now c db (recover_prepared snapshot now c db)
  reconcile_status queued snapshot now c db =
      with_context snapshot now c db (recover_queued snapshot now c db)
  reconcile_status _ snapshot now c db = with_context snapshot now c db (ok c, db)

  unfoldable pub reconcile_one : GenerationRequest → ℕ → RecoveryResult → ChatDb → Outcome
  reconcile_one snapshot = reconcile_status snapshot.status snapshot
