-- ===== src/Generation/Tests.antt =====
-- One request through its life, and each theorem about the lifecycle at it.
use dewflow.Base.{
  ◌+◌, ◌≤◌, ◌≡◌, ◌⊎◌, refl, true, false, none, some, List, [], ◌∷◌, All, find, arith, is_blank_sql,
  is_empty, update_where, returning, is_some,
}
use dewflow.Generation.Row.{
  GenerationRequest, ChatDb, ChatMessage, MessageStatus, Metadata, prepared, succeeded, failed,
}
use dewflow.Generation.Args.{
  ok, CreateArgs, QueueArgs, ReserveArgs, ClaimArgs, HeartbeatArgs, FinalizeArgs, RetryArgs,
}
use dewflow.Generation.Scope.{actor_scope, execute}
use dewflow.Generation.Dispatch.{
  new_request, create_generation_request, queue_guard, queue_assign, reserve_guard, reserve_assign,
  reserve_rejects, try_queue_generation_request,
}
use dewflow.Generation.Worker.{
  claim_guard, claim_assign, try_claim_generation_request, try_heartbeat_generation_request,
  finalize_guard, finalize_assign, finalize_rejects, try_finalize_generation_request, retry_guard,
  retry_assign,
}
use dewflow.Generation.History.{
  Op, create, queue, reserve, claim, finalize, retry, key, apply, run, AllCallable, IsSoundDb,
  step_row,
}
use dewflow.Generation.Invariant.{run-IsSoundDb}
use dewflow.Generation.Progress.{Edge, age, age-run, step_row-Edge}
use dewflow.Generation.Keys.{IsKeyed}
use dewflow.Generation.Fences.{claimed_once, finalized_once, stale_worker_fenced}
use dewflow.Generation.Bounds.{Dispatched, run-Dispatched}
use dewflow.Generation.Recovery.{
  RecoveryService, reconcile_one, count_conflict, reconcile_status, with_context, recover_prepared,
  queue_args,
}
use dewflow.Generation.Scan.{get_due_generation_requests, reconcile_due_requests, scanned}
use dewflow.Generation.Accounts.{handled, reconcile_accounts}
use dewflow.Generation.Settle.{SettledBy, recovery_settles}

abbrev message : ChatMessage
message = record {
  id = 3;
  is_assistant = true;
  content = "";
  status = MessageStatus.thinking;
  search_context = none;
  message_metadata = Metadata.empty;
  tokens_input = 0;
  tokens_output = 0;
  latency_ms = none;
}

-- A personal session of user 7, with no request yet.
abbrev start : ChatDb
start = record {
  sessions = record { id = 5; user_id = 7; workspace_id = none; deleted_at = none } ∷ [];
  workspaces = [];
  roles = [];
  messages = message ∷ [];
  requests = [];
}

abbrev creation : CreateArgs
creation = record {
  id = 1;
  user_id = 7;
  client_request_id = "r";
  session_id = 5;
  workspace_id = none;
  user_message_id = some 2;
  assistant_message_id = some 3;
  dispatch_context = some "{}";
  recovery_due_at = some 10;
  reserved_credits = 0;
}

abbrev queueing : QueueArgs
queueing = record {
  request_id = 1;
  user_id = 7;
  expected_attempt = 1;
  task_id = "t";
  lease_token = "l";
  queued_at = 11;
  recovery_due_at = 20;
}

abbrev claiming : ClaimArgs
claiming = record {
  request_id = 1;
  user_id = 7;
  session_id = 5;
  assistant_message_id = 3;
  expected_attempt = 1;
  task_id = "t";
  lease_token = "l";
  started_at = 12;
  lease_expires_at = 30;
}

abbrev beating : HeartbeatArgs
beating = record {
  request_id = 1;
  expected_attempt = 1;
  lease_token = "l";
  heartbeat_at = 13;
  lease_expires_at = 31;
}

abbrev failing : FinalizeArgs
failing = record {
  request_id = 1;
  expected_attempt = 1;
  lease_token = "l";
  target_status = failed;
  finished_at = 14;
  assistant_message_id = none;
  retryable = true;
  error_code = some "E";
  error_message = none;
}

abbrev retrying : RetryArgs
retrying = record {
  request_id = 1;
  user_id = 7;
  expected_attempt = 1;
  dispatch_context = "{}";
  recovery_due_at = 40;
}

abbrev before_claim : List Op
before_claim = create creation ∷ queue queueing ∷ []

abbrev life : List Op
life = create creation ∷ queue queueing ∷ claim claiming ∷ finalize failing ∷ retry retrying ∷ []

-- Tables by rows: prepared, queued and running.
abbrev row_prepared : GenerationRequest
row_prepared = new_request creation

abbrev row_queued : GenerationRequest
row_queued = queue_assign queueing row_prepared

abbrev row_running : GenerationRequest
row_running = claim_assign claiming row_queued

abbrev row_failed : GenerationRequest
row_failed = finalize_assign failing row_running

abbrev holding : GenerationRequest → ChatDb
holding r = record start { requests = r ∷ [] }

abbrev succeeding : FinalizeArgs
succeeding = record failing { target_status = succeeded; retryable = false; error_code = none }

-- A service whose broker takes every message, with a budget of three dispatches.
abbrev service : RecoveryService
service = record {
  recovery_seconds = 300;
  max_dispatch_attempts = 3;
  batch_size = 100;
  context_is_valid = λ context. is_some context;
  fresh_task_id = λ r. "t2";
  fresh_lease_token = λ r. "l2";
  accepts = λ r payload. true;
}

-- The life ends in a second attempt that is prepared.
life_ends :
    (find key 1 (run life start).requests)
    ≡ some (
        retry_assign retrying (
          finalize_assign failing
            (claim_assign claiming (queue_assign queueing (new_request creation)))))
unfolding run apply create_generation_request new_request queue_guard queue_assign claim_guard
    claim_assign finalize_guard finalize_assign finalize_rejects retry_guard retry_assign
    actor_scope find update_where is_empty
life_ends = refl

life_callable : AllCallable life start
unfolding is_blank_sql run find
life_callable = ((refl, refl), ((refl, refl), (tt, ((λ e. refl), (tt, tt)))))

run-IsSoundDb_example : IsSoundDb (run life start)
run-IsSoundDb_example = run-IsSoundDb life start life_callable tt

abbrev reserving : ReserveArgs
reserving = record {
  request_id = 1;
  expected_attempt = 1;
  task_id = "t";
  lease_token = "l";
  expected_dispatch_attempts = 1;
  max_dispatch_attempts = 3;
  due_before = 25;
  next_recovery_due_at = 325;
}

-- The queued request is dispatched a second time before a worker claims it.
abbrev long_life : List Op
long_life = create creation ∷ queue queueing ∷ reserve reserving ∷ claim claiming ∷ []

dispatched_twice :
    find key 1 (run long_life start).requests
    ≡ some (claim_assign claiming (reserve_assign reserving row_queued))
unfolding run apply create_generation_request new_request queue_guard queue_assign reserve_guard
    reserve_assign reserve_rejects claim_guard claim_assign actor_scope find update_where is_empty
dispatched_twice = refl

long_life_callable : AllCallable long_life start
unfolding is_blank_sql run find
long_life_callable = ((refl, refl), ((refl, refl), (tt, (tt, tt))))

run-Dispatched_example : All (Dispatched 3) (run long_life start).requests
run-Dispatched_example =
    run-Dispatched 3 long_life start (omega arith) long_life_callable
      (tt, (tt, (omega arith, (tt, tt)))) tt tt

holding-IsKeyed : (r : GenerationRequest) → IsKeyed (holding r)
unfolding find
holding-IsKeyed r = (refl, tt)

claimed_once_example :
    (try_claim_generation_request
      (record claiming { started_at = 13 })
      (run
        (finalize failing ∷ [])
        (try_claim_generation_request claiming (holding row_queued)).1)).0
    ≡ false
unfolding try_claim_generation_request claim_guard queue_assign new_request returning execute
claimed_once_example =
    claimed_once claiming (record claiming { started_at = 13 }) (finalize failing ∷ [])
      (holding row_queued) (holding-IsKeyed row_queued) refl
      ((λ e. unfold is_blank_sql in refl), tt) refl refl

finalized_once_example :
    (try_finalize_generation_request succeeding (
      run
        (retry retrying ∷ [])
        (try_finalize_generation_request failing (holding row_running)).1)).0
    ≡ ok false
unfolding try_finalize_generation_request finalize_guard finalize_rejects claim_assign queue_assign
    new_request returning execute is_empty
finalized_once_example =
    finalized_once failing succeeding (retry retrying ∷ []) (holding row_running)
      (holding-IsKeyed row_running) (λ e. unfold is_blank_sql in refl) refl (tt, tt) refl
      (omega arith) refl

stale_worker_fenced_example :
    let now = run [] (holding (retry_assign retrying row_failed)) in
    (try_claim_generation_request claiming now ≡ (false, now))
    × (try_heartbeat_generation_request beating now ≡ (false, now))
    × (try_finalize_generation_request succeeding now ≡ (ok false, now))
unfolding retry_assign finalize_assign claim_assign queue_assign new_request find finalize_rejects
stale_worker_fenced_example =
    stale_worker_fenced claiming beating succeeding [] (holding (retry_assign retrying row_failed))
      1 (retry_assign retrying row_failed) (holding-IsKeyed (retry_assign retrying row_failed)) tt
      refl refl refl refl (omega arith) (omega arith) (omega arith) refl

step_row-Edge_example :
    let s = step_row (claim claiming) (holding row_queued) row_queued in
    ((s.attempt ≡ row_queued.attempt) × Edge row_queued.status s.status)
    ⊎ ((s.attempt ≡ row_queued.attempt + 1)
        × (row_queued.status ≡ failed)
        × (row_queued.retryable ≡ true)
        × (s.status ≡ prepared))
step_row-Edge_example = step_row-Edge (claim claiming) (holding row_queued) row_queued

age-run_example :
    (s : GenerationRequest) × (find key 1 (run (claim claiming ∷ []) (holding row_queued)).requests
      ≡ some s)
    × (age row_queued ≤ age s)
unfolding find queue_assign new_request
age-run_example = age-run (claim claiming ∷ []) (holding row_queued) 1 row_queued (tt, tt) refl

abbrev row_succeeded : GenerationRequest
row_succeeded = finalize_assign succeeding row_running

recovery_settles_example :
    SettledBy service 25 row_queued
      (reconcile_one service row_queued 25 (scanned 1) (holding row_queued))
unfolding find queue_assign new_request is_blank_sql
recovery_settles_example =
    recovery_settles service 25 row_queued (scanned 1) (holding row_queued) (omega arith)
      (ground arith) refl (holding-IsKeyed row_queued) refl refl (λ e. cc)

-- The session has been deleted.
abbrev orphan : ChatDb
orphan = record {
  sessions = record { id = 5; user_id = 7; workspace_id = none; deleted_at = some 9 } ∷ [];
  workspaces = [];
  roles = [];
  messages = message ∷ [];
  requests = row_prepared ∷ [];
}

reconcile_accounts_example : handled (count_conflict (scanned 1)) ≡ 1
unfolding reconcile_due_requests reconcile_one reconcile_status with_context recover_prepared
    try_queue_generation_request get_due_generation_requests queue_guard queue_args queue_assign
    actor_scope execute new_request update_where returning
reconcile_accounts_example =
    reconcile_accounts service (λ r db. db) 25 orphan orphan (count_conflict (scanned 1)) refl
