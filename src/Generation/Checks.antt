-- ===== src/Generation/Checks.antt =====
-- What holds of every row of `chat_generation_requests` between two statements: the CHECK
-- constraints of `ChatGenerationRequest` (backend/models/orm/chat.py), and what the statements of
-- backend/repositories/chat_repo.py add to them.
use dewflow.Base.{
  ◌≤◌, ◌≡◌, String, Bool, true, false, not, Option, none, some, is_none, is_some, is_blank_sql,
  is_blank_sql-is_blank, arith,
}
use dewflow.Generation.Row.{
  GenerationRequest, ChatDb, Status, prepared, queued, running, succeeded, failed, is_nonterminal,
}
use dewflow.Generation.Args.{
  CreateArgs, QueueArgs, ReserveArgs, FailDueArgs, ClaimArgs, HeartbeatArgs, FinalizeArgs,
  RetryArgs,
}
use dewflow.Generation.Dispatch.{
  new_request, queue_guard, queue_assign, reserve_guard, reserve_assign, fail_due_guard,
  fail_due_assign, fail_due_rejects,
}
use dewflow.Generation.Worker.{
  claim_guard, claim_assign, heartbeat_guard, heartbeat_assign, finalize_guard, finalize_assign,
  finalize_rejects, retry_guard, retry_assign,
}

-- `length(btrim(column)) > 0`, false of NULL
abbrev pub has_text : Option String → Bool
has_text none = false
has_text (some t) = not (is_blank_sql t)

abbrev pub is_active : Status → Bool
is_active queued = true
is_active running = true
is_active _ = false

-- The first seven fields are CHECK constraints, the others follow from the statements. (The other CHECK
-- constraints hold by the types: `Status` has the values of status, and reserved_credits and
-- dispatch_attempts are natural numbers.)
pub record IsSound (r : GenerationRequest) : Type 0 where
  pub client_request_id_not_blank : is_blank_sql r.client_request_id ≡ false
  pub attempt_positive : 1 ≤ r.attempt
  pub retryable_only_when_failed : r.retryable ≡ true → r.status ≡ failed
  pub terminal_finished_at : is_none r.finished_at ≡ is_nonterminal r.status
  pub failed_error_code : r.status ≡ failed → has_text r.error_code ≡ true
  pub succeeded_assistant_message : r.status ≡ succeeded → is_some r.assistant_message_id ≡ true
  pub active_attempt_fence :
      is_active r.status ≡ true → (has_text r.task_id ≡ true) × (has_text r.lease_token ≡ true)
  pub prepared_unfenced :
      r.status ≡ prepared → (r.task_id ≡ none) × (r.lease_token ≡ none) × (r.dispatch_attempts ≡ 0)
  pub queued_dispatched : r.status ≡ queued → 1 ≤ r.dispatch_attempts
  pub running_leased :
      r.status ≡ running
      → (is_some r.lease_expires_at ≡ true)
        × (r.recovery_due_at ≡ r.lease_expires_at)
        × (is_some r.assistant_message_id ≡ true)
  pub terminal_settled : is_nonterminal r.status ≡ false → r.recovery_due_at ≡ none

pub new_request-IsSound :
    (a : CreateArgs) → is_blank_sql a.client_request_id ≡ false → IsSound (new_request a)
unfolding new_request
new_request-IsSound a named = ground arith

-- Blank fences are ruled out by the caller, who makes them with `uuid4().hex`.
pub queue_assign-IsSound :
    (db : ChatDb) (a : QueueArgs) (r : GenerationRequest)
    → is_blank_sql a.task_id ≡ false
    → is_blank_sql a.lease_token ≡ false
    → IsSound r
    → queue_guard db a r ≡ true
    → IsSound (queue_assign a r)
unfolding queue_guard queue_assign
queue_assign-IsSound db a r ht hl h g = ground arith

pub reserve_assign-IsSound :
    (a : ReserveArgs) (r : GenerationRequest)
    → IsSound r
    → reserve_guard a r ≡ true
    → IsSound (reserve_assign a r)
unfolding reserve_guard reserve_assign
reserve_assign-IsSound a r h g = ground arith

pub fail_due_assign-IsSound :
    (a : FailDueArgs) (r : GenerationRequest)
    → fail_due_rejects a ≡ false
    → IsSound r
    → fail_due_guard a r ≡ true
    → IsSound (fail_due_assign a r)
unfolding fail_due_rejects fail_due_assign
fail_due_assign-IsSound a r accepted h g = ground (arith, is_blank_sql-is_blank a.error_code)

pub claim_assign-IsSound :
    (a : ClaimArgs) (r : GenerationRequest)
    → IsSound r
    → claim_guard a r ≡ true
    → IsSound (claim_assign a r)
unfolding claim_guard claim_assign
claim_assign-IsSound a r h g = ground arith

pub heartbeat_assign-IsSound :
    (a : HeartbeatArgs) (r : GenerationRequest)
    → IsSound r
    → heartbeat_guard a r ≡ true
    → IsSound (heartbeat_assign a r)
unfolding heartbeat_guard heartbeat_assign
heartbeat_assign-IsSound a r h g = ground arith

-- The method's own test on a failure's code is `not error_code`, which a blank code passes.
pub finalize_assign-IsSound :
    (a : FinalizeArgs) (r : GenerationRequest)
    → finalize_rejects a ≡ false
    → (a.target_status ≡ failed → has_text a.error_code ≡ true)
    → IsSound r
    → finalize_guard a r ≡ true
    → IsSound (finalize_assign a r)
unfolding finalize_rejects finalize_guard finalize_assign
finalize_assign-IsSound a r accepted coded h g = ground arith

pub retry_assign-IsSound :
    (db : ChatDb) (a : RetryArgs) (r : GenerationRequest)
    → IsSound r
    → retry_guard db a r ≡ true
    → IsSound (retry_assign a r)
unfolding retry_guard retry_assign
retry_assign-IsSound db a r h g = ground arith
