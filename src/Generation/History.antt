-- ===== src/Generation/History.antt =====
-- Histories of the table `chat_generation_requests`: any sequence of the statements of
-- backend/repositories/chat_repo.py, by any workers, recoveries and owners, with any changes that
-- the rest of the system makes to sessions, workspaces, roles and messages in between.
use dewflow.Base.{
  ℕ, ◌≡◌, refl, Bool, true, false, none, List, [], ◌∷◌, All, find, update_where,
  update_where_unless, not, ap, ◌∙◌, ◌&&◌, is_blank_sql, if◌then◌else◌,
}
use dewflow.Generation.Row.{
  GenerationRequest, ChatDb, ChatSession, Workspace, UserWorkspaceRole, ChatMessage, failed,
}
use dewflow.Generation.Args.{
  CreateArgs, QueueArgs, ReserveArgs, FailDueArgs, ClaimArgs, HeartbeatArgs, FinalizeArgs,
  RetryArgs,
}
use dewflow.Generation.Scope.{execute}
use dewflow.Generation.Dispatch.{
  new_request, create_generation_request, queue_guard, queue_assign, try_queue_generation_request,
  reserve_guard, reserve_assign, reserve_rejects, try_reserve_generation_request_redispatch,
  fail_due_guard, fail_due_assign, fail_due_rejects, try_fail_due_generation_request,
}
use dewflow.Generation.Worker.{
  claim_guard, claim_assign, try_claim_generation_request, heartbeat_guard, heartbeat_assign,
  try_heartbeat_generation_request, finalize_guard, finalize_assign, finalize_rejects,
  try_finalize_generation_request, retry_guard, retry_assign, try_retry_generation_request,
  reset_assistant_message_for_retry,
}
use dewflow.Generation.Checks.{IsSound, has_text}

abbrev pub key : GenerationRequest → ℕ
key r = r.id

pub data Op : Type 0 where
  create : CreateArgs → Op
  queue : QueueArgs → Op
  reserve : ReserveArgs → Op
  fail_due : FailDueArgs → Op
  claim : ClaimArgs → Op
  heartbeat : HeartbeatArgs → Op
  finalize : FinalizeArgs → Op
  retry : RetryArgs → Op
  reset_message : ℕ → Op
  elsewhere : List ChatSession → List Workspace → List UserWorkspaceRole → List ChatMessage → Op

unfoldable pub apply : Op → ChatDb → ChatDb
unfolding create_generation_request try_queue_generation_request
    try_reserve_generation_request_redispatch try_fail_due_generation_request
    try_claim_generation_request try_heartbeat_generation_request try_finalize_generation_request
    try_retry_generation_request reset_assistant_message_for_retry execute
apply (create a) db = (create_generation_request a db).1
apply (queue a) db = (try_queue_generation_request a db).1
apply (reserve a) db = (try_reserve_generation_request_redispatch a db).1
apply (fail_due a) db = (try_fail_due_generation_request a db).1
apply (claim a) db = (try_claim_generation_request a db).1
apply (heartbeat a) db = (try_heartbeat_generation_request a db).1
apply (finalize a) db = (try_finalize_generation_request a db).1
apply (retry a) db = (try_retry_generation_request a db).1
apply (reset_message m) db = (reset_assistant_message_for_retry m db).1
apply (elsewhere s w u m) db = record db { sessions = s; workspaces = w; roles = u; messages = m }

unfoldable pub run : List Op → ChatDb → ChatDb
run [] db = db
run (op ∷ ops) db = run ops (apply op db)

-- The condition under which an operation rewrites a row, its argument checks included, and what it
-- writes. `create` rewrites none.
unfoldable pub guard_of : Op → ChatDb → GenerationRequest → Bool
guard_of (queue a) db r = queue_guard db a r
guard_of (reserve a) db r = not (reserve_rejects a) && reserve_guard a r
guard_of (fail_due a) db r = not (fail_due_rejects a) && fail_due_guard a r
guard_of (claim a) db r = claim_guard a r
guard_of (heartbeat a) db r = heartbeat_guard a r
guard_of (finalize a) db r = not (finalize_rejects a) && finalize_guard a r
guard_of (retry a) db r = retry_guard db a r
guard_of _ db r = false

unfoldable pub assign_of : Op → GenerationRequest → GenerationRequest
assign_of (queue a) r = queue_assign a r
assign_of (reserve a) r = reserve_assign a r
assign_of (fail_due a) r = fail_due_assign a r
assign_of (claim a) r = claim_assign a r
assign_of (heartbeat a) r = heartbeat_assign a r
assign_of (finalize a) r = finalize_assign a r
assign_of (retry a) r = retry_assign a r
assign_of _ r = r

abbrev pub step_row : Op → ChatDb → GenerationRequest → GenerationRequest
step_row op db r = if guard_of op db r then assign_of op r else r

-- The row that an operation adds.
abbrev pub inserted : Op → List GenerationRequest → List GenerationRequest
inserted (create a) rs = new_request a ∷ rs
inserted _ rs = rs

requests_if :
    {A : Type 0} (b : Bool) (x y : A) (rs : List GenerationRequest) (db : ChatDb)
    → let ended : A × ChatDb = if b then (x, db) else (y, record db { requests = rs }) in
      ended.1.requests ≡ (if b then db.requests else rs)
requests_if true x y rs db = refl
requests_if false x y rs db = refl

never : (rs : List GenerationRequest) → rs ≡ update_where (λ r. false) (λ r. r) rs
unfolding update_where
never [] = refl
never (r ∷ rs) = ap (◌∷◌ r) (never rs)

-- Every operation is one UPDATE or INSERT on the table of requests.
pub requests-apply :
    (op : Op) (db : ChatDb)
    → (apply op db).requests
      ≡ inserted op (update_where (guard_of op db) (assign_of op) db.requests)
unfolding apply guard_of assign_of
requests-apply (create a) db = ap (◌∷◌ (new_request a)) (never db.requests)
requests-apply (queue a) db = refl
requests-apply (reserve a) db =
    requests_if (reserve_rejects a) _ _ _ db
    ∙ update_where_unless (reserve_rejects a) (reserve_guard a) (reserve_assign a) db.requests
requests-apply (fail_due a) db =
    requests_if (fail_due_rejects a) _ _ _ db
    ∙ update_where_unless (fail_due_rejects a) (fail_due_guard a) (fail_due_assign a) db.requests
requests-apply (claim a) db = refl
requests-apply (heartbeat a) db = refl
requests-apply (finalize a) db =
    requests_if (finalize_rejects a) _ _ _ db
    ∙ update_where_unless (finalize_rejects a) (finalize_guard a) (finalize_assign a) db.requests
requests-apply (retry a) db = refl
requests-apply (reset_message m) db = never db.requests
requests-apply (elsewhere s w u m) db = never db.requests

-- What the callers see to: fences from `uuid4().hex`, a failure's code and the client's id of a
-- new request are not blank, and the primary key of a new row is new.
abbrev pub Callable : Op → ChatDb → Type 0
Callable (create a) db =
    (find key a.id db.requests ≡ none) × (is_blank_sql a.client_request_id ≡ false)
Callable (queue a) db = (is_blank_sql a.task_id ≡ false) × (is_blank_sql a.lease_token ≡ false)
Callable (finalize a) db = a.target_status ≡ failed → has_text a.error_code ≡ true
Callable _ db = Unit

abbrev pub AllCallable : List Op → ChatDb → Type 0
AllCallable [] db = Unit
AllCallable (op ∷ ops) db = Callable op db × AllCallable ops (apply op db)

abbrev pub IsSoundDb : ChatDb → Type 0
IsSoundDb db = All IsSound db.requests
