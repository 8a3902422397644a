-- ===== src/Generation/Invariant.antt =====
-- The invariant of Checks over histories, and what a history does to the row of one request.
use dewflow.Base.{
  ℕ, ◌≡◌, refl, true, some, List, [], ◌∷◌, All, find, find-update_where, All-update_where, arith,
}
use dewflow.Generation.Row.{GenerationRequest, ChatDb}
use dewflow.Generation.Dispatch.{new_request, queue_assign, reserve_assign, fail_due_assign}
use dewflow.Generation.Worker.{claim_assign, heartbeat_assign, finalize_assign, retry_assign}
use dewflow.Generation.Checks.{
  IsSound, new_request-IsSound, queue_assign-IsSound, reserve_assign-IsSound,
  fail_due_assign-IsSound, claim_assign-IsSound, heartbeat_assign-IsSound, finalize_assign-IsSound,
  retry_assign-IsSound,
}
use dewflow.Generation.History.{
  Op, create, queue, reserve, fail_due, claim, heartbeat, finalize, retry, reset_message, elsewhere,
  key, apply, run, guard_of, assign_of, step_row, inserted, requests-apply, Callable, AllCallable,
  IsSoundDb,
}

pub assign_of-IsSound :
    (op : Op) (db : ChatDb) (r : GenerationRequest)
    → Callable op db
    → IsSound r
    → guard_of op db r ≡ true
    → IsSound (assign_of op r)
unfolding guard_of assign_of
assign_of-IsSound (create a) db r c h g = h
assign_of-IsSound (queue a) db r c h g = queue_assign-IsSound db a r c.0 c.1 h g
assign_of-IsSound (reserve a) db r c h g = reserve_assign-IsSound a r h (ground arith)
assign_of-IsSound (fail_due a) db r c h g =
    fail_due_assign-IsSound a r (ground arith) h (ground arith)
assign_of-IsSound (claim a) db r c h g = claim_assign-IsSound a r h g
assign_of-IsSound (heartbeat a) db r c h g = heartbeat_assign-IsSound a r h g
assign_of-IsSound (finalize a) db r c h g =
    finalize_assign-IsSound a r (ground arith) c h (ground arith)
assign_of-IsSound (retry a) db r c h g = retry_assign-IsSound db a r h g
assign_of-IsSound (reset_message m) db r c h g = h
assign_of-IsSound (elsewhere s w u m) db r c h g = h

inserted-IsSound :
    (op : Op) (db : ChatDb) (rs : List GenerationRequest)
    → Callable op db
    → All IsSound rs
    → All IsSound (inserted op rs)
inserted-IsSound (create a) db rs c h = (new_request-IsSound a c.1, h)
inserted-IsSound _ db rs c h = h

pub apply-IsSoundDb :
    (op : Op) (db : ChatDb) → Callable op db → IsSoundDb db → IsSoundDb (apply op db)
apply-IsSoundDb op db c h = rw (requests-apply op db) (
    inserted-IsSound op db _ c (
      All-update_where (guard_of op db) (assign_of op) IsSound
        (λ r hr g. assign_of-IsSound op db r c hr g) db.requests h))

-- After every history of statements, with any changes to sessions, roles and messages in between, every
-- row satisfies the CHECK constraints of chat_generation_requests (of which those on the values of status
-- and on the counts reserved_credits and dispatch_attempts hold by the types of the model) and the fence,
-- lease and due-time facts that IsSound adds, if the first rows do, the fences, the failure codes and the
-- client ids of new requests are not blank and new keys are new.
pub run-IsSoundDb :
    (ops : List Op) (db : ChatDb) → AllCallable ops db → IsSoundDb db → IsSoundDb (run ops db)
unfolding run
run-IsSoundDb [] db c h = h
run-IsSoundDb (op ∷ ops) db c h = run-IsSoundDb ops (apply op db) c.1 (apply-IsSoundDb op db c.0 h)

pub key-assign_of : (op : Op) (r : GenerationRequest) → key (assign_of op r) ≡ key r
unfolding assign_of queue_assign reserve_assign fail_due_assign claim_assign heartbeat_assign
    finalize_assign retry_assign
key-assign_of (create a) r = refl
key-assign_of _ r = refl

find-inserted :
    (op : Op) (db : ChatDb) (rs : List GenerationRequest) (k : ℕ) (r r' : GenerationRequest)
    → Callable op db
    → find key k db.requests ≡ some r
    → find key k rs ≡ some r'
    → find key k (inserted op rs) ≡ some r'
unfolding find new_request
find-inserted (create a) db rs k r r' c e e' = ground (arith, c.0)
find-inserted _ db rs k r r' c e e' = e'

-- An operation rewrites the row of a request by `step_row`, and removes none.
pub find-apply :
    (op : Op) (db : ChatDb) (k : ℕ) (r : GenerationRequest)
    → Callable op db
    → find key k db.requests ≡ some r
    → find key k (apply op db).requests ≡ some (step_row op db r)
find-apply op db k r c e = rw (requests-apply op db) (
    find-inserted op db _ k r (step_row op db r) c e
      (find-update_where key (guard_of op db) (assign_of op) (key-assign_of op) k db.requests r e))
