-- ===== src/Generation/Bounds.antt =====
-- The budget of broker dispatches of one attempt, over histories of the statements of
-- backend/repositories/chat_repo.py.
use dewflow.Base.{ℕ, ◌≤◌, ◌≡◌, true, List, [], ◌∷◌, All, All-update_where, arith}
use dewflow.Generation.Row.{GenerationRequest, ChatDb}
use dewflow.Generation.Dispatch.{
  new_request, queue_guard, queue_assign, reserve_guard, reserve_assign, fail_due_assign,
}
use dewflow.Generation.Worker.{claim_assign, heartbeat_assign, finalize_assign, retry_assign}
use dewflow.Generation.Checks.{IsSound}
use dewflow.Generation.History.{
  Op, create, queue, reserve, fail_due, claim, heartbeat, finalize, retry, reset_message, elsewhere,
  apply, run, guard_of, assign_of, inserted, requests-apply, AllCallable, Callable, IsSoundDb,
}
use dewflow.Generation.Invariant.{assign_of-IsSound, apply-IsSoundDb}

-- Redispatches are reserved under budgets of at most `m`.
abbrev pub BudgetAtMost : ℕ → Op → Type 0
BudgetAtMost m (reserve a) = a.max_dispatch_attempts ≤ m
BudgetAtMost m _ = Unit

abbrev pub Dispatched : ℕ → GenerationRequest → Type 0
Dispatched m r = r.dispatch_attempts ≤ m

module _ (m : ℕ) (some_attempts : 1 ≤ m) where
  assign_of-Dispatched :
      (op : Op) (db : ChatDb) (r : GenerationRequest)
      → BudgetAtMost m op
      → IsSound r
      → Dispatched m r
      → guard_of op db r ≡ true
      → Dispatched m (assign_of op r)
  unfolding guard_of assign_of queue_guard queue_assign reserve_guard reserve_assign fail_due_assign
      claim_assign heartbeat_assign finalize_assign retry_assign
  assign_of-Dispatched (create a) db r b s h g = h
  assign_of-Dispatched (queue a) db r b s h g = ground (arith, s)
  assign_of-Dispatched (reserve a) db r b s h g = ground arith
  assign_of-Dispatched (fail_due a) db r b s h g = h
  assign_of-Dispatched (claim a) db r b s h g = h
  assign_of-Dispatched (heartbeat a) db r b s h g = h
  assign_of-Dispatched (finalize a) db r b s h g = h
  assign_of-Dispatched (retry a) db r b s h g = omega arith
  assign_of-Dispatched (reset_message k) db r b s h g = h
  assign_of-Dispatched (elsewhere s w u k) db r b sound h g = h

  inserted-Dispatched :
      (op : Op) (rs : List GenerationRequest)
      → All (Dispatched m) rs
      → All (Dispatched m) (inserted op rs)
  unfolding new_request
  inserted-Dispatched (create a) rs h = (omega arith, h)
  inserted-Dispatched _ rs h = h

  both :
      (rs : List GenerationRequest)
      → All IsSound rs
      → All (Dispatched m) rs
      → All (λ r. IsSound r × Dispatched m r) rs
  both [] s h = tt
  both (r ∷ rs) s h = ((s.0, h.0), both rs s.1 h.1)

  second :
      (rs : List GenerationRequest)
      → All (λ r. IsSound r × Dispatched m r) rs
      → All (Dispatched m) rs
  second [] h = tt
  second (r ∷ rs) h = (h.0.1, second rs h.1)

  apply-Dispatched :
      (op : Op) (db : ChatDb)
      → Callable op db
      → BudgetAtMost m op
      → IsSoundDb db
      → All (Dispatched m) db.requests
      → All (Dispatched m) (apply op db).requests
  apply-Dispatched op db c b s h = rw (requests-apply op db) (
      inserted-Dispatched op _ (
        second _ (
          All-update_where (guard_of op db) (assign_of op) (λ r. IsSound r × Dispatched m r)
            (λ r p g. (assign_of-IsSound op db r c p.0 g, assign_of-Dispatched op db r b p.0 p.1 g))
            db.requests (both db.requests s h))))

-- No history brings the dispatch count of any row above m, if every redispatch has a budget of at most m,
-- m is at least 1, the first rows are sound (IsSound) and keep to m, the fences, the failure codes and the
-- client ids of new requests are not blank and new keys are new.
pub run-Dispatched :
    (m : ℕ) (ops : List Op) (db : ChatDb)
    → 1 ≤ m
    → AllCallable ops db
    → All (BudgetAtMost m) ops
    → IsSoundDb db
    → All (Dispatched m) db.requests
    → All (Dispatched m) (run ops db).requests
unfolding run
run-Dispatched m [] db some_attempts c b s h = h
run-Dispatched m (op ∷ ops) db some_attempts c b s h =
    run-Dispatched m ops (apply op db) some_attempts c.1 b.1 (apply-IsSoundDb op db c.0 s)
      (apply-Dispatched m some_attempts op db c.0 b.0 s h)
