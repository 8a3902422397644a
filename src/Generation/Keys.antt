-- ===== src/Generation/Keys.antt =====
-- Primary keys over histories, and the results that the worker's methods
-- (backend/repositories/chat_repo.py) report, read off the row of their request.
use dewflow.Base.{
  ℕ, ◌≡◌, refl, Bool, true, false, some, none, Option, ◌∙◌, List, [], ◌∷◌, find, Distinct,
  returning, update_where, update_where-Distinct, update_where-none, find-update_where,
  find-update_where_absent, returning_found, is_some, if◌then◌else◌, arith,
}
use dewflow.Generation.Row.{GenerationRequest, ChatDb}
use dewflow.Generation.Args.{ok, err, value_error, ClaimArgs, HeartbeatArgs, FinalizeArgs}
use dewflow.Generation.Scope.{execute}
use dewflow.Generation.Dispatch.{new_request}
use dewflow.Generation.Worker.{
  claim_guard, claim_assign, try_claim_generation_request, heartbeat_guard, heartbeat_assign,
  try_heartbeat_generation_request, finalize_guard, finalize_assign, finalize_rejects,
  try_finalize_generation_request,
}
use dewflow.Generation.History.{
  Op, create, key, apply, run, guard_of, assign_of, inserted, requests-apply, Callable, AllCallable,
}
use dewflow.Generation.Invariant.{key-assign_of}

-- No two rows share a primary key.
abbrev pub IsKeyed : ChatDb → Type 0
IsKeyed db = Distinct key db.requests

inserted-Distinct :
    (op : Op) (db : ChatDb)
    → Callable op db
    → IsKeyed db
    → Distinct key (inserted op (update_where (guard_of op db) (assign_of op) db.requests))
unfolding new_request
inserted-Distinct (create a) db c d = (
  find-update_where_absent key (guard_of (create a) db) (assign_of (create a))
      (key-assign_of (create a)) a.id db.requests c.0,
  update_where-Distinct key (guard_of (create a) db) (assign_of (create a))
      (key-assign_of (create a)) db.requests d,
)
inserted-Distinct op db c d =
    update_where-Distinct key (guard_of op db) (assign_of op) (key-assign_of op) db.requests d

pub apply-IsKeyed : (op : Op) (db : ChatDb) → Callable op db → IsKeyed db → IsKeyed (apply op db)
apply-IsKeyed op db c d = rw (requests-apply op db) (inserted-Distinct op db c d)

pub run-IsKeyed :
    (ops : List Op) (db : ChatDb) → AllCallable ops db → IsKeyed db → IsKeyed (run ops db)
unfolding run
run-IsKeyed [] db c d = d
run-IsKeyed (op ∷ ops) db c d = run-IsKeyed ops (apply op db) c.1 (apply-IsKeyed op db c.0 d)

pub claim_names :
    (a : ClaimArgs) (r : GenerationRequest) → claim_guard a r ≡ true → key r ≡ a.request_id
unfolding claim_guard
claim_names a r g = ground arith

heartbeat_names :
    (a : HeartbeatArgs) (r : GenerationRequest) → heartbeat_guard a r ≡ true → key r ≡ a.request_id
unfolding heartbeat_guard
heartbeat_names a r g = ground arith

pub finalize_names :
    (a : FinalizeArgs) (r : GenerationRequest) → finalize_guard a r ≡ true → key r ≡ a.request_id
unfolding finalize_guard
finalize_names a r g = ground arith

-- A claim succeeds exactly if the row of the request meets its condition, and so for the others.
module _ (db : ChatDb) (keyed : IsKeyed db) {r : GenerationRequest} where
  pub claim_result :
      (a : ClaimArgs)
      → find key a.request_id db.requests ≡ some r
      → (try_claim_generation_request a db).0 ≡ claim_guard a r
  unfolding try_claim_generation_request execute
  claim_result a e = ground (
    arith,
    returning_found key (claim_guard a) (claim_assign a) a.request_id (claim_names a)
        (unfold claim_assign in λ x. refl) r db.requests keyed e,
  )

  pub heartbeat_result :
      (a : HeartbeatArgs)
      → find key a.request_id db.requests ≡ some r
      → (try_heartbeat_generation_request a db).0 ≡ heartbeat_guard a r
  unfolding try_heartbeat_generation_request execute
  heartbeat_result a e = ground (
    arith,
    returning_found key (heartbeat_guard a) (heartbeat_assign a) a.request_id (heartbeat_names a)
        (unfold heartbeat_assign in λ x. refl) r db.requests keyed e,
  )

  pub finalize_result :
      (a : FinalizeArgs)
      → find key a.request_id db.requests ≡ some r
      → (try_finalize_generation_request a db).0
        ≡ (if finalize_rejects a then err value_error else ok (finalize_guard a r))
  unfolding try_finalize_generation_request execute
  finalize_result a e = ground (
    arith,
    returning_found key (finalize_guard a) (finalize_assign a) a.request_id (finalize_names a)
        (unfold finalize_assign in λ x. refl) r db.requests keyed e,
  )

-- A statement on the primary key hits the row of that key if the row meets its condition.
module _ (guard : GenerationRequest → Bool) (assign : GenerationRequest → GenerationRequest) (k : ℕ)
    (names : (x : GenerationRequest) → guard x ≡ true → key x ≡ k)
    (keeps : (x : GenerationRequest) → key (assign x) ≡ key x) (db : ChatDb) (keyed : IsKeyed db)
    (r : GenerationRequest) (current : find key k db.requests ≡ some r)
    (meets : guard r ≡ true) where
  pub execute_hit : (execute guard assign db).0 ≡ some (assign r)
  unfolding execute
  execute_hit =
      returning_found key guard assign k names keeps r db.requests keyed current ∙ rw meets

  pub find-execute : find key k (execute guard assign db).1.requests ≡ some (assign r)
  unfolding execute
  find-execute = find-update_where key guard assign keeps k db.requests r current ∙ rw meets

is_some-false {ℓ} : {A : Type ℓ} (o : Option A) → is_some o ≡ false → o ≡ none
is_some-false none h = refl
is_some-false (some x) h = cc

pub execute_miss :
    (guard : GenerationRequest → Bool) (assign : GenerationRequest → GenerationRequest)
    (db : ChatDb)
    → is_some (execute guard assign db).0 ≡ false
    → (execute guard assign db).1 ≡ db
unfolding execute
execute_miss guard assign db h = rw (update_where-none guard assign db.requests (is_some-false _ h))

-- It misses, and changes nothing, if the row does not meet the condition.
pub execute_missed :
    (guard : GenerationRequest → Bool) (assign : GenerationRequest → GenerationRequest) (k : ℕ)
    → ((x : GenerationRequest) → guard x ≡ true → key x ≡ k)
    → ((x : GenerationRequest) → key (assign x) ≡ key x)
    → (db : ChatDb) → IsKeyed db
    → (r : GenerationRequest) → find key k db.requests ≡ some r
    → guard r ≡ false
    → execute guard assign db ≡ (none, db)
unfolding execute
execute_missed guard assign k names keeps db keyed r current misses =
    let nobody : returning guard assign db.requests ≡ none =
      returning_found key guard assign k names keeps r db.requests keyed current ∙ rw misses in
    rw (nobody, update_where-none guard assign db.requests nobody)
