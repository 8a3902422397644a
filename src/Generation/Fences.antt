-- ===== src/Generation/Fences.antt =====
-- What the fences of the statements of backend/repositories/chat_repo.py keep apart: workers of
-- different attempts, and workers that race for one attempt.
use dewflow.Base.{
  ℕ, ◌+◌, ◌*◌, ◌≤◌, ◌<◌, ◌≡◌, refl, true, false, some, ◌∙◌, List, find, find-update_where,
  returning_hit, Bool-cases, inl, inr, arith,
}
use dewflow.Generation.Row.{GenerationRequest, ChatDb, failed}
use dewflow.Generation.Args.{ok, ClaimArgs, HeartbeatArgs, FinalizeArgs}
use dewflow.Generation.Scope.{execute}
use dewflow.Generation.Worker.{
  claim_guard, claim_assign, try_claim_generation_request, heartbeat_guard, heartbeat_assign,
  try_heartbeat_generation_request, finalize_guard, finalize_assign, finalize_rejects,
  try_finalize_generation_request,
}
use dewflow.Generation.History.{Op, claim, finalize, key, apply, run, AllCallable}
use dewflow.Generation.Checks.{has_text}
use dewflow.Generation.Keys.{
  IsKeyed, execute_miss, apply-IsKeyed, run-IsKeyed, claim_names, claim_result, heartbeat_result,
  finalize_names, finalize_result,
}
use dewflow.Generation.Progress.{age, rank, age-run}

-- A claim that succeeds leaves the request running, and finds it queued before.
pub claim_success :
    (a : ClaimArgs) (db : ChatDb)
    → IsKeyed db
    → (try_claim_generation_request a db).0 ≡ true
    → (r : GenerationRequest) × (find key a.request_id db.requests ≡ some r)
      × (claim_guard a r ≡ true)
      × (find key a.request_id (try_claim_generation_request a db).1.requests
          ≡ some (claim_assign a r))
unfolding try_claim_generation_request execute
claim_success a db d h =
    let (r, e, g) =
      returning_hit key (claim_guard a) (claim_assign a) a.request_id (claim_names a)
        (unfold claim_assign in λ x. refl) db.requests d h in
    (
      r,
      e,
      g,
      find-update_where key (claim_guard a) (claim_assign a) (unfold claim_assign in λ x. refl)
            a.request_id db.requests r e
          ∙ rw g,
    )

late_claim :
    (a b : ClaimArgs) (r s : GenerationRequest)
    → claim_guard a r ≡ true
    → age (claim_assign a r) ≤ age s
    → b.expected_attempt ≡ a.expected_attempt
    → claim_guard b s ≡ false
unfolding claim_guard claim_assign
late_claim a b r s g older same = ground arith

-- At most one worker ever claims an attempt: once a claim has succeeded, no claim of the same
-- request and attempt succeeds after any history.
pub claimed_once :
    (a b : ClaimArgs) (ops : List Op) (db : ChatDb)
    → IsKeyed db
    → (try_claim_generation_request a db).0 ≡ true
    → AllCallable ops (try_claim_generation_request a db).1
    → b.request_id ≡ a.request_id
    → b.expected_attempt ≡ a.expected_attempt
    → (try_claim_generation_request b (run ops (try_claim_generation_request a db).1)).0 ≡ false
claimed_once a b ops db d h c same_request same_attempt =
    let (r, e, g, e') = claim_success a db d h in
    let db' = (try_claim_generation_request a db).1 in
    let (s, found, older) = age-run ops db' a.request_id (claim_assign a r) c e' in
    claim_result (run ops db')
      (run-IsKeyed ops db' c (unfold apply in apply-IsKeyed (claim a) db tt d)) b
      (rw same_request found)
    ∙ late_claim a b r s g older same_attempt

finalize_rejects_terminal :
    (a : FinalizeArgs) → finalize_rejects a ≡ false → rank a.target_status ≡ 3
unfolding finalize_rejects
finalize_rejects_terminal a h = ground arith

finalize_success :
    (a : FinalizeArgs) (db : ChatDb)
    → IsKeyed db
    → (try_finalize_generation_request a db).0 ≡ ok true
    → (finalize_rejects a ≡ false)
      × ((r : GenerationRequest) × (find key a.request_id db.requests ≡ some r)
          × (finalize_guard a r ≡ true)
          × (find key a.request_id (try_finalize_generation_request a db).1.requests
              ≡ some (finalize_assign a r)))
unfolding try_finalize_generation_request execute
finalize_success a db d h = elim (Bool-cases (finalize_rejects a)) [
  | inl no_call ↦ absurd (ground arith)
  | inr call ↦ (
    call,
    let (r, e, g) =
          returning_hit key (finalize_guard a) (finalize_assign a) a.request_id (finalize_names a)
            (unfold finalize_assign in λ x. refl) db.requests d (ground arith) in
        (
          r,
          e,
          g,
          rw call (
              find-update_where key (finalize_guard a) (finalize_assign a)
                (unfold finalize_assign in λ x. refl) a.request_id db.requests r e
              ∙ rw g),
        ),
  )
]

age_ended :
    (a : FinalizeArgs) (r : GenerationRequest)
    → finalize_rejects a ≡ false
    → finalize_guard a r ≡ true
    → age (finalize_assign a r) ≡ a.expected_attempt * 4 + 3
unfolding finalize_guard finalize_assign
age_ended a r call g = ground (arith, finalize_rejects_terminal a call)

-- A row that is older than an attempt can be is neither queued nor running in it.
not_claimable :
    (a : ClaimArgs) (s : GenerationRequest)
    → a.expected_attempt * 4 + 2 ≤ age s
    → claim_guard a s ≡ false
unfolding claim_guard
not_claimable a s older = ground arith

not_beating :
    (a : HeartbeatArgs) (s : GenerationRequest)
    → a.expected_attempt * 4 + 3 ≤ age s
    → heartbeat_guard a s ≡ false
unfolding heartbeat_guard
not_beating a s older = ground arith

not_running :
    (a : FinalizeArgs) (s : GenerationRequest)
    → a.expected_attempt * 4 + 3 ≤ age s
    → finalize_guard a s ≡ false
unfolding finalize_guard
not_running a s older = ground arith

-- At most one outcome is ever committed for an attempt: once a finalisation has succeeded, every
-- further one of the same attempt, or an earlier one, reports False after any history, unless its
-- arguments are refused.
pub finalized_once :
    (a b : FinalizeArgs) (ops : List Op) (db : ChatDb)
    → IsKeyed db
    → (a.target_status ≡ failed → has_text a.error_code ≡ true)
    → (try_finalize_generation_request a db).0 ≡ ok true
    → AllCallable ops (try_finalize_generation_request a db).1
    → b.request_id ≡ a.request_id
    → b.expected_attempt ≤ a.expected_attempt
    → finalize_rejects b ≡ false
    → (try_finalize_generation_request b (run ops (try_finalize_generation_request a db).1)).0
      ≡ ok false
finalized_once a b ops db d coded h c same_request le call_b =
    let (call, (r, e, g, e')) = finalize_success a db d h in
    let db' = (try_finalize_generation_request a db).1 in
    let (s, found, older) = age-run ops db' a.request_id (finalize_assign a r) c e' in
    let keyed = run-IsKeyed ops db' c (unfold apply in apply-IsKeyed (finalize a) db coded d) in
    let past : b.expected_attempt * 4 + 3 ≤ age s = omega (arith, age_ended a r call g) in
    finalize_result (run ops db') keyed {r = s} b (rw same_request found)
    ∙ rw (call_b, not_running b s past)

claim_miss :
    (a : ClaimArgs) (db : ChatDb)
    → (try_claim_generation_request a db).0 ≡ false
    → try_claim_generation_request a db ≡ (false, db)
unfolding try_claim_generation_request
claim_miss a db h = ground (arith, execute_miss (claim_guard a) (claim_assign a) db h)

heartbeat_miss :
    (a : HeartbeatArgs) (db : ChatDb)
    → (try_heartbeat_generation_request a db).0 ≡ false
    → try_heartbeat_generation_request a db ≡ (false, db)
unfolding try_heartbeat_generation_request
heartbeat_miss a db h = ground (arith, execute_miss (heartbeat_guard a) (heartbeat_assign a) db h)

finalize_miss :
    (a : FinalizeArgs) (db : ChatDb)
    → finalize_rejects a ≡ false
    → (try_finalize_generation_request a db).0 ≡ ok false
    → try_finalize_generation_request a db ≡ (ok false, db)
unfolding try_finalize_generation_request
finalize_miss a db call h =
    ground (arith, execute_miss (finalize_guard a) (finalize_assign a) db (ground arith))

-- A worker of an attempt that is over is fenced off: after any history, its claim, its heartbeat and
-- its finalisation report False and change no table. (A finalisation whose arguments are refused
-- raises instead.)
pub stale_worker_fenced :
    (a : ClaimArgs) (b : HeartbeatArgs) (f : FinalizeArgs) (ops : List Op) (db : ChatDb) (k : ℕ)
    (r : GenerationRequest)
    → IsKeyed db
    → AllCallable ops db
    → find key k db.requests ≡ some r
    → a.request_id ≡ k
    → b.request_id ≡ k
    → f.request_id ≡ k
    → a.expected_attempt < r.attempt
    → b.expected_attempt < r.attempt
    → f.expected_attempt < r.attempt
    → finalize_rejects f ≡ false
    → let now = run ops db in
      (try_claim_generation_request a now ≡ (false, now))
      × (try_heartbeat_generation_request b now ≡ (false, now))
      × (try_finalize_generation_request f now ≡ (ok false, now))
stale_worker_fenced a b f ops db k r d c e ka kb kf la lb lf call =
    let (s, found, older) = age-run ops db k r c e in
    let now = run ops db in
    let keyed = run-IsKeyed ops db c d in
    (
      claim_miss a now
          (claim_result now keyed {r = s} a (rw ka found) ∙ not_claimable a s (omega arith)),
      heartbeat_miss b now
          (heartbeat_result now keyed {r = s} b (rw kb found) ∙ not_beating b s (omega arith)),
      finalize_miss f now call (
          finalize_result now keyed {r = s} f (rw kf found)
          ∙ rw (call, not_running f s (omega arith))),
    )
