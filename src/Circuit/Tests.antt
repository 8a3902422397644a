-- ===== src/Circuit/Tests.antt =====
-- The breaker of one service, and each theorem about it at it.
use dewflow.Base.{◌+◌, ◌≤◌, ◌≡◌, refl, ltb, if◌then◌else◌, List, [], ◌∷◌, arith}
use dewflow.Circuit.Breaker.{
  CircuitBreaker, closed, opened, half_open, new_breaker, state_eq, Call, acquiring, succeeding,
  failing, on_failure, run, apply, admissions,
}
use dewflow.Circuit.History.{IsConsistent, failures_seen, run-closed, requests, admissions-requests}

abbrev fresh : CircuitBreaker
unfolding new_breaker
fresh = new_breaker "rerank" 2 30 1

abbrev tripped : CircuitBreaker
tripped = record fresh { state = opened; failure_count = 2; last_failure_time = 5 }

tripped-IsConsistent : IsConsistent 2 1 tripped
unfolding new_breaker
tripped-IsConsistent = ground arith

trips : run (failing 4 ∷ failing 5 ∷ []) fresh ≡ tripped
unfolding run new_breaker on_failure apply
trips = refl

-- A late success while the breaker is open leaves the two failures; the probe's success clears them.
abbrev reports : List Call
reports =
    failing 4 ∷ failing 5 ∷ succeeding ∷ acquiring 30000005 ∷ succeeding ∷ failing 40000000 ∷ []

late_success_ignored : failures_seen (failing 4 ∷ failing 5 ∷ succeeding ∷ []) fresh 0 ≡ 2
unfolding failures_seen new_breaker apply on_failure
late_success_ignored = refl

run-closed_example :
    let self = run reports fresh in
    let seen = failures_seen reports fresh 0 in
    (state_eq self.state closed ≡ ltb seen 2)
    × (self.failure_count ≡ seen)
    × (self.half_open_inflight ≤ (if state_eq self.state half_open then 1 else 0))
unfolding fresh new_breaker
run-closed_example = run-closed "rerank" 2 30 1 reports (omega arith)

admissions-requests_example : admissions (requests (30000005 ∷ 30000006 ∷ [])) tripped + 0 ≤ 1
unfolding new_breaker
admissions-requests_example =
    admissions-requests (30000005 ∷ 30000006 ∷ []) 2 1 tripped (omega arith) tripped-IsConsistent
      (ground arith)
