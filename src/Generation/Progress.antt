-- ===== src/Generation/Progress.antt =====
-- How far a request has come: its attempt, and how far the attempt is. No statement takes it back,
-- so what an attempt has ended, nothing resumes.
use dewflow.Base.{
  ℕ, ◌+◌, ◌*◌, ◌≤◌, ◌≡◌, refl, true, not, ◌&&◌, some, List, [], ◌∷◌, find, ap, ◌∙◌, Bool-cases, inl,
  inr, ◌⊎◌, arith,
}
use dewflow.Generation.Row.{
  GenerationRequest, ChatDb, Status, prepared, queued, running, succeeded, failed, is_nonterminal,
}
use dewflow.Generation.Args.{FailDueArgs}
use dewflow.Generation.Dispatch.{
  queue_guard, queue_assign, reserve_guard, reserve_assign, fail_due_guard, fail_due_assign,
  fail_due_rejects,
}
use dewflow.Generation.Worker.{
  claim_guard, claim_assign, heartbeat_guard, heartbeat_assign, finalize_guard, finalize_assign,
  finalize_rejects, retry_guard, retry_assign,
}
use dewflow.Generation.History.{
  Op, create, queue, reserve, fail_due, claim, heartbeat, finalize, retry, reset_message, elsewhere,
  key, apply, run, guard_of, assign_of, step_row, AllCallable,
}
use dewflow.Generation.Invariant.{find-apply}

abbrev pub rank : Status → ℕ
rank prepared = 0
rank queued = 1
rank running = 2
rank succeeded = 3
rank failed = 3

-- Attempts count first, then the rank within the attempt.
abbrev pub age : GenerationRequest → ℕ
age r = r.attempt * 4 + rank r.status

-- The diagram of one attempt. A retry leads to the next attempt.
pub data Edge : Status → Status → Type 0 where
  dispatched : Edge prepared queued
  claimed : Edge queued running
  ended : Edge running succeeded
  broke : Edge running failed
  gave_up_prepared : Edge prepared failed
  gave_up_queued : Edge queued failed
  stays : (s : Status) → Edge s s

-- `queue` claims nothing that is not prepared, `claim` nothing that is not queued, and so on.
pub age-assign_of :
    (op : Op) (db : ChatDb) (r : GenerationRequest)
    → guard_of op db r ≡ true
    → age r ≤ age (assign_of op r)
unfolding guard_of assign_of queue_guard queue_assign reserve_guard reserve_assign fail_due_guard
    fail_due_assign fail_due_rejects claim_guard claim_assign heartbeat_guard heartbeat_assign
    finalize_guard finalize_assign finalize_rejects retry_guard retry_assign
age-assign_of (create a) db r g = omega arith
age-assign_of (queue a) db r g = ground arith
age-assign_of (reserve a) db r g = ground arith
age-assign_of (fail_due a) db r g = ground arith
age-assign_of (claim a) db r g = ground arith
age-assign_of (heartbeat a) db r g = ground arith
age-assign_of (finalize a) db r g = ground arith
age-assign_of (retry a) db r g = ground arith
age-assign_of (reset_message m) db r g = omega arith
age-assign_of (elsewhere s w u m) db r g = omega arith

pub age-step_row : (op : Op) (db : ChatDb) (r : GenerationRequest) → age r ≤ age (step_row op db r)
age-step_row op db r = elim (Bool-cases (guard_of op db r)) [
  | inl g ↦ rw g (age-assign_of op db r g)
  | inr g ↦ rw g (omega arith)
]

-- A request is never lost, and never goes back, in any history.
pub age-run :
    (ops : List Op) (db : ChatDb) (k : ℕ) (r : GenerationRequest)
    → AllCallable ops db
    → find key k db.requests ≡ some r
    → (s : GenerationRequest) × (find key k (run ops db).requests ≡ some s) × (age r ≤ age s)
unfolding run
age-run [] db k r c e = (r, e, omega arith)
age-run (op ∷ ops) db k r c e =
    let (s, found, older) =
      age-run ops (apply op db) k (step_row op db r) c.1 (find-apply op db k r c.0 e) in
    (s, found, omega (arith, age-step_row op db r, older))

Edge-failed : (s : Status) → is_nonterminal s ≡ true → Edge s failed
Edge-failed prepared h = gave_up_prepared
Edge-failed queued h = gave_up_queued
Edge-failed running h = broke
Edge-failed succeeded h = cc
Edge-failed failed h = cc

fail_due_nonterminal :
    (a : FailDueArgs) (r : GenerationRequest)
    → not (fail_due_rejects a) && fail_due_guard a r ≡ true
    → is_nonterminal r.status ≡ true
unfolding fail_due_rejects fail_due_guard
fail_due_nonterminal a r g = ground arith

-- The owner's retry opens the next attempt of a failed request; every other operation follows the
-- diagram of the attempt.
pub step_row-Edge :
    (op : Op) (db : ChatDb) (r : GenerationRequest)
    → let s = step_row op db r in
      ((s.attempt ≡ r.attempt) × Edge r.status s.status)
      ⊎ ((s.attempt ≡ r.attempt + 1)
          × (r.status ≡ failed)
          × (r.retryable ≡ true)
          × (s.status ≡ prepared))
unfolding guard_of assign_of queue_guard queue_assign reserve_guard reserve_assign fail_due_guard
    fail_due_assign fail_due_rejects claim_guard claim_assign heartbeat_guard heartbeat_assign
    finalize_guard finalize_assign finalize_rejects retry_guard retry_assign
step_row-Edge (create a) db r = inl (refl, stays _)
step_row-Edge (queue a) db r = grind (arith, dispatched, stays)
step_row-Edge (reserve a) db r = grind (arith, stays)
step_row-Edge (fail_due a) db r =
    elim (Bool-cases (not (fail_due_rejects a) && fail_due_guard a r)) [
      | inl g ↦ rw g (inl (refl, Edge-failed r.status (fail_due_nonterminal a r g)))
      | inr g ↦ rw g (inl (refl, stays _))
    ]
step_row-Edge (claim a) db r = grind (arith, claimed, stays)
step_row-Edge (heartbeat a) db r = grind (arith, stays)
step_row-Edge (finalize a) db r = grind (arith, ended, broke, stays)
step_row-Edge (retry a) db r = grind (arith, stays)
step_row-Edge (reset_message m) db r = inl (refl, stays _)
step_row-Edge (elsewhere s w u m) db r = inl (refl, stays _)

step_row-succeeded :
    (op : Op) (db : ChatDb) (r : GenerationRequest) → r.status ≡ succeeded → step_row op db r ≡ r
unfolding guard_of queue_guard reserve_guard fail_due_guard fail_due_rejects claim_guard
    heartbeat_guard finalize_guard finalize_rejects retry_guard
step_row-succeeded (create a) db r e = refl
step_row-succeeded (queue a) db r e = ground arith
step_row-succeeded (reserve a) db r e = ground arith
step_row-succeeded (fail_due a) db r e = ground arith
step_row-succeeded (claim a) db r e = ground arith
step_row-succeeded (heartbeat a) db r e = ground arith
step_row-succeeded (finalize a) db r e = ground arith
step_row-succeeded (retry a) db r e = ground arith
step_row-succeeded (reset_message m) db r e = refl
step_row-succeeded (elsewhere s w u m) db r e = refl

-- No history changes any column of a request that has succeeded.
pub succeeded_is_final :
    (ops : List Op) (db : ChatDb) (k : ℕ) (r : GenerationRequest)
    → AllCallable ops db
    → r.status ≡ succeeded
    → find key k db.requests ≡ some r
    → find key k (run ops db).requests ≡ some r
unfolding run
succeeded_is_final [] db k r c done e = e
succeeded_is_final (op ∷ ops) db k r c done e =
    succeeded_is_final ops (apply op db) k r c.1 done
      (find-apply op db k r c.0 e ∙ ap some (step_row-succeeded op db r done))
