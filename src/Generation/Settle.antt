-- ===== src/Generation/Settle.antt =====
-- What the recovery (backend/application/chat/generation_recovery.py) does to a due request that
-- nobody else has touched since the scan.
use dewflow.Base.{
  ℕ, ◌+◌, ◌≤◌, ◌≡◌, refl, String, true, false, ◌||◌, Option, none, some, ◌⊎◌, inl, inr, find,
  is_none, is_blank, is_empty, leb, Bool-cases, if◌then◌else◌, arith,
}
use dewflow.Generation.Row.{
  GenerationRequest, ChatDb, Status, prepared, queued, running, succeeded, failed, is_nonterminal,
}
use dewflow.Generation.Args.{ok, QueueArgs, ReserveArgs}
use dewflow.Generation.Scope.{execute, actor_scope}
use dewflow.Generation.Dispatch.{
  queue_guard, queue_assign, try_queue_generation_request, reserve_guard, reserve_assign,
  reserve_rejects, try_reserve_generation_request_redispatch, fail_due_assign,
}
use dewflow.Generation.Recovery.{
  RecoveryService, RecoveryResult, Outcome, count_fail, count_failed, count_prepared,
  count_redispatched, count_dispatch_error, fail_args, fail_request, queue_args, reserve_args,
  dispatch, recover_prepared, recover_queued, redispatch, with_fences, with_context,
  reconcile_status, reconcile_one, next_due, lease_expired_code, dispatch_exhausted_code,
  context_unavailable_code,
}
use dewflow.Generation.Checks.{IsSound}
use dewflow.Generation.History.{key}
use dewflow.Generation.Keys.{IsKeyed, execute_hit, find-execute}
use dewflow.Generation.Due.{IsDue, IsDue-nonterminal}
use dewflow.Generation.FailDue.{text_is_self, HasMessage, fail_request_current}

-- The request has failed and its owner may retry it, or it is queued until the next due time with one
-- more dispatch on its account; its attempt stays.
abbrev pub Settled : RecoveryService → ℕ → GenerationRequest → GenerationRequest → Type 0
Settled self now r s =
    (s.attempt ≡ r.attempt)
    × ((s.status ≡ failed) × (s.retryable ≡ true) × (s.recovery_due_at ≡ none)
        ⊎ (s.status ≡ queued)
          × (s.recovery_due_at ≡ some (next_due self now))
          × (s.dispatch_attempts ≡ r.dispatch_attempts + 1)
          × (s.dispatch_attempts ≤ self.max_dispatch_attempts))

-- The item ends without an exception, and its row is settled.
abbrev pub SettledBy : RecoveryService → ℕ → GenerationRequest → Outcome → Type 0
SettledBy self now r outcome =
    (c : RecoveryResult) × (db : ChatDb) × (s : GenerationRequest) × (outcome ≡ (ok c, db))
    × (find key r.id db.requests ≡ some s)
    × Settled self now r s

queue_names :
    (db : ChatDb) (a : QueueArgs) (r : GenerationRequest)
    → queue_guard db a r ≡ true
    → key r ≡ a.request_id
unfolding queue_guard
queue_names db a r g = ground arith

reserve_names :
    (a : ReserveArgs) (r : GenerationRequest) → reserve_guard a r ≡ true → key r ≡ a.request_id
unfolding reserve_guard
reserve_names a r g = ground arith

module _ (self : RecoveryService) (some_attempts : 1 ≤ self.max_dispatch_attempts) (now : ℕ)
    (r : GenerationRequest) (sound : IsSound r) (due : IsDue now r) (c : RecoveryResult)
    (db : ChatDb) (keyed : IsKeyed db) (current : find key r.id db.requests ≡ some r) where
  fail_settles :
      (code message : String)
      → is_blank code ≡ false
      → HasMessage db r.assistant_message_id
      → SettledBy self now r (count_fail c (fail_request r now code message db))
  fail_settles code message named there =
      let (db', ran, found) =
        fail_request_current now r sound due code message named db keyed current there in
      (
        count_failed c,
        db',
        fail_due_assign (fail_args r now code message) r,
        rw ran,
        found,
        unfold fail_due_assign in (refl, inl (refl, refl, refl)),
      )

  prepared_settles :
      r.status ≡ prepared
      → actor_scope db r.user_id r ≡ true
      → SettledBy self now r (recover_prepared self r now c db)
  unfolding recover_prepared try_queue_generation_request
  prepared_settles is_prepared scope =
      let a = queue_args self r now in
      let meets : queue_guard db a r ≡ true = unfold queue_guard queue_args in ground arith in
      let names : (x : GenerationRequest) → queue_guard db a x ≡ true → key x ≡ r.id =
        unfold queue_args in queue_names db a in
      let keeps : (x : GenerationRequest) → key (queue_assign a x) ≡ key x =
        unfold queue_assign in λ x. refl in
      let sent = dispatch self r (self.fresh_task_id r) (self.fresh_lease_token r) in
      (
        (if sent then count_prepared c else count_dispatch_error c),
        (execute (queue_guard db a) (queue_assign a) db).1,
        queue_assign a r,
        rw (
            execute_hit (queue_guard db a) (queue_assign a) r.id names keeps db keyed r current
              meets),
        find-execute (queue_guard db a) (queue_assign a) r.id names keeps db keyed r current meets,
        unfold queue_assign queue_args in (refl, inr (refl, refl, refl, ground (arith, sound))),
      )

  queued_settles :
      (t l : String)
      → r.status ≡ queued
      → r.task_id ≡ some t
      → r.lease_token ≡ some l
      → leb self.max_dispatch_attempts r.dispatch_attempts ≡ false
      → SettledBy self now r (redispatch self r t l now c db)
  unfolding redispatch try_reserve_generation_request_redispatch
  queued_settles t l is_queued et el left =
      let a = reserve_args self r t l now in
      let accepted : reserve_rejects a ≡ false =
        unfold reserve_rejects reserve_args in ground (arith, sound) in
      let meets : reserve_guard a r ≡ true =
        unfold reserve_guard reserve_args in ground (arith, text_is_self t, text_is_self l) in
      let names : (x : GenerationRequest) → reserve_guard a x ≡ true → key x ≡ r.id =
        unfold reserve_args in reserve_names a in
      let keeps : (x : GenerationRequest) → key (reserve_assign a x) ≡ key x =
        unfold reserve_assign in λ x. refl in
      (
        (if dispatch self r t l then count_redispatched c else count_dispatch_error c),
        (execute (reserve_guard a) (reserve_assign a) db).1,
        reserve_assign a r,
        rw (
          accepted,
          execute_hit (reserve_guard a) (reserve_assign a) r.id names keeps db keyed r current
              meets,
        ),
        find-execute (reserve_guard a) (reserve_assign a) r.id names keeps db keyed r current meets,
        unfold reserve_assign reserve_args in (refl, inr (is_queued, refl, refl, ground arith)),
      )

  recover_queued_settles :
      r.status ≡ queued
      → HasMessage db r.assistant_message_id
      → SettledBy self now r (recover_queued self r now c db)
  unfolding recover_queued with_fences
  recover_queued_settles is_queued there =
      elim (Bool-cases (leb self.max_dispatch_attempts r.dispatch_attempts)) [
        | inl spent ↦
            rw spent (fail_settles dispatch_exhausted_code _ (unfold is_blank in refl) there)
        | inr left ↦ rw left (fenced r.task_id r.lease_token refl refl left)
      ]
    where
      fenced :
          (t l : Option String)
          → r.task_id ≡ t
          → r.lease_token ≡ l
          → leb self.max_dispatch_attempts r.dispatch_attempts ≡ false
          → SettledBy self now r (
              with_fences t l
                (count_fail c (fail_request r now context_unavailable_code "生成任务恢复身份不可用，请重试" db))
                (λ t l. redispatch self r t l now c db))
      fenced (some t) (some l) et el left = elim (Bool-cases (is_empty t || is_empty l)) [
        | inl blank ↦
            rw blank (fail_settles context_unavailable_code _ (unfold is_blank in refl) there)
        | inr named ↦ rw named (queued_settles t l is_queued et el left)
      ]
      fenced (some t) none et el left =
          fail_settles context_unavailable_code _ (unfold is_blank in refl) there
      fenced none l et el left =
          fail_settles context_unavailable_code _ (unfold is_blank in refl) there

  with_context_settles :
      (recovered : Outcome)
      → HasMessage db r.assistant_message_id
      → SettledBy self now r recovered
      → SettledBy self now r (with_context self r now c db recovered)
  unfolding with_context
  with_context_settles recovered there h = elim (Bool-cases (is_none r.assistant_message_id)) [
    | inl missing ↦
        rw missing (fail_settles context_unavailable_code _ (unfold is_blank in refl) there)
    | inr named ↦ elim (Bool-cases (self.context_is_valid r.dispatch_context)) [
      | inl valid ↦ rw (named, valid) h
      | inr invalid ↦
          rw (named, invalid)
            (fail_settles context_unavailable_code _ (unfold is_blank in refl) there)
    ]
  ]

  reconcile_status_settles :
      (s : Status)
      → r.status ≡ s
      → is_nonterminal s ≡ true
      → HasMessage db r.assistant_message_id
      → (r.status ≡ prepared → actor_scope db r.user_id r ≡ true)
      → SettledBy self now r (reconcile_status self s r now c db)
  unfolding reconcile_status
  reconcile_status_settles prepared e n there scope =
      with_context_settles _ there (prepared_settles e (scope e))
  reconcile_status_settles queued e n there scope =
      with_context_settles _ there (recover_queued_settles e there)
  reconcile_status_settles running e n there scope =
      fail_settles lease_expired_code _ (unfold is_blank in refl) there
  reconcile_status_settles succeeded e n there scope = cc
  reconcile_status_settles failed e n there scope = cc

-- A due request that nobody has touched since the scan is settled, without an exception: it has
-- failed, retryably, or is queued until the next due time with one more dispatch, of at most the
-- configured number. A prepared one needs its owner to be still in scope.
pub recovery_settles :
    (self : RecoveryService) (now : ℕ) (r : GenerationRequest) (c : RecoveryResult) (db : ChatDb)
    → 1 ≤ self.max_dispatch_attempts
    → IsSound r
    → IsDue now r
    → IsKeyed db
    → find key r.id db.requests ≡ some r
    → HasMessage db r.assistant_message_id
    → (r.status ≡ prepared → actor_scope db r.user_id r ≡ true)
    → SettledBy self now r (reconcile_one self r now c db)
unfolding reconcile_one
recovery_settles self now r c db some_attempts sound due keyed current there scope =
    reconcile_status_settles self some_attempts now r sound due c db keyed current r.status refl
      (IsDue-nonterminal now r due) there scope
