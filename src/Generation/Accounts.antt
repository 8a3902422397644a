-- ===== src/Generation/Accounts.antt =====
-- The counters of a recovery scan (backend/application/chat/generation_recovery.py).
use dewflow.Base.{
  ℕ, suc, ◌+◌, ◌≡◌, refl, Bool, true, false, Option, none, some, List, [], ◌∷◌, All, length, leb,
  is_empty, is_none, Bool-cases, inl, inr, arith, ◌||◌, String, ◌∙◌, ap, subst,
}
use dewflow.Generation.Row.{
  GenerationRequest, ChatDb, Status, prepared, queued, running, succeeded, failed, is_nonterminal,
}
use dewflow.Generation.Args.{Result, ok, err}
use dewflow.Generation.Dispatch.{try_reserve_generation_request_redispatch}
use dewflow.Generation.Recovery.{
  RecoveryService, RecoveryResult, Outcome, count_fail, recover_prepared, recover_queued,
  redispatch, with_fences, with_context, reconcile_status, reconcile_one,
}
use dewflow.Generation.Due.{IsDue, IsDue-nonterminal, get_due_lem}
use dewflow.Generation.Scan.{reconcile_all, reconcile_due_requests, go_on, reconcile_from, scanned}

-- What has been counted so far, whatever became of it.
abbrev pub handled : RecoveryResult → ℕ
handled c =
    c.prepared_dispatched_count + c.queued_redispatched_count + c.failed_count + c.conflict_count
    + c.dispatch_error_count

-- One more item is counted, once, and the number scanned stays.
abbrev pub CountsOne : RecoveryResult → Result RecoveryResult → Type 0
CountsOne c (ok c') = (handled c' ≡ suc (handled c)) × (c'.scanned_count ≡ c.scanned_count)
CountsOne c (err e) = Unit

count_fail-CountsOne :
    (c : RecoveryResult) (o : Result Bool × ChatDb) → CountsOne c (count_fail c o).0
count_fail-CountsOne c (ok true, db) = (omega arith, refl)
count_fail-CountsOne c (ok false, db) = (omega arith, refl)
count_fail-CountsOne c (err e, db) = tt

module _ (self : RecoveryService) (r : GenerationRequest) (now : ℕ) (c : RecoveryResult)
    (db : ChatDb) where
  recover_prepared-CountsOne : CountsOne c (recover_prepared self r now c db).0
  unfolding recover_prepared
  recover_prepared-CountsOne = ground arith

  redispatch-CountsOne : (t l : String) → CountsOne c (redispatch self r t l now c db).0
  unfolding redispatch try_reserve_generation_request_redispatch
  redispatch-CountsOne t l = ground arith

  with_fences-CountsOne :
      (t l : Option String) (missing : Outcome) (use_fences : String → String → Outcome)
      → CountsOne c missing.0
      → ((t l : String) → CountsOne c (use_fences t l).0)
      → CountsOne c (with_fences t l missing use_fences).0
  unfolding with_fences
  with_fences-CountsOne (some t) (some l) missing use_fences h k =
      elim (Bool-cases (is_empty t || is_empty l)) [ inl e ↦ rw e h | inr e ↦ rw e (k t l) ]
  with_fences-CountsOne (some t) none missing use_fences h k = h
  with_fences-CountsOne none l missing use_fences h k = h

  recover_queued-CountsOne : CountsOne c (recover_queued self r now c db).0
  unfolding recover_queued
  recover_queued-CountsOne =
      elim (Bool-cases (leb self.max_dispatch_attempts r.dispatch_attempts)) [
        | inl e ↦ rw e (count_fail-CountsOne c _)
        | inr e ↦ rw e (
            with_fences-CountsOne r.task_id r.lease_token _ _ (count_fail-CountsOne c _)
              redispatch-CountsOne)
      ]

  with_context-CountsOne :
      (recovered : Outcome)
      → CountsOne c recovered.0
      → CountsOne c (with_context self r now c db recovered).0
  unfolding with_context
  with_context-CountsOne recovered h = elim (Bool-cases (is_none r.assistant_message_id)) [
    | inl e ↦ rw e (count_fail-CountsOne c _)
    | inr e ↦ elim (Bool-cases (self.context_is_valid r.dispatch_context)) [
      | inl valid ↦ rw (e, valid) h
      | inr invalid ↦ rw (e, invalid) (count_fail-CountsOne c _)
    ]
  ]

  reconcile_status-CountsOne :
      (s : Status) → is_nonterminal s ≡ true → CountsOne c (reconcile_status self s r now c db).0
  unfolding reconcile_status
  reconcile_status-CountsOne prepared h = with_context-CountsOne _ recover_prepared-CountsOne
  reconcile_status-CountsOne queued h = with_context-CountsOne _ recover_queued-CountsOne
  reconcile_status-CountsOne running h = count_fail-CountsOne c _
  reconcile_status-CountsOne succeeded h = cc
  reconcile_status-CountsOne failed h = cc

module _ (self : RecoveryService) (meanwhile : GenerationRequest → ChatDb → ChatDb) (now : ℕ) where
  abbrev Accounted : RecoveryResult → ℕ → Result RecoveryResult → Type 0
  Accounted c n (ok c') = (handled c' ≡ handled c + n) × (c'.scanned_count ≡ c.scanned_count)
  Accounted c n (err e) = Unit

  Accounted-suc :
      (c c' : RecoveryResult) (n : ℕ) (last : Result RecoveryResult)
      → CountsOne c (ok c')
      → Accounted c' n last
      → Accounted c (suc n) last
  Accounted-suc c c' n (ok d) one more = (omega arith, more.1 ∙ one.1)
  Accounted-suc c c' n (err e) one more = tt

  go_on-Accounted :
      (c : RecoveryResult) (n : ℕ) (first : Outcome) (rest : RecoveryResult → ChatDb → Outcome)
      → CountsOne c first.0
      → ((c' : RecoveryResult) (db : ChatDb) → Accounted c' n (rest c' db).0)
      → Accounted c (suc n) (go_on first rest).0
  go_on-Accounted c n (ok c', db) rest one more =
      Accounted-suc c c' n (rest c' db).0 one (more c' db)
  go_on-Accounted c n (err e, db) rest one more = tt

  reconcile_all-Accounted :
      (rs : List GenerationRequest)
      → All (IsDue now) rs
      → (c : RecoveryResult) (db : ChatDb)
      → Accounted c (length rs) (reconcile_all self meanwhile rs now c db).0
  unfolding reconcile_all reconcile_one
  reconcile_all-Accounted [] h c db = (omega arith, refl)
  reconcile_all-Accounted (r ∷ rs) h c db =
      go_on-Accounted c (length rs) (reconcile_one self r now c (meanwhile r db)) _
        (reconcile_status-CountsOne self r now c (meanwhile r db) r.status
          (IsDue-nonterminal now r h.0))
        (λ c' after. reconcile_all-Accounted rs h.1 c' after)

  Accounted-end :
      (n : ℕ) (c d : RecoveryResult) (last : Result RecoveryResult)
      → last ≡ ok d
      → Accounted c n last
      → (handled d ≡ handled c + n) × (d.scanned_count ≡ c.scanned_count)
  Accounted-end n c d last e h = subst (Accounted c n) e h

  reconcile_from-accounts :
      (db db' : ChatDb) (due : Result (List GenerationRequest)) (c : RecoveryResult)
      → ((rs : List GenerationRequest) → due ≡ ok rs → All (IsDue now) rs)
      → reconcile_from self meanwhile now db due ≡ (ok c, db')
      → handled c ≡ c.scanned_count
  reconcile_from-accounts db db' (err e) c all_due h = cc
  reconcile_from-accounts db db' (ok rs) c all_due h = omega (
    arith,
    Accounted-end (length rs) (scanned (length rs)) c
        (reconcile_all self meanwhile rs now (scanned (length rs)) db).0
        (ap (λ (o : Outcome). o.0) h)
        (reconcile_all-Accounted rs (all_due rs refl) (scanned (length rs)) db),
  )

-- Every request that a scan takes is counted exactly once, as dispatched, redispatched, failed, a
-- conflict or a dispatch error, whatever the rest of the system does in between.
pub reconcile_accounts :
    (self : RecoveryService) (meanwhile : GenerationRequest → ChatDb → ChatDb) (now : ℕ)
    (db db' : ChatDb) (c : RecoveryResult)
    → reconcile_due_requests self meanwhile now db ≡ (ok c, db')
    → handled c ≡ c.scanned_count
unfolding reconcile_due_requests
reconcile_accounts self meanwhile now db db' c h =
    reconcile_from-accounts self meanwhile now db db' _ c
      (λ rs e. (get_due_lem now self.batch_size db rs e).0) h
