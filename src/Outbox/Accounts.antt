-- ===== src/Outbox/Accounts.antt =====
-- The counters of the outbox relay (backend/application/knowledge/outbox_relay.py).
use dewflow.Base.{
  ℕ, suc, ◌+◌, ◌≤◌, ◌≡◌, refl, ap, subst, ◌∙◌, String, Bool, true, false, ◌||◌, [], ◌∷◌, length,
  length-take, keep, take, order_by, ltb, Bool-cases, Option-cases, inl, inr, arith,
}
use dewflow.Outbox.Store.{
  TaskOutbox, Rows, Result, ok, value_error, ClaimArgs, claim_due_batch, precedes, exhausted_guard,
  get_exhausted_due, try_mark_dead,
}
use dewflow.Outbox.Relay.{
  RelayService, RelayResult, microseconds, claimed, count_published, count_retry, count_dead,
  release, confirm, publish_claimed, publish_all, bury_all, bury, mark_exhausted, relay_batch,
  relay_due, publish_exhausted_error,
}

-- What has been counted so far, whatever became of it.
abbrev pub handled : RelayResult → ℕ
handled c = c.published_count + c.retry_count + c.dead_count + c.conflict_count

abbrev Counts : ℕ → RelayResult → RelayResult → Type 0
Counts n c c' = (handled c' ≡ handled c + n) × (c'.claimed_count ≡ c.claimed_count)

count_published-Counts : (b : Bool) (c : RelayResult) → Counts 1 c (count_published b c)
count_published-Counts true c = (omega arith, refl)
count_published-Counts false c = (omega arith, refl)

count_retry-Counts : (b : Bool) (c : RelayResult) → Counts 1 c (count_retry b c)
count_retry-Counts true c = (omega arith, refl)
count_retry-Counts false c = (omega arith, refl)

count_dead-Counts : (b : Bool) (c : RelayResult) → Counts 1 c (count_dead b c)
count_dead-Counts true c = (omega arith, refl)
count_dead-Counts false c = (omega arith, refl)

Counts-suc : (n : ℕ) (a b c : RelayResult) → Counts 1 a b → Counts n b c → Counts (suc n) a c
Counts-suc n a b c h k = (omega arith, k.1 ∙ h.1)

module _ (self : RelayService) where
  publish_claimed-Counts :
      (r : TaskOutbox) (owner : String) (now : ℕ) (c : RelayResult) (rows : Rows)
      → Counts 1 c (publish_claimed self r owner now c rows).0
  unfolding publish_claimed confirm release
  publish_claimed-Counts r owner now c rows = elim (Bool-cases (self.payload_is_valid r.payload)) [
    | inl valid ↦ elim (Option-cases (self.refuses r)) [
      | inl taken ↦ rw (valid, taken) (count_published-Counts _ c)
      | inr (error, refused) ↦ rw (valid, refused) (count_retry-Counts _ c)
    ]
    | inr invalid ↦ rw invalid (count_retry-Counts _ c)
  ]

  module _ (meanwhile : TaskOutbox → Rows → Rows) where
    publish_all-Counts :
        (rs : Rows) (owner : String) (now : ℕ) (c : RelayResult) (rows : Rows)
        → Counts (length rs) c (publish_all self meanwhile rs owner now c rows).0
    unfolding publish_all
    publish_all-Counts [] owner now c rows = (omega arith, refl)
    publish_all-Counts (r ∷ rs) owner now c rows =
        let first = publish_claimed self r owner now c (meanwhile r rows) in
        let rest = publish_all self meanwhile rs owner now first.0 first.1 in
        Counts-suc (length rs) c first.0 rest.0
          (publish_claimed-Counts r owner now c (meanwhile r rows))
          (publish_all-Counts rs owner now first.0 first.1)

    bury_all-Counts :
        (rs : Rows) (now : ℕ) (c : RelayResult) (rows : Rows)
        → Counts (length rs) c (bury_all self meanwhile rs now c rows).0
    unfolding bury_all
    bury_all-Counts [] now c rows = (omega arith, refl)
    bury_all-Counts (r ∷ rs) now c rows =
        let marked =
          try_mark_dead r.id r.attempt_count now publish_exhausted_error (meanwhile r rows) in
        let c' = count_dead marked.0 c in
        Counts-suc (length rs) c c' (bury_all self meanwhile rs now c' marked.1).0
          (count_dead-Counts marked.0 c) (bury_all-Counts rs now c' marked.1)

    length-get_exhausted_due :
        (now : ℕ) (rows rs : Rows)
        → get_exhausted_due now self.max_attempts self.batch_size rows ≡ ok rs
        → length rs ≤ self.batch_size
    unfolding get_exhausted_due
    length-get_exhausted_due now rows rs h =
        elim (Bool-cases
          (ltb self.max_attempts 1 || ltb self.batch_size 1 || ltb 500 self.batch_size)) [
            | inl refused ↦ absurd (ground arith)
            | inr accepted ↦
                let found = order_by precedes (keep (exhausted_guard now self.max_attempts) rows) in
                let same : take self.batch_size found ≡ rs = ground arith in
                omega (arith, length-take self.batch_size found, ap (λ (l : Rows). length l) same)
          ]

    mark_exhausted-Counts :
        (now : ℕ) (c d : RelayResult) (rows rows' : Rows)
        → mark_exhausted self meanwhile now c rows ≡ (ok d, rows')
        → (rs : Rows) × (get_exhausted_due now self.max_attempts self.batch_size rows ≡ ok rs)
          × Counts (length rs) c d
    unfolding mark_exhausted
    mark_exhausted-Counts now c d rows rows' h =
        buried (get_exhausted_due now self.max_attempts self.batch_size rows) refl h
      where
        buried :
            (found : Result Rows)
            → get_exhausted_due now self.max_attempts self.batch_size rows ≡ found
            → bury self meanwhile found now c rows ≡ (ok d, rows')
            → (rs : Rows) × (get_exhausted_due now self.max_attempts self.batch_size rows ≡ ok rs)
              × Counts (length rs) c d
        buried value_error e k = cc
        buried (ok rs) e k =
            let counted = bury_all-Counts rs now c rows in
            let same : (bury_all self meanwhile rs now c rows).0 ≡ d = ground arith in
            (rs, e, subst (Counts (length rs) c) same counted)

module _ (self : RelayService) (meanwhile : TaskOutbox → Rows → Rows) (locked : TaskOutbox → Bool)
    (owner : String) (now : ℕ) (rows : Rows) where
  abbrev pub claim_of_run : ClaimArgs
  claim_of_run = record {
    due_at = now;
    lease_owner = owner;
    lease_expires_at = now + microseconds self self.lease_seconds;
    max_attempts = self.max_attempts;
  }

  -- The events claimed, the events found exhausted once the claimed ones are through, and their counts.
  abbrev pub Accounted : RelayResult → Type 0
  Accounted c =
      let claim = claim_due_batch locked claim_of_run self.batch_size rows in
      (batch : Rows) × (exhausted : Rows) × (claim.0 ≡ ok batch)
      × (get_exhausted_due now self.max_attempts self.batch_size
            (publish_all self meanwhile batch owner now (claimed (length batch)) claim.1).1
          ≡ ok exhausted)
      × (length exhausted ≤ self.batch_size)
      × (c.claimed_count ≡ length batch)
      × (handled c ≡ length batch + length exhausted)

-- Every event that a relay run claims, and every event that it finds exhausted when those are through,
-- at most a batch of them, is counted exactly once: as published, retried, dead or a conflict.
pub relay_accounts :
    (self : RelayService) (meanwhile : TaskOutbox → Rows → Rows) (locked : TaskOutbox → Bool)
    (owner : String) (now : ℕ) (c : RelayResult) (rows rows' : Rows)
    → relay_due self meanwhile locked owner now rows ≡ (ok c, rows')
    → Accounted self meanwhile locked owner now rows c
unfolding relay_due
relay_accounts self meanwhile locked owner now c rows rows' h =
    let claim =
      claim_due_batch locked (claim_of_run self meanwhile locked owner now rows) self.batch_size
        rows in
    relayed claim.0 refl h
  where
    relayed :
        (batch : Result Rows)
        → (claim_due_batch locked
            (claim_of_run self meanwhile locked owner now rows)
            self.batch_size
            rows).0
          ≡ batch
        → relay_batch self meanwhile owner now (
          batch,
          (claim_due_batch locked
              (claim_of_run self meanwhile locked owner now rows)
              self.batch_size
              rows).1,
        )
          ≡ (ok c, rows')
        → Accounted self meanwhile locked owner now rows c
    relayed value_error e k = cc
    relayed (ok rs) e k =
        let start = claimed (length rs) in
        let after =
          (claim_due_batch locked (claim_of_run self meanwhile locked owner now rows)
            self.batch_size rows).1 in
        let sent = publish_all self meanwhile rs owner now start after in
        let counted = publish_all-Counts self meanwhile rs owner now start after in
        let (found, is_found, buried) =
          mark_exhausted-Counts self meanwhile now sent.0 c sent.1 rows' k in
        (
          rs,
          found,
          e,
          is_found,
          length-get_exhausted_due self meanwhile now sent.1 found is_found,
          buried.1 ∙ counted.1,
          omega (arith, counted, buried),
        )
