-- ===== src/Outbox/Delivery.antt =====
-- What the relay (backend/application/knowledge/outbox_relay.py) does with the events that it claims:
-- no other relay takes them while the lease runs, each is confirmed or released, each is counted, and
-- no event is stranded.
use dewflow.Base.{
  ℕ, ◌+◌, ◌≤◌, ◌<◌, ◌≡◌, refl, ◌∙◌, String, Bool, true, false, ◌&&◌, ◌||◌, Option, none, some, [],
  ◌∷◌, All, map, find, update_where, find-update_where, returning_found, Distinct, ltb, leb, subst,
  find-key, is_some, is_blank, Bool-cases, Option-cases, not, inl, inr, eq_iff, arith,
}
use dewflow.Outbox.Store.{
  Status, pending, publishing, published, TaskOutbox, Rows, ok, ClaimArgs, is_due, claim_guard,
  claim_assign, claimable, is_in, claim_due_batch, execute, by_id, exhausted_guard, lease_guard,
  publish_assign, try_mark_published, release_assign, try_release_for_retry,
}
use dewflow.Outbox.Checks.{IsSound, is_live, key, InTable, claimable-All}
use dewflow.Outbox.Relay.{
  RelayService, RelayResult, count_published, count_retry, microseconds, release, confirm,
  publish_claimed, invalid_payload_error,
}

-- What a claim makes of an event: it is leased to the claimer, and is not claimable, by anyone, at
-- any time before the lease runs out.
abbrev pub LeasedBy : ClaimArgs → TaskOutbox → Type 0
LeasedBy a s =
    (s.status ≡ publishing)
    × (s.lease_owner ≡ some a.lease_owner)
    × (s.attempt_count ≤ a.max_attempts)
    × ((b : ClaimArgs) → b.due_at < a.lease_expires_at → claim_guard b s ≡ false)

claim_assign-LeasedBy :
    (a : ClaimArgs) (r : TaskOutbox) → claim_guard a r ≡ true → LeasedBy a (claim_assign a r)
unfolding claim_guard claim_assign
claim_assign-LeasedBy a r g = (refl, refl, ground arith, λ b early. ground arith)

-- An event of a batch as the claim leaves it: leased, and this row stands in the table.
abbrev pub LeasedIn : ClaimArgs → Rows → TaskOutbox → Type 0
LeasedIn a after s = LeasedBy a s × (find key s.id after ≡ some s)

claimed-LeasedIn :
    (a : ClaimArgs) (rows batch part : Rows)
    → ((s : TaskOutbox) → is_in part s ≡ true → is_in batch s ≡ true)
    → All (InTable a rows) part
    → All
        (LeasedIn a (update_where (is_in batch) (claim_assign a) rows))
        (map (claim_assign a) part)
unfolding claim_assign
claimed-LeasedIn a rows batch [] sub h = tt
claimed-LeasedIn a rows batch (s ∷ part) sub h =
    let keeps : (x : TaskOutbox) → key (claim_assign a x) ≡ key x =
      unfold claim_assign in λ x. refl in
    let named : is_in batch s ≡ true = sub s (ground arith) in
    let found : find key s.id (update_where (is_in batch) (claim_assign a) rows)
        ≡ some (claim_assign a s) =
      find-update_where key (is_in batch) (claim_assign a) keeps s.id rows s h.0.0
      ∙ rw named refl in
    (
      (claim_assign-LeasedBy a s h.0.1, found),
      claimed-LeasedIn a rows batch part (λ x i. sub x (ground (arith, i))) h.1,
    )

-- Every event of a batch is leased to its relay, and closed to every other claim until the lease
-- runs out; and the table after the claim has this row for it. (No two events of the table have the
-- same id.)
pub claim_due_batch-LeasedIn :
    (locked : TaskOutbox → Bool) (a : ClaimArgs) (limit : ℕ) (rows batch : Rows)
    → Distinct key rows
    → (claim_due_batch locked a limit rows).0 ≡ ok batch
    → All (LeasedIn a (claim_due_batch locked a limit rows).1) batch
unfolding claim_due_batch
claim_due_batch-LeasedIn locked a limit rows batch d h =
    elim (Bool-cases
      (is_blank a.lease_owner || ltb a.max_attempts 1 || ltb limit 1 || ltb 500 limit)) [
        | inl refused ↦ absurd (ground arith)
        | inr accepted ↦
            let chosen = claimable locked a limit rows in
            let same : map (claim_assign a) chosen ≡ batch = ground arith in
            let leased =
              claimed-LeasedIn a rows chosen chosen (λ s i. i)
                (claimable-All locked a limit rows d) in
            rw accepted (
              subst (All (LeasedIn a (update_where (is_in chosen) (claim_assign a) rows))) same
                leased)
      ]

-- When a live event comes up: its next attempt, or the end of its lease.
abbrev pub or_zero : Option ℕ → ℕ
or_zero none = 0
or_zero (some t) = t

abbrev pub due_time : Status → TaskOutbox → ℕ
due_time publishing r = or_zero r.lease_expires_at
due_time _ r = or_zero r.next_attempt_at

is_due_from :
    (m : ℕ) (r : TaskOutbox) (n : ℕ)
    → IsSound m r
    → is_live r.status ≡ true
    → due_time r.status r ≤ n
    → is_due n r ≡ true
unfolding is_due
is_due_from m r n h live past = ground (arith, h)

-- No event is stranded: from its time on, a live event can be claimed exactly while it has attempts
-- left, and is found exhausted exactly when it has none.
pub live_is_due :
    (m : ℕ) (r : TaskOutbox) (a : ClaimArgs)
    → IsSound m r
    → is_live r.status ≡ true
    → due_time r.status r ≤ a.due_at
    → (claim_guard a r ≡ ltb r.attempt_count a.max_attempts)
      × (exhausted_guard a.due_at a.max_attempts r ≡ leb a.max_attempts r.attempt_count)
live_is_due m r a h live past = (
  unfold claim_guard in ground (arith, is_due_from m r a.due_at h live past),
  unfold exhausted_guard in ground (arith, is_due_from m r a.due_at h live past),
)

module _ (outbox_id : ℕ) (guard : TaskOutbox → Bool) (assign : TaskOutbox → TaskOutbox)
    (keeps : (x : TaskOutbox) → key (assign x) ≡ key x) (rows : Rows) (keyed : Distinct key rows)
    (r : TaskOutbox) (current : find key outbox_id rows ≡ some r) (meets : guard r ≡ true) where
  execute_hit : (execute outbox_id guard assign rows).0 ≡ some (assign r)
  unfolding execute
  execute_hit = ground (
    arith,
    returning_found key (by_id outbox_id guard) assign outbox_id (λ x g. ground arith) keeps r rows
        keyed current,
    find_names,
  )
    where
      find_names : key r ≡ outbox_id
      find_names = find-key key outbox_id rows r current

  find-execute : find key outbox_id (execute outbox_id guard assign rows).1 ≡ some (assign r)
  unfolding execute
  find-execute =
      find-update_where key (by_id outbox_id guard) assign keeps outbox_id rows r current
      ∙ ground (arith, find-key key outbox_id rows r current)

held :
    (owner : String) (r : TaskOutbox)
    → r.status ≡ publishing
    → r.lease_owner ≡ some owner
    → lease_guard r.attempt_count owner r ≡ true
unfolding lease_guard
held owner r e o = ground (arith, eq_iff owner owner)

-- What became of an event that the relay holds: confirmed, or waiting for the retry.
abbrev pub Confirmed : ℕ → TaskOutbox → Type 0
Confirmed now s = (s.status ≡ published) × (s.published_at ≡ some now)

abbrev pub Waiting : RelayService → ℕ → TaskOutbox → TaskOutbox → Type 0
Waiting self now r s =
    (s.status ≡ pending)
    × (s.next_attempt_at ≡ some (now + microseconds self self.retry_seconds))
    × (s.attempt_count ≡ r.attempt_count)

-- the broker has taken the message of the event
abbrev pub is_sent : RelayService → TaskOutbox → Bool
is_sent self r = self.payload_is_valid r.payload && not (is_some (self.refuses r))

module _ (self : RelayService) (owner : String) (now : ℕ) (c : RelayResult) (rows : Rows)
    (keyed : Distinct key rows) (r : TaskOutbox) (current : find key r.id rows ≡ some r)
    (mine : lease_guard r.attempt_count owner r ≡ true) where
  confirm_held :
      (s : TaskOutbox) × (find key r.id (confirm self r owner now c rows).1 ≡ some s)
      × Confirmed now s
      × ((confirm self r owner now c rows).0 ≡ count_published true c)
  unfolding confirm try_mark_published
  confirm_held =
      let guard = lease_guard r.attempt_count owner in
      let keeps : (x : TaskOutbox) → key (publish_assign now x) ≡ key x =
        unfold publish_assign in λ x. refl in
      (
        publish_assign now r,
        find-execute r.id guard (publish_assign now) keeps rows keyed r current mine,
        unfold publish_assign in (refl, refl),
        rw (execute_hit r.id guard (publish_assign now) keeps rows keyed r current mine),
      )

  release_held :
      (error : String)
      → (s : TaskOutbox) × (find key r.id (release self r owner now error c rows).1 ≡ some s)
        × Waiting self now r s
        × ((release self r owner now error c rows).0 ≡ count_retry true c)
  unfolding release try_release_for_retry
  release_held error =
      let guard = lease_guard r.attempt_count owner in
      let assign = release_assign (now + microseconds self self.retry_seconds) error in
      let keeps : (x : TaskOutbox) → key (assign x) ≡ key x = unfold release_assign in λ x. refl in
      (
        assign r,
        find-execute r.id guard assign keeps rows keyed r current mine,
        unfold release_assign in (refl, refl, refl),
        rw (execute_hit r.id guard assign keeps rows keyed r current mine),
      )

abbrev pub DeliveredAs :
    RelayService → ℕ → RelayResult → TaskOutbox → Bool → RelayResult × Rows → Type 0
DeliveredAs self now c r true out =
    (s : TaskOutbox) × (find key r.id out.1 ≡ some s)
    × Confirmed now s
    × (out.0 ≡ count_published true c)
DeliveredAs self now c r false out =
    (s : TaskOutbox) × (find key r.id out.1 ≡ some s)
    × Waiting self now r s
    × (out.0 ≡ count_retry true c)

-- An event that the relay holds is marked published exactly if the broker took its message; else it
-- waits for the retry time with its attempts as they are. The result counts it so.
pub publish_claimed-DeliveredAs :
    (self : RelayService) (owner : String) (now : ℕ) (c : RelayResult) (rows : Rows)
    (r : TaskOutbox)
    → Distinct key rows
    → find key r.id rows ≡ some r
    → r.status ≡ publishing
    → r.lease_owner ≡ some owner
    → DeliveredAs self now c r (is_sent self r) (publish_claimed self r owner now c rows)
unfolding publish_claimed
publish_claimed-DeliveredAs self owner now c rows r keyed current is_publishing is_mine =
    let mine = held owner r is_publishing is_mine in
    elim (Bool-cases (self.payload_is_valid r.payload)) [
      | inl valid ↦ elim (Option-cases (self.refuses r)) [
        | inl taken ↦ rw (valid, taken) (confirm_held self owner now c rows keyed r current mine)
        | inr (error, refused) ↦
            rw (valid, refused) (release_held self owner now c rows keyed r current mine error)
      ]
      | inr invalid ↦
          rw invalid (release_held self owner now c rows keyed r current mine invalid_payload_error)
    ]
