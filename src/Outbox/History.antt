-- ===== src/Outbox/History.antt =====
-- The invariant of Checks over every history of the statements of `TaskOutboxRepository`
-- (backend/repositories/task_outbox_repo.py).
use dewflow.Base.{
  ℕ, ◌≤◌, ◌≡◌, refl, String, Bool, ◌||◌, none, some, List, [], ◌∷◌, All, All-update_where,
  All-update_where_if, All-both, find, Distinct, Distinct-found, update_where-Distinct, is_blank,
  ltb, Bool-cases, inl, inr, if◌then◌else◌, arith,
}
use dewflow.Outbox.Store.{
  TaskOutbox, Rows, Status, ClaimArgs, new_event, claim_guard, claim_assign, claimable, is_in,
  claim_due_batch, by_id, lease_guard, publish_assign, release_assign, dead_guard, dead_assign,
  replay_rejects, replay_guard, replay_assign,
}
use dewflow.Outbox.Checks.{
  IsSound, Op, create, claim_batch, claim_one, mark_published, release, mark_dead, replay, apply,
  run, BudgetAtMost, key, claim_assign-IsSound, publish_assign-IsSound, release_assign-IsSound,
  dead_assign-IsSound, replay_assign-IsSound, claimable-All, is_in-guard,
}

abbrev pub IsValid : ℕ → Rows → Type 0
IsValid m rows = All (IsSound m) rows × Distinct key rows

-- A primary key is new when its row is inserted.
abbrev pub Callable : Op → Rows → Type 0
Callable (create k t e p n) rows = find key k rows ≡ none
Callable _ rows = Unit

abbrev pub AllCallable : List Op → Rows → Type 0
AllCallable [] rows = Unit
AllCallable (op ∷ ops) rows = Callable op rows × AllCallable ops (apply op rows)

module _ (m : ℕ) where
  new_event-IsSound : (k t : ℕ) (e p : String) (n : ℕ) → IsSound m (new_event k t e p n)
  unfolding new_event
  new_event-IsSound k t e p n = ground arith

  batch-IsSound :
      (locked : TaskOutbox → Bool) (a : ClaimArgs) (limit : ℕ) (rows : Rows)
      → a.max_attempts ≤ m
      → IsValid m rows
      → All (IsSound m) (claim_due_batch locked a limit rows).1
  unfolding claim_due_batch
  batch-IsSound locked a limit rows b h =
      elim (Bool-cases
        (is_blank a.lease_owner || ltb a.max_attempts 1 || ltb limit 1 || ltb 500 limit)) [
          | inl refused ↦ rw refused h.0
          | inr accepted ↦ rw accepted (
              All-update_where_if (is_in (claimable locked a limit rows)) (claim_assign a)
                (λ r. IsSound m r × (find key r.id rows ≡ some r)) (IsSound m) one rows
                (All-both (IsSound m) (λ r. find key r.id rows ≡ some r) rows h.0
                  (Distinct-found key rows h.1)))
        ]
    where
      one :
          (r : TaskOutbox)
          → IsSound m r × (find key r.id rows ≡ some r)
          → IsSound m (if is_in (claimable locked a limit rows) r then claim_assign a r else r)
      one r (sound, here) = elim (Bool-cases (is_in (claimable locked a limit rows) r)) [
        | inl named ↦ rw named (
            claim_assign-IsSound m a r b sound (
              is_in-guard a rows (claimable locked a limit rows) r
                (claimable-All locked a limit rows h.1) here named))
        | inr other ↦ rw other sound
      ]

  replay-IsSound :
      (k : ℕ) (s : Status) (n t : ℕ) (reset : Bool) (rows : Rows)
      → All (IsSound m) rows
      → All (IsSound m) (apply (replay k s n t reset) rows)
  unfolding apply
  replay-IsSound k s n t reset rows h = elim (Bool-cases (replay_rejects s)) [
    | inl refused ↦ rw (refused, apply) h
    | inr accepted ↦
        rw (accepted, apply)
          (All-update_where (by_id k (replay_guard s n)) (replay_assign t reset) (IsSound m)
            (λ r sound g. replay_assign-IsSound m t reset r sound) rows h)
  ]

  apply-IsSound :
      (op : Op) (rows : Rows) → BudgetAtMost m op → IsValid m rows → All (IsSound m) (apply op rows)
  unfolding apply
  apply-IsSound (create k t e p n) rows b h = (new_event-IsSound k t e p n, h.0)
  apply-IsSound (claim_batch locked a limit) rows b h = batch-IsSound locked a limit rows b h
  apply-IsSound (claim_one k a) rows b h =
      All-update_where (by_id k (claim_guard a)) (claim_assign a) (IsSound m)
        (λ r sound g. claim_assign-IsSound m a r b sound (ground arith)) rows h.0
  apply-IsSound (mark_published k n owner t) rows b h =
      All-update_where (by_id k (lease_guard n owner)) (publish_assign t) (IsSound m)
        (λ r sound g. publish_assign-IsSound m t r sound) rows h.0
  apply-IsSound (release k n owner t e) rows b h =
      All-update_where (by_id k (lease_guard n owner)) (release_assign t e) (IsSound m)
        (λ r sound g. release_assign-IsSound m t e r sound) rows h.0
  apply-IsSound (mark_dead k n t e) rows b h =
      All-update_where (by_id k (dead_guard n t)) (dead_assign e) (IsSound m)
        (λ r sound g. dead_assign-IsSound m e r sound) rows h.0
  apply-IsSound (replay k s n t reset) rows b h = replay-IsSound k s n t reset rows h.0

  apply-Distinct :
      (op : Op) (rows : Rows) → Callable op rows → Distinct key rows → Distinct key (apply op rows)
  unfolding apply new_event
  apply-Distinct (create k t e p n) rows c d = (c, d)
  apply-Distinct (claim_batch locked a limit) rows c d =
      elim (Bool-cases
        (is_blank a.lease_owner || ltb a.max_attempts 1 || ltb limit 1 || ltb 500 limit)) [
          | inl refused ↦ rw (refused, apply) d
          | inr accepted ↦
              rw (accepted, apply)
                (update_where-Distinct key (is_in (claimable locked a limit rows)) (claim_assign a)
                  (unfold claim_assign in λ r. refl) rows d)
        ]
  apply-Distinct (claim_one k a) rows c d =
      update_where-Distinct key (by_id k (claim_guard a)) (claim_assign a)
        (unfold claim_assign in λ r. refl) rows d
  apply-Distinct (mark_published k n owner t) rows c d =
      update_where-Distinct key (by_id k (lease_guard n owner)) (publish_assign t)
        (unfold publish_assign in λ r. refl) rows d
  apply-Distinct (release k n owner t e) rows c d =
      update_where-Distinct key (by_id k (lease_guard n owner)) (release_assign t e)
        (unfold release_assign in λ r. refl) rows d
  apply-Distinct (mark_dead k n t e) rows c d =
      update_where-Distinct key (by_id k (dead_guard n t)) (dead_assign e)
        (unfold dead_assign in λ r. refl) rows d
  apply-Distinct (replay k s n t reset) rows c d = elim (Bool-cases (replay_rejects s)) [
    | inl refused ↦ rw (refused, apply) d
    | inr accepted ↦
        rw (accepted, apply)
          (update_where-Distinct key (by_id k (replay_guard s n)) (replay_assign t reset)
            (unfold replay_assign in λ r. refl) rows d)
  ]

-- After every history of statements under budgets of at most `m` attempts, every row satisfies the
-- CHECK constraints, has a next time exactly while it is live, a lease only while it is published
-- from, and at most `m` attempts; and keys stay distinct.
pub run-IsValid :
    (m : ℕ) (ops : List Op) (rows : Rows)
    → AllCallable ops rows
    → All (BudgetAtMost m) ops
    → IsValid m rows
    → IsValid m (run ops rows)
unfolding run
run-IsValid m [] rows c b h = h
run-IsValid m (op ∷ ops) rows c b h =
    run-IsValid m ops (apply op rows) c.1 b.1
      (apply-IsSound m op rows b.0 h, apply-Distinct m op rows c.0 h.1)
