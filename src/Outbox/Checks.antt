-- ===== src/Outbox/Checks.antt =====
-- The rows of `task_outbox` over histories of the statements of `TaskOutboxRepository`
-- (backend/repositories/task_outbox_repo.py), by any relays: the CHECK constraints of
-- backend/models/orm/task.py, the leases and the budget of attempts.
use dewflow.Base.{
  ℕ, ◌≤◌, ◌≡◌, String, Bool, true, false, ◌&&◌, not, none, some, List, [], ◌∷◌, All, is_some,
  Bool-cases, inl, inr, find, Distinct, Distinct-found, All-both, keep-All, keep-All_of, take-All,
  order_by-All, sym, ap, ◌∙◌, ◌==◌, arith,
}
use dewflow.Outbox.Store.{
  Status, pending, publishing, published, TaskOutbox, Rows, ClaimArgs, new_event, claim_guard,
  claim_assign, claimable, is_in, claim_due_batch, execute, try_claim, publish_assign,
  try_mark_published, release_assign, try_release_for_retry, dead_assign, try_mark_dead,
  replay_assign, try_prepare_replay, precedes,
}

-- An event that may still be delivered.
abbrev pub is_live : Status → Bool
is_live pending = true
is_live publishing = true
is_live _ = false

-- The first two fields are CHECK constraints, the others follow from the statements.
pub record IsSound (m : ℕ) (r : TaskOutbox) : Type 0 where
  pub publishing_has_lease :
      r.status ≡ publishing → (is_some r.lease_owner ≡ true) × (is_some r.lease_expires_at ≡ true)
  pub published_has_timestamp : r.status ≡ published → is_some r.published_at ≡ true
  pub live_scheduled : is_live r.status ≡ true → is_some r.next_attempt_at ≡ true
  pub settled_unscheduled : is_live r.status ≡ false → r.next_attempt_at ≡ none
  pub idle_unleased :
      (r.status ≡ publishing → ⊥) → (r.lease_owner ≡ none) × (r.lease_expires_at ≡ none)
  pub attempts_within : r.attempt_count ≤ m
  pub publishing_attempted : r.status ≡ publishing → 1 ≤ r.attempt_count

-- A statement of the repository, by any caller.
pub data Op : Type 0 where
  create : ℕ → ℕ → String → String → ℕ → Op
  claim_batch : (TaskOutbox → Bool) → ClaimArgs → ℕ → Op
  claim_one : ℕ → ClaimArgs → Op
  mark_published : ℕ → ℕ → String → ℕ → Op
  release : ℕ → ℕ → String → ℕ → String → Op
  mark_dead : ℕ → ℕ → ℕ → String → Op
  replay : ℕ → Status → ℕ → ℕ → Bool → Op

unfoldable pub apply : Op → Rows → Rows
unfolding claim_due_batch try_claim try_mark_published try_release_for_retry try_mark_dead
    try_prepare_replay execute
apply (create k t e p n) rows = new_event k t e p n ∷ rows
apply (claim_batch locked a limit) rows = (claim_due_batch locked a limit rows).1
apply (claim_one k a) rows = (try_claim k a rows).1
apply (mark_published k n owner t) rows = (try_mark_published k n owner t rows).1
apply (release k n owner t e) rows = (try_release_for_retry k n owner t e rows).1
apply (mark_dead k n t e) rows = (try_mark_dead k n t e rows).1
apply (replay k s n t reset) rows = (try_prepare_replay k s n t reset rows).1

unfoldable pub run : List Op → Rows → Rows
run [] rows = rows
run (op ∷ ops) rows = run ops (apply op rows)

-- Claims are made under budgets of at most `m` attempts.
abbrev pub BudgetAtMost : ℕ → Op → Type 0
BudgetAtMost m (claim_batch locked a limit) = a.max_attempts ≤ m
BudgetAtMost m (claim_one k a) = a.max_attempts ≤ m
BudgetAtMost m _ = Unit

module _ (m : ℕ) where
  pub claim_assign-IsSound :
      (a : ClaimArgs) (r : TaskOutbox)
      → a.max_attempts ≤ m
      → IsSound m r
      → claim_guard a r ≡ true
      → IsSound m (claim_assign a r)
  unfolding claim_guard claim_assign
  claim_assign-IsSound a r b h g = ground arith

  pub publish_assign-IsSound :
      (t : ℕ) (r : TaskOutbox) → IsSound m r → IsSound m (publish_assign t r)
  unfolding publish_assign
  publish_assign-IsSound t r h = ground arith

  pub release_assign-IsSound :
      (t : ℕ) (e : String) (r : TaskOutbox) → IsSound m r → IsSound m (release_assign t e r)
  unfolding release_assign
  release_assign-IsSound t e r h = ground arith

  pub dead_assign-IsSound :
      (e : String) (r : TaskOutbox) → IsSound m r → IsSound m (dead_assign e r)
  unfolding dead_assign
  dead_assign-IsSound e r h = ground arith

  pub replay_assign-IsSound :
      (t : ℕ) (reset : Bool) (r : TaskOutbox) → IsSound m r → IsSound m (replay_assign t reset r)
  unfolding replay_assign
  replay_assign-IsSound t reset r h = ground arith

abbrev pub key : TaskOutbox → ℕ
key r = r.id

-- The rows of a batch are rows of the table that may be claimed.
abbrev pub InTable : ClaimArgs → Rows → TaskOutbox → Type 0
InTable a rows s = (find key s.id rows ≡ some s) × (claim_guard a s ≡ true)

pub claimable-All :
    (locked : TaskOutbox → Bool) (a : ClaimArgs) (limit : ℕ) (rows : Rows)
    → Distinct key rows
    → All (InTable a rows) (claimable locked a limit rows)
unfolding claimable
claimable-All locked a limit rows d =
    let free : TaskOutbox → Bool = λ r. claim_guard a r && not (locked r) in
    take-All (InTable a rows) limit _ (
      order_by-All precedes (InTable a rows) _ (
        All-both (λ s. find key s.id rows ≡ some s) (λ s. claim_guard a s ≡ true) _
          (keep-All_of (λ s. find key s.id rows ≡ some s) free rows (Distinct-found key rows d))
          (keep-All (λ s. claim_guard a s ≡ true) free rows (λ s e. ground arith))))

-- So a row that the batch names may be claimed.
pub is_in-guard :
    (a : ClaimArgs) (rows batch : Rows) (r : TaskOutbox)
    → All (InTable a rows) batch
    → find key r.id rows ≡ some r
    → is_in batch r ≡ true
    → claim_guard a r ≡ true
is_in-guard a rows [] r h e i = cc
is_in-guard a rows (s ∷ batch) r h e i = elim (Bool-cases (s.id == r.id)) [
  | inl same ↦
      let ids : s.id ≡ r.id = ground arith in
      let rows_same : some s ≡ some r = sym (h.0.0) ∙ ap (λ k. find key k rows) ids ∙ e in
      cc (rows_same, h.0.1)
  | inr other ↦ is_in-guard a rows batch r h.1 e (rw other at i)
]
