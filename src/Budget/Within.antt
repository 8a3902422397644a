-- ===== src/Budget/Within.antt =====
-- `ContextBudgeter.allocate` (backend/ai/core/context_budgeter.py) keeps to its budget.
use dewflow.Base.{
  ℕ, ◌+◌, ◌-◌, ◌≤◌, ◌≡◌, refl, true, false, none, Bool, not, List, [], ◌∷◌, ◌==◌, if◌then◌else◌,
  keep, map, order_by, insert, update_where, any, find, Distinct, Bool-cases, inl, inr, arith, All,
  ◌||◌, ◌∙◌, subst, sym, min, update_where-Distinct, All-imp,
}
use dewflow.Budget.Budgeter.{
  BudgetBlock, ContextBudgeter, total_budget, estimated, with_allocated, reserve_required, precedes,
  sorted_rest, grant, allocate_rest, allocate,
}

abbrev pub identity : BudgetBlock → ℕ
identity b = b.id

-- What the blocks hold that are not among the pending ones.
abbrev pub is_pending : List BudgetBlock → BudgetBlock → Bool
is_pending pending b = any (λ r. b.id == r.id) pending

abbrev held : List BudgetBlock → List BudgetBlock → ℕ
held pending [] = 0
held pending (b ∷ bs) = (if is_pending pending b then 0 else b.allocated) + held pending bs

-- The tokens that the blocks hold together.
abbrev pub total_allocated : List BudgetBlock → ℕ
total_allocated [] = 0
total_allocated (b ∷ bs) = b.allocated + total_allocated bs

held-nil : (bs : List BudgetBlock) → held [] bs ≡ total_allocated bs
held-nil [] = refl
held-nil (b ∷ bs) = ground (arith, held-nil bs)

module _ (n : ℕ) (r : BudgetBlock) (pending : List BudgetBlock) where
  held-absent :
      (bs : List BudgetBlock)
      → find identity r.id bs ≡ none
      → held pending (update_where (λ b. b.id == r.id) (with_allocated n) bs)
        ≡ held (r ∷ pending) bs
  unfolding update_where find
  held-absent [] h = refl
  held-absent (b ∷ bs) h = elim (Bool-cases (b.id == r.id)) [
    | inl e ↦ absurd (ground (arith, e, h))
    | inr e ↦ rw (e, update_where) (ground (arith, held-absent bs (rw e at h)))
  ]

  -- One write adds at most what it writes to the blocks that are not pending.
  held-write :
      (bs : List BudgetBlock)
      → Distinct identity bs
      → held pending (update_where (λ b. b.id == r.id) (with_allocated n) bs)
        ≤ held (r ∷ pending) bs + n
  unfolding update_where
  held-write [] d = omega arith
  held-write (b ∷ bs) d = elim (Bool-cases (b.id == r.id)) [
    | inl e ↦
        let same : b.id ≡ r.id = ground (arith, e) in
        let absent = held-absent bs (subst (λ k. find identity k bs ≡ none) same d.0) in
        rw (e, update_where) (ground (arith, absent))
    | inr e ↦ rw (e, update_where) (ground (arith, held-write bs d.1))
  ]

grant_within : (remaining : ℕ) (r : BudgetBlock) → grant remaining r ≤ remaining
unfolding grant
grant_within remaining r = ground arith

allocate_rest-total :
    (total : ℕ) (rest : List BudgetBlock) (remaining : ℕ) (blocks : List BudgetBlock)
    → Distinct identity blocks
    → held rest blocks + remaining ≤ total
    → total_allocated (allocate_rest remaining rest blocks) ≤ total
unfolding allocate_rest
allocate_rest-total total [] remaining blocks d h = omega (arith, held-nil blocks)
allocate_rest-total total (r ∷ rs) remaining blocks d h =
    let n = grant remaining r in
    allocate_rest-total total rs (remaining - n)
      (update_where (λ b. b.id == r.id) (with_allocated n) blocks)
      (update_where-Distinct identity (λ b. b.id == r.id) (with_allocated n) (λ b. refl) blocks d)
      (omega (arith, held-write n r rs blocks d, grant_within remaining r))

-- What the required blocks hold.
abbrev required_total : List BudgetBlock → ℕ
required_total [] = 0
required_total (b ∷ bs) = (if b.required then b.allocated else 0) + required_total bs

required_total-reserve_required :
    (remaining : ℕ) (blocks : List BudgetBlock)
    → required_total (reserve_required remaining blocks).1 + (reserve_required remaining blocks).0
      ≡ remaining
unfolding reserve_required
required_total-reserve_required remaining [] = omega arith
required_total-reserve_required remaining (b ∷ bs) = elim (Bool-cases b.required) [
  | inl e ↦
      let rest = required_total-reserve_required (remaining - min b.token_estimate remaining) bs in
      rw (e, reserve_required) (ground (arith, rest))
  | inr e ↦
      let rest = required_total-reserve_required (remaining - 0) bs in
      rw (e, reserve_required) (ground (arith, rest))
]

find-reserve_required :
    (k remaining : ℕ) (blocks : List BudgetBlock)
    → find identity k blocks ≡ none
    → find identity k (reserve_required remaining blocks).1 ≡ none
unfolding reserve_required find
find-reserve_required k remaining [] h = refl
find-reserve_required k remaining (b ∷ bs) h = elim (Bool-cases (b.id == k)) [
  | inl e ↦ absurd (ground (arith, e, h))
  | inr e ↦
      let rest =
        find-reserve_required k
          (remaining - (if b.required then min b.token_estimate remaining else 0)) bs (rw e at h) in
      elim (Bool-cases b.required) [
        | inl q ↦ rw (q, e, find) (rw q at rest)
        | inr q ↦ rw (q, e, find) (rw q at rest)
      ]
]

pub reserve_required-Distinct :
    (remaining : ℕ) (blocks : List BudgetBlock)
    → Distinct identity blocks
    → Distinct identity (reserve_required remaining blocks).1
unfolding reserve_required
reserve_required-Distinct remaining [] d = tt
reserve_required-Distinct remaining (b ∷ bs) d = elim (Bool-cases b.required) [
  | inl q ↦
      let remaining' = remaining - min b.token_estimate remaining in
      rw q
        (find-reserve_required b.id remaining' bs d.0, reserve_required-Distinct remaining' bs d.1)
  | inr q ↦ rw q (
    find-reserve_required b.id (remaining - 0) bs d.0,
    reserve_required-Distinct (remaining - 0) bs d.1,
  )
]

identity-estimated : (b : BudgetBlock) → identity (estimated b) ≡ identity b
unfolding estimated
identity-estimated b = ground arith

find-estimated :
    (k : ℕ) (blocks : List BudgetBlock)
    → find identity k blocks ≡ none
    → find identity k (map estimated blocks) ≡ none
unfolding find estimated
find-estimated k [] h = refl
find-estimated k (b ∷ bs) h = elim (Bool-cases (b.id == k)) [
  | inl e ↦ absurd (ground (arith, e, h))
  | inr e ↦ ground (arith, find-estimated k bs (rw e at h))
]

pub estimated-Distinct :
    (blocks : List BudgetBlock)
    → Distinct identity blocks
    → Distinct identity (map estimated blocks)
estimated-Distinct [] d = tt
estimated-Distinct (b ∷ bs) d = (
  subst (λ k. find identity k (map estimated bs) ≡ none) (sym (identity-estimated b))
      (find-estimated b.id bs d.0),
  estimated-Distinct bs d.1,
)

any-insert :
    (p : BudgetBlock → Bool) (r : BudgetBlock) (bs : List BudgetBlock)
    → any p (insert precedes r bs) ≡ (p r || any p bs)
unfolding insert
any-insert p r [] = refl
any-insert p r (b ∷ bs) = elim (Bool-cases (precedes b r)) [
  | inl e ↦ rw (e, insert) (ground (arith, any-insert p r bs))
  | inr e ↦ rw (e, insert) refl
]

any-order_by :
    (p : BudgetBlock → Bool) (bs : List BudgetBlock) → any p (order_by precedes bs) ≡ any p bs
unfolding order_by
any-order_by p [] = refl
any-order_by p (b ∷ bs) = ground (arith, any-insert p b (order_by precedes bs), any-order_by p bs)

-- Every block that is not required waits for the second pass.
abbrev pub AllPending : List BudgetBlock → List BudgetBlock → Type 0
AllPending rest bs = All (λ b. b.required ≡ false → is_pending rest b ≡ true) bs

pending_later :
    (b c : BudgetBlock) (bs : List BudgetBlock)
    → is_pending (keep (λ x. not x.required) bs) c ≡ true
    → is_pending (keep (λ x. not x.required) (b ∷ bs)) c ≡ true
pending_later b c bs h = ground arith

pending_first :
    (b : BudgetBlock) (bs : List BudgetBlock)
    → b.required ≡ false
    → is_pending (keep (λ x. not x.required) (b ∷ bs)) b ≡ true
pending_first b bs h = ground arith

keep-AllPending : (bs : List BudgetBlock) → AllPending (keep (λ x. not x.required) bs) bs
keep-AllPending [] = tt
keep-AllPending (b ∷ bs) =
    (pending_first b bs, All-imp _ _ (λ c h e. pending_later b c bs (h e)) bs (keep-AllPending bs))

pub sorted_rest-AllPending : (bs : List BudgetBlock) → AllPending (sorted_rest bs) bs
unfolding sorted_rest
sorted_rest-AllPending bs =
    All-imp _ _ (λ b h e. any-order_by (λ r. b.id == r.id) (keep (λ x. not x.required) bs) ∙ h e) bs
      (keep-AllPending bs)

held_is_required :
    (rest bs : List BudgetBlock) → AllPending rest bs → held rest bs ≤ required_total bs
held_is_required rest [] h = omega arith
held_is_required rest (b ∷ bs) h = ground (arith, held_is_required rest bs h.1, h.0)

-- If the blocks are different objects, `allocate` gives them together no more than the budget,
-- whatever they held before.
pub allocate-total :
    (self : ContextBudgeter) (blocks : List BudgetBlock)
    → Distinct identity blocks
    → total_allocated (allocate self blocks) ≤ total_budget self
unfolding allocate
allocate-total self blocks d =
    let budget = total_budget self in
    let counted = map estimated blocks in
    let reserved = reserve_required budget counted in
    allocate_rest-total budget (sorted_rest reserved.1) reserved.0 reserved.1
      (reserve_required-Distinct budget counted (estimated-Distinct blocks d))
      (omega (
        arith,
        held_is_required (sorted_rest reserved.1) reserved.1 (sorted_rest-AllPending reserved.1),
        required_total-reserve_required budget counted,
      ))
