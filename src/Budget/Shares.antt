-- ===== src/Budget/Shares.antt =====
-- What each block gets from `ContextBudgeter.allocate` (backend/ai/core/context_budgeter.py).
use dewflow.Base.{
  ℕ, ◌-◌, ◌≤◌, ◌≡◌, refl, true, false, not, List, [], ◌∷◌, ◌==◌, if◌then◌else◌, keep, map, min,
  none, update_where, find, Distinct, Bool-cases, inl, inr, arith, All, All-imp, All-both, ◌⊎◌,
  keep-All_of, order_by-All, All-update_where, keep-All, ◌+◌,
}
use dewflow.Budget.Budgeter.{
  BudgetBlock, ContextBudgeter, total_budget, estimated, with_allocated, reserve_required, precedes,
  sorted_rest, grant, allocate_rest, allocate,
}
use dewflow.Budget.Within.{
  identity, is_pending, sorted_rest-AllPending, reserve_required-Distinct, estimated-Distinct,
}

-- A block gets at most its estimate; one that is neither required nor compressible gets all of it or
-- nothing.
abbrev pub IsFair : BudgetBlock → Type 0
IsFair b =
    (b.allocated ≤ b.token_estimate)
    × (b.required ≡ false
        → b.compressible ≡ false
        → (b.allocated ≡ 0) ⊎ (b.allocated ≡ b.token_estimate))

-- Two states of the same block.
abbrev IsSame : BudgetBlock → BudgetBlock → Type 0
IsSame r b =
    (r.token_estimate ≡ b.token_estimate)
    × (r.required ≡ b.required)
    × (r.compressible ≡ b.compressible)

abbrev Refers : List BudgetBlock → BudgetBlock → Type 0
Refers blocks r = All (λ b. b.id == r.id ≡ true → IsSame r b) blocks

find-none-All :
    (k : ℕ) (bs : List BudgetBlock) → find identity k bs ≡ none → All (λ b. b.id == k ≡ false) bs
unfolding find
find-none-All k [] h = tt
find-none-All k (b ∷ bs) h = elim (Bool-cases (b.id == k)) [
  | inl e ↦ absurd (ground (arith, e, h))
  | inr e ↦ (e, find-none-All k bs (rw e at h))
]

Refers-All : (bs : List BudgetBlock) → Distinct identity bs → All (Refers bs) bs
Refers-All [] d = tt
Refers-All (b ∷ bs) d =
    let apart = find-none-All b.id bs d.0 in
    (
      (λ e. (refl, refl, refl), All-imp _ _ (λ c n e. absurd (ground arith)) bs apart),
      All-imp _ _ (λ r h. (λ e. absurd (ground arith), h.1)) bs
          (All-both _ _ bs apart (Refers-All bs d.1)),
    )

-- What a write through a reference leaves: the blocks that no longer wait are served fairly.
abbrev AllServed : List BudgetBlock → List BudgetBlock → Type 0
AllServed rest bs = All (λ b. is_pending rest b ≡ false → IsFair b) bs

grant-IsFair : (n : ℕ) (r b : BudgetBlock) → IsSame r b → IsFair (with_allocated (grant n r) b)
unfolding grant
grant-IsFair n r b s = ground arith

module _ (n : ℕ) (r : BudgetBlock) where
  abbrev write : List BudgetBlock → List BudgetBlock
  write blocks = update_where (λ b. b.id == r.id) (with_allocated n) blocks

  Refers-write : (q : BudgetBlock) (bs : List BudgetBlock) → Refers bs q → Refers (write bs) q
  Refers-write q bs h =
      All-update_where (λ b. b.id == r.id) (with_allocated n)
        (λ b. b.id == q.id ≡ true → IsSame q b) (λ b k e. k) bs h

  Refers-write-All :
      (rest bs : List BudgetBlock) → All (Refers bs) rest → All (Refers (write bs)) rest
  Refers-write-All rest bs h = All-imp _ _ (λ q. Refers-write q bs) rest h

grant-AllServed :
    (n : ℕ) (r : BudgetBlock) (rs bs : List BudgetBlock)
    → Refers bs r
    → AllServed (r ∷ rs) bs
    → AllServed rs (write (grant n r) r bs)
unfolding update_where
grant-AllServed n r rs [] same h = tt
grant-AllServed n r rs (b ∷ bs) same h = elim (Bool-cases (b.id == r.id)) [
  | inl e ↦ rw e (λ w. grant-IsFair n r b (same.0 e), grant-AllServed n r rs bs same.1 h.1)
  | inr e ↦ rw e (λ w. h.0 (ground (arith, e, w)), grant-AllServed n r rs bs same.1 h.1)
]

allocate_rest-IsFair :
    (rest : List BudgetBlock) (remaining : ℕ) (blocks : List BudgetBlock)
    → All (Refers blocks) rest
    → AllServed rest blocks
    → All IsFair (allocate_rest remaining rest blocks)
unfolding allocate_rest
allocate_rest-IsFair [] remaining blocks refs h = All-imp _ _ (λ b s. s refl) blocks h
allocate_rest-IsFair (r ∷ rs) remaining blocks refs h =
    allocate_rest-IsFair rs (remaining - grant remaining r) (write (grant remaining r) r blocks)
      (Refers-write-All (grant remaining r) r rs blocks refs.1)
      (grant-AllServed remaining r rs blocks refs.0 h)

reserve_required-IsFair :
    (remaining : ℕ) (blocks : List BudgetBlock)
    → All (λ b. b.required ≡ true → IsFair b) (reserve_required remaining blocks).1
unfolding reserve_required
reserve_required-IsFair remaining [] = tt
reserve_required-IsFair remaining (b ∷ bs) = elim (Bool-cases b.required) [
  | inl q ↦ rw q (
    λ e. (omega arith, λ f g. absurd (ground arith)),
    reserve_required-IsFair (remaining - min b.token_estimate remaining) bs,
  )
  | inr q ↦ rw q (λ e. absurd (ground arith), reserve_required-IsFair (remaining - 0) bs)
]

sorted_rest-Refers :
    (bs : List BudgetBlock) → Distinct identity bs → All (Refers bs) (sorted_rest bs)
unfolding sorted_rest
sorted_rest-Refers bs d =
    order_by-All precedes (Refers bs) (keep (λ b. not b.required) bs)
      (keep-All_of (Refers bs) (λ b. not b.required) bs (Refers-All bs d))

-- If the blocks are different objects, no block of the result gets more than its estimate, and one
-- that is neither required nor compressible gets all of it or nothing.
pub allocate-IsFair :
    (self : ContextBudgeter) (blocks : List BudgetBlock)
    → Distinct identity blocks
    → All IsFair (allocate self blocks)
unfolding allocate
allocate-IsFair self blocks d =
    let counted = map estimated blocks in
    let reserved = reserve_required (total_budget self) counted in
    let distinct =
      reserve_required-Distinct (total_budget self) counted (estimated-Distinct blocks d) in
    let waiting = sorted_rest-AllPending reserved.1 in
    let served = reserve_required-IsFair (total_budget self) counted in
    allocate_rest-IsFair (sorted_rest reserved.1) reserved.0 reserved.1
      (sorted_rest-Refers reserved.1 distinct)
      (All-imp _ _ (λ b h e. h.1 (ground (arith, h.0, e))) reserved.1
        (All-both _ _ reserved.1 waiting served))

-- The tokens that the required blocks ask for.
abbrev pub required_estimate : List BudgetBlock → ℕ
required_estimate [] = 0
required_estimate (b ∷ bs) = (if b.required then b.token_estimate else 0) + required_estimate bs

abbrev pub IsServed : BudgetBlock → Type 0
IsServed b = b.required ≡ true → b.allocated ≡ b.token_estimate

reserve_required-IsServed :
    (remaining : ℕ) (blocks : List BudgetBlock)
    → required_estimate blocks ≤ remaining
    → All IsServed (reserve_required remaining blocks).1
unfolding reserve_required
reserve_required-IsServed remaining [] h = tt
reserve_required-IsServed remaining (b ∷ bs) h = elim (Bool-cases b.required) [
  | inl q ↦
      let fits = rw q at h in
      rw q (
        λ e. omega (arith, fits),
        reserve_required-IsServed (remaining - min b.token_estimate remaining) bs
            (omega (arith, fits)),
      )
  | inr q ↦
      let fits = rw q at h in
      rw q (
        λ e. absurd (ground arith),
        reserve_required-IsServed (remaining - 0) bs (omega (arith, fits)),
      )
]

-- The second pass writes to no required block.
write-IsServed :
    (n : ℕ) (r : BudgetBlock) (bs : List BudgetBlock)
    → r.required ≡ false
    → Refers bs r
    → All IsServed bs
    → All IsServed (write n r bs)
unfolding update_where
write-IsServed n r [] q same h = tt
write-IsServed n r (b ∷ bs) q same h = elim (Bool-cases (b.id == r.id)) [
  | inl e ↦
      rw e (λ f. absurd (ground (arith, (same.0 e).1, q, f)), write-IsServed n r bs q same.1 h.1)
  | inr e ↦ rw e (h.0, write-IsServed n r bs q same.1 h.1)
]

allocate_rest-IsServed :
    (rest : List BudgetBlock) (remaining : ℕ) (blocks : List BudgetBlock)
    → All (λ r. r.required ≡ false) rest
    → All (Refers blocks) rest
    → All IsServed blocks
    → All IsServed (allocate_rest remaining rest blocks)
unfolding allocate_rest
allocate_rest-IsServed [] remaining blocks q refs h = h
allocate_rest-IsServed (r ∷ rs) remaining blocks q refs h =
    allocate_rest-IsServed rs (remaining - grant remaining r) (write (grant remaining r) r blocks)
      q.1 (Refers-write-All (grant remaining r) r rs blocks refs.1)
      (write-IsServed (grant remaining r) r blocks q.0 refs.0 h)

-- If the blocks are different objects and the estimates of the required ones fit the budget, every
-- required block gets all of its estimate.
pub allocate-IsServed :
    (self : ContextBudgeter) (blocks : List BudgetBlock)
    → Distinct identity blocks
    → required_estimate (map estimated blocks) ≤ total_budget self
    → All IsServed (allocate self blocks)
unfolding allocate sorted_rest
allocate-IsServed self blocks d fits =
    let counted = map estimated blocks in
    let reserved = reserve_required (total_budget self) counted in
    let distinct =
      reserve_required-Distinct (total_budget self) counted (estimated-Distinct blocks d) in
    allocate_rest-IsServed (sorted_rest reserved.1) reserved.0 reserved.1
      (order_by-All precedes (λ r. r.required ≡ false) (keep (λ b. not b.required) reserved.1)
        (keep-All (λ r. r.required ≡ false) (λ b. not b.required) reserved.1 (λ b e. ground arith)))
      (sorted_rest-Refers reserved.1 distinct)
      (reserve_required-IsServed (total_budget self) counted fits)
