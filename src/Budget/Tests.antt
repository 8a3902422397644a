-- ===== src/Budget/Tests.antt =====
-- A prompt of four blocks, and the theorem about its budget at them.
use dewflow.Base.{
  ℕ, ◌≤◌, ◌≡◌, refl, true, false, List, [], ◌∷◌, find, All, map, order_by, insert, update_where,
}
use dewflow.Budget.Budgeter.{
  BudgetBlock, ContextBudgeter, chars, total_budget, allocate, estimated, reserve_required,
  sorted_rest, precedes, grant, allocate_rest,
}
use dewflow.Budget.Shares.{IsFair, allocate-IsFair}
use dewflow.Budget.Within.{total_allocated, allocate-total}

abbrev budgeter : ContextBudgeter
budgeter = record { max_context_tokens = 100; reserved_response_tokens = 40; model_name = "m" }

abbrev block : ℕ → ℕ → ℕ → BudgetBlock
block id priority estimate = record {
  id = id;
  name = "block";
  priority = priority;
  content = "abcde";
  token_estimate = estimate;
  allocated = 7;
  compressible = false;
  required = false;
}

abbrev blocks : List BudgetBlock
blocks =
    record (block 0 3 45) { compressible = true }
    ∷ record (block 1 0 0) { required = true }
    ∷ block 2 2 40
    ∷ block 3 4 10
    ∷ []

allocations : map (λ b. b.allocated) (allocate budgeter blocks) ≡ (18 ∷ 2 ∷ 40 ∷ 0 ∷ [])
unfolding chars allocate total_budget estimated reserve_required sorted_rest precedes grant
    allocate_rest order_by insert update_where
allocations = refl

allocate-total_example : total_allocated (allocate budgeter blocks) ≤ total_budget budgeter
unfolding find
allocate-total_example = allocate-total budgeter blocks (refl, (refl, (refl, (refl, tt))))

allocate-IsFair_example : All IsFair (allocate budgeter blocks)
unfolding find
allocate-IsFair_example = allocate-IsFair budgeter blocks (refl, (refl, (refl, (refl, tt))))
