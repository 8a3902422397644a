-- ===== src/Budget/Budgeter.antt =====
-- `BudgetBlock` and `ContextBudgeter.allocate` (backend/ai/core/context_budgeter.py). The blocks are
-- objects that `allocate` writes to: `id` is the identity of a block, and the sorted list of the
-- second pass holds references to the blocks of the result.
use Prim.Native.String.{String}
use dewflow.Base.{
  ℕ, ◌+◌, ◌-◌, ◌/◌, min, Bool, ◌&&◌, ◌||◌, not, List, [], ◌∷◌, ltb, leb, ◌==◌, if◌then◌else◌, keep,
  map, order_by, update_where,
}

pub record BudgetBlock : Type 0 where
  pub id : ℕ
  pub name : String
  pub priority : ℕ
  pub content : String
  pub token_estimate : ℕ
  pub allocated : ℕ
  pub compressible : Bool
  pub required : Bool

pub record ContextBudgeter : Type 0 where
  pub max_context_tokens : ℕ
  pub reserved_response_tokens : ℕ
  pub model_name : String

-- `max(0, max_context_tokens - reserved_response_tokens)`: the subtraction stops at 0.
unfoldable pub total_budget : ContextBudgeter → ℕ
total_budget self = self.max_context_tokens - self.reserved_response_tokens

-- `len(content)`
unfoldable pub chars : String → ℕ
chars String.[] = 0
chars (String.◌∷◌ c s) = 1 + chars s

unfoldable pub estimated : BudgetBlock → BudgetBlock
estimated block =
    if block.token_estimate == 0
    then record block { token_estimate = (chars block.content + 3) / 4 }
    else block

abbrev pub with_allocated : ℕ → BudgetBlock → BudgetBlock
with_allocated n block = record block { allocated = n }

-- The first pass: required blocks in the order given. It returns what remains.
unfoldable pub reserve_required : ℕ → List BudgetBlock → ℕ × List BudgetBlock
reserve_required remaining [] = (remaining, [])
reserve_required remaining (block ∷ blocks) =
    let taken = if block.required then min block.token_estimate remaining else 0 in
    let rest = reserve_required (remaining - taken) blocks in
    (rest.0, (if block.required then with_allocated taken block else block) ∷ rest.1)

-- `sorted(…, key=lambda b: (b.priority, b.token_estimate))`
unfoldable pub precedes : BudgetBlock → BudgetBlock → Bool
precedes a b =
    ltb a.priority b.priority || a.priority == b.priority && ltb a.token_estimate b.token_estimate

unfoldable pub sorted_rest : List BudgetBlock → List BudgetBlock
unfolding order_by
sorted_rest blocks = order_by precedes (keep (λ b. not b.required) blocks)

-- What the second pass gives a block of what remains.
unfoldable pub grant : ℕ → BudgetBlock → ℕ
grant remaining block =
    if leb remaining 0
    then 0
    else if leb block.token_estimate remaining
    then block.token_estimate
    else if block.compressible
    then remaining
    else 0

unfoldable pub allocate_rest : ℕ → List BudgetBlock → List BudgetBlock → List BudgetBlock
allocate_rest remaining [] blocks = blocks
allocate_rest remaining (r ∷ rs) blocks =
    allocate_rest (remaining - grant remaining r) rs
      (update_where (λ b. b.id == r.id) (with_allocated (grant remaining r)) blocks)

unfoldable pub allocate : ContextBudgeter → List BudgetBlock → List BudgetBlock
allocate self blocks =
    let reserved = reserve_required (total_budget self) (map estimated blocks) in
    allocate_rest reserved.0 (sorted_rest reserved.1) reserved.1
