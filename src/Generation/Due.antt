-- ===== src/Generation/Due.antt =====
-- Which requests a recovery scan takes: `get_due_generation_requests`
-- (backend/repositories/chat_repo.py).
use dewflow.Base.{
  IsOrdered, order_by, order_by-All, take-IsOrdered, order_by-IsOrdered, length-order_by, ℕ, min,
  ltb, ap, keep-All, take-All, length-take, subst, ◌≡◌, true, false, List, All, length, take, keep,
  Bool-cases, inl, inr, arith, ◌||◌,
}
use dewflow.Generation.Row.{GenerationRequest, ChatDb, is_nonterminal}
use dewflow.Generation.Args.{ok}
use dewflow.Generation.Scan.{is_due, precedes, get_due_generation_requests}

abbrev pub IsDue : ℕ → GenerationRequest → Type 0
IsDue due_at r = is_due due_at r ≡ true

pub IsDue-nonterminal :
    (due_at : ℕ) (r : GenerationRequest) → IsDue due_at r → is_nonterminal r.status ≡ true
IsDue-nonterminal due_at r h = ground arith

precedes_asym : (a b : GenerationRequest) → precedes a b ≡ true → precedes b a ≡ false
precedes_asym a b h = ground arith

precedes_later :
    (a b c : GenerationRequest) → precedes a b ≡ false → precedes b c ≡ false → precedes a c ≡ false
precedes_later a b c h k = ground arith

-- The query takes nonterminal requests that are due, ordered by due time and id, as many as the
-- limit lets through.
pub get_due_lem :
    (due_at limit : ℕ) (db : ChatDb) (rs : List GenerationRequest)
    → get_due_generation_requests due_at limit db ≡ ok rs
    → All (IsDue due_at) rs
      × IsOrdered precedes rs
      × (length rs ≡ min limit (length (keep (is_due due_at) db.requests)))
unfolding get_due_generation_requests
get_due_lem due_at limit db rs h =
    let due = keep (is_due due_at) db.requests in
    let ordered = order_by precedes due in
    elim (Bool-cases (ltb limit 1 || ltb 500 limit)) [
      | inl out ↦ absurd (ground arith)
      | inr within ↦
          let same : take limit ordered ≡ rs = ground arith in
          (
            subst (All (IsDue due_at)) same (
                take-All (IsDue due_at) limit ordered (
                  order_by-All precedes (IsDue due_at) due
                    (keep-All (IsDue due_at) (is_due due_at) db.requests (λ r e. e)))),
            subst (IsOrdered precedes) same (
                take-IsOrdered precedes limit ordered
                  (order_by-IsOrdered precedes precedes_asym precedes_later due)),
            omega (
              arith,
              ap (λ (l : List GenerationRequest). length l) same,
              length-take limit ordered,
              length-order_by precedes due,
            ),
          )
    ]
