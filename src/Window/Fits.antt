-- ===== src/Window/Fits.antt =====
-- The messages that `LiveWindowBuilder.build` (backend/ai/core/live_window_builder.py) keeps word for word.
use dewflow.Base.{
  Option, none, some, true, zero, suc, drop, take, length-take, concat, append_assoc, append_nil, ℕ,
  ◌-◌, ◌*◌, ◌≤◌, ◌<◌, max, ◌≡◌, ◌≢◌, refl, sym, ap, subst, ◌∙◌, ◌⊎◌, inl, inr, false, ◌&&◌, ◌||◌,
  not, List, [], ◌∷◌, ◌++◌, ltb, leb, length, Bool-cases, arith, Chars,
}
use dewflow.Window.Tokens.{Message, count_messages_tokens}
use dewflow.Window.Compressor.{
  cut_to, natural_cut, boundaries, truncate, compress, keep_newest, reversed, or_newest,
}
use dewflow.Window.Builder.{
  LiveWindowBuilder, is_nil, fit_messages, exact_window, build, group_history_rounds, group_from,
  exclude_latest_query, recent,
}
use dewflow.Window.Rounds.{group_history_rounds-concat, concat-drop}

reversed-append {ℓ} :
    {A : Type ℓ} (xs ys : List A) → reversed (xs ++ ys) ≡ reversed ys ++ reversed xs
reversed-append [] ys = sym (append_nil (reversed ys))
reversed-append (x ∷ xs) ys =
    ap (λ l. l ++ x ∷ []) (reversed-append xs ys)
    ∙ append_assoc (reversed ys) (reversed xs) (x ∷ [])

reversed_twice {ℓ} : {A : Type ℓ} (xs : List A) → reversed (reversed xs) ≡ xs
reversed_twice [] = refl
reversed_twice (x ∷ xs) =
    reversed-append (reversed xs) (x ∷ []) ∙ ap (λ l. x ∷ l) (reversed_twice xs)

length-cut_to :
    (target : ℕ) (cut : Option ℕ) (text : Chars)
    → length text ≤ target
    → length (cut_to cut text) ≤ target
length-cut_to target none text h = h
length-cut_to target (some cut) text h = omega (arith, h, length-take cut text)

length-compress : (content : Chars) (target : ℕ) → length (compress content target) ≤ target
unfolding compress truncate
length-compress content target = ground (
  arith,
  length-cut_to target (natural_cut target boundaries (take target content)) (take target content),
  length-take target content,
)

-- Nothing older is left out, or the newest of what is left out would exceed the budget.
abbrev pub IsFull : ℕ → List Message → List Message → Type 0
IsFull budget left out =
    (left ≡ [])
    ⊎ ((front : List Message) × (next : Message) × (left ≡ front ++ next ∷ [])
        × (budget < count_messages_tokens (next ∷ out)))

-- The newest messages of a history, as many as the budget lets in one after the other.
abbrev pub IsNewest : ℕ → List Message → List Message → Type 0
IsNewest budget history out =
    (left : List Message) × (left ++ out ≡ history)
    × (count_messages_tokens out ≤ budget)
    × IsFull budget left out

-- The newest message alone, cut, since it does not fit whole.
abbrev pub IsCut : ℕ → List Message → List Message → Type 0
IsCut budget history out =
    (older : List Message) × (newest : Message) × (older ++ newest ∷ [] ≡ history)
    × (budget < count_messages_tokens (newest ∷ []))
    × (length (compress newest.content (max 10 (budget * 2))) ≤ max 10 (budget * 2))
    × (out ≡ record newest { content = compress newest.content (max 10 (budget * 2)) } ∷ [])

keep_newest-IsNewest :
    (budget : ℕ) (stack kept : List Message)
    → count_messages_tokens kept ≤ budget
    → IsNewest budget (reversed stack ++ kept) (keep_newest budget stack kept)
unfolding keep_newest
keep_newest-IsNewest budget [] kept h = ([], refl, h, inl refl)
keep_newest-IsNewest budget (m ∷ older) kept h =
    elim (Bool-cases (leb (count_messages_tokens (m ∷ kept)) budget)) [
      | inl fits ↦
          let (left, joined, within, stops) =
            keep_newest-IsNewest budget older (m ∷ kept) (ground arith) in
          rw fits (left, joined ∙ sym (append_assoc (reversed older) (m ∷ []) kept), within, stops)
      | inr full ↦
          rw full (reversed (m ∷ older), refl, h, inr (reversed older, m, refl, ground arith))
    ]

-- What is kept stays kept.
ends_full :
    (budget : ℕ) (stack : List Message) (m : Message) (kept : List Message)
    → keep_newest budget stack (m ∷ kept) ≢ []
unfolding keep_newest
ends_full budget [] m kept e = cc
ends_full budget (n ∷ stack) m kept e = ground (arith, ends_full budget stack n (m ∷ kept))

nothing_kept :
    (budget : ℕ) (stack : List Message) (m : Message)
    → keep_newest budget (m ∷ stack) [] ≡ []
    → budget < count_messages_tokens (m ∷ [])
unfolding keep_newest
nothing_kept budget stack m e = elim (Bool-cases (leb (count_messages_tokens (m ∷ [])) budget)) [
  | inl fits ↦ absurd (ends_full budget stack m [] (rw fits at e))
  | inr full ↦ ground arith
]

-- Newest messages, none only of an empty history, or the newest one, cut.
abbrev pub Fits : ℕ → List Message → List Message → Type 0
Fits budget history out =
    (IsNewest budget history out × (out ≡ [] → history ≡ [])) ⊎ IsCut budget history out

newest_kept :
    (budget : ℕ) (newest : Message) (stack kept : List Message)
    → keep_newest budget (newest ∷ stack) [] ≡ kept
    → Fits budget
        (reversed (newest ∷ stack))
        (or_newest (λ m. compress m.content (max 10 (budget * 2))) (newest ∷ stack) kept)
unfolding count_messages_tokens
newest_kept budget newest stack [] e = inr (
  reversed stack,
  newest,
  refl,
  nothing_kept budget stack newest e,
  length-compress newest.content (max 10 (budget * 2)),
  refl,
)
newest_kept budget newest stack (m ∷ kept) e =
    let (left, joined, within, stops) =
      keep_newest-IsNewest budget (newest ∷ stack) [] (omega arith) in
    inl (
      subst (IsNewest budget (reversed (newest ∷ stack))) e
          (left, joined ∙ append_nil (reversed (newest ∷ stack)), within, stops),
      λ none. cc,
    )

newest_stacked :
    (budget : ℕ) (stack : List Message)
    → Fits budget (reversed stack) (
        or_newest
          (λ m. compress m.content (max 10 (budget * 2)))
          stack
          (keep_newest budget stack []))
unfolding keep_newest count_messages_tokens
newest_stacked budget [] = inl (([], refl, omega arith, inl refl), λ e. refl)
newest_stacked budget (newest ∷ stack) =
    newest_kept budget newest stack (keep_newest budget (newest ∷ stack) []) refl

fit_messages-Fits :
    (budget : ℕ) (messages : List Message) → Fits budget messages (fit_messages messages budget)
unfolding fit_messages
fit_messages-Fits budget messages =
    subst (λ h. Fits budget h (fit_messages messages budget)) (reversed_twice messages)
      (newest_stacked budget (reversed messages))

positive_budget : (budget : ℕ) → 1 ≤ budget → leb budget 0 ≡ false
positive_budget budget h = ground arith

small_enough :
    (budget : ℕ) (messages : List Message)
    → not (is_nil messages) && ltb budget (count_messages_tokens messages) ≡ false
    → count_messages_tokens messages ≤ budget
unfolding count_messages_tokens
small_enough budget [] e = omega arith
small_enough budget (m ∷ messages) e = ground arith

exact_window-Fits :
    (budget : ℕ) (messages : List Message)
    → 1 ≤ budget
    → Fits budget messages (exact_window messages budget).0
unfolding exact_window
exact_window-Fits budget messages positive =
    elim (Bool-cases (not (is_nil messages) && ltb budget (count_messages_tokens messages))) [
      | inl over ↦ rw (positive_budget budget positive, over) (fit_messages-Fits budget messages)
      | inr within ↦
          rw (positive_budget budget positive, within)
            (inl (([], refl, small_enough budget messages within, inl refl), λ e. e))
    ]

nothing_excluded :
    (history : List Message) (query : Chars)
    → is_nil history || is_nil (exclude_latest_query history query) ≡ true
    → is_nil (exclude_latest_query history query) ≡ true
unfolding exclude_latest_query
nothing_excluded [] query e = refl
nothing_excluded (m ∷ history) query e = e

-- The messages of the rounds that the window may keep.
abbrev pub recent_messages : LiveWindowBuilder → List Message → List Message
recent_messages self history = concat (recent self.recent_rounds (group_history_rounds history))

concat-drop_nothing :
    (n : ℕ) (rounds : List (List Message)) → rounds ≡ [] → concat (drop n rounds) ≡ []
concat-drop_nothing zero [] e = refl
concat-drop_nothing (suc n) [] e = refl
concat-drop_nothing n (round ∷ rounds) e = cc

nothing_grouped :
    (self : LiveWindowBuilder) (history : List Message)
    → is_nil history ≡ true
    → recent_messages self history ≡ []
unfolding group_history_rounds group_from
nothing_grouped self [] e = concat-drop_nothing (0 - self.recent_rounds) [] refl
nothing_grouped self (m ∷ history) e = cc

-- In a positive budget, the window holds the newest messages of the recent rounds of the history
-- without the repeated question, word for word: as many as the budget lets in one after the other, so
-- that the next older message of these rounds would exceed it. The window is empty only if these rounds
-- are; if their newest message alone does not fit, it holds that message, cut to at most twice as many
-- characters as the budget has tokens, or to ten. The recent rounds are an end of that history.
pub build-Fits :
    (self : LiveWindowBuilder) (history : List Message) (current_query : Chars) (budget : ℕ)
    → 1 ≤ budget
    → let kept = exclude_latest_query history current_query in
      Fits budget
        (recent_messages self kept)
        (build self history current_query budget).exact_messages
      × ((left : List Message) × (left ++ recent_messages self kept ≡ kept))
unfolding build count_messages_tokens
build-Fits self history current_query budget positive =
    let kept = exclude_latest_query history current_query in
    let rounds = group_history_rounds kept in
    let (left, joined) = concat-drop (length rounds - self.recent_rounds) rounds in
    (
      elim (Bool-cases (is_nil history || is_nil kept)) [
        | inl empty ↦
            let nothing : recent_messages self kept ≡ [] =
              nothing_grouped self kept (nothing_excluded history current_query empty) in
            rw (empty, nothing) (inl (([], refl, omega arith, inl refl), λ e. refl))
        | inr some_left ↦
            rw some_left (exact_window-Fits budget (recent_messages self kept) positive)
      ],
      (left, joined ∙ group_history_rounds-concat kept),
    )
