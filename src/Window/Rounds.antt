-- ===== src/Window/Rounds.antt =====
-- The rounds of a history (`_group_history_rounds` of backend/ai/core/live_window_builder.py).
use dewflow.Base.{
  concat, append_assoc, ℕ, zero, suc, ◌≡◌, refl, ap, ◌∙◌, true, false, ◌&&◌, not, inl, inr, List,
  [], ◌∷◌, ◌++◌, All, All-append, Bool-cases, drop,
}
use dewflow.Window.Tokens.{Message}
use dewflow.Window.Builder.{is_nil, is_user, group_from, group_history_rounds}

-- What is left of a list of rounds is what is left of the history.
pub concat-drop {ℓ} :
    {A : Type ℓ} (n : ℕ) (xss : List (List A))
    → (older : List A) × (older ++ concat (drop n xss) ≡ concat xss)
concat-drop zero xss = ([], refl)
concat-drop (suc n) [] = ([], refl)
concat-drop (suc n) (xs ∷ xss) =
    let (older, joined) = concat-drop n xss in
    (xs ++ older, append_assoc xs older (concat (drop n xss)) ∙ ap (λ l. xs ++ l) joined)

-- A round has a message, and no question but its first.
abbrev pub IsRound : List Message → Type 0
IsRound [] = ⊥
IsRound (m ∷ ms) = All (λ x. is_user x ≡ false) ms

-- A round that opens with a question.
abbrev pub OpensWithUser : List Message → Type 0
OpensWithUser [] = ⊥
OpensWithUser (m ∷ ms) = is_user m ≡ true

abbrev pub tail {ℓ} : {A : Type ℓ} → List A → List A
tail [] = []
tail (x ∷ xs) = xs

group_from-concat :
    (current history : List Message) → concat (group_from current history) ≡ current ++ history
unfolding group_from
group_from-concat [] [] = refl
group_from-concat (x ∷ xs) [] = refl
group_from-concat current (m ∷ history) = elim (Bool-cases (is_user m && not (is_nil current))) [
  | inl opens ↦ rw opens (ap (λ l. current ++ l) (group_from-concat (m ∷ []) history))
  | inr goes_on ↦
      rw goes_on
        (group_from-concat (current ++ m ∷ []) history ∙ append_assoc current (m ∷ []) history)
]

pub group_history_rounds-concat :
    (history : List Message) → concat (group_history_rounds history) ≡ history
unfolding group_history_rounds
group_history_rounds-concat history = group_from-concat [] history

-- The round that opens with a question is the first of those that follow.
group_from-opens :
    (m : Message)
    → is_user m ≡ true
    → (xs history : List Message) → All OpensWithUser (group_from (m ∷ xs) history)
unfolding group_from
group_from-opens m u xs [] = (u, tt)
group_from-opens m u xs (n ∷ history) = elim (Bool-cases (is_user n)) [
  | inl opens ↦ rw opens (u, group_from-opens n opens [] history)
  | inr goes_on ↦ rw goes_on (group_from-opens m u (xs ++ n ∷ []) history)
]

-- The open round with the rounds after it, when the first message of the open one is `x`.
group_from-IsRound :
    (x : Message) (xs history : List Message)
    → All (λ y. is_user y ≡ false) xs
    → All IsRound (group_from (x ∷ xs) history)
      × All OpensWithUser (tail (group_from (x ∷ xs) history))
      × (is_nil (group_from (x ∷ xs) history) ≡ false)
unfolding group_from
group_from-IsRound x xs [] h = ((h, tt), tt, refl)
group_from-IsRound x xs (m ∷ history) h = elim (Bool-cases (is_user m)) [
  | inl opens ↦
      let (rounds, opened, more) = group_from-IsRound m [] history tt in
      rw opens ((h, rounds), group_from-opens m opens [] history, refl)
  | inr goes_on ↦ rw goes_on (
      group_from-IsRound x (xs ++ m ∷ []) history
        (All-append (λ y. is_user y ≡ false) xs (m ∷ []) h (goes_on, tt)))
]

first_round :
    (m : Message) (history : List Message)
    → group_from [] (m ∷ history) ≡ group_from (m ∷ []) history
unfolding group_from
first_round m history = elim (Bool-cases (is_user m)) [
  | inl question ↦ rw question refl
  | inr other ↦ rw other refl
]

-- The rounds of a history are the history, cut before every question but one at its start: joined they
-- give it back, no round is empty or has a question after its first message, and every round but the
-- first opens with one.
pub group_history_rounds_lem :
    (history : List Message)
    → (concat (group_history_rounds history) ≡ history)
      × All IsRound (group_history_rounds history)
      × All OpensWithUser (tail (group_history_rounds history))
unfolding group_history_rounds
group_history_rounds_lem [] = (refl, tt, tt)
group_history_rounds_lem (m ∷ history) =
    let (rounds, opened, more) = group_from-IsRound m [] history tt in
    (
      group_from-concat [] (m ∷ history),
      rw (first_round m history) rounds,
      rw (first_round m history) opened,
    )
