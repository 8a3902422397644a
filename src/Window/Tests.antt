-- ===== src/Window/Tests.antt =====
-- A short chat, and each theorem about the window at it.
use dewflow.Base.{
  concat, String, ◌≡◌, refl, List, [], ◌∷◌, ◌++◌, length, arith, codes, All, words, is_space, join,
}
use dewflow.Window.Tokens.{
  Message, estimate_tokens, cjk_chars, lexical_tokens, is_cjk, count_messages_tokens,
}
use dewflow.Window.Builder.{
  LiveWindowBuilder, exclude_latest_query, group_history_rounds, build, normalize_text, group_from,
  exact_window, fit_messages,
}
use dewflow.Window.Compressor.{keep_newest, compress}
use dewflow.Window.Rounds.{IsRound, OpensWithUser, tail, group_history_rounds_lem}
use dewflow.Window.Fits.{Fits, recent_messages, build-Fits}

abbrev message : String → String → Message
message role content = record { role = codes role; content = codes content }

abbrev chat : List Message
chat =
    message "user" "what is a lease?"
    ∷ message "assistant" "a right that ends"
    ∷ message "user" "and a fence?"
    ∷ message "assistant" "a number that only grows"
    ∷ message "user" "and  a claim? "
    ∷ []

abbrev builder : LiveWindowBuilder
builder = record { recent_rounds = 1; snippet_chars = 20; summary_max_chars = 40 }

repeated : length (exclude_latest_query chat (codes "and a claim?")) ≡ 4
unfolding exclude_latest_query normalize_text words is_space join
repeated = refl

group_history_rounds_lem_example :
    (concat (group_history_rounds chat) ≡ chat)
    × All IsRound (group_history_rounds chat)
    × All OpensWithUser (tail (group_history_rounds chat))
group_history_rounds_lem_example = group_history_rounds_lem chat

-- One message of CJK characters, cut for a budget, can cost more than twice the budget.
abbrev long_message : Message
long_message = record {
  role = codes "user";
  content =
      0x4e00 ∷ 0x4e01 ∷ 0x4e02 ∷ 0x4e03 ∷ 0x4e04 ∷ 0x4e05 ∷ 0x4e06 ∷ 0x4e07 ∷ 0x4e08 ∷ 0x4e09
      ∷ 0x4e0a ∷ 0x4e0b ∷ [];
}

over_budget : count_messages_tokens (build builder (long_message ∷ []) [] 6).exact_messages ≡ 24
unfolding build count_messages_tokens exclude_latest_query normalize_text words is_space join
    group_history_rounds group_from exact_window fit_messages keep_newest compress estimate_tokens
    cjk_chars lexical_tokens is_cjk
over_budget = refl

-- The newest message is alone over the budget, and is cut.
abbrev long_chat : List Message
long_chat = message "user" "what?" ∷ long_message ∷ []

build-Fits_example :
    let kept = exclude_latest_query long_chat [] in
    Fits 6 (recent_messages builder kept) (build builder long_chat [] 6).exact_messages
    × ((left : List Message) × (left ++ recent_messages builder kept ≡ kept))
build-Fits_example = build-Fits builder long_chat [] 6 (omega arith)

one_cut : length (build builder long_chat [] 6).exact_messages ≡ 1
unfolding build count_messages_tokens exclude_latest_query normalize_text words is_space join
    group_history_rounds group_from exact_window fit_messages keep_newest compress estimate_tokens
    cjk_chars lexical_tokens is_cjk
one_cut = refl
