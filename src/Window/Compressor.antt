-- ===== src/Window/Compressor.antt =====
-- `MessageCompressor` (backend/ai/core/message_compressor.py). The summarizer is a model that may fail,
-- and is a parameter.
use dewflow.Base.{
  ℕ, ◌+◌, ◌-◌, ◌*◌, ◌/◌, max, Option, none, some, List, [], ◌∷◌, ◌++◌, length, take, ltb, leb,
  if◌then◌else◌, Chars, rfind,
}
use dewflow.Window.Tokens.{Message, count_messages_tokens}

-- `len(boundary) + pos` of the first boundary that ends in the second half, if any
abbrev cut_at : ℕ → ℕ → Option ℕ → Option ℕ
cut_at target size none = none
cut_at target size (some pos) = if ltb target (2 * pos) then some (pos + size) else none

abbrev or_cut : Option ℕ → Option ℕ → Option ℕ
or_cut none other = other
or_cut (some cut) other = some cut

unfoldable pub natural_cut : ℕ → List Chars → Chars → Option ℕ
natural_cut target [] truncated = none
natural_cut target (b ∷ boundaries) truncated =
    or_cut (cut_at target (length b) (rfind b truncated)) (natural_cut target boundaries truncated)

abbrev pub boundaries : List Chars
boundaries =
    (0x3002 ∷ []) ∷ (10 ∷ 10 ∷ []) ∷ (46 ∷ 32 ∷ []) ∷ (10 ∷ []) ∷ (46 ∷ []) ∷ (32 ∷ []) ∷ []

abbrev pub cut_to : Option ℕ → Chars → Chars
cut_to none truncated = truncated
cut_to (some cut) truncated = take cut truncated

unfoldable pub truncate : Chars → ℕ → Chars
unfolding natural_cut
truncate content target_chars =
    if leb (length content) target_chars
    then content
    else if leb target_chars 0
    then []
    else cut_to (natural_cut target_chars boundaries (take target_chars content))
        (take target_chars content)

unfoldable pub compress : Chars → ℕ → Chars
compress content target_chars =
    if leb (length content) target_chars then content else truncate content target_chars

-- `none` for a compressor without a summarizer; a summary that is `none` raised.
abbrev pub Summarizer : Type 0
Summarizer = Option (Chars → ℕ → Option Chars)

abbrev or_truncate : Option Chars → Chars → ℕ → Chars
or_truncate none content target_chars = truncate content target_chars
or_truncate (some summary) content target_chars = summary

abbrev summarized : Summarizer → Chars → ℕ → Chars
summarized none content target_chars = truncate content target_chars
summarized (some summarizer) content target_chars =
    or_truncate (summarizer content target_chars) content target_chars

unfoldable pub compress_async : Summarizer → Chars → ℕ → Chars
compress_async summarizer content target_chars =
    if leb (length content) target_chars
    then content
    else summarized summarizer content target_chars

-- The loop over `reversed(messages)`: what is left to read is a stack, the newest on top.
unfoldable pub keep_newest : ℕ → List Message → List Message → List Message
keep_newest budget_tokens [] kept = kept
keep_newest budget_tokens (m ∷ older) kept =
    let rest = keep_newest budget_tokens older (m ∷ kept) in
    if leb (count_messages_tokens (m ∷ kept)) budget_tokens then rest else kept

abbrev pub reversed {ℓ} : {A : Type ℓ} → List A → List A
reversed [] = []
reversed (x ∷ xs) = reversed xs ++ x ∷ []

abbrev role_overhead : Message → ℕ
role_overhead m = 4 + length m.role / 3

abbrev batch_target : ℕ → Message → ℕ
batch_target budget_tokens newest = max 10 (budget_tokens - (role_overhead newest + 2)) * 3

-- `kept`, or the newest message alone, cut
abbrev pub or_newest : (Message → Chars) → List Message → List Message → List Message
or_newest cut [] [] = []
or_newest cut (newest ∷ older) [] = record newest { content = cut newest } ∷ []
or_newest cut older (m ∷ kept) = m ∷ kept

unfoldable pub compress_batch : Summarizer → List Message → ℕ → List Message
compress_batch summarizer [] budget_tokens = []
compress_batch summarizer (m ∷ messages) budget_tokens =
    if leb (count_messages_tokens (m ∷ messages)) budget_tokens
    then m ∷ messages
    else or_newest
        (λ newest. compress_async summarizer newest.content (batch_target budget_tokens newest))
        (reversed (m ∷ messages)) (keep_newest budget_tokens (reversed (m ∷ messages)) [])
