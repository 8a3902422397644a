-- ===== src/Window/Builder.antt =====
-- `LiveWindowBuilder` (backend/ai/core/live_window_builder.py). Its three sizes are arguments, as are the
-- settings that they come from; an absent content is the empty one.
use dewflow.Base.{
  concat, ℕ, ◌-◌, ◌*◌, max, Bool, true, false, ◌&&◌, ◌||◌, not, List, [], ◌∷◌, ◌++◌, map, ltb, leb,
  length, take, drop, keep, if◌then◌else◌, Chars, codes, chars_eq, words, join, drop,
}
use dewflow.Window.Tokens.{Message, count_messages_tokens}
use dewflow.Window.Compressor.{compress, keep_newest, reversed, or_newest}

pub record LiveWindowBuilder : Type 0 where
  pub recent_rounds : ℕ
  pub snippet_chars : ℕ
  pub summary_max_chars : ℕ

pub record LiveWindowResult : Type 0 where
  pub exact_messages : List Message
  pub bridge_summary : Chars
  pub overflow_compressed : Bool

abbrev space : Chars
space = 32 ∷ []

abbrev pub newline : Chars
newline = 10 ∷ []

abbrev pub is_nil {ℓ} : {A : Type ℓ} → List A → Bool
is_nil [] = true
is_nil (x ∷ xs) = false

abbrev has_role : Chars → Message → Bool
has_role role m = chars_eq m.role role

abbrev pub is_user : Message → Bool
is_user = has_role (codes "user")

-- The round that is open and the rounds after it; a round is never empty.
unfoldable pub group_from : List Message → List Message → List (List Message)
group_from current [] = if is_nil current then [] else current ∷ []
group_from current (m ∷ history) =
    let same_round = group_from (current ++ m ∷ []) history in
    let next_round = group_from (m ∷ []) history in
    if is_user m && not (is_nil current) then current ∷ next_round else same_round

unfoldable pub group_history_rounds : List Message → List (List Message)
unfolding group_from
group_history_rounds history = group_from [] history

unfoldable pub normalize_text : Chars → Chars
unfolding words join
normalize_text text = join space (words text)

abbrev init {ℓ} : {A : Type ℓ} → List A → List A
init xs = take (length xs - 1) xs

-- Is the latest message a user's, with the words of the query?
abbrev pub asks : Chars → List Message → Bool
asks query [] = false
asks query (m ∷ []) =
    is_user m
    && not (is_nil (normalize_text m.content))
    && chars_eq (normalize_text m.content) (normalize_text query)
asks query (m ∷ n ∷ history) = asks query (n ∷ history)

unfoldable pub exclude_latest_query : List Message → Chars → List Message
exclude_latest_query history current_query =
    if asks current_query history then init history else history

unfoldable pub truncate_text : Chars → ℕ → Chars
truncate_text text limit =
    if leb limit 0
    then []
    else if leb (length text) limit
    then text
    else take (limit - 3) text ++ codes "..."

abbrev or_empty_mark : Chars → Chars
or_empty_mark text = if is_nil text then codes "(空)" else text

abbrev text_of : Chars → List Message → Chars
text_of role round = normalize_text (join space (map (λ m. m.content) (keep (has_role role) round)))

abbrev line : ℕ → Chars → Chars → Chars
line snippet_limit user_text assistant_text =
    codes "- 用户: "
    ++ or_empty_mark (truncate_text user_text snippet_limit)
    ++ codes " | 助手: "
    ++ or_empty_mark (truncate_text assistant_text snippet_limit)

abbrev line_if : Bool → Chars → List Chars → List Chars
line_if true l lines = lines
line_if false l lines = l ∷ lines

unfoldable pub summary_lines : ℕ → List (List Message) → List Chars
summary_lines snippet_limit [] = []
summary_lines snippet_limit (round ∷ rounds) =
    line_if (is_nil (text_of (codes "user") round) && is_nil (text_of (codes "assistant") round))
      (line snippet_limit (text_of (codes "user") round) (text_of (codes "assistant") round))
      (summary_lines snippet_limit rounds)

-- `while lines and len("\n".join(lines)) > max_chars: lines.pop(0)`
unfoldable pub drop_oldest : ℕ → List Chars → List Chars
unfolding join
drop_oldest max_chars [] = []
drop_oldest max_chars (l ∷ lines) =
    let rest = drop_oldest max_chars lines in
    if ltb max_chars (length (join newline (l ∷ lines))) then rest else l ∷ lines

unfoldable pub build_rounds_summary : LiveWindowBuilder → List (List Message) → Chars
unfolding summary_lines drop_oldest truncate_text normalize_text
build_rounds_summary self rounds =
    join newline (drop_oldest self.summary_max_chars (summary_lines self.snippet_chars rounds))

unfoldable pub fit_messages : List Message → ℕ → List Message
unfolding keep_newest compress
fit_messages messages budget_tokens =
    or_newest (λ newest. compress newest.content (max 10 (budget_tokens * 2))) (reversed messages)
      (keep_newest budget_tokens (reversed messages) [])

-- `rounds[:-recent_count]`, without the last rounds that are kept
abbrev pub older : ℕ → List (List Message) → List (List Message)
older recent rounds = take (length rounds - recent) rounds

abbrev pub recent : ℕ → List (List Message) → List (List Message)
recent count rounds = drop (length rounds - count) rounds

unfoldable pub exact_window : List Message → ℕ → List Message × Bool
unfolding fit_messages
exact_window exact_messages budget_tokens =
    if leb budget_tokens 0
    then ([], not (is_nil exact_messages))
    else if not (is_nil exact_messages) && ltb budget_tokens (count_messages_tokens exact_messages)
    then (fit_messages exact_messages budget_tokens, true)
    else (exact_messages, false)

abbrev pub empty_result : LiveWindowResult
empty_result = record { exact_messages = []; bridge_summary = []; overflow_compressed = false }

abbrev pub build_from : LiveWindowBuilder → List (List Message) → ℕ → LiveWindowResult
build_from self rounds budget_tokens =
    let window = exact_window (concat (recent self.recent_rounds rounds)) budget_tokens in
    record {
      exact_messages = window.0;
      bridge_summary = build_rounds_summary self (older self.recent_rounds rounds);
      overflow_compressed = window.1;
    }

unfoldable pub build : LiveWindowBuilder → List Message → Chars → ℕ → LiveWindowResult
unfolding exclude_latest_query group_history_rounds
build self history current_query budget_tokens =
    if is_nil history || is_nil (exclude_latest_query history current_query)
    then empty_result
    else build_from self (group_history_rounds (exclude_latest_query history current_query))
        budget_tokens
