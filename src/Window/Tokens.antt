-- ===== src/Window/Tokens.antt =====
-- The estimate of tokens (backend/utils/token_estimation.py). A message is its role and its content.
-- The product with 1.2 is rounded up as the fraction 6/5: a float product of a multiple of 5 is exact,
-- and any other is a fifth away from the next integer.
use dewflow.Base.{
  ℕ, ◌+◌, ◌-◌, ◌*◌, ◌/◌, max, Bool, true, false, ◌&&◌, ◌||◌, not, List, [], ◌∷◌, leb, length, ◌==◌,
  if◌then◌else◌, Chars, is_space, keep,
}

pub record Message : Type 0 where
  pub role : Chars
  pub content : Chars

-- `CJK_RANGES`
unfoldable pub is_cjk : ℕ → Bool
is_cjk c =
    leb 0x3400 c && leb c 0x4dbf || leb 0x4e00 c && leb c 0x9fff || leb 0xf900 c && leb c 0xfaff

-- `[A-Za-z0-9_]`
abbrev pub is_word : ℕ → Bool
is_word c = leb 65 c && leb c 90 || leb 97 c && leb c 122 || leb 48 c && leb c 57 || c == 95

abbrev opens_word : Chars → Bool
opens_word [] = false
opens_word (c ∷ text) = is_word c

-- Does a match of the regular expression end with this character? A run of word characters ends
-- with its last one, and every other character that is no blank and not CJK is a match of its own.
abbrev ends_token : ℕ → Chars → Bool
ends_token c text = if is_word c then not (opens_word text) else not (is_space c || is_cjk c)

abbrev one_if : Bool → ℕ
one_if true = 1
one_if false = 0

-- `len(OTHER_TOKEN_RE.findall(text))`
unfoldable pub lexical_tokens : Chars → ℕ
unfolding is_cjk is_space
lexical_tokens [] = 0
lexical_tokens (c ∷ text) = one_if (ends_token c text) + lexical_tokens text

unfoldable pub cjk_chars : Chars → ℕ
cjk_chars text = length (keep is_cjk text)

-- `math.ceil(n / 3)`
abbrev pub ceil_third : ℕ → ℕ
ceil_third n = (n + 2) / 3

-- `math.ceil(n * ESTIMATE_SAFETY_MULTIPLIER)`
abbrev pub with_margin : ℕ → ℕ
with_margin n = (6 * n + 4) / 5

abbrev pub base_estimate : Chars → ℕ
base_estimate text =
    max
      (max (cjk_chars text + ceil_third (length text - cjk_chars text))
        (cjk_chars text + lexical_tokens text))
      (ceil_third (length text))

unfoldable pub estimate_tokens : Chars → ℕ
unfolding cjk_chars lexical_tokens
estimate_tokens [] = 0
estimate_tokens (c ∷ text) = max 1 (with_margin (base_estimate (c ∷ text)))

abbrev message_tokens : List Message → ℕ
message_tokens [] = 0
message_tokens (m ∷ ms) = 3 + estimate_tokens m.content + estimate_tokens m.role + message_tokens ms

unfoldable pub count_messages_tokens : List Message → ℕ
count_messages_tokens [] = 0
count_messages_tokens (m ∷ ms) = message_tokens (m ∷ ms) + 3
