-- ===== src/Chunking/Blocks.antt =====
-- The paragraphs of a text (`_paragraph_blocks` of backend/services/chunking_service.py). A fence of a
-- listing keeps blank lines in its paragraph.
use dewflow.Base.{
  ℕ, Bool, true, false, ◌&&◌, ◌||◌, not, List, [], ◌∷◌, ◌++◌, keep, ◌==◌, leb, if◌then◌else◌, Chars,
  codes, is_space, lstrip, strip, starts_with, join,
}

abbrev pub is_nil {ℓ} : {A : Type ℓ} → List A → Bool
is_nil [] = true
is_nil (x ∷ xs) = false

abbrev pub starts_char : ℕ → Chars → Bool
starts_char d [] = false
starts_char d (c ∷ text) = c == d

-- `text.replace("\r\n", "\n")`
unfoldable pub replace_crlf : Chars → Chars
replace_crlf [] = []
replace_crlf (c ∷ text) =
    let rest = replace_crlf text in if c == 13 && starts_char 10 text then rest else c ∷ rest

-- Where `str.splitlines` ends a line.
abbrev is_break : ℕ → Bool
is_break c = leb 10 c && leb c 13 || leb 28 c && leb c 30 || c == 0x85 || c == 0x2028 || c == 0x2029

abbrev add_char : ℕ → List Chars → List Chars
add_char c [] = (c ∷ []) ∷ []
add_char c (line ∷ lines) = (c ∷ line) ∷ lines

-- `text.splitlines()`
unfoldable pub splitlines : Chars → List Chars
splitlines [] = []
splitlines (c ∷ text) =
    let rest = splitlines text in
    if c == 13 && starts_char 10 text
    then rest
    else if is_break c
    then [] ∷ rest
    else add_char c rest

-- `FENCE_RE.match(line)`
unfoldable pub is_fence : Chars → Bool
unfolding lstrip starts_with
is_fence line = starts_with (codes "```") (lstrip line) || starts_with (codes "~~~") (lstrip line)

abbrev newline : Chars
newline = 10 ∷ []

-- `"\n".join(current).strip()`, if there is a line
abbrev closed : List Chars → List Chars → List Chars
closed [] blocks = blocks
closed (line ∷ current) blocks = strip (join newline (line ∷ current)) ∷ blocks

unfoldable pub blocks_from : List Chars → Bool → List Chars → List Chars
unfolding is_fence join strip is_space lstrip
blocks_from current in_fence [] = closed current []
blocks_from current in_fence (line ∷ lines) =
    let fence = if is_fence line then not in_fence else in_fence in
    let ended = blocks_from [] fence lines in
    let longer = blocks_from (current ++ line ∷ []) fence lines in
    if not fence && is_nil (strip line) then closed current ended else longer

unfoldable pub paragraph_blocks : Chars → List Chars
unfolding blocks_from splitlines
paragraph_blocks text = keep (λ block. not (is_nil block)) (blocks_from [] false (splitlines text))
