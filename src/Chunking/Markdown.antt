-- ===== src/Chunking/Markdown.antt =====
-- The sections of a Markdown text and `split_text` (backend/services/chunking_service.py). The suffix
-- is the one that `str.lower` has made lower case.
use dewflow.Base.{
  ℕ, suc, ◌-◌, Bool, true, false, ◌&&◌, not, Option, none, some, List, [], ◌∷◌, ◌++◌, any, ◌==◌,
  leb, if◌then◌else◌, take, Chars, codes, chars_eq, is_space, join, strip,
}
use dewflow.Chunking.Blocks.{is_nil, replace_crlf, splitlines, is_fence}
use dewflow.Chunking.Service.{ChunkingService, ChunkPayload, split_paragraphs, assign_indexes}

-- The number of hashes that a line begins with, and the rest.
unfoldable pub hashes : Chars → ℕ × Chars
hashes [] = (0, [])
hashes (c ∷ line) = if c == 35 then (suc (hashes line).0, (hashes line).1) else (0, c ∷ line)

-- `strip("#")` from the left and from the right
abbrev lstrip_hash : Chars → Chars
lstrip_hash [] = []
lstrip_hash (c ∷ text) = if c == 35 then lstrip_hash text else c ∷ text

abbrev kept_hash : ℕ → Chars → Chars
kept_hash c [] = if c == 35 then [] else c ∷ []
kept_hash c (d ∷ text) = c ∷ d ∷ text

abbrev rstrip_hash : Chars → Chars
rstrip_hash [] = []
rstrip_hash (c ∷ text) = kept_hash c (rstrip_hash text)

abbrev strip_hash : Chars → Chars
strip_hash text = rstrip_hash (lstrip_hash text)

-- After one to six hashes: a blank, and a text that is at least a character long.
abbrev heading_rest : ℕ → Chars → Option (ℕ × Chars)
heading_rest level [] = none
heading_rest level (c ∷ rest) =
    if leb 1 level && leb level 6 && is_space c && not (is_nil rest)
    then some (level, strip (strip_hash (strip rest)))
    else none

-- The level and the title of a heading: `HEADING_RE.match(line)`
unfoldable pub heading : Chars → Option (ℕ × Chars)
unfolding hashes is_space strip
heading line = heading_rest (hashes line).0 (hashes line).1

-- `heading_match = HEADING_RE.match(line) if not in_fence else None`
abbrev pub heading_match : Bool → Chars → Option (ℕ × Chars)
heading_match true line = none
heading_match false line = heading line

abbrev pub line_break : Chars
line_break = 10 ∷ []

unfoldable pub flush_section : ChunkingService → List Chars → Chars → List ChunkPayload
unfolding split_paragraphs join strip
flush_section self section_lines section_path =
    let section_text = strip (join line_break section_lines) in
    if is_nil section_text then [] else split_paragraphs self section_path section_text

-- The loop over the lines, with its variables.
unfoldable pub sections_from :
    ChunkingService → List Chars → List Chars → Chars → Bool → List Chars → List ChunkPayload
unfolding flush_section is_fence heading join
sections_from self stack section_lines path in_fence [] = flush_section self section_lines path
sections_from self stack section_lines path in_fence (line ∷ lines) =
    let fence = if is_fence line then not in_fence else in_fence in
    let same = sections_from self stack (section_lines ++ line ∷ []) path fence lines in
    elim (heading_match fence line) [
      | none ↦ same
      | some (level, title) ↦
          let headings = take (level - 1) stack ++ title ∷ [] in
          flush_section self section_lines path
          ++ sections_from self headings (line ∷ []) (join (codes " / ") headings) fence lines
    ]

unfoldable pub split_markdown : ChunkingService → Chars → List ChunkPayload
unfolding sections_from splitlines
split_markdown self text = sections_from self [] [] [] false (splitlines text)

abbrev pub markdown_suffixes : List Chars
markdown_suffixes = codes ".md" ∷ codes ".markdown" ∷ []

unfoldable pub split_text : ChunkingService → Chars → Chars → List ChunkPayload
unfolding split_markdown split_paragraphs assign_indexes replace_crlf strip
split_text self text suffix =
    let normalized = strip (replace_crlf text) in
    if is_nil normalized
    then []
    else assign_indexes (
        if any (chars_eq suffix) markdown_suffixes
        then split_markdown self normalized
        else split_paragraphs self [] normalized)
