-- ===== src/Chunking/Service.antt =====
-- `ChunkingService` (backend/services/chunking_service.py) without the sections of Markdown.
-- The window loop has the length of its text as fuel.
use dewflow.Base.{
  ℕ, zero, suc, ◌+◌, ◌-◌, ◌/◌, max, min, ◌&&◌, not, Option, none, some, List, [], ◌∷◌, ◌++◌, map,
  keep, length, take, drop, ltb, leb, if◌then◌else◌, Chars, rfind, join, strip,
}
use dewflow.Chunking.Blocks.{is_nil, replace_crlf, paragraph_blocks}

pub record ChunkingService : Type 0 where
  pub chunk_size : ℕ
  pub chunk_overlap : ℕ

-- `__init__`
unfoldable pub new_service : ℕ → ℕ → ChunkingService
new_service chunk_size chunk_overlap = record {
  chunk_size = max 200 chunk_size;
  chunk_overlap = min chunk_overlap (max 200 chunk_size / 2);
}

-- `ChunkPayload`, with the keys that are set here
pub record ChunkPayload : Type 0 where
  pub content : Chars
  pub section_path : Option Chars
  pub chunk_index : Option ℕ

-- `max` of positions, `none` for -1
abbrev pub later : Option ℕ → Option ℕ → Option ℕ
later none b = b
later (some a) none = some a
later (some a) (some b) = some (max a b)

-- Where the window may be cut, counted from its start.
unfoldable pub boundary : Chars → Option ℕ
unfolding rfind
boundary window = later (rfind (10 ∷ 10 ∷ []) window) (
    later (rfind (10 ∷ []) window) (
      later (rfind (0x3002 ∷ []) window) (later (rfind (46 ∷ []) window) (rfind (32 ∷ []) window))))

-- `text[start:end]`
abbrev pub slice : ℕ → ℕ → Chars → Chars
slice start end text = take (end - start) (drop start text)

-- The end after the boundary, if this is in the second half of the window.
abbrev pub cut_end : ℕ → ℕ → ℕ → Option ℕ → ℕ
cut_end half start end none = end
cut_end half start end (some i) = if ltb (start + half) (start + i) then start + i + 1 else end

unfoldable pub window_end : ChunkingService → Chars → ℕ → ℕ
unfolding boundary
window_end self text start =
    let end = min (start + self.chunk_size) (length text) in
    if ltb end (length text)
    then cut_end (self.chunk_size / 2) start end (boundary (slice start end text))
    else end

unfoldable pub next_start : ChunkingService → ℕ → ℕ → ℕ
next_start self start end =
    if leb (end - self.chunk_overlap) start then end else end - self.chunk_overlap

-- The bounds of the windows from `start` on.
unfoldable pub windows : ChunkingService → Chars → ℕ → ℕ → List (ℕ × ℕ)
unfolding window_end next_start
windows self text zero start = []
windows self text (suc fuel) start =
    let end = window_end self text start in
    let rest = windows self text fuel (next_start self start end) in
    if ltb start (length text)
    then (start, end) ∷ (if leb (length text) end then [] else rest)
    else []

abbrev pub piece : Chars → ℕ × ℕ → Chars
piece text (start, end) = strip (slice start end text)

abbrev pub pieces : Chars → List (ℕ × ℕ) → List Chars
pieces text bounds = keep (λ p. not (is_nil p)) (map (piece text) bounds)

unfoldable pub split_fixed_window : ChunkingService → Chars → List Chars
unfolding windows replace_crlf strip
split_fixed_window self text =
    let normalized = strip (replace_crlf text) in
    pieces normalized (windows self normalized (length normalized) 0)

abbrev pub path_of : Chars → Option Chars
path_of section_path = if is_nil section_path then none else some section_path

unfoldable pub make_payload : Chars → Chars → ChunkPayload
make_payload section_path content = record {
  content = content;
  section_path = path_of section_path;
  chunk_index = none;
}

abbrev blank_line : Chars
blank_line = 10 ∷ 10 ∷ []

abbrev pub joined : List Chars → Chars
joined blocks = strip (join blank_line blocks)

abbrev pub payloads : Chars → List Chars → List ChunkPayload
payloads section_path = map (make_payload section_path)

abbrev pub flush_current : Chars → List Chars → List ChunkPayload
flush_current section_path current =
    if is_nil (joined current) then [] else make_payload section_path (joined current) ∷ []

unfoldable pub chunks_from : ChunkingService → Chars → List Chars → List Chars → List ChunkPayload
unfolding make_payload split_fixed_window join
chunks_from self path current [] = flush_current path current
chunks_from self path current (block ∷ blocks) =
    let alone = chunks_from self path [] blocks in
    let opened = chunks_from self path (block ∷ []) blocks in
    let added = chunks_from self path (current ++ block ∷ []) blocks in
    if ltb self.chunk_size (length block)
    then flush_current path current ++ (payloads path (split_fixed_window self block) ++ alone)
    else if not (is_nil current) && ltb self.chunk_size (length (joined (current ++ block ∷ [])))
    then flush_current path current ++ opened
    else added

unfoldable pub split_paragraphs : ChunkingService → Chars → Chars → List ChunkPayload
unfolding paragraph_blocks chunks_from
split_paragraphs self section_path text = chunks_from self section_path [] (paragraph_blocks text)

abbrev pub index_from : ℕ → List ChunkPayload → List ChunkPayload
index_from i [] = []
index_from i (c ∷ chunks) = record c { chunk_index = some i } ∷ index_from (i + 1) chunks

unfoldable pub assign_indexes : List ChunkPayload → List ChunkPayload
assign_indexes chunks = index_from 0 chunks
