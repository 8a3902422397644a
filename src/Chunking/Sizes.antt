-- ===== src/Chunking/Sizes.antt =====
-- The sizes of the chunks (`split_text` of backend/services/chunking_service.py).
use dewflow.Base.{
  if◌then◌else◌, Bool, false, Option-cases, any, chars_eq, codes, take, ℕ, ◌+◌, ◌-◌, ◌≤◌, ◌≡◌, refl,
  ap, false, not, ◌&&◌, Option, some, List, [], ◌∷◌, ◌++◌, map, length, length-take, drop, ltb,
  Chars, Bool-cases, inl, inr, arith, All, All-append, keep-All_of, length-strip, strip, join,
}
use dewflow.Chunking.Blocks.{is_fence, splitlines, is_nil, paragraph_blocks, replace_crlf}
use dewflow.Chunking.Service.{
  ChunkingService, ChunkPayload, new_service, slice, windows, pieces, piece, split_fixed_window,
  make_payload, joined, payloads, flush_current, chunks_from, split_paragraphs, index_from,
  assign_indexes,
}
use dewflow.Chunking.Markdown.{
  heading_match, line_break, flush_section, sections_from, split_markdown, markdown_suffixes,
  split_text,
}
use dewflow.Chunking.Windows.{IsWindow, windows-IsWindow}

abbrev pub Small : ChunkingService → ChunkPayload → Type 0
Small self c = length c.content ≤ self.chunk_size

-- The numbers from `i` on, as indexes.
abbrev pub counted : ℕ → List ChunkPayload → List (Option ℕ)
counted i [] = []
counted i (c ∷ chunks) = some i ∷ counted (i + 1) chunks

abbrev pub indexes : List ChunkPayload → List (Option ℕ)
indexes = map (λ c. c.chunk_index)

index_from-indexes :
    (i : ℕ) (chunks : List ChunkPayload)
    → indexes (index_from i chunks) ≡ counted i (index_from i chunks)
index_from-indexes i [] = refl
index_from-indexes i (c ∷ chunks) = ap (λ l. some i ∷ l) (index_from-indexes (i + 1) chunks)

module _ (self : ChunkingService) (positive : 1 ≤ self.chunk_size) where
  pieces-size :
      (text : Chars) (bounds : List (ℕ × ℕ))
      → All (IsWindow self text) bounds
      → All (λ p. length p ≤ self.chunk_size) (pieces text bounds)
  pieces-size text bounds h =
      keep-All_of (λ p. length p ≤ self.chunk_size) (λ p. not (is_nil p)) (map (piece text) bounds)
        (each bounds h)
    where
      each :
          (bs : List (ℕ × ℕ))
          → All (IsWindow self text) bs
          → All (λ p. length p ≤ self.chunk_size) (map (piece text) bs)
      each [] k = tt
      each ((start, end) ∷ bs) k = (
        omega (
          arith,
          length-strip (slice start end text),
          length-take (end - start) (drop start text),
          k.0,
        ),
        each bs k.1,
      )

  split_fixed_window-size :
      (text : Chars) → All (λ p. length p ≤ self.chunk_size) (split_fixed_window self text)
  unfolding split_fixed_window
  split_fixed_window-size text =
      pieces-size (strip (replace_crlf text))
        (windows self (strip (replace_crlf text)) (length (strip (replace_crlf text))) 0)
        (windows-IsWindow self positive (strip (replace_crlf text))
          (length (strip (replace_crlf text))) 0)

  payloads-Small :
      (path : Chars) (texts : List Chars)
      → All (λ p. length p ≤ self.chunk_size) texts
      → All (Small self) (payloads path texts)
  unfolding make_payload
  payloads-Small path [] h = tt
  payloads-Small path (t ∷ texts) h = (h.0, payloads-Small path texts h.1)

  flush_current-Small :
      (path : Chars) (current : List Chars)
      → length (joined current) ≤ self.chunk_size
      → All (Small self) (flush_current path current)
  unfolding make_payload
  flush_current-Small path current h = elim (Bool-cases (is_nil (joined current))) [
    | inl empty ↦ rw empty tt
    | inr full ↦ rw full (h, tt)
  ]

  nothing_joined : length (joined []) ≤ self.chunk_size
  unfolding join
  nothing_joined = omega (arith, length-strip [])

  added_small :
      (current : List Chars) (block : Chars)
      → not (is_nil current) && ltb self.chunk_size (length (joined (current ++ block ∷ [])))
        ≡ false
      → ltb self.chunk_size (length block) ≡ false
      → length (joined (current ++ block ∷ [])) ≤ self.chunk_size
  unfolding join
  added_small [] block f s = ground (arith, length-strip block)
  added_small (x ∷ current) block f s = ground arith

  chunks_from-Small :
      (path : Chars) (blocks current : List Chars)
      → length (joined current) ≤ self.chunk_size
      → All (Small self) (chunks_from self path current blocks)
  unfolding chunks_from
  chunks_from-Small path [] current h = flush_current-Small path current h
  chunks_from-Small path (block ∷ blocks) current h =
      elim (Bool-cases (ltb self.chunk_size (length block))) [
        | inl long ↦ rw long (
            All-append (Small self) (flush_current path current) _
              (flush_current-Small path current h)
              (All-append (Small self) (payloads path (split_fixed_window self block)) _
                (payloads-Small path (split_fixed_window self block)
                  (split_fixed_window-size block))
                (chunks_from-Small path blocks [] nothing_joined)))
        | inr short ↦
            elim (Bool-cases (
              not (is_nil current)
              && ltb self.chunk_size (length (joined (current ++ block ∷ []))))) [
                | inl over ↦
                    rw (short, over)
                      (All-append (Small self) (flush_current path current) _
                        (flush_current-Small path current h)
                        (chunks_from-Small path blocks (block ∷ [])
                          (added_small [] block refl short)))
                | inr fits ↦
                    rw (short, fits)
                      (chunks_from-Small path blocks (current ++ block ∷ [])
                        (added_small current block fits short))
              ]
      ]

  index_from-Small :
      (i : ℕ) (chunks : List ChunkPayload)
      → All (Small self) chunks
      → All (Small self) (index_from i chunks)
  index_from-Small i [] h = tt
  index_from-Small i (c ∷ chunks) h = (h.0, index_from-Small (i + 1) chunks h.1)

  split_paragraphs-Small : (path text : Chars) → All (Small self) (split_paragraphs self path text)
  unfolding split_paragraphs
  split_paragraphs-Small path text =
      chunks_from-Small path (paragraph_blocks text) [] nothing_joined

  flush_section-Small :
      (lines : List Chars) (path : Chars) → All (Small self) (flush_section self lines path)
  unfolding flush_section
  flush_section-Small lines path = elim (Bool-cases (is_nil (strip (join line_break lines)))) [
    | inl empty ↦ rw empty tt
    | inr full ↦ rw full (split_paragraphs-Small path (strip (join line_break lines)))
  ]

  sections_from-Small :
      (lines stack section_lines : List Chars) (path : Chars) (in_fence : Bool)
      → All (Small self) (sections_from self stack section_lines path in_fence lines)
  unfolding sections_from
  sections_from-Small [] stack section_lines path in_fence = flush_section-Small section_lines path
  sections_from-Small (line ∷ lines) stack section_lines path in_fence =
      let fence = if is_fence line then not in_fence else in_fence in
      elim (Option-cases (heading_match fence line)) [
        | inl plain ↦
            rw (All, plain)
              (sections_from-Small lines stack (section_lines ++ line ∷ []) path fence)
        | inr ((level, title), found) ↦
            let headings = take (level - 1) stack ++ title ∷ [] in
            rw (All, found)
              (All-append (Small self) (flush_section self section_lines path) _
                (flush_section-Small section_lines path)
                (sections_from-Small lines headings (line ∷ []) (join (codes " / ") headings)
                  fence))
      ]

  split_markdown-Small : (text : Chars) → All (Small self) (split_markdown self text)
  unfolding split_markdown
  split_markdown-Small text = sections_from-Small (splitlines text) [] [] [] false

-- Every chunk of a text, Markdown or not, fits the size of the service, whatever size and overlap it was
-- asked for, and the chunks are numbered from 0 in their order.
pub split_text-Small :
    (size overlap : ℕ) (text suffix : Chars)
    → All (Small (new_service size overlap)) (split_text (new_service size overlap) text suffix)
      × (indexes (split_text (new_service size overlap) text suffix)
          ≡ counted 0 (split_text (new_service size overlap) text suffix))
unfolding split_text assign_indexes new_service
split_text-Small size overlap text suffix = elim (Bool-cases (is_nil (strip (replace_crlf text)))) [
  | inl empty ↦ rw empty (tt, refl)
  | inr full ↦ elim (Bool-cases (any (chars_eq suffix) markdown_suffixes)) [
    | inl markdown ↦
        rw (full, markdown)
          (
            index_from-Small (new_service size overlap) (omega arith) 0 _ (
                split_markdown-Small (new_service size overlap) (omega arith)
                  (strip (replace_crlf text))),
            index_from-indexes 0
                (split_markdown (new_service size overlap) (strip (replace_crlf text))),
          )
    | inr plain ↦
        rw (full, plain)
          (
            index_from-Small (new_service size overlap) (omega arith) 0 _ (
                split_paragraphs-Small (new_service size overlap) (omega arith) []
                  (strip (replace_crlf text))),
            index_from-indexes 0
                (split_paragraphs (new_service size overlap) [] (strip (replace_crlf text))),
          )
  ]
]
