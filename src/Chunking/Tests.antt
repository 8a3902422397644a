-- ===== src/Chunking/Tests.antt =====
-- A text of three paragraphs, and each theorem about chunks at it.
use dewflow.Base.{
  map, some, ℕ, ◌<◌, ◌≡◌, refl, true, [], ◌∷◌, ◌++◌, any, length, arith, Chars, codes, All, join,
  strip, lstrip, rstrip, is_space, starts_with,
}
use dewflow.Chunking.Blocks.{paragraph_blocks, blocks_from, splitlines, is_fence, replace_crlf}
use dewflow.Chunking.Service.{
  ChunkingService, new_service, windows, window_end, next_start, boundary, split_paragraphs,
  chunks_from, make_payload, assign_indexes,
}
use dewflow.Chunking.Markdown.{
  split_text, split_markdown, sections_from, flush_section, heading, hashes,
}
use dewflow.Chunking.Windows.{IsWindow, covers, windows_lem}
use dewflow.Chunking.Sizes.{Small, indexes, counted, split_text-Small}

abbrev text : Chars
text =
    codes "A lease ends."
    ++ 10 ∷ 10 ∷ codes "A fence grows."
    ++ 10 ∷ 10 ∷ codes "A claim is one of many."

-- A fence keeps the blank line in its block.
fenced :
    paragraph_blocks (codes "```" ++ 10 ∷ 10 ∷ codes "x" ++ 10 ∷ codes "```")
    ≡ (codes "```" ++ 10 ∷ 10 ∷ codes "x" ++ 10 ∷ codes "```") ∷ []
unfolding paragraph_blocks blocks_from splitlines is_fence strip lstrip rstrip is_space starts_with
    join
fenced = refl

abbrev small : ChunkingService
small = record { chunk_size = 20; chunk_overlap = 5 }

bounds_found : windows small text 54 0 ≡ (0, 17) ∷ (12, 31) ∷ (26, 46) ∷ (41, 54) ∷ []
unfolding windows window_end next_start boundary
bounds_found = refl

windows_lem_example :
    ((p : ℕ) → p < length text → any (covers p) (windows small text (length text) 0) ≡ true)
    × All (IsWindow small text) (windows small text (length text) 0)
windows_lem_example = windows_lem small text (omega arith)

abbrev markdown : Chars
markdown =
    codes "# Leases #"
    ++ 10 ∷ codes "They end."
    ++ 10 ∷ codes "## Fences"
    ++ 10 ∷ codes "They grow."

-- Each section is a chunk under the path of its headings.
sections :
    map (λ c. c.section_path) (split_text (new_service 0 300) markdown (codes ".md"))
    ≡ some (codes "Leases") ∷ some (codes "Leases / Fences") ∷ []
unfolding split_text split_markdown sections_from flush_section heading hashes split_paragraphs
    chunks_from make_payload assign_indexes replace_crlf paragraph_blocks blocks_from splitlines
    is_fence strip lstrip rstrip is_space starts_with join new_service
sections = refl

split_text-Small_example :
    All (Small (new_service 0 300)) (split_text (new_service 0 300) text (codes ".txt"))
    × (indexes (split_text (new_service 0 300) text (codes ".txt"))
        ≡ counted 0 (split_text (new_service 0 300) text (codes ".txt")))
split_text-Small_example = split_text-Small 0 300 text (codes ".txt")
