-- ===== src/Citation/Streaming.antt =====
-- `validate_citations` and `StreamingCitationFilter` (backend/services/citation_validator.py).
use dewflow.Base.{
  ℕ, zero, Bool, true, false, ◌&&◌, ◌||◌, not, Option, none, some, List, [], ◌∷◌, ◌++◌, any, keep,
  ◌==◌, if◌then◌else◌, length, ltb, take, drop, Chars, rfind,
}
use dewflow.Citation.Markers.{
  is_nil, is_letter, span, match_marker, is_valid, clean_from, clean_markers, matches_from,
}

pub record CitationResult : Type 0 where
  pub cleaned_content : Chars
  pub total_citations : ℕ
  pub removed_count : ℕ

-- `$` also matches before a newline that ends the text.
abbrev pub at_end : Chars → Bool
at_end [] = true
at_end (c ∷ []) = c == 10
at_end (c ∷ d ∷ text) = false

module _ (is_digit : ℕ → Bool) where
  abbrev pub partial_number : Chars → Bool
  partial_number [] = true
  partial_number (c ∷ rest) = at_end (c ∷ rest) || c == 46 && at_end (span is_digit rest).1

  -- `_PARTIAL_PREFIX_RE.match(tail)`
  unfoldable pub is_partial : Chars → Bool
  unfolding span
  is_partial [] = false
  is_partial (c ∷ []) = false
  is_partial (c ∷ k ∷ tail) = (c == 91) && is_letter k && partial_number (span is_digit tail).1

  abbrev pub split_at : Option ℕ → Chars → Option ℕ
  split_at none text = none
  split_at (some bracket_pos) text =
      if ltb 10 (length (drop bracket_pos text))
      then none
      else if any (λ c. c == 93) (drop bracket_pos text)
      then none
      else if is_partial (drop bracket_pos text)
      then some bracket_pos
      else none

  unfoldable pub find_potential_split : Chars → Option ℕ
  unfolding rfind is_partial
  find_potential_split text = split_at (rfind (91 ∷ []) text) text

  module _ (valid_ref_ids : List Chars) where
    unfoldable pub validate_citations : Chars → CitationResult
    unfolding clean_from matches_from match_marker span
    validate_citations content =
        if is_nil content || is_nil valid_ref_ids
        then record { cleaned_content = content; total_citations = 0; removed_count = 0 }
        else record {
          cleaned_content = clean_from is_digit valid_ref_ids zero content;
          total_citations = length (matches_from is_digit valid_ref_ids zero content);
          removed_count = length (
              keep (λ ref_id. not (is_valid is_digit valid_ref_ids ref_id))
                (matches_from is_digit valid_ref_ids zero content));
        }

    abbrev pub publish_ready : Chars → Option Chars
    publish_ready part =
        if is_nil part then none else some (clean_markers is_digit valid_ref_ids part)

    -- What is published, and the buffer that is left.
    abbrev pub push_split : Option ℕ → Chars → Option Chars × Chars
    push_split none combined = (some (clean_markers is_digit valid_ref_ids combined), [])
    push_split (some split_pos) combined =
        (publish_ready (take split_pos combined), drop split_pos combined)

    unfoldable pub push : Chars → Chars → Option Chars × Chars
    unfolding find_potential_split clean_markers
    push buffer chunk =
        if is_nil valid_ref_ids
        then (some chunk, buffer)
        else push_split (find_potential_split (buffer ++ chunk)) (buffer ++ chunk)

    unfoldable pub flush : Chars → Chars
    unfolding clean_markers
    flush buffer = if is_nil buffer then [] else clean_markers is_digit valid_ref_ids buffer

    abbrev pub published : Option Chars → Chars
    published none = []
    published (some text) = text

    -- All that a user of the filter publishes: every answer of `push`, and that of `flush`.
    unfoldable pub filter_stream : Chars → List Chars → Chars
    unfolding push flush
    filter_stream buffer [] = flush buffer
    filter_stream buffer (chunk ∷ chunks) =
        published (push buffer chunk).0 ++ filter_stream (push buffer chunk).1 chunks
