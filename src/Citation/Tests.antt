-- ===== src/Citation/Tests.antt =====
-- An answer with a valid and an invalid marker, and the equivalence at it, split in its markers.
use dewflow.Base.{
  ℕ, Bool, ◌&&◌, ◌≡◌, refl, List, [], ◌∷◌, leb, Chars, codes, concat, rfind, starts_with,
}
use dewflow.Citation.Markers.{span, match_marker, clean_from, clean_markers, matches_from}
use dewflow.Citation.Streaming.{
  is_partial, find_potential_split, push, flush, filter_stream, validate_citations,
}
use dewflow.Citation.Cuts.{is_open}
use dewflow.Citation.Equivalence.{IsSafe, filter_stream-validate}

abbrev is_digit : ℕ → Bool
is_digit c = leb 48 c && leb c 57

abbrev valid : List Chars
valid = codes "R1" ∷ codes "R1.2" ∷ []

abbrev chunks : List Chars
chunks = codes "so [R1] and [R1." ∷ codes "2], not [W" ∷ codes "7]" ∷ []

chunks-IsSafe : IsSafe is_digit valid [] chunks
unfolding push find_potential_split rfind starts_with is_partial span is_open
chunks-IsSafe = (refl, (refl, (refl, tt)))

published_text : filter_stream is_digit valid [] chunks ≡ codes "so [R1] and [R1.2], not "
unfolding filter_stream push flush find_potential_split rfind starts_with is_partial span
    clean_markers clean_from match_marker
published_text = refl

filter_stream-validate_example :
    filter_stream is_digit valid [] chunks
    ≡ (validate_citations is_digit valid (concat chunks)).cleaned_content
filter_stream-validate_example =
    filter_stream-validate is_digit refl refl valid chunks chunks-IsSafe

-- A chunk that ends in a bracket lets an invalid marker through, which the whole text would lose.
leaked : filter_stream is_digit valid [] (codes "see [" ∷ codes "R9]" ∷ []) ≡ codes "see [R9]"
unfolding filter_stream push flush find_potential_split rfind starts_with is_partial span
    clean_markers clean_from match_marker
leaked = refl

caught : (validate_citations is_digit valid (codes "see [R9]")).cleaned_content ≡ codes "see "
unfolding validate_citations clean_from matches_from match_marker span
caught = refl

-- The removal of a marker can leave another invalid one.
nested : (validate_citations is_digit valid (codes "[R[R9]8]")).cleaned_content ≡ codes "[R8]"
unfolding validate_citations clean_from matches_from match_marker span
nested = refl
