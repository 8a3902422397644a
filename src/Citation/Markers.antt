-- ===== src/Citation/Markers.antt =====
-- The regular expression of a marker and the cleaning of a whole text
-- (backend/services/citation_validator.py). What Python's `\d` matches is the parameter `is_digit`.
use dewflow.Base.{
  ℕ, zero, suc, Bool, true, false, ◌&&◌, ◌||◌, not, Option, none, some, List, [], ◌∷◌, ◌++◌, any,
  ◌==◌, if◌then◌else◌, length, Chars, chars_eq,
}

abbrev pub is_nil {ℓ} : {A : Type ℓ} → List A → Bool
is_nil [] = true
is_nil (x ∷ xs) = false

abbrev pub is_letter : ℕ → Bool
is_letter k = k == 82 || k == 87  -- R, W

-- `match.group(0)` of a marker with this `_match_to_ref_id`
abbrev pub marker : Chars → Chars
marker ref_id = 91 ∷ ref_id ++ 93 ∷ []

module _ (is_digit : ℕ → Bool) where
  -- The digits that a text begins with, and the rest.
  unfoldable pub span : Chars → Chars × Chars
  span [] = ([], [])
  span (c ∷ text) = if is_digit c then (c ∷ (span text).0, (span text).1) else ([], c ∷ text)

  -- After the digits of the second number: a bracket that closes.
  abbrev pub close_second : ℕ → Chars → Chars → Chars → Option Chars
  close_second k first second [] = none
  close_second k first second (c ∷ rest) =
      if not (is_nil second) && c == 93 then some (k ∷ first ++ 46 ∷ second) else none

  -- After the digits of the first number: a bracket that closes, or a dot and a second number.
  abbrev pub close_first : ℕ → Chars → Chars → Option Chars
  close_first k first [] = none
  close_first k first (c ∷ rest) =
      if is_nil first
      then none
      else if c == 93
      then some (k ∷ first)
      else if c == 46
      then close_second k first (span rest).0 (span rest).1
      else none

  -- The reference id of a marker that the text begins with, if it does: `_CITATION_RE`.
  unfoldable pub match_marker : Chars → Option Chars
  unfolding span
  match_marker [] = none
  match_marker (c ∷ []) = none
  match_marker (c ∷ k ∷ text) =
      if c == 91 && is_letter k then close_first k (span text).0 (span text).1 else none

  module _ (valid_ref_ids : List Chars) where
    abbrev pub is_valid : Chars → Bool
    is_valid ref_id = any (chars_eq ref_id) valid_ref_ids

    abbrev pub kept_marker : Chars → Chars
    kept_marker ref_id = if is_valid ref_id then marker ref_id else []

    -- The matches of `finditer` do not overlap: `skip` characters are left of the last one.
    unfoldable pub clean_from : ℕ → Chars → Chars
    unfolding match_marker span
    clean_from skip [] = []
    clean_from (suc skip) (c ∷ text) = clean_from skip text
    clean_from zero (c ∷ text) =
        let plain = c ∷ clean_from zero text in
        elim (match_marker (c ∷ text)) [
          | none ↦ plain
          | some ref_id ↦ kept_marker ref_id ++ clean_from (suc (length ref_id)) text
        ]

    unfoldable pub clean_markers : Chars → Chars
    unfolding clean_from match_marker span
    clean_markers text = clean_from zero text

    -- The reference ids of the matches.
    unfoldable pub matches_from : ℕ → Chars → List Chars
    unfolding match_marker span
    matches_from skip [] = []
    matches_from (suc skip) (c ∷ text) = matches_from skip text
    matches_from zero (c ∷ text) =
        let plain = matches_from zero text in
        elim (match_marker (c ∷ text)) [
          | none ↦ plain
          | some ref_id ↦ ref_id ∷ matches_from (suc (length ref_id)) text
        ]
