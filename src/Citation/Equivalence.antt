-- ===== src/Citation/Equivalence.antt =====
-- The filter of a stream (`StreamingCitationFilter`) against the cleaning of the whole text
-- (`validate_citations`, both of backend/services/citation_validator.py).
use dewflow.Base.{
  ℕ, zero, ◌≡◌, ◌≢◌, ◌⊎◌, refl, sym, ap, ◌∙◌, Bool, true, false, ◌&&◌, ◌||◌, Option, none, some,
  List, [], ◌∷◌, ◌++◌, any, ◌==◌, if◌then◌else◌, length, ltb, drop, take, Bool-cases, Option-cases,
  inl, inr, arith, Chars, rfind, concat, append_assoc, append_nil,
}
use dewflow.Citation.Markers.{is_nil, clean_from, clean_markers}
use dewflow.Citation.Streaming.{
  is_partial, split_at, find_potential_split, push, flush, push_split, published, publish_ready,
  filter_stream, validate_citations,
}
use dewflow.Citation.Cuts.{starts_bracket, is_open, IsClear, clean_from-append}
use dewflow.Citation.Tails.{
  take-drop, rfind-bracket, bracket-IsClear, open_tail, tail-IsClear, open_partial,
}

module _ (is_digit : ℕ → Bool) where
  -- A marker is open at the end of the text, and `_find_potential_split` overlooks it: only its bracket is
  -- there, or more than ten of its characters.
  abbrev leaks_from : Option ℕ → Chars → Bool
  leaks_from none text = false
  leaks_from (some i) text =
      is_open is_digit (drop i text) && (length (drop i text) == 1 || ltb 10 (length (drop i text)))

  abbrev pub leaks : Chars → Bool
  leaks text = leaks_from (rfind (91 ∷ []) text) text

  -- No text that a push looks at ends so.
  abbrev pub IsSafe : List Chars → Chars → List Chars → Type 0
  IsSafe valid_ref_ids buffer [] = Unit
  IsSafe valid_ref_ids buffer (chunk ∷ chunks) =
      (leaks (buffer ++ chunk) ≡ false)
      × IsSafe valid_ref_ids (push is_digit valid_ref_ids buffer chunk).1 chunks

module _ (is_digit : ℕ → Bool) (bracket_is_none : is_digit 91 ≡ false)
    (close_is_none : is_digit 93 ≡ false) where
  found_split :
      (i c k : ℕ) (tail : Chars)
      → is_open is_digit (c ∷ k ∷ tail) ≡ true
      → (is_partial is_digit (c ∷ k ∷ tail) ≡ true) × (any (λ x. x == 93) (c ∷ k ∷ tail) ≡ false)
      → (if ltb 10 (length (c ∷ k ∷ tail))
            then none
            else if any (λ x. x == 93) (c ∷ k ∷ tail)
            then none
            else if is_partial is_digit (c ∷ k ∷ tail)
            then some i
            else none)
          ≢ none
        ⊎ (ltb 10 (length (c ∷ k ∷ tail)) ≡ true)
  found_split i c k tail opens p = elim (Bool-cases (ltb 10 (length (c ∷ k ∷ tail)))) [
    | inl long ↦ inr long
    | inr short ↦ inl (rw (short, p.1, p.0) (λ e. absurd (cc e)))
  ]

  tail_closed :
      (i : ℕ) (text tail : Chars)
      → drop i text ≡ tail
      → split_at is_digit (some i) text ≡ none
      → leaks_from is_digit (some i) text ≡ false
      → is_open is_digit (drop i text) ≡ false
  unfolding is_open
  tail_closed i text [] d s l = rw d refl
  tail_closed i text (c ∷ []) d s l = rw d (ground (arith, (rw d at l)))
  tail_closed i text (c ∷ k ∷ tail) d s l = elim (Bool-cases (is_open is_digit (c ∷ k ∷ tail))) [
    | inl opens ↦
        elim (found_split i c k tail opens
          (open_partial is_digit bracket_is_none close_is_none c k tail opens)) [
            | inl wrong ↦ absurd (wrong (rw d at s))
            | inr long ↦ absurd (ground (arith, (rw d at l)))
          ]
    | inr closed ↦ rw d closed
  ]

  split-none :
      (text : Chars)
      → find_potential_split is_digit text ≡ none
      → leaks is_digit text ≡ false
      → open_tail is_digit bracket_is_none text ≡ false
  unfolding find_potential_split
  split-none text s l = elim (Option-cases (rfind (91 ∷ []) text)) [
    | inl absent ↦ rw absent refl
    | inr (i, found) ↦
        rw found (tail_closed i text (drop i text) refl (rw found at s) (rw found at l))
  ]

  split_at-bracket :
      (i j : ℕ) (text : Chars)
      → starts_bracket (drop j text) ≡ true
      → split_at is_digit (some j) text ≡ some i
      → starts_bracket (drop i text) ≡ true
  split_at-bracket i j text b s = let same : j ≡ i = ground arith in rw (sym same) b

  split-some :
      (text : Chars) (i : ℕ)
      → find_potential_split is_digit text ≡ some i
      → starts_bracket (drop i text) ≡ true
  unfolding find_potential_split
  split-some text i s = elim (Option-cases (rfind (91 ∷ []) text)) [
    | inl absent ↦ absurd (cc (rw absent at s))
    | inr (j, found) ↦ split_at-bracket i j text (rfind-bracket text j found).0 (rw found at s)
  ]

  bracket_stays :
      (text more : Chars) → starts_bracket text ≡ true → starts_bracket (text ++ more) ≡ true
  bracket_stays [] more h = cc
  bracket_stays (c ∷ text) more h = h

  module _ (valid_ref_ids : List Chars) where
    -- What is cut off before a bracket, or after a text that leaves no marker open, is cleaned apart.
    clean-append :
        (text more : Chars)
        → IsClear is_digit text more
        → clean_markers is_digit valid_ref_ids (text ++ more)
          ≡ clean_markers is_digit valid_ref_ids text ++ clean_markers is_digit valid_ref_ids more
    unfolding clean_markers
    clean-append text more c =
        clean_from-append is_digit bracket_is_none valid_ref_ids zero text more (omega arith) c

    published-publish_ready :
        (part : Chars)
        → published is_digit valid_ref_ids (publish_ready is_digit valid_ref_ids part)
          ≡ clean_markers is_digit valid_ref_ids part
    unfolding clean_markers clean_from
    published-publish_ready [] = refl
    published-publish_ready (c ∷ part) = refl

    -- What a push publishes, with the rest of the text cleaned after its buffer.
    push_split-clean :
        (combined more : Chars) (split : Option ℕ)
        → find_potential_split is_digit combined ≡ split
        → leaks is_digit combined ≡ false
        → published is_digit valid_ref_ids (push_split is_digit valid_ref_ids split combined).0
            ++ clean_markers is_digit valid_ref_ids
                ((push_split is_digit valid_ref_ids split combined).1 ++ more)
          ≡ clean_markers is_digit valid_ref_ids (combined ++ more)
    push_split-clean combined more none s l = sym (
        clean-append combined more
          (tail-IsClear is_digit bracket_is_none combined more (split-none combined s l)))
    push_split-clean combined more (some i) s l =
        ap (λ x. x ++ clean_markers is_digit valid_ref_ids (drop i combined ++ more))
          (published-publish_ready (take i combined))
        ∙ sym (
            clean-append (take i combined) (drop i combined ++ more) (
              bracket-IsClear is_digit bracket_is_none (take i combined) (drop i combined ++ more)
                (bracket_stays (drop i combined) more (split-some combined i s))))
        ∙ ap (clean_markers is_digit valid_ref_ids) (
            sym (append_assoc (take i combined) (drop i combined) more)
            ∙ ap (λ x. x ++ more) (take-drop i combined))

    flush-clean :
        (buffer : Chars)
        → flush is_digit valid_ref_ids buffer ≡ clean_markers is_digit valid_ref_ids buffer
    unfolding flush clean_markers clean_from
    flush-clean [] = refl
    flush-clean (c ∷ buffer) = refl

    module _ (some_valid : is_nil valid_ref_ids ≡ false) where
      push-clean :
          (buffer chunk more : Chars)
          → leaks is_digit (buffer ++ chunk) ≡ false
          → published is_digit valid_ref_ids (push is_digit valid_ref_ids buffer chunk).0
              ++ clean_markers is_digit valid_ref_ids
                  ((push is_digit valid_ref_ids buffer chunk).1 ++ more)
            ≡ clean_markers is_digit valid_ref_ids (buffer ++ chunk ++ more)
      unfolding push
      push-clean buffer chunk more l = rw some_valid (
          push_split-clean (buffer ++ chunk) more (find_potential_split is_digit (buffer ++ chunk))
            refl l)

      filter_stream-clean :
          (chunks : List Chars) (buffer : Chars)
          → IsSafe is_digit valid_ref_ids buffer chunks
          → filter_stream is_digit valid_ref_ids buffer chunks
            ≡ clean_markers is_digit valid_ref_ids (buffer ++ concat chunks)
      unfolding filter_stream
      filter_stream-clean [] buffer h =
          flush-clean buffer ∙ ap (clean_markers is_digit valid_ref_ids) (sym (append_nil buffer))
      filter_stream-clean (chunk ∷ chunks) buffer h =
          ap
            (λ x.
              published is_digit valid_ref_ids (push is_digit valid_ref_ids buffer chunk).0 ++ x)
            (filter_stream-clean chunks (push is_digit valid_ref_ids buffer chunk).1 h.1)
          ∙ push-clean buffer chunk (concat chunks) h.0
          ∙ ap (clean_markers is_digit valid_ref_ids) (append_assoc buffer chunk (concat chunks))

    -- Without valid references nothing is buffered or cleaned.
    filter_stream-plain :
        (chunks : List Chars)
        → is_nil valid_ref_ids ≡ true
        → filter_stream is_digit valid_ref_ids [] chunks ≡ concat chunks
    unfolding filter_stream push flush
    filter_stream-plain [] e = refl
    filter_stream-plain (chunk ∷ chunks) e =
        rw e (ap (λ x. chunk ++ x) (filter_stream-plain chunks e))

    validate-clean :
        (content : Chars)
        → is_nil valid_ref_ids ≡ false
        → (validate_citations is_digit valid_ref_ids content).cleaned_content
          ≡ clean_markers is_digit valid_ref_ids content
    unfolding validate_citations clean_markers clean_from
    validate-clean [] e = refl
    validate-clean (c ∷ content) e = rw e refl

    validate-plain :
        (content : Chars)
        → is_nil valid_ref_ids ≡ true
        → (validate_citations is_digit valid_ref_ids content).cleaned_content ≡ content
    unfolding validate_citations
    validate-plain [] e = refl
    validate-plain (c ∷ content) e = rw e refl

-- A stream of chunks is published as the whole text would be cleaned, wherever its markers are split, if
-- no push looks at a text that ends in the bracket alone of a marker or in more than ten characters of
-- one, and if no bracket counts as a digit.
pub filter_stream-validate :
    (is_digit : ℕ → Bool) (bracket_is_none : is_digit 91 ≡ false)
    (close_is_none : is_digit 93 ≡ false) (valid_ref_ids chunks : List Chars)
    → IsSafe is_digit valid_ref_ids [] chunks
    → filter_stream is_digit valid_ref_ids [] chunks
      ≡ (validate_citations is_digit valid_ref_ids (concat chunks)).cleaned_content
filter_stream-validate is_digit bracket_is_none close_is_none valid_ref_ids chunks safe =
    elim (Bool-cases (is_nil valid_ref_ids)) [
      | inl empty ↦
          filter_stream-plain is_digit bracket_is_none close_is_none valid_ref_ids chunks empty
          ∙ sym (
              validate-plain is_digit bracket_is_none close_is_none valid_ref_ids (concat chunks)
                empty)
      | inr some_valid ↦
          filter_stream-clean is_digit bracket_is_none close_is_none valid_ref_ids some_valid chunks
            [] safe
          ∙ sym (
              validate-clean is_digit bracket_is_none close_is_none valid_ref_ids (concat chunks)
                some_valid)
    ]
