-- ===== src/Citation/Cuts.antt =====
-- Where a text may be cut so that its parts are cleaned on their own: no marker stands across the cut.
use dewflow.Base.{
  append_assoc, ℕ, zero, suc, ◌+◌, ◌≤◌, ◌≡◌, refl, sym, ap, ◌∙◌, Bool, true, false, ◌&&◌, not, some,
  List, [], ◌∷◌, ◌++◌, ◌==◌, length, length-append, Bool-cases, Option-cases, inl, inr, arith,
  Chars,
}
use dewflow.Citation.Markers.{
  is_nil, is_letter, span, close_first, close_second, match_marker, kept_marker, clean_from,
}

abbrev pub starts_bracket : Chars → Bool
starts_bracket [] = false
starts_bracket (c ∷ text) = c == 91

module _ (is_digit : ℕ → Bool) where
  -- The text may be the first part of a marker.
  abbrev pub open_number : Chars → Bool
  open_number [] = true
  open_number (c ∷ rest) = (c == 46) && is_nil (span is_digit rest).1

  unfoldable pub is_open : Chars → Bool
  unfolding span
  is_open [] = false
  is_open (c ∷ []) = c == 91
  is_open (c ∷ k ∷ text) = (c == 91) && is_letter k && open_number (span is_digit text).1

  -- Every place in a text, with what follows it: no marker begins there and ends in `more`.
  abbrev pub IsClear : Chars → Chars → Type 0
  IsClear [] more = Unit
  IsClear (c ∷ text) more =
      (is_open (c ∷ text) && not (starts_bracket more) ≡ false) × IsClear text more

module _ (is_digit : ℕ → Bool) (bracket_is_none : is_digit 91 ≡ false) where
  span-append :
      (text more : Chars)
      → is_nil (span is_digit text).1 && not (starts_bracket more) ≡ false
      → span is_digit (text ++ more) ≡ ((span is_digit text).0, (span is_digit text).1 ++ more)
  unfolding span
  span-append [] [] h = refl
  span-append [] (c ∷ more) h =
      let same : c ≡ 91 = ground arith in rw (ap is_digit same ∙ bracket_is_none) refl
  span-append (c ∷ text) more h = elim (Bool-cases (is_digit c)) [
    | inl digit ↦ rw (digit, span-append text more (rw digit at h)) refl
    | inr other ↦ rw other refl
  ]

  close_second-append :
      (k : ℕ) (first second rest more : Chars)
      → is_nil rest && not (starts_bracket more) ≡ false
      → close_second is_digit k first second (rest ++ more)
        ≡ close_second is_digit k first second rest
  close_second-append k first second [] [] h = refl
  close_second-append k first second [] (c ∷ more) h = ground arith
  close_second-append k first second (c ∷ rest) more h = refl

  close_first-append :
      (k : ℕ) (first rest more : Chars)
      → open_number is_digit rest && not (starts_bracket more) ≡ false
      → close_first is_digit k first (rest ++ more) ≡ close_first is_digit k first rest
  close_first-append k first [] [] h = refl
  close_first-append k first [] (c ∷ more) h = ground arith
  close_first-append k first (c ∷ rest) more h = elim (Bool-cases (c == 46)) [
    | inl dot ↦
        rw
          (
            dot,
            span-append rest more (rw dot at h),
            close_second-append k first (span is_digit rest).0 (span is_digit rest).1 more
                (rw dot at h),
          )
          refl
    | inr other ↦ rw other refl
  ]

  still_open :
      (rest more : Chars)
      → open_number is_digit rest && not (starts_bracket more) ≡ false
      → is_nil rest && not (starts_bracket more) ≡ false
  still_open [] more h = h
  still_open (c ∷ rest) more h = refl

  match_marker-append :
      (text more : Chars)
      → is_nil text ≡ false
      → is_open is_digit text && not (starts_bracket more) ≡ false
      → match_marker is_digit (text ++ more) ≡ match_marker is_digit text
  unfolding match_marker is_open
  match_marker-append [] more n h = cc
  match_marker-append (c ∷ []) [] n h = refl
  match_marker-append (c ∷ []) (m ∷ more) n h = ground arith
  match_marker-append (c ∷ k ∷ text) more n h = elim (Bool-cases ((c == 91) && is_letter k)) [
    | inl opens ↦
        rw
          (
            opens,
            span-append text more (still_open (span is_digit text).1 more (rw opens at h)),
            close_first-append k (span is_digit text).0 (span is_digit text).1 more (rw opens at h),
          )
          refl
    | inr other ↦ rw other refl
  ]

  length-span :
      (text : Chars) → length (span is_digit text).0 + length (span is_digit text).1 ≡ length text
  unfolding span
  length-span [] = refl
  length-span (c ∷ text) = elim (Bool-cases (is_digit c)) [
    | inl digit ↦ rw digit (omega (arith, length-span text))
    | inr other ↦ rw other (omega arith)
  ]

  close_second-length :
      (k : ℕ) (first second rest ref_id : Chars)
      → close_second is_digit k first second rest ≡ some ref_id
      → suc (length ref_id) ≤ 2 + length first + length second + length rest
  close_second-length k first second [] ref_id e = cc
  close_second-length k first second (c ∷ rest) ref_id e =
      let made : k ∷ first ++ 46 ∷ second ≡ ref_id = ground arith in
      rw (sym made) (omega (arith, length-append first (46 ∷ second)))

  close_first-length :
      (k : ℕ) (first rest ref_id : Chars)
      → close_first is_digit k first rest ≡ some ref_id
      → length ref_id ≤ length first + length rest
  close_first-length k first [] ref_id e = cc
  close_first-length k first (c ∷ rest) ref_id e = ground (
    arith,
    close_second-length k first (span is_digit rest).0 (span is_digit rest).1 ref_id,
    length-span rest,
  )

  -- A marker is a part of the text that it begins.
  match_marker-length :
      (c : ℕ) (text ref_id : Chars)
      → match_marker is_digit (c ∷ text) ≡ some ref_id
      → suc (length ref_id) ≤ length text
  unfolding match_marker
  match_marker-length c [] ref_id e = cc
  match_marker-length c (k ∷ text) ref_id e = ground (
    arith,
    close_first-length k (span is_digit text).0 (span is_digit text).1 ref_id,
    length-span text,
  )

  module _ (valid_ref_ids : List Chars) where
    -- The text before a clear cut is cleaned as if nothing followed.
    pub clean_from-append :
        (skip : ℕ) (text more : Chars)
        → skip ≤ length text
        → IsClear is_digit text more
        → clean_from is_digit valid_ref_ids skip (text ++ more)
          ≡ clean_from is_digit valid_ref_ids skip text
            ++ clean_from is_digit valid_ref_ids zero more
    unfolding clean_from
    clean_from-append zero [] more h c = refl
    clean_from-append (suc skip) [] more h c = absurd (omega arith)
    clean_from-append (suc skip) (c ∷ text) more h clear =
        clean_from-append skip text more (omega arith) clear.1
    clean_from-append zero (c ∷ text) more h clear =
        elim (Option-cases (match_marker is_digit (c ∷ text))) [
          | inl absent ↦
              rw (clean_from, match_marker-append (c ∷ text) more refl clear.0, absent)
                (ap (λ l. c ∷ l) (clean_from-append zero text more (omega arith) clear.1))
          | inr (ref_id, found) ↦
              rw (clean_from, match_marker-append (c ∷ text) more refl clear.0, found)
                (ap (λ l. kept_marker is_digit valid_ref_ids ref_id ++ l)
                    (clean_from-append (suc (length ref_id)) text more
                      (match_marker-length c text ref_id found) clear.1)
                  ∙ sym (
                      append_assoc (kept_marker is_digit valid_ref_ids ref_id)
                        (clean_from is_digit valid_ref_ids (suc (length ref_id)) text)
                        (clean_from is_digit valid_ref_ids zero more)))
        ]
