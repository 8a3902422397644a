-- ===== src/Citation/Tails.antt =====
-- The last bracket of a text decides whether a marker can stand across its end, and
-- `_find_potential_split` (backend/services/citation_validator.py) finds it.
use dewflow.Base.{
  ℕ, zero, suc, ◌≡◌, refl, sym, ap, ◌∙◌, Bool, true, false, ◌||◌, Option, none, some, [], ◌∷◌, ◌++◌,
  any, ◌==◌, drop, take, Bool-cases, Option-cases, inl, inr, arith, Chars, rfind, starts_with,
  ==_iff,
}
use dewflow.Citation.Markers.{is_nil, span}
use dewflow.Citation.Streaming.{at_end, partial_number, is_partial}
use dewflow.Citation.Cuts.{starts_bracket, open_number, is_open, IsClear}

abbrev has : ℕ → Chars → Bool
has d = any (λ c. c == d)

bracket_starts : (text : Chars) → starts_with (91 ∷ []) text ≡ starts_bracket text
unfolding starts_with
bracket_starts [] = refl
bracket_starts (c ∷ text) = ground arith

pub take-drop : (n : ℕ) (text : Chars) → take n text ++ drop n text ≡ text
take-drop zero text = refl
take-drop (suc n) [] = refl
take-drop (suc n) (c ∷ text) = ap (λ l. c ∷ l) (take-drop n text)

has_some : (d : ℕ) (text : Chars) → has d text ≡ true → is_nil text ≡ false
has_some d [] h = cc
has_some d (c ∷ text) h = refl

or_true : (a b : Bool) → b ≡ true → a || b ≡ true
or_true true b h = refl
or_true false b h = h

nil_ends : (d : ℕ) (text : Chars) → is_nil text ≡ true → (at_end text ≡ true) × (has d text ≡ false)
nil_ends d [] h = (refl, refl)
nil_ends d (c ∷ text) h = cc

-- Where the last bracket stands.
pub rfind-bracket :
    (text : Chars) (i : ℕ)
    → rfind (91 ∷ []) text ≡ some i
    → (starts_bracket (drop i text) ≡ true) × (has 91 text ≡ true)
unfolding rfind
rfind-bracket [] i e = cc
rfind-bracket (c ∷ text) i e = elim (Option-cases (rfind (91 ∷ []) text)) [
  | inl absent ↦
      let first : (c == 91 ≡ true) × (i ≡ 0) = ground (arith, bracket_starts (c ∷ text)) in
      rw (first.1, first.0) (refl, refl)
  | inr (j, later) ↦
      let place : i ≡ suc j = ground (arith, bracket_starts (c ∷ text)) in
      let rest = rfind-bracket text j later in rw place (rest.0, ground (arith, rest.1))
]

no_last_bracket : (text : Chars) → rfind (91 ∷ []) text ≡ none → has 91 text ≡ false
unfolding rfind
no_last_bracket [] e = refl
no_last_bracket (c ∷ text) e = ground (arith, no_last_bracket text, bracket_starts (c ∷ text))

module _ (is_digit : ℕ → Bool) (bracket_is_none : is_digit 91 ≡ false) where
  -- A cut before a bracket is clear.
  pub bracket-IsClear :
      (text more : Chars) → starts_bracket more ≡ true → IsClear is_digit text more
  bracket-IsClear [] more h = tt
  bracket-IsClear (c ∷ text) more h = (ground arith, bracket-IsClear text more h)

  digit_ne :
      (d c : ℕ) (text : Chars)
      → is_digit d ≡ false
      → is_digit c ≡ true
      → has d text ≡ has d (c ∷ text)
  digit_ne d c text n y = elim (Bool-cases (c == d)) [
    | inl same ↦ absurd (cc (sym y ∙ ap is_digit ((==_iff c d).0 same) ∙ n))
    | inr other ↦ rw other refl
  ]

  has-span : (d : ℕ) (text : Chars) → is_digit d ≡ false → has d (span is_digit text).1 ≡ has d text
  unfolding span
  has-span d [] h = refl
  has-span d (c ∷ text) h = elim (Bool-cases (is_digit c)) [
    | inl digit ↦ rw digit (has-span d text h ∙ digit_ne d c text h digit)
    | inr other ↦ rw other refl
  ]

  number_ends : (rest : Chars) → has 91 rest ≡ true → open_number is_digit rest ≡ false
  number_ends [] h = cc
  number_ends (c ∷ rest) h =
      ground (arith, has-span 91 rest bracket_is_none, has_some 91 (span is_digit rest).1)

  -- A bracket further on ends every marker that may begin here.
  not_open : (c : ℕ) (text : Chars) → has 91 text ≡ true → is_open is_digit (c ∷ text) ≡ false
  unfolding is_open
  not_open c [] h = cc
  not_open c (k ∷ text) h =
      ground (arith, has-span 91 text bracket_is_none, number_ends (span is_digit text).1)

  -- Is a marker open at the end of the text?
  abbrev pub open_from : Option ℕ → Chars → Bool
  open_from none text = false
  open_from (some i) text = is_open is_digit (drop i text)

  abbrev pub open_tail : Chars → Bool
  open_tail text = open_from (rfind (91 ∷ []) text) text

  no_bracket :
      (c : ℕ) (text : Chars) → has 91 (c ∷ text) ≡ false → is_open is_digit (c ∷ text) ≡ false
  unfolding is_open
  no_bracket c [] h = ground arith
  no_bracket c (k ∷ text) h = ground arith

  tail_step :
      (c : ℕ) (text : Chars)
      → open_tail (c ∷ text) ≡ false
      → (is_open is_digit (c ∷ text) ≡ false) × (open_tail text ≡ false)
  unfolding rfind
  tail_step c text h = elim (Option-cases (rfind (91 ∷ []) text)) [
    | inl absent ↦ (
      elim (Bool-cases (c == 91)) [
        | inl here ↦ rw (absent, bracket_starts (c ∷ text), here) at h
        | inr other ↦ no_bracket c text (rw (other, no_last_bracket text absent) refl)
      ],
      rw absent refl,
    )
    | inr (j, later) ↦ (not_open c text (rfind-bracket text j later).1, rw later (rw later at h))
  ]

  -- No marker stands across the end of a text that leaves none open.
  pub tail-IsClear : (text more : Chars) → open_tail text ≡ false → IsClear is_digit text more
  tail-IsClear [] more h = tt
  tail-IsClear (c ∷ text) more h =
      (rw (tail_step c text h).0 refl, tail-IsClear text more (tail_step c text h).1)

  module _ (close_is_none : is_digit 93 ≡ false) where
    number_partial :
        (rest : Chars)
        → open_number is_digit rest ≡ true
        → (partial_number is_digit rest ≡ true) × (has 93 rest ≡ false)
    number_partial [] h = (refl, refl)
    number_partial (c ∷ rest) h =
        let dot : (c ≡ 46) × (is_nil (span is_digit rest).1 ≡ true) = ground arith in
        let ends = nil_ends 93 (span is_digit rest).1 dot.1 in
        (
          or_true (at_end (c ∷ rest)) _ (rw (dot.0, ends.0) refl),
          rw dot.0 (sym (has-span 93 rest close_is_none) ∙ ends.1),
        )

    -- A marker that is open, but for the bracket alone, is what the regular expression finds.
    pub open_partial :
        (c k : ℕ) (text : Chars)
        → is_open is_digit (c ∷ k ∷ text) ≡ true
        → (is_partial is_digit (c ∷ k ∷ text) ≡ true) × (has 93 (c ∷ k ∷ text) ≡ false)
    unfolding is_open is_partial
    open_partial c k text h =
        ground (arith, number_partial (span is_digit text).1, has-span 93 text close_is_none)
