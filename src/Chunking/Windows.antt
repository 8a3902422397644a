-- ===== src/Chunking/Windows.antt =====
-- The windows of `_split_fixed_window` (backend/services/chunking_service.py): the loop moves on, and
-- leaves no gap.
use dewflow.Base.{
  ℕ, zero, suc, ◌+◌, ◌-◌, ◌/◌, min, ◌≤◌, ◌<◌, ◌≡◌, refl, Bool, true, false, ◌&&◌, Option, none,
  some, [], ◌∷◌, any, length, length-take, drop, ltb, ltb→lt, leb, Chars, rfind, Bool-cases,
  Option-cases, inl, inr, arith, All,
}
use dewflow.Chunking.Service.{
  ChunkingService, later, boundary, slice, cut_end, window_end, next_start, windows,
}

rfind-lt : (part text : Chars) (i : ℕ) → rfind part text ≡ some i → i < length text
unfolding rfind
rfind-lt part [] i e = cc
rfind-lt part (c ∷ text) i e = elim (Option-cases (rfind part text)) [
  | inl absent ↦ ground arith
  | inr (j, found) ↦ ground (arith, rfind-lt part text j found)
]

-- A position in a text, if there is one.
abbrev IsIn : Chars → Option ℕ → Type 0
IsIn text none = Unit
IsIn text (some i) = i < length text

rfind-IsIn : (part text : Chars) → IsIn text (rfind part text)
rfind-IsIn part text = elim (Option-cases (rfind part text)) [
  | inl absent ↦ rw absent tt
  | inr (i, found) ↦ rw found (rfind-lt part text i found)
]

later-IsIn : (text : Chars) (a b : Option ℕ) → IsIn text a → IsIn text b → IsIn text (later a b)
later-IsIn text none b h k = k
later-IsIn text (some a) none h k = h
later-IsIn text (some a) (some b) h k = omega arith

boundary-IsIn : (window : Chars) → IsIn window (boundary window)
unfolding boundary
boundary-IsIn window = later-IsIn window _ _ (rfind-IsIn (10 ∷ 10 ∷ []) window) (
    later-IsIn window _ _ (rfind-IsIn (10 ∷ []) window) (
      later-IsIn window _ _ (rfind-IsIn (0x3002 ∷ []) window)
        (later-IsIn window _ _ (rfind-IsIn (46 ∷ []) window) (rfind-IsIn (32 ∷ []) window))))

cut_end-bounds :
    (half start end : ℕ) (text : Chars) (b : Option ℕ)
    → IsIn (slice start end text) b
    → start < end
    → (start < cut_end half start end b) × (cut_end half start end b ≤ end)
cut_end-bounds half start end text none h lt = (lt, omega arith)
cut_end-bounds half start end text (some i) h lt =
    ground (arith, length-take (end - start) (drop start text))

abbrev pub covers : ℕ → ℕ × ℕ → Bool
covers p (start, end) = leb start p && ltb p end

-- A window is not empty, ends in the text and is no longer than the size.
abbrev pub IsWindow : ChunkingService → Chars → ℕ × ℕ → Type 0
IsWindow self text (start, end) =
    (start < end) × (end ≤ length text) × (end ≤ start + self.chunk_size)

module _ (self : ChunkingService) (positive : 1 ≤ self.chunk_size) (text : Chars) where
  window_end-IsWindow :
      (start : ℕ) → start < length text → IsWindow self text (start, window_end self text start)
  unfolding window_end
  window_end-IsWindow start lt = ground (
    arith,
    cut_end-bounds (self.chunk_size / 2) start (min (start + self.chunk_size) (length text)) text
        (boundary (slice start (min (start + self.chunk_size) (length text)) text))
        (boundary-IsIn (slice start (min (start + self.chunk_size) (length text)) text)),
  )

  next_start-bounds :
      (start end : ℕ)
      → start < end
      → (start < next_start self start end) × (next_start self start end ≤ end)
  unfolding next_start
  next_start-bounds start end lt = ground arith

  pub windows-IsWindow : (fuel start : ℕ) → All (IsWindow self text) (windows self text fuel start)
  unfolding windows
  windows-IsWindow zero start = tt
  windows-IsWindow (suc fuel) start = elim (Bool-cases (ltb start (length text))) [
    | inl inside ↦ elim (Bool-cases (leb (length text) (window_end self text start))) [
      | inl last ↦
          rw (inside, last) (window_end-IsWindow start (ltb→lt start (length text) inside), tt)
      | inr more ↦
          rw (inside, more)
            (
              window_end-IsWindow start (ltb→lt start (length text) inside),
              windows-IsWindow fuel (next_start self start (window_end self text start)),
            )
    ]
    | inr over ↦ rw over tt
  ]

  at_most : (a b : ℕ) → a ≤ b → leb a b ≡ true
  at_most a b h = ground arith

  windows-covers :
      (fuel start p : ℕ)
      → length text ≤ fuel + start
      → start ≤ p
      → p < length text
      → any (covers p) (windows self text fuel start) ≡ true
  unfolding windows
  windows-covers zero start p f s t = absurd (omega arith)
  windows-covers (suc fuel) start p f s t =
      let inside : ltb start (length text) ≡ true = ground arith in
      let (lt, within, size) = window_end-IsWindow start (omega arith) in
      elim (Bool-cases (ltb p (window_end self text start))) [
        | inl here ↦ rw (inside, at_most start p s, here) refl
        | inr later ↦
            let more : leb (length text) (window_end self text start) ≡ false = ground arith in
            let next = next_start-bounds start (window_end self text start) lt in
            rw (inside, more, at_most start p s, later)
              (windows-covers fuel (next_start self start (window_end self text start)) p
                (omega arith) (ground arith) t)
      ]

-- The loop ends, and with the length of the text as fuel it ends because the text does: every position is
-- in a window. No window is empty, ends after the text or is longer than the size, if the size is positive.
pub windows_lem :
    (self : ChunkingService) (text : Chars)
    → 1 ≤ self.chunk_size
    → ((p : ℕ) → p < length text → any (covers p) (windows self text (length text) 0) ≡ true)
      × All (IsWindow self text) (windows self text (length text) 0)
windows_lem self text positive = (
  λ p lt. windows-covers self positive text (length text) 0 p (omega arith) (omega arith) lt,
  windows-IsWindow self positive text (length text) 0,
)
