-- ===== src/Base/Characters.antt =====
-- Texts as lists of code points, for code that cuts them: what it uses of Python's `str`.
use Prim.Native.Nat.{ℕ, zero, suc, ◌≤◌}
use Prim.Native.Char.{code}
use Prim.Native.String.{String}
use mathlib.Core.Bool.{Bool, true, false, ◌&&◌}
use mathlib.Core.Option.{Option, none, some}
use mathlib.Core.List.{List, [], ◌∷◌, ◌++◌}
use native.Mathlib.Omega.{arith}
use dewflow.Base.Tests.{◌==◌, if◌then◌else◌}
use dewflow.Base.Lists.{length}
use dewflow.Base.Text.{is_space}

abbrev pub Chars : Type 0
Chars = List ℕ

-- The code points of a literal.
abbrev pub codes : String → Chars
codes String.[] = []
codes (String.◌∷◌ c s) = code c ∷ codes s

-- `text[n:]`
abbrev pub drop {ℓ} : {A : Type ℓ} → ℕ → List A → List A
drop zero xs = xs
drop (suc n) [] = []
drop (suc n) (x ∷ xs) = drop n xs

abbrev pub chars_eq : Chars → Chars → Bool
chars_eq [] [] = true
chars_eq [] (y ∷ ys) = false
chars_eq (x ∷ xs) [] = false
chars_eq (x ∷ xs) (y ∷ ys) = (x == y) && chars_eq xs ys

-- `text.startswith(part)`
unfoldable pub starts_with : Chars → Chars → Bool
starts_with [] text = true
starts_with (p ∷ part) [] = false
starts_with (p ∷ part) (c ∷ text) = (p == c) && starts_with part text

abbrev last_of : Bool → Option ℕ → Option ℕ
last_of here (some i) = some (suc i)
last_of true none = some 0
last_of false none = none

-- `text.rfind(part)` of a part that is not empty, `none` for -1
unfoldable pub rfind : Chars → Chars → Option ℕ
unfolding starts_with
rfind part [] = none
rfind part (c ∷ text) = last_of (starts_with part (c ∷ text)) (rfind part text)

-- The words before a character: it opens a word, or stands before the first one.
abbrev with_char : Bool → Bool → ℕ → List Chars → List Chars
with_char true next_blank c ws = ws
with_char false true c ws = (c ∷ []) ∷ ws
with_char false false c [] = (c ∷ []) ∷ []
with_char false false c (w ∷ ws) = (c ∷ w) ∷ ws

abbrev opens_blank : Chars → Bool
opens_blank [] = true
opens_blank (c ∷ text) = is_space c

-- `text.split()`
unfoldable pub words : Chars → List Chars
words [] = []
words (c ∷ text) = with_char (is_space c) (opens_blank text) c (words text)

-- `separator.join(parts)`
unfoldable pub join : Chars → List Chars → Chars
join separator [] = []
join separator (p ∷ []) = p
join separator (p ∷ q ∷ parts) = p ++ separator ++ join separator (q ∷ parts)

-- `text.lstrip()`
unfoldable pub lstrip : Chars → Chars
lstrip [] = []
lstrip (c ∷ text) = if is_space c then lstrip text else c ∷ text

abbrev kept_char : Bool → ℕ → Chars → Chars
kept_char true c [] = []
kept_char blank c text = c ∷ text

-- `text.rstrip()`
unfoldable pub rstrip : Chars → Chars
rstrip [] = []
rstrip (c ∷ text) = kept_char (is_space c) c (rstrip text)

-- `text.strip()`
unfoldable pub strip : Chars → Chars
unfolding lstrip rstrip
strip text = rstrip (lstrip text)

length-lstrip : (text : Chars) → length (lstrip text) ≤ length text
unfolding lstrip
length-lstrip [] = omega arith
length-lstrip (c ∷ text) = ground (arith, length-lstrip text)

kept_char-length :
    (b : Bool) (c : ℕ) (text kept : Chars)
    → length kept ≤ length text
    → length (kept_char b c kept) ≤ suc (length text)
kept_char-length true c text [] h = omega arith
kept_char-length true c text (d ∷ kept) h = omega (arith, h)
kept_char-length false c text kept h = omega (arith, h)

length-rstrip : (text : Chars) → length (rstrip text) ≤ length text
unfolding rstrip
length-rstrip [] = omega arith
length-rstrip (c ∷ text) = kept_char-length (is_space c) c text (rstrip text) (length-rstrip text)

pub length-strip : (text : Chars) → length (strip text) ≤ length text
unfolding strip
length-strip text = omega (arith, length-rstrip (lstrip text), length-lstrip text)
