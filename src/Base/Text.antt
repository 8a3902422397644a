-- ===== src/Base/Text.antt =====
-- Blank texts. `is_space` lists the code points that Python's `str.strip` removes;
-- PostgreSQL's `btrim` removes the space alone.
use Prim.Native.Nat.{ℕ}
use Prim.Native.Char.{code}
use Prim.Native.String.{String}
use mathlib.Core.Path.{◌≡◌, refl}
use mathlib.Core.Bool.{Bool, true, false, ◌&&◌, ◌||◌}
use native.Mathlib.Omega.{arith}
use dewflow.Base.Tests.{leb, ◌==◌}

unfoldable pub is_space : ℕ → Bool
is_space c =
    leb 9 c && leb c 13
    || leb 28 c && leb c 32
    || c == 0x85
    || c == 0xa0
    || c == 0x1680
    || leb 0x2000 c && leb c 0x200a
    || c == 0x2028
    || c == 0x2029
    || c == 0x202f
    || c == 0x205f
    || c == 0x3000

-- `not text.strip()`
unfoldable pub is_blank : String → Bool
unfolding is_space
is_blank String.[] = true
is_blank (String.◌∷◌ c s) = is_space (code c) && is_blank s

-- `length(btrim(text)) = 0`
unfoldable pub is_blank_sql : String → Bool
is_blank_sql String.[] = true
is_blank_sql (String.◌∷◌ c s) = (code c == 32) && is_blank_sql s

-- A text of spaces is blank for Python, so a text that Python keeps, the database keeps.
pub is_blank_sql-is_blank : (s : String) → is_blank s ≡ false → is_blank_sql s ≡ false
unfolding is_blank is_blank_sql
is_blank_sql-is_blank String.[] h = h
is_blank_sql-is_blank (String.◌∷◌ c s) h = ground (arith, is_blank_sql-is_blank s)

-- `text == ""`
unfoldable pub is_empty : String → Bool
is_empty String.[] = true
is_empty (String.◌∷◌ c s) = false

pub is_empty-is_blank_sql : (s : String) → is_blank_sql s ≡ false → is_empty s ≡ false
unfolding is_blank_sql is_empty
is_empty-is_blank_sql String.[] h = h
is_empty-is_blank_sql (String.◌∷◌ c s) h = refl
