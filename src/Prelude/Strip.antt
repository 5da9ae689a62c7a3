-- ===== src/Prelude/Strip.antt =====
-- `str.strip` and the emptiness tests of Python on texts.
use Prim.Native.Nat.{ℕ}
use Prim.Native.Char.{Char, char}
use Prim.Native.String.{String, [], ◌∷◌}
use mathlib.Core.Bool.{Bool, true, false, ◌&&◌, ◌||◌}
use eduvijna_paper_evaluatio.Prelude.Tests.{leb, ◌==◌, if◌then◌else◌}

-- `str.isspace` at one code point
unfoldable pub is_space : ℕ → Bool
is_space n =
    (leb 9 n && leb n 13)
    || (leb 28 n && leb n 32)
    || n == 133
    || n == 160
    || n == 5760
    || (leb 8192 n && leb n 8202)
    || n == 8232
    || n == 8233
    || n == 8239
    || n == 8287
    || n == 12288

unfoldable pub is_space_char : Char → Bool
unfolding is_space
is_space_char (char n p) = is_space n

-- `not s`
unfoldable pub is_empty : String → Bool
is_empty [] = true
is_empty (c ∷ s) = false

unfoldable pub lstrip : String → String
unfolding is_space_char
lstrip [] = []
lstrip (c ∷ s) = let rest = lstrip s in if is_space_char c then rest else c ∷ s

unfoldable pub rstrip : String → String
unfolding is_space_char is_empty
rstrip [] = []
rstrip (c ∷ s) = let rest = rstrip s in if is_space_char c && is_empty rest then [] else c ∷ rest

unfoldable pub strip : String → String
unfolding lstrip rstrip
strip s = rstrip (lstrip s)

-- `not s or not s.strip()`
unfoldable pub is_blank : String → Bool
unfolding is_empty strip
is_blank s = is_empty s || is_empty (strip s)
