-- ===== src/Prelude/Text.antt =====
-- Native texts: comparison, concatenation, and membership in a fixed set of texts.
use Prim.Native.Nat.{ℕ, ◌+◌}
use Prim.Native.Char.{code}
use Prim.Native.String.{String, ◌++◌}
use anima.Prelude.Tests.{leb, if◌then◌else◌, ◌==◌ as nat_eq}
use mathlib.Core.Bool.{Bool, true, false, ◌||◌, ◌&&◌}
use mathlib.Core.List.{List, [], ◌∷◌}
use mathlib.Core.Path.{◌≡◌}
use mathlib.Core.Logic.{◌≢◌}
use native.Mathlib.Omega.{arith}
use text.Mathlib.Text.{◌==◌}
use text.Mathlib.TextEquality.{eq_iff}

-- `a == b` on texts.
abbrev pub str_eq : String → String → Bool
str_eq a b = a == b

-- `a + b`, or two neighbouring parts of an f-string.
abbrev pub concat : String → String → String
concat a b = a ++ b

-- `s in {…}` for a set of texts.
unfoldable pub contains : List String → String → Bool
contains [] s = false
contains (x ∷ xs) s = x == s || contains xs s

-- The code points of a text.
abbrev pub codes : String → List ℕ
codes String.[] = []
codes (String.◌∷◌ c s) = code c ∷ codes s

-- `s.lower()` on code points, for the letters of ASCII.
unfoldable pub lower : List ℕ → List ℕ
lower [] = []
lower (c ∷ cs) = (if leb b'A' c && leb c b'Z' then c + 32 else c) ∷ lower cs

-- `c.isspace()`, on the code points that `str.strip` removes.
unfoldable pub is_space : ℕ → Bool
is_space c =
    (leb 9 c && leb c 13)
    || (leb 28 c && leb c 32)
    || nat_eq c 133
    || nat_eq c 160
    || nat_eq c 5760
    || (leb 8192 c && leb c 8202)
    || nat_eq c 8232
    || nat_eq c 8233
    || nat_eq c 8239
    || nat_eq c 8287
    || nat_eq c 12288

unfoldable pub strip_left : List ℕ → List ℕ
unfolding is_space
strip_left [] = []
strip_left (c ∷ cs) = if is_space c then strip_left cs else c ∷ cs

all_space : List ℕ → Bool
unfolding is_space
all_space [] = true
all_space (c ∷ cs) = is_space c && all_space cs

unfoldable pub strip_right : List ℕ → List ℕ
unfolding all_space
strip_right [] = []
strip_right (c ∷ cs) = if all_space (c ∷ cs) then [] else c ∷ strip_right cs

-- `s.strip()`
unfoldable pub strip : List ℕ → List ℕ
unfolding strip_left strip_right
strip cs = strip_right (strip_left cs)

unfoldable pub codes_eq : List ℕ → List ℕ → Bool
codes_eq [] [] = true
codes_eq (a ∷ as') (b ∷ bs) = nat_eq a b && codes_eq as' bs
codes_eq _ _ = false

-- `s in {…}` where `s` is given by its code points.
unfoldable pub contains_codes : List String → List ℕ → Bool
unfolding codes_eq
contains_codes [] s = false
contains_codes (x ∷ xs) s = codes_eq (codes x) s || contains_codes xs s

pub eq_of_str_eq : {a b : String} → str_eq a b ≡ true → a ≡ b
eq_of_str_eq {a} {b} h = (eq_iff a b).0 h

pub ne_of_str_eq : {a b : String} → str_eq a b ≡ false → a ≢ b
ne_of_str_eq {a} {b} h same = ground (arith, h, (eq_iff a b).1 same)
