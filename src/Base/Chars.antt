-- ===== src/Base/Chars.antt =====
-- JavaScript strings as lists of UTF-16 code units, and the character classes of its regular
-- expressions.
use Prim.Native.Nat.{ℕ, zero, suc, ◌+◌, ◌/◌, ◌%◌}
use Prim.Native.Char.{code}
use Prim.Native.String.{String}
use mathlib.Core.Bool.{Bool, true, false, ◌||◌, ◌&&◌}
use mathlib.Core.List.{List, [], ◌∷◌, reverse}
use mathlib.Core.Option.{Option, none, some}
use atdd_extensions.Base.Tests.{leb, ◌==◌, if◌then◌else◌}

abbrev pub Text : Type 0
Text = List ℕ

-- The code units of an ASCII literal.
abbrev pub codes : String → Text
codes String.[] = []
codes (String.◌∷◌ c s) = code c ∷ codes s

-- A character of a class given by its members.
abbrev pub one_of : Text → ℕ → Bool
one_of [] c = false
one_of (x ∷ xs) c = c == x || one_of xs c

-- `s === t`
abbrev pub text_eq : Text → Text → Bool
text_eq [] [] = true
text_eq (x ∷ xs) (y ∷ ys) = x == y && text_eq xs ys
text_eq _ _ = false

abbrev pub within : ℕ → ℕ → ℕ → Bool
within lo hi c = leb lo c && leb c hi

-- `\s`, and what `trim` strips.
unfoldable pub is_space : ℕ → Bool
is_space c =
    c == 32
    || within 9 13 c
    || c == 0xa0
    || c == 0x1680
    || within 0x2000 0x200a c
    || c == 0x2028
    || c == 0x2029
    || c == 0x202f
    || c == 0x205f
    || c == 0x3000
    || c == 0xfeff

-- `\w`
unfoldable pub is_word : ℕ → Bool
is_word c = within b'a' b'z' c || within b'A' b'Z' c || within b'0' b'9' c || c == b'_'

-- `[\w$]`
abbrev pub is_ident : ℕ → Bool
is_ident c = is_word c || c == b'$'

-- `text[i] === "x"`, where reading out of range gives `undefined`.
abbrev pub is_char : ℕ → Option ℕ → Bool
is_char x none = false
is_char x (some c) = c == x

-- A class tested at a place that may lie outside the text.
abbrev pub holds : (ℕ → Bool) → Option ℕ → Bool
holds p none = false
holds p (some c) = p c

-- `words.has(t)`, for a set of texts.
abbrev pub has_text : List Text → Text → Bool
has_text [] t = false
has_text (w ∷ ws) t = text_eq w t || has_text ws t

abbrev pub drop_while : (ℕ → Bool) → Text → Text
drop_while p [] = []
drop_while p (c ∷ cs) = if p c then drop_while p cs else c ∷ cs

-- `text.trim()`
abbrev pub trim : Text → Text
trim t = reverse (drop_while is_space (reverse (drop_while is_space t)))

-- The digits of a number, last first, with fuel; a number has at most `n + 1` of them.
abbrev pub decimal_digits : ℕ → ℕ → Text
decimal_digits zero n = []
decimal_digits (suc fuel) n =
    let rest = decimal_digits fuel (n / 10) in (b'0' + n % 10) ∷ (if leb n 9 then [] else rest)

-- A number as it is joined to a text.
abbrev pub decimal : ℕ → Text
decimal n = reverse (decimal_digits (suc n) n)
