-- ===== src/Bun/Scan.antt =====
-- lib/scan.mjs, the part on texts: `maskLiteralsAndComments` and `locate`.
pub mod Mask
pub mod Locate
use atdd_extensions.Base.{
  ℕ, zero, suc, ◌+◌, ◌-◌, Bool, true, false, ◌&&◌, ◌||◌, List, [], ◌∷◌, Option, none, some, ltb,
  ◌==◌, if◌then◌else◌, Text, is_char, length, get_elem?, take, drop, slice, trim,
}
use atdd_extensions.Base.Paths.{split_on}

-- `blank(from, to)`, which writes to `out` below its length only.
unfoldable pub blank_range : ℕ → ℕ → Text → Text
blank_range from to [] = []
blank_range zero zero (c ∷ out) = c ∷ out
blank_range zero (suc to) (c ∷ out) = (if c == b'\n' then c else b' ') ∷ blank_range zero to out
blank_range (suc from) zero (c ∷ out) = c ∷ out
blank_range (suc from) (suc to) (c ∷ out) = c ∷ blank_range from to out

-- The first newline of a text that begins at offset `j`.
unfoldable pub newline_from : ℕ → Text → Option ℕ
newline_from j [] = none
newline_from j (c ∷ cs) = elim (c == b'\n') [ true ↦ some j | false ↦ newline_from (suc j) cs ]

abbrev pub or_length : Text → Option ℕ → ℕ
or_length text none = length text
or_length text (some j) = j

-- `while (j < n && text[j] !== "\n") j++`
unfoldable pub comment_line_end : Text → ℕ → ℕ
unfolding newline_from
comment_line_end text i = or_length text (newline_from i (drop i text))

-- `indexOf("*/")` and two more, in a text that begins at offset `j`.
unfoldable pub block_from : ℕ → Text → Option ℕ
block_from j [] = none
block_from j (c ∷ []) = none
block_from j (c ∷ d ∷ cs) = elim (c == b'*' && d == b'/') [
  | true ↦ some (j + 2)
  | false ↦ block_from (suc j) (d ∷ cs)
]

unfoldable pub block_end : Text → ℕ → ℕ
unfolding block_from
block_end text i = or_length text (block_from (i + 2) (drop (i + 2) text))

-- The loop over a literal's characters, which stand from offset `j` on.
unfoldable pub literal_from : ℕ → ℕ → Text → ℕ
literal_from quote j [] = j
literal_from quote j (c ∷ []) = if c == b'\\' then j + 2 else j + 1
literal_from quote j (c ∷ d ∷ cs) = elim (c == b'\\') [
  | true ↦ literal_from quote (j + 2) cs
  | false ↦ elim (c == quote) [ true ↦ j + 1 | false ↦ literal_from quote (suc j) (d ∷ cs) ]
]

unfoldable pub literal_end : ℕ → Text → ℕ → ℕ
unfolding literal_from
literal_end quote text i = literal_from quote (suc i) (drop (suc i) text)

-- `i` and `out`.
pub record Masking : Type 0 where
  pub i : ℕ
  pub out : Text

abbrev pub is_quote : ℕ → Bool
is_quote ch = ch == b'"' || ch == b'\'' || ch == b'`'

-- `blank(from, to); i = j`
abbrev pub blank_to : ℕ → ℕ → ℕ → Masking → Masking
blank_to from to j m = record { i = j; out = blank_range from to m.out }

-- The literal that `quote` opens: all but its quotes is blanked.
abbrev pub blank_literal : Text → ℕ → Masking → Masking
blank_literal text quote m =
    let j = literal_end quote text m.i in
    blank_to (suc m.i) (if ltb (j - 1) (suc m.i) then suc m.i else j - 1) j m

abbrev pub skip_one : Masking → Masking
skip_one m = record m { i = suc m.i }

-- One round of the loop, at the character `ch` with `next` behind it.
unfoldable pub mask_step : Text → ℕ → Option ℕ → Masking → Masking
unfolding blank_range comment_line_end block_end literal_end
mask_step text ch next m =
    if ch == b'/' && is_char b'/' next
    then blank_to m.i (comment_line_end text m.i) (comment_line_end text m.i) m
    else if ch == b'/' && is_char b'*' next
    then blank_to m.i (block_end text m.i) (block_end text m.i) m
    else if is_quote ch
    then blank_literal text ch m
    else skip_one m

-- `while (i < n)`
unfoldable pub mask_rounds : ℕ → Text → Masking → Text
unfolding mask_step
mask_rounds zero text m = m.out
mask_rounds (suc fuel) text m = elim (get_elem? text m.i) [
  | none ↦ m.out
  | some ch ↦ mask_rounds fuel text (mask_step text ch (get_elem? text (suc m.i)) m)
]

unfoldable pub mask_literals_and_comments : Text → Text
unfolding mask_rounds
mask_literals_and_comments text = mask_rounds (length text) text (record { i = 0; out = text })

-- `lastIndexOf("\n") + 1` of a text that begins at offset `i`, or the given start.
unfoldable pub line_start : ℕ → ℕ → Text → ℕ
line_start start i [] = start
line_start start i (c ∷ cs) = line_start (if c == b'\n' then suc i else start) (suc i) cs

pub record Location : Type 0 where
  pub line : ℕ
  pub col : ℕ
  pub source_line : Text

unfoldable pub locate : Text → ℕ → Location
unfolding line_start newline_from split_on
locate text offset =
    let start = line_start 0 0 (take offset text) in
    record {
      line = length (split_on b'\n' (take offset text));
      col = offset - start + 1;
      source_line =
          trim (slice text start (or_length text (newline_from offset (drop offset text))));
    }
