-- ===== src/Convex/Interlocking/Text.antt =====
-- `maskComments`, `lineOfIndex` and `lineAt`.
pub mod Laws
use atdd_extensions.Base.{
  ℕ, zero, suc, ◌-◌, Bool, true, false, ◌&&◌, ◌||◌, List, [], ◌∷◌, leb, ◌==◌, if◌then◌else◌, Text,
  trim, length, get_or, take,
}
use atdd_extensions.Base.Paths.{split_on}
use atdd_extensions.Regex.{split_lines}

-- `state`; the three kinds of literals differ by their quote.
pub data Reading : Type 0 where
  code line_comment block_comment : Reading
  literal_of : ℕ → Reading

abbrev pub is_quote_char : ℕ → Bool
is_quote_char c = c == b'\'' || c == b'"' || c == b'`'

abbrev pub blank_char : ℕ → ℕ
blank_char c = if c == b'\n' then c else b' '

-- The loop of `maskComments`. What it writes to `out` at `i` and `i + 1` is put out in turn.
unfoldable pub mask_reading : Reading → Text → Text
mask_reading state [] = []
mask_reading code (c ∷ []) = c ∷ []
mask_reading code (c ∷ d ∷ cs) = elim (c == b'/' && d == b'/') [
  | true ↦ b' ' ∷ b' ' ∷ mask_reading line_comment cs
  | false ↦ elim (c == b'/' && d == b'*') [
    | true ↦ b' ' ∷ b' ' ∷ mask_reading block_comment cs
    | false ↦ elim (is_quote_char c) [
      | true ↦ c ∷ mask_reading (literal_of c) (d ∷ cs)
      | false ↦ c ∷ mask_reading code (d ∷ cs)
    ]
  ]
]
mask_reading line_comment (c ∷ cs) = elim (c == b'\n') [
  | true ↦ c ∷ mask_reading code cs
  | false ↦ b' ' ∷ mask_reading line_comment cs
]
mask_reading block_comment (c ∷ []) = blank_char c ∷ []
mask_reading block_comment (c ∷ d ∷ cs) = elim (c == b'*' && d == b'/') [
  | true ↦ b' ' ∷ b' ' ∷ mask_reading code cs
  | false ↦ blank_char c ∷ mask_reading block_comment (d ∷ cs)
]
mask_reading (literal_of q) (c ∷ []) = c ∷ []
mask_reading (literal_of q) (c ∷ d ∷ cs) = elim (c == b'\\') [
  | true ↦ c ∷ d ∷ mask_reading (literal_of q) cs
  | false ↦ elim (c == q) [
    | true ↦ c ∷ mask_reading code (d ∷ cs)
    | false ↦ c ∷ mask_reading (literal_of q) (d ∷ cs)
  ]
]

unfoldable pub mask_comments : Text → Text
unfolding mask_reading
mask_comments text = mask_reading code text

unfoldable pub line_of_index : Text → ℕ → ℕ
unfolding split_on
line_of_index text idx = length (split_on b'\n' (take idx text))

unfoldable pub line_at : Text → ℕ → Text
unfolding split_lines
line_at text lineno =
    if leb 1 lineno && leb lineno (length (split_lines text))
    then trim (get_or (split_lines text) (lineno - 1) [])
    else []
