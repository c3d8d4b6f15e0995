-- ===== src/Convex/Complexity/Metrics.antt =====
-- `bodyLoc`, `cyclomatic`, `classifyBrace` and `analyzeBlocks`: the numbers that the checks compare.
pub mod Nesting
pub mod Counts
use atdd_extensions.Base.{
  ℕ, zero, suc, ◌+◌, ◌-◌, Bool, true, false, not, ◌&&◌, ◌||◌, List, [], ◌∷◌, Option, none, some,
  ltb, ◌==◌, if◌then◌else◌, String, Text, codes, one_of, text_eq, has_text, is_space, is_char,
  head?, trim, get_elem?,
}
use atdd_extensions.Regex.{Regex, class, not_ahead, seq, whole_word, literal, count_matches}
use atdd_extensions.Convex.Complexity.Brackets.{match_paren_back}
use atdd_extensions.Convex.Complexity.Words.{char_before, skip_back, Word, prev_word}
use atdd_extensions.Convex.Complexity.Functions.{Fn}

-- `fn.maskedLines[ln] && fn.maskedLines[ln].trim().length > 0`
abbrev pub is_code_line : List Text → ℕ → Bool
is_code_line masked_lines ln = elim (get_elem? masked_lines ln) [
  | none ↦ false
  | some l ↦ elim (trim l) [ [] ↦ false | _ ∷ _ ↦ true ]
]

-- `for (let ln = …; …; ln++)`, with the rounds that are left.
unfoldable pub loc_loop : ℕ → List Text → ℕ → ℕ → ℕ
loc_loop zero masked_lines ln loc = loc
loc_loop (suc rounds) masked_lines ln loc =
    loc_loop rounds masked_lines (suc ln) (if is_code_line masked_lines ln then suc loc else loc)

unfoldable pub body_loc : Fn → ℕ
unfolding loc_loop
body_loc fn =
    loc_loop (fn.body_close_line0 - (fn.body_open_line0 + 1)) fn.masked_lines
      (fn.body_open_line0 + 1) 0

-- `/\?(?![.:?])/g`
unfoldable pub question : Regex
question = seq (class (λ c. c == b'?')) (not_ahead (one_of (codes ".:?")))

-- `b.replace(/\?\?/g, "  ")`
unfoldable pub replace_nullish : Text → Text
replace_nullish [] = []
replace_nullish (c ∷ []) = c ∷ []
replace_nullish (c ∷ d ∷ cs) = elim (c == b'?' && d == b'?') [
  | true ↦ b' ' ∷ b' ' ∷ replace_nullish cs
  | false ↦ c ∷ replace_nullish (d ∷ cs)
]

abbrev pub count_word : String → Text → ℕ
count_word w = count_matches (whole_word (codes w))

-- `/&&/g`, `/\|\|/g` and `/\?\?/g`
abbrev pub count_operators : Text → ℕ
count_operators b =
    count_matches (literal (codes "&&")) b
    + count_matches (literal (codes "||")) b
    + count_matches (literal (codes "??")) b

unfoldable pub cyclomatic : Text → ℕ
cyclomatic b =
    1
    + count_word "if" b
    + count_word "for" b
    + count_word "while" b
    + count_word "do" b
    + count_word "catch" b
    + count_word "case" b
    + count_operators b
    + count_matches question (replace_nullish b)

abbrev pub kw_before_paren : List Text
kw_before_paren = codes "if" ∷ codes "for" ∷ codes "while" ∷ codes "switch" ∷ codes "catch" ∷ []

abbrev pub kw_no_paren : List Text
kw_no_paren = codes "else" ∷ codes "do" ∷ codes "try" ∷ codes "finally" ∷ []

abbrev pub nesting_bearing : List Text
nesting_bearing =
    codes "if" ∷ codes "for" ∷ codes "while" ∷ codes "switch" ∷ codes "catch" ∷ codes "do" ∷ []

pub record Brace : Type 0 where
  pub control : Bool
  pub kw : Text
  pub else_if : Bool

abbrev pub plain_brace : Brace
plain_brace = record { control = false; kw = []; else_if = false }

-- A brace behind a closing parenthesis, by the keyword in front of the opening one.
unfoldable pub classify_paren : Text → ℕ → Brace
unfolding prev_word
classify_paren masked paren_open =
    let pw = prev_word masked paren_open in
    if has_text kw_before_paren pw.word
    then record {
      control = true;
      kw = pw.word;
      else_if =
          text_eq pw.word (codes "if") && text_eq (prev_word masked pw.start).word (codes "else");
    }
    else plain_brace

unfoldable pub classify_brace : Text → ℕ → Brace
unfolding classify_paren match_paren_back
classify_brace masked brace_idx =
    let j = skip_back is_space masked brace_idx in
    if is_char b')' (char_before masked j)
    then (elim (match_paren_back masked (j - 1)) [
      | none ↦ plain_brace
      | some paren_open ↦ classify_paren masked paren_open
    ])
    else (let pw = prev_word masked j in
        if has_text kw_no_paren pw.word
        then record { control = true; kw = pw.word; else_if = false }
        else plain_brace)

-- `stack` (its top first), `controlDepth`, `maxDepth` and `cognitive`.
pub record Blocks : Type 0 where
  pub stack : List Bool
  pub control_depth : ℕ
  pub max_depth : ℕ
  pub cognitive : ℕ

-- What an opening brace adds to the cognitive score.
abbrev pub increment : Brace → ℕ → ℕ
increment info control_depth =
    if info.control
    then (if has_text nesting_bearing info.kw
        then (if info.else_if then 1 else 1 + control_depth)
        else if text_eq info.kw (codes "else")
        then 1
        else 0)
    else 0

unfoldable pub open_block : Brace → Blocks → Blocks
open_block info s =
    let depth = if info.control then suc s.control_depth else s.control_depth in
    record {
      stack = info.control ∷ s.stack;
      control_depth = depth;
      max_depth = if ltb s.max_depth depth then depth else s.max_depth;
      cognitive = s.cognitive + increment info s.control_depth;
    }

-- `const ctrl = stack.pop(); if (ctrl) controlDepth--`
close_block : List Bool → Blocks → Blocks
close_block [] s = s
close_block (ctrl ∷ stack) s = record s {
  stack = stack;
  control_depth = if ctrl then s.control_depth - 1 else s.control_depth;
}

unfoldable pub block_step : (ℕ → Brace) → ℕ → ℕ → Blocks → Blocks
unfolding open_block close_block
block_step classify i ch s =
    if ch == b'{'
    then open_block (classify i) s
    else if ch == b'}'
    then close_block s.stack s
    else s

-- The loop over `b`, given how its braces are classified.
unfoldable pub blocks_loop : (ℕ → Brace) → ℕ → Text → Blocks → Blocks
unfolding block_step
blocks_loop classify i [] s = s
blocks_loop classify i (ch ∷ rest) s =
    blocks_loop classify (suc i) rest (block_step classify i ch s)

abbrev pub no_blocks : Blocks
no_blocks = record { stack = []; control_depth = 0; max_depth = 0; cognitive = 0 }

pub record Analysis : Type 0 where
  pub max_nesting : ℕ
  pub cognitive : ℕ

unfoldable pub analyze_blocks : Text → Analysis
unfolding blocks_loop classify_brace count_matches literal
analyze_blocks b =
    let s = blocks_loop (classify_brace b) 0 b no_blocks in
    record { max_nesting = s.max_depth; cognitive = s.cognitive + count_operators b }
