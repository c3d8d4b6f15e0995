-- ===== src/Convex/Complexity/Mask.antt =====
-- `maskSource`: string literals, template literals and comments become spaces. The loop writes into
-- an array of characters that `Array.from` splits by code points, while `i` counts code units.
pub mod Scan
pub mod Laws
use atdd_extensions.Base.{
  ℕ, zero, suc, ◌+◌, Bool, true, false, not, ◌&&◌, List, [], ◌∷◌, ◌++◌, Option, none, some, ltb,
  if◌then◌else◌, Text, within, length, get_elem?, is_char,
}
use atdd_extensions.Base.Int.{ℤ, pos, suc_ℤ, pred_ℤ, eq_ℤ}

pub data Mode : Type 0 where
  code line block sq dq tpl : Mode

-- `state`, `codeBraceDepth` and `interpReturn` (its last element first).
pub record Scanner : Type 0 where
  pub mode : Mode
  pub code_brace_depth : ℤ
  pub interp_return : List ℤ

-- What one round of the loop does: whether it blanks `out[i]` and `out[i + 1]`, whether it steps
-- over two characters, and the scanner that it leaves.
pub record Action : Type 0 where
  pub blank : Bool
  pub blank_next : Bool
  pub two : Bool
  pub next : Scanner

abbrev to_mode : Mode → Scanner → Scanner
to_mode m s = record s { mode = m }

-- `i++` with `out[i]` left alone.
abbrev pub leave : Scanner → Action
leave s = record { blank = false; blank_next = false; two = false; next = s }

-- `out[i] = " "; i++`
abbrev pub blank_one : Scanner → Action
blank_one s = record { blank = true; blank_next = false; two = false; next = s }

-- `out[i] = " "; out[i + 1] = " "; i += 2`
abbrev pub blank_two : Scanner → Action
blank_two s = record { blank = true; blank_next = true; two = true; next = s }

-- `if (c !== "\n") out[i] = " "; i++`
abbrev pub blank_unless_newline : Option ℕ → Scanner → Action
blank_unless_newline c s = record {
  blank = not (is_char b'\n' c);
  blank_next = false;
  two = false;
  next = s;
}

-- A backslash in a literal: the next character is blanked unless it is a newline or missing.
abbrev escape : Option ℕ → Scanner → Action
escape none s = record { blank = true; blank_next = false; two = true; next = s }
escape (some d) s = record {
  blank = true;
  blank_next = not (is_char b'\n' (some d));
  two = true;
  next = s;
}

-- `interpReturn.length && codeBraceDepth === interpReturn[interpReturn.length - 1]`
abbrev returns : ℤ → List ℤ → Bool
returns depth [] = false
returns depth (r ∷ rs) = eq_ℤ depth r

abbrev pop : List ℤ → List ℤ
pop [] = []
pop (r ∷ rs) = rs

mask_close : Scanner → Action
mask_close s =
    if returns s.code_brace_depth s.interp_return
    then blank_one (record s { mode = tpl; interp_return = pop s.interp_return })
    else leave (record s { code_brace_depth = pred_ℤ s.code_brace_depth })

mask_code : Option ℕ → Option ℕ → Scanner → Action
unfolding mask_close
mask_code c d s =
    if is_char b'/' c && is_char b'/' d
    then blank_two (to_mode line s)
    else if is_char b'/' c && is_char b'*' d
    then blank_two (to_mode block s)
    else if is_char b'\'' c
    then blank_one (to_mode sq s)
    else if is_char b'"' c
    then blank_one (to_mode dq s)
    else if is_char b'`' c
    then blank_one (to_mode tpl s)
    else if is_char b'{' c
    then leave (record s { code_brace_depth = suc_ℤ s.code_brace_depth })
    else if is_char b'}' c
    then mask_close s
    else leave s

mask_quoted : ℕ → Option ℕ → Option ℕ → Scanner → Action
mask_quoted q c d s =
    if is_char b'\\' c
    then escape d s
    else if is_char q c
    then blank_one (to_mode code s)
    else blank_unless_newline c s

mask_template : Option ℕ → Option ℕ → Scanner → Action
mask_template c d s =
    if is_char b'\\' c
    then escape d s
    else if is_char b'`' c
    then blank_one (to_mode code s)
    else if is_char b'$' c && is_char b'{' d
    then blank_two (record s { mode = code; interp_return = s.code_brace_depth ∷ s.interp_return })
    else blank_unless_newline c s

unfoldable pub mask_mode : Mode → Option ℕ → Option ℕ → Scanner → Action
unfolding mask_code mask_quoted mask_template
mask_mode code c d s = mask_code c d s
mask_mode line c d s = if is_char b'\n' c then leave (to_mode code s) else blank_one s
mask_mode block c d s =
    if is_char b'*' c && is_char b'/' d
    then blank_two (to_mode code s)
    else blank_unless_newline c s
mask_mode sq c d s = mask_quoted b'\'' c d s
mask_mode dq c d s = mask_quoted b'"' c d s
mask_mode tpl c d s = mask_template c d s

-- One round of the loop, on `c = text[i]` and `d = text[i + 1]`.
abbrev pub action : Option ℕ → Option ℕ → Scanner → Action
action c d s = mask_mode s.mode c d s

-- `Array.from(text, (ch) => ch)`: one element for each code point.
unfoldable pub array_from : Text → List Text
array_from [] = []
array_from (c ∷ []) = (c ∷ []) ∷ []
array_from (c ∷ d ∷ cs) = elim (within 0xd800 0xdbff c && within 0xdc00 0xdfff d) [
  | true ↦ (c ∷ d ∷ []) ∷ array_from cs
  | false ↦ (c ∷ []) ∷ array_from (d ∷ cs)
]

-- `out[i] = " "`: a write past the end grows the array, and `join` reads a hole as "".
unfoldable pub put_space : ℕ → List Text → List Text
put_space zero [] = (b' ' ∷ []) ∷ []
put_space zero (x ∷ xs) = (b' ' ∷ []) ∷ xs
put_space (suc i) [] = [] ∷ put_space i []
put_space (suc i) (x ∷ xs) = x ∷ put_space i xs

-- `out.join("")`
unfoldable pub join : List Text → Text
join [] = []
join (x ∷ xs) = x ++ join xs

abbrev pub put_if : Bool → ℕ → List Text → List Text
put_if true i out = put_space i out
put_if false i out = out

-- `while (i < n)`
unfoldable pub mask_loop : ℕ → Text → ℕ → Scanner → List Text → List Text
unfolding put_space mask_mode
mask_loop zero text i s out = out
mask_loop (suc fuel) text i s out =
    let a = action (get_elem? text i) (get_elem? text (suc i)) s in
    let blanked = put_if a.blank_next (suc i) (put_if a.blank i out) in
    let rest = mask_loop fuel text (if a.two then i + 2 else i + 1) a.next blanked in
    if ltb i (length text) then rest else out

abbrev pub at_start : Scanner
at_start = record { mode = code; code_brace_depth = pos 0; interp_return = [] }

unfoldable pub mask_source : Text → Text
unfolding join mask_loop array_from
mask_source text = join (mask_loop (length text) text 0 at_start (array_from text))
