-- ===== src/Convex/Complexity/Functions.antt =====
-- `extractFunctions`: function declarations and block-bodied arrow functions of a source text.
pub mod Loops
pub mod Order
pub mod Spans
pub mod Bodies
use atdd_extensions.Base.{
  ℕ, zero, suc, ◌+◌, ◌-◌, Bool, true, false, not, ◌&&◌, ◌||◌, List, [], ◌∷◌, ◌++◌, Option, none,
  some, leb, ◌==◌, if◌then◌else◌, Text, codes, within, is_space, is_ident, is_char, holds, trim,
  length, get_elem?, get_or, slice, any,
}
use atdd_extensions.Regex.{
  Regex, class, star, seq, option, group, whole_word, literal, Match, match_all, split_lines,
}
use atdd_extensions.Convex.Complexity.Mask.{mask_source}
use atdd_extensions.Convex.Complexity.LineIndex.{build_line_index, line_of}
use atdd_extensions.Convex.Complexity.Brackets.{match_brace, match_paren_fwd, match_paren_back}
use atdd_extensions.Convex.Complexity.Words.{
  char_before, skip_back, skip_forward, Word, prev_word, name_before, count_params,
}

pub record Fn : Type 0 where
  pub name : Text
  pub param_count : ℕ
  pub header_line_no : ℕ
  pub header_col : ℕ
  pub header_line_text : Text
  pub body_open_line0 : ℕ
  pub body_close_line0 : ℕ
  pub masked_body : Text
  pub masked_lines : List Text

-- What `extractFunctions` computes of the text before it looks for functions.
pub record Source : Type 0 where
  pub masked : Text
  pub starts : List ℕ
  pub orig_lines : List Text
  pub masked_lines : List Text

-- `funcs` and `seenBodies`, which `record` changes.
pub record Found : Type 0 where
  pub funcs : List Fn
  pub seen_bodies : List ℕ

unfoldable pub read_source : Text → Source
read_source text =
    let masked = mask_source text in
    record {
      masked = masked;
      starts = build_line_index text;
      orig_lines = split_lines text;
      masked_lines = split_lines masked;
    }

-- `name || "<anonymous>"`
abbrev pub or_anonymous : Text → Text
or_anonymous [] = codes "<anonymous>"
or_anonymous (c ∷ cs) = c ∷ cs

-- The function that `record` pushes, whose body's braces stand at the two offsets.
unfoldable pub new_function : Source → ℕ → Text → Text → ℕ → ℕ → Fn
new_function src sig_idx name param_text body_open_idx body_close_idx =
    let header_line0 = line_of src.starts sig_idx in
    record {
      name = or_anonymous name;
      param_count = count_params param_text;
      header_line_no = header_line0 + 1;
      header_col = sig_idx - get_or src.starts header_line0 0 + 1;
      header_line_text = trim (get_or src.orig_lines header_line0 []);
      body_open_line0 = line_of src.starts body_open_idx;
      body_close_line0 = line_of src.starts body_close_idx;
      masked_body = slice src.masked (body_open_idx + 1) body_close_idx;
      masked_lines = src.masked_lines;
    }

-- `record(sigIdx, name, paramText, bodyOpenIdx)`
unfoldable pub record_function : Source → ℕ → Text → Text → ℕ → Found → Found
unfolding new_function
record_function src sig_idx name param_text body_open_idx found =
    elim (match_brace src.masked body_open_idx) [
      | none ↦ found
      | some body_close_idx ↦
          if any (λ b. b == body_open_idx) found.seen_bodies then found else record {
            funcs =
                found.funcs
                ++ new_function src sig_idx name param_text body_open_idx body_close_idx ∷ [];
            seen_bodies = body_open_idx ∷ found.seen_bodies;
          }
    ]

abbrev pub ident_start : ℕ → Bool
ident_start c = within b'A' b'Z' c || within b'a' b'z' c || c == b'_' || c == b'$'

-- `/\bfunction\b\s*\*?\s*([A-Za-z_$][\w$]*)?\s*(?:<[^>]*>)?\s*\(/g`
unfoldable pub func_decl : Regex
unfolding whole_word
func_decl = seq (whole_word (codes "function")) (
    seq (star is_space) (
      seq (option (class (λ c. c == b'*'))) (
        seq (star is_space) (
          seq (option (group (seq (class ident_start) (star is_ident)))) (
            seq (star is_space) (
              seq
                (option (
                  seq (class (λ c. c == b'<'))
                    (seq (star (λ c. not (c == b'>'))) (class (λ c. c == b'>')))))
                (seq (star is_space) (class (λ c. c == b'(')))))))))

-- `/=>/g`
unfoldable pub arrow : Regex
unfolding literal
arrow = literal (codes "=>")

abbrev pub capture_text : List Text → Text
capture_text [] = []
capture_text (t ∷ ts) = t

-- `if (masked[k] === ":")`, skip the return type up to a brace or a semicolon.
abbrev pub skip_return_type : Text → ℕ → ℕ
skip_return_type masked k =
    if is_char b':' (get_elem? masked k)
    then skip_forward (λ c. not (c == b'{') && not (c == b';')) masked k
    else k

-- One round of the first loop.
unfoldable pub declaration_step : Source → Match → Found → Found
unfolding record_function
declaration_step src m found =
    let paren_open = m.index + m.size - 1 in
    elim (match_paren_fwd src.masked paren_open) [
      | none ↦ found
      | some paren_close ↦
          let k =
            skip_return_type src.masked (skip_forward is_space src.masked (paren_close + 1)) in
          if is_char b'{' (get_elem? src.masked k)
          then record_function src m.index (capture_text m.capture)
              (slice src.masked (paren_open + 1) paren_close) k found
          else found
    ]

-- `/[\w$]/.test(masked[p])`, where `masked[-1]` is read as the text "undefined".
abbrev pub ident_before : Text → ℕ → Bool
ident_before masked zero = true
ident_before masked (suc p) = holds is_ident (get_elem? masked p)

-- The parameters in front of an arrow, which end at `p_end`, and then the body at `k`.
unfoldable pub arrow_params : Source → ℕ → ℕ → Found → Found
unfolding record_function
arrow_params src p_end k found =
    if is_char b')' (char_before src.masked p_end)
    then (elim (match_paren_back src.masked (p_end - 1)) [
      | none ↦ found
      | some paren_open ↦
          record_function src paren_open (name_before src.masked paren_open)
            (slice src.masked (paren_open + 1) (p_end - 1)) k found
    ])
    else if ident_before src.masked p_end
    then (let pw = prev_word src.masked p_end in
        record_function src pw.start (name_before src.masked pw.start) pw.word k found)
    else found

-- One round of the second loop.
unfoldable pub arrow_step : Source → Match → Found → Found
unfolding arrow_params
arrow_step src m found =
    let k = skip_forward is_space src.masked (m.index + 2) in
    if is_char b'{' (get_elem? src.masked k)
    then arrow_params src (skip_back is_space src.masked m.index) k found
    else found

-- `while ((m = re.exec(masked)) !== null)`
unfoldable pub each_match : (Match → Found → Found) → List Match → Found → Found
each_match step [] found = found
each_match step (m ∷ ms) found = each_match step ms (step m found)

unfoldable pub insert_by_line : Fn → List Fn → List Fn
insert_by_line f [] = f ∷ []
insert_by_line f (g ∷ gs) =
    let later = insert_by_line f gs in
    if leb f.header_line_no g.header_line_no then f ∷ g ∷ gs else g ∷ later

-- `funcs.sort((a, b) => a.headerLineNo - b.headerLineNo)`, which is stable.
unfoldable pub sort_by_line : List Fn → List Fn
unfolding insert_by_line
sort_by_line [] = []
sort_by_line (f ∷ fs) = insert_by_line f (sort_by_line fs)

-- `funcs` before it is sorted.
unfoldable pub find_functions : Source → Found
unfolding each_match declaration_step arrow_step func_decl arrow
find_functions src =
    let declared =
      each_match (declaration_step src) (match_all func_decl src.masked)
        (record { funcs = []; seen_bodies = [] }) in
    each_match (arrow_step src) (match_all arrow src.masked) declared

unfoldable pub extract_functions : Text → List Fn
unfolding sort_by_line find_functions read_source
extract_functions text = sort_by_line (find_functions (read_source text)).funcs
