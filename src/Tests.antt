-- ===== src/Tests.antt =====
-- Runs of the definitions on small inputs, and the theorems at concrete ones.
mod Bun
mod Coverage
mod Infrastructure
mod Interlocking
use atdd_extensions.Base.{
  ℕ, List, [], ◌∷◌, ◌++◌, ◌≡◌, ◌≢◌, ◌↔◌, refl, false, true, Text, codes, some, none, map, length,
  arith, ◌+◌, ◌<◌, ◌≤◌, is_word, is_space, In, All, any, take,
}
use mathlib.Core.List.{Perm}
use atdd_extensions.Base.Paths.{Node, array, unset, dir, file, closed, entry, no_entry, includes}
use atdd_extensions.Regex.{count_matches, whole_word, match_all, split_lines}
use atdd_extensions.Regex.Words.{occurrences, count_matches-whole_word}
use atdd_extensions.Convex.Complexity.Mask.{mask_source, at_start}
use atdd_extensions.Convex.Complexity.Mask.Scan.{masked, IsBmp, mask_source-eq-masked}
use atdd_extensions.Convex.Complexity.Mask.Laws.{
  Blanks, IsPlain, mask_source-Blanks, mask_source-IsPlain, mask_source_idempotent,
}
use atdd_extensions.Convex.Complexity.LineIndex.{build_line_index, line_of}
use atdd_extensions.Convex.Complexity.LineIndex.Search.{newlines, line_of-build_line_index}
use atdd_extensions.Convex.Complexity.Words.{count_params, skip_forward, skip_back, name_before}
use atdd_extensions.Convex.Complexity.Brackets.{match_brace, match_paren_fwd, match_paren_back}
use atdd_extensions.Convex.Complexity.Brackets.Balance.{
  Balanced, nil, other, nest, match_brace-Balanced, match_brace-some, match_paren_fwd-Balanced,
}
use atdd_extensions.Convex.Complexity.Functions.{Fn, find_functions, read_source, extract_functions}
use atdd_extensions.Convex.Complexity.Functions.Loops.{IsRead, Distinct, Paired}
use atdd_extensions.Convex.Complexity.Functions.Order.{InOrder}
use atdd_extensions.Convex.Complexity.Functions.Bodies.{
  extract_functions-IsRead, extract_functions-sorted, find_functions-Distinct,
}
use atdd_extensions.Convex.Complexity.Metrics.{
  cyclomatic, analyze_blocks, body_loc, classify_brace, count_operators, question, replace_nullish,
}
use atdd_extensions.Convex.Complexity.Metrics.Nesting.{height, total, analyze_blocks-Body}
use atdd_extensions.Convex.Complexity.Metrics.Counts.{pairs, lone, keyword, cyclomatic_lem}
use atdd_extensions.Convex.Complexity.Checks.{evaluate_cyclomatic, evaluate_length, evaluate_params}
use atdd_extensions.Convex.Complexity.Checks.Verdicts.{
  evaluate_iff, BlockVerdicts, extract_functions-verdicts,
}
use atdd_extensions.Base.Report.{Violation}
use atdd_extensions.Convex.Complexity.Scan.{
  is_excluded, is_source, walk, Yielded, Env, main, reported, crashed, params_check,
  default_excludes,
}
use atdd_extensions.Convex.Complexity.Scan.Excludes.{is_excluded-includes}
use atdd_extensions.Convex.Complexity.Scan.Walk.{Leads, walk-yields}
use atdd_extensions.Convex.Complexity.Scan.Report.{Cause, main-reports}

-- Words are counted whole: `$` is no word character, `_` is one.
count_if : count_matches (whole_word (codes "if")) (codes "if (x) elif; if_ $if if") ≡ 3
unfolding count_matches whole_word is_word
count_if = refl

mask_runs :
    mask_source (codes "a // b\n'x{' `t${ {y} }` /* \n */")
    ≡ codes "a     \n          {y}       \n   "
unfolding mask_source
mask_runs = refl

-- A surrogate pair is one element of the array and two offsets of the text: the quote behind it
-- stays, and the text grows by one.
mask_after_surrogates : mask_source (0xd83d ∷ 0xde00 ∷ codes "'") ≡ 0xd83d ∷ 0xde00 ∷ codes "' "
unfolding mask_source
mask_after_surrogates = refl

abbrev quoted : Text
quoted = codes "a'b"

quoted-IsBmp : IsBmp quoted
quoted-IsBmp = (refl, (refl, (refl, tt)))

mask_source-eq-masked_example : mask_source quoted ≡ masked at_start quoted
mask_source-eq-masked_example = mask_source-eq-masked quoted quoted-IsBmp

mask_source-Blanks_example : Blanks quoted (mask_source quoted)
mask_source-Blanks_example = mask_source-Blanks quoted quoted-IsBmp

mask_source-IsPlain_example : IsPlain (mask_source quoted)
mask_source-IsPlain_example = mask_source-IsPlain quoted quoted-IsBmp

mask_source_idempotent_example : mask_source (mask_source quoted) ≡ mask_source quoted
mask_source_idempotent_example = mask_source_idempotent quoted quoted-IsBmp

line_of-build_line_index_example :
    line_of (build_line_index (codes "a\nbc\nd")) 4 ≡ newlines (take 4 (codes "a\nbc\nd"))
line_of-build_line_index_example = line_of-build_line_index (codes "a\nbc\nd") 4

-- `a{b}`
abbrev braces : Text
braces = codes "a{b}"

a-Balanced : Balanced b'{' b'}' (codes "a")
a-Balanced = other (omega arith) (omega arith) nil

braces-Balanced : Balanced b'{' b'}' braces
braces-Balanced =
    other (omega arith) (omega arith) (nest (other (omega arith) (omega arith) nil) nil)

match_brace-Balanced_example :
    match_brace (codes "x" ++ b'{' ∷ (braces ++ b'}' ∷ codes "y")) 1 ≡ some 6
match_brace-Balanced_example = match_brace-Balanced (codes "x") (codes "y") braces-Balanced

match_brace-some_example :
    (b after : Text) × (codes "a}y" ≡ b ++ b'}' ∷ after)
    × (◌≡◌ {A = ℕ} 3 (length (codes "x") + 1 + length b))
    × Balanced b'{' b'}' b
match_brace-some_example =
    match_brace-some (codes "x") (codes "a}y") 3
      (match_brace-Balanced (codes "x") (codes "y") a-Balanced)

match_paren_fwd-Balanced_example :
    match_paren_fwd (codes "f" ++ b'(' ∷ (codes "x" ++ b')' ∷ codes ";")) 1 ≡ some 3
match_paren_fwd-Balanced_example =
    match_paren_fwd-Balanced (codes "f") (codes ";") (other (omega arith) (omega arith) nil)

-- Two functions, the arrow one in front.
abbrev two_functions : Text
two_functions =
    codes "const g = (a, b) => {\n  return a;\n};\nfunction f(x) {\n  if (x) { y(); }\n}\n"

names : List Fn → List Text
names = map (λ f. f.name)

two_names : names (extract_functions two_functions) ≡ codes "g" ∷ codes "f" ∷ []
unfolding names extract_functions is_word is_space match_all mask_source skip_forward skip_back
    match_paren_back match_brace match_paren_fwd line_of build_line_index name_before
two_names = refl

two_lines : map (λ (f : Fn). f.header_line_no) (extract_functions two_functions) ≡ 1 ∷ 4 ∷ []
unfolding extract_functions is_word is_space match_all mask_source skip_forward skip_back
    match_paren_back match_brace match_paren_fwd line_of build_line_index
two_lines = refl

two_params : map (λ (f : Fn). f.param_count) (extract_functions two_functions) ≡ 2 ∷ 1 ∷ []
unfolding extract_functions is_word is_space match_all mask_source skip_forward skip_back
    match_paren_back match_brace match_paren_fwd line_of build_line_index count_params
two_params = refl

-- The braces of an object type in return position are taken for the body.
return_type_body :
    map
      (λ (f : Fn). f.masked_body)
      (extract_functions (codes "function f(): { a: T } { if (b) {} }"))
    ≡ codes " a: T " ∷ []
unfolding extract_functions is_word is_space match_all mask_source skip_forward skip_back
    match_paren_back match_brace match_paren_fwd line_of build_line_index
return_type_body = refl

-- A comma between type arguments counts as one between parameters.
type_argument_params : count_params (codes "m: Map<K, V>") ≡ 2
unfolding count_params is_space
type_argument_params = refl

extract_functions-IsRead_example :
    All
      (λ f. IsRead (read_source two_functions) f × Balanced b'{' b'}' f.masked_body)
      (extract_functions two_functions)
extract_functions-IsRead_example = extract_functions-IsRead two_functions

extract_functions-sorted_example :
    InOrder (extract_functions two_functions)
    × Perm (extract_functions two_functions) (find_functions (read_source two_functions)).funcs
extract_functions-sorted_example = extract_functions-sorted two_functions

find_functions-Distinct_example :
    Paired
      (read_source two_functions)
      (find_functions (read_source two_functions)).funcs
      (find_functions (read_source two_functions)).seen_bodies
    × Distinct (find_functions (read_source two_functions)).seen_bodies
find_functions-Distinct_example = find_functions-Distinct (read_source two_functions)

count_matches-whole_word_example :
    count_matches (whole_word (codes "if")) (codes "if (x) elif")
    ≡ occurrences (codes "if") false (codes "if (x) elif")
count_matches-whole_word_example =
    count_matches-whole_word (codes "if") (λ e. cc) (unfold is_word in (refl, (refl, tt)))
      (codes "if (x) elif")

cyclomatic_lem_example :
    cyclomatic (codes "if (a && b) c ?? d")
    ≡ 1
      + keyword "if" (codes "if (a && b) c ?? d")
      + keyword "for" (codes "if (a && b) c ?? d")
      + keyword "while" (codes "if (a && b) c ?? d")
      + keyword "do" (codes "if (a && b) c ?? d")
      + keyword "catch" (codes "if (a && b) c ?? d")
      + keyword "case" (codes "if (a && b) c ?? d")
      + (pairs b'&' (codes "if (a && b) c ?? d")
          + pairs b'|' (codes "if (a && b) c ?? d")
          + pairs b'?' (codes "if (a && b) c ?? d"))
      + lone (codes "if (a && b) c ?? d")
cyclomatic_lem_example = cyclomatic_lem (codes "if (a && b) c ?? d")

analyze_blocks-Body_example :
    ((analyze_blocks braces).max_nesting ≡ height (classify_brace braces) 0 braces-Balanced)
    × ((analyze_blocks braces).cognitive
        ≡ total (classify_brace braces) 0 0 braces-Balanced + count_operators braces)
analyze_blocks-Body_example = analyze_blocks-Body braces-Balanced

abbrev six_params : Fn
six_params = record {
  name = codes "f";
  param_count = 6;
  header_line_no = 1;
  header_col = 1;
  header_line_text = codes "function f(a, b, c, d, e, g) {}";
  body_open_line0 = 0;
  body_close_line0 = 0;
  masked_body = [];
  masked_lines = [];
}

evaluate_iff_example :
    ((evaluate_cyclomatic six_params ≢ none)
      ↔ ((3 ≤ body_loc six_params) × (10 < cyclomatic six_params.masked_body)))
    × ((evaluate_length six_params ≢ none) ↔ (50 < body_loc six_params))
    × ((evaluate_params six_params ≢ none) ↔ (6 ≤ six_params.param_count))
evaluate_iff_example = evaluate_iff six_params

extract_functions-verdicts_example : All BlockVerdicts (extract_functions two_functions)
extract_functions-verdicts_example = extract_functions-verdicts two_functions

-- A fragment that is no segment excludes too.
is_excluded-includes_example :
    is_excluded (codes "convex/distance.ts") default_excludes
    ≡ any (λ ex. includes (codes "convex/distance.ts") ex) default_excludes
is_excluded-includes_example = is_excluded-includes (codes "convex/distance.ts") default_excludes

distance_excluded : is_excluded (codes "convex/distance.ts") default_excludes ≡ true
unfolding is_excluded
distance_excluded = refl

abbrev six_text : Text
six_text = codes "function f(a, b, c, d, e, g) {}"

-- A directory of a source, a test and a directory that is excluded.
abbrev tree : Node
tree = dir (
    entry (codes "f.ts") (file (some six_text)) (
      entry (codes "f.test.ts") (file (some six_text)) (
        entry (codes "dist") (dir (entry (codes "f.ts") (file (some six_text)) no_entry))
          no_entry)))

abbrev tree_files : List Yielded
tree_files = record { path = codes "convex/f.ts"; content = some six_text } ∷ []

walk-tree : walk (codes "convex") default_excludes tree ≡ some tree_files
unfolding walk
walk-tree = refl

walk-yields_example :
    In (record { path = codes "convex/f.ts"; content = some six_text }) tree_files ↔ (
      Leads default_excludes
        (codes "convex")
        tree
        (record { path = codes "convex/f.ts"; content = some six_text })
      × (is_source (codes "convex/f.ts") ≡ true))
walk-yields_example =
    walk-yields (codes "convex") default_excludes tree walk-tree
      (record { path = codes "convex/f.ts"; content = some six_text })

abbrev env : Env
env = record {
  report_path = some (codes "report.json");
  scan_roots = array (codes "convex" ∷ []);
  scan_excludes = unset;
  stat = λ path. tree;
  writable = λ path. true;
}

abbrev of_f : Violation
of_f = record {
  rule_id = codes "coder.convex.complexity-params";
  file = codes "convex/f.ts";
  line = 1;
  col = 1;
  evidence = codes "function \"f\" declares 6 parameters (limit 5, must be < 6)";
  source_line = six_text;
}

abbrev found : List Violation
found = of_f ∷ []

main_found : main params_check env ≡ reported found
unfolding main evaluate_params extract_functions is_word is_space match_all mask_source skip_forward
    skip_back match_paren_back match_brace match_paren_fwd line_of build_line_index name_before
    count_params split_lines
main_found = refl

main-reports_example : In of_f found ↔ Cause params_check env of_f
main-reports_example = main-reports params_check env main_found of_f

closed_root : main params_check (record env { stat = λ path. closed }) ≡ crashed
unfolding main
closed_root = refl
