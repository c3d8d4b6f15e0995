-- ===== src/Convex/Interlocking/Executes.antt =====
-- `scanExecution`: whether the runtime executes the declaration, or restates it.
pub mod Derives
use atdd_extensions.Base.{
  ℕ, zero, suc, ◌+◌, ◌-◌, Bool, true, false, not, ◌&&◌, ◌||◌, List, [], ◌∷◌, ◌++◌, Option, none,
  some, if◌then◌else◌, Text, codes, has_text, any, length, drop, take, keep, map, trim, one_of,
  is_space, is_word, is_char, text_eq, decimal, ◌==◌, get_elem?, slice,
}
use atdd_extensions.Base.Paths.{
  Node, file, dir, missing, closed, other, Entries, no_entry, entry, is_prefix,
}
use atdd_extensions.Base.Join.{join, join_with}
use atdd_extensions.Base.Build.{concat_map, sort_texts, unique, text_le}
use atdd_extensions.Base.Report.{Violation}
use atdd_extensions.Regex.{
  Regex, class, star, lazy, seq, alt, option, group, boundary, end_of_text, start_of_text,
  line_start, line_end, not_ahead, not_behind, literal, whole_word, Match, first_match, captured,
  match_all, test, replace_all, remove_first, split_lines,
}
use atdd_extensions.Convex.Interlocking.Tree.{Files, is_directory, read_text}
use atdd_extensions.Convex.Interlocking.Patterns.{chain, spaces, lit, value_to, plus, is_dot}
use atdd_extensions.Convex.Interlocking.Space.{Module}
use atdd_extensions.Convex.Interlocking.Message.{says}
use atdd_extensions.Convex.Interlocking.Modules.{
  Below, executes_excludes, if_marked, in_name_order, insert_name, is_marked, marked_at,
  marked_below, marked_roots, modules_at, modules_below, walk_modules,
}
use atdd_extensions.Convex.Interlocking.Imports.{
  call_re, cons_char, dirs_re, find_module, found_loads, import_line_re, import_loads, import_re,
  import_tail, imported_names, is_name, loads, loads_re, loads_with_imports, module_ext_re,
  module_name, name_pattern, name_re, name_runs,
}

-- `RESOLVES`
unfoldable pub resolves_re : Regex
unfolding call_re whole_word lit
resolves_re = alt (whole_word (codes "InterlockingResolution")) (call_re (lit "resolveTrain"))

-- `/^\s*-?\s*(?:route_id|train_id):\s*…$/`
unfoldable pub declared_value_re : Regex
unfolding lit value_to
declared_value_re = chain (
    start_of_text
    ∷ spaces
    ∷ option (lit "-")
    ∷ spaces
    ∷ alt (lit "route_id") (lit "train_id")
    ∷ lit ":"
    ∷ spaces
    ∷ value_to end_of_text
    ∷ [])

abbrev pub declared_in : Option Match → List Text
declared_in none = []
declared_in (some m) = trim (captured m 0) ∷ []

-- `declaredValues(text)`
unfoldable pub declared_values : Text → List Text
unfolding first_match captured declared_value_re split_lines
declared_values text =
    concat_map (λ l. declared_in (first_match declared_value_re l)) (split_lines text)

abbrev pub blank_text : Text → Text
blank_text = map (λ c. if c == b'\n' then c else b' ')

-- `/\/\*[\s\S]*?\*\//g`
unfoldable pub block_comment_re : Regex
unfolding lit
block_comment_re = chain (lit "/*" ∷ lazy (λ c. true) ∷ lit "*/" ∷ [])

-- `/(^|[^:\\])\/\/[^\n]*/g`
unfoldable pub line_comment_re : Regex
unfolding lit
line_comment_re = chain (
    group (alt start_of_text (class (λ c. not (c == b':' || c == b'\\'))))
    ∷ lit "//"
    ∷ star (λ c. not (c == b'\n'))
    ∷ [])

abbrev pub blanks : ℕ → Text
blanks zero = []
blanks (suc n) = b' ' ∷ blanks n

-- `maskComments(text)` of this check.
unfoldable pub mask_by_patterns : Text → Text
unfolding replace_all captured block_comment_re line_comment_re
mask_by_patterns text =
    let no_blocks =
      replace_all block_comment_re (λ m. blank_text (slice text m.index (m.index + m.size))) text in
    replace_all line_comment_re (λ m. captured m 0 ++ blanks (m.size - length (captured m 0)))
      no_blocks

abbrev pub is_id_char : ℕ → Bool
is_id_char c = is_word c || c == b'-'

-- ``new RegExp(`(?<![\\w-])${esc(v)}(?![\\w-])`).test(maskComments(x.text))``
unfoldable pub restates : Module → Text → Bool
unfolding test literal mask_by_patterns
restates x v =
    test (chain (not_behind is_id_char ∷ literal v ∷ not_ahead is_id_char ∷ []))
      (mask_by_patterns x.text)

-- What the check reads of a consumer tree.
pub record Execution : Type 0 where
  pub declared : List Text
  pub modules : List Module

-- `/_interlockings[/\\].*\.ya?ml$/`
unfoldable pub interlocking_path_re : Regex
unfolding lit is_dot
interlocking_path_re = chain (
    lit "_interlockings"
    ∷ class (λ c. c == b'/' || c == b'\\')
    ∷ star is_dot
    ∷ lit ".y"
    ∷ option (lit "a")
    ∷ lit "ml"
    ∷ end_of_text
    ∷ [])

unfoldable pub read_execution : Files → Text → Execution
unfolding join walk_modules test interlocking_path_re declared_values module_ext_re read_text
read_execution fs croot = record {
  declared = unique (
      concat_map (λ f. declared_values (read_text fs f))
        (walk_modules fs (join croot (codes "plan")) (test interlocking_path_re)));
  modules =
      map (λ f. record { file = f; text = read_text fs f })
        (walk_modules fs (join croot (codes "convex/trains")) (test module_ext_re));
}

unfoldable pub resolving : Execution → List Module
unfolding test resolves_re
resolving e = keep (λ x. test resolves_re x.text) e.modules

unfoldable pub transcribed : Execution → List Text
unfolding resolving restates sort_texts
transcribed e = sort_texts (unique (concat_map (λ x. keep (restates x) e.declared) (resolving e)))

unfoldable pub reads_nothing : Execution → Bool
unfolding resolving loads_with_imports
reads_nothing e = not (any (loads_with_imports e.modules) (resolving e))

abbrev pub rel_module : Text → Text → Text
rel_module croot f = if is_prefix (croot ++ codes "/") f then drop (length croot + 1) f else f

-- The violation, at the first module that resolves.
unfoldable pub transcribes : Text → Execution → Module → Violation
unfolding transcribed reads_nothing
transcribes croot e first = record {
  rule_id = codes "coder.convex.runtime-executes-the-declaration";
  file = rel_module croot first.file;
  line = 1;
  col = 0;
  evidence = says (
      (if reads_nothing e
        then codes "the InterlockingRunner runtime never reads the interlocking declaration and "
        else codes
            "the InterlockingRunner runtime reads its declaration but restates the route space, and ")
      ∷ codes "restates "
      ∷ decimal (length (transcribed e))
      ∷ codes " declared value(s) as literals ("
      ∷ join_with (codes ", ") (transcribed e)
      ∷ codes "); the route space is transcribed, not executed — delete the plan and this "
      ∷ codes "runtime keeps answering"
      ∷ []);
  source_line = [];
}

abbrev pub has_any : {A : Type 0} → List A → Bool
has_any [] = false
has_any (x ∷ xs) = true

abbrev pub report_execution : Text → Execution → List Module → List Violation
report_execution croot e [] = []
report_execution croot e (first ∷ more) =
    if not (has_any (transcribed e)) && not (reads_nothing e)
    then []
    else transcribes croot e first ∷ []

-- One round of the loop over the consumer trees.
unfoldable pub check_execution : Text → Execution → List Violation
unfolding resolving transcribed reads_nothing transcribes
check_execution croot e = if has_any e.declared then report_execution croot e (resolving e) else []

-- `scanExecution(scanRoot)`
unfoldable pub scan_execution : Files → Text → List Violation
unfolding marked_roots read_execution check_execution
scan_execution fs scan_root =
    concat_map (λ croot. check_execution croot (read_execution fs croot))
      (marked_roots fs scan_root)
