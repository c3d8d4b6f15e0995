-- ===== src/Convex/Interlocking/Imports.antt =====
-- `loadsWithImports`: whether a module, or one that it imports and uses, reads a file.
use atdd_extensions.Base.{
  ℕ, Bool, false, not, ◌&&◌, ◌||◌, List, [], ◌∷◌, Option, none, some, if◌then◌else◌, Text, codes,
  any, keep, one_of, is_space, is_word, text_eq, ◌==◌,
}
use atdd_extensions.Regex.{
  Regex, class, star, lazy, seq, alt, option, group, boundary, end_of_text, start_of_text,
  line_start, line_end, Match, captured, match_all, test, replace_all, remove_first,
}
use atdd_extensions.Convex.Interlocking.Patterns.{chain, spaces, lit, plus, is_dot}
use atdd_extensions.Convex.Interlocking.Space.{Module}

-- `\bname\s*\(`
unfoldable pub call_re : Regex → Regex
unfolding lit
call_re name = chain (boundary ∷ name ∷ spaces ∷ lit "(" ∷ [])

-- `LOADS_DECLARATION`
unfoldable pub loads_re : Regex
unfolding call_re lit
loads_re = alt (call_re (lit "readFileSync")) (
    alt (call_re (lit "readFile")) (
      alt (call_re (chain (lit "Bun" ∷ spaces ∷ lit "." ∷ spaces ∷ lit "file" ∷ []))) (
        alt (call_re (lit "createReadStream")) (
          chain (
            boundary
            ∷ lit "fs"
            ∷ spaces
            ∷ lit "."
            ∷ spaces
            ∷ lit "promises"
            ∷ spaces
            ∷ lit "."
            ∷ spaces
            ∷ lit "readFile"
            ∷ boundary
            ∷ [])))))

-- `/^\s*import\s[^;]*;?$/gm`
unfoldable pub import_line_re : Regex
unfolding lit
import_line_re = chain (
    line_start
    ∷ spaces
    ∷ lit "import"
    ∷ class is_space
    ∷ star (λ c. not (c == b';'))
    ∷ option (lit ";")
    ∷ line_end
    ∷ [])

-- `/import\s+(\{[^}]*\}|[\w*\s]+?)\s+from\s+["'](\.[^"']+)["']/g`
unfoldable pub import_re : Regex
unfolding lit
import_re = chain (
    lit "import"
    ∷ plus is_space
    ∷ group (
        alt (chain (lit "{" ∷ star (λ c. not (c == b'}')) ∷ lit "}" ∷ [])) (
          seq (class (λ c. is_word c || c == b'*' || is_space c))
            (lazy (λ c. is_word c || c == b'*' || is_space c))))
    ∷ plus is_space
    ∷ lit "from"
    ∷ plus is_space
    ∷ class (one_of (codes "\"'"))
    ∷ group (seq (lit ".") (plus (λ c. not (one_of (codes "\"'") c))))
    ∷ class (one_of (codes "\"'"))
    ∷ [])

abbrev pub cons_char : ℕ → List Text → List Text
cons_char c [] = (c ∷ []) ∷ []
cons_char c (t ∷ ts) = (c ∷ t) ∷ ts

-- `replace(/[{}*]/g, " ").split(/[\s,]+/)`: the runs of other characters, with the empty ones that
-- separators in a row leave, which the filter behind it drops.
unfoldable pub name_runs : Text → List Text
name_runs [] = [] ∷ []
name_runs (c ∷ cs) =
    let rest = name_runs cs in
    if is_space c || c == b',' || one_of (codes "{}*") c then [] ∷ rest else cons_char c rest

abbrev pub is_name : Text → Bool
is_name [] = false
is_name (c ∷ cs) = not (text_eq (c ∷ cs) (codes "as")) && not (text_eq (c ∷ cs) (codes "type"))

unfoldable pub imported_names : Text → List Text
unfolding name_runs
imported_names clause = keep is_name (name_runs clause)

-- ``new RegExp(`\\b${n}\\b`)``. Of the characters with a meaning names have `$` only.
unfoldable pub name_pattern : Text → Regex
name_pattern [] = boundary
name_pattern (c ∷ cs) =
    seq (if c == b'$' then end_of_text else class (λ x. x == c)) (name_pattern cs)

unfoldable pub name_re : Text → Regex
unfolding name_pattern
name_re n = seq boundary (name_pattern n)

-- `/\.(ts|tsx|mjs|js)$/`
unfoldable pub module_ext_re : Regex
unfolding lit
module_ext_re =
    chain
      (lit "." ∷ alt (lit "ts") (alt (lit "tsx") (alt (lit "mjs") (lit "js"))) ∷ end_of_text ∷ [])

-- `/^.*\//` and `/^.*[\\/]/`
unfoldable pub dirs_re : (ℕ → Bool) → Regex
unfolding is_dot
dirs_re is_sep = chain (start_of_text ∷ star is_dot ∷ class is_sep ∷ [])

unfoldable pub import_tail : Text → Text
unfolding remove_first dirs_re module_ext_re
import_tail specifier =
    remove_first module_ext_re (remove_first (dirs_re (λ c. c == b'/')) specifier)

unfoldable pub module_name : Text → Text
unfolding remove_first dirs_re module_ext_re
module_name f = remove_first module_ext_re (remove_first (dirs_re (λ c. c == b'\\' || c == b'/')) f)

-- `allFiles.find(…)`
unfoldable pub find_module : Module → Text → List Module → Option Module
unfolding test module_ext_re module_name
find_module mod_ tail [] = none
find_module mod_ tail (f ∷ fs) =
    let rest = find_module mod_ tail fs in
    if not (text_eq f.file mod_.file)
      && (test module_ext_re f.file && text_eq (module_name f.file) tail)
    then some f
    else rest

unfoldable pub loads : Text → Bool
unfolding test loads_re
loads text = test loads_re text

abbrev pub found_loads : Option Module → Bool
found_loads none = false
found_loads (some f) = loads f.text

-- Whether an import is used in the body and leads to a module that reads.
unfoldable pub import_loads : Module → Text → List Module → Match → Bool
unfolding imported_names captured test name_re import_tail find_module loads
import_loads mod_ body all_files m =
    any (λ n. test (name_re n) body) (imported_names (captured m 0))
    && found_loads (find_module mod_ (import_tail (captured m 1)) all_files)

-- `loadsWithImports(mod, allFiles)`
unfoldable pub loads_with_imports : List Module → Module → Bool
unfolding loads replace_all import_line_re match_all import_re import_loads
loads_with_imports all_files mod_ =
    loads mod_.text
    || any (import_loads mod_ (replace_all import_line_re (λ m. []) mod_.text) all_files)
        (match_all import_re mod_.text)
