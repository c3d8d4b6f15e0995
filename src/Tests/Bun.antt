-- ===== src/Tests/Bun.antt =====
-- The same for the Bun detectors.
use atdd_extensions.Base.{
  true, is_space, ◌≤◌, ◌<◌, ◌-◌, slice, get_elem?, ◌+◌, ◌≡◌, ◌≢◌, ◌↔◌, refl, sym, ◌∙◌, inl, inr,
  List, [], ◌∷◌, ◌++◌, Option, none, some, false, Text, codes, length, drop, In, keep, trim,
  has_text,
}
use atdd_extensions.Base.Paths.{file, dir, entry, no_entry, Entries}
use atdd_extensions.Base.Report.{Violation}
use atdd_extensions.Convex.Complexity.Mask.Laws.{Blanks}
use atdd_extensions.Convex.Complexity.LineIndex.Search.{newlines}
use atdd_extensions.Bun.Graph.{Graph, targets_of, reachable_from, reverse_graph}
use atdd_extensions.Bun.Graph.Reach.{Reach, reachable_from-Reach}
use atdd_extensions.Bun.Graph.Reverse.{
  Edge, files_of, LeadsTo, reverse_graph_lem, Reach-reverse_graph,
}
use atdd_extensions.Bun.DeadCode.{
  Host, resolve_import, build_graph, is_root_file, dead_violation, dead_code,
}
use atdd_extensions.Bun.DeadCode.Run.{DeadCause, run_dead_code, run_dead_code-reports}
use atdd_extensions.Convex.Complexity.Scan.{Env, reported, write_file}
use atdd_extensions.Base.Paths.{array, unset, basename, split_on}
use atdd_extensions.Bun.DeadCode.Report.{IsDead, dead_code_lem, resolve_import-In}
use atdd_extensions.Bun.Scan.{mask_literals_and_comments, locate}
use atdd_extensions.Bun.Scan.Mask.{mask_literals_and_comments-Blanks}
use atdd_extensions.Bun.Scan.Locate.{locate_lem}
use atdd_extensions.Convex.Complexity.Brackets.{match_brace}
use atdd_extensions.Bun.Braces.{match_braces, find_opening_brace, count_code_lines}
use atdd_extensions.Bun.Braces.Agree.{match_braces-eq-match_brace}
use atdd_extensions.Bun.Tags.{Tag, enclosing_tag, template_literals}
use atdd_extensions.Bun.Tags.Enclose.{enclosing_tag-some}
use atdd_extensions.Bun.Walk.{read_excludes, read_roots, is_wanted, walk_files, walk_by_name}
use atdd_extensions.Bun.Walk.Yields.{Within, walks-Within}

abbrev small : Graph
small =
    record { file = codes "a"; targets = codes "b" ∷ codes "a" ∷ [] }
    ∷ record { file = codes "b"; targets = [] }
    ∷ record { file = codes "c"; targets = codes "b" ∷ [] }
    ∷ []

abbrev from_a : List Text
from_a = codes "a" ∷ []

small_reached : reachable_from from_a small ≡ some (codes "b" ∷ codes "a" ∷ [])
unfolding reachable_from
small_reached = refl

reachable_from-Reach_example :
    (vs : List Text) × (reachable_from from_a small ≡ some vs)
    × ((f : Text) → In f vs ↔ Reach small from_a f)
reachable_from-Reach_example = reachable_from-Reach from_a small

reverse_graph_lem_example :
    In (codes "c") (targets_of (reverse_graph small) (codes "b"))
    ↔ (Edge small (codes "c") (codes "b") × In (codes "b") (files_of small))
reverse_graph_lem_example = reverse_graph_lem small (codes "c") (codes "b")

Reach-reverse_graph_example :
    Reach (reverse_graph small) from_a (codes "c") ↔ LeadsTo small from_a (codes "c")
Reach-reverse_graph_example = Reach-reverse_graph small from_a (codes "c")

-- Every file imports `./a`.
abbrev host : Host
host = record {
  module_imports = λ source f. codes "./a" ∷ [];
  resolve_path = λ from specifier. from ++ drop 1 specifier;
  dirname = λ f. codes "/r";
}

abbrev three_files : List Text
three_files = codes "/r/main.ts" ∷ codes "/r/a.ts" ∷ codes "/r/b.test.ts" ∷ []

abbrev texts : Text → Option Text
texts f = some (codes "import './a'")

main_found : keep is_root_file three_files ≡ codes "/r/main.ts" ∷ []
unfolding is_root_file
main_found = refl

main_there : keep is_root_file three_files ≢ []
main_there e = let same = sym main_found ∙ e in cc

dead_code_lem_example :
    (vs : List Violation) × (dead_code host texts (codes "/r") three_files ≡ some vs)
    × ((v : Violation)
        → In v vs ↔ (
            (f : Text) × In f three_files
            × IsDead
                (build_graph host texts (codes "/r") three_files three_files)
                (keep is_root_file three_files)
                f
            × (v ≡ dead_violation texts f)))
dead_code_lem_example = dead_code_lem host texts (codes "/r") three_files main_there

a_resolved :
    resolve_import host (codes "./a") (codes "/r/main.ts") three_files (codes "/r")
    ≡ codes "/r/a.ts" ∷ []
unfolding resolve_import
a_resolved = refl

a_there :
    In
      (codes "/r/a.ts")
      (resolve_import host (codes "./a") (codes "/r/main.ts") three_files (codes "/r"))
a_there = rw a_resolved (inl refl)

resolve_import-In_example : In (codes "/r/a.ts") three_files
resolve_import-In_example =
    resolve_import-In host (codes "./a") (codes "/r/main.ts") three_files (codes "/r")
      (codes "/r/a.ts") a_there

bun_mask_runs :
    mask_literals_and_comments (codes "a('b\\'c') // d\n`e` /* f */ g")
    ≡ codes "a('    ')     \n` `         g"
unfolding mask_literals_and_comments
bun_mask_runs = refl

-- The last character of a literal that does not end stays.
bun_mask_unterminated : mask_literals_and_comments (codes "x = \"abc") ≡ codes "x = \"  c"
unfolding mask_literals_and_comments
bun_mask_unterminated = refl

mask_literals_and_comments-Blanks_example :
    Blanks (codes "a 'b' // c") (mask_literals_and_comments (codes "a 'b' // c"))
mask_literals_and_comments-Blanks_example = mask_literals_and_comments-Blanks (codes "a 'b' // c")

locate_lem_example :
    locate
      ((codes "a\n" ++ codes " b") ++ (codes "cd" ++ codes "\ne"))
      (length (codes "a\n" ++ codes " b"))
    ≡ record {
      line = newlines (codes "a\n") + 1;
      col = length (codes " b") + 1;
      source_line = trim (codes " b" ++ codes "cd");
    }
locate_lem_example =
    locate_lem (codes "a\n") (codes " b") (codes "cd") (codes "\ne") (inr (codes "a", refl))
      (refl, (refl, tt)) (refl, (refl, tt)) refl

abbrev bun_tree : Entries
bun_tree = entry (codes "a.ts") (file none) (entry (codes "a.test.ts") (file none) no_entry)

bun_walked :
    walk_files (codes "src") (codes "dist" ∷ []) (codes ".ts" ∷ []) false (dir bun_tree)
    ≡ codes "src/a.ts" ∷ []
unfolding walk_files
bun_walked = refl

walks-Within_example :
    (In
        (codes "src/a.ts")
        (walk_files (codes "src") (codes "dist" ∷ []) (codes ".ts" ∷ []) false (dir bun_tree))
      ↔ Within
          (λ name full. is_wanted (codes ".ts" ∷ []) false full)
          (codes "dist" ∷ [])
          (codes "src")
          bun_tree
          (codes "src/a.ts"))
    × (In
          (codes "src/a.ts")
          (walk_by_name (codes "src") (codes "dist" ∷ []) (codes "a.ts" ∷ []) (dir bun_tree))
        ↔ Within
            (λ name full. has_text (codes "a.ts" ∷ []) name)
            (codes "dist" ∷ [])
            (codes "src")
            bun_tree
            (codes "src/a.ts"))
walks-Within_example =
    walks-Within (codes "src") (codes "dist" ∷ []) (codes ".ts" ∷ []) (codes "a.ts" ∷ []) false
      bun_tree (codes "src/a.ts")

braces_in_strings : match_braces (codes "{ '}' /* } */ }") 0 ≡ some 14
unfolding match_braces
braces_in_strings = refl

body_brace : find_opening_brace (codes "(a = {}) {") 0 ≡ some 9
unfolding find_opening_brace
body_brace = refl

code_lines_counted : count_code_lines (codes "a\n  // b\n/* c\n d */\n\ne") ≡ 2
unfolding count_code_lines is_space
code_lines_counted = refl

match_braces-eq-match_brace_example :
    match_braces (codes "a{b{}}") 1 ≡ match_brace (codes "a{b{}}") 1
match_braces-eq-match_brace_example =
    match_braces-eq-match_brace (codes "a{b{}}") 1
      (refl, (refl, (refl, (refl, (refl, (refl, tt))))))

abbrev link : Text
link = codes "<p> <a href='x>y'>z</a>"

abbrev link_tag : Tag
link_tag = record { start = 4; stop = 18; text = codes "<a href='x>y'>" }

link_found : enclosing_tag link 8 ≡ some link_tag
unfolding enclosing_tag
link_found = refl

enclosing_tag-some_example :
    (link_tag.start ≤ 8)
    × (8 + 1 < link_tag.stop)
    × (get_elem? link link_tag.start ≡ some b'<')
    × (get_elem? link (link_tag.stop - 1) ≡ some b'>')
    × (link_tag.text ≡ slice link link_tag.start link_tag.stop)
enclosing_tag-some_example = enclosing_tag-some link 8 link_tag link_found

templates_found :
    template_literals (codes "x `a${b}` `c")
    ≡ record { start = 2; text = codes "`a${b}`" } ∷ record { start = 10; text = codes "`c" } ∷ []
unfolding template_literals
templates_found = refl

abbrev bun_env : Env
bun_env = record {
  writable = λ path. true;
  report_path = some (codes "report.json");
  scan_roots = array (codes "/r" ∷ []);
  scan_excludes = unset;
  stat = λ path. dir (
      entry (codes "main.ts") (file none)
        (entry (codes "a.ts") (file none) (entry (codes "b.ts") (file none) no_entry)));
}

-- `b.ts` is imported by nothing; it leads to no root, though it imports `a.ts`.
dead_run :
    run_dead_code host texts bun_env ≡ some (reported (dead_violation texts (codes "/r/b.ts") ∷ []))
unfolding run_dead_code basename split_on read_excludes
dead_run = refl

run_dead_code-reports_example :
    (vs : List Violation) × (run_dead_code host texts bun_env
      ≡ some (write_file bun_env.writable (codes "report.json") vs))
    × ((v : Violation)
        → In v vs ↔ (
            (root : Text) × In root (read_roots bun_env.scan_roots)
            × DeadCause host texts bun_env root v))
run_dead_code-reports_example = run_dead_code-reports host texts bun_env (codes "report.json") refl
