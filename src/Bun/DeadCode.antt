-- ===== src/Bun/DeadCode.antt =====
-- implementations/bun_ts_metrics_detector: `resolveImport`, `isTestFile` and `isRootFile` of
-- ts_metrics.mjs, and the check checks/ts_dead_code.mjs for the files of one root.
pub mod Report
pub mod Run
use atdd_extensions.Base.{
  ℕ, Bool, true, false, not, ◌&&◌, ◌||◌, List, [], ◌∷◌, ◌++◌, Option, none, some, if◌then◌else◌,
  ◌==◌, Text, codes, one_of, text_eq, has_text, trim, any, get_or, drop, keep,
}
use atdd_extensions.Base.Paths.{split_on, is_prefix, basename}
use atdd_extensions.Base.Report.{Violation}
use atdd_extensions.Regex.{Regex, seq, alt, option, end_of_text, literal, test}
use atdd_extensions.Bun.Graph.{Vertex, Graph, add_to, reachable_from, reverse_graph}

-- What the check uses of Bun and of node:path: `moduleImports(source, file)`, whose work is done by
-- Bun's parser, `resolve(from, specifier)` and `dirname(file)`.
pub record Host : Type 0 where
  pub module_imports : Text → Text → List Text
  pub resolve_path : Text → Text → Text
  pub dirname : Text → Text

-- The text in front of its last dot, if no separator stands behind that.
unfoldable pub before_ext : Text → Option Text
before_ext [] = none
before_ext (c ∷ cs) = elim (before_ext cs) [
  | some p ↦ some (c ∷ p)
  | none ↦ if c == b'.' && not (any (one_of (codes "./")) cs) then some [] else none
]

-- `base.replace(/\.[^./]*$/, "") === base ? base + ext : base.replace(/\.[^./]*$/, ext)`
unfoldable pub with_ext : Text → Text → Text
unfolding before_ext
with_ext base ext = elim (before_ext base) [ none ↦ base ++ ext | some p ↦ p ++ ext ]

-- `if (allFiles.has(c)) candidates.add(c)`
abbrev pub add_file : List Text → Text → List Text → List Text
add_file all_files c candidates = if has_text all_files c then add_to c candidates else candidates

-- One round of the loop over the extensions.
unfoldable pub add_ext : List Text → Text → Text → List Text → List Text
unfolding with_ext
add_ext all_files base ext candidates =
    add_file all_files (base ++ (codes "/index" ++ ext))
      (add_file all_files (base ++ ext) (add_file all_files (with_ext base ext) candidates))

unfoldable pub import_base : Host → Text → Text → Text → Option Text
import_base host specifier source_file root =
    if is_prefix (codes ".") specifier
    then some (host.resolve_path (host.dirname source_file) specifier)
    else if is_prefix (codes "@/") specifier
    then some (host.resolve_path root (drop 2 specifier))
    else none

-- `resolveImport(specifier, sourceFile, allFiles, root)`
unfoldable pub resolve_import : Host → Text → Text → List Text → Text → List Text
unfolding add_ext import_base
resolve_import host specifier source_file all_files root =
    elim (import_base host specifier source_file root) [
      | none ↦ []
      | some base ↦
          add_file all_files base
            (add_ext all_files base (codes ".tsx") (add_ext all_files base (codes ".ts") []))
    ]

abbrev pub add_all : List Text → List Text → List Text
add_all [] set = set
add_all (c ∷ cs) set = add_all cs (add_to c set)

-- `for (const spec of M.moduleImports(text ?? "", f))`
unfoldable pub import_targets : Host → Text → List Text → Text → List Text → List Text → List Text
unfolding resolve_import
import_targets host f all root [] targets = targets
import_targets host f all root (spec ∷ specs) targets =
    import_targets host f all root specs (add_all (resolve_import host spec f all root) targets)

abbrev pub text_or_empty : Option Text → Text
text_or_empty none = []
text_or_empty (some text) = text

-- `for (const f of files)`, which builds the graph.
unfoldable pub build_graph : Host → (Text → Option Text) → Text → List Text → List Text → Graph
unfolding import_targets
build_graph host read_text root all [] = []
build_graph host read_text root all (f ∷ files) =
    record {
      file = f;
      targets =
          import_targets host f all root (host.module_imports (text_or_empty (read_text f)) f) [];
    }
    ∷ build_graph host read_text root all files

abbrev pub root_filenames : List Text
root_filenames =
    codes "index.ts" ∷ codes "index.tsx" ∷ codes "wagon.ts" ∷ codes "composition.ts" ∷ []

abbrev pub entry_filenames : List Text
entry_filenames =
    codes "main.ts" ∷ codes "main.tsx" ∷ codes "app.ts" ∷ codes "app.tsx" ∷ codes "server.ts" ∷ []

abbrev pub structural : List Text
structural = codes "index.ts" ∷ codes "index.tsx" ∷ []

unfoldable pub is_root_file : Text → Bool
unfolding basename
is_root_file f = has_text root_filenames (basename f) || has_text entry_filenames (basename f)

-- `/\.(test|spec)\.tsx?$/`
unfoldable pub test_file_re : Regex
unfolding literal
test_file_re = seq (literal (codes ".")) (
    seq (alt (literal (codes "test")) (literal (codes "spec")))
      (seq (literal (codes ".ts")) (seq (option (literal (codes "x"))) end_of_text)))

unfoldable pub is_test_file : Text → Bool
unfolding test test_file_re split_on
is_test_file f =
    test test_file_re f
    || any (has_text (codes "__tests__" ∷ codes "tests" ∷ codes "test" ∷ [])) (split_on b'/' f)

-- Whether the last loop passes a file over.
unfoldable pub is_spared : List Text → List Text → Text → Bool
unfolding is_test_file basename
is_spared forward backward f =
    has_text forward f || has_text backward f || has_text structural (basename f) || is_test_file f

abbrev pub dead_violation : (Text → Option Text) → Text → Violation
dead_violation read_text f = record {
  rule_id = codes "coder.bun.dead-code-reachability";
  file = f;
  line = 1;
  col = 0;
  evidence = codes "unreachable TypeScript file: " ++ basename f;
  source_line = trim (get_or (split_on b'\n' (text_or_empty (read_text f))) 0 []);
}

-- `for (const f of files)`, which reports.
unfoldable pub report_dead :
    (Text → Option Text) → List Text → List Text → List Text → List Violation
unfolding is_spared
report_dead read_text forward backward [] = []
report_dead read_text forward backward (f ∷ files) =
    let rest = report_dead read_text forward backward files in
    if is_spared forward backward f then rest else dead_violation read_text f ∷ rest

abbrev pub report_both :
    (Text → Option Text)
    → List Text
    → Option (List Text)
    → Option (List Text)
    → Option (List Violation)
report_both read_text files none backward = none
report_both read_text files (some forward) none = none
report_both read_text files (some forward) (some backward) =
    some (report_dead read_text forward backward files)

-- From `const roots` on.
unfoldable pub search_dead :
    (Text → Option Text) → List Text → Graph → List Text → Option (List Violation)
unfolding reachable_from reverse_graph report_dead
search_dead read_text files graph [] = some []
search_dead read_text files graph (r ∷ roots) =
    report_both read_text files (reachable_from (r ∷ roots) graph)
      (reachable_from (r ∷ roots) (reverse_graph graph))

-- The body of `for (const root of readRoots())`, on the files that `walk` yields.
unfoldable pub dead_code : Host → (Text → Option Text) → Text → List Text → Option (List Violation)
unfolding build_graph search_dead is_root_file
dead_code host read_text root files =
    search_dead read_text files (build_graph host read_text root files files)
      (keep is_root_file files)
