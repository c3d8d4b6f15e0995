-- ===== src/Convex/Complexity/Scan.antt =====
-- `parseJsonEnv`, `isExcluded`, `walk` and `main` of the complexity checks.
pub mod Walk
pub mod Excludes
pub mod Report
pub mod Write
use atdd_extensions.Base.{
  ℕ, Bool, true, false, not, ◌&&◌, ◌||◌, List, [], ◌∷◌, ◌++◌, Option, none, some, ◌==◌,
  if◌then◌else◌, Text, codes, one_of, has_text, any,
}
use atdd_extensions.Base.Paths.{
  Node, file, dir, missing, closed, other, Entries, no_entry, entry, EnvVar, unset, malformed,
  not_array, array, split_on, includes, extname,
}
use atdd_extensions.Base.Join.{join}
use atdd_extensions.Base.Report.{Violation}
use atdd_extensions.Regex.{Regex, class, seq, alt, option, end_of_text, literal, test}
use atdd_extensions.Convex.Complexity.Functions.{Fn, extract_functions}
use atdd_extensions.Convex.Complexity.Checks.{
  evaluate_cyclomatic, evaluate_cognitive, evaluate_length, evaluate_nesting, evaluate_params,
}

abbrev pub default_excludes : List Text
default_excludes =
    codes "_generated" ∷ codes "node_modules" ∷ codes "dist" ∷ codes "build" ∷ codes ".next" ∷ []

abbrev pub ts_ext : List Text
ts_ext = codes ".ts" ∷ codes ".tsx" ∷ codes ".js" ∷ codes ".mjs" ∷ []

-- `/\.(test|spec)\.[cm]?[jt]sx?$/`
unfoldable pub test_re : Regex
unfolding literal
test_re = seq (literal (codes ".")) (
    seq (alt (literal (codes "test")) (literal (codes "spec"))) (
      seq (literal (codes ".")) (
        seq (option (class (one_of (codes "cm")))) (
          seq (class (one_of (codes "jt")))
            (seq (literal (codes "s")) (seq (option (literal (codes "x"))) end_of_text))))))

unfoldable pub parse_json_env : EnvVar → List Text → List Text
parse_json_env unset fallback = fallback
parse_json_env malformed fallback = fallback
parse_json_env not_array fallback = fallback
parse_json_env (array v) fallback = v

unfoldable pub is_excluded : Text → List Text → Bool
unfolding split_on
is_excluded path excludes =
    any (λ ex. has_text (split_on b'/' path) ex || includes path ex) excludes

-- `TS_EXT.has(extname(path)) && !TEST_RE.test(path)`
unfoldable pub is_source : Text → Bool
unfolding extname test test_re
is_source path = has_text ts_ext (extname path) && not (test test_re path)

-- A file that `walk` yields, with what `readFileSync` gives for it.
pub record Yielded : Type 0 where
  pub path : Text
  pub content : Option Text

-- The files that `walk` yields, or none if it throws.
abbrev pub Walk : Type 0
Walk = Option (List Yielded)

abbrev pub then_walk : Walk → Walk → Walk
then_walk none later = none
then_walk (some fs) none = none
then_walk (some fs) (some gs) = some (fs ++ gs)

abbrev pub yield_file : Text → Option Text → Walk
yield_file path content =
    some (if is_source path then record { path = path; content = content } ∷ [] else [])

-- `walk` on a directory's entries, and on the child that it has stat'ed.
unfoldable mutual
  unfolding is_excluded is_source join

  pub walk_entries : Text → List Text → Entries → Walk
  walk_entries root excludes no_entry = some []
  walk_entries root excludes (entry name node rest) =
      let later = walk_entries root excludes rest in
      let here = walk_child (join root name) excludes node in
      if is_excluded (join root name) excludes then later else then_walk here later

  pub walk_child : Text → List Text → Node → Walk
  walk_child full excludes missing = some []
  walk_child full excludes (file content) = yield_file full content
  walk_child full excludes other = yield_file full none
  walk_child full excludes (dir entries) = walk_entries full excludes entries
  walk_child full excludes closed = none

-- `walk(root, excludes)`
unfoldable pub walk : Text → List Text → Node → Walk
unfolding walk_entries
walk root excludes missing = some []
walk root excludes (file content) = yield_file root content
walk root excludes (dir entries) = walk_entries root excludes entries
walk root excludes closed = none
walk root excludes other = none

-- What one check brings along: its rule and its `evaluate`.
pub record Check : Type 0 where
  pub rule_id : Text
  pub evaluate : Fn → Option Text

abbrev pub violation : Check → Text → Fn → Text → Violation
violation check path fn hit = record {
  rule_id = check.rule_id;
  file = path;
  line = fn.header_line_no;
  col = fn.header_col;
  evidence = hit;
  source_line = fn.header_line_text;
}

-- `for (const fn of extractFunctions(text))`
unfoldable pub judge : Check → Text → List Fn → List Violation
judge check path [] = []
judge check path (fn ∷ fns) = elim (check.evaluate fn) [
  | none ↦ judge check path fns
  | some hit ↦ violation check path fn hit ∷ judge check path fns
]

-- The violations of the files that a walk yields; an unreadable one is passed over.
unfoldable pub judge_files : Check → List Yielded → List Violation
unfolding judge
judge_files check [] = []
judge_files check (f ∷ fs) = elim f.content [
  | none ↦ judge_files check fs
  | some text ↦ judge check f.path (extract_functions text) ++ judge_files check fs
]

-- The environment of `main`: the variables, the tree that each root names, and the paths at which
-- `writeFileSync` succeeds.
pub record Env : Type 0 where
  pub report_path : Option Text
  pub scan_roots : EnvVar
  pub scan_excludes : EnvVar
  pub stat : Text → Node
  pub writable : Text → Bool

-- How a run ends: without a report path (exit 2), by an exception, or with its report (exit 0).
pub data Outcome : Type 0 where
  no_report_path crashed : Outcome
  reported : List Violation → Outcome

abbrev pub exit_code : Outcome → ℕ
exit_code no_report_path = 2
exit_code crashed = 1
exit_code (reported vs) = 0

-- `for (const root of roots)`
unfoldable pub walk_roots : Env → List Text → List Text → Walk
unfolding walk
walk_roots env excludes [] = some []
walk_roots env excludes (root ∷ roots) =
    then_walk (walk root excludes (env.stat root)) (walk_roots env excludes roots)

-- `writeFileSync(path, JSON.stringify({ violations }))`, which throws if it cannot write there.
abbrev pub write_file : (Text → Bool) → Text → List Violation → Outcome
write_file writable path violations = if writable path then reported violations else crashed

abbrev pub finish : Check → (Text → Bool) → Text → Walk → Outcome
finish check writable path none = crashed
finish check writable path (some files) = write_file writable path (judge_files check files)

abbrev pub excludes_of : Env → List Text
excludes_of env = default_excludes ++ parse_json_env env.scan_excludes []

unfoldable pub main : Check → Env → Outcome
unfolding walk_roots judge_files parse_json_env
main check env = elim env.report_path [
  | none ↦ no_report_path
  | some path ↦
      finish check env.writable path
        (walk_roots env (excludes_of env) (parse_json_env env.scan_roots []))
]

abbrev pub cyclomatic_check : Check
cyclomatic_check = record {
  rule_id = codes "coder.convex.complexity-cyclomatic";
  evaluate = evaluate_cyclomatic;
}

abbrev pub cognitive_check : Check
cognitive_check = record {
  rule_id = codes "coder.convex.complexity-cognitive";
  evaluate = evaluate_cognitive;
}

abbrev pub length_check : Check
length_check = record {
  rule_id = codes "coder.convex.complexity-length";
  evaluate = evaluate_length;
}

abbrev pub nesting_check : Check
nesting_check = record {
  rule_id = codes "coder.convex.complexity-nesting";
  evaluate = evaluate_nesting;
}

abbrev pub params_check : Check
params_check = record {
  rule_id = codes "coder.convex.complexity-params";
  evaluate = evaluate_params;
}
