-- ===== src/Convex/Interlocking/Run.antt =====
-- `main` of the binding detector, which runs both checks over the scan roots.
pub mod Reports
pub mod Throws
use atdd_extensions.Base.{Bool, List, [], ◌∷◌, ◌++◌, Option, none, some, Text}
use atdd_extensions.Base.Build.{then_all, collect}
use atdd_extensions.Base.Paths.{EnvVar}
use atdd_extensions.Base.Report.{Violation}
use atdd_extensions.Convex.Complexity.Scan.{
  Outcome, no_report_path, crashed, write_file, parse_json_env,
}
use atdd_extensions.Convex.Interlocking.Tree.{Files, find_consumer_roots}
use atdd_extensions.Convex.Interlocking.Scan.{scan_consumer_root}
use atdd_extensions.Convex.Interlocking.Executes.{scan_execution}

-- The environment: the variables, what stands at each path, the working directory,
-- and the paths that can be written.
pub record Mount : Type 0 where
  pub report_path : Option Text
  pub scan_roots : EnvVar
  pub files : Files
  pub cwd : Text
  pub writable : Text → Bool

-- `for (const croot of findConsumerRoots(scanRoot))`
unfoldable pub scan_trees : Files → Text → List Text → Option (List Violation)
unfolding scan_consumer_root
scan_trees fs cwd = collect (scan_consumer_root fs cwd)

abbrev pub scan_found : Files → Text → Option (List Text) → Option (List Violation)
scan_found fs cwd none = none
scan_found fs cwd (some croots) = scan_trees fs cwd croots

unfoldable pub scan_root : Files → Text → Text → Option (List Violation)
unfolding find_consumer_roots scan_trees scan_execution
scan_root fs cwd root =
    then_all (scan_found fs cwd (find_consumer_roots fs root)) (some (scan_execution fs root))

-- `for (const scanRoot of roots)`
unfoldable pub scan_all : Files → Text → List Text → Option (List Violation)
unfolding scan_root
scan_all fs cwd = collect (scan_root fs cwd)

abbrev pub end_with : (Text → Bool) → Text → Option (List Violation) → Outcome
end_with writable path none = crashed
end_with writable path (some vs) = write_file writable path vs

unfoldable pub run_binding : Mount → Outcome
unfolding scan_all parse_json_env
run_binding m = elim m.report_path [
  | none ↦ no_report_path
  | some path ↦ end_with m.writable path (scan_all m.files m.cwd (parse_json_env m.scan_roots []))
]
