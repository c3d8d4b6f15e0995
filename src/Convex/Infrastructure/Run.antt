-- ===== src/Convex/Infrastructure/Run.antt =====
-- The loops over the scan roots and the consumer trees, which the five scripts share, and
-- `writeReport`.
pub mod Loops
pub mod Reports
use atdd_extensions.Base.{Bool, List, [], ◌∷◌, Option, none, some, Text}
use atdd_extensions.Base.Build.{collect}
use atdd_extensions.Base.Paths.{EnvVar}
use atdd_extensions.Base.Report.{Violation}
use atdd_extensions.Convex.Complexity.Scan.{
  Outcome, no_report_path, crashed, write_file, parse_json_env,
}
use atdd_extensions.Convex.Interlocking.Tree.{Files, find_consumer_roots}
use atdd_extensions.Convex.Infrastructure.Rules.{
  check_delegates, check_cargo, check_resolution, check_runner_exists, check_station,
}

-- The scripts.
pub data Rule : Type 0 where
  delegates no_cargo resolution_model runner_exists station_routing : Rule

-- The body of a script's inner loop.
unfoldable pub check_tree : Rule → Files → Text → Option (List Violation)
unfolding check_delegates check_cargo check_resolution check_runner_exists check_station
check_tree delegates = check_delegates
check_tree no_cargo = check_cargo
check_tree resolution_model = check_resolution
check_tree runner_exists = check_runner_exists
check_tree station_routing = check_station

pub record Start : Type 0 where
  pub report_path : Option Text
  pub scan_roots : EnvVar
  pub files : Files
  pub writable : Text → Bool

-- `for (const croot of findConsumerRoots(scanRoot))`
abbrev pub over_trees :
    (Text → Option (List Violation)) → Option (List Text) → Option (List Violation)
over_trees check none = none
over_trees check (some croots) = collect check croots

unfoldable pub check_roots : Rule → Files → List Text → Option (List Violation)
unfolding check_tree find_consumer_roots
check_roots rule fs =
    collect (λ root. over_trees (check_tree rule fs) (find_consumer_roots fs root))

-- `writeReport(violations)`, which is reached if nothing throws before it.
abbrev pub write_report : (Text → Bool) → Option Text → Option (List Violation) → Outcome
write_report writable path none = crashed
write_report writable none (some vs) = no_report_path
write_report writable (some path) (some vs) = write_file writable path vs

unfoldable pub run_rule : Rule → Start → Outcome
unfolding check_roots parse_json_env
run_rule rule m =
    write_report m.writable m.report_path
      (check_roots rule m.files (parse_json_env m.scan_roots []))
