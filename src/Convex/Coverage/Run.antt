-- ===== src/Convex/Coverage/Run.antt =====
-- The loops over the scan roots and the consumer trees, and `writeReport`.
pub mod Reports
use atdd_extensions.Base.{List, [], Option, none, some, Text}
use atdd_extensions.Base.Build.{collect}
use atdd_extensions.Base.Report.{Violation}
use atdd_extensions.Convex.Complexity.Scan.{Outcome, parse_json_env}
use atdd_extensions.Convex.Interlocking.Tree.{Files, find_consumer_roots}
use atdd_extensions.Convex.Infrastructure.Run.{Start, over_trees, write_report}
use atdd_extensions.Convex.Infrastructure.Rules.{on_read}
use atdd_extensions.Convex.Coverage.Plan.{Suite, read_suite}
use atdd_extensions.Convex.Coverage.Rules.{
  routes_covered, actions_smoked, traces_bound, runners_used,
}

-- The scripts.
pub data Cover : Type 0 where
  route_coverage smoke_coverage trace_binds production_runner : Cover

unfoldable pub check_suite : Cover → Suite → List Violation
unfolding routes_covered actions_smoked traces_bound runners_used
check_suite route_coverage = routes_covered
check_suite smoke_coverage = actions_smoked
check_suite trace_binds = traces_bound
check_suite production_runner = runners_used

abbrev pub cover_tree : Cover → Files → Text → Option (List Violation)
cover_tree rule fs croot = on_read (check_suite rule) (read_suite fs croot)

unfoldable pub cover_roots : Cover → Files → List Text → Option (List Violation)
unfolding read_suite check_suite find_consumer_roots
cover_roots rule fs =
    collect (λ root. over_trees (cover_tree rule fs) (find_consumer_roots fs root))

unfoldable pub run_cover : Cover → Start → Outcome
unfolding cover_roots parse_json_env
run_cover rule m =
    write_report m.writable m.report_path
      (cover_roots rule m.files (parse_json_env m.scan_roots []))
