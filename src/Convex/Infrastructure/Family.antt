-- ===== src/Convex/Infrastructure/Family.antt =====
-- detect.mjs of the detector, which runs the scripts and merges their reports.
pub mod Merged
use atdd_extensions.Base.{List, [], ◌++◌, Option, none, some, Text, codes}
use atdd_extensions.Base.Build.{concat_map}
use atdd_extensions.Base.Join.{join}
use atdd_extensions.Base.Report.{Violation}
use atdd_extensions.Convex.Complexity.Scan.{Outcome, no_report_path, crashed, reported, write_file}
use atdd_extensions.Convex.Infrastructure.Run.{
  Rule, delegates, no_cargo, resolution_model, runner_exists, station_routing, Start, run_rule,
}

-- The files of checks/.
abbrev pub script_name : Rule → Text
script_name delegates = codes "interlocking_delegates.mjs"
script_name no_cargo = codes "interlocking_no_cargo.mjs"
script_name resolution_model = codes "interlocking_resolution_model.mjs"
script_name runner_exists = codes "interlocking_runner_exists.mjs"
script_name station_routing = codes "interlocking_station_routing.mjs"

-- `join(td, c + ".json")`
abbrev pub report_at : Text → Rule → Text
report_at td rule = join td (script_name rule ++ codes ".json")

-- A script run with a report of its own in the directory `td`.
unfoldable pub run_member : Text → Start → Rule → Outcome
unfolding run_rule join
run_member td m rule = run_rule rule (record m { report_path = some (report_at td rule) })

-- What a script that ended in some way adds to the report: one that wrote none adds nothing.
abbrev pub report_of : Outcome → List Violation
report_of no_report_path = []
report_of crashed = []
report_of (reported vs) = vs

-- The part from the listing of checks/ on, which throws if that cannot be read, if no directory can
-- be made for the scripts' reports, or if the merged report cannot be written.
abbrev pub merge_reports : Option (List Rule) → Option Text → Text → Start → Outcome
merge_reports none td path m = crashed
merge_reports (some checks) none path m = crashed
merge_reports (some checks) (some td) path m =
    write_file m.writable path (concat_map (λ rule. report_of (run_member td m rule)) checks)

-- The whole of detect.mjs. What `readdirSync` gives for checks/, sorted, and what `mkdtempSync`
-- gives are parameters; either may throw.
unfoldable pub run_family : Option (List Rule) → Option Text → Start → Outcome
unfolding run_member
run_family checks td m = elim m.report_path [
  | none ↦ no_report_path
  | some path ↦ merge_reports checks td path m
]
