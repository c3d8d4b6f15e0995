-- ===== src/Convex/Interlocking/Scan.antt =====
-- `scanConsumerRoot`: the checks of the binding of one consumer tree.
pub mod Closed
use atdd_extensions.Base.{
  ℕ, Bool, true, false, not, ◌||◌, ◌&&◌, List, [], ◌∷◌, ◌++◌, Option, none, some, if◌then◌else◌,
  String, Text, codes, ◌+◌, slice, text_eq, has_text, any, trim, length, map, keep,
}
use atdd_extensions.Base.Build.{concat_map, ◌>>=◌}
use atdd_extensions.Base.Join.{join, resolve, join_with}
use atdd_extensions.Base.Report.{Violation}
use atdd_extensions.Regex.{Regex, Match, alt, first_match, captured, match_all, test}
use atdd_extensions.Convex.Interlocking.Text.{line_of_index, line_at}
use atdd_extensions.Convex.Interlocking.Tree.{
  Files, is_file, read_text, interlocking_files, runtime_files, e2e_files, app_file, rel,
}
use atdd_extensions.Convex.Interlocking.Patterns.{
  lit, exposed_line_re, parallel_line_re, trace_re, trace_assert_re,
}
use atdd_extensions.Convex.Interlocking.Plan.{Route, Plan, parse_interlocking}
use atdd_extensions.Convex.Interlocking.Journey.{
  Mapping, interlocking, direct, Entry, Journey, lookup, parse_journey_map, Resolved,
  runtime_resolution_literals,
}
use atdd_extensions.Convex.Interlocking.Space.{
  Declared, Module, Space, declare, declared_ids, declared_routes, declared_trains, is_enabled,
  journey_at, listed, module_at, read_space, runs_interlocking, text_at, truthy,
}
use atdd_extensions.Convex.Interlocking.Message.{binding_rule, mk, says, unless}
use atdd_extensions.Convex.Interlocking.Station.{
  check_id, check_mapping, check_path, declaration_to_station, is_reachable, leads_to,
  line_or_first, matched_line, missing_path, or_none, same_file, same_id, station_from,
  station_to_declaration, unknown_id, unreachable,
}

-- `plan/_trains/${route.trainId}.yaml`
abbrev pub train_yaml : Text → Text
train_yaml id = id ++ codes ".yaml"

unfoldable pub train_artifact_exists : Files → Text → Route → Bool
unfolding join
train_artifact_exists fs croot route = elim (truthy route.train_path) [
  | some p ↦ is_file (fs (join croot p))
  | none ↦ elim (truthy route.train_id) [
    | some id ↦
        is_file (fs (join (join (join croot (codes "plan")) (codes "_trains")) (train_yaml id)))
    | none ↦ false
  ]
]

abbrev pub target_of : Route → Text
target_of route = elim (truthy route.train_path) [
  | some p ↦ p
  | none ↦ elim (truthy route.train_id) [
    | some id ↦ says (codes "plan/_trains/" ∷ id ∷ codes ".yaml" ∷ [])
    | none ↦ codes "<no train_id>"
  ]
]

-- 1. declaration_to_runtime
unfoldable pub unresolvable : Space → Declared → Route → Violation
unfolding mk rel
unresolvable s rec route =
    mk (rel rec.file s.croot) route.line "declaration_to_runtime"
      (says (
        codes "declared route \""
        ∷ route.route_id
        ∷ codes "\" of interlocking \""
        ∷ rec.plan.interlocking_id
        ∷ codes "\" is not runtime-resolvable: its train artifact \""
        ∷ target_of route
        ∷ codes "\" does not exist, so InterlockingRunner -> TrainRunner cannot resolve it"
        ∷ []))
      (trim route.source_line)

unfoldable pub declaration_to_runtime : Files → Space → List Violation
unfolding train_artifact_exists unresolvable
declaration_to_runtime fs s =
    concat_map
      (λ rec.
        concat_map
          (λ route. unless (train_artifact_exists fs s.croot route) (unresolvable s rec route ∷ []))
          rec.plan.routes)
      s.records

-- 2. runtime_to_declaration
abbrev pub declared_for : Space → Resolved → List Text
declared_for s r = if r.is_route then declared_routes s else declared_trains s

unfoldable pub hidden_route : Space → Module → Resolved → Violation
unfolding mk rel line_at
hidden_route s m r =
    mk (rel m.file s.croot) r.line "runtime_to_declaration"
      (says (
        codes "InterlockingRunner resolves "
        ∷ (if r.is_route then codes "routeId" else codes "trainId")
        ∷ codes " \""
        ∷ r.value
        ∷ codes "\" which is declared in no interlocking YAML (hidden route); every resolved "
        ∷ codes "route/train must come from the loaded route space"
        ∷ []))
      (line_at m.text r.line)

-- `/InterlockingResolution|resolveTrain/`
unfoldable pub resolves : Text → Bool
unfolding test lit
resolves text = test (alt (lit "InterlockingResolution") (lit "resolveTrain")) text

unfoldable pub runtime_to_declaration : Space → List Violation
unfolding resolves runtime_resolution_literals declared_routes declared_trains hidden_route
runtime_to_declaration s =
    concat_map
      (λ m. unless (not (resolves m.text)) (
        concat_map (λ r. unless (has_text (declared_for s r) r.value) (hidden_route s m r ∷ []))
          (runtime_resolution_literals m.text)))
      s.runtime

-- Schema drift.
unfoldable pub forked : Space → Declared → Text → Violation
unfolding mk rel first_match parallel_line_re matched_line line_of_index
forked s rec field =
    let m = first_match (parallel_line_re field) rec.plan.raw_text in
    mk (rel rec.file s.croot) (line_or_first rec.plan.raw_text m) "parallel_reachability_field"
      (says (
        codes "interlocking \""
        ∷ rec.plan.interlocking_id
        ∷ codes "\" declares a parallel reachability field \""
        ∷ field
        ∷ codes "\"; reachability is owned by core afokapu/atdd#1248's `entrypoint` "
        ∷ codes "(exposed/actions/reason) — this extension must not fork it (schema drift)"
        ∷ []))
      (matched_line rec.plan.raw_text m)

unfoldable pub parallel_fields_of : Space → List Violation
unfolding forked
parallel_fields_of s = concat_map (λ rec. map (forked s rec) rec.plan.parallel_fields) s.records

-- 5. trace_to_declaration
abbrev pub names_interlocking : Match → Bool
names_interlocking m = text_eq (captured m 0) (codes "interlockingId")

abbrev pub declared_for_trace : Space → Match → List Text
declared_for_trace s m = if names_interlocking m then declared_ids s else declared_routes s

unfoldable pub unbound_trace : Space → Module → Match → Violation
unfolding mk rel captured line_of_index line_at
unbound_trace s f m =
    let line = line_of_index f.text m.index in
    mk (rel f.file s.croot) line "trace_to_declaration"
      (says (
        codes "interlocking trace test asserts trace."
        ∷ captured m 0
        ∷ codes " === \""
        ∷ captured m 1
        ∷ codes "\", which resolves to no declared "
        ∷ (if names_interlocking m then codes "interlocking" else codes "route")
        ∷ codes " in the YAML route space; the trace must bind the executed route back to its "
        ∷ codes "declaration"
        ∷ []))
      (line_at f.text line)

unfoldable pub traces : Text → List Match
unfolding match_all trace_assert_re
traces text = match_all trace_assert_re text

unfoldable pub trace_to_declaration : Space → List Violation
unfolding test trace_re traces captured declared_ids declared_routes unbound_trace
trace_to_declaration s =
    concat_map
      (λ f. unless (not (test trace_re f.text)) (
        concat_map
          (λ m.
            unless (has_text (declared_for_trace s m) (captured m 1)) (unbound_trace s f m ∷ []))
          (traces f.text)))
      s.e2e

-- The checks on what was read.
unfoldable pub scan_space : Files → Text → Space → List Violation
unfolding is_enabled declaration_to_runtime runtime_to_declaration station_to_declaration
    declaration_to_station parallel_fields_of trace_to_declaration
scan_space fs cwd s =
    if is_enabled s
    then declaration_to_runtime fs s
      ++ runtime_to_declaration s
      ++ station_to_declaration fs s
      ++ declaration_to_station cwd s
      ++ parallel_fields_of s
      ++ trace_to_declaration s
    else []

unfoldable pub scan_consumer_root : Files → Text → Text → Option (List Violation)
unfolding read_space scan_space
scan_consumer_root fs cwd croot = elim (read_space fs croot) [
  | none ↦ none
  | some s ↦ some (scan_space fs cwd s)
]
