-- ===== src/Convex/Interlocking/Station.antt =====
-- The checks of `scanConsumerRoot` on the Station Master.
use atdd_extensions.Base.{
  ℕ, Bool, false, not, ◌||◌, List, [], ◌∷◌, ◌++◌, Option, none, some, Text, codes, ◌+◌, slice,
  text_eq, has_text, any, trim,
}
use atdd_extensions.Base.Build.{concat_map}
use atdd_extensions.Base.Join.{join, resolve, join_with}
use atdd_extensions.Base.Report.{Violation}
use atdd_extensions.Regex.{Match, first_match}
use atdd_extensions.Convex.Interlocking.Text.{line_of_index, line_at}
use atdd_extensions.Convex.Interlocking.Tree.{Files, is_file, rel}
use atdd_extensions.Convex.Interlocking.Patterns.{exposed_line_re}
use atdd_extensions.Convex.Interlocking.Journey.{Mapping, interlocking, direct, lookup}
use atdd_extensions.Convex.Interlocking.Space.{Declared, Space, declared_ids, truthy}
use atdd_extensions.Convex.Interlocking.Message.{mk, says, unless}

-- 3. station_to_declaration
unfoldable pub missing_path : Space → Text → Text → Text → ℕ → Violation
unfolding mk rel line_at
missing_path s app action path line =
    mk (rel app s.croot) line "station_to_declaration"
      (says (
        codes "Station Master action \""
        ∷ action
        ∷ codes "\" maps to interlocking path \""
        ∷ path
        ∷ codes "\" which does not exist; the mapping must point to a real interlocking YAML"
        ∷ []))
      (line_at s.app_text line)

unfoldable pub unknown_id : Space → Text → Text → Text → ℕ → Violation
unfolding mk rel line_at
unknown_id s app action id line =
    mk (rel app s.croot) line "station_to_declaration"
      (says (
        codes "Station Master action \""
        ∷ action
        ∷ codes "\" maps to interlockingId \""
        ∷ id
        ∷ codes "\" which is declared by no interlocking YAML in the route space"
        ∷ []))
      (line_at s.app_text line)

abbrev pub check_path : Files → Space → Text → Text → Option Text → ℕ → List Violation
check_path fs s app action none line = []
check_path fs s app action (some p) line =
    unless (is_file (fs (join s.croot p))) (missing_path s app action p line ∷ [])

abbrev pub check_id : Space → Text → Text → Option Text → ℕ → List Violation
check_id s app action none line = []
check_id s app action (some id) line =
    unless (has_text (declared_ids s) id) (unknown_id s app action id line ∷ [])

abbrev pub check_mapping : Files → Space → Text → Text → Mapping → List Violation
check_mapping fs s app action (direct train_id line) = []
check_mapping fs s app action (interlocking id path line) =
    check_path fs s app action (truthy path) line ++ check_id s app action (truthy id) line

abbrev pub station_from : Files → Space → Option Text → List Violation
station_from fs s none = []
station_from fs s (some app) = concat_map (λ e. check_mapping fs s app e.action e.mapping) s.journey

unfoldable pub station_to_declaration : Files → Space → List Violation
unfolding join declared_ids missing_path unknown_id
station_to_declaration fs s = station_from fs s s.app

-- 4. declaration_to_station
abbrev pub same_id : Option Text → Text → Bool
same_id none id = false
same_id (some t) id = text_eq t id

abbrev pub same_file : Text → Text → Option Text → Text → Bool
same_file cwd croot none f = false
same_file cwd croot (some p) f = text_eq (resolve cwd (join croot p)) (resolve cwd f)

abbrev pub leads_to : Text → Space → Declared → Option Mapping → Bool
leads_to cwd s rec none = false
leads_to cwd s rec (some (direct train_id line)) = false
leads_to cwd s rec (some (interlocking id path line)) =
    same_id id rec.plan.interlocking_id || same_file cwd s.croot (truthy path) rec.file

unfoldable pub is_reachable : Text → Space → Declared → Bool
unfolding lookup resolve join
is_reachable cwd s rec =
    any (λ action. leads_to cwd s rec (lookup s.journey action)) rec.plan.actions

-- `m ? lineOfIndex(rec.rawText, m.index) : 1` and `m ? m[0].trim() : ""`
abbrev pub line_or_first : Text → Option Match → ℕ
line_or_first raw none = 1
line_or_first raw (some m) = line_of_index raw m.index

unfoldable pub matched_line : Text → Option Match → Text
matched_line raw none = []
matched_line raw (some m) = trim (slice raw m.index (m.index + m.size))

abbrev pub or_none : Text → Text
or_none [] = codes "<none>"
or_none (c ∷ cs) = c ∷ cs

unfoldable pub unreachable : Space → Declared → Violation
unfolding mk rel first_match exposed_line_re matched_line line_of_index
unreachable s rec =
    let m = first_match exposed_line_re rec.plan.raw_text in
    mk (rel rec.file s.croot) (line_or_first rec.plan.raw_text m) "declaration_to_station"
      (says (
        codes "interlocking \""
        ∷ rec.plan.interlocking_id
        ∷ codes "\" has entrypoint.exposed:true but is not Station-Master-reachable: none of its "
        ∷ codes "entrypoint.actions ["
        ∷ or_none (join_with (codes ", ") rec.plan.actions)
        ∷ codes "] is wired into JOURNEY_MAP to this interlocking "
        ∷ codes "(core afokapu/atdd#1248 entrypoint.exposed/actions)"
        ∷ []))
      (matched_line rec.plan.raw_text m)

unfoldable pub declaration_to_station : Text → Space → List Violation
unfolding is_reachable unreachable
declaration_to_station cwd s =
    concat_map
      (λ rec.
        unless (not rec.plan.exposed) (unless (is_reachable cwd s rec) (unreachable s rec ∷ [])))
      s.records
