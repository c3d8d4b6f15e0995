-- ===== src/Convex/Infrastructure/Rules.antt =====
-- The checks of the five scripts on one consumer tree.
pub mod Meets
pub mod Routing
use atdd_extensions.Base.{
  ℕ, zero, suc, Bool, true, false, not, ◌&&◌, ◌||◌, List, [], ◌∷◌, ◌++◌, Option, none, some,
  if◌then◌else◌, String, Text, codes, has_text, any, map, keep,
}
use atdd_extensions.Base.Build.{concat_map, then_all}
use atdd_extensions.Base.Join.{join_with}
use atdd_extensions.Base.Report.{Violation}
use atdd_extensions.Convex.Interlocking.Text.{line_at}
use atdd_extensions.Convex.Interlocking.Tree.{Files, read_text, app_file, rel}
use atdd_extensions.Convex.Interlocking.Space.{Module, module_at}
use atdd_extensions.Convex.Interlocking.Message.{says, unless}
use atdd_extensions.Convex.Infrastructure.Tree.{trains_files, wagon_files}
use atdd_extensions.Convex.Infrastructure.Runner.{
  required_resolution_fields, has_runner_class, runner_class_line, has_resolve_train,
  resolution_model_fields, JourneyShape, journey_map, references_token,
}
use atdd_extensions.Convex.Infrastructure.Uses.{
  Hit, Use, imports_wagon, run_train_calls, sequence_loops, cargo_uses, imports_interlocking,
}

-- `mk(ruleId, file, line, col, evidence, sourceLine)`
abbrev pub make : String → Text → ℕ → ℕ → Text → Text → Violation
make rule file line col evidence source_line = record {
  rule_id = codes rule;
  file = file;
  line = line;
  col = col;
  evidence = evidence;
  source_line = source_line;
}

abbrev pub on_read : {A : Type 0} → (A → List Violation) → Option A → Option (List Violation)
on_read check none = none
on_read check (some found) = some (check found)

abbrev pub read_modules : Files → Option (List Text) → Option (List Module)
read_modules fs none = none
read_modules fs (some files) = some (map (module_at fs) files)

-- The modules of the runtime.
unfoldable pub trains_modules : Files → Text → Option (List Module)
unfolding trains_files read_text
trains_modules fs croot = read_modules fs (trains_files fs croot)

abbrev pub defines_runner : Module → Bool
defines_runner x = has_runner_class x.text

abbrev pub runners_of : Option (List Module) → Option (List Module)
runners_of none = none
runners_of (some xs) = some (keep defines_runner xs)

-- `runnerModules(croot)`
unfoldable pub runner_modules : Files → Text → Option (List Module)
unfolding trains_modules has_runner_class
runner_modules fs croot = runners_of (trains_modules fs croot)

-- interlocking_delegates.mjs
abbrev pub executes_directly : Text → String → Hit → Violation
executes_directly file what hit =
    make "coder.convex.interlocking-delegates-to-trainrunner" file hit.line 0
      (codes "interlocking-direct-wagon-execution: interlocking module " ++ codes what) hit.src

unfoldable pub delegates_at : Text → Module → List Violation
unfolding rel imports_wagon run_train_calls sequence_loops
delegates_at croot x =
    let r = rel x.file croot in
    map (executes_directly r "imports a wagon module directly") (imports_wagon x.text)
    ++ map (executes_directly r "calls runTrain(...) directly") (run_train_calls x.text)
    ++ map (executes_directly r "loops over train.sequence as a step executor")
        (sequence_loops x.text)

unfoldable pub check_delegates : Files → Text → Option (List Violation)
unfolding runner_modules delegates_at
check_delegates fs croot = on_read (concat_map (delegates_at croot)) (runner_modules fs croot)

-- interlocking_no_cargo.mjs
abbrev pub carries : Text → Use → Violation
carries file use_ =
    make "coder.convex.interlocking-does-not-carry-cargo" file use_.hit.line 0
      (codes "interlocking-cargo-mutation: interlocking module " ++ use_.detail) use_.hit.src

unfoldable pub cargo_at : Text → Module → List Violation
unfolding rel cargo_uses
cargo_at croot x = map (carries (rel x.file croot)) (cargo_uses x.text)

abbrev pub crosses : Text → Hit → Violation
crosses file hit =
    make "coder.convex.interlocking-does-not-carry-cargo" file hit.line 0
      (codes
        "wagon-imports-interlocking: wagon module imports interlocking code (Cargo boundary violation)")
      hit.src

unfoldable pub wagon_at : Files → Text → Text → List Violation
unfolding rel read_text imports_interlocking
wagon_at fs croot f = map (crosses (rel f croot)) (imports_interlocking (read_text fs f))

unfoldable pub check_cargo : Files → Text → Option (List Violation)
unfolding runner_modules wagon_files cargo_at wagon_at
check_cargo fs croot =
    then_all (on_read (concat_map (cargo_at croot)) (runner_modules fs croot))
      (on_read (concat_map (wagon_at fs croot)) (wagon_files fs croot))

-- interlocking_resolution_model.mjs
abbrev pub merge : Option (List Text) → Option (List Text) → Option (List Text)
merge fields none = fields
merge none (some f) = some f
merge (some fields) (some f) = some (fields ++ f)

unfoldable pub fields_from : Option (List Text) → List Module → Option (List Text)
unfolding resolution_model_fields
fields_from fields [] = fields
fields_from fields (x ∷ xs) = fields_from (merge fields (resolution_model_fields x.text)) xs

abbrev pub has_field : Option (List Text) → Text → Bool
has_field none k = false
has_field (some fields) k = has_text fields k

unfoldable pub missing_fields : List Module → List Text
unfolding fields_from
missing_fields xs = keep (λ k. not (has_field (fields_from none xs) k)) required_resolution_fields

unfoldable pub bare_resolution : Text → Module → List Text → List Violation
unfolding rel runner_class_line line_at
bare_resolution croot target [] = []
bare_resolution croot target (k ∷ ks) =
    let line = runner_class_line target.text in
    make "coder.convex.interlocking-resolution-model-exists" (rel target.file croot) line 0
      (says (
        codes "bare-train-id-resolution: resolveTrain resolves a bare trainId; a structured "
        ∷ codes "InterlockingResolution model is missing required field(s): "
        ∷ join_with (codes ", ") (k ∷ ks)
        ∷ []))
      (line_at target.text line)
    ∷ []

abbrev pub resolves_train : Module → Bool
resolves_train x = has_resolve_train x.text

abbrev pub resolution_of : Text → List Module → List Module → List Violation
resolution_of croot files [] = []
resolution_of croot files (target ∷ more) =
    unless (not (any resolves_train (target ∷ more)))
      (bare_resolution croot target (missing_fields files))

unfoldable pub resolution_at : Text → List Module → List Violation
unfolding has_runner_class has_resolve_train missing_fields bare_resolution
resolution_at croot files = resolution_of croot files (keep defines_runner files)

unfoldable pub check_resolution : Files → Text → Option (List Violation)
unfolding trains_modules resolution_at
check_resolution fs croot = on_read (resolution_at croot) (trains_modules fs croot)

-- interlocking_runner_exists.mjs
abbrev pub at_least_one : ℕ → ℕ
at_least_one zero = 1
at_least_one (suc n) = suc n

abbrev pub shape_at : Files → Option Text → JourneyShape
shape_at fs none = journey_map []
shape_at fs (some app) = journey_map (read_text fs app)

unfoldable pub no_runner : Text → Text → Text → ℕ → Violation
unfolding rel line_at
no_runner croot app app_text line =
    make "coder.convex.interlocking-runner-exists" (rel app croot) line 0
      (says (
        codes "missing-interlocking-runner: JOURNEY_MAP declares an interlocking route but no "
        ∷ codes "InterlockingRunner class exists under convex/trains/ (core afokapu/atdd#1251)"
        ∷ []))
      (line_at app_text line)

abbrev pub missing_runner : Files → Text → JourneyShape → Option Text → List Module → List Violation
missing_runner fs croot jm none xs = []
missing_runner fs croot jm (some app) (x ∷ xs) = []
missing_runner fs croot jm (some app) [] =
    unless (not jm.has_interlocking)
      (no_runner croot app (read_text fs app) (at_least_one jm.interlocking_line) ∷ [])

unfoldable pub unresolving : Text → Module → List Violation
unfolding rel has_resolve_train runner_class_line line_at
unresolving croot x =
    let line = runner_class_line x.text in
    unless (has_resolve_train x.text) (
      make "coder.convex.interlocking-runner-exists" (rel x.file croot) line 0
        (codes "missing-resolve-train: InterlockingRunner has no resolveTrain(...) entry point")
        (line_at x.text line)
      ∷ [])

abbrev pub is_some_module : List Module → Bool
is_some_module [] = false
is_some_module (x ∷ xs) = true

unfoldable pub runner_exists_at : Files → Text → List Module → List Violation
unfolding app_file read_text journey_map no_runner unresolving
runner_exists_at fs croot runners =
    let app = app_file fs croot in
    let jm = shape_at fs app in
    unless (not (jm.has_interlocking || is_some_module runners))
      (missing_runner fs croot jm app runners ++ concat_map (unresolving croot) runners)

unfoldable pub check_runner_exists : Files → Text → Option (List Violation)
unfolding runner_modules runner_exists_at
check_runner_exists fs croot = on_read (runner_exists_at fs croot) (runner_modules fs croot)

-- interlocking_station_routing.mjs
abbrev pub unlinked : Text → Text → Text → ℕ → String → Violation
unlinked croot app text line what =
    make "coder.convex.station-master-interlocking-routing" (rel app croot) line 0 (codes what)
      (line_at text line)

unfoldable pub station_at : Text → Text → Text → List Violation
unfolding rel line_at journey_map references_token
station_at croot app text =
    let jm = journey_map text in
    let line = at_least_one jm.interlocking_line in
    unless (not jm.has_interlocking) (
      unless (references_token text (codes "InterlockingRunner")) (
        unlinked croot app text line
          "station-master-unlinked: Station Master declares an interlocking route but never references InterlockingRunner"
        ∷ [])
      ++ unless (references_token text (codes "TrainRunner")) (
          unlinked croot app text line
            "station-master-no-trainrunner-delegation: Station Master never references TrainRunner; the selected train must be executed by TrainRunner"
          ∷ []))

abbrev pub station_for : Files → Text → Option Text → List Violation
station_for fs croot none = []
station_for fs croot (some app) = station_at croot app (read_text fs app)

unfoldable pub check_station : Files → Text → Option (List Violation)
unfolding app_file read_text station_at
check_station fs croot = some (station_for fs croot (app_file fs croot))
