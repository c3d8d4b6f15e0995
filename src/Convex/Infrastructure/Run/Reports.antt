-- ===== src/Convex/Infrastructure/Run/Reports.antt =====
-- What a run of an infrastructure script says.
use atdd_extensions.Base.{◌≡◌, ◌↔◌, sym, ◌∙◌, List, [], some, Text, In, true}
use atdd_extensions.Base.Build.{
  concat_map, concat_map-eq-nil, append-eq-nil, some-inj, then_all-some,
}
use atdd_extensions.Base.Report.{Violation}
use atdd_extensions.Convex.Complexity.Scan.{reported, parse_json_env}
use atdd_extensions.Convex.Interlocking.Tree.{Files, read_text, app_file, find_consumer_roots}
use atdd_extensions.Convex.Interlocking.Space.{Module}
use atdd_extensions.Convex.Infrastructure.Tree.{wagon_files}
use atdd_extensions.Convex.Infrastructure.Runner.{required_resolution_fields, journey_map}
use atdd_extensions.Convex.Infrastructure.Rules.{
  on_read, trains_modules, runner_modules, delegates_at, check_delegates, cargo_at, wagon_at,
  check_cargo, resolution_at, check_resolution, runner_exists_at, check_runner_exists,
  check_station,
}
use atdd_extensions.Convex.Infrastructure.Rules.Meets.{
  Delegates, Unladen, Apart, Declares, Resolving, on_read-nil, delegates_at-nil, cargo_at-nil,
  wagon_at-nil, resolution_at-nil,
}
use atdd_extensions.Convex.Infrastructure.Rules.Routing.{
  Running, Linked, runner_exists_at-nil, station_for-nil,
}
use atdd_extensions.Convex.Infrastructure.Run.Loops.{write_report-some, over_roots-nil}
use atdd_extensions.Convex.Infrastructure.Run.{
  Rule, delegates, no_cargo, resolution_model, runner_exists, station_routing, check_tree,
  check_roots, Start, run_rule,
}

-- Runners touch no cargo, and wagons import no interlocking code.
pub record Separate (fs : Files) (croot : Text) : Type 0 where
  pub unladen :
      (xs : List Module)
      → runner_modules fs croot ≡ some xs
      → (x : Module) → In x xs
      → Unladen x.text
  pub apart :
      (ws : List Text)
      → wagon_files fs croot ≡ some ws
      → (f : Text) → In f ws
      → Apart (read_text fs f)

-- What a rule asks of a consumer tree.
abbrev pub Meets : Rule → Files → Text → Type 0
Meets delegates fs croot =
    (xs : List Module)
    → runner_modules fs croot ≡ some xs
    → (x : Module) → In x xs
    → Delegates x.text
Meets no_cargo fs croot = Separate fs croot
Meets resolution_model fs croot =
    (xs : List Module)
    → trains_modules fs croot ≡ some xs
    → Resolving xs
    → (k : Text) → In k required_resolution_fields
    → Declares xs k
Meets runner_exists fs croot =
    (xs : List Module) → runner_modules fs croot ≡ some xs → Running fs croot xs
Meets station_routing fs croot =
    (app : Text)
    → app_file fs croot ≡ some app
    → (journey_map (read_text fs app)).has_interlocking ≡ true
    → Linked (read_text fs app)

module _ (fs : Files) (croot : Text) {vs : List Violation} where
  check_delegates-Meets : check_delegates fs croot ≡ some vs → (vs ≡ []) ↔ Meets delegates fs croot
  unfolding check_delegates
  check_delegates-Meets h =
      let read = on_read-nil (concat_map (delegates_at croot)) (runner_modules fs croot) h in
      (
        λ e xs q x m.
            (delegates_at-nil croot x).0
              ((concat_map-eq-nil (delegates_at croot) xs).0 (read.0 e xs q) x m),
        λ k. read.1 (λ xs q.
            (concat_map-eq-nil (delegates_at croot) xs).1
              (λ x m. (delegates_at-nil croot x).1 (k xs q x m))),
      )

  check_cargo-Meets : check_cargo fs croot ≡ some vs → (vs ≡ []) ↔ Meets no_cargo fs croot
  unfolding check_cargo
  check_cargo-Meets h =
      let (here, later, e, e', all) =
        then_all-some (on_read (concat_map (cargo_at croot)) (runner_modules fs croot)) _ h in
      let parts = append-eq-nil here later in
      let runners = on_read-nil (concat_map (cargo_at croot)) (runner_modules fs croot) e in
      let wagons = on_read-nil (concat_map (wagon_at fs croot)) (wagon_files fs croot) e' in
      (
        λ k.
            let (a, b) = parts.0 (sym all ∙ k) in
            record {
              unladen = λ xs q x m.
                  (cargo_at-nil croot x).0
                    ((concat_map-eq-nil (cargo_at croot) xs).0 (runners.0 a xs q) x m);
              apart = λ ws q f m.
                  (wagon_at-nil fs croot f).0
                    ((concat_map-eq-nil (wagon_at fs croot) ws).0 (wagons.0 b ws q) f m);
            },
        λ s.
            all
            ∙ parts.1 (
              runners.1 (λ xs q.
                  (concat_map-eq-nil (cargo_at croot) xs).1
                    (λ x m. (cargo_at-nil croot x).1 (s.unladen xs q x m))),
              wagons.1 (λ ws q.
                  (concat_map-eq-nil (wagon_at fs croot) ws).1
                    (λ f m. (wagon_at-nil fs croot f).1 (s.apart ws q f m))),
            ),
      )

  check_resolution-Meets :
      check_resolution fs croot ≡ some vs → (vs ≡ []) ↔ Meets resolution_model fs croot
  unfolding check_resolution
  check_resolution-Meets h =
      let read = on_read-nil (resolution_at croot) (trains_modules fs croot) h in
      (
        λ e xs q. (resolution_at-nil croot xs).0 (read.0 e xs q),
        λ k. read.1 (λ xs q. (resolution_at-nil croot xs).1 (k xs q)),
      )

  check_runner_exists-Meets :
      check_runner_exists fs croot ≡ some vs → (vs ≡ []) ↔ Meets runner_exists fs croot
  unfolding check_runner_exists
  check_runner_exists-Meets h =
      let read = on_read-nil (runner_exists_at fs croot) (runner_modules fs croot) h in
      (
        λ e xs q. (runner_exists_at-nil fs croot xs).0 (read.0 e xs q),
        λ k. read.1 (λ xs q. (runner_exists_at-nil fs croot xs).1 (k xs q)),
      )

  check_station-Meets :
      check_station fs croot ≡ some vs → (vs ≡ []) ↔ Meets station_routing fs croot
  unfolding check_station
  check_station-Meets h =
      let same = some-inj h in
      let tests = station_for-nil fs croot (app_file fs croot) in
      (λ e. tests.0 (same ∙ e), λ k. sym same ∙ tests.1 k)

check_tree-Meets :
    (rule : Rule) (fs : Files) (croot : Text) {vs : List Violation}
    → check_tree rule fs croot ≡ some vs
    → (vs ≡ []) ↔ Meets rule fs croot
unfolding check_tree
check_tree-Meets delegates fs croot h = check_delegates-Meets fs croot h
check_tree-Meets no_cargo fs croot h = check_cargo-Meets fs croot h
check_tree-Meets resolution_model fs croot h = check_resolution-Meets fs croot h
check_tree-Meets runner_exists fs croot h = check_runner_exists-Meets fs croot h
check_tree-Meets station_routing fs croot h = check_station-Meets fs croot h

abbrev pub roots_of : Start → List Text
roots_of m = parse_json_env m.scan_roots []

-- A run of one of the five scripts that ends with a report reports nothing exactly if every
-- consumer tree below every scan root meets the script's rule.
pub run_rule-Meets :
    (rule : Rule) (m : Start) {vs : List Violation}
    → run_rule rule m ≡ reported vs
    → (vs ≡ []) ↔ (
        (root : Text)
        → In root (roots_of m)
        → (croots : List Text) → find_consumer_roots m.files root ≡ some croots
        → (croot : Text) → In croot croots
        → Meets rule m.files croot)
unfolding run_rule check_roots
run_rule-Meets rule m h =
    over_roots-nil (check_tree rule m.files) (Meets rule m.files)
      (λ croot vs. check_tree-Meets rule m.files croot {vs = vs}) (find_consumer_roots m.files)
      (roots_of m)
      (write_report-some m.writable m.report_path (check_roots rule m.files (roots_of m)) h)
