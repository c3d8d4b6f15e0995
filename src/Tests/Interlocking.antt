-- ===== src/Tests/Interlocking.antt =====
-- The same for the interlocking detectors.
use atdd_extensions.Base.{
  ◌≡◌, ◌↔◌, ◌⊎◌, ◌≢◌, refl, List, [], ◌∷◌, none, some, true, false, Text, codes, In, All, text_eq,
  is_space, is_word, if◌then◌else◌,
}
use atdd_extensions.Base.Build.{sort_texts, unique_from}
use atdd_extensions.Base.Paths.{file, dir, missing, closed, Entries, no_entry, entry, array}
use atdd_extensions.Base.Report.{Violation}
use atdd_extensions.Regex.{split_lines}
use atdd_extensions.Convex.Complexity.Scan.{no_report_path, crashed, reported}
use atdd_extensions.Convex.Interlocking.Text.{mask_comments}
use atdd_extensions.Convex.Interlocking.Text.Laws.{mask_comments_idempotent}
use atdd_extensions.Convex.Interlocking.Tree.{Files, find_consumer_roots}
use atdd_extensions.Convex.Interlocking.Plan.{Plan, parse_interlocking}
use atdd_extensions.Convex.Interlocking.Plan.Lines.{Stands, parse_interlocking-Stands}
use atdd_extensions.Convex.Interlocking.Journey.{Mapping, direct, interlocking, parse_journey_map}
use atdd_extensions.Convex.Interlocking.Space.{Space, is_enabled, read_space}
use atdd_extensions.Convex.Interlocking.Scan.{scan_space}
use atdd_extensions.Convex.Interlocking.Scan.Closed.{Closed, scan_space-Closed}
use atdd_extensions.Convex.Interlocking.Executes.{
  Execution, check_execution, resolving, declared_values,
}
use atdd_extensions.Convex.Interlocking.Executes.Derives.{Derives, check_execution-nil}
use atdd_extensions.Convex.Interlocking.Run.{Mount, run_binding}
use atdd_extensions.Convex.Interlocking.Run.Reports.{Bound, roots_of, run_binding-Bound}
use atdd_extensions.Convex.Interlocking.Run.Throws.{BlockedScan, run_binding_errors}

abbrev commented : Text
commented = codes "a // b\n'//' /* c\n*/ d"

mask_commented : mask_comments commented ≡ codes "a     \n'//'     \n   d"
unfolding mask_comments
mask_commented = refl

mask_comments_idempotent_example : mask_comments (mask_comments commented) ≡ mask_comments commented
mask_comments_idempotent_example = mask_comments_idempotent commented

abbrev plan_text : Text
plan_text =
    codes
      "interlocking_id: il\nroutes:\n  - route_id: ra\n    train_id: ta\nentrypoint:\n  exposed: true\n  actions: [go, 'stop']\n"

abbrev plan : Plan
plan = record {
  interlocking_id = codes "il";
  routes =
      record {
        route_id = codes "ra";
        line = 3;
        source_line = codes "  - route_id: ra";
        train_id = some (codes "ta");
        train_path = none;
      }
      ∷ [];
  exposed = true;
  actions = codes "go" ∷ codes "stop" ∷ [];
  parallel_fields = [];
  raw_text = plan_text;
}

parse_plan : parse_interlocking plan_text ≡ some plan
unfolding parse_interlocking is_space is_word
parse_plan = refl

-- The id of a plan whose key has no value is the text of the next line.
parse_plan_without_id :
    parse_interlocking (codes "interlocking_id:\nroutes:\n  - route_id: a")
    ≡ some (record {
      interlocking_id = codes "routes:";
      routes =
          record {
            route_id = codes "a";
            line = 3;
            source_line = codes "  - route_id: a";
            train_id = none;
            train_path = none;
          }
          ∷ [];
      exposed = false;
      actions = [];
      parallel_fields = [];
      raw_text = codes "interlocking_id:\nroutes:\n  - route_id: a";
    })
unfolding parse_interlocking is_space is_word
parse_plan_without_id = refl

abbrev app_text : Text
app_text = codes "const JOURNEY_MAP = {\n go: { interlockingId: 'il' }, // x\n 'b': 't1',\n}"

-- A key of an object in the map is taken for an action of its own.
parse_app :
    parse_journey_map app_text
    ≡ record { action = codes "go"; mapping = interlocking (some (codes "il")) none 2 }
      ∷ record { action = codes "interlockingId"; mapping = direct (codes "il") 2 }
      ∷ record { action = codes "b"; mapping = direct (codes "t1") 3 }
      ∷ []
unfolding parse_journey_map is_space is_word
parse_app = refl

declared_of_plan : declared_values plan_text ≡ codes "ra" ∷ codes "ta" ∷ []
unfolding declared_values is_space
declared_of_plan = refl

parse_interlocking-Stands_example :
    (plan.routes ≢ []) × All (Stands (split_lines plan_text)) plan.routes
parse_interlocking-Stands_example = parse_interlocking-Stands plan_text parse_plan

abbrev to_il : Mapping
to_il = interlocking (some (codes "il")) none 2

abbrev train_text : Text
train_text =
    codes "import { readFileSync } from 'fs'\nclass InterlockingResolution {}\nreadFileSync(p)"

abbrev e2e_text : Text
e2e_text = codes "trace.routeId === 'ra'"

abbrev trains : Entries
trains =
    entry (codes "ta.yaml") (file (some []))
      (entry (codes "_interlockings.yaml") (file (some plan_text)) no_entry)

abbrev plan_dir : Entries
plan_dir = entry (codes "_trains") (dir trains) no_entry

abbrev convex_dir : Entries
convex_dir =
    entry (codes "app.ts") (file (some app_text)) (
      entry (codes "trains") (dir (entry (codes "r.ts") (file (some train_text)) no_entry))
        no_entry)

abbrev tree : Entries
tree = entry (codes "plan") (dir plan_dir) (entry (codes "convex") (dir convex_dir) no_entry)

-- What stands at each path of a tree below `/r`.
abbrev small_files : Files
small_files p =
    if text_eq p (codes "/r")
    then dir tree
    else if text_eq p (codes "/r/plan")
    then dir plan_dir
    else if text_eq p (codes "/r/plan/_trains")
    then dir trains
    else if text_eq p (codes "/r/convex")
    then dir convex_dir
    else if text_eq p (codes "/r/convex/trains")
    then dir (entry (codes "r.ts") (file (some train_text)) no_entry)
    else if text_eq p (codes "/r/convex/trains/r.ts")
    then file (some train_text)
    else if text_eq p (codes "/r/convex/app.ts")
    then file (some app_text)
    else if text_eq p (codes "/r/plan/_trains/ta.yaml")
    then file (some [])
    else if text_eq p (codes "/r/plan/_trains/_interlockings.yaml")
    then file (some plan_text)
    else missing

abbrev small_space : Space
small_space = record {
  croot = codes "/r";
  records = record { file = codes "/r/plan/_trains/_interlockings.yaml"; plan = plan } ∷ [];
  runtime = record { file = codes "/r/convex/trains/r.ts"; text = train_text } ∷ [];
  app = some (codes "/r/convex/app.ts");
  app_text = app_text;
  journey =
      record { action = codes "go"; mapping = interlocking (some (codes "il")) none 2 }
      ∷ record { action = codes "interlockingId"; mapping = direct (codes "il") 2 }
      ∷ record { action = codes "b"; mapping = direct (codes "t1") 3 }
      ∷ [];
  e2e = [];
}

find_small : find_consumer_roots small_files (codes "/r") ≡ some (codes "/r" ∷ [])
unfolding find_consumer_roots unique_from
find_small = refl

read_small : read_space small_files (codes "/r") ≡ some small_space
unfolding read_space is_space is_word sort_texts unique_from
read_small = refl

scan_small : scan_space small_files [] small_space ≡ []
unfolding scan_space is_space is_word
scan_small = refl

scan_space-Closed_example :
    (scan_space small_files [] small_space ≡ []) ↔ Closed small_files [] small_space
unfolding is_enabled
scan_space-Closed_example = scan_space-Closed small_files [] small_space refl

abbrev copied : Execution
copied = record {
  declared = codes "ra" ∷ [];
  modules =
      record { file = codes "/r/convex/trains/r.ts"; text = codes "resolveTrain() { return 'ra' }" }
      ∷ [];
}

-- A runtime that restates a declared route does not pass.
check_copied : check_execution (codes "/r") copied ≢ []
unfolding check_execution resolving is_space is_word unique_from sort_texts
check_copied h = cc

check_execution-nil_example :
    (check_execution (codes "/r") copied ≡ [])
    ↔ ((copied.declared ≡ []) ⊎ (resolving copied ≡ []) ⊎ Derives copied)
check_execution-nil_example = check_execution-nil (codes "/r") copied

abbrev small_mount : Mount
small_mount = record {
  report_path = some (codes "/out");
  scan_roots = array (codes "/r" ∷ []);
  files = small_files;
  writable = λ path. true;
  cwd = codes "/";
}

run_small : run_binding small_mount ≡ reported []
unfolding run_binding is_space is_word sort_texts unique_from
run_small = refl

abbrev none_found : List Violation
none_found = []

run_binding-Bound_example :
    (none_found ≡ [])
    ↔ ((root : Text) → In root (roots_of small_mount) → Bound small_files (codes "/") root)
run_binding-Bound_example = run_binding-Bound small_mount run_small

-- A report that cannot be written ends the run.
run_unwritable : run_binding (record small_mount { writable = λ path. false }) ≡ crashed
unfolding run_binding is_space is_word sort_texts unique_from
run_unwritable = refl

-- So does a directory that cannot be read.
run_unreadable : run_binding (record small_mount { files = λ path. closed }) ≡ crashed
unfolding run_binding
run_unreadable = refl

run_binding_errors_example :
    ((run_binding small_mount ≡ no_report_path) ↔ (small_mount.report_path ≡ none))
    × ((run_binding small_mount ≡ crashed) ↔ (
        (path : Text) × (small_mount.report_path ≡ some path)
        × (((root : Text) × In root (roots_of small_mount) × BlockedScan small_files root)
            ⊎ (small_mount.writable path ≡ false))))
run_binding_errors_example = run_binding_errors small_mount
