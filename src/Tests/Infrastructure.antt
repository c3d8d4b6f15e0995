-- ===== src/Tests/Infrastructure.antt =====
-- The same for the infrastructure detectors.
use atdd_extensions.Base.{
  ◌≡◌, ◌↔◌, refl, List, [], ◌∷◌, some, true, false, Text, codes, In, text_eq, is_space, is_word,
  if◌then◌else◌, map,
}
use atdd_extensions.Base.Build.{sort_texts, unique_from}
use atdd_extensions.Base.Paths.{file, dir, closed, missing, Entries, no_entry, entry, array}
use atdd_extensions.Base.Report.{Violation}
use atdd_extensions.Convex.Complexity.Scan.{reported, write_file}
use atdd_extensions.Convex.Interlocking.Tree.{Files, find_consumer_roots}
use atdd_extensions.Convex.Infrastructure.Tree.{wagon_files}
use atdd_extensions.Convex.Infrastructure.Runner.{
  has_runner_class, runner_class_line, resolution_model_fields, journey_map, references_token,
}
use atdd_extensions.Convex.Infrastructure.Uses.{
  imports_wagon, run_train_calls, sequence_loops, cargo_uses, imports_interlocking,
}
use atdd_extensions.Convex.Infrastructure.Run.{
  Rule, no_cargo, Start, delegates, runner_exists, run_rule,
}
use atdd_extensions.Convex.Infrastructure.Family.{run_family}
use atdd_extensions.Convex.Infrastructure.Family.Merged.{IsSilent, run_family-AllMeet}
use atdd_extensions.Convex.Infrastructure.Run.Reports.{Meets, roots_of, run_rule-Meets}

abbrev runner_text : Text
runner_text =
    codes
      "// class\nclass InterlockingRunner {\n resolveTrain(a) {}\n}\ninterface InterlockingResolution { readonly a: b; c?: d }"

runner_found : has_runner_class runner_text ≡ true
unfolding has_runner_class is_space is_word
runner_found = refl

runner_line : runner_class_line runner_text ≡ 2
unfolding runner_class_line is_space is_word
runner_line = refl

runner_fields : resolution_model_fields runner_text ≡ some (codes "a" ∷ codes "c" ∷ [])
unfolding resolution_model_fields is_space is_word
runner_fields = refl

abbrev app_text : Text
app_text =
    codes "const JOURNEY_MAP = {\n go: { interlockingId: 'il' },\n b: 't1',\n}; InterlockingRunner"

app_shape :
    journey_map app_text
    ≡ record { has_interlocking = true; has_direct = true; interlocking_line = 2 }
unfolding journey_map is_space is_word
app_shape = refl

app_token : references_token app_text (codes "TrainRunner") ≡ false
unfolding references_token is_space is_word
app_token = refl

abbrev bad_text : Text
bad_text =
    codes "import { w } from '../match/wagon.ts'\nrunTrain (x)\nfor (const s of t.sequence) {}"

bad_imports :
    imports_wagon bad_text
    ≡ record { line = 1; src = codes "import { w } from '../match/wagon.ts'" } ∷ []
unfolding imports_wagon is_space is_word
bad_imports = refl

bad_calls : run_train_calls bad_text ≡ record { line = 2; src = codes "runTrain (x)" } ∷ []
unfolding run_train_calls is_space is_word
bad_calls = refl

bad_loops :
    sequence_loops bad_text ≡ record { line = 3; src = codes "for (const s of t.sequence) {}" } ∷ []
unfolding sequence_loops is_space is_word
bad_loops = refl

cargo_found :
    map (λ u. u.detail) (cargo_uses (codes "cargo['x'] = 1; cargo[y] == Cargo"))
    ≡ codes "references the Cargo symbol" ∷ codes "mutates a cargo mapping" ∷ []
unfolding cargo_uses is_space is_word
cargo_found = refl

interlocking_imported :
    map
      (λ h. h.line)
      (imports_interlocking (codes "import a from './b'\nimport c from '../InterLocking/d'"))
    ≡ 2 ∷ []
unfolding imports_interlocking is_space is_word
interlocking_imported = refl

abbrev trains : Entries
trains = entry (codes "r.ts") (file (some runner_text)) no_entry

abbrev match_dir : Entries
match_dir = entry (codes "wagon.ts") (file (some (codes "import a from './b'"))) no_entry

abbrev convex_dir : Entries
convex_dir =
    entry (codes "app.ts") (file (some app_text))
      (entry (codes "match") (dir match_dir) (entry (codes "trains") (dir trains) no_entry))

-- What stands at each path of a tree below `/r`.
abbrev small_files : Files
small_files p =
    if text_eq p (codes "/r")
    then dir (entry (codes "convex") (dir convex_dir) no_entry)
    else if text_eq p (codes "/r/convex")
    then dir convex_dir
    else if text_eq p (codes "/r/convex/app.ts")
    then file (some app_text)
    else if text_eq p (codes "/r/convex/match")
    then dir match_dir
    else if text_eq p (codes "/r/convex/match/wagon.ts")
    then file (some (codes "import a from './b'"))
    else if text_eq p (codes "/r/convex/trains")
    then dir trains
    else if text_eq p (codes "/r/convex/trains/r.ts")
    then file (some runner_text)
    else missing

small_wagons : wagon_files small_files (codes "/r") ≡ some (codes "/r/convex/match/wagon.ts" ∷ [])
unfolding wagon_files sort_texts
small_wagons = refl

abbrev start : Start
start = record {
  report_path = some (codes "/out");
  scan_roots = array (codes "/r" ∷ []);
  files = small_files;
  writable = λ path. true;
}

abbrev nothing : List Violation
nothing = []

run_delegates : run_rule delegates start ≡ reported nothing
unfolding run_rule is_space is_word sort_texts unique_from
run_delegates = refl

run_runner_exists : run_rule runner_exists start ≡ reported nothing
unfolding run_rule is_space is_word sort_texts unique_from
run_runner_exists = refl

run_rule-Meets_example : (nothing ≡ []) ↔ (
    (root : Text)
    → In root (roots_of start)
    → (croots : List Text) → find_consumer_roots small_files root ≡ some croots
    → (croot : Text) → In croot croots
    → Meets runner_exists small_files croot)
run_rule-Meets_example = run_rule-Meets runner_exists start run_runner_exists

-- Below a directory that cannot be read every script throws, and the merged report is empty.
abbrev unreadable : Start
unreadable = record start { files = λ p. closed }

family_of_unreadable :
    run_family (some (delegates ∷ no_cargo ∷ [])) (some (codes "/tmp")) unreadable
    ≡ reported nothing
unfolding run_family
family_of_unreadable = refl

abbrev two_scripts : List Rule
two_scripts = delegates ∷ runner_exists ∷ []

run_family-AllMeet_example :
    (vs : List Violation) × (run_family (some two_scripts) (some (codes "/tmp")) start
      ≡ write_file start.writable (codes "/out") vs)
    × ((vs ≡ []) ↔ ((rule : Rule) → In rule two_scripts → IsSilent (codes "/tmp") start rule))
run_family-AllMeet_example = run_family-AllMeet (codes "/tmp") two_scripts start refl
