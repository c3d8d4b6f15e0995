-- ===== src/Tests/Coverage.antt =====
-- The same for the coverage detectors.
use atdd_extensions.Base.{
  ◌≡◌, ◌≢◌, ◌↔◌, refl, List, [], ◌∷◌, some, none, true, false, Text, codes, In, text_eq, is_space,
  is_word, if◌then◌else◌,
}
use atdd_extensions.Base.Build.{sort_texts, unique_from}
use atdd_extensions.Base.Paths.{file, dir, missing, Entries, no_entry, entry, array}
use atdd_extensions.Base.Report.{Violation}
use atdd_extensions.Regex.{test}
use atdd_extensions.Convex.Complexity.Scan.{reported}
use atdd_extensions.Convex.Interlocking.Tree.{Files, find_consumer_roots}
use atdd_extensions.Convex.Infrastructure.Run.{Start}
use atdd_extensions.Convex.Infrastructure.Run.Reports.{roots_of}
use atdd_extensions.Convex.Coverage.Plan.{RouteSpace, parse_route_space}
use atdd_extensions.Convex.Coverage.Tokens.{
  token_covered, resolver_re, station_master_re, interlocking_token_set, line_matching, action_re,
}
use atdd_extensions.Convex.Interlocking.Modules.{insert_name}
use atdd_extensions.Convex.Coverage.Sequence.{
  asserts_a_sequence, declares_a_sequence, scan_sequences,
}
use atdd_extensions.Convex.Coverage.Sequence.Exercised.{IsExercised, scan_sequences-IsExercised}
use atdd_extensions.Convex.Coverage.Run.{route_coverage, smoke_coverage, run_cover}
use atdd_extensions.Convex.Coverage.Run.Reports.{IsCovered, run_cover-IsCovered}

abbrev plan_text : Text
plan_text =
    codes
      "interlocking_id: il\nroutes:\n- route_id: x\n  - route_id: ra\n    train_id: ta\n    category: c\nentrypoint:\n  exposed: true\n  actions:\n    - go\n"

abbrev good_plan : Text
good_plan =
    codes
      "interlocking_id: il\nroutes:\n  - route_id: ra\n    train_id: ta\n    category: c\nentrypoint:\n  exposed: true\n  actions:\n    - go\n"

abbrev space : RouteSpace
space = record {
  interlocking_id = codes "il";
  routes =
      record {
        route_id = codes "ra";
        line = 3;
        source_line = codes "  - route_id: ra";
        train_id = some (codes "ta");
        category = some (codes "c");
      }
      ∷ [];
  exposed = true;
  actions = codes "go" ∷ [];
  raw_text = good_plan;
}

parse_good : parse_route_space good_plan ≡ some space
unfolding parse_route_space is_space is_word
parse_good = refl

-- An item that is not indented ends the block of routes.
parse_flat : parse_route_space plan_text ≡ none
unfolding parse_route_space is_space is_word
parse_flat = refl

tokens_of_space : interlocking_token_set (space ∷ []) ≡ codes "il" ∷ codes "ra" ∷ codes "ta" ∷ []
unfolding interlocking_token_set unique_from
tokens_of_space = refl

token_at_dash : token_covered (codes "ra") (codes "x-ra ra-x") ≡ false
unfolding token_covered is_word
token_at_dash = refl

resolver_found : test resolver_re (codes "a\nclass MyResolver {") ≡ true
unfolding test resolver_re is_space is_word
resolver_found = refl

station_found : test station_master_re (codes "x\nimport { go } from './app'") ≡ true
unfolding test station_master_re is_space is_word
station_found = refl

action_line :
    line_matching good_plan (action_re (codes "go")) ≡ record { line = 9; src = codes "    - go" }
unfolding line_matching action_re is_space
action_line = refl

abbrev e2e_text : Text
e2e_text = codes "app.run('ra', 'go') // InterlockingRunner"

abbrev trains : Entries
trains = entry (codes "_interlockings.yaml") (file (some good_plan)) no_entry

abbrev plan_dir : Entries
plan_dir = entry (codes "_trains") (dir trains) no_entry

abbrev e2e_dir : Entries
e2e_dir = entry (codes "a.ts") (file (some e2e_text)) no_entry

-- What stands at each path of a tree below `/r`.
abbrev small_files : Files
small_files p =
    if text_eq p (codes "/r")
    then dir (entry (codes "plan") (dir plan_dir) (entry (codes "e2e") (dir e2e_dir) no_entry))
    else if text_eq p (codes "/r/plan")
    then dir plan_dir
    else if text_eq p (codes "/r/plan/_trains")
    then dir trains
    else if text_eq p (codes "/r/plan/_trains/_interlockings.yaml")
    then file (some good_plan)
    else if text_eq p (codes "/r/e2e")
    then dir e2e_dir
    else if text_eq p (codes "/r/e2e/a.ts")
    then file (some e2e_text)
    else missing

abbrev start : Start
start = record {
  report_path = some (codes "/out");
  scan_roots = array (codes "/r" ∷ []);
  files = small_files;
  writable = λ path. true;
}

abbrev nothing : List Violation
nothing = []

run_route_coverage : run_cover route_coverage start ≡ reported nothing
unfolding run_cover is_space is_word sort_texts unique_from
run_route_coverage = refl

-- A runner that a comment names is not driven.
run_smoke_coverage : run_cover smoke_coverage start ≢ reported nothing
unfolding run_cover is_space is_word sort_texts unique_from
run_smoke_coverage h = cc

run_cover-IsCovered_example : (nothing ≡ []) ↔ (
    (root : Text)
    → In root (roots_of start)
    → (croots : List Text) → find_consumer_roots small_files root ≡ some croots
    → (croot : Text) → In croot croots
    → IsCovered route_coverage small_files croot)
run_cover-IsCovered_example = run_cover-IsCovered route_coverage start run_route_coverage

abbrev ordered : Text
ordered = codes "it('ta')\n  expect(run.steps).toEqual(['a'])"

order_asserted : asserts_a_sequence ordered ≡ true
unfolding asserts_a_sequence is_word
order_asserted = refl

abbrev sequenced : Entries
sequenced =
    entry (codes "ta.yaml") (file (some (codes "id: ta\nsequence:\n  - a")))
      (entry (codes "_interlockings.yaml") (file (some good_plan)) no_entry)

-- The same tree, whose train has a sequence.
abbrev sequenced_files : Files
sequenced_files p =
    if text_eq p (codes "/r/plan")
    then dir (entry (codes "_trains") (dir sequenced) no_entry)
    else if text_eq p (codes "/r/plan/_trains/ta.yaml")
    then file (some (codes "id: ta\nsequence:\n  - a"))
    else if text_eq p (codes "/r/e2e/a.ts")
    then file (some ordered)
    else small_files p

sequence_declared : declares_a_sequence sequenced_files (codes "/r") (codes "ta") ≡ true
unfolding declares_a_sequence is_space is_word insert_name
sequence_declared = refl

sequences_exercised : scan_sequences sequenced_files (codes "/r") ≡ some nothing
unfolding scan_sequences is_space is_word insert_name sort_texts unique_from
sequences_exercised = refl

scan_sequences-IsExercised_example : (nothing ≡ []) ↔ (
    (croots : List Text)
    → find_consumer_roots sequenced_files (codes "/r") ≡ some croots
    → (croot : Text) → In croot croots
    → IsExercised sequenced_files croot)
scan_sequences-IsExercised_example =
    scan_sequences-IsExercised sequenced_files (codes "/r") sequences_exercised
