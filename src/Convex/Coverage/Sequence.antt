-- ===== src/Convex/Coverage/Sequence.antt =====
-- checks/interlocking_train_sequence.mjs: whether a test asserts what a train executes.
pub mod Exercised
use atdd_extensions.Base.{
  Bool, true, false, not, ◌&&◌, ◌||◌, ◌==◌, List, [], ◌∷◌, ◌++◌, Option, none, some, String, Text,
  codes, any, map, text_eq, if◌then◌else◌,
}
use atdd_extensions.Base.Paths.{
  Node, file, dir, missing, closed, other, Entries, no_entry, entry, includes,
}
use atdd_extensions.Base.Join.{join}
use atdd_extensions.Base.Build.{concat_map, unique, sort_texts}
use atdd_extensions.Base.Report.{Violation}
use atdd_extensions.Regex.{
  Regex, alt, option, star, boundary, end_of_text, line_start, line_end, test,
}
use atdd_extensions.Convex.Interlocking.Tree.{
  Files, read_text, find_consumer_roots, interlocking_files, e2e_files, rel,
}
use atdd_extensions.Convex.Interlocking.Patterns.{chain, lit, spaces}
use atdd_extensions.Convex.Interlocking.Space.{Module, truthy, listed}
use atdd_extensions.Convex.Interlocking.Message.{says, unless}
use atdd_extensions.Convex.Interlocking.Modules.{Below, in_name_order}
use atdd_extensions.Convex.Infrastructure.Rules.{make, on_read, read_modules}
use atdd_extensions.Convex.Infrastructure.Run.{over_trees}
use atdd_extensions.Convex.Infrastructure.Uses.{not_newline}
use atdd_extensions.Convex.Coverage.Plan.{RouteSpace, parse_route_space}
use atdd_extensions.Convex.Coverage.Tokens.{one_word, token_covered}

-- `SEQUENCE_ASSERTION`
unfoldable pub sequence_assertion_re : Regex
unfolding lit one_word
sequence_assertion_re = chain (
    line_start
    ∷ star not_newline
    ∷ boundary
    ∷ one_word ("expect" ∷ "assert" ∷ [])
    ∷ boundary
    ∷ star not_newline
    ∷ boundary
    ∷ one_word ("steps" ∷ "sequence" ∷ "wagons" ∷ [])
    ∷ boundary
    ∷ star not_newline
    ∷ one_word ("==" ∷ "toEqual" ∷ "toStrictEqual" ∷ "deepEqual" ∷ [])
    ∷ [])

unfoldable pub asserts_a_sequence : Text → Bool
unfolding test sequence_assertion_re
asserts_a_sequence text = test sequence_assertion_re text

abbrev pub trains_of : RouteSpace → List Text
trains_of space = concat_map (λ r. listed (truthy r.train_id)) space.routes

unfoldable pub trains_reachable_from_routes : List RouteSpace → List Text
trains_reachable_from_routes records = unique (concat_map trains_of records)

abbrev pub exercises : Text → Text → Bool
exercises id text = token_covered id text && asserts_a_sequence text

unfoldable pub train_sequence_covered : Text → List Text → Bool
unfolding token_covered asserts_a_sequence
train_sequence_covered id texts = any (exercises id) texts

-- `/\.ya?ml$/`
unfoldable pub yaml_re : Regex
unfolding lit
yaml_re = chain (lit ".y" ∷ option (lit "a") ∷ lit "ml" ∷ end_of_text ∷ [])

-- The inner `rec(dir)`: a directory that cannot be read holds nothing.
unfoldable mutual
  unfolding join in_name_order test yaml_re

  pub yaml_below : Text → Entries → List Below
  yaml_below d no_entry = []
  yaml_below d (entry name node rest) =
      record { name = name; paths = yaml_at name (join d name) node } ∷ yaml_below d rest

  pub yaml_at : Text → Text → Node → List Text
  yaml_at name full (dir es) =
      if text_eq name (codes "_interlockings") then [] else in_name_order (yaml_below full es)
  yaml_at name full closed = []
  yaml_at name full missing = []
  yaml_at name full (file t) = if test yaml_re name then full ∷ [] else []
  yaml_at name full other = if test yaml_re name then full ∷ [] else []

unfoldable pub plan_yamls : Files → Text → List Text
unfolding join yaml_below in_name_order
plan_yamls fs croot =
    let plan = join croot (codes "plan") in
    elim (fs plan) [
      | dir es ↦ in_name_order (yaml_below plan es)
      | closed ↦ []
      | missing ↦ []
      | file t ↦ []
      | other ↦ []
    ]

-- `/^\s*sequence:\s*$/m`
unfoldable pub block_sequence_re : Regex
unfolding lit
block_sequence_re = chain (line_start ∷ spaces ∷ lit "sequence:" ∷ spaces ∷ line_end ∷ [])

-- `/^\s*sequence:\s*\[/m`
unfoldable pub flow_sequence_re : Regex
unfolding lit
flow_sequence_re = chain (line_start ∷ spaces ∷ lit "sequence:" ∷ spaces ∷ lit "[" ∷ [])

unfoldable pub gives_sequence : Text → Text → Bool
unfolding test block_sequence_re flow_sequence_re
gives_sequence id text =
    includes text id && (test block_sequence_re text || test flow_sequence_re text)

-- `declaresASequence(croot, trainId)`
unfoldable pub declares_a_sequence : Files → Text → Text → Bool
unfolding plan_yamls read_text gives_sequence
declares_a_sequence fs croot id =
    any (λ f. gives_sequence id (read_text fs f)) (plan_yamls fs croot)

abbrev pub anchor_of : Text → List Module → Text
anchor_of croot [] = codes "e2e/"
anchor_of croot (x ∷ xs) = rel x.file croot

unfoldable pub unexercised : Text → List Module → Text → Violation
unfolding rel
unexercised croot tests id =
    make "tester.convex.interlocking-train-sequence-is-exercised" (anchor_of croot tests) 1 0
      (says (
        codes "declared train \""
        ∷ id
        ∷ codes "\" is selected by a route but no test asserts the wagon SEQUENCE it executes; "
        ∷ codes "reorder or empty its definition and the suite stays green"
        ∷ []))
      []

abbrev pub texts_of : List Module → List Text
texts_of tests = map (λ x. x.text) tests

unfoldable pub check_trains : Files → Text → List RouteSpace → List Module → List Violation
unfolding trains_reachable_from_routes sort_texts declares_a_sequence train_sequence_covered
    unexercised
check_trains fs croot records tests =
    concat_map
      (λ id.
        unless (not (declares_a_sequence fs croot id))
          (unless (train_sequence_covered id (texts_of tests)) (unexercised croot tests id ∷ [])))
      (sort_texts (trains_reachable_from_routes records))

abbrev pub parsed : Option RouteSpace → List RouteSpace
parsed none = []
parsed (some space) = space ∷ []

abbrev pub records_of : Files → List Text → List RouteSpace
records_of fs ils = concat_map (λ f. parsed (parse_route_space (read_text fs f))) ils

-- `if (!records.length) continue` comes before the tests are looked for.
abbrev pub check_records : Files → Text → List RouteSpace → Option (List Violation)
check_records fs croot [] = some []
check_records fs croot (r ∷ rs) =
    on_read (check_trains fs croot (r ∷ rs)) (read_modules fs (e2e_files fs croot))

abbrev pub check_plans : Files → Text → Option (List Text) → Option (List Violation)
check_plans fs croot none = none
check_plans fs croot (some ils) = check_records fs croot (records_of fs ils)

-- `scanExecution(scanRoot)`
unfoldable pub scan_sequences : Files → Text → Option (List Violation)
unfolding find_consumer_roots interlocking_files e2e_files read_text parse_route_space check_trains
scan_sequences fs scan_root =
    over_trees (λ croot. check_plans fs croot (interlocking_files fs croot))
      (find_consumer_roots fs scan_root)
