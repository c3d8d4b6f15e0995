-- ===== src/Convex/Coverage/Rules.antt =====
-- The checks of the scripts on what they read of a consumer tree.
pub mod Covers
use atdd_extensions.Base.{
  ℕ, Bool, true, false, not, ◌&&◌, List, [], ◌∷◌, ◌++◌, Option, none, some, Text, codes, any, map,
  keep, trim,
}
use atdd_extensions.Base.Build.{concat_map}
use atdd_extensions.Base.Paths.{includes}
use atdd_extensions.Base.Join.{join_with}
use atdd_extensions.Base.Report.{Violation}
use atdd_extensions.Regex.{Match, first_match, test}
use atdd_extensions.Convex.Interlocking.Text.{mask_comments, line_of_index, line_at}
use atdd_extensions.Convex.Interlocking.Tree.{rel}
use atdd_extensions.Convex.Interlocking.Space.{Module}
use atdd_extensions.Convex.Interlocking.Message.{says, unless}
use atdd_extensions.Convex.Infrastructure.Rules.{make}
use atdd_extensions.Convex.Coverage.Plan.{GuardedRoute, RouteSpace, Planned, Suite}
use atdd_extensions.Convex.Coverage.Tokens.{
  Labelled, prod_interlocking, prod_train, required_trace_fields, forbidden_patterns,
  station_master_re, trace_object_re, token_covered, is_route_covered, interlocking_token_set,
  is_interlocking_test, line_matching, action_re,
}

-- `e2eFiles(croot).map((f) => maskComments(readText(f)))`
unfoldable pub masked_tests : Suite → List Text
unfolding mask_comments
masked_tests s = map (λ x. mask_comments x.text) s.tests

-- interlocking_route_coverage.mjs
abbrev pub category_of : Option Text → Text
category_of none = codes "uncategorised"
category_of (some c) = says (codes "category \"" ∷ c ∷ codes "\"" ∷ [])

-- A value in a template.
abbrev pub or_null : Option Text → Text
or_null none = codes "null"
or_null (some t) = t

unfoldable pub uncovered : Text → Planned → GuardedRoute → Violation
unfolding rel
uncovered croot p route =
    make "tester.convex.interlocking-route-coverage" (rel p.file croot) route.line 0
      (says (
        codes "admissible route \""
        ∷ route.route_id
        ∷ codes "\" of interlocking \""
        ∷ p.space.interlocking_id
        ∷ codes "\" ("
        ∷ category_of route.category
        ∷ codes ", resolves to train \""
        ∷ or_null route.train_id
        ∷ codes "\") has no e2e test exercising it; add an e2e/**/*.ts test that references the "
        ∷ codes "routeId or trainId and drives it through InterlockingRunner -> TrainRunner"
        ∷ []))
      (trim route.source_line)

unfoldable pub routes_covered : Suite → List Violation
unfolding masked_tests is_route_covered uncovered
routes_covered s =
    concat_map
      (λ p.
        concat_map
          (λ route.
            unless (is_route_covered route (masked_tests s)) (uncovered s.croot p route ∷ []))
          p.space.routes)
      s.plans

-- interlocking_smoke_coverage.mjs
unfoldable pub is_smoke : Text → Text → Bool
unfolding token_covered test station_master_re
is_smoke action text =
    token_covered action text
    && test station_master_re text
    && includes text prod_interlocking
    && includes text prod_train

unfoldable pub action_smoke_covered : Text → List Text → Bool
unfolding is_smoke
action_smoke_covered action texts = any (is_smoke action) texts

unfoldable pub no_smoke : Text → Planned → Text → Violation
unfolding rel line_matching action_re
no_smoke croot p action =
    let at_ = line_matching p.space.raw_text (action_re action) in
    make "tester.convex.interlocking-smoke-coverage-for-station-master" (rel p.file croot) at_.line
      0
      (says (
        codes "exposed Station Master action \""
        ∷ action
        ∷ codes "\" of interlocking \""
        ∷ p.space.interlocking_id
        ∷ codes "\" has no smoke test reaching the Station Master and driving InterlockingRunner "
        ∷ codes "-> TrainRunner; add an e2e smoke test (strict: exposed actions are critical "
        ∷ codes "user-facing routes)"
        ∷ []))
      (trim at_.src)

unfoldable pub actions_smoked : Suite → List Violation
unfolding masked_tests action_smoke_covered no_smoke
actions_smoked s =
    concat_map
      (λ p. unless (not p.space.exposed) (
        concat_map
          (λ a. unless (action_smoke_covered a (masked_tests s)) (no_smoke s.croot p a ∷ []))
          p.space.actions))
      s.plans

-- `interlockingTokenSet(records)` of the plans.
unfoldable pub suite_tokens : Suite → List Text
unfolding interlocking_token_set
suite_tokens s = interlocking_token_set (map (λ p. p.space) s.plans)

unfoldable pub drives : Suite → Module → Bool
unfolding mask_comments is_interlocking_test suite_tokens
drives s x = is_interlocking_test (mask_comments x.text) (suite_tokens s)

-- interlocking_trace_binds.mjs
abbrev pub lacks : Text → Labelled → Bool
lacks text p = not (test p.pattern text)

unfoldable pub unbound_fields : Text → List Text
unfolding test required_trace_fields
unbound_fields text = map (λ p. p.label) (keep (lacks text) required_trace_fields)

unfoldable pub unbound_test : Text → Module → Match → List Text → List Violation
unfolding rel mask_comments line_of_index line_at
unbound_test croot x m [] = []
unbound_test croot x m (k ∷ ks) =
    let line = line_of_index (mask_comments x.text) m.index in
    make "tester.convex.interlocking-trace-binds-declared-route" (rel x.file croot) line 0
      (says (
        codes "interlocking trace test \""
        ∷ rel x.file croot
        ∷ codes "\" does not bind the declared route: missing required trace field(s) "
        ∷ join_with (codes ", ") (k ∷ ks)
        ∷ codes " (core afokapu/atdd#1251 trace must record interlockingId/routeId/"
        ∷ codes "selectedTrainId/routeCategory/routeCategoryDigit/guardId/resolutionStrategy/"
        ∷ codes "resolutionReason)"
        ∷ []))
      (line_at x.text line)
    ∷ []

abbrev pub trace_at : Text → Module → Option Match → List Violation
trace_at croot x none = []
trace_at croot x (some m) = unbound_test croot x m (unbound_fields (mask_comments x.text))

unfoldable pub traces_bound : Suite → List Violation
unfolding mask_comments drives first_match trace_object_re unbound_fields unbound_test
traces_bound s =
    concat_map
      (λ x.
        unless (not (drives s x))
          (trace_at s.croot x (first_match trace_object_re (mask_comments x.text))))
      s.tests

-- interlocking_production_runner.mjs
unfoldable pub substitutes : Text → Module → Labelled → Option Match → List Violation
unfolding rel mask_comments line_of_index line_at
substitutes croot x p none = []
substitutes croot x p (some m) =
    let line = line_of_index (mask_comments x.text) m.index in
    make "tester.convex.interlocking-production-runner-used" (rel x.file croot) line 0
      (says (
        codes "interlocking test \""
        ∷ rel x.file croot
        ∷ codes "\" substitutes the production runner ("
        ∷ p.label
        ∷ codes "); drive InterlockingRunner -> TrainRunner directly instead"
        ∷ []))
      (line_at x.text line)
    ∷ []

unfoldable pub missing_runners : Text → List Text
unfolding token_covered
missing_runners text =
    keep (λ sym. not (token_covered sym text)) (prod_interlocking ∷ prod_train ∷ [])

unfoldable pub unreferenced : Text → Module → List Text → List Violation
unfolding rel
unreferenced croot x [] = []
unreferenced croot x (k ∷ ks) =
    make "tester.convex.interlocking-production-runner-used" (rel x.file croot) 1 0
      (says (
        codes "interlocking test \""
        ∷ rel x.file croot
        ∷ codes "\" does not reference the production runner(s) "
        ∷ join_with (codes ", ") (k ∷ ks)
        ∷ codes "; it must exercise the real InterlockingRunner -> TrainRunner path "
        ∷ codes "(core afokapu/atdd#1251)"
        ∷ []))
      []
    ∷ []

unfoldable pub production_at : Text → Module → List Violation
unfolding mask_comments first_match forbidden_patterns substitutes missing_runners unreferenced
production_at croot x =
    concat_map (λ p. substitutes croot x p (first_match p.pattern (mask_comments x.text)))
      forbidden_patterns
    ++ unreferenced croot x (missing_runners (mask_comments x.text))

unfoldable pub runners_used : Suite → List Violation
unfolding drives production_at
runners_used s = concat_map (λ x. unless (not (drives s x)) (production_at s.croot x)) s.tests
