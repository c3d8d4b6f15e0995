-- ===== src/Convex/Coverage/Sequence/Exercised.antt =====
-- When the trains of a consumer tree are exercised.
use atdd_extensions.Base.{
  ◌≡◌, ◌↔◌, refl, sym, ap, ◌∙◌, true, List, [], ◌∷◌, Option, none, some, Text, In, subst, inl, inr,
}
use atdd_extensions.Base.Members.{In-concat_map, In-sort_texts, In-unique, any-true, In-map}
use atdd_extensions.Base.Build.{concat_map, concat_map-eq-nil, some-inj, sort_texts, unique}
use atdd_extensions.Base.Report.{Violation}
use atdd_extensions.Convex.Interlocking.Tree.{
  Files, find_consumer_roots, interlocking_files, e2e_files,
}
use atdd_extensions.Convex.Interlocking.Space.{Module, truthy, listed}
use atdd_extensions.Convex.Interlocking.Message.{unless}
use atdd_extensions.Convex.Interlocking.Message.Laws.{unless-nil, unless-not-nil}
use atdd_extensions.Convex.Infrastructure.Rules.{read_modules}
use atdd_extensions.Convex.Infrastructure.Rules.Meets.{on_read-nil}
use atdd_extensions.Convex.Infrastructure.Run.Loops.{over_trees-nil}
use atdd_extensions.Convex.Coverage.Plan.{GuardedRoute, RouteSpace}
use atdd_extensions.Convex.Coverage.Sequence.{
  trains_of, trains_reachable_from_routes, exercises, train_sequence_covered, declares_a_sequence,
  texts_of, unexercised, check_trains, records_of, check_records, check_plans, scan_sequences,
}

-- Each train that a route selects and the plan gives a sequence is exercised by a test.
abbrev pub Exercised : Files → Text → List RouteSpace → List Module → Type 0
Exercised fs croot records tests =
    (space : RouteSpace)
    → In space records
    → (route : GuardedRoute) → In route space.routes
    → (id : Text) → truthy route.train_id ≡ some id
    → declares_a_sequence fs croot id ≡ true
    → (x : Module) × In x tests × (exercises id x.text ≡ true)

In-listed : (o : Option Text) (t : Text) → In t (listed o) ↔ (o ≡ some t)
In-listed none t = (λ h. absurd h, λ h. cc)
In-listed (some u) t =
    (λ h. elim h [ inl q ↦ ap some (sym q) | inr m ↦ absurd m ], λ h. inl (sym (some-inj h)))

-- The trains that routes select.
In-trains :
    (records : List RouteSpace) (id : Text)
    → In id (sort_texts (trains_reachable_from_routes records)) ↔ (
        (space : RouteSpace) × (route : GuardedRoute) × In space records
        × In route space.routes
        × (truthy route.train_id ≡ some id))
unfolding trains_reachable_from_routes
In-trains records id =
    let sorted_ = In-sort_texts id (unique (concat_map trains_of records)) in
    let once = In-unique id (concat_map trains_of records) in
    let spaces_ = In-concat_map trains_of records id in
    (
      λ h.
          let (space, m, k) = spaces_.0 (once.0 (sorted_.0 h)) in
          let (route, n, l) = (In-concat_map _ space.routes id).0 k in
          (space, route, m, n, (In-listed (truthy route.train_id) id).0 l),
      λ (space, route, m, n, e). sorted_.1 (
          once.1 (
            spaces_.1 (
              space,
              m,
              (In-concat_map _ space.routes id).1
                  (route, n, (In-listed (truthy route.train_id) id).1 e),
            ))),
    )

covered :
    (id : Text) (tests : List Module)
    → (train_sequence_covered id (texts_of tests) ≡ true)
      ↔ ((x : Module) × In x tests × (exercises id x.text ≡ true))
unfolding train_sequence_covered
covered id tests =
    let some_ = any-true (exercises id) (texts_of tests) in
    let read = In-map (λ (x : Module). x.text) tests in
    (
      λ h.
          let (t, m, e) = some_.0 h in
          let (x, n, q) = (read t).0 m in (x, n, sym (ap (exercises id) q) ∙ e),
      λ (x, n, e). some_.1 (x.text, (read x.text).1 (x, n, refl), e),
    )

check_trains-Exercised :
    (fs : Files) (croot : Text) (records : List RouteSpace) (tests : List Module)
    → (check_trains fs croot records tests ≡ []) ↔ Exercised fs croot records tests
unfolding check_trains
check_trains-Exercised fs croot records tests =
    let all = concat_map-eq-nil _ (sort_texts (trains_reachable_from_routes records)) in
    let declared = λ (id : Text).
      unless-not-nil (declares_a_sequence fs croot id)
        (unless (train_sequence_covered id (texts_of tests)) (unexercised croot tests id ∷ [])) in
    let tested = λ (id : Text).
      unless-nil (train_sequence_covered id (texts_of tests)) (unexercised croot tests id) in
    (
      λ h space m route n id e d. (covered id tests).0 (
          (tested id).0
            ((declared id).0 (all.0 h id ((In-trains records id).1 (space, route, m, n, e))) d)),
      λ h. all.1 (λ id i. (declared id).1 (λ d.
          let (space, route, m, n, e) = (In-trains records id).0 i in
          (tested id).1 ((covered id tests).1 (h space m route n id e d)))),
    )

-- The plans of a consumer tree, read with its tests, have their trains exercised.
abbrev pub IsExercised : Files → Text → Type 0
IsExercised fs croot =
    (ils : List Text)
    → interlocking_files fs croot ≡ some ils
    → (tests : List Module) → read_modules fs (e2e_files fs croot) ≡ some tests
    → Exercised fs croot (records_of fs ils) tests

check_records-Exercised :
    (fs : Files) (croot : Text) (records : List RouteSpace) {vs : List Violation}
    → check_records fs croot records ≡ some vs
    → (vs ≡ []) ↔ (
        (tests : List Module)
        → read_modules fs (e2e_files fs croot) ≡ some tests
        → Exercised fs croot records tests)
check_records-Exercised fs croot [] h = (λ e tests q space m. absurd m, λ k. sym (some-inj h))
check_records-Exercised fs croot (r ∷ rs) h =
    let read =
      on_read-nil (check_trains fs croot (r ∷ rs)) (read_modules fs (e2e_files fs croot)) h in
    (
      λ e tests q. (check_trains-Exercised fs croot (r ∷ rs) tests).0 (read.0 e tests q),
      λ k. read.1 (λ tests q. (check_trains-Exercised fs croot (r ∷ rs) tests).1 (k tests q)),
    )

check_plans-IsExercised :
    (fs : Files) (croot : Text) (o : Option (List Text)) {vs : List Violation}
    → check_plans fs croot o ≡ some vs
    → (vs ≡ []) ↔ (
        (ils : List Text)
        → o ≡ some ils
        → (tests : List Module) → read_modules fs (e2e_files fs croot) ≡ some tests
        → Exercised fs croot (records_of fs ils) tests)
check_plans-IsExercised fs croot none h = cc
check_plans-IsExercised fs croot (some ils) h =
    let records = check_records-Exercised fs croot (records_of fs ils) h in
    (
      λ e js q tests r.
          subst (λ (ks : List Text). Exercised fs croot (records_of fs ks) tests) (some-inj q)
            (records.0 e tests r),
      λ k. records.1 (λ tests r. k ils refl tests r),
    )

-- The scan of a root that ends finds nothing exactly if in every consumer tree each train that a
-- route of a plan selects, and that the plan gives a sequence, is exercised by a test that names it
-- and asserts a sequence.
pub scan_sequences-IsExercised :
    (fs : Files) (root : Text) {vs : List Violation}
    → scan_sequences fs root ≡ some vs
    → (vs ≡ []) ↔ (
        (croots : List Text)
        → find_consumer_roots fs root ≡ some croots
        → (croot : Text) → In croot croots
        → IsExercised fs croot)
unfolding scan_sequences
scan_sequences-IsExercised fs root h =
    over_trees-nil (λ croot. check_plans fs croot (interlocking_files fs croot)) (IsExercised fs)
      (λ croot ws. check_plans-IsExercised fs croot (interlocking_files fs croot) {vs = ws})
      (find_consumer_roots fs root) h
