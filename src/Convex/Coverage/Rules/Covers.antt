-- ===== src/Convex/Coverage/Rules/Covers.antt =====
-- What the rules ask of the tests of a consumer tree.
use atdd_extensions.Base.{
  ◌≡◌, ◌↔◌, ◌⊎◌, inl, inr, refl, sym, ap, ◌∙◌, Bool, true, false, not, List, [], ◌∷◌, none, some,
  Text, any, keep, In,
}
use atdd_extensions.Base.Members.{In-map, any-true}
use atdd_extensions.Base.Build.{concat_map-eq-nil, append-eq-nil, map-eq-nil, keep-nil, not-false}
use atdd_extensions.Regex.{Regex, Match, match_all, first_match, test}
use atdd_extensions.Convex.Interlocking.Text.{mask_comments}
use atdd_extensions.Convex.Interlocking.Space.{Module}
use atdd_extensions.Convex.Interlocking.Message.Laws.{unless-nil, unless-not-nil}
use atdd_extensions.Convex.Coverage.Plan.{GuardedRoute, Planned, Suite}
use atdd_extensions.Convex.Coverage.Tokens.{
  Labelled, prod_interlocking, prod_train, required_trace_fields, forbidden_patterns,
  trace_object_re, token_covered, mentions, is_route_covered,
}
use atdd_extensions.Convex.Coverage.Rules.{
  masked_tests, uncovered, routes_covered, is_smoke, action_smoke_covered, no_smoke, actions_smoked,
  drives, lacks, unbound_fields, unbound_test, trace_at, traces_bound, substitutes, missing_runners,
  unreferenced, production_at, runners_used,
}

-- Some test, without its comments, has a property.
abbrev pub Tested : Suite → (Text → Bool) → Type 0
Tested s p = (x : Module) × In x s.tests × (p (mask_comments x.text) ≡ true)

-- A test names every field that a trace must have.
abbrev pub Binds : Text → Type 0
Binds text = (f : Labelled) → In f required_trace_fields → test f.pattern text ≡ true

-- A test replaces no runner, and names both.
pub record Genuine (text : Text) : Type 0 where
  pub unreplaced : (f : Labelled) → In f forbidden_patterns → test f.pattern text ≡ false
  pub referenced :
      (sym_ : Text) → In sym_ (prod_interlocking ∷ prod_train ∷ []) → token_covered sym_ text ≡ true

tested : (s : Suite) (p : Text → Bool) → (any p (masked_tests s) ≡ true) ↔ Tested s p
unfolding masked_tests
tested s p =
    let some_ = any-true p (masked_tests s) in
    let read = In-map (λ (x : Module). mask_comments x.text) s.tests in
    (
      λ h. let (t, m, e) = some_.0 h in let (x, n, q) = (read t).0 m in (x, n, sym (ap p q) ∙ e),
      λ (x, n, e). some_.1 (mask_comments x.text, (read _).1 (x, n, refl), e),
    )

pub routes_covered-nil :
    (s : Suite)
    → (routes_covered s ≡ []) ↔ (
        (p : Planned)
        → In p s.plans
        → (route : GuardedRoute) → In route p.space.routes
        → Tested s (mentions route))
unfolding routes_covered is_route_covered
routes_covered-nil s =
    let outer = concat_map-eq-nil _ s.plans in
    (
      λ h p m route n. (tested s (mentions route)).0 (
          (unless-nil _ (uncovered s.croot p route)).0
            ((concat_map-eq-nil _ p.space.routes).0 (outer.0 h p m) route n)),
      λ h. outer.1 (λ p m. (concat_map-eq-nil _ p.space.routes).1 (λ route n.
          (unless-nil _ (uncovered s.croot p route)).1
            ((tested s (mentions route)).1 (h p m route n)))),
    )

pub actions_smoked-nil :
    (s : Suite)
    → (actions_smoked s ≡ []) ↔ (
        (p : Planned)
        → In p s.plans
        → p.space.exposed ≡ true
        → (action : Text) → In action p.space.actions
        → Tested s (is_smoke action))
unfolding actions_smoked action_smoke_covered
actions_smoked-nil s =
    let outer = concat_map-eq-nil _ s.plans in
    (
      λ h p m e action n. (tested s (is_smoke action)).0 (
          (unless-nil _ (no_smoke s.croot p action)).0 (
            (concat_map-eq-nil _ p.space.actions).0
              ((unless-not-nil p.space.exposed _).0 (outer.0 h p m) e) action n)),
      λ h. outer.1 (λ p m. (unless-not-nil p.space.exposed _).1 (λ e.
          (concat_map-eq-nil _ p.space.actions).1 (λ action n.
            (unless-nil _ (no_smoke s.croot p action)).1
              ((tested s (is_smoke action)).1 (h p m e action n))))),
    )

-- The first match is there exactly if the test succeeds.
found-test :
    (re : Regex) (t : Text)
    → ((first_match re t ≡ none) × (test re t ≡ false))
      ⊎ ((m : Match) × (first_match re t ≡ some m) × (test re t ≡ true))
unfolding first_match test
found-test re t = go (match_all re t) refl
  where
    go :
        (ms : List Match)
        → match_all re t ≡ ms
        → ((first_match re t ≡ none) × (test re t ≡ false))
          ⊎ ((m : Match) × (first_match re t ≡ some m) × (test re t ≡ true))
    go [] e = inl (rw (e, first_match) refl, rw (e, test) refl)
    go (m ∷ ms) e = inr (m, rw (e, first_match) refl, rw (e, test) refl)

unbound_fields-nil : (text : Text) → (unbound_fields text ≡ []) ↔ Binds text
unfolding unbound_fields
unbound_fields-nil text =
    let names = map-eq-nil (λ (f : Labelled). f.label) (keep (lacks text) required_trace_fields) in
    let all = keep-nil (lacks text) required_trace_fields in
    (
      λ h f m. (not-false (test f.pattern text)).0 (all.0 (names.0 h) f m),
      λ h. names.1 (all.1 (λ f m. (not-false (test f.pattern text)).1 (h f m))),
    )

unbound_test-nil :
    (croot : Text) (x : Module) (m : Match) (ks : List Text)
    → (unbound_test croot x m ks ≡ []) ↔ (ks ≡ [])
unfolding unbound_test
unbound_test-nil croot x m [] = (λ h. refl, λ h. refl)
unbound_test-nil croot x m (k ∷ ks) = (λ h. cc, λ h. cc)

trace_at-nil :
    (croot : Text) (x : Module)
    → (trace_at croot x (first_match trace_object_re (mask_comments x.text)) ≡ [])
      ↔ (test trace_object_re (mask_comments x.text) ≡ true → Binds (mask_comments x.text))
trace_at-nil croot x = elim (found-test trace_object_re (mask_comments x.text)) [
  | inl (e, f) ↦ rw (e, f) (λ h q. cc, λ h. refl)
  | inr (m, e, f) ↦
      let told = unbound_test-nil croot x m (unbound_fields (mask_comments x.text)) in
      let all = unbound_fields-nil (mask_comments x.text) in
      rw (e, f) (λ h q. all.0 (told.0 h), λ h. told.1 (all.1 (h refl)))
]

pub traces_bound-nil :
    (s : Suite)
    → (traces_bound s ≡ []) ↔ (
        (x : Module)
        → In x s.tests
        → drives s x ≡ true
        → test trace_object_re (mask_comments x.text) ≡ true
        → Binds (mask_comments x.text))
unfolding traces_bound
traces_bound-nil s =
    let outer = concat_map-eq-nil _ s.tests in
    (
      λ h x m e. (trace_at-nil s.croot x).0 ((unless-not-nil (drives s x) _).0 (outer.0 h x m) e),
      λ h.
          outer.1
            (λ x m. (unless-not-nil (drives s x) _).1 (λ e. (trace_at-nil s.croot x).1 (h x m e))),
    )

substitutes-nil :
    (croot : Text) (x : Module) (f : Labelled)
    → (substitutes croot x f (first_match f.pattern (mask_comments x.text)) ≡ [])
      ↔ (test f.pattern (mask_comments x.text) ≡ false)
unfolding substitutes
substitutes-nil croot x f = elim (found-test f.pattern (mask_comments x.text)) [
  | inl (e, g) ↦ rw (e, g) (λ h. refl, λ h. refl)
  | inr (m, e, g) ↦ rw (e, g) (λ h. cc, λ h. cc)
]

unreferenced-nil :
    (croot : Text) (x : Module) (ks : List Text) → (unreferenced croot x ks ≡ []) ↔ (ks ≡ [])
unfolding unreferenced
unreferenced-nil croot x [] = (λ h. refl, λ h. refl)
unreferenced-nil croot x (k ∷ ks) = (λ h. cc, λ h. cc)

production_at-nil :
    (croot : Text) (x : Module) → (production_at croot x ≡ []) ↔ Genuine (mask_comments x.text)
unfolding production_at missing_runners
production_at-nil croot x =
    let text = mask_comments x.text in
    let parts = append-eq-nil _ (unreferenced croot x (missing_runners text)) in
    let each =
      concat_map-eq-nil (λ f. substitutes croot x f (first_match f.pattern text))
        forbidden_patterns in
    let told = unreferenced-nil croot x (missing_runners text) in
    let all = keep-nil (λ t. not (token_covered t text)) (prod_interlocking ∷ prod_train ∷ []) in
    (
      λ h.
          let (a, b) = parts.0 h in
          record {
            unreplaced = λ f m. (substitutes-nil croot x f).0 (each.0 a f m);
            referenced = λ t m. (not-false (token_covered t text)).0 (all.0 (told.0 b) t m);
          },
      λ g. parts.1 (
        each.1 (λ f m. (substitutes-nil croot x f).1 (g.unreplaced f m)),
        told.1 (all.1 (λ t m. (not-false (token_covered t text)).1 (g.referenced t m))),
      ),
    )

pub runners_used-nil :
    (s : Suite)
    → (runners_used s ≡ [])
      ↔ ((x : Module) → In x s.tests → drives s x ≡ true → Genuine (mask_comments x.text))
unfolding runners_used
runners_used-nil s =
    let outer = concat_map-eq-nil _ s.tests in
    (
      λ h x m e.
          (production_at-nil s.croot x).0 ((unless-not-nil (drives s x) _).0 (outer.0 h x m) e),
      λ h. outer.1 (λ x m.
          (unless-not-nil (drives s x) _).1 (λ e. (production_at-nil s.croot x).1 (h x m e))),
    )
