-- ===== src/Convex/Infrastructure/Rules/Routing.antt =====
-- What the rules on the Station Master ask.
use atdd_extensions.Base.{
  ◌≡◌, ◌≢◌, ◌↔◌, inl, inr, refl, ap, subst, ◌∙◌, Bool, true, false, not, ◌||◌, List, [], ◌∷◌, ◌++◌,
  Option, none, some, Bool-cases, Text, codes, In,
}
use atdd_extensions.Base.Build.{concat_map, concat_map-eq-nil, append-eq-nil, some-inj}
use atdd_extensions.Base.Report.{Violation}
use atdd_extensions.Convex.Interlocking.Tree.{Files, read_text, app_file}
use atdd_extensions.Convex.Interlocking.Space.{Module}
use atdd_extensions.Convex.Interlocking.Message.{unless}
use atdd_extensions.Convex.Interlocking.Message.Laws.{unless-nil, unless-not-nil}
use atdd_extensions.Convex.Infrastructure.Runner.{has_resolve_train, journey_map, references_token}
use atdd_extensions.Convex.Infrastructure.Rules.{
  shape_at, missing_runner, no_runner, unresolving, is_some_module, runner_exists_at, station_at,
  station_for,
}
use atdd_extensions.Convex.Infrastructure.Rules.Meets.{unresolving-nil}

-- A runner is there if the Station Master asks for one, and each of them resolves trains.
pub record Running (fs : Files) (croot : Text) (runners : List Module) : Type 0 where
  pub present :
      (app : Text)
      → app_file fs croot ≡ some app
      → (journey_map (read_text fs app)).has_interlocking ≡ true
      → runners ≢ []
  pub resolves_all : (x : Module) → In x runners → has_resolve_train x.text ≡ true

abbrev Asked : Files → Option Text → List Module → Type 0
Asked fs o runners =
    (app : Text)
    → o ≡ some app
    → (journey_map (read_text fs app)).has_interlocking ≡ true
    → runners ≢ []

missing_runner-nil :
    (fs : Files) (croot : Text) (o : Option Text) (runners : List Module)
    → (missing_runner fs croot (shape_at fs o) o runners ≡ []) ↔ Asked fs o runners
missing_runner-nil fs croot none runners = (λ h app e. cc, λ h. refl)
missing_runner-nil fs croot (some app) (x ∷ xs) = (λ h b e f g. cc, λ h. refl)
missing_runner-nil fs croot (some app) [] =
    let shape = journey_map (read_text fs app) in
    let guarded =
      unless-not-nil shape.has_interlocking (no_runner croot app (read_text fs app) _ ∷ []) in
    (
      λ h b e f g.
          let same : app ≡ b = some-inj e in
          let here =
            guarded.0 h (ap (λ a. (journey_map (read_text fs a)).has_interlocking) same ∙ f) in
          cc,
      λ h. guarded.1 (λ f. absurd (h app refl f refl)),
    )

-- What a script skips has nothing to push.
skipped :
    (b : Bool) (vs : List Violation) → (b ≡ false → vs ≡ []) → (unless (not b) vs ≡ []) ↔ (vs ≡ [])
skipped true vs h = (λ e. e, λ e. e)
skipped false vs h = (λ e. h refl, λ e. refl)

idle :
    (fs : Files) (croot : Text) (o : Option Text) (runners : List Module)
    → ((shape_at fs o).has_interlocking || is_some_module runners) ≡ false
    → (missing_runner fs croot (shape_at fs o) o runners ++ concat_map (unresolving croot) runners)
      ≡ []
idle fs croot o (x ∷ xs) h = elim (Bool-cases (shape_at fs o).has_interlocking) [
  | inl e ↦ let k = rw e at h in cc
  | inr e ↦ let k = rw e at h in cc
]
idle fs croot none [] h = refl
idle fs croot (some app) [] h =
    elim (Bool-cases (journey_map (read_text fs app)).has_interlocking) [
      | inl e ↦ let k = rw e at h in cc
      | inr e ↦ rw e
    ]

pub runner_exists_at-nil :
    (fs : Files) (croot : Text) (runners : List Module)
    → (runner_exists_at fs croot runners ≡ []) ↔ Running fs croot runners
unfolding runner_exists_at
runner_exists_at-nil fs croot runners =
    let app = app_file fs croot in
    let missing_ = missing_runner fs croot (shape_at fs app) app runners in
    let all =
      skipped ((shape_at fs app).has_interlocking || is_some_module runners) _
        (idle fs croot app runners) in
    let parts = append-eq-nil missing_ (concat_map (unresolving croot) runners) in
    let asked = missing_runner-nil fs croot app runners in
    let each = concat_map-eq-nil (unresolving croot) runners in
    (
      λ h.
          let (a, b) = parts.0 (all.0 h) in
          record {
            present = asked.0 a;
            resolves_all = λ x m. (unresolving-nil croot x).0 (each.0 b x m);
          },
      λ k. all.1 (
          parts.1
            (asked.1 k.present, each.1 (λ x m. (unresolving-nil croot x).1 (k.resolves_all x m)))),
    )

-- A Station Master that has an interlocking route names both runners.
pub record Linked (text : Text) : Type 0 where
  pub to_runner : references_token text (codes "InterlockingRunner") ≡ true
  pub to_trains : references_token text (codes "TrainRunner") ≡ true

station_at-nil :
    (croot app text : Text)
    → (station_at croot app text ≡ []) ↔ ((journey_map text).has_interlocking ≡ true → Linked text)
unfolding station_at
station_at-nil croot app text =
    let guarded = unless-not-nil (journey_map text).has_interlocking _ in
    let parts = append-eq-nil _ _ in
    let runner = unless-nil (references_token text (codes "InterlockingRunner")) _ in
    let trains = unless-nil (references_token text (codes "TrainRunner")) _ in
    (
      λ h e.
          let (a, b) = parts.0 (guarded.0 h e) in
          record { to_runner = runner.0 a; to_trains = trains.0 b },
      λ k.
          guarded.1 (λ e.
            let linked = k e in parts.1 (runner.1 linked.to_runner, trains.1 linked.to_trains)),
    )

pub station_for-nil :
    (fs : Files) (croot : Text) (o : Option Text)
    → (station_for fs croot o ≡ []) ↔ (
        (app : Text)
        → o ≡ some app
        → (journey_map (read_text fs app)).has_interlocking ≡ true
        → Linked (read_text fs app))
station_for-nil fs croot none = (λ h app e. cc, λ h. refl)
station_for-nil fs croot (some app) =
    let at_app = station_at-nil croot app (read_text fs app) in
    (
      λ h b e.
          let same : app ≡ b = some-inj e in
          subst
            (λ a. (journey_map (read_text fs a)).has_interlocking ≡ true → Linked (read_text fs a))
            same (at_app.0 h),
      λ h. at_app.1 (h app refl),
    )
