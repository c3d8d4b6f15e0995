-- ===== src/Convex/Interlocking/Scan/Closed.antt =====
-- The closure that the checks stand for.
use atdd_extensions.Base.{
  ℕ, ◌≡◌, ◌↔◌, inl, inr, refl, sym, ap, subst, ◌∙◌, Bool, true, false, ◌||◌, List, [], ◌∷◌, ◌++◌,
  Option, none, some, Bool-cases, Text, any, map, In, text_eq_iff,
}
use atdd_extensions.Base.Build.{concat_map-eq-nil, append-eq-nil}
use atdd_extensions.Base.Join.{join, resolve}
use atdd_extensions.Base.Report.{Violation}
use atdd_extensions.Regex.{Match, captured, test}
use atdd_extensions.Convex.Interlocking.Tree.{Files, is_file}
use atdd_extensions.Convex.Interlocking.Patterns.{trace_re}
use atdd_extensions.Convex.Interlocking.Plan.{Route}
use atdd_extensions.Convex.Interlocking.Journey.{
  Mapping, interlocking, direct, Entry, lookup, Resolved, runtime_resolution_literals,
}
use atdd_extensions.Convex.Interlocking.Space.{
  Declared, Module, Space, truthy, declared_ids, is_enabled,
}
use atdd_extensions.Convex.Interlocking.Station.{
  check_path, check_id, check_mapping, station_from, station_to_declaration, same_id, same_file,
  leads_to, is_reachable, declaration_to_station, missing_path, unknown_id, unreachable,
}
use atdd_extensions.Convex.Interlocking.Scan.{
  train_artifact_exists, declaration_to_runtime, declared_for, resolves, runtime_to_declaration,
  parallel_fields_of, declared_for_trace, traces, trace_to_declaration, unresolvable, hidden_route,
  forked, unbound_trace, scan_space,
}
use atdd_extensions.Convex.Interlocking.Message.Laws.{
  unless-nil, unless-not-nil, unless-has_text-nil,
}

-- An action of the Station Master leads to an interlocking: by its id, or by the path of its file.
pub data Wired (cwd : Text) (s : Space) (rec : Declared) : Option Mapping → Type 0 where
  by_id :
      {path : Option Text} {line : ℕ}
      → Wired cwd s rec (some (interlocking (some rec.plan.interlocking_id) path line))
  by_path :
      {id : Option Text} {path : Option Text} {line : ℕ} (p : Text)
      → truthy path ≡ some p
      → resolve cwd (join s.croot p) ≡ resolve cwd rec.file
      → Wired cwd s rec (some (interlocking id path line))

-- Declarations, runtime, Station Master and traces agree.
pub record Closed (fs : Files) (cwd : Text) (s : Space) : Type 0 where
  pub resolvable :
      (rec : Declared)
      → In rec s.records
      → (route : Route) → In route rec.plan.routes
      → train_artifact_exists fs s.croot route ≡ true
  pub declared :
      (m : Module)
      → In m s.runtime
      → resolves m.text ≡ true
      → (r : Resolved) → In r (runtime_resolution_literals m.text)
      → In r.value (declared_for s r)
  pub mapped :
      (app : Text)
      → s.app ≡ some app
      → (e : Entry) → In e s.journey
      → (id path : Option Text) (line : ℕ) → e.mapping ≡ interlocking id path line
      → ((p : Text) → truthy path ≡ some p → is_file (fs (join s.croot p)) ≡ true)
        × ((i : Text) → truthy id ≡ some i → In i (declared_ids s))
  pub reachable :
      (rec : Declared)
      → In rec s.records
      → rec.plan.exposed ≡ true
      → (action : Text) × In action rec.plan.actions × Wired cwd s rec (lookup s.journey action)
  pub unforked : (rec : Declared) → In rec s.records → rec.plan.parallel_fields ≡ []
  pub traced :
      (f : Module)
      → In f s.e2e
      → test trace_re f.text ≡ true
      → (m : Match) → In m (traces f.text)
      → In (captured m 1) (declared_for_trace s m)

module _ (fs : Files) (cwd : Text) (s : Space) where
  declaration_to_runtime-nil : (declaration_to_runtime fs s ≡ []) ↔ (
      (rec : Declared)
      → In rec s.records
      → (route : Route) → In route rec.plan.routes
      → train_artifact_exists fs s.croot route ≡ true)
  unfolding declaration_to_runtime
  declaration_to_runtime-nil =
      let outer = concat_map-eq-nil _ s.records in
      (
        λ h rec m route n.
            (unless-nil _ (unresolvable s rec route)).0
              ((concat_map-eq-nil _ rec.plan.routes).0 (outer.0 h rec m) route n),
        λ h. outer.1 (λ rec m.
            (concat_map-eq-nil _ rec.plan.routes).1
              (λ route n. (unless-nil _ (unresolvable s rec route)).1 (h rec m route n))),
      )

  runtime_to_declaration-nil : (runtime_to_declaration s ≡ []) ↔ (
      (m : Module)
      → In m s.runtime
      → resolves m.text ≡ true
      → (r : Resolved) → In r (runtime_resolution_literals m.text)
      → In r.value (declared_for s r))
  unfolding runtime_to_declaration
  runtime_to_declaration-nil =
      let outer = concat_map-eq-nil _ s.runtime in
      (
        λ h m n e r k. (unless-has_text-nil (declared_for s r) r.value (hidden_route s m r)).0 (
            (concat_map-eq-nil _ (runtime_resolution_literals m.text)).0
              ((unless-not-nil (resolves m.text) _).0 (outer.0 h m n) e) r k),
        λ h. outer.1 (λ m n. (unless-not-nil (resolves m.text) _).1 (λ e.
            (concat_map-eq-nil _ (runtime_resolution_literals m.text)).1 (λ r k.
              (unless-has_text-nil (declared_for s r) r.value (hidden_route s m r)).1
                (h m n e r k)))),
      )

  check_path-nil :
      (app action : Text) (o : Option Text) (line : ℕ)
      → (check_path fs s app action o line ≡ [])
        ↔ ((p : Text) → o ≡ some p → is_file (fs (join s.croot p)) ≡ true)
  check_path-nil app action none line = (λ h p e. cc, λ h. refl)
  check_path-nil app action (some p) line =
      let tests = unless-nil (is_file (fs (join s.croot p))) (missing_path s app action p line) in
      (
        λ h q e.
            let same : p ≡ q = cc in
            subst (λ x. is_file (fs (join s.croot x)) ≡ true) same (tests.0 h),
        λ h. tests.1 (h p refl),
      )

  check_id-nil :
      (app action : Text) (o : Option Text) (line : ℕ)
      → (check_id s app action o line ≡ []) ↔ ((i : Text) → o ≡ some i → In i (declared_ids s))
  check_id-nil app action none line = (λ h p e. cc, λ h. refl)
  check_id-nil app action (some i) line =
      let tests = unless-has_text-nil (declared_ids s) i (unknown_id s app action i line) in
      (
        λ h j e. let same : i ≡ j = cc in subst (λ x. In x (declared_ids s)) same (tests.0 h),
        λ h. tests.1 (h i refl),
      )

  -- What a mapping has to name.
  abbrev Named : Mapping → Type 0
  Named mapping =
      (id path : Option Text) (line : ℕ)
      → mapping ≡ interlocking id path line
      → ((p : Text) → truthy path ≡ some p → is_file (fs (join s.croot p)) ≡ true)
        × ((i : Text) → truthy id ≡ some i → In i (declared_ids s))

  check_mapping-nil :
      (app action : Text) (mapping : Mapping)
      → (check_mapping fs s app action mapping ≡ []) ↔ Named mapping
  check_mapping-nil app action (direct train_id line) = (λ h id path l e. cc, λ h. refl)
  check_mapping-nil app action (interlocking id path line) =
      let parts =
        append-eq-nil (check_path fs s app action (truthy path) line)
          (check_id s app action (truthy id) line) in
      let paths = check_path-nil app action (truthy path) line in
      let ids = check_id-nil app action (truthy id) line in
      (
        λ h id' path' line' e.
            let same_path : path ≡ path' = cc in
            let same_id' : id ≡ id' = cc in
            (
              λ p q. paths.0 (parts.0 h).0 p (ap truthy same_path ∙ q),
              λ i q. ids.0 (parts.0 h).1 i (ap truthy same_id' ∙ q),
            ),
        λ h. let named = h id path line refl in parts.1 (paths.1 named.0, ids.1 named.1),
      )

  station_from-nil :
      (o : Option Text)
      → (station_from fs s o ≡ [])
        ↔ ((app : Text) → o ≡ some app → (e : Entry) → In e s.journey → Named e.mapping)
  station_from-nil none = (λ h app e. cc, λ h. refl)
  station_from-nil (some app) =
      let all = concat_map-eq-nil (λ e. check_mapping fs s app e.action e.mapping) s.journey in
      (
        λ h app' q e m. (check_mapping-nil app e.action e.mapping).0 (all.0 h e m),
        λ h. all.1 (λ e m. (check_mapping-nil app e.action e.mapping).1 (h app refl e m)),
      )

  same_id-Wired :
      (rec : Declared) (id path : Option Text) (line : ℕ)
      → same_id id rec.plan.interlocking_id ≡ true
      → Wired cwd s rec (some (interlocking id path line))
  same_id-Wired rec none path line h = cc
  same_id-Wired rec (some t) path line h =
      let same : rec.plan.interlocking_id ≡ t = sym ((text_eq_iff t _).0 h) in
      subst (λ x. Wired cwd s rec (some (interlocking (some x) path line))) same by_id

  same_file-path :
      (rec : Declared) (o : Option Text)
      → same_file cwd s.croot o rec.file ≡ true
      → (p : Text) × (o ≡ some p) × (resolve cwd (join s.croot p) ≡ resolve cwd rec.file)
  same_file-path rec none h = cc
  same_file-path rec (some p) h = (p, refl, (text_eq_iff _ _).0 h)

  leads_to-Wired :
      (rec : Declared) (o : Option Mapping) → leads_to cwd s rec o ≡ true → Wired cwd s rec o
  leads_to-Wired rec none h = cc
  leads_to-Wired rec (some (direct train_id line)) h = cc
  leads_to-Wired rec (some (interlocking id path line)) h =
      elim (Bool-cases (same_id id rec.plan.interlocking_id)) [
        | inl e ↦ same_id-Wired rec id path line e
        | inr e ↦ let (p, q, r) = same_file-path rec (truthy path) (rw e at h) in by_path p q r
      ]

  true_or : (a b : Bool) → b ≡ true → (a || b) ≡ true
  true_or true b h = refl
  true_or false b h = h

  Wired-leads_to :
      (rec : Declared) {o : Option Mapping} → Wired cwd s rec o → leads_to cwd s rec o ≡ true
  Wired-leads_to rec by_id =
      let same = (text_eq_iff rec.plan.interlocking_id rec.plan.interlocking_id).1 refl in rw same
  Wired-leads_to rec (by_path {id} {path} p e q) =
      true_or (same_id id rec.plan.interlocking_id) _ (rw e ((text_eq_iff _ _).1 q))

  any-true :
      {A : Type 0} (p : A → Bool) (xs : List A)
      → (any p xs ≡ true) ↔ ((a : A) × In a xs × (p a ≡ true))
  any-true p [] = (λ h. cc, λ k. absurd k.1)
  any-true p (x ∷ xs) =
      let rest = any-true p xs in
      (
        λ h. elim (Bool-cases (p x)) [
          | inl e ↦ (x, inl refl, e)
          | inr e ↦ let (a, m, k) = rest.0 (rw e at h) in (a, inr m, k)
        ],
        λ (a, m, k). elim m [
          | inl e ↦ let here : p x ≡ true = ap p (sym e) ∙ k in rw here
          | inr n ↦ true_or (p x) (any p xs) (rest.1 (a, n, k))
        ],
      )

  abbrev Reachable : Declared → Type 0
  Reachable rec =
      (action : Text) × In action rec.plan.actions × Wired cwd s rec (lookup s.journey action)

  is_reachable-Reachable : (rec : Declared) → (is_reachable cwd s rec ≡ true) ↔ Reachable rec
  unfolding is_reachable
  is_reachable-Reachable rec =
      let some_ =
        any-true (λ action. leads_to cwd s rec (lookup s.journey action)) rec.plan.actions in
      (
        λ h. let (a, m, k) = some_.0 h in (a, m, leads_to-Wired rec (lookup s.journey a) k),
        λ (a, m, w). some_.1 (a, m, Wired-leads_to rec w),
      )

  declaration_to_station-nil :
      (declaration_to_station cwd s ≡ [])
      ↔ ((rec : Declared) → In rec s.records → rec.plan.exposed ≡ true → Reachable rec)
  unfolding declaration_to_station
  declaration_to_station-nil =
      let all = concat_map-eq-nil _ s.records in
      (
        λ h rec m e. (is_reachable-Reachable rec).0 (
            (unless-nil (is_reachable cwd s rec) (unreachable s rec)).0
              ((unless-not-nil rec.plan.exposed _).0 (all.0 h rec m) e)),
        λ h. all.1 (λ rec m. (unless-not-nil rec.plan.exposed _).1 (λ e.
            (unless-nil (is_reachable cwd s rec) (unreachable s rec)).1
              ((is_reachable-Reachable rec).1 (h rec m e)))),
      )

  map-nil : {A B : Type 0} (f : A → B) (xs : List A) → (map f xs ≡ []) ↔ (xs ≡ [])
  map-nil f [] = (λ h. refl, λ h. refl)
  map-nil f (x ∷ xs) = (λ h. cc, λ h. cc)

  parallel_fields_of-nil :
      (parallel_fields_of s ≡ [])
      ↔ ((rec : Declared) → In rec s.records → rec.plan.parallel_fields ≡ [])
  unfolding parallel_fields_of
  parallel_fields_of-nil =
      let all = concat_map-eq-nil _ s.records in
      (
        λ h rec m. (map-nil (forked s rec) rec.plan.parallel_fields).0 (all.0 h rec m),
        λ h. all.1 (λ rec m. (map-nil (forked s rec) rec.plan.parallel_fields).1 (h rec m)),
      )

  trace_to_declaration-nil : (trace_to_declaration s ≡ []) ↔ (
      (f : Module)
      → In f s.e2e
      → test trace_re f.text ≡ true
      → (m : Match) → In m (traces f.text)
      → In (captured m 1) (declared_for_trace s m))
  unfolding trace_to_declaration
  trace_to_declaration-nil =
      let outer = concat_map-eq-nil _ s.e2e in
      (
        λ h f n e m k.
            (unless-has_text-nil (declared_for_trace s m) (captured m 1) (unbound_trace s f m)).0 (
              (concat_map-eq-nil _ (traces f.text)).0
                ((unless-not-nil (test trace_re f.text) _).0 (outer.0 h f n) e) m k),
        λ h. outer.1 (λ f n. (unless-not-nil (test trace_re f.text) _).1 (λ e.
            (concat_map-eq-nil _ (traces f.text)).1 (λ m k.
              (unless-has_text-nil (declared_for_trace s m) (captured m 1) (unbound_trace s f m)).1
                (h f n e m k)))),
      )

station_to_declaration-open :
    (fs : Files) (s : Space) → station_to_declaration fs s ≡ station_from fs s s.app
unfolding station_to_declaration
station_to_declaration-open fs s = refl

six-nil :
    (a b c d e f : List Violation)
    → ((a ++ b ++ c ++ d ++ e ++ f) ≡ [])
      ↔ ((a ≡ []) × (b ≡ []) × (c ≡ []) × (d ≡ []) × (e ≡ []) × (f ≡ []))
six-nil [] [] [] [] [] f = (λ h. (refl, refl, refl, refl, refl, h), λ h. h.5)
six-nil [] [] [] [] (x ∷ e) f = (λ h. cc, λ h. cc (h.4))
six-nil [] [] [] (x ∷ d) e f = (λ h. cc, λ h. cc (h.3))
six-nil [] [] (x ∷ c) d e f = (λ h. cc, λ h. cc (h.2))
six-nil [] (x ∷ b) c d e f = (λ h. cc, λ h. cc (h.1))
six-nil (x ∷ a) b c d e f = (λ h. cc, λ h. cc (h.0))

-- Where the checks are enabled, they report nothing exactly if the interlocking is closed.
pub scan_space-Closed :
    (fs : Files) (cwd : Text) (s : Space)
    → is_enabled s ≡ true
    → (scan_space fs cwd s ≡ []) ↔ Closed fs cwd s
unfolding scan_space
scan_space-Closed fs cwd s on =
    let a = declaration_to_runtime-nil fs cwd s in
    let b = runtime_to_declaration-nil fs cwd s in
    let c = station_from-nil fs cwd s s.app in
    let d = declaration_to_station-nil fs cwd s in
    let e = parallel_fields_of-nil fs cwd s in
    let f = trace_to_declaration-nil fs cwd s in
    let all =
      six-nil (declaration_to_runtime fs s) (runtime_to_declaration s) (station_to_declaration fs s)
        (declaration_to_station cwd s) (parallel_fields_of s) (trace_to_declaration s) in
    let station = station_to_declaration-open fs s in
    rw on (
      λ h.
          let k = all.0 h in
          record {
            resolvable = a.0 k.0;
            declared = b.0 k.1;
            mapped = c.0 (sym station ∙ k.2);
            reachable = d.0 k.3;
            unforked = e.0 k.4;
            traced = f.0 k.5;
          },
      λ k. all.1 (
        a.1 k.resolvable,
        b.1 k.declared,
        station ∙ c.1 k.mapped,
        d.1 k.reachable,
        e.1 k.unforked,
        f.1 k.traced,
      ),
    )
