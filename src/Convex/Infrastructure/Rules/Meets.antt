-- ===== src/Convex/Infrastructure/Rules/Meets.antt =====
-- What the five rules ask of a consumer tree.
use atdd_extensions.Base.{
  ◌≡◌, ◌↔◌, ◌⊎◌, inl, inr, refl, sym, ap, subst, ◌∙◌, true, false, not, List, [], ◌∷◌, ◌++◌, Option,
  none, some, Text, any, map, keep, In, has_text_iff, In-append, In-keep,
}
use atdd_extensions.Base.Members.{any-true}
use atdd_extensions.Base.Build.{not-false, append-eq-nil, map-eq-nil, keep-nil, some-inj}
use atdd_extensions.Base.Report.{Violation}
use atdd_extensions.Regex.{Regex, Match, match_all, test}
use atdd_extensions.Convex.Interlocking.Text.{mask_comments}
use atdd_extensions.Convex.Interlocking.Tree.{Files, read_text, rel}
use atdd_extensions.Convex.Interlocking.Space.{Module}
use atdd_extensions.Convex.Interlocking.Message.Laws.{unless-nil, unless-not-nil}
use atdd_extensions.Convex.Infrastructure.Runner.{
  required_resolution_fields, has_resolve_train, resolution_model_fields,
}
use atdd_extensions.Convex.Infrastructure.Uses.{
  hits, hit_at, used, import_from_re, leads_to_wagon, imports_wagon, run_train_re, run_train_calls,
  sequence_re, sequence_loops, cargo_re, cargo_write_re, artifact_re, cargo_uses, import_names_re,
  leads_to_interlocking, imports_interlocking,
}
use atdd_extensions.Convex.Infrastructure.Rules.{
  on_read, executes_directly, carries, defines_runner, delegates_at, cargo_at, wagon_at, merge,
  fields_from, has_field, missing_fields, bare_resolution, resolves_train, resolution_of,
  resolution_at, unresolving,
}

-- A text imports no wagon, calls no train and loops over no sequence.
pub record Delegates (text : Text) : Type 0 where
  pub no_wagon :
      (m : Match) → In m (match_all import_from_re (mask_comments text)) → leads_to_wagon m ≡ false
  pub no_call : test run_train_re (mask_comments text) ≡ false
  pub no_loop : test sequence_re (mask_comments text) ≡ false

-- A text touches no cargo.
pub record Unladen (text : Text) : Type 0 where
  pub no_symbol : test cargo_re (mask_comments text) ≡ false
  pub no_write : test cargo_write_re (mask_comments text) ≡ false
  pub no_artifact : test artifact_re (mask_comments text) ≡ false

-- A wagon imports no interlocking code.
abbrev pub Apart : Text → Type 0
Apart text =
    (m : Match)
    → In m (match_all import_names_re (mask_comments text))
    → leads_to_interlocking m ≡ false

-- A module declares a field of the resolution.
abbrev pub Declares : List Module → Text → Type 0
Declares xs k =
    (x : Module) × (fields : List Text) × In x xs
    × (resolution_model_fields x.text ≡ some fields)
    × In k fields

test-false : (re : Regex) (t : Text) → (test re t ≡ false) ↔ (match_all re t ≡ [])
unfolding test
test-false re t = go (match_all re t)
  where
    go : (ms : List Match) → ((elim ms [ [] ↦ false | _ ∷ _ ↦ true ]) ≡ false) ↔ (ms ≡ [])
    go [] = (λ h. refl, λ h. refl)
    go (m ∷ ms) = (λ h. cc, λ h. cc)

hits-nil : (re : Regex) (raw : Text) → (hits re raw ≡ []) ↔ (test re (mask_comments raw) ≡ false)
unfolding hits
hits-nil re raw =
    let maps = map-eq-nil _ (match_all re (mask_comments raw)) in
    let tests = test-false re (mask_comments raw) in
    (λ h. tests.1 (maps.0 h), λ h. maps.1 (tests.0 h))

-- What is read is checked.
pub on_read-nil :
    {A : Type 0} (check : A → List Violation) (o : Option A) {vs : List Violation}
    → on_read check o ≡ some vs
    → (vs ≡ []) ↔ ((a : A) → o ≡ some a → check a ≡ [])
on_read-nil check none h = cc
on_read-nil check (some a) h =
    let ran : check a ≡ _ = some-inj h in
    (λ e b q. ap check (sym (some-inj q)) ∙ ran ∙ e, λ k. sym ran ∙ k a refl)

-- Three loops that push, one behind the other.
pushes-nil :
    {A B C : Type 0} (f : A → C) (g : B → C) (h : B → C) (xs : List A) (ys zs : List B)
    → ((map f xs ++ map g ys ++ map h zs) ≡ []) ↔ ((xs ≡ []) × (ys ≡ []) × (zs ≡ []))
pushes-nil f g h xs ys zs =
    let split = append-eq-nil (map f xs ++ map g ys) (map h zs) in
    let first = append-eq-nil (map f xs) (map g ys) in
    (
      λ e.
          let (rest, c) = split.0 e in
          let (a, b) = first.0 rest in
          ((map-eq-nil f xs).0 a, (map-eq-nil g ys).0 b, (map-eq-nil h zs).0 c),
      λ (a, b, c).
          split.1 (first.1 ((map-eq-nil f xs).1 a, (map-eq-nil g ys).1 b), (map-eq-nil h zs).1 c),
    )

pub delegates_at-nil : (croot : Text) (x : Module) → (delegates_at croot x ≡ []) ↔ Delegates x.text
unfolding delegates_at imports_wagon run_train_calls sequence_loops
delegates_at-nil croot x =
    let r = rel x.file croot in
    let parts =
      pushes-nil (executes_directly r "imports a wagon module directly")
        (executes_directly r "calls runTrain(...) directly")
        (executes_directly r "loops over train.sequence as a step executor") (imports_wagon x.text)
        (hits run_train_re x.text) (hits sequence_re x.text) in
    let found = match_all import_from_re (mask_comments x.text) in
    let wagons = map-eq-nil (hit_at x.text) (keep leads_to_wagon found) in
    let none_ = keep-nil leads_to_wagon found in
    let called = hits-nil run_train_re x.text in
    let looped = hits-nil sequence_re x.text in
    (
      λ h.
          let (a, b, c) = parts.0 h in
          record { no_wagon = none_.0 (wagons.0 a); no_call = called.0 b; no_loop = looped.0 c },
      λ d. parts.1 (wagons.1 (none_.1 d.no_wagon), called.1 d.no_call, looped.1 d.no_loop),
    )

pub cargo_at-nil : (croot : Text) (x : Module) → (cargo_at croot x ≡ []) ↔ Unladen x.text
unfolding cargo_at cargo_uses
cargo_at-nil croot x =
    let all = map-eq-nil (carries (rel x.file croot)) (cargo_uses x.text) in
    let parts =
      pushes-nil (used "references the Cargo symbol") (used "mutates a cargo mapping")
        (used "stores an artifact_urn value") (hits cargo_re x.text) (hits cargo_write_re x.text)
        (hits artifact_re x.text) in
    let symbols = hits-nil cargo_re x.text in
    let writes = hits-nil cargo_write_re x.text in
    let artifacts = hits-nil artifact_re x.text in
    (
      λ h.
          let (a, b, c) = parts.0 (all.0 h) in
          record { no_symbol = symbols.0 a; no_write = writes.0 b; no_artifact = artifacts.0 c },
      λ u. all.1 (parts.1 (symbols.1 u.no_symbol, writes.1 u.no_write, artifacts.1 u.no_artifact)),
    )

pub wagon_at-nil :
    (fs : Files) (croot f : Text) → (wagon_at fs croot f ≡ []) ↔ Apart (read_text fs f)
unfolding wagon_at imports_interlocking
wagon_at-nil fs croot f =
    let text = read_text fs f in
    let all = map-eq-nil _ (imports_interlocking text) in
    let kept =
      map-eq-nil _ (keep leads_to_interlocking (match_all import_names_re (mask_comments text))) in
    let none_ = keep-nil leads_to_interlocking (match_all import_names_re (mask_comments text)) in
    (λ h. none_.0 (kept.0 (all.0 h)), λ h. all.1 (kept.1 (none_.1 h)))

-- Without a missing field every required one is declared by some module.
bare_resolution-nil :
    (croot : Text) (target : Module) (ks : List Text)
    → (bare_resolution croot target ks ≡ []) ↔ (ks ≡ [])
unfolding bare_resolution
bare_resolution-nil croot target [] = (λ h. refl, λ h. refl)
bare_resolution-nil croot target (k ∷ ks) = (λ h. cc, λ h. cc)

abbrev Collected : Option (List Text) → List Module → Text → Type 0
Collected fields xs k = (has_field fields k ≡ true) ⊎ Declares xs k

merge-has_field :
    (a b : Option (List Text)) (k : Text)
    → (has_field (merge a b) k ≡ true) ↔ ((has_field a k ≡ true) ⊎ (has_field b k ≡ true))
merge-has_field a none k = (λ h. inl h, λ h. elim h [ inl e ↦ e | inr e ↦ cc ])
merge-has_field none (some f) k = (λ h. inr h, λ h. elim h [ inl e ↦ cc | inr e ↦ e ])
merge-has_field (some fs) (some f) k =
    let all = has_text_iff (fs ++ f) k in
    (
      λ h. elim ((In-append k fs f).0 (all.0 h)) [
        | inl m ↦ inl ((has_text_iff fs k).1 m)
        | inr m ↦ inr ((has_text_iff f k).1 m)
      ],
      λ h. all.1 (
          (In-append k fs f).1 (elim h [
            | inl e ↦ inl ((has_text_iff fs k).0 e)
            | inr e ↦ inr ((has_text_iff f k).0 e)
          ])),
    )

field_of :
    (o : Option (List Text)) (k : Text)
    → (has_field o k ≡ true) ↔ ((f : List Text) × (o ≡ some f) × In k f)
field_of none k = (λ h. cc, λ (f, e, m). cc)
field_of (some f) k =
    let all = has_text_iff f k in
    (λ h. (f, refl, all.0 h), λ (g, e, m). all.1 (subst (In k) (sym (some-inj e)) m))

fields_from-Collected :
    (fields : Option (List Text)) (xs : List Module) (k : Text)
    → (has_field (fields_from fields xs) k ≡ true) ↔ Collected fields xs k
unfolding fields_from
fields_from-Collected fields [] k =
    (λ h. inl h, λ h. elim h [ inl e ↦ e | inr (x, f, m, e, n) ↦ absurd m ])
fields_from-Collected fields (x ∷ xs) k =
    let here = resolution_model_fields x.text in
    let rest = fields_from-Collected (merge fields here) xs k in
    let merged = merge-has_field fields here k in
    let own = field_of here k in
    (
      λ h. elim (rest.0 h) [
        | inl e ↦ elim (merged.0 e) [
          | inl a ↦ inl a
          | inr b ↦ let (f, q, m) = own.0 b in inr (x, f, inl refl, q, m)
        ]
        | inr (y, f, m, q, n) ↦ inr (y, f, inr m, q, n)
      ],
      λ h. rest.1 (elim h [
        | inl a ↦ inl (merged.1 (inl a))
        | inr (y, f, m, q, n) ↦ elim m [
          | inl same ↦ inl (
              merged.1 (
                inr (
                  own.1
                    (f, ap (λ (z : Module). resolution_model_fields z.text) (sym same) ∙ q, n))))
          | inr later ↦ inr (y, f, later, q, n)
        ]
      ]),
    )

-- Every field that a resolution must have is declared by some module.
missing_fields-nil :
    (xs : List Module)
    → (missing_fields xs ≡ []) ↔ ((k : Text) → In k required_resolution_fields → Declares xs k)
unfolding missing_fields
missing_fields-nil xs =
    let fields = fields_from none xs in
    let all = keep-nil (λ k. not (has_field fields k)) required_resolution_fields in
    (
      λ h k m.
          elim ((fields_from-Collected none xs k).0
            ((not-false (has_field fields k)).0 (all.0 h k m))) [ inl e ↦ cc | inr d ↦ d ],
      λ d. all.1 (λ k m.
          (not-false (has_field fields k)).1 ((fields_from-Collected none xs k).1 (inr (d k m)))),
    )

-- Some runner resolves trains.
abbrev pub Resolving : List Module → Type 0
Resolving xs = (x : Module) × In x xs × (defines_runner x ≡ true) × (resolves_train x ≡ true)

resolution_of-nil :
    (croot : Text) (files runners : List Module)
    → (resolution_of croot files runners ≡ [])
      ↔ (any resolves_train runners ≡ true → missing_fields files ≡ [])
resolution_of-nil croot files [] = (λ h e. cc, λ h. refl)
resolution_of-nil croot files (x ∷ xs) =
    let guarded =
      unless-not-nil (any resolves_train (x ∷ xs))
        (bare_resolution croot x (missing_fields files)) in
    let told = bare_resolution-nil croot x (missing_fields files) in
    (λ h e. told.0 (guarded.0 h e), λ h. guarded.1 (λ e. told.1 (h e)))

any-runner :
    (xs : List Module) → (any resolves_train (keep defines_runner xs) ≡ true) ↔ Resolving xs
any-runner xs =
    let some_ = any-true resolves_train (keep defines_runner xs) in
    (
      λ h.
          let (x, m, f) = some_.0 h in
          let (n, e) = (In-keep defines_runner xs x).0 m in (x, n, e, f),
      λ (x, n, e, f). some_.1 (x, (In-keep defines_runner xs x).1 (n, e), f),
    )

pub resolution_at-nil :
    (croot : Text) (files : List Module)
    → (resolution_at croot files ≡ [])
      ↔ (Resolving files → (k : Text) → In k required_resolution_fields → Declares files k)
unfolding resolution_at
resolution_at-nil croot files =
    let guarded = resolution_of-nil croot files (keep defines_runner files) in
    let some_ = any-runner files in
    let missing_ = missing_fields-nil files in
    (λ h r. missing_.0 (guarded.0 h (some_.1 r)), λ h. guarded.1 (λ e. missing_.1 (h (some_.0 e))))

pub unresolving-nil :
    (croot : Text) (x : Module) → (unresolving croot x ≡ []) ↔ (has_resolve_train x.text ≡ true)
unfolding unresolving
unresolving-nil croot x = unless-nil (has_resolve_train x.text) _
