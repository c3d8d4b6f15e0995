-- ===== src/Convex/Interlocking/Executes/Derives.antt =====
-- When the runtime of a consumer tree passes the check.
use atdd_extensions.Base.{
  ◌≡◌, ◌↔◌, ◌⊎◌, inl, inr, refl, sym, ◌∙◌, Bool, true, false, not, ◌&&◌, List, [], ◌∷◌,
  if◌then◌else◌, Bool-cases, Text, any, keep, In,
}
use atdd_extensions.Base.Members.{any-true}
use atdd_extensions.Base.Build.{
  keep-nil, not-false, concat_map, concat_map-eq-nil, sort_texts, insert_text, unique, unique_from,
  text_le,
}
use atdd_extensions.Base.Report.{Violation}
use atdd_extensions.Convex.Interlocking.Space.{Module}
use atdd_extensions.Convex.Interlocking.Imports.{loads_with_imports}
use atdd_extensions.Convex.Interlocking.Executes.{
  Execution, resolving, transcribed, reads_nothing, restates, has_any, report_execution,
  check_execution, transcribes,
}

-- No module that resolves restates a declared value, and some of them reads a declaration.
pub record Derives (e : Execution) : Type 0 where
  pub unrestated :
      (x : Module) → In x (resolving e) → (v : Text) → In v e.declared → restates x v ≡ false
  pub reads : (x : Module) × In x (resolving e) × (loads_with_imports e.modules x ≡ true)

has_any-insert_text : (t : Text) (ts : List Text) → has_any (insert_text t ts) ≡ true
unfolding insert_text
has_any-insert_text t [] = refl
has_any-insert_text t (u ∷ us) = elim (Bool-cases (text_le t u)) [ inl e ↦ rw e | inr e ↦ rw e ]

has_any-sort_texts : (ts : List Text) → has_any (sort_texts ts) ≡ has_any ts
unfolding sort_texts
has_any-sort_texts [] = refl
has_any-sort_texts (t ∷ ts) = has_any-insert_text t (sort_texts ts)

has_any-unique : (ts : List Text) → has_any (unique ts) ≡ has_any ts
unfolding unique_from
has_any-unique [] = refl
has_any-unique (t ∷ ts) = refl

has_any-false : {A : Type 0} (xs : List A) → (has_any xs ≡ false) ↔ (xs ≡ [])
has_any-false [] = (λ h. refl, λ h. refl)
has_any-false (x ∷ xs) = (λ h. cc, λ h. cc)

module _ (e : Execution) where
  transcribed-nil :
      (has_any (transcribed e) ≡ false)
      ↔ ((x : Module) → In x (resolving e) → (v : Text) → In v e.declared → restates x v ≡ false)
  unfolding transcribed
  transcribed-nil =
      let found = concat_map (λ x. keep (restates x) e.declared) (resolving e) in
      let same = has_any-sort_texts (unique found) ∙ has_any-unique found in
      let empty_ = has_any-false found in
      let outer = concat_map-eq-nil (λ x. keep (restates x) e.declared) (resolving e) in
      (
        λ h x m. (keep-nil (restates x) e.declared).0 (outer.0 (empty_.0 (sym same ∙ h)) x m),
        λ h. same ∙ empty_.1 (outer.1 (λ x m. (keep-nil (restates x) e.declared).1 (h x m))),
      )

  reads_nothing-false :
      (reads_nothing e ≡ false)
      ↔ ((x : Module) × In x (resolving e) × (loads_with_imports e.modules x ≡ true))
  unfolding reads_nothing
  reads_nothing-false =
      let some_ = any-true (loads_with_imports e.modules) (resolving e) in
      let tests = not-false (any (loads_with_imports e.modules) (resolving e)) in
      (λ h. some_.0 (tests.0 h), λ k. tests.1 (some_.1 k))

not_both :
    (a b : Bool) (v : Violation)
    → ((if not a && not b then [] else v ∷ []) ≡ []) ↔ ((a ≡ false) × (b ≡ false))
not_both true b v = (λ h. cc, λ h. cc (h.0))
not_both false true v = (λ h. cc, λ h. cc (h.1))
not_both false false v = (λ h. (refl, refl), λ h. refl)

report_execution-nil :
    (croot : Text) (e : Execution) (ms : List Module)
    → (report_execution croot e ms ≡ []) ↔ ((ms ≡ []) ⊎ Derives e)
report_execution-nil croot e [] = (λ h. inl refl, λ h. refl)
report_execution-nil croot e (first ∷ more) =
    let tests = not_both (has_any (transcribed e)) (reads_nothing e) (transcribes croot e first) in
    (
      λ h.
          let k = tests.0 h in
          inr (record {
            unrestated = (transcribed-nil e).0 k.0;
            reads = (reads_nothing-false e).0 k.1;
          }),
      λ h. elim h [
        | inl q ↦ cc
        | inr d ↦ tests.1 ((transcribed-nil e).1 d.unrestated, (reads_nothing-false e).1 d.reads)
      ],
    )

-- The check passes exactly if nothing is declared, no module resolves, or the runtime derives its
-- routes from a declaration: no module that resolves restates a declared value as a literal, and
-- some of them reads a declaration. So a runtime fails that reads nothing or that restates a value,
-- not only one that does both.
pub check_execution-nil :
    (croot : Text) (e : Execution)
    → (check_execution croot e ≡ []) ↔ ((e.declared ≡ []) ⊎ (resolving e ≡ []) ⊎ Derives e)
unfolding check_execution
check_execution-nil croot e =
    let report = report_execution-nil croot e (resolving e) in
    elim (Bool-cases (has_any e.declared)) [
      | inl some_ ↦ rw some_ (
        λ h. inr (report.0 h),
        λ h. elim h [
          | inl q ↦ let none_ = (has_any-false e.declared).1 q in cc
          | inr k ↦ report.1 k
        ],
      )
      | inr none_ ↦ rw none_ (λ h. inl ((has_any-false e.declared).0 none_), λ h. refl)
    ]
