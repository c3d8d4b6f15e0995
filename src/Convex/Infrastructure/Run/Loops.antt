-- ===== src/Convex/Infrastructure/Run/Loops.antt =====
-- When the loops over the consumer trees of all roots push nothing.
use atdd_extensions.Base.{
  ◌≡◌, ◌↔◌, sym, ap, subst, ◌∙◌, refl, Bool, List, [], Option, none, some, Text, In,
}
use atdd_extensions.Base.Build.{collect, collect-nil, collect-each, some-inj}
use atdd_extensions.Base.Report.{Violation}
use atdd_extensions.Convex.Complexity.Scan.{reported}
use atdd_extensions.Convex.Complexity.Scan.Write.{write_file-reported}
use atdd_extensions.Convex.Infrastructure.Run.{over_trees, write_report}

-- Two ways to say that a check that ends finds nothing.
finds_nil :
    {o : Option (List Violation)} {vs : List Violation} → o ≡ some vs → (o ≡ some []) ↔ (vs ≡ [])
finds_nil h = (λ k. some-inj (sym h ∙ k), λ e. h ∙ ap some e)

-- A report is what the loops found.
pub write_report-some :
    (writable : Text → Bool) (path : Option Text) (o : Option (List Violation))
    {vs : List Violation}
    → write_report writable path o ≡ reported vs
    → o ≡ some vs
write_report-some writable path none h = cc
write_report-some writable none (some ws) h = cc
write_report-some writable (some path) (some ws) h =
    ap some (write_file-reported writable path ws h)

-- A check of a consumer tree that decides a property of it.
module _ (check : Text → Option (List Violation)) (P : Text → Type 0)
    (decides : (croot : Text) (vs : List Violation)
      → check croot ≡ some vs
      → (vs ≡ []) ↔ P croot) where
  pub over_trees-nil :
      (o : Option (List Text)) {vs : List Violation}
      → over_trees check o ≡ some vs
      → (vs ≡ [])
        ↔ ((croots : List Text) → o ≡ some croots → (croot : Text) → In croot croots → P croot)
  over_trees-nil none h = cc
  over_trees-nil (some croots) h =
      let all = collect-nil check croots h in
      let each = collect-each check croots h in
      (
        λ e ds q croot m.
            let n = subst (In croot) (sym (some-inj q)) m in
            let (ws, f) = each croot n in (decides croot _ f).0 ((finds_nil f).0 (all.0 e croot n)),
        λ k. all.1 (λ croot m.
            let (ws, f) = each croot m in
            (finds_nil f).1 ((decides croot _ f).1 (k croots refl croot m))),
      )

  pub over_roots-nil :
      (found : Text → Option (List Text)) (roots : List Text) {vs : List Violation}
      → collect (λ root. over_trees check (found root)) roots ≡ some vs
      → (vs ≡ []) ↔ (
          (root : Text)
          → In root roots
          → (croots : List Text) → found root ≡ some croots
          → (croot : Text) → In croot croots
          → P croot)
  over_roots-nil found roots h =
      let trees = λ (root : Text). over_trees check (found root) in
      let all = collect-nil trees roots h in
      let each = collect-each trees roots h in
      (
        λ e root n.
            let (ws, f) = each root n in
            (over_trees-nil (found root) f).0 ((finds_nil f).0 (all.0 e root n)),
        λ k. all.1 (λ root n.
            let (ws, f) = each root n in
            (finds_nil f).1 ((over_trees-nil (found root) f).1 (k root n))),
      )
