-- ===== src/Convex/Interlocking/Run/Reports.antt =====
-- What a run of the binding detector says.
use atdd_extensions.Base.{
  ◌≡◌, ◌↔◌, ◌⊎◌, inl, inr, refl, sym, ap, subst, ◌∙◌, Bool, true, false, List, [], Option, none,
  some, Bool-cases, Option-cases, Text, In,
}
use atdd_extensions.Base.Build.{
  then_all-some, collect-nil, collect-each, concat_map-eq-nil, append-eq-nil, some-inj,
}
use atdd_extensions.Base.Report.{Violation}
use atdd_extensions.Convex.Complexity.Scan.{reported, parse_json_env}
use atdd_extensions.Convex.Complexity.Scan.Write.{write_file-reported}
use atdd_extensions.Convex.Interlocking.Tree.{Files, find_consumer_roots}
use atdd_extensions.Convex.Interlocking.Space.{Space, read_space, is_enabled}
use atdd_extensions.Convex.Interlocking.Scan.{scan_space, scan_consumer_root}
use atdd_extensions.Convex.Interlocking.Scan.Closed.{Closed, scan_space-Closed}
use atdd_extensions.Convex.Interlocking.Modules.{marked_roots}
use atdd_extensions.Convex.Interlocking.Executes.{
  resolving, read_execution, check_execution, scan_execution,
}
use atdd_extensions.Convex.Interlocking.Executes.Derives.{Derives, check_execution-nil}
use atdd_extensions.Convex.Interlocking.Run.{
  Mount, scan_trees, scan_found, scan_root, scan_all, end_with, run_binding,
}

abbrev pub roots_of : Mount → List Text
roots_of m = parse_json_env m.scan_roots []

-- Every consumer tree below a root that uses interlockings is closed, and its runtime executes what
-- it declares.
pub record Bound (fs : Files) (cwd root : Text) : Type 0 where
  pub closed :
      (croots : List Text)
      → find_consumer_roots fs root ≡ some croots
      → (croot : Text) → In croot croots
      → (s : Space) → read_space fs croot ≡ some s
      → is_enabled s ≡ true
      → Closed fs cwd s
  pub derived :
      (croot : Text)
      → In croot (marked_roots fs root)
      → ((read_execution fs croot).declared ≡ [])
        ⊎ (resolving (read_execution fs croot) ≡ [])
        ⊎ Derives (read_execution fs croot)

scan_space-disabled :
    (fs : Files) (cwd : Text) (s : Space) → is_enabled s ≡ false → scan_space fs cwd s ≡ []
unfolding scan_space
scan_space-disabled fs cwd s h = rw h

scan_space-nil :
    (fs : Files) (cwd : Text) (s : Space)
    → (scan_space fs cwd s ≡ []) ↔ (is_enabled s ≡ true → Closed fs cwd s)
scan_space-nil fs cwd s = elim (Bool-cases (is_enabled s)) [
  | inl on ↦ let k = scan_space-Closed fs cwd s on in (λ h e. k.0 h, λ h. k.1 (h on))
  | inr off ↦ (λ h e. cc, λ h. scan_space-disabled fs cwd s off)
]

scan_consumer_root-nil :
    (fs : Files) (cwd croot : Text) {vs : List Violation}
    → scan_consumer_root fs cwd croot ≡ some vs
    → (scan_consumer_root fs cwd croot ≡ some [])
      ↔ ((s : Space) → read_space fs croot ≡ some s → is_enabled s ≡ true → Closed fs cwd s)
unfolding scan_consumer_root
scan_consumer_root-nil fs cwd croot h = elim (Option-cases (read_space fs croot)) [
  | inl e ↦ cc (rw (e, scan_consumer_root) at h)
  | inr (s, e) ↦
      let tests = scan_space-nil fs cwd s in
      rw (e, scan_consumer_root)
        (
          λ k t q.
              let same : s ≡ t = some-inj q in
              subst (λ x. is_enabled x ≡ true → Closed fs cwd x) same (tests.0 (some-inj k)),
          λ k. ap some (tests.1 (k s refl)),
        )
]

scan_execution-nil :
    (fs : Files) (root : Text)
    → (scan_execution fs root ≡ []) ↔ (
        (croot : Text)
        → In croot (marked_roots fs root)
        → ((read_execution fs croot).declared ≡ [])
          ⊎ (resolving (read_execution fs croot) ≡ [])
          ⊎ Derives (read_execution fs croot))
unfolding scan_execution
scan_execution-nil fs root =
    let all =
      concat_map-eq-nil (λ croot. check_execution croot (read_execution fs croot))
        (marked_roots fs root) in
    (
      λ h croot m. (check_execution-nil croot (read_execution fs croot)).0 (all.0 h croot m),
      λ h. all.1 (λ croot m. (check_execution-nil croot (read_execution fs croot)).1 (h croot m)),
    )

scan_trees-nil :
    (fs : Files) (cwd : Text) (croots : List Text) {vs : List Violation}
    → scan_trees fs cwd croots ≡ some vs
    → (vs ≡ []) ↔ (
        (croot : Text)
        → In croot croots
        → (s : Space) → read_space fs croot ≡ some s
        → is_enabled s ≡ true
        → Closed fs cwd s)
unfolding scan_trees
scan_trees-nil fs cwd croots h =
    let all = collect-nil (scan_consumer_root fs cwd) croots h in
    let each = collect-each (scan_consumer_root fs cwd) croots h in
    (
      λ e croot m. (scan_consumer_root-nil fs cwd croot (each croot m).1).0 (all.0 e croot m),
      λ k. all.1 (λ croot m. (scan_consumer_root-nil fs cwd croot (each croot m).1).1 (k croot m)),
    )

scan_root-nil :
    (fs : Files) (cwd root : Text) {vs : List Violation}
    → scan_root fs cwd root ≡ some vs
    → (scan_root fs cwd root ≡ some []) ↔ Bound fs cwd root
unfolding scan_root
scan_root-nil fs cwd root {vs} h =
    let (here, later, e, e', all) =
      then_all-some (scan_found fs cwd (find_consumer_roots fs root)) _ h in
    let parts = append-eq-nil here later in
    let runs : scan_execution fs root ≡ later = some-inj e' in
    let executed = scan_execution-nil fs root in
    elim (Option-cases (find_consumer_roots fs root)) [
      | inl none_ ↦ cc (rw none_ at e)
      | inr (croots, found) ↦
          let trees = scan_trees-nil fs cwd croots (rw found at e) in
          (
            λ k.
                let none_ = parts.0 (sym all ∙ some-inj (sym h ∙ k)) in
                record {
                  closed = λ others q croot m.
                      let same : croots ≡ others = some-inj (sym found ∙ q) in
                      trees.0 none_.0 croot (subst (In croot) (sym same) m);
                  derived = executed.0 (runs ∙ none_.1);
                },
            λ b.
                let first = trees.1 (b.closed croots found) in
                let second = sym runs ∙ executed.1 b.derived in
                h ∙ ap some (all ∙ parts.1 (first, second)),
          )
    ]

end_with-reported :
    (writable : Text → Bool) (path : Text) (o : Option (List Violation)) {vs : List Violation}
    → end_with writable path o ≡ reported vs
    → o ≡ some vs
end_with-reported writable path none h = cc
end_with-reported writable path (some ws) h = ap some (write_file-reported writable path ws h)

run_binding-some :
    (m : Mount) {vs : List Violation}
    → run_binding m ≡ reported vs
    → scan_all m.files m.cwd (roots_of m) ≡ some vs
unfolding run_binding
run_binding-some m h = elim (Option-cases m.report_path) [
  | inl e ↦ cc (rw (e, run_binding) at h)
  | inr (path, e) ↦
      end_with-reported m.writable path (scan_all m.files m.cwd (roots_of m))
        (rw (e, run_binding) at h)
]

-- A run that ends with a report reports nothing exactly if, under every scan root, each consumer
-- tree that uses interlockings is closed, and of each marked root with declared values the modules
-- that resolve, if there are any, restate none of these values and one of them reads a declaration.
pub run_binding-Bound :
    (m : Mount) {vs : List Violation}
    → run_binding m ≡ reported vs
    → (vs ≡ []) ↔ ((root : Text) → In root (roots_of m) → Bound m.files m.cwd root)
unfolding scan_all
run_binding-Bound m h =
    let found = run_binding-some m h in
    let all = collect-nil (scan_root m.files m.cwd) (roots_of m) found in
    let each = collect-each (scan_root m.files m.cwd) (roots_of m) found in
    (
      λ e root n. (scan_root-nil m.files m.cwd root (each root n).1).0 (all.0 e root n),
      λ k. all.1 (λ root n. (scan_root-nil m.files m.cwd root (each root n).1).1 (k root n)),
    )
