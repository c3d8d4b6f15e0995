-- ===== src/Convex/Coverage/Run/Reports.antt =====
-- What a run of a coverage script says.
use atdd_extensions.Base.{◌≡◌, ◌↔◌, true, List, [], some, Text, In}
use atdd_extensions.Base.Report.{Violation}
use atdd_extensions.Regex.{test}
use atdd_extensions.Convex.Complexity.Scan.{reported}
use atdd_extensions.Convex.Interlocking.Text.{mask_comments}
use atdd_extensions.Convex.Interlocking.Tree.{Files, find_consumer_roots}
use atdd_extensions.Convex.Interlocking.Space.{Module}
use atdd_extensions.Convex.Infrastructure.Rules.Meets.{on_read-nil}
use atdd_extensions.Convex.Infrastructure.Run.{Start}
use atdd_extensions.Convex.Infrastructure.Run.Loops.{write_report-some, over_roots-nil}
use atdd_extensions.Convex.Infrastructure.Run.Reports.{roots_of}
use atdd_extensions.Convex.Coverage.Plan.{GuardedRoute, Planned, Suite, read_suite}
use atdd_extensions.Convex.Coverage.Tokens.{mentions, trace_object_re}
use atdd_extensions.Convex.Coverage.Rules.{is_smoke, drives}
use atdd_extensions.Convex.Coverage.Rules.Covers.{
  Tested, Binds, Genuine, routes_covered-nil, actions_smoked-nil, traces_bound-nil,
  runners_used-nil,
}
use atdd_extensions.Convex.Coverage.Run.{
  Cover, route_coverage, smoke_coverage, trace_binds, production_runner, check_suite, cover_tree,
  cover_roots, run_cover,
}

-- What a script asks of the plans and tests of a consumer tree: a test for each route, a smoke test
-- for each action that is exposed, and, of the tests that drive an interlocking, that those with a
-- trace bind it and that all use the runners themselves.
abbrev pub Covers : Cover → Suite → Type 0
Covers route_coverage s =
    (p : Planned)
    → In p s.plans
    → (route : GuardedRoute) → In route p.space.routes
    → Tested s (mentions route)
Covers smoke_coverage s =
    (p : Planned)
    → In p s.plans
    → p.space.exposed ≡ true
    → (action : Text) → In action p.space.actions
    → Tested s (is_smoke action)
Covers trace_binds s =
    (x : Module)
    → In x s.tests
    → drives s x ≡ true
    → test trace_object_re (mask_comments x.text) ≡ true
    → Binds (mask_comments x.text)
Covers production_runner s =
    (x : Module) → In x s.tests → drives s x ≡ true → Genuine (mask_comments x.text)

check_suite-Covers : (rule : Cover) (s : Suite) → (check_suite rule s ≡ []) ↔ Covers rule s
unfolding check_suite
check_suite-Covers route_coverage s = routes_covered-nil s
check_suite-Covers smoke_coverage s = actions_smoked-nil s
check_suite-Covers trace_binds s = traces_bound-nil s
check_suite-Covers production_runner s = runners_used-nil s

-- The suite of a consumer tree is covered.
abbrev pub IsCovered : Cover → Files → Text → Type 0
IsCovered rule fs croot = (s : Suite) → read_suite fs croot ≡ some s → Covers rule s

cover_tree-IsCovered :
    (rule : Cover) (fs : Files) (croot : Text) {vs : List Violation}
    → cover_tree rule fs croot ≡ some vs
    → (vs ≡ []) ↔ IsCovered rule fs croot
cover_tree-IsCovered rule fs croot h =
    let read = on_read-nil (check_suite rule) (read_suite fs croot) h in
    (
      λ e s q. (check_suite-Covers rule s).0 (read.0 e s q),
      λ k. read.1 (λ s q. (check_suite-Covers rule s).1 (k s q)),
    )

-- A run of one of the four scripts on e2e tests that ends with a report reports nothing exactly if
-- the suite of every consumer tree below every scan root is covered as the script's rule asks.
pub run_cover-IsCovered :
    (rule : Cover) (m : Start) {vs : List Violation}
    → run_cover rule m ≡ reported vs
    → (vs ≡ []) ↔ (
        (root : Text)
        → In root (roots_of m)
        → (croots : List Text) → find_consumer_roots m.files root ≡ some croots
        → (croot : Text) → In croot croots
        → IsCovered rule m.files croot)
unfolding run_cover cover_roots
run_cover-IsCovered rule m h =
    over_roots-nil (cover_tree rule m.files) (IsCovered rule m.files)
      (λ croot vs. cover_tree-IsCovered rule m.files croot {vs = vs}) (find_consumer_roots m.files)
      (roots_of m)
      (write_report-some m.writable m.report_path (cover_roots rule m.files (roots_of m)) h)
