-- ===== src/Convex/Interlocking/Run/Throws.antt =====
-- When a run of the binding detector ends by an exception.
use atdd_extensions.Base.{
  ◌≡◌, ◌≢◌, ◌↔◌, ◌⊎◌, inl, inr, refl, sym, ap, subst, ◌∙◌, Bool, false, List, Option, none, some,
  Option-cases, Text, codes, In,
}
use atdd_extensions.Base.Join.{join}
use atdd_extensions.Base.Build.{then_all, then_all-none, collect, collect-none, some-inj}
use atdd_extensions.Base.Report.{Violation}
use atdd_extensions.Convex.Complexity.Scan.{no_report_path, crashed}
use atdd_extensions.Convex.Complexity.Scan.Write.{write_file-crashed, write_file-ran}
use atdd_extensions.Convex.Interlocking.Tree.{
  Files, is_ts, is_yaml, trains_dir, walk_paths, yield_path, is_file, sorted, sorted_unique,
  interlocking_files, runtime_files, e2e_files, find_consumer_roots,
}
use atdd_extensions.Convex.Interlocking.Tree.Blocked.{
  Blocked, BlockedRoot, walk_paths-none, find_consumer_roots-none,
}
use atdd_extensions.Convex.Interlocking.Space.{read_space}
use atdd_extensions.Convex.Interlocking.Scan.{scan_consumer_root}
use atdd_extensions.Convex.Interlocking.Executes.{scan_execution}
use atdd_extensions.Convex.Interlocking.Run.{
  Mount, scan_trees, scan_found, scan_root, scan_all, end_with, run_binding,
}
use atdd_extensions.Convex.Interlocking.Run.Reports.{roots_of}

abbrev pub plans_dir : Text → Text
plans_dir croot = join (trains_dir croot) (codes "_interlockings")

abbrev pub runtime_dir : Text → Text
runtime_dir croot = join (join croot (codes "convex")) (codes "trains")

abbrev pub tests_dir : Text → Text
tests_dir croot = join croot (codes "e2e")

-- One of the three directories of a consumer tree that are walked cannot be gone through.
abbrev pub BlockedTree : Files → Text → Type 0
BlockedTree fs croot =
    BlockedRoot (plans_dir croot) (fs (plans_dir croot))
    ⊎ BlockedRoot (runtime_dir croot) (fs (runtime_dir croot))
    ⊎ BlockedRoot (tests_dir croot) (fs (tests_dir croot))

-- The search for consumer trees below a scan root is blocked, or it ends and one that it finds is.
abbrev pub BlockedScan : Files → Text → Type 0
BlockedScan fs root =
    Blocked root (fs root)
    ⊎ ((croots : List Text) × (find_consumer_roots fs root ≡ some croots)
        × ((croot : Text) × In croot croots × BlockedTree fs croot))

sorted-none : (o : Option (List Text)) → (sorted o ≡ none) ↔ (o ≡ none)
sorted-none none = (λ h. refl, λ h. refl)
sorted-none (some fs) = (λ h. cc, λ h. cc)

sorted_unique-none : (o : Option (List Text)) → (sorted_unique o ≡ none) ↔ (o ≡ none)
sorted_unique-none none = (λ h. refl, λ h. refl)
sorted_unique-none (some fs) = (λ h. cc, λ h. cc)

module _ (fs : Files) (croot : Text) where
  interlocking_files-none :
      (interlocking_files fs croot ≡ none) ↔ BlockedRoot (plans_dir croot) (fs (plans_dir croot))
  unfolding interlocking_files
  interlocking_files-none =
      let idx = join (trains_dir croot) (codes "_interlockings.yaml") in
      let walked = walk_paths fs (plans_dir croot) is_yaml in
      let index = yield_path (is_file (fs idx)) idx in
      let either = then_all-none walked index in
      let thrown = walk_paths-none fs (plans_dir croot) is_yaml in
      let all = sorted_unique-none (then_all walked index) in
      (
        λ h. elim (either.0 (all.0 h)) [ inl e ↦ thrown.0 e | inr e ↦ cc ],
        λ b. all.1 (either.1 (inl (thrown.1 b))),
      )

  runtime_files-none :
      (runtime_files fs croot ≡ none) ↔ BlockedRoot (runtime_dir croot) (fs (runtime_dir croot))
  unfolding runtime_files
  runtime_files-none =
      let thrown = walk_paths-none fs (runtime_dir croot) is_ts in
      let all = sorted-none (walk_paths fs (runtime_dir croot) is_ts) in
      (λ h. thrown.0 (all.0 h), λ b. all.1 (thrown.1 b))

  e2e_files-none :
      (e2e_files fs croot ≡ none) ↔ BlockedRoot (tests_dir croot) (fs (tests_dir croot))
  unfolding e2e_files
  e2e_files-none =
      let thrown = walk_paths-none fs (tests_dir croot) is_ts in
      let all = sorted-none (walk_paths fs (tests_dir croot) is_ts) in
      (λ h. thrown.0 (all.0 h), λ b. all.1 (thrown.1 b))

  read_space-none : (read_space fs croot ≡ none) ↔ BlockedTree fs croot
  unfolding read_space
  read_space-none =
      let plans = interlocking_files-none in
      let runtime = runtime_files-none in
      let tests = e2e_files-none in
      elim (Option-cases (interlocking_files fs croot)) [
        | inl e ↦ rw (e, read_space) (λ h. inl (plans.0 e), λ b. refl)
        | inr (ils, e) ↦ elim (Option-cases (runtime_files fs croot)) [
          | inl r ↦ rw (e, r, read_space) (λ h. inr (inl (runtime.0 r)), λ b. refl)
          | inr (rts, r) ↦ elim (Option-cases (e2e_files fs croot)) [
            | inl t ↦ rw (e, r, t, read_space) (λ h. inr (inr (tests.0 t)), λ b. refl)
            | inr (es, t) ↦
                rw (e, r, t, read_space)
                  (
                    λ h. cc,
                    λ b. elim b [
                      | inl p ↦ let no_ = plans.1 p in cc (no_, e)
                      | inr k ↦ elim k [
                        | inl p ↦ let no_ = runtime.1 p in cc (no_, r)
                        | inr p ↦ let no_ = tests.1 p in cc (no_, t)
                      ]
                    ],
                  )
          ]
        ]
      ]

scan_consumer_root-none :
    (fs : Files) (cwd croot : Text)
    → (scan_consumer_root fs cwd croot ≡ none) ↔ BlockedTree fs croot
unfolding scan_consumer_root
scan_consumer_root-none fs cwd croot =
    let thrown = read_space-none fs croot in
    elim (Option-cases (read_space fs croot)) [
      | inl e ↦ rw (e, scan_consumer_root) (λ h. thrown.0 e, λ b. refl)
      | inr (s, e) ↦ rw (e, scan_consumer_root) (λ h. cc, λ b. let no_ = thrown.1 b in cc (no_, e))
    ]

scan_found-none :
    (fs : Files) (cwd root : Text)
    → (scan_found fs cwd (find_consumer_roots fs root) ≡ none) ↔ BlockedScan fs root
unfolding scan_trees
scan_found-none fs cwd root =
    let thrown = find_consumer_roots-none fs root in
    elim (Option-cases (find_consumer_roots fs root)) [
      | inl e ↦ rw e (λ h. inl (thrown.0 e), λ b. refl)
      | inr (croots, e) ↦
          let some_ = collect-none (scan_consumer_root fs cwd) croots in
          rw e (
            λ h.
                let (croot, m, k) = some_.0 h in
                inr (croots, refl, (croot, m, (scan_consumer_root-none fs cwd croot).0 k)),
            λ b. elim b [
              | inl k ↦ let no_ = thrown.1 k in cc (no_, e)
              | inr (others, q, (croot, m, k)) ↦ some_.1 (
                croot,
                subst (In croot) (sym (some-inj q)) m,
                (scan_consumer_root-none fs cwd croot).1 k,
              )
            ],
          )
    ]

scan_root-none :
    (fs : Files) (cwd root : Text) → (scan_root fs cwd root ≡ none) ↔ BlockedScan fs root
unfolding scan_root
scan_root-none fs cwd root =
    let either =
      then_all-none (scan_found fs cwd (find_consumer_roots fs root))
        (some (scan_execution fs root)) in
    let thrown = scan_found-none fs cwd root in
    (λ h. elim (either.0 h) [ inl e ↦ thrown.0 e | inr e ↦ cc ], λ b. either.1 (inl (thrown.1 b)))

module _ (writable : Text → Bool) (path : Text) where
  end_with-crashed :
      (o : Option (List Violation))
      → (end_with writable path o ≡ crashed) ↔ ((o ≡ none) ⊎ (writable path ≡ false))
  end_with-crashed none = (λ h. inl refl, λ h. refl)
  end_with-crashed (some vs) =
      let shut = write_file-crashed writable path vs in
      (λ h. inr (shut.0 h), λ h. elim h [ inl e ↦ cc | inr e ↦ shut.1 e ])

  end_with-ran : (o : Option (List Violation)) → end_with writable path o ≢ no_report_path
  end_with-ran none h = cc
  end_with-ran (some vs) h = write_file-ran writable path vs h

-- How a run fails: it ends without a report path exactly if none is set, and by an exception
-- exactly if one is set and either that path cannot be written, or a directory cannot be read or
-- gone through: one on the way to the consumer trees below some scan root, or one among the plans,
-- the runtime or the e2e tests of a consumer tree that is found there.
pub run_binding_errors :
    (m : Mount)
    → ((run_binding m ≡ no_report_path) ↔ (m.report_path ≡ none))
      × ((run_binding m ≡ crashed) ↔ (
          (path : Text) × (m.report_path ≡ some path)
          × (((root : Text) × In root (roots_of m) × BlockedScan m.files root)
              ⊎ (m.writable path ≡ false))))
unfolding run_binding scan_all
run_binding_errors m = elim (Option-cases m.report_path) [
  | inl e ↦ rw (e, run_binding) ((λ h. refl, λ h. refl), (λ h. cc, λ (p, q, k). cc))
  | inr (path, e) ↦
      let o = collect (scan_root m.files m.cwd) (roots_of m) in
      let thrown = collect-none (scan_root m.files m.cwd) (roots_of m) in
      let ends = end_with-crashed m.writable path o in
      rw (e, run_binding)
        (
          (λ h. absurd (end_with-ran m.writable path o h), λ h. cc),
          (
            λ h. (
              path,
              refl,
              elim (ends.0 h) [
                | inl t ↦
                    let (root, n, k) = thrown.0 t in
                    inl (root, n, (scan_root-none m.files m.cwd root).0 k)
                | inr w ↦ inr w
              ],
            ),
            λ (p, q, k). ends.1 (elim k [
              | inl (root, n, b) ↦ inl (thrown.1 (root, n, (scan_root-none m.files m.cwd root).1 b))
              | inr w ↦ inr (ap m.writable (some-inj q) ∙ w)
            ]),
          ),
        )
]
