-- ===== src/Bun/DeadCode/Report.antt =====
-- Which files the dead code check reports.
use atdd_extensions.Base.{
  ◌≡◌, ◌≢◌, ◌↔◌, inl, inr, refl, sym, ap, subst, ◌∙◌, Bool, true, false, ◌||◌, List, [], ◌∷◌, ◌++◌,
  Option, some, Bool-cases, Option-cases, Text, codes, has_text, In, keep, has_text_iff,
}
use atdd_extensions.Base.Paths.{basename}
use atdd_extensions.Base.Report.{Violation}
use atdd_extensions.Bun.Graph.{Graph, reverse_graph}
use atdd_extensions.Bun.Graph.Reach.{Reach, reachable_from-Reach}
use atdd_extensions.Bun.Graph.Reverse.{LeadsTo, Reach-reverse_graph, In-add_to}
use atdd_extensions.Bun.DeadCode.{
  Host, add_file, add_ext, import_base, resolve_import, build_graph, is_root_file, is_test_file,
  is_spared, structural, dead_violation, report_dead, search_dead, dead_code, with_ext,
}

-- A file that the check holds to be dead: imports lead to it from no root, and from it to none; it
-- is no structural file and no test.
pub record IsDead (g : Graph) (roots : List Text) (f : Text) : Type 0 where
  pub unreached : ¬ Reach g roots f
  pub useless : ¬ LeadsTo g roots f
  pub plain : has_text structural (basename f) ≡ false
  pub no_test : is_test_file f ≡ false

report_dead_lem :
    (read_text : Text → Option Text) (forward backward files : List Text) (v : Violation)
    → In v (report_dead read_text forward backward files) ↔ (
        (f : Text) × In f files
        × (is_spared forward backward f ≡ false)
        × (v ≡ dead_violation read_text f))
unfolding report_dead
report_dead_lem read_text fw bw [] v = (λ h. absurd h, λ k. absurd k.1)
report_dead_lem read_text fw bw (f ∷ files) v =
    let rest = report_dead_lem read_text fw bw files v in
    elim (Bool-cases (is_spared fw bw f)) [
      | inl e ↦ rw e (
        λ h. let (g, m, s, w) = rest.0 h in (g, inr m, s, w),
        λ (g, m, s, w). elim m [
          | inl q ↦ let t = ap (is_spared fw bw) q in cc
          | inr n ↦ rest.1 (g, n, s, w)
        ],
      )
      | inr e ↦ rw e (
        λ h. elim h [
          | inl w ↦ (f, inl refl, e, w)
          | inr n ↦ let (g, m, s, w) = rest.0 n in (g, inr m, s, w)
        ],
        λ (g, m, s, w). elim m [
          | inl q ↦ inl (w ∙ ap (dead_violation read_text) q)
          | inr n ↦ inr (rest.1 (g, n, s, w))
        ],
      )
    ]

not-In : (ws : List Text) (t : Text) → has_text ws t ≡ false → ¬ In t ws
not-In ws t h m = let k = (has_text_iff ws t).1 m in cc

not_In-has_text : (ws : List Text) (t : Text) → ¬ In t ws → has_text ws t ≡ false
not_In-has_text ws t n = elim (Bool-cases (has_text ws t)) [
  | inl e ↦ absurd (n ((has_text_iff ws t).0 e))
  | inr e ↦ e
]

four-false :
    (a b c d : Bool)
    → ((a || b || c || d) ≡ false) ↔ ((a ≡ false) × (b ≡ false) × (c ≡ false) × (d ≡ false))
four-false true b c d = (λ h. cc, λ h. h.0)
four-false false true c d = (λ h. cc, λ h. h.1)
four-false false false true d = (λ h. cc, λ h. h.2)
four-false false false false d = (λ h. (refl, refl, refl, h), λ h. h.3)

is_spared-false :
    (fw bw : List Text) (f : Text)
    → (is_spared fw bw f ≡ false) ↔ (
        (has_text fw f ≡ false)
        × (has_text bw f ≡ false)
        × (has_text structural (basename f) ≡ false)
        × (is_test_file f ≡ false))
unfolding is_spared
is_spared-false fw bw f =
    four-false (has_text fw f) (has_text bw f) (has_text structural (basename f)) (is_test_file f)

spared-IsDead :
    (g : Graph) (roots fw bw : List Text) (f : Text)
    → (In f fw ↔ Reach g roots f)
    → (In f bw ↔ Reach (reverse_graph g) roots f)
    → (is_spared fw bw f ≡ false) ↔ IsDead g roots f
spared-IsDead g roots fw bw f forward backward =
    let tests = is_spared-false fw bw f in
    let turned = Reach-reverse_graph g roots f in
    (
      λ h.
          let k = tests.0 h in
          record {
            unreached = λ r. not-In fw f k.0 (forward.1 r);
            useless = λ r. not-In bw f k.1 (backward.1 (turned.1 r));
            plain = k.2;
            no_test = k.3;
          },
      λ d. tests.1 (
        not_In-has_text fw f (λ m. d.unreached (forward.0 m)),
        not_In-has_text bw f (λ m. d.useless (turned.0 (backward.0 m))),
        d.plain,
        d.no_test,
      ),
    )

search_dead_lem :
    (read_text : Text → Option Text) (files : List Text) (g : Graph) (roots : List Text)
    → roots ≢ []
    → (vs : List Violation) × (search_dead read_text files g roots ≡ some vs)
      × ((v : Violation)
          → In v vs
            ↔ ((f : Text) × In f files × IsDead g roots f × (v ≡ dead_violation read_text f)))
unfolding search_dead
search_dead_lem read_text files g [] ne = absurd (ne refl)
search_dead_lem read_text files g (r ∷ rs) ne =
    let (fw, e, forward) = reachable_from-Reach (r ∷ rs) g in
    let (bw, e', backward) = reachable_from-Reach (r ∷ rs) (reverse_graph g) in
    (
      report_dead read_text fw bw files,
      rw (e, e'),
      λ v.
          let all = report_dead_lem read_text fw bw files v in
          (
            λ h.
                let (f, m, s, w) = all.0 h in
                (f, m, (spared-IsDead g (r ∷ rs) fw bw f (forward f) (backward f)).0 s, w),
            λ (f, m, d, w).
                all.1 (f, m, (spared-IsDead g (r ∷ rs) fw bw f (forward f) (backward f)).1 d, w),
          ),
    )

-- Where some file is a root, the check ends, and reports exactly the dead files among those that it
-- is given.
pub dead_code_lem :
    (host : Host) (read_text : Text → Option Text) (root : Text) (files : List Text)
    → keep is_root_file files ≢ []
    → (vs : List Violation) × (dead_code host read_text root files ≡ some vs)
      × ((v : Violation)
          → In v vs ↔ (
              (f : Text) × In f files
              × IsDead (build_graph host read_text root files files) (keep is_root_file files) f
              × (v ≡ dead_violation read_text f)))
unfolding dead_code
dead_code_lem host read_text root files ne =
    search_dead_lem read_text files (build_graph host read_text root files files)
      (keep is_root_file files) ne

In-add_file :
    (all_files : List Text) (c : Text) (set : List Text)
    → ((x : Text) → In x set → In x all_files)
    → (x : Text) → In x (add_file all_files c set)
    → In x all_files
In-add_file all_files c set inside x h = elim (Bool-cases (has_text all_files c)) [
  | inl e ↦ elim ((In-add_to c x set).0 (rw e at h)) [
    | inl m ↦ inside x m
    | inr q ↦ subst (λ y. In y all_files) (sym q) ((has_text_iff all_files c).0 e)
  ]
  | inr e ↦ inside x (rw e at h)
]

In-add_ext :
    (all_files : List Text) (base ext : Text) (set : List Text)
    → ((x : Text) → In x set → In x all_files)
    → (x : Text) → In x (add_ext all_files base ext set)
    → In x all_files
unfolding add_ext
In-add_ext all_files base ext set inside = In-add_file all_files _ _ (
    In-add_file all_files (base ++ ext) (add_file all_files (with_ext base ext) set)
      (In-add_file all_files (with_ext base ext) set inside))

-- An import is resolved to files of the scan only.
pub resolve_import-In :
    (host : Host) (specifier source_file : Text) (all_files : List Text) (root x : Text)
    → In x (resolve_import host specifier source_file all_files root)
    → In x all_files
unfolding resolve_import
resolve_import-In host specifier source_file all_files root x h =
    elim (Option-cases (import_base host specifier source_file root)) [
      | inl e ↦ absurd (rw (e, resolve_import) at h)
      | inr (base, e) ↦
          In-add_file all_files base _
            (In-add_ext all_files base (codes ".tsx") _
              (In-add_ext all_files base (codes ".ts") [] (λ y m. absurd m)))
            x (rw (e, resolve_import) at h)
    ]
