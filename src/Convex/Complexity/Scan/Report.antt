-- ===== src/Convex/Complexity/Scan/Report.antt =====
-- What a run of a check reports.
use mathlib.Core.Path.{subst₂}
use atdd_extensions.Base.{
  ◌≡◌, ◌↔◌, inl, inr, refl, sym, subst, Bool, true, List, [], ◌∷◌, ◌++◌, none, some, arith,
  Option-cases, Text, In, In-append,
}
use atdd_extensions.Convex.Complexity.Functions.{Fn, extract_functions}
use atdd_extensions.Base.Report.{Violation}
use atdd_extensions.Convex.Complexity.Scan.{
  is_source, Yielded, Walk, then_walk, walk, Check, violation, judge, judge_files, Env, reported,
  walk_roots, finish, excludes_of, main, parse_json_env,
}
use atdd_extensions.Convex.Complexity.Scan.Write.{write_file-reported}
use atdd_extensions.Convex.Complexity.Scan.Walk.{Leads, walk-yields}

-- Why a check reports a violation in a file's text: a function of it that the check's `evaluate`
-- holds against it.
record InText (check : Check) (path text : Text) (v : Violation) : Type 0 where
  fn : Fn
  hit : Text
  extracted : In fn (extract_functions text)
  judged : check.evaluate fn ≡ some hit
  written : v ≡ violation check path fn hit

-- The same for a run: the root and the file too.
pub record Cause (check : Check) (env : Env) (v : Violation) : Type 0 where
  pub root : Text
  pub found : Yielded
  pub text : Text
  pub fn : Fn
  pub hit : Text
  pub scanned : In root (parse_json_env env.scan_roots [])
  pub leads : Leads (excludes_of env) root (env.stat root) found
  pub source : is_source found.path ≡ true
  pub readable : found.content ≡ some text
  pub extracted : In fn (extract_functions text)
  pub judged : check.evaluate fn ≡ some hit
  pub written : v ≡ violation check found.path fn hit

module _ (check : Check) where
  judge_sound :
      (path : Text) (fns : List Fn) (v : Violation)
      → In v (judge check path fns)
      → (fn : Fn) × (hit : Text) × In fn fns
        × (check.evaluate fn ≡ some hit)
        × (v ≡ violation check path fn hit)
  unfolding judge
  judge_sound path [] v h = absurd h
  judge_sound path (fn ∷ fns) v h = elim (Option-cases (check.evaluate fn)) [
    | inl e ↦
        let (g, hit, m, j, w) = judge_sound path fns v (rw (e, judge) at h) in (g, hit, inr m, j, w)
    | inr (hit, e) ↦ elim (rw (e, judge) at h) [
      | inl w ↦ (fn, hit, inl refl, e, w)
      | inr later ↦ let (g, hit', m, j, w) = judge_sound path fns v later in (g, hit', inr m, j, w)
    ]
  ]

  judge_complete :
      (path : Text) (fns : List Fn) (fn : Fn) (hit : Text)
      → In fn fns
      → check.evaluate fn ≡ some hit
      → In (violation check path fn hit) (judge check path fns)
  unfolding judge
  judge_complete path [] fn hit m e = absurd m
  judge_complete path (g ∷ fns) fn hit (inl same) e =
      subst (λ x. In (violation check path fn hit) (judge check path (x ∷ fns))) same
        (rw (e, judge) (inl refl))
  judge_complete path (g ∷ fns) fn hit (inr m) e = elim (Option-cases (check.evaluate g)) [
    | inl none_ ↦ rw (none_, judge) (judge_complete path fns fn hit m e)
    | inr (other, o) ↦ rw (o, judge) (inr (judge_complete path fns fn hit m e))
  ]

  judge_files_sound :
      (files : List Yielded) (v : Violation)
      → In v (judge_files check files)
      → (f : Yielded) × (text : Text) × In f files
        × (f.content ≡ some text)
        × InText check f.path text v
  unfolding judge_files
  judge_files_sound [] v h = absurd h
  judge_files_sound (f ∷ fs) v h = elim (Option-cases f.content) [
    | inl e ↦
        let (g, text, m, c, t) = judge_files_sound fs v (rw (e, judge_files) at h) in
        (g, text, inr m, c, t)
    | inr (text, e) ↦
        elim ((In-append v (judge check f.path (extract_functions text)) _).0
          (rw (e, judge_files) at h)) [
            | inl here ↦
                let (fn, hit, m, j, w) = judge_sound f.path (extract_functions text) v here in
                (
                  f,
                  text,
                  inl refl,
                  e,
                  record { fn = fn; hit = hit; extracted = m; judged = j; written = w },
                )
            | inr later ↦
                let (g, text', m, c, t) = judge_files_sound fs v later in (g, text', inr m, c, t)
          ]
  ]

  judge_files_complete :
      (files : List Yielded) (f : Yielded) (text : Text) (fn : Fn) (hit : Text)
      → In f files
      → f.content ≡ some text
      → In fn (extract_functions text)
      → check.evaluate fn ≡ some hit
      → In (violation check f.path fn hit) (judge_files check files)
  unfolding judge_files
  judge_files_complete [] f text fn hit m c x e = absurd m
  judge_files_complete (g ∷ fs) f text fn hit (inl same) c x e =
      subst (λ x. In (violation check f.path fn hit) (judge_files check (x ∷ fs))) same
        (rw (c, judge_files)
          ((In-append _ (judge check f.path (extract_functions text)) _).1
            (inl (judge_complete f.path (extract_functions text) fn hit x e))))
  judge_files_complete (g ∷ fs) f text fn hit (inr m) c x e = elim (Option-cases g.content) [
    | inl none_ ↦ rw (none_, judge_files) (judge_files_complete fs f text fn hit m c x e)
    | inr (other, o) ↦
        rw (o, judge_files)
          ((In-append _ (judge check g.path (extract_functions other)) _).1
            (inr (judge_files_complete fs f text fn hit m c x e)))
  ]

-- Where each root's walk ends, so does the walk of all, with their files in turn.
then_walk-some :
    (v w : Walk) {fs : List Yielded}
    → then_walk v w ≡ some fs
    → (gs hs : List Yielded) × (v ≡ some gs) × (w ≡ some hs) × (fs ≡ gs ++ hs)
then_walk-some none w h = cc
then_walk-some (some gs) none h = cc
then_walk-some (some gs) (some hs) h = (gs, hs, refl, refl, ground arith)

walk_roots-yields :
    (env : Env) (excludes : List Text) (roots : List Text) {fs : List Yielded}
    → walk_roots env excludes roots ≡ some fs
    → (f : Yielded)
    → In f fs ↔ (
        (root : Text) × In root roots
        × Leads excludes root (env.stat root) f
        × (is_source f.path ≡ true))
unfolding walk_roots
walk_roots-yields env excludes [] {fs} h f =
    let e : [] ≡ fs = cc in (λ m. absurd (subst (In f) (sym e) m), λ (root, m, l, s). absurd m)
walk_roots-yields env excludes (root ∷ roots) h f =
    let (gs, hs, first, rest, split) =
      then_walk-some (walk root excludes (env.stat root)) (walk_roots env excludes roots) h in
    let here = walk-yields root excludes (env.stat root) first f in
    let others = walk_roots-yields env excludes roots rest f in
    (
      λ m. elim ((In-append f gs hs).0 (subst (In f) split m)) [
        | inl l ↦ (root, inl refl, (here.0 l).0, (here.0 l).1)
        | inr r ↦ let (other, n, l, s) = others.0 r in (other, inr n, l, s)
      ],
      λ (other, m, l, s). subst (In f) (sym split) (
          (In-append f gs hs).1 (elim m [
            | inl e ↦ inl (here.1 (subst (λ x. Leads excludes x (env.stat x) f) e l, s))
            | inr n ↦ inr (others.1 (other, n, l, s))
          ])),
    )

finish-reported :
    (check : Check) (writable : Text → Bool) (path : Text) (w : Walk) {vs : List Violation}
    → finish check writable path w ≡ reported vs
    → (files : List Yielded) × (w ≡ some files) × (vs ≡ judge_files check files)
finish-reported check writable path none h = cc
finish-reported check writable path (some files) h =
    (files, refl, sym (write_file-reported writable path (judge_files check files) h))

main-reported :
    (check : Check) (env : Env) {vs : List Violation}
    → main check env ≡ reported vs
    → (files : List Yielded) × (walk_roots env (excludes_of env) (parse_json_env env.scan_roots [])
        ≡ some files)
      × (vs ≡ judge_files check files)
unfolding main
main-reported check env h = elim (Option-cases env.report_path) [
  | inl e ↦ cc (rw (e, main) at h)
  | inr (path, e) ↦
      finish-reported check env.writable path
        (walk_roots env (excludes_of env) (parse_json_env env.scan_roots [])) (rw (e, main) at h)
]

-- A run that ends with a report reports exactly what has a cause: a root, a source file under it
-- that no exclusion keeps out and that can be read, and a function of it that the check judges.
pub main-reports :
    (check : Check) (env : Env) {vs : List Violation}
    → main check env ≡ reported vs
    → (v : Violation) → In v vs ↔ Cause check env v
main-reports check env h v =
    let (files, walked, all) = main-reported check env h in
    let yields =
      walk_roots-yields env (excludes_of env) (parse_json_env env.scan_roots []) walked in
    (
      λ m.
          let (f, text, n, c, t) = judge_files_sound check files v (subst (In v) all m) in
          let (root, r, l, s) = (yields f).0 n in
          record {
            root = root;
            found = f;
            text = text;
            fn = t.fn;
            hit = t.hit;
            scanned = r;
            leads = l;
            source = s;
            readable = c;
            extracted = t.extracted;
            judged = t.judged;
            written = t.written;
          },
      λ k. subst₂ In (sym k.written) (sym all) (
          judge_files_complete check files k.found k.text k.fn k.hit
            ((yields k.found).1 (k.root, k.scanned, k.leads, k.source)) k.readable k.extracted
            k.judged),
    )
