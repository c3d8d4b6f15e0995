-- ===== src/Bun/DeadCode/Run.antt =====
-- A whole run of checks/ts_dead_code.mjs over its scan roots.
use atdd_extensions.Base.{
  ◌≡◌, ◌≢◌, ◌↔◌, ◌⊎◌, inl, inr, refl, subst, Bool, true, List, [], ◌∷◌, ◌++◌, Option, none, some,
  Text, codes, In, In-append, keep,
}
use atdd_extensions.Base.Report.{Violation}
use atdd_extensions.Convex.Complexity.Scan.{Env, Outcome, no_report_path, write_file}
use atdd_extensions.Bun.Walk.{walk_files, read_roots, read_excludes}
use atdd_extensions.Bun.DeadCode.{
  Host, build_graph, is_root_file, dead_violation, search_dead, dead_code,
}
use atdd_extensions.Bun.DeadCode.Report.{IsDead, dead_code_lem}

-- `TS_EXT`
abbrev pub bun_ts_ext : List Text
bun_ts_ext = codes ".ts" ∷ codes ".tsx" ∷ []

-- `[...walk(root, excludes, M.TS_EXT, true)]`
abbrev pub scanned_files : Env → Text → List Text
scanned_files env root =
    walk_files root (read_excludes env.scan_excludes) bun_ts_ext true (env.stat root)

abbrev pub then_report : Option (List Violation) → Option (List Violation) → Option (List Violation)
then_report none later = none
then_report (some vs) none = none
then_report (some vs) (some ws) = some (vs ++ ws)

-- `for (const root of readRoots())`
unfoldable pub dead_code_roots :
    Host → (Text → Option Text) → Env → List Text → Option (List Violation)
unfolding dead_code walk_files
dead_code_roots host read_text env [] = some []
dead_code_roots host read_text env (root ∷ roots) =
    then_report (dead_code host read_text root (scanned_files env root))
      (dead_code_roots host read_text env roots)

-- `emit(violations)`
abbrev pub emit : (Text → Bool) → Option Text → List Violation → Outcome
emit writable none violations = no_report_path
emit writable (some report_path) violations = write_file writable report_path violations

abbrev pub emit_found : (Text → Bool) → Option Text → Option (List Violation) → Option Outcome
emit_found writable report_path none = none
emit_found writable report_path (some violations) = some (emit writable report_path violations)

unfoldable pub run_dead_code : Host → (Text → Option Text) → Env → Option Outcome
unfolding dead_code_roots read_roots
run_dead_code host read_text env =
    emit_found env.writable env.report_path
      (dead_code_roots host read_text env (read_roots env.scan_roots))

-- Why a run reports a violation: a scan root that has some root file, and a dead file under it.
pub record DeadCause (host : Host) (read_text : Text → Option Text) (env : Env) (root : Text)
    (v : Violation) : Type 0 where
  pub file : Text
  pub scanned : In file (scanned_files env root)
  pub anchored : keep is_root_file (scanned_files env root) ≢ []
  pub dead :
      IsDead
        (build_graph host read_text root (scanned_files env root) (scanned_files env root))
        (keep is_root_file (scanned_files env root))
        file
  pub written : v ≡ dead_violation read_text file

list_cases : {A : Type 0} (xs : List A) → (xs ≡ []) ⊎ (xs ≢ [])
list_cases [] = inl refl
list_cases (x ∷ xs) = inr (λ e. cc)

dead_code-nothing :
    (host : Host) (read_text : Text → Option Text) (root : Text) (files : List Text)
    → keep is_root_file files ≡ []
    → dead_code host read_text root files ≡ some []
unfolding dead_code search_dead
dead_code-nothing host read_text root files e = rw e

module _ (host : Host) (read_text : Text → Option Text) (env : Env) where
  dead_code-DeadCause :
      (root : Text)
      → (vs : List Violation) × (dead_code host read_text root (scanned_files env root) ≡ some vs)
        × ((v : Violation) → In v vs ↔ DeadCause host read_text env root v)
  dead_code-DeadCause root =
      let files = scanned_files env root in
      elim (list_cases (keep is_root_file files)) [
        | inl e ↦ (
          [],
          dead_code-nothing host read_text root files e,
          λ v. (λ m. absurd m, λ k. absurd (k.anchored e)),
        )
        | inr ne ↦
            let (vs, found, all) = dead_code_lem host read_text root files ne in
            (
              vs,
              found,
              λ v. (
                λ m.
                    let (f, n, d, w) = (all v).0 m in
                    record { file = f; scanned = n; anchored = ne; dead = d; written = w },
                λ k. (all v).1 (k.file, k.scanned, k.dead, k.written),
              ),
            )
      ]

  dead_code_roots-DeadCause :
      (roots : List Text)
      → (vs : List Violation) × (dead_code_roots host read_text env roots ≡ some vs)
        × ((v : Violation)
            → In v vs ↔ ((root : Text) × In root roots × DeadCause host read_text env root v))
  unfolding dead_code_roots
  dead_code_roots-DeadCause [] = ([], refl, λ v. (λ m. absurd m, λ (r, m, c). absurd m))
  dead_code_roots-DeadCause (root ∷ roots) =
      let (vs, found, here) = dead_code-DeadCause root in
      let (ws, later, others) = dead_code_roots-DeadCause roots in
      (
        vs ++ ws,
        rw (found, later),
        λ v. (
          λ m. elim ((In-append v vs ws).0 m) [
            | inl l ↦ (root, inl refl, (here v).0 l)
            | inr r ↦ let (other, n, c) = (others v).0 r in (other, inr n, c)
          ],
          λ (other, n, c). (In-append v vs ws).1 (elim n [
            | inl e ↦ inl ((here v).1 (subst (λ r. DeadCause host read_text env r v) e c))
            | inr k ↦ inr ((others v).1 (other, k, c))
          ]),
        ),
      )

-- A run with a report path comes to write its report, and then ends with it, or by an exception if
-- that path cannot be written; a violation is in the report exactly if it has a cause under one of
-- the scan roots.
pub run_dead_code-reports :
    (host : Host) (read_text : Text → Option Text) (env : Env) (path : Text)
    → env.report_path ≡ some path
    → (vs : List Violation) × (run_dead_code host read_text env
        ≡ some (write_file env.writable path vs))
      × ((v : Violation)
          → In v vs ↔ (
              (root : Text) × In root (read_roots env.scan_roots)
              × DeadCause host read_text env root v))
unfolding run_dead_code
run_dead_code-reports host read_text env path e =
    let (vs, found, all) =
      dead_code_roots-DeadCause host read_text env (read_roots env.scan_roots) in
    (vs, rw (found, e), all)
