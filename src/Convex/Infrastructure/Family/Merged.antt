-- ===== src/Convex/Infrastructure/Family/Merged.antt =====
-- What the merged report says.
use atdd_extensions.Base.{
  ◌≡◌, ◌↔◌, ◌⊎◌, inl, inr, refl, false, Bool-cases, List, [], none, some, Option-cases, Text, In,
}
use atdd_extensions.Base.Build.{concat_map, concat_map-eq-nil}
use atdd_extensions.Base.Report.{Violation}
use atdd_extensions.Convex.Complexity.Scan.{reported, write_file}
use atdd_extensions.Convex.Interlocking.Tree.{find_consumer_roots}
use atdd_extensions.Convex.Infrastructure.Run.{Rule, Start, check_roots, run_rule}
use atdd_extensions.Convex.Infrastructure.Run.Reports.{Meets, roots_of, run_rule-Meets}
use atdd_extensions.Convex.Infrastructure.Family.{report_at, run_member, report_of, run_family}

-- Every consumer tree below every scan root meets a rule.
abbrev pub AllMeet : Rule → Start → Type 0
AllMeet rule m =
    (root : Text)
    → In root (roots_of m)
    → (croots : List Text) → find_consumer_roots m.files root ≡ some croots
    → (croot : Text) → In croot croots
    → Meets rule m.files croot

-- A script adds nothing to the merged report exactly if it cannot write its own, throws, or finds
-- that every consumer tree meets its rule.
abbrev pub IsSilent : Text → Start → Rule → Type 0
IsSilent td m rule =
    (m.writable (report_at td rule) ≡ false)
    ⊎ (check_roots rule m.files (roots_of m) ≡ none)
    ⊎ AllMeet rule m

run_member-nil :
    (td : Text) (m : Start) (rule : Rule)
    → (report_of (run_member td m rule) ≡ []) ↔ IsSilent td m rule
unfolding run_member run_rule
run_member-nil td m rule = elim (Bool-cases (m.writable (report_at td rule))) [
  | inr shut ↦ elim (Option-cases (check_roots rule m.files (roots_of m))) [
    | inl e ↦ rw e (λ h. inl shut, λ h. refl)
    | inr (vs, e) ↦ rw (e, shut) (λ h. inl refl, λ h. refl)
  ]
  | inl open_ ↦ elim (Option-cases (check_roots rule m.files (roots_of m))) [
    | inl e ↦ rw e (λ h. inr (inl refl), λ h. refl)
    | inr (vs, e) ↦
        let own = record m { report_path = some (report_at td rule) } in
        let ended : run_rule rule own ≡ reported vs = rw (e, open_) in
        let meets = run_rule-Meets rule own ended in
        rw (e, open_)
          (
            λ h. inr (inr (meets.0 h)),
            λ h. elim h [ inl q ↦ cc | inr k ↦ elim k [ inl q ↦ cc | inr all ↦ meets.1 all ] ],
          )
  ]
]

-- A run of the whole detector with a report path, once checks/ is listed and a directory made,
-- comes to write the merged report, and then ends with it, or by an exception if that path cannot
-- be written; the merged report is empty exactly if each script cannot write its own report, or
-- throws, or finds that every consumer tree meets its rule.
pub run_family-AllMeet :
    (td : Text) (checks : List Rule) (m : Start) {path : Text}
    → m.report_path ≡ some path
    → (vs : List Violation) × (run_family (some checks) (some td) m ≡ write_file m.writable path vs)
      × ((vs ≡ []) ↔ ((rule : Rule) → In rule checks → IsSilent td m rule))
unfolding run_family
run_family-AllMeet td checks m h =
    let all = concat_map-eq-nil (λ rule. report_of (run_member td m rule)) checks in
    (
      concat_map (λ rule. report_of (run_member td m rule)) checks,
      rw h,
      (
        λ e rule n. (run_member-nil td m rule).0 (all.0 e rule n),
        λ k. all.1 (λ rule n. (run_member-nil td m rule).1 (k rule n)),
      ),
    )
