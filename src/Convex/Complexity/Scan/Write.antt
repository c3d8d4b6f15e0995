-- ===== src/Convex/Complexity/Scan/Write.antt =====
-- `writeFileSync` of the report, which the detectors share.
use atdd_extensions.Base.{◌≡◌, ◌≢◌, ◌↔◌, refl, Bool, false, Bool-cases, inl, inr, List, Text}
use atdd_extensions.Base.Report.{Violation}
use atdd_extensions.Convex.Complexity.Scan.{no_report_path, crashed, reported, write_file}

module _ (writable : Text → Bool) (path : Text) where
  pub write_file-reported :
      (vs : List Violation) {ws : List Violation}
      → write_file writable path vs ≡ reported ws
      → vs ≡ ws
  write_file-reported vs h = elim (Bool-cases (writable path)) [
    | inl e ↦ cc (rw e at h)
    | inr e ↦ cc (rw e at h)
  ]

  pub write_file-crashed :
      (vs : List Violation) → (write_file writable path vs ≡ crashed) ↔ (writable path ≡ false)
  write_file-crashed vs = elim (Bool-cases (writable path)) [
    | inl e ↦ rw e (λ h. cc, λ h. cc)
    | inr e ↦ rw e (λ h. refl, λ h. refl)
  ]

  pub write_file-ran : (vs : List Violation) → write_file writable path vs ≢ no_report_path
  write_file-ran vs h = elim (Bool-cases (writable path)) [
    | inl e ↦ cc (rw e at h)
    | inr e ↦ cc (rw e at h)
  ]
