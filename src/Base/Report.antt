-- ===== src/Base/Report.antt =====
-- What the detectors of all providers report.
use Prim.Native.Nat.{ℕ}
use atdd_extensions.Base.Chars.{Text}

pub record Violation : Type 0 where
  pub rule_id : Text
  pub file : Text
  pub line : ℕ
  pub col : ℕ
  pub evidence : Text
  pub source_line : Text
