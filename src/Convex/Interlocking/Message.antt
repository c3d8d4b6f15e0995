-- ===== src/Convex/Interlocking/Message.antt =====
-- `mk`, and the texts of the messages.
pub mod Laws
use atdd_extensions.Base.{ℕ, Bool, true, false, List, [], ◌∷◌, ◌++◌, String, Text, codes}
use atdd_extensions.Base.Report.{Violation}

abbrev pub binding_rule : Text
binding_rule = codes "coder.convex.interlocking-bilateral-binding"

abbrev pub says : List Text → Text
says [] = []
says (t ∷ ts) = t ++ says ts

-- `mk(file, line, direction, detail, sourceLine)`
unfoldable pub mk : Text → ℕ → String → Text → Text → Violation
mk file line direction detail source_line = record {
  rule_id = binding_rule;
  file = file;
  line = line;
  col = 0;
  evidence = says (codes direction ∷ codes ": " ∷ detail ∷ []);
  source_line = source_line;
}

-- `if (b) continue` in front of a push.
abbrev pub unless : Bool → List Violation → List Violation
unless true vs = []
unless false vs = vs
