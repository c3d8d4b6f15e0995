-- ===== src/Convex/Coverage.antt =====
-- The interlocking coverage detectors of official/convex.workspace.runtime/implementations:
-- convex_interlocking_coverage/_shared/interlocking.mjs and checks/*.mjs beside it.
pub mod Plan
pub mod Tokens
pub mod Rules
pub mod Sequence
pub mod Run
