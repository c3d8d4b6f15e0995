-- ===== src/Convex/Infrastructure.antt =====
-- The interlocking infrastructure detectors of official/convex.workspace.runtime/implementations:
-- convex_interlocking_infrastructure/_shared/interlocking.mjs and checks/*.mjs beside it.
pub mod Tree
pub mod Runner
pub mod Uses
pub mod Rules
pub mod Run
pub mod Family
