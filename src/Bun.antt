-- ===== src/Bun.antt =====
-- The Bun detectors of official/atdd.workspace.bun.
pub mod Graph
pub mod DeadCode
pub mod Scan
pub mod Walk
pub mod Braces
pub mod Tags
