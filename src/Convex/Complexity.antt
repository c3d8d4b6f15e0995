-- ===== src/Convex/Complexity.antt =====
-- convex_complexity_detector/checks/convex_complexity_*.mjs, five checks over one text scanner.
pub mod Mask
pub mod LineIndex
pub mod Brackets
pub mod Words
pub mod Functions
pub mod Metrics
pub mod Checks
pub mod Scan
