-- ===== src/Convex.antt =====
-- The Convex detectors of official/convex.workspace.runtime/implementations.
pub mod Complexity
pub mod Interlocking
pub mod Infrastructure
pub mod Coverage
