-- ===== src/Convex/Interlocking.antt =====
-- The interlocking binding detector of official/convex.workspace.runtime/implementations:
-- convex_interlocking_binding/detect.mjs and its checks/interlocking_runtime_executes.mjs.
pub mod Text
pub mod Tree
pub mod Patterns
pub mod Plan
pub mod Journey
pub mod Space
pub mod Message
pub mod Station
pub mod Scan
pub mod Modules
pub mod Imports
pub mod Executes
pub mod Run
