-- ===== src/Trans/Emit.antt =====
-- The emitter (trans/src/emit.rs).
pub mod Code
pub mod Expressions
pub mod State
pub mod Statements
pub mod Functions
pub mod PlainCode
pub mod Counts
pub mod Steps
pub mod Tallies
pub mod SimpleSteps
pub mod LoopSteps
pub mod BranchSteps
pub mod LabelSteps
pub mod Labels
pub mod Reachable
pub mod Unreachable
