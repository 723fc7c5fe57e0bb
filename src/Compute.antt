-- ===== src/Compute.antt =====
-- The fused kernels of the compiler (comp/src/compute.rs).
pub mod Expr
pub mod Equal
pub mod Inputs
pub mod Renumbering
pub mod Domains
pub mod Tasks
pub mod Params
pub mod Machine
pub mod TaskSteps
pub mod TaskRuns
pub mod Stores
mod Examples
