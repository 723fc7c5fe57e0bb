-- ===== src/Sandbox.antt =====
-- The capability model of comp/src/sandbox.rs and the run-time gate of comp/src/prelude.rs.
pub mod Pattern
pub mod Rules
pub mod Host
pub mod Caps
pub mod Effective
mod SmallHost
mod Examples
pub mod HostLaws
pub mod Ufs
pub mod Workspace
pub mod BakeLaws
pub mod Bake
pub mod Describe
pub mod TaggedLines
pub mod DescribedValues
pub mod DescribeLaws
mod Descriptions
pub mod Gate
pub mod GateLaws
pub mod Discovery
pub mod Tightening
pub mod Layers
pub mod PatternLaws
pub mod Specificity
