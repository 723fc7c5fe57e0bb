-- ===== src/Comp.antt =====
-- The compiler from uFlux text and dense source (comp/src).
pub mod Strings
pub mod Tokens
pub mod Escapes
pub mod Printing
pub mod Numbers
pub mod Base64
pub mod Slots
pub mod Naming
pub mod SlotLaws
pub mod Ast
pub mod Opcodes
pub mod Gate
pub mod GateLaws
pub mod UnionFind
pub mod Forests
pub mod Unions
pub mod Components
pub mod Bodies
pub mod Ranges
pub mod BodyLaws
pub mod Earliest
pub mod Effects
pub mod Arity
pub mod OpCells
pub mod Heights
pub mod ArityMoves
pub mod ArityLaws
pub mod Scope
pub mod Atomics
pub mod Compaction
pub mod Frames
pub mod Locals
pub mod ScopeLaws
pub mod Merge
pub mod MergeLabels
pub mod MergeUnits
pub mod FrameLaws
pub mod LocalSlots
pub mod CompactionLaws
mod Examples
mod Programs
mod Units
