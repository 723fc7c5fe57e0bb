-- ===== src/Trans.antt =====
-- The transpiler from the C subset (trans/src).
pub mod Token
pub mod Lexer
pub mod Lexemes
pub mod Positions
pub mod Ast
pub mod Parser
pub mod Emit
mod Examples
pub mod Run
pub mod RunLaws
mod Runs
