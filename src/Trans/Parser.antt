-- ===== src/Trans/Parser.antt =====
-- The recursive-descent parser (trans/src/parser.rs).
pub mod State
pub mod Operators
pub mod Expressions
pub mod Declarations
pub mod Statements
pub mod Progress
pub mod OperatorProgress
pub mod PrimaryProgress
pub mod ExpressionProgress
pub mod Jumps
pub mod DeclarationProgress
pub mod StatementProgress
pub mod LoopProgress
pub mod BlockProgress
pub mod ProgramProgress
