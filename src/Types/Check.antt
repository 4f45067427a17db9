-- ===== src/Types/Check.antt =====
-- The type checker, src/types/check.rs and `check` of src/types/mod.rs.
pub mod Expressions
pub mod Statements
pub mod Processes
pub mod Scopes
pub mod Slices
pub mod Kinds
pub mod Rules
pub mod TypingRules
pub mod Typing
pub mod StatementRules
mod Examples
