-- ===== src/Types.antt =====
-- The type checker's directory, src/types: the types it infers and the linearity check of cells.
pub mod Ty
pub mod Env
pub mod Check
pub mod Linearity
