-- ===== src/Llvm.antt =====
-- The back end, src/llvm.
pub mod Types
pub mod Equal
pub mod Accepted
pub mod Defaults
pub mod Examples
