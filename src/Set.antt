-- ===== src/Set.antt =====
-- The semantic analysis (src/set/set.c, src/set/types.h, src/set/types.c).
pub mod Examples
pub mod Types
pub mod Scale
pub mod Monad
pub mod TypeImpl
pub mod Compare
pub mod Scope
pub mod Functions
pub mod Operands
pub mod Arithmetic
pub mod Logic
pub mod Bitwise
pub mod Access
pub mod Calls
pub mod Expression
pub mod Declarations
pub mod Statements
pub mod FunctionDefs
pub mod Module
pub mod Evaluation
pub mod Samples
pub mod Keeps
