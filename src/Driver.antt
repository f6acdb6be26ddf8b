-- ===== src/Driver.antt =====
-- The driver, src/compiler.c. The parser, the file system, the semantic analysis and the back end are parameters.
pub mod Imports
pub mod Pending
pub mod Ends
pub mod Distinct
pub mod Builds
pub mod Statuses
pub mod Nothing
pub mod Examples
