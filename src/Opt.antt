-- ===== src/Opt.antt =====
-- Options and project files, src/cfg.
pub mod Examples
pub mod Project
pub mod Target
pub mod Arguments
