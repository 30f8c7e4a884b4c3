-- ===== src/Shell.antt =====
-- The job-control shell, sp_prj2/phase3/myshell.c.
pub mod Text
pub mod Trim
pub mod Launch
pub mod Builtins
pub mod Wait
pub mod Signals
pub mod Jobs
pub mod JobId
pub mod Find
pub mod Line
pub mod Words
pub mod Eval
pub mod Handlers
pub mod System
