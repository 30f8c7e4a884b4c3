-- ===== src/Tests.antt =====
-- Runs of the models at concrete inputs, and the theorems at inputs that meet their hypotheses.
pub mod Data
pub mod Text
pub mod Jobs
pub mod Reports
pub mod Launch
pub mod Eval
pub mod Runs
pub mod Phases
pub mod Library
pub mod Linked
pub mod Interp
pub mod Sessions
pub mod Added
