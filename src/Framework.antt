-- ===== src/Framework.antt =====
-- The command framework (crates/tulpje-framework).
pub mod Color
pub mod ColorText
pub mod Registry
pub mod Registered
pub mod Scheduler
pub mod Tasks
