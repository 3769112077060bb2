-- ===== src/Pluralkit/Fronts.antt =====
-- The fronts of the tracked systems and what is told about them
-- (crates/tulpje-mod-pluralkit/src/fronters, notify, front_update_service.rs,
-- system_update_service.rs).
pub mod Remote
pub mod Shared
pub mod Notices
pub mod Channels
pub mod Tasks
pub mod Services
pub mod Follow
pub mod Kept
pub mod Dropped
pub mod Limits
pub mod Bounded
pub mod Picks
pub mod First
pub mod Starved
pub mod Recorded
pub mod Polled
pub mod Notified
pub mod Told
pub mod Unfollowed
pub mod Discord
pub mod Effects
pub mod Loops
pub mod Moves
pub mod Names
pub mod Reconciled
pub mod Category
pub mod Setup
pub mod SetupRows
pub mod Configured
pub mod Confirmed
pub mod Calls
pub mod Recategorised
