-- ===== src/Pluralkit/Roles.antt =====
-- The command that keeps a role per member of a system (crates/tulpje-mod-pluralkit/src/roles).
pub mod Stats
pub mod Ops
pub mod Run
pub mod Discord
pub mod Step
pub mod Converge
pub mod RoleMaps
pub mod Update
pub mod Messages
pub mod Handle
pub mod Outcome
pub mod Ends
pub mod Command
pub mod Settled
pub mod Totals
pub mod Assign
pub mod Assigned
