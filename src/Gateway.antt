-- ===== src/Gateway.antt =====
-- The gateway process (crates/tulpje-gateway): a shard's manager reads the messages of Discord's
-- gateway, tells the reporter about them and forwards them to the message queue.
pub mod Events
pub mod ShardState
pub mod Reporter
pub mod Guilds
pub mod Saves
pub mod ParsedEvent
pub mod Manager
pub mod Forwarding
