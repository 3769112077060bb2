-- ===== src/Cache.antt =====
-- The cache of Discord's objects in redis (crates/tulpje-cache).
pub mod Redis
pub mod Repository
pub mod SetRepository
pub mod Lookup
pub mod Members
pub mod MemberRemove
pub mod Reactions
pub mod Messages
pub mod MessageList
pub mod Counting
pub mod ReactionEvents
