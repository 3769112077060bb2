-- ===== src/Pluralkit.antt =====
-- The PluralKit module (crates/tulpje-mod-pluralkit).
pub mod Util
pub mod ShortId
pub mod Roles
pub mod Database
pub mod Fronts
