-- ===== src/Pluralkit/Database.antt =====
-- The tables of the PluralKit module and its statements (crates/tulpje-mod-pluralkit/src/db.rs,
-- fronters/db.rs, notify/db.rs, the folder migrations, crates/tulpje-lib/src/db).
pub mod Tables
pub mod Action
pub mod Rules
pub mod Systems
pub mod Sorted
pub mod Upserts
pub mod Fronters
pub mod Notify
