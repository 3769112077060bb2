-- ===== src/Pluralkit/Database/Tables.antt =====
-- The rows that the PluralKit module keeps (crates/tulpje-mod-pluralkit/src/db.rs, fronters/db.rs
-- and the folder migrations). Identifiers and times are numbers.
use tulpje.Prelude.{ℕ, Option, List, Text}

pub record ModPkGuildRow : Type 0 where
  pub guild_id : ℕ
  pub user_id : ℕ
  pub system_uuid : ℕ

pub record ModPkSystem : Type 0 where
  pub id : Text
  pub uuid : ℕ
  pub name : Option Text
  pub avatar : Option Text
  pub created_at : ℕ
  pub updated_at : ℕ

pub record ModPkFrontersRow : Type 0 where
  pub guild_id : ℕ
  pub category_id : ℕ

pub record ModPkSystemFronters : Type 0 where
  pub system_uuid : ℕ
  pub fronters : List ℕ
  pub updated_at : ℕ

pub record NotifyChannelRow : Type 0 where
  pub guild_id : ℕ
  pub channel_id : ℕ

pub record NotifySystemRow : Type 0 where
  pub guild_id : ℕ
  pub system_uuid : ℕ

pub record GuildRow : Type 0 where
  pub guild_id : ℕ
  pub created_at : ℕ
  pub updated_at : ℕ
  pub deleted_at : Option ℕ

-- The tables `guilds` and `pk_systems` to `pk_notify_systems`.
pub record Tables : Type 0 where
  pub guilds : List GuildRow
  pub systems : List ModPkSystem
  pub guild_settings : List ModPkGuildRow
  pub categories : List ModPkFrontersRow
  pub fronts : List ModPkSystemFronters
  pub channels : List NotifyChannelRow
  pub follows : List NotifySystemRow
