-- ===== src/Pluralkit/Database/Notify.antt =====
-- The statements on notifications (crates/tulpje-mod-pluralkit/src/notify/db.rs) and on guilds
-- (crates/tulpje-lib/src/db/guild.rs).
use tulpje.Prelude.{
  ℕ, Bool, not, ◌&&◌, Option, none, some, List, ltb, ◌==◌, if◌then◌else◌, any, filter, map, length,
}
use tulpje.Pluralkit.Database.Tables.{Tables, NotifySystemRow}
use tulpje.Pluralkit.Database.Action.{Postgres, Action, query, select}
use tulpje.Pluralkit.Database.Systems.{find, upsert, has_guild, has_system, is_present}

abbrev pub is_follow : ℕ → ℕ → NotifySystemRow → Bool
is_follow guild system f = f.guild_id == guild && f.system_uuid == system

abbrev pub follows_of : ℕ → Tables → List NotifySystemRow
follows_of guild t = filter (λ f. f.guild_id == guild) t.follows

module _ {G : Type 0} (pg : Postgres G) where
  unfoldable pub touch : ℕ → Action G (Unit {0})
  touch guild = query pg λ now t. some (
    tt,
    record t {
      guilds =
          upsert (λ g. g.guild_id == guild) (λ g. record g { updated_at = now; deleted_at = none })
            (record { guild_id = guild; created_at = now; updated_at = now; deleted_at = none })
            t.guilds;
    },
  )

  unfoldable pub save_notify_channel : (guild channel : ℕ) → Action G (Unit {0})
  save_notify_channel guild channel = query pg λ now t.
      if has_guild t guild
      then some (
        tt,
        record t {
          channels =
              upsert (λ c. c.guild_id == guild) (λ c. record c { channel_id = channel })
                (record { guild_id = guild; channel_id = channel }) t.channels;
        },
      )
      else none

  unfoldable pub get_notify_channel : ℕ → Action G (Option ℕ)
  get_notify_channel guild = select pg λ now t. elim (find (λ c. c.guild_id == guild) t.channels) [
    | none ↦ none
    | some c ↦ some c.channel_id
  ]

  unfoldable pub delete_notify_channel : ℕ → Action G Bool
  delete_notify_channel channel = query pg λ now t. some (
    any (λ c. c.channel_id == channel) t.channels,
    record t { channels = filter (λ c. not (c.channel_id == channel)) t.channels },
  )

  unfoldable pub delete_notify_systems : ℕ → Action G Bool
  delete_notify_systems guild = query pg λ now t. some (
    any (λ f. f.guild_id == guild) t.follows,
    record t { follows = filter (λ f. not (f.guild_id == guild)) t.follows },
  )

  unfoldable pub add_notify_system : (guild system : ℕ) → Action G (Unit {0})
  add_notify_system guild system = query pg λ now t.
      if has_guild t guild && has_system t system
      then some (
        tt,
        record t {
          follows =
              upsert (is_follow guild system) (λ f. record f { system_uuid = system })
                (record { guild_id = guild; system_uuid = system }) t.follows;
        },
      )
      else none

  unfoldable pub remove_notify_system : (guild system : ℕ) → Action G (Unit {0})
  remove_notify_system guild system = query pg λ now t.
      some (tt, record t { follows = filter (λ f. not (is_follow guild system f)) t.follows })

  unfoldable pub remove_notify_system_from_guilds : ℕ → List ℕ → Action G (Unit {0})
  remove_notify_system_from_guilds system guilds = query pg λ now t. some (
    tt,
    record t {
      follows =
          filter (λ f. not (f.system_uuid == system && any (λ g. f.guild_id == g) guilds))
            t.follows;
    },
  )

  unfoldable pub get_notify_systems : ℕ → Action G (List ℕ)
  get_notify_systems guild = select pg λ now t.
      map (λ f. f.system_uuid)
        (filter (λ f. is_present t f.guild_id && f.guild_id == guild) t.follows)

  unfoldable pub does_guild_follow : (guild system : ℕ) → Action G Bool
  does_guild_follow guild system =
      select pg (λ now t. ltb 0 (length (filter (is_follow guild system) t.follows)))

  unfoldable pub get_guild_follow_count : ℕ → Action G ℕ
  get_guild_follow_count guild = select pg (λ now t. length (follows_of guild t))

  unfoldable pub get_notify_guilds_for_system : ℕ → Action G (List ℕ)
  get_notify_guilds_for_system system =
      select pg λ now t. map (λ f. f.guild_id) (filter (λ f. f.system_uuid == system) t.follows)
