-- ===== src/Pluralkit/Database/Systems.antt =====
-- The statements on systems and guild settings (crates/tulpje-mod-pluralkit/src/db.rs).
use tulpje.Prelude.{
  ℕ, Bool, true, false, not, ◌&&◌, ◌||◌, Option, none, some, List, [], ◌∷◌, ◌+◌, leb, ◌==◌,
  if◌then◌else◌, same, any, filter, length, take,
}
use tulpje.Pluralkit.Util.{SystemRef, discord_id, uuid, id}
use tulpje.Pluralkit.Database.Tables.{Tables, ModPkSystem, ModPkGuildRow}
use tulpje.Pluralkit.Database.Action.{Postgres, Action, query, select, fail}

module _ {A : Type 0} where
  abbrev pub find : (A → Bool) → List A → Option A
  find p [] = none
  find p (x ∷ xs) = let rest = find p xs in if p x then some x else rest

  -- `INSERT ... ON CONFLICT DO UPDATE`, where at most one row conflicts.
  abbrev pub upsert : (A → Bool) → (A → A) → A → List A → List A
  upsert p change new [] = new ∷ []
  upsert p change new (x ∷ xs) =
      let rest = upsert p change new xs in if p x then (change x ∷ xs) else (x ∷ rest)

  -- `ORDER BY`: of equal rows the earlier stays in front.
  abbrev pub insert_by : (A → A → Bool) → A → List A → List A
  insert_by le x [] = x ∷ []
  insert_by le x (y ∷ ys) =
      let rest = insert_by le x ys in if le x y then (x ∷ y ∷ ys) else (y ∷ rest)

  abbrev pub sort_by : (A → A → Bool) → List A → List A
  sort_by le [] = []
  sort_by le (x ∷ xs) = insert_by le x (sort_by le xs)

abbrev pub is_none {ℓ} : {A : Type ℓ} → Option A → Bool
is_none none = true
is_none (some _) = false

-- Times are microseconds.
abbrev pub minutes : ℕ
minutes = 60000000

abbrev pub hours_24 : ℕ
hours_24 = 86400000000

-- The foreign keys to `guilds` and `pk_systems`.
abbrev pub has_guild : Tables → ℕ → Bool
has_guild t guild = any (λ g. g.guild_id == guild) t.guilds

abbrev pub has_system : Tables → ℕ → Bool
has_system t system = any (λ s. s.uuid == system) t.systems

-- A row of `guilds` that is not deleted.
abbrev pub is_present : Tables → ℕ → Bool
is_present t guild = any (λ g. g.guild_id == guild && is_none g.deleted_at) t.guilds

-- The two subqueries on `pk_notify_systems` and on `pk_guilds` with `pk_fronters`.
unfoldable pub is_tracked : Tables → ℕ → Bool
is_tracked t system =
    any (λ f. f.system_uuid == system && is_present t f.guild_id) t.follows
    || any
        (λ s.
          s.system_uuid == system
          && any (λ c. c.guild_id == s.guild_id) t.categories
          && is_present t s.guild_id)
        t.guild_settings

abbrev pub is_unused : Tables → ℕ → Bool
is_unused t u =
    not (any (λ s. s.system_uuid == u) t.guild_settings)
    && not (any (λ f. f.system_uuid == u) t.follows)

module _ {G : Type 0} (pg : Postgres G) where
  unfoldable pub save_guild_settings : (guild user system : ℕ) → Action G (Unit {0})
  save_guild_settings guild user system = query pg λ now t.
      if has_guild t guild && has_system t system
      then some (
        tt,
        record t {
          guild_settings =
              upsert (λ s. s.guild_id == guild) (λ s. record s { system_uuid = system })
                (record { guild_id = guild; user_id = user; system_uuid = system })
                t.guild_settings;
        },
      )
      else none

  unfoldable pub get_guild_settings_for_id : ℕ → Action G (Option ModPkGuildRow)
  get_guild_settings_for_id guild =
      select pg (λ now t. find (λ s. s.guild_id == guild) t.guild_settings)

  unfoldable pub get_systems : List ℕ → Action G (List ModPkSystem)
  get_systems uuids = select pg (λ now t. filter (λ s. any (λ u. s.uuid == u) uuids) t.systems)

  unfoldable pub get_system : SystemRef → Action G (Option ModPkSystem)
  get_system (id text) = select pg (λ now t. find (λ s. same s.id text) t.systems)
  get_system (uuid u) = select pg (λ now t. find (λ s. s.uuid == u) t.systems)
  get_system (discord_id user) = fail

  unfoldable pub get_system_for_guild : ℕ → Action G (Option ModPkSystem)
  get_system_for_guild guild = select pg λ now t.
      elim (find (λ s. s.guild_id == guild) t.guild_settings) [
        | none ↦ none
        | some settings ↦ find (λ s. s.uuid == settings.system_uuid) t.systems
      ]

  -- The short identifiers are unique.
  unfoldable pub update_system : ModPkSystem → Action G (Unit {0})
  update_system system = query pg λ now t.
      if any (λ s. same s.id system.id && not (s.uuid == system.uuid)) t.systems
      then none
      else some (
        tt,
        record t {
          systems =
              upsert (λ s. s.uuid == system.uuid)
                (λ s. record s {
                  id = system.id;
                  name = system.name;
                  avatar = system.avatar;
                  updated_at = now;
                })
                (record system { created_at = now; updated_at = now }) t.systems;
        },
      )

  -- A row of `pk_system_fronters` goes with its system.
  unfoldable pub cleanup_systems : Action G ℕ
  cleanup_systems = query pg λ now t. some (
    length (filter (λ s. is_unused t s.uuid) t.systems),
    record t {
      systems = filter (λ s. not (is_unused t s.uuid)) t.systems;
      fronts = filter (λ f. not (is_unused t f.system_uuid)) t.fronts;
    },
  )

  unfoldable pub get_systems_to_update : Action G (List ModPkSystem)
  get_systems_to_update = select pg λ now t. take 5 (
      sort_by (λ a b. leb a.updated_at b.updated_at)
        (filter (λ s. leb (s.updated_at + hours_24) now && is_tracked t s.uuid) t.systems))
