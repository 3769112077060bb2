-- ===== src/Pluralkit/Database/Fronters.antt =====
-- The statements on fronter categories and fronts
-- (crates/tulpje-mod-pluralkit/src/fronters/db.rs).
use tulpje.Prelude.{
  ℕ, Bool, true, false, not, ◌&&◌, ◌||◌, Option, none, some, List, [], ◌+◌, leb, ◌==◌,
  if◌then◌else◌, same, any, filter, length, take,
}
use tulpje.Pluralkit.Database.Tables.{Tables, ModPkSystem, ModPkFrontersRow, ModPkSystemFronters}
use tulpje.Pluralkit.Database.Action.{Postgres, Action, query, select, pure, ◌>>=◌}
use tulpje.Pluralkit.Database.Systems.{
  find, upsert, sort_by, minutes, has_guild, has_system, is_tracked,
}

abbrev pub front_of : ℕ → Tables → Option ModPkSystemFronters
front_of system t = find (λ f. f.system_uuid == system) t.fronts

-- When the front was updated; without a row, `NULL`.
abbrev pub front_updated : Tables → ModPkSystem → Option ℕ
front_updated t s = elim (front_of s.uuid t) [ none ↦ none | some f ↦ some f.updated_at ]

-- `ASC NULLS FIRST`.
abbrev pub nulls_first : Option ℕ → Option ℕ → Bool
nulls_first none b = true
nulls_first (some a) none = false
nulls_first (some a) (some b) = leb a b

abbrev pub is_stale : ℕ → Option ℕ → Bool
is_stale now none = true
is_stale now (some updated) = leb (updated + minutes) now

unfoldable pub is_due : ℕ → Tables → ModPkSystem → Bool
is_due now t s = is_stale now (front_updated t s) && is_tracked t s.uuid

-- The row keeps its fronters, or a new one has none.
abbrev pub touch_front : ℕ → ℕ → Tables → Option (Unit {0} × Tables)
touch_front system now t =
    if has_system t system
    then some (
      tt,
      record t {
        fronts =
            upsert (λ f. f.system_uuid == system) (λ f. record f { updated_at = now })
              (record { system_uuid = system; fronters = []; updated_at = now }) t.fronts;
      },
    )
    else none

abbrev pub write_front : ℕ → List ℕ → ℕ → Tables → Option (Unit {0} × Tables)
write_front system fronters updated t =
    if has_system t system
    then some (
      tt,
      record t {
        fronts =
            upsert (λ f. f.system_uuid == system)
              (λ f. record f { fronters = fronters; updated_at = updated })
              (record { system_uuid = system; fronters = fronters; updated_at = updated }) t.fronts;
      },
    )
    else none

-- Two fronts are the same only in the same order.
abbrev pub differs : List ℕ → Option ModPkSystemFronters → Bool
differs new none = true
differs new (some saved) = not (same saved.fronters new)

module _ {G : Type 0} (pg : Postgres G) where
  unfoldable pub get_fronter_categories_for_system : ℕ → Action G (List ModPkFrontersRow)
  get_fronter_categories_for_system system = select pg λ now t.
      filter (λ c. any (λ s. s.guild_id == c.guild_id && s.system_uuid == system) t.guild_settings)
        t.categories

  unfoldable pub get_fronter_category : ℕ → Action G (Option ℕ)
  get_fronter_category guild = select pg λ now t.
      elim (find (λ c. c.guild_id == guild) t.categories) [
        | none ↦ none
        | some c ↦ some c.category_id
      ]

  unfoldable pub delete_fronter_category : ℕ → Action G Bool
  delete_fronter_category category = query pg λ now t. some (
    any (λ c. c.category_id == category) t.categories,
    record t { categories = filter (λ c. not (c.category_id == category)) t.categories },
  )

  unfoldable pub save_fronter_category : (guild channel : ℕ) → Action G (Unit {0})
  save_fronter_category guild channel = query pg λ now t.
      if has_guild t guild
      then some (
        tt,
        record t {
          categories =
              upsert (λ c. c.guild_id == guild) (λ c. record c { category_id = channel })
                (record { guild_id = guild; category_id = channel }) t.categories;
        },
      )
      else none

  unfoldable pub get_tracked_system_count : Action G ℕ
  get_tracked_system_count = select pg λ now t. length (
      filter
        (λ s.
          any (λ f. f.system_uuid == s.uuid) t.follows
          || any (λ g. g.system_uuid == s.uuid && any (λ c. c.guild_id == g.guild_id) t.categories)
              t.guild_settings)
        t.systems)

  unfoldable pub get_system_count : Action G ℕ
  get_system_count = select pg (λ now t. length t.systems)

  unfoldable pub get_fronters : ℕ → Action G (Option ModPkSystemFronters)
  get_fronters system = select pg (λ now t. front_of system t)

  unfoldable pub did_fronters_change : ℕ → List ℕ → Action G Bool
  unfolding get_fronters
  did_fronters_change system new = do saved ← get_fronters system; pure (differs new saved)

  unfoldable pub update_fronters_timestamp : ℕ → Action G (Unit {0})
  update_fronters_timestamp system = query pg (touch_front system)

  -- The time is the process's, not the database's.
  unfoldable pub update_fronters : (utc_now system : ℕ) → List ℕ → Action G (Unit {0})
  update_fronters utc_now system fronters =
      query pg (λ now t. write_front system fronters utc_now t)

  -- At most five, the most stale first.
  unfoldable pub get_systems_to_update : Action G (List ModPkSystem)
  get_systems_to_update = select pg λ now t. take 5 (
      sort_by (λ a b. nulls_first (front_updated t a) (front_updated t b))
        (filter (is_due now t) t.systems))
