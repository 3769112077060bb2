-- ===== src/Pluralkit/Fronts/SetupRows.antt =====
-- The rows of a guild's settings and of its system (crates/tulpje-mod-pluralkit/src/db.rs).
use tulpje.Prelude.{ℕ, Option, none, some, List, ◌≡◌, refl, ◌∙◌, ap, inl, inr, Option-cases, ◌==◌}
use tulpje.Pluralkit.Database.Tables.{Tables, ModPkSystem, ModPkGuildRow}
use tulpje.Pluralkit.Database.Systems.{find, upsert}
use tulpje.Pluralkit.Database.Upserts.{find-key, find-upsert_same}

abbrev pub row_of : ℕ → List ModPkGuildRow → Option ModPkGuildRow
row_of guild rows = find (λ s. s.guild_id == guild) rows

abbrev pub stored : ℕ → Tables → Option ModPkSystem
stored u t = find (λ s. s.uuid == u) t.systems

abbrev lookup : Tables → Option ModPkGuildRow → Option ModPkSystem
lookup t settings = elim settings [ none ↦ none | some settings ↦ stored settings.system_uuid t ]

-- The system of the guild's settings.
abbrev pub configured : ℕ → Tables → Option ModPkSystem
configured guild t = lookup t (row_of guild t.guild_settings)

-- The row of a system shows what PluralKit answered.
pub record Shows (s : ModPkSystem) (row : Option ModPkSystem) : Type 0 where
  pub found : ModPkSystem
  pub is : row ≡ some found
  pub same_id : found.id ≡ s.id
  pub same_uuid : found.uuid ≡ s.uuid
  pub same_name : found.name ≡ s.name
  pub same_avatar : found.avatar ≡ s.avatar

-- The row of `update_system`.
module _ (s : ModPkSystem) (now : ℕ) where
  abbrev pub refreshed : ModPkSystem → ModPkSystem
  refreshed old = record old { id = s.id; name = s.name; avatar = s.avatar; updated_at = now }

  abbrev pub fresh : ModPkSystem
  fresh = record s { created_at = now; updated_at = now }

  pub upsert-Shows :
      (xs : List ModPkSystem)
      → Shows s (find (λ x. x.uuid == s.uuid) (upsert (λ x. x.uuid == s.uuid) refreshed fresh xs))
  upsert-Shows xs = elim (Option-cases (find (λ x. x.uuid == s.uuid) xs)) [
    | inl e ↦ record {
      found = fresh;
      is = find-upsert_same (λ x. x.uuid) s.uuid refreshed fresh (λ x. refl) refl xs ∙ rw e refl;
      same_id = refl;
      same_uuid = refl;
      same_name = refl;
      same_avatar = refl;
    }
    | inr (x, e) ↦ record {
      found = refreshed x;
      is = find-upsert_same (λ x. x.uuid) s.uuid refreshed fresh (λ x. refl) refl xs ∙ rw e refl;
      same_id = refl;
      same_uuid = find-key (λ (x : ModPkSystem). x.uuid) s.uuid xs x e;
      same_name = refl;
      same_avatar = refl;
    }
  ]

-- The row of `save_guild_settings`.
module _ (guild user system : ℕ) where
  abbrev pub reset : ModPkGuildRow → ModPkGuildRow
  reset old = record old { system_uuid = system }

  abbrev pub new_row : ModPkGuildRow
  new_row = record { guild_id = guild; user_id = user; system_uuid = system }

  abbrev pub saved_rows : List ModPkGuildRow → List ModPkGuildRow
  saved_rows xs = upsert (λ x. x.guild_id == guild) reset new_row xs

  pub configured-saved :
      (t : Tables)
      → configured guild (record t { guild_settings = saved_rows t.guild_settings })
        ≡ stored system t
  configured-saved t =
      let found =
        find-upsert_same (λ x. x.guild_id) guild reset new_row (λ x. refl) refl t.guild_settings in
      elim (Option-cases (row_of guild t.guild_settings)) [
        | inl e ↦
            ap (λ (o : Option ModPkGuildRow). lookup t o) {y = some new_row} (found ∙ rw e refl)
        | inr (x, e) ↦
            ap (λ (o : Option ModPkGuildRow). lookup t o) {y = some (reset x)} (found ∙ rw e refl)
      ]
