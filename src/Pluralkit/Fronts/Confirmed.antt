-- ===== src/Pluralkit/Fronts/Confirmed.antt =====
-- `/pk setup` where nothing is in its way (crates/tulpje-mod-pluralkit/src/commands/setup.rs).
use tulpje.Prelude.{
  ℕ, Bool, true, false, Option, none, some, List, ◌≡◌, refl, ap, sym, subst, arith, Text, ◌==◌, any,
  same, not, ◌&&◌,
}
use tulpje.Pluralkit.Util.{SystemRef, from_str, to_string}
use tulpje.Pluralkit.Database.Tables.{Tables, ModPkSystem, ModPkGuildRow, GuildRow}
use tulpje.Pluralkit.Database.Action.{World, Ends, ◌>>=◌}
use tulpje.Pluralkit.Database.Rules.{moved, bind-rule, query-answered}
use tulpje.Pluralkit.Database.Systems.{
  upsert, has_guild, has_system, update_system, save_guild_settings, get_system_for_guild,
}
use tulpje.Pluralkit.Database.Upserts.{any-upsert}
use tulpje.Pluralkit.Database.Notify.{touch}
use tulpje.Pluralkit.Fronts.Remote.{SystemAnswer, system_is}
use tulpje.Pluralkit.Fronts.Follow.{handle_system_ref, read_ref}
use tulpje.Pluralkit.Fronts.Setup.{
  Host, confirm_overwrite, save_setup, store_system, store_setup, setup_system, setup_ref, setup,
}
use tulpje.Pluralkit.Fronts.SetupRows.{stored, Shows, saved_rows, refreshed, fresh, upsert-Shows}
use tulpje.Pluralkit.Fronts.Configured.{HasSystem, saved-HasSystem}

-- Everyone answers, and nothing is in the way.
pub record Smooth {G : Type 0} (host : Host G) (r : SystemRef) (s : ModPkSystem) : Type 0 where
  pub up : (g : G) → (now : ℕ) × ((host.remote.postgres.statement g).0 ≡ some now)
  pub known : (g : G) → (host.remote.get_system (to_string host.remote.refs r) g).0 ≡ system_is s
  pub confirmed : (prompt denied : Text) (g : G) → (host.confirm prompt denied g).0 ≡ some true
  pub replied : (message : Text) (g : G) → (host.remote.respond message g).0 ≡ true

-- No other system has the short identifier.
abbrev pub IsFree : ModPkSystem → Tables → Type 0
IsFree s t = any (λ x. same x.id s.id && not (x.uuid == s.uuid)) t.systems ≡ false

module _ {G : Type 0} (host : Host G) (guild user : ℕ) (r : SystemRef) (s : ModPkSystem)
    (smooth : Smooth host r s) where
  abbrev pub Sets : List ModPkGuildRow → Option (Unit {0}) → World G → Type 0
  Sets rows o w' = (o ≡ some tt) × HasSystem host guild user s rows w'.tables

  saved_lem :
      (w : World G)
      → has_guild w.tables guild ≡ true
      → has_system w.tables s.uuid ≡ true
      → Shows s (stored s.uuid w.tables)
      → Ends (Sets w.tables.guild_settings) (save_setup host guild user s w)
  unfolding save_guild_settings
  saved_lem w g u h =
      bind-rule (Sets w.tables.guild_settings) (Sets w.tables.guild_settings)
        (save_guild_settings host.remote.postgres guild user s.uuid) _ w
        (query-answered (Sets w.tables.guild_settings) _ _ w (smooth.up w.outside)
          (λ now e. absurd (ground arith))
          (λ now a t e. (
            refl,
            subst (HasSystem host guild user s w.tables.guild_settings)
                {x = record w.tables {
                  guild_settings = saved_rows guild user s.uuid w.tables.guild_settings;
                }}
                (ground arith) (saved-HasSystem host guild user s w.tables h),
          )))
        (λ w' q. absurd (ground arith)) (λ a w' q. (rw (smooth.replied _ w'.outside) refl, q.1))

  -- The system is in the tables and the guild's settings are as they were.
  abbrev Ready : Tables → Tables → Type 0
  Ready t t' =
      (t'.guild_settings ≡ t.guild_settings)
      × ((has_guild t' guild ≡ true) × ((has_system t' s.uuid ≡ true) × Shows s (stored s.uuid t')))

  updated_lem :
      (w : World G)
      → has_guild w.tables guild ≡ true
      → IsFree s w.tables
      → Ends (Sets w.tables.guild_settings) (store_system host guild user s w)
  unfolding update_system
  updated_lem w g free =
      bind-rule (λ o w'. (o ≡ some tt) × Ready w.tables w'.tables) (Sets w.tables.guild_settings)
        (update_system host.remote.postgres s) _ w
        (query-answered (λ o w'. (o ≡ some tt) × Ready w.tables w'.tables) _ _ w
          (smooth.up w.outside) (λ now e. absurd (ground arith))
          (λ now a t e. (
            refl,
            subst (Ready w.tables)
                {x = record w.tables {
                  systems =
                      upsert (λ x. x.uuid == s.uuid) (refreshed s now) (fresh s now)
                        w.tables.systems;
                }}
                {y = t} (ground arith)
                (
                  refl,
                  (
                    g,
                    (
                      any-upsert (λ x. x.uuid) s.uuid (refreshed s now) (fresh s now) (λ x. refl)
                          refl w.tables.systems,
                      upsert-Shows s now w.tables.systems,
                    ),
                  ),
                ),
          )))
        (λ w' q. absurd (ground arith))
        (λ a w' q.
          subst (λ rows. Ends (Sets rows) (save_setup host guild user s w')) q.1.0
            (saved_lem w' q.1.1.0 q.1.1.1.0 q.1.1.1.1))

  -- The guild is there and systems and settings are as they were.
  abbrev Touched : Tables → Tables → Type 0
  Touched t t' =
      (has_guild t' guild ≡ true)
      × ((t'.systems ≡ t.systems) × (t'.guild_settings ≡ t.guild_settings))

  touched_lem :
      (w : World G)
      → IsFree s w.tables
      → Ends (Sets w.tables.guild_settings) (store_setup host guild user s true w)
  unfolding touch
  touched_lem w free =
      bind-rule (λ o w'. (o ≡ some tt) × Touched w.tables w'.tables) (Sets w.tables.guild_settings)
        (touch host.remote.postgres guild) _ w
        (query-answered (λ o w'. (o ≡ some tt) × Touched w.tables w'.tables) _ _ w
          (smooth.up w.outside) (λ now e. absurd (ground arith))
          (λ now a t e. (
            refl,
            subst (Touched w.tables)
                {x = record w.tables {
                  guilds =
                      upsert (λ g. g.guild_id == guild)
                        (λ g. record g { updated_at = now; deleted_at = none })
                        (record {
                          guild_id = guild;
                          created_at = now;
                          updated_at = now;
                          deleted_at = none;
                        })
                        w.tables.guilds;
                }}
                {y = t} (ground arith)
                (
                  any-upsert (λ (g : GuildRow). g.guild_id) guild
                      (λ g. record g { updated_at = now; deleted_at = none })
                      (record {
                        guild_id = guild;
                        created_at = now;
                        updated_at = now;
                        deleted_at = none;
                      })
                      (λ x. refl) refl w.tables.guilds,
                  (refl, refl),
                ),
          )))
        (λ w' q. absurd (ground arith))
        (λ a w' q.
          subst (λ rows. Ends (Sets rows) (store_system host guild user s w')) q.1.1.1
            (updated_lem w' q.1.0 (rw q.1.1.0 free)))

  abbrev Yes : Tables → Option Bool → World G → Type 0
  Yes t b w' = (b ≡ some true) × (w'.tables ≡ t)

  confirmed_lem :
      (o : Option ModPkSystem) (w : World G) → Ends (Yes w.tables) (confirm_overwrite host o w)
  confirmed_lem none w = (refl, refl)
  confirmed_lem (some x) w = (smooth.confirmed _ _ w.outside, refl)

  agreed_lem :
      (o : Option ModPkSystem) (w : World G)
      → IsFree s w.tables
      → Ends
          (Sets w.tables.guild_settings)
          ((confirm_overwrite host o >>= store_setup host guild user s) w)
  agreed_lem o w free =
      bind-rule (Yes w.tables) (Sets w.tables.guild_settings) (confirm_overwrite host o)
        (store_setup host guild user s) w (confirmed_lem o w) (λ w' q. absurd (ground arith))
        (λ b w' q.
          subst (λ rows. Ends (Sets rows) (store_setup host guild user s b w'))
            (ap (λ (t : Tables). t.guild_settings) q.1)
            (subst (λ c. Ends (Sets w'.tables.guild_settings) (store_setup host guild user s c w'))
              {x = true} (ground arith) (touched_lem w' (rw q.1 free))))

  abbrev Answers : {A : Type 0} → Tables → Option A → World G → Type 0
  Answers {A} t o w' = ((a : A) × (o ≡ some a)) × (w'.tables ≡ t)

  setup_lem :
      (w : World G)
      → IsFree s w.tables
      → Ends (Sets w.tables.guild_settings) (setup_system host guild user r (system_is s) w)
  unfolding get_system_for_guild
  setup_lem w free =
      bind-rule (Answers w.tables) (Sets w.tables.guild_settings)
        (get_system_for_guild host.remote.postgres guild) _ w
        (query-answered (Answers w.tables) _ _ w (smooth.up w.outside)
          (λ now e. absurd (ground arith)) (λ now a t e. ((a, refl), ground arith)))
        (λ w' q. absurd (ground arith))
        (λ o w' q.
          subst
            (λ rows.
              Ends (Sets rows) ((confirm_overwrite host o >>= store_setup host guild user s) w'))
            (ap (λ (t : Tables). t.guild_settings) q.1) (agreed_lem o w' (rw q.1 free)))

  -- Where postgres answers, PluralKit knows the system of the given reference, no other stored system
  -- has its short identifier, the user confirms and every reply arrives, `/pk setup` succeeds.
  -- The guild then has that system with its identifiers, name and avatar, and other guilds keep
  -- theirs.
  pub setup-Sets :
      (reference : Text) (w : World G)
      → from_str host.remote.refs reference ≡ some r
      → IsFree s w.tables
      → Ends (Sets w.tables.guild_settings) (setup host guild user reference w)
  unfolding setup handle_system_ref ◌>>=◌
  setup-Sets reference w e free =
      subst
        (λ (o : Option SystemRef).
          Ends (Sets w.tables.guild_settings)
            ((read_ref host.remote reference o >>= setup_ref host guild user) w))
        (sym e)
        (subst
          (λ (a : SystemAnswer). Ends (Sets w.tables.guild_settings) (
            setup_system host guild user r a
              (moved w (host.remote.get_system (to_string host.remote.refs r) w.outside).1)))
          (sym (smooth.known w.outside)) (setup_lem (moved w _) free))
