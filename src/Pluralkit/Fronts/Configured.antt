-- ===== src/Pluralkit/Fronts/Configured.antt =====
-- Which system a guild is configured for (crates/tulpje-mod-pluralkit/src/commands/setup.rs).
use tulpje.Prelude.{
  ℕ, Bool, true, false, Option, none, some, List, ◌≡◌, ◌≢◌, ◌⊎◌, refl, ◌∙◌, ap, sym, subst, arith,
  inl, inr, Text, Bool-cases, ◌==◌,
}
use tulpje.Pluralkit.Util.{SystemRef, from_str, to_string}
use tulpje.Pluralkit.Database.Tables.{Tables, ModPkSystem, ModPkGuildRow}
use tulpje.Pluralkit.Database.Action.{World, Ends, pure, ◌>>=◌}
use tulpje.Pluralkit.Database.Rules.{moved, bind-rule, query-rule}
use tulpje.Pluralkit.Database.Systems.{
  find, update_system, save_guild_settings, get_system_for_guild,
}
use tulpje.Pluralkit.Database.Upserts.{find-upsert_other}
use tulpje.Pluralkit.Database.Notify.{touch}
use tulpje.Pluralkit.Fronts.Remote.{SystemAnswer, system_is, system_error, system_failed}
use tulpje.Pluralkit.Fronts.Follow.{read_ref, handle_system_ref, respond}
use tulpje.Pluralkit.Fronts.Setup.{
  Host, confirm_overwrite, save_setup, store_system, store_setup, setup_system, setup_ref, setup,
}
use tulpje.Pluralkit.Fronts.SetupRows.{
  row_of, stored, configured, Shows, upsert-Shows, reset, new_row, saved_rows, configured-saved,
}

module _ {G : Type 0} (host : Host G) (guild user : ℕ) where
  -- The guild was not configured, or the user has confirmed the dialog at this moment.
  abbrev pub Agreed : Tables → G → Type 0
  Agreed t g =
      (configured guild t ≡ none)
      ⊎ ((prompt : Text) × ((denied : Text) × ((host.confirm prompt denied g).0 ≡ some true)))

  -- After the statement that reads the system of the guild.
  abbrev pub looked : G → G
  looked g = (host.remote.postgres.statement g).1

  -- The guild has the system, other guilds have what they had.
  pub record HasSystem (s : ModPkSystem) (rows : List ModPkGuildRow) (t' : Tables) : Type 0 where
    pub shown : Shows s (configured guild t')
    pub others : (g : ℕ) → g ≢ guild → row_of g t'.guild_settings ≡ row_of g rows

  abbrev pub Stores : ModPkSystem → List ModPkGuildRow → Option (Unit {0}) → World G → Type 0
  Stores s rows r w' = ((r ≡ none) × (w'.tables.guild_settings ≡ rows)) ⊎ HasSystem s rows w'.tables

  -- Nothing has changed, or that was agreed.
  abbrev pub Ended : Tables → G → (ModPkSystem → Type 0) → Option (Unit {0}) → World G → Type 0
  Ended t g Q r w' =
      (w'.tables ≡ t) ⊎ (Agreed t g × ((s : ModPkSystem) × (Q s × Stores s t.guild_settings r w')))

  touched :
      (w : World G)
      → Ends
          (λ r w'. w'.tables.guild_settings ≡ w.tables.guild_settings)
          (touch host.remote.postgres guild w)
  unfolding touch
  touched w =
      query-rule (λ r w'. w'.tables.guild_settings ≡ w.tables.guild_settings) _ _ w (λ _. refl)
        (λ now _ _. refl) (λ now a t _ e. ground arith)

  abbrev Updated : ModPkSystem → Tables → Option (Unit {0}) → World G → Type 0
  Updated s t r w' =
      (w'.tables.guild_settings ≡ t.guild_settings)
      × (r ≡ some tt → Shows s (stored s.uuid w'.tables))

  updated :
      (s : ModPkSystem) (w : World G)
      → Ends (Updated s w.tables) (update_system host.remote.postgres s w)
  unfolding update_system
  updated s w =
      query-rule (Updated s w.tables) _ _ w (λ _. (refl, λ e. ground arith))
        (λ now _ _. (refl, λ e. ground arith))
        (λ now a t _ e. (
          ground arith,
          λ _.
              subst (λ xs. Shows s (find (λ x. x.uuid == s.uuid) xs)) (ground arith)
                (upsert-Shows s now w.tables.systems),
        ))

  pub saved-HasSystem :
      (s : ModPkSystem) (t : Tables)
      → Shows s (stored s.uuid t)
      → HasSystem s t.guild_settings
          (record t { guild_settings = saved_rows guild user s.uuid t.guild_settings })
  saved-HasSystem s t h = record {
    shown = subst (Shows s) (sym (configured-saved guild user s.uuid t)) h;
    others = λ g n.
        find-upsert_other (λ x. x.guild_id) guild (reset guild user s.uuid)
          (new_row guild user s.uuid) (λ x. refl) refl g t.guild_settings n;
  }

  saved :
      (s : ModPkSystem) (w : World G)
      → Shows s (stored s.uuid w.tables)
      → Ends
          (Stores s w.tables.guild_settings)
          (save_guild_settings host.remote.postgres guild user s.uuid w)
  unfolding save_guild_settings
  saved s w h =
      query-rule (Stores s w.tables.guild_settings) _ _ w (λ _. inl (refl, refl))
        (λ now _ _. inl (refl, refl))
        (λ now a t _ e. inr (
          subst (HasSystem s w.tables.guild_settings)
            {x = record w.tables {
              guild_settings = saved_rows guild user s.uuid w.tables.guild_settings;
            }}
            (ground arith) (saved-HasSystem s w.tables h)))

  -- The reply changes no table.
  replied :
      (s : ModPkSystem) (w : World G)
      → Shows s (stored s.uuid w.tables)
      → Ends (Stores s w.tables.guild_settings) (save_setup host guild user s w)
  replied s w h =
      bind-rule (Stores s w.tables.guild_settings) (Stores s w.tables.guild_settings)
        (save_guild_settings host.remote.postgres guild user s.uuid) _ w (saved s w h) (λ w' q. q)
        (λ a w' q. elim q [ inl (e, _) ↦ absurd (ground arith) | inr i ↦ inr i ])

  stored_rows :
      (s : ModPkSystem) (w : World G)
      → Ends (Stores s w.tables.guild_settings) (store_system host guild user s w)
  stored_rows s w =
      bind-rule (Updated s w.tables) (Stores s w.tables.guild_settings)
        (update_system host.remote.postgres s) _ w (updated s w) (λ w' q. inl (refl, q.0))
        (λ a w' q.
          subst (λ rows. Ends (Stores s rows) (save_setup host guild user s w')) q.0
            (replied s w' (q.1 refl)))

  store_setup-Ended :
      (g : G) (Q : ModPkSystem → Type 0) (s : ModPkSystem) (agreed : Bool) (w : World G)
      → Q s
      → (agreed ≡ true → Agreed w.tables g)
      → Ends (Ended w.tables g Q) (store_setup host guild user s agreed w)
  store_setup-Ended g Q s false w q h = inl refl
  store_setup-Ended g Q s true w q h =
      bind-rule (λ r w'. w'.tables.guild_settings ≡ w.tables.guild_settings) (Ended w.tables g Q)
        (touch host.remote.postgres guild) _ w (touched w)
        (λ w' e. inr (h refl, (s, (q, inl (refl, e)))))
        (λ a w' e. inr (
          h refl,
          (
            s,
            (
              q,
              (subst (λ rows. Ends (Stores s rows) (store_system host guild user s w')) e
                  (stored_rows s w')),
            ),
          ),
        ))

  -- A system that is there means that the user is asked.
  pub confirm_overwrite-Agreed :
      (t : Tables) (existing : Option ModPkSystem) (w : World G)
      → existing ≡ configured guild t
      → Ends
          (λ r w'. (w'.tables ≡ w.tables) × (r ≡ some true → Agreed t w.outside))
          (confirm_overwrite host existing w)
  confirm_overwrite-Agreed t none w e = (refl, λ _. inl (sym e))
  confirm_overwrite-Agreed t (some s) w e = (refl, λ c. inr (_, (_, c)))

  abbrev Looks : Tables → G → Option (Option ModPkSystem) → World G → Type 0
  Looks t g r w' =
      (w'.tables ≡ t)
      × ((w'.outside ≡ g) × ((o : Option ModPkSystem) → r ≡ some o → o ≡ configured guild t))

  pub get_system_for_guild-Looks :
      (w : World G)
      → Ends (Looks w.tables (looked w.outside)) (get_system_for_guild host.remote.postgres guild w)
  unfolding get_system_for_guild
  get_system_for_guild-Looks w =
      query-rule (Looks w.tables (looked w.outside)) _ _ w
        (λ _. (refl, (refl, λ o e. ground arith))) (λ now _ _. (refl, (refl, λ o e. ground arith)))
        (λ now a t _ e. (ground arith, (refl, λ o f. sym (ground arith))))

  setup_system-Ended :
      (Q : ModPkSystem → Type 0) (r : SystemRef) (answer : SystemAnswer) (w : World G)
      → ((s : ModPkSystem) → answer ≡ system_is s → Q s)
      → Ends (Ended w.tables (looked w.outside) Q) (setup_system host guild user r answer w)
  setup_system-Ended Q r (system_is s) w h =
      bind-rule (Looks w.tables (looked w.outside)) (Ended w.tables (looked w.outside) Q)
        (get_system_for_guild host.remote.postgres guild) _ w (get_system_for_guild-Looks w)
        (λ w' q. inl q.0)
        λ o w₁ q₁.
          bind-rule (λ r w'. (w'.tables ≡ w₁.tables) × (r ≡ some true → Agreed w.tables w₁.outside))
            (Ended w.tables (looked w.outside) Q) (confirm_overwrite host o) _ w₁
            (confirm_overwrite-Agreed w.tables o w₁ (q₁.1.1 o refl)) (λ w' q. inl (q.0 ∙ q₁.0))
            λ agreed w₂ q₂.
              subst
                (λ t. Ends (Ended t (looked w.outside) Q) (store_setup host guild user s agreed w₂))
                (q₂.0 ∙ q₁.0)
                (store_setup-Ended (looked w.outside) Q s agreed w₂ (h s refl) (λ c.
                  subst (λ g. Agreed w₂.tables g) q₁.1.0
                    (subst (λ t. Agreed t w₁.outside) (sym (q₂.0 ∙ q₁.0)) (q₂.1 (ap some c)))))
  setup_system-Ended Q r (system_error code) w h = elim (Bool-cases (code == 20001)) [
    | inl e ↦ rw e (inl refl)
    | inr e ↦ rw e (inl refl)
  ]
  setup_system-Ended Q r system_failed w h = inl refl

  -- What PluralKit is asked for the reference.
  abbrev pub asked : SystemRef → G → SystemAnswer × G
  asked r g = host.remote.get_system (to_string host.remote.refs r) g

  abbrev pub Configures : Text → World G → Option (Unit {0}) → World G → Type 0
  Configures reference w o w' =
      (w'.tables ≡ w.tables)
      ⊎ ((r : SystemRef) × ((from_str host.remote.refs reference ≡ some r)
            × (Agreed w.tables (looked (asked r w.outside).1)
                × ((s : ModPkSystem) × (((asked r w.outside).0 ≡ system_is s)
                      × Stores s w.tables.guild_settings o w')))))

  unread :
      (reference : Text) (w : World G)
      → Ends
          (λ o w'. w'.tables ≡ w.tables)
          ((read_ref host.remote reference none >>= setup_ref host guild user) w)
  unread reference w =
      bind-rule (λ r w'. (w'.tables ≡ w.tables) × ((o : Option SystemRef) → r ≡ some o → o ≡ none))
        (λ o w'. w'.tables ≡ w.tables) (read_ref host.remote reference none)
        (setup_ref host guild user) w
        (bind-rule (λ r w'. w'.tables ≡ w.tables)
          (λ r w'. (w'.tables ≡ w.tables) × ((o : Option SystemRef) → r ≡ some o → o ≡ none))
          (respond host.remote _) (λ _. pure none) w refl (λ w' e. (e, λ o f. ground arith))
          (λ a w' e. (e, λ o f. ground arith)))
        (λ w' q. q.0) (λ o w' q. rw (q.1 o refl) q.0)

  setup_ref-Configures :
      (reference : Text) (o : Option SystemRef) (w : World G)
      → from_str host.remote.refs reference ≡ o
      → Ends
          (Configures reference w)
          ((read_ref host.remote reference o >>= setup_ref host guild user) w)
  unfolding ◌>>=◌
  setup_ref-Configures reference none w e = inl (unread reference w)
  setup_ref-Configures reference (some r) w e =
      elim (setup_system-Ended (λ s. (asked r w.outside).0 ≡ system_is s) r (asked r w.outside).0
        (moved w (asked r w.outside).1) (λ s f. f)) [ inl t ↦ inl t | inr x ↦ inr (r, (e, x)) ]

  -- Whatever is answered, `/pk setup` leaves all tables as they were; or the guild had no system or
  -- the user has confirmed the dialog, and the system that PluralKit answered to the given
  -- reference is stored with its identifiers, name and avatar as the system of the guild, while
  -- other guilds keep theirs, unless it ends with an error and the settings are as they were.
  pub setup-Configures :
      (reference : Text) (w : World G)
      → Ends (Configures reference w) (setup host guild user reference w)
  unfolding setup handle_system_ref
  setup-Configures reference w =
      setup_ref-Configures reference (from_str host.remote.refs reference) w refl
