-- ===== src/Pluralkit/Fronts/Recategorised.antt =====
-- When a guild's category changes (crates/tulpje-mod-pluralkit/src/fronters/setup.rs).
use tulpje.Prelude.{
  ℕ, Bool, true, false, Option, none, some, List, ◌≡◌, ◌≢◌, ◌⊎◌, refl, ◌∙◌, ap, sym, subst, arith,
  inl, inr, Text, ◌==◌,
}
use tulpje.Pluralkit.Util.{uuid}
use tulpje.Pluralkit.Database.Tables.{Tables, ModPkSystem, ModPkGuildRow, ModPkFrontersRow}
use tulpje.Pluralkit.Database.Action.{World, Action, Ends, query, ◌>>=◌}
use tulpje.Pluralkit.Database.Rules.{
  Keeps, bind-Keeps, bind-rule, query-rule, query-Keeps, recover-Keeps,
}
use tulpje.Pluralkit.Database.Systems.{find, upsert, get_system, get_guild_settings_for_id}
use tulpje.Pluralkit.Database.Fronters.{
  get_fronter_category, save_fronter_category, update_fronters_timestamp,
}
use tulpje.Pluralkit.Database.Upserts.{changed_row, find-key, find-upsert_same, find-upsert_other}
use tulpje.Pluralkit.Fronts.Remote.{
  Channel, ChannelAnswer, answered, unknown_channel, channel_failed, attempt,
}
use tulpje.Pluralkit.Fronts.Shared.{
  Outcome, done, private, not_found, other, Fronters, get_system_fronters, members_of,
}
use tulpje.Pluralkit.Fronts.Channels.{update_fronter_channels}
use tulpje.Pluralkit.Fronts.Calls.{unmoved, update_fronter_channels-Keeps}
use tulpje.Pluralkit.Fronts.Setup.{
  Host, confirm_named, confirm_channel, confirm_category, make_category, tell_private, setup_front,
  setup_stored, setup_agreed, setup_permitted, setup_configured, setup_fronters,
}

abbrev pub category_of : ℕ → List ModPkFrontersRow → Option ModPkFrontersRow
category_of guild cs = find (λ c. c.guild_id == guild) cs

module _ {G : Type 0} (host : Host G) (guild : ℕ) (title : Text) (configured : List ModPkGuildRow)
    (rows : List ModPkFrontersRow) where
  -- PluralKit answered with this front for the system of the guild's settings.
  abbrev pub IsFront : Option Fronters → Type 0
  IsFront front =
      (settings : ModPkGuildRow) × ((find (λ s. s.guild_id == guild) configured ≡ some settings)
        × ((w : World G) × ((get_system_fronters host.remote settings.system_uuid w).0
              ≡ some (done front))))

  -- The guild's row names a new category, under which the channels were updated.
  pub record IsMade (t : Tables) : Type 0 where
    pub bot : ℕ
    pub front : Option Fronters
    pub category : ℕ
    pub before : G
    pub start : World G
    pub fronting : IsFront front
    pub made : (host.create_category guild bot title before).0 ≡ some category
    pub next : start.outside ≡ (host.create_category guild bot title before).1
    pub filled :
        (update_fronter_channels host.remote guild category (members_of front) start).0 ≡ some tt
    pub found : ModPkFrontersRow
    pub row : category_of guild t.categories ≡ some found
    pub names : found.category_id ≡ category
    pub others : (g : ℕ) → g ≢ guild → category_of g t.categories ≡ category_of g rows

  abbrev recategorised : ℕ → ModPkFrontersRow → ModPkFrontersRow
  recategorised category c = record c { category_id = category }

  abbrev categorised : ℕ → ModPkFrontersRow
  categorised category = record { guild_id = guild; category_id = category }

  abbrev with_category : ℕ → List ModPkFrontersRow → List ModPkFrontersRow
  with_category category cs =
      upsert (λ c. c.guild_id == guild) (recategorised category) (categorised category) cs

  abbrev Same : Tables → Type 0
  Same t = t.categories ≡ rows

  abbrev pub Saves : {A : Type 0} → Option A → World G → Type 0
  Saves r w' = (w'.tables.categories ≡ rows) ⊎ IsMade w'.tables

  record Runs {A : Type 0} (m : Action G A) : Type 0 where
    runs : (w : World G) → Same w.tables → Ends Saves (m w)

  bind-Runs :
      {A B : Type 0} {m : Action G A} {f : A → Action G B}
      → Keeps Same m
      → ((a : A) → Runs (f a))
      → Runs (m >>= f)
  bind-Runs {A} {B} {m} {f} h k = record {
    runs = λ w i.
        bind-rule (λ r w'. Same w'.tables) Saves m f w (h.keeps w i) (λ w' i. inl i)
          (λ a w' i. (k a).runs w' i);
  }

  keeps-Runs : {A : Type 0} {m : Action G A} → Keeps Same m → Runs m
  keeps-Runs h = record { runs = λ w i. inl (h.keeps w i) }

  query-Same :
      {A : Type 0} {run : ℕ → Tables → Option (A × Tables)}
      → ((now : ℕ) (t : Tables) (a : A) (t' : Tables)
          → run now t ≡ some (a, t')
          → t'.categories ≡ t.categories)
      → Keeps Same (query host.remote.postgres run)
  query-Same h = query-Keeps host.remote.postgres (λ now t a t' e i. h now t a t' e ∙ i)

  abbrev asks :
      {A : Type 0} {m : Action G A} → ((w : World G) → (m w).1.tables ≡ w.tables) → Keeps Same m
  asks h = unmoved host.remote Same h

  tell_private-Same : (system : ℕ) (name : Text) → Keeps Same (tell_private host system name)
  unfolding update_fronters_timestamp
  tell_private-Same system name = bind-Keeps (asks (λ w. refl)) λ _.
      bind-Keeps (recover-Keeps (query-Same (λ now t a t' e. ground arith))) (λ _. asks (λ w. refl))

  confirm_named-Same : (name : Option Text) → Keeps Same (confirm_named host name)
  confirm_named-Same none = asks (λ w. refl)
  confirm_named-Same (some name) = asks (λ w. refl)

  confirm_channel-Same : (answer : ChannelAnswer Channel) → Keeps Same (confirm_channel host answer)
  confirm_channel-Same (answered c) = confirm_named-Same c.name
  confirm_channel-Same unknown_channel = asks (λ w. refl)
  confirm_channel-Same channel_failed = asks (λ w. refl)

  confirm_category-Same : (o : Option ℕ) → Keeps Same (confirm_category host o)
  confirm_category-Same none = asks (λ w. refl)
  confirm_category-Same (some c) = bind-Keeps (asks (λ w. refl)) confirm_channel-Same

  changed_category :
      (category : ℕ) (o : Option ModPkFrontersRow)
      → (changed_row (recategorised category) (categorised category) o).category_id ≡ category
  changed_category category none = refl
  changed_category category (some c) = refl

  make_category-Runs :
      (bot : ℕ) (front : Option Fronters)
      → IsFront front
      → Runs (make_category host guild bot title front)
  unfolding save_fronter_category
  make_category-Runs bot front h = record {
    runs = λ w i.
        bind-rule
          (λ r w'.
            Same w'.tables
            × ((w'.outside ≡ (host.create_category guild bot title w.outside).1)
                × (r ≡ (host.create_category guild bot title w.outside).0)))
          Saves (attempt (host.create_category guild bot title)) _ w (i, (refl, refl))
          (λ w' q. inl q.0)
          λ category w₁ q₁.
            bind-rule
              (λ r w'.
                Same w'.tables
                × (r
                    ≡ (update_fronter_channels host.remote guild category (members_of front) w₁).0))
              Saves (update_fronter_channels host.remote guild category (members_of front)) _ w₁
              (
                (update_fronter_channels-Keeps host.remote Same guild category
                      (members_of front)).keeps
                    w₁ q₁.0,
                refl,
              )
              (λ w' q. inl q.0)
              λ a w₂ q₂.
                bind-rule Saves Saves (save_fronter_category host.remote.postgres guild category) _
                  w₂
                  (query-rule Saves _ _ w₂ (λ _. inl q₂.0) (λ now _ _. inl q₂.0)
                    λ now b t _ e. inr (
                      subst IsMade
                        {x = record w₂.tables {
                          categories = with_category category w₂.tables.categories;
                        }}
                        {y = t} (ground arith)
                        (record {
                          bot = bot;
                          front = front;
                          category = category;
                          before = w.outside;
                          start = w₁;
                          fronting = h;
                          made = sym q₁.1.1;
                          next = q₁.1.0;
                          filled = sym q₂.1;
                          found =
                              changed_row (recategorised category) (categorised category)
                                (category_of guild w₂.tables.categories);
                          row =
                              find-upsert_same (λ (c : ModPkFrontersRow). c.guild_id) guild
                                (recategorised category) (categorised category) (λ x. refl) refl
                                w₂.tables.categories;
                          names =
                              changed_category category (category_of guild w₂.tables.categories);
                          others = λ g n.
                              find-upsert_other (λ (c : ModPkFrontersRow). c.guild_id) guild
                                (recategorised category) (categorised category) (λ x. refl) refl g
                                w₂.tables.categories n
                              ∙ rw q₂.0 refl;
                        })))
                  (λ w' q. q) (λ b w' q. q);
  }

  setup_front-Runs :
      (bot : ℕ) (system : ModPkSystem) (o : Outcome (Option Fronters))
      → ((front : Option Fronters) → o ≡ done front → IsFront front)
      → Runs (setup_front host guild bot title system o)
  setup_front-Runs bot system (done front) h = make_category-Runs bot front (h front refl)
  setup_front-Runs bot system private h = keeps-Runs (tell_private-Same _ _)
  setup_front-Runs bot system not_found h = keeps-Runs (asks (λ w. refl))
  setup_front-Runs bot system other h = keeps-Runs (asks (λ w. refl))

  module _ (bot : ℕ) (settings : ModPkGuildRow)
      (h : find (λ s. s.guild_id == guild) configured ≡ some settings) where
    get_system_fronters-Same : (u : ℕ) → Keeps Same (get_system_fronters host.remote u)
    unfolding get_system_fronters
    get_system_fronters-Same u = bind-Keeps (asks (λ w. refl)) (λ _. asks (λ w. refl))

    setup_stored-Runs :
        (o : Option ModPkSystem)
        → ((s : ModPkSystem) → o ≡ some s → s.uuid ≡ settings.system_uuid)
        → Runs (setup_stored host guild bot title o)
    setup_stored-Runs none k = keeps-Runs (asks (λ w. refl))
    setup_stored-Runs (some s) k = record {
      runs = λ w i.
          bind-rule (λ r w'. Same w'.tables × (r ≡ (get_system_fronters host.remote s.uuid w).0))
            Saves (get_system_fronters host.remote s.uuid) _ w
            ((get_system_fronters-Same s.uuid).keeps w i, refl) (λ w' q. inl q.0)
            (λ o w' q.
              (setup_front-Runs bot s o (λ front e. (
                settings,
                (
                  h,
                  (
                    w,
                    subst (λ u. (get_system_fronters host.remote u w).0 ≡ some (done front))
                        (k s refl) (sym q.1 ∙ ap some e),
                  ),
                ),
              ))).runs
                w' q.0);
    }

    setup_agreed-Runs : (b : Bool) → Runs (setup_agreed host guild bot title settings b)
    unfolding get_system
    setup_agreed-Runs false = keeps-Runs (asks (λ w. refl))
    setup_agreed-Runs true = record {
      runs = λ w i.
          let Q = λ (r : Option (Option ModPkSystem)) (w' : World G).
            Same w'.tables
            × ((o : Option ModPkSystem) (s : ModPkSystem)
                → r ≡ some o
                → o ≡ some s
                → s.uuid ≡ settings.system_uuid) in
          bind-rule Q Saves (get_system host.remote.postgres (uuid settings.system_uuid)) _ w
            (query-rule Q _ _ w (λ _. (i, λ o s e f. absurd (ground arith)))
              (λ now _ _. (i, λ o s e f. absurd (ground arith)))
              (λ now a t _ e. (
                subst Same {x = w.tables} {y = t} (ground arith) i,
                λ o s f g.
                    find-key (λ (s : ModPkSystem). s.uuid) settings.system_uuid w.tables.systems s
                      (ground arith),
              )))
            (λ w' q. inl q.0) (λ o w' q. (setup_stored-Runs o (λ s e. q.1 o s refl e)).runs w' q.0);
    }

    setup_permitted-Runs : (b : Bool) → Runs (setup_permitted host guild bot title settings b)
    unfolding get_fronter_category
    setup_permitted-Runs false = keeps-Runs (asks (λ w. refl))
    setup_permitted-Runs true =
        bind-Runs (query-Same (λ now t a t' e. ground arith))
          λ o. bind-Runs (confirm_category-Same o) setup_agreed-Runs

  setup_configured-Runs :
      (o : Option ModPkGuildRow)
      → ((settings : ModPkGuildRow)
          → o ≡ some settings
          → find (λ s. s.guild_id == guild) configured ≡ some settings)
      → Runs (setup_configured host guild title o)
  setup_configured-Runs none h = keeps-Runs (asks (λ w. refl))
  setup_configured-Runs (some settings) h =
      bind-Runs (asks (λ w. refl))
        λ bot. bind-Runs (asks (λ w. refl)) (setup_permitted-Runs bot settings (h settings refl))

-- Whatever is answered, `/pk fronters setup` leaves the table of categories as it was; or it
-- gives the guild a category of the given title that was created by then, under which the
-- channels had been updated, without an error, for a front that PluralKit answered for the
-- system of the guild. Other guilds keep their categories.
pub setup_fronters-Saves :
    {G : Type 0} (host : Host G) (guild : ℕ) (title : Text) (w : World G)
    → Ends
        (Saves host guild title w.tables.guild_settings w.tables.categories)
        (setup_fronters host guild title w)
unfolding setup_fronters get_guild_settings_for_id
setup_fronters-Saves {G} host guild title w =
    let t = w.tables in
    let Q = λ (r : Option (Option ModPkGuildRow)) (w' : World G).
      (w'.tables.categories ≡ t.categories)
      × ((o : Option ModPkGuildRow)
          → r ≡ some o
          → o ≡ find (λ s. s.guild_id == guild) t.guild_settings) in
    bind-rule Q (Saves host guild title t.guild_settings t.categories)
      (get_guild_settings_for_id host.remote.postgres guild) _ w
      (query-rule Q _ _ w (λ _. (refl, λ o e. absurd (ground arith)))
        (λ now _ _. (refl, λ o e. absurd (ground arith)))
        (λ now a t' _ e. (ground arith, λ o f. sym (ground arith))))
      (λ w' q. inl q.0)
      (λ o w' q.
        (setup_configured-Runs host guild title t.guild_settings t.categories o
            (λ s e. sym (q.1 o refl) ∙ e)).runs
          w' q.0)
