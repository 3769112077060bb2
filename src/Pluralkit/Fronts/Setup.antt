-- ===== src/Pluralkit/Fronts/Setup.antt =====
-- The commands that configure a guild (crates/tulpje-mod-pluralkit/src/commands/setup.rs,
-- fronters/setup.rs, fronters/update.rs), each after its response is deferred.
use tulpje.Prelude.{
  ℕ, Bool, true, false, Option, none, some, ◌∷◌, [], ◌++◌, ◌==◌, if◌then◌else◌, Text, text,
}
use tulpje.Pluralkit.Util.{SystemRef, uuid, to_string}
use tulpje.Pluralkit.Database.Tables.{ModPkSystem, ModPkGuildRow}
use tulpje.Pluralkit.Database.Action.{Action, pure, fail, ask, recover, ◌>>=◌, ◌>>◌}
use tulpje.Pluralkit.Database.Systems.{
  get_system, get_system_for_guild, get_guild_settings_for_id, update_system, save_guild_settings,
}
use tulpje.Pluralkit.Database.Fronters.{
  get_fronter_category, save_fronter_category, update_fronters, update_fronters_timestamp,
}
use tulpje.Pluralkit.Database.Notify.{touch}
use tulpje.Pluralkit.Fronts.Remote.{
  Remote, Channel, ChannelAnswer, answered, unknown_channel, channel_failed, SystemAnswer,
  system_is, system_error, system_failed, attempt, take_value,
}
use tulpje.Pluralkit.Fronts.Shared.{
  Outcome, done, private, not_found, other, Fronters, get_system_fronters, members_of, uuids,
}
use tulpje.Pluralkit.Fronts.Channels.{update_fronter_channels}
use tulpje.Pluralkit.Fronts.Notices.{shown_name}
use tulpje.Pluralkit.Fronts.Follow.{handle_system_ref, respond}

-- What the user and Discord answer while a command runs; `none` is an error.
pub record Host (G : Type 0) : Type 0 where
  pub remote : Remote G
  -- A confirmation dialog, by its two texts.
  pub confirm : (prompt denied : Text) → G → Option Bool × G
  pub current_user : G → Option ℕ × G
  -- Whether the user may manage, see and join channels; if not, that has been said.
  pub handle_permissions : (guild user : ℕ) → G → Option Bool × G
  -- A category that nobody but the bot may join.
  pub create_category : (guild bot : ℕ) (title : Text) → G → Option ℕ × G

abbrev newline : Text
newline = 10 ∷ []

abbrev not_set_up : Text
not_set_up = text "PluralKit module not set-up, please run `/pk setup`"

abbrev private_text : Text → Text
private_text name =
    text "Fronters for system `"
    ++ name
    ++ text "` are private, please set them to public to use the fronter category"

abbrev success_name : ModPkSystem → Text
success_name system = elim system.name [
  | none ↦ text "`" ++ system.id ++ text "`"
  | some name ↦ name ++ text " (`" ++ system.id ++ text "`)"
]

module _ {G : Type 0} (host : Host G) where
  abbrev pub confirm_overwrite : Option ModPkSystem → Action G Bool
  confirm_overwrite none = pure true
  confirm_overwrite (some system) = attempt (
      host.confirm
        (text "### Warning"
          ++ newline
          ++ text "This server is already configured for `"
          ++ shown_name system
          ++ text "`"
          ++ newline
          ++ text "Overwrite?")
        (text "### Canceled"
          ++ newline
          ++ text "Setup canceled, keeping `"
          ++ shown_name system
          ++ text "` as configured system for this server"))

  abbrev pub save_setup : (guild user : ℕ) → ModPkSystem → Action G (Unit {0})
  save_setup guild user system = do
    save_guild_settings host.remote.postgres guild user system.uuid
    respond host.remote
        (text "### Success" ++ newline ++ text "PluralKit module setup for " ++ success_name system)

  abbrev pub store_system : (guild user : ℕ) → ModPkSystem → Action G (Unit {0})
  store_system guild user system = do
    update_system host.remote.postgres system
    save_setup guild user system

  abbrev pub store_setup : (guild user : ℕ) → ModPkSystem → Bool → Action G (Unit {0})
  store_setup guild user system false = pure tt
  store_setup guild user system true = do
    touch host.remote.postgres guild
    store_system guild user system

  abbrev pub setup_system : (guild user : ℕ) → SystemRef → SystemAnswer → Action G (Unit {0})
  setup_system guild user r (system_is system) = do
    existing ← get_system_for_guild host.remote.postgres guild
    agreed ← confirm_overwrite existing
    store_setup guild user system agreed
  setup_system guild user r (system_error code) =
      if code == 20001
      then respond host.remote (
          text "### Error"
          ++ newline
          ++ text "Couldn't find system `"
          ++ to_string host.remote.refs r
          ++ text "`")
      else fail
  setup_system guild user r system_failed = fail

  abbrev pub setup_ref : (guild user : ℕ) → Option SystemRef → Action G (Unit {0})
  setup_ref guild user none = pure tt
  setup_ref guild user (some r) = do
    answer ← ask (host.remote.get_system (to_string host.remote.refs r))
    setup_system guild user r answer

  -- `handle` of commands/setup.rs.
  unfoldable pub setup : (guild user : ℕ) → Text → Action G (Unit {0})
  setup guild user reference = do
    r ← handle_system_ref host.remote reference
    setup_ref guild user r

  abbrev pub confirm_named : Option Text → Action G Bool
  confirm_named none = pure true
  confirm_named (some name) = attempt (
      host.confirm
        (text "### Warning"
          ++ newline
          ++ text "Tulpje already shows fronters under `"
          ++ name
          ++ text "`, are you sure you want to create a new fronter category?")
        (text "### Canceled"
          ++ newline
          ++ text "Setup canceled, keeping `"
          ++ name
          ++ text "` as fronter category this server"))

  -- A channel that Discord does not show is replaced without a question.
  abbrev pub confirm_channel : ChannelAnswer Channel → Action G Bool
  confirm_channel (answered channel) = confirm_named channel.name
  confirm_channel unknown_channel = pure true
  confirm_channel channel_failed = pure true

  abbrev pub confirm_category : Option ℕ → Action G Bool
  confirm_category none = pure true
  confirm_category (some category) = do
    answer ← ask (host.remote.get_channel category)
    confirm_channel answer

  -- The category is stored after its channels are made.
  abbrev pub make_category : (guild bot : ℕ) → Text → Option Fronters → Action G (Unit {0})
  make_category guild bot title fronters = do
    category ← attempt (host.create_category guild bot title)
    update_fronter_channels host.remote guild category (members_of fronters)
    save_fronter_category host.remote.postgres guild category
    respond host.remote (text "Fronter category succesfully set-up!")

  -- The error of postgres is logged.
  abbrev pub tell_private : ℕ → Text → Action G (Unit {0})
  tell_private system name = do
    respond host.remote (private_text name)
    recover (update_fronters_timestamp host.remote.postgres system)
    pure tt

  abbrev pub setup_front :
      (guild bot : ℕ) → Text → ModPkSystem → Outcome (Option Fronters) → Action G (Unit {0})
  setup_front guild bot title system (done fronters) = make_category guild bot title fronters
  setup_front guild bot title system private = tell_private system.uuid (shown_name system)
  setup_front guild bot title system not_found = fail
  setup_front guild bot title system other = fail

  abbrev pub setup_stored : (guild bot : ℕ) → Text → Option ModPkSystem → Action G (Unit {0})
  setup_stored guild bot title none = fail
  setup_stored guild bot title (some system) = do
    fronters ← get_system_fronters host.remote system.uuid
    setup_front guild bot title system fronters

  abbrev pub setup_agreed : (guild bot : ℕ) → Text → ModPkGuildRow → Bool → Action G (Unit {0})
  setup_agreed guild bot title settings false = pure tt
  setup_agreed guild bot title settings true = do
    system ← get_system host.remote.postgres (uuid settings.system_uuid)
    setup_stored guild bot title system

  abbrev pub setup_permitted : (guild bot : ℕ) → Text → ModPkGuildRow → Bool → Action G (Unit {0})
  setup_permitted guild bot title settings false = pure tt
  setup_permitted guild bot title settings true = do
    existing ← get_fronter_category host.remote.postgres guild
    agreed ← confirm_category existing
    setup_agreed guild bot title settings agreed

  abbrev pub setup_configured : (guild : ℕ) → Text → Option ModPkGuildRow → Action G (Unit {0})
  setup_configured guild title none = respond host.remote not_set_up
  setup_configured guild title (some settings) = do
    bot ← attempt host.current_user
    permitted ← attempt (host.handle_permissions guild bot)
    setup_permitted guild bot title settings permitted

  -- `handle` of fronters/setup.rs.
  unfoldable pub setup_fronters : (guild : ℕ) → Text → Action G (Unit {0})
  setup_fronters guild title = do
    settings ← get_guild_settings_for_id host.remote.postgres guild
    setup_configured guild title settings

  -- The error of postgres is logged here too.
  abbrev pub update_front :
      (guild category system : ℕ) → Text → Outcome (Option Fronters) → Action G (Unit {0})
  update_front guild category system name (done fronters) = do
    update_fronter_channels host.remote guild category (members_of fronters)
    now ← ask host.remote.utc_now
    recover (update_fronters host.remote.postgres now system (uuids fronters))
    respond host.remote (text "Fronter category updated!")
  update_front guild category system name private = tell_private system name
  update_front guild category system name not_found = fail
  update_front guild category system name other = fail

  abbrev pub stored_name : ℕ → Option ModPkSystem → Text
  stored_name system none = host.remote.refs.print_uuid system
  stored_name system (some stored) = shown_name stored

  abbrev pub update_shown : (guild system : ℕ) → ChannelAnswer Channel → Action G (Unit {0})
  update_shown guild system (answered channel) = do
    take_value channel.guild_id
    stored ← get_system host.remote.postgres (uuid system)
    fronters ← get_system_fronters host.remote system
    update_front guild channel.id system (stored_name system stored) fronters
  update_shown guild system unknown_channel = respond host.remote (
      text "### Error"
      ++ newline
      ++ text "Tulpje can't find the fronter channel,did you delete it?"
      ++ newline
      ++ newline
      ++ text "If this was unintentional please run `/pk fronters setup` again "
      ++ text "and create a new category")
  update_shown guild system channel_failed = fail

  abbrev pub update_found : (guild system : ℕ) → Option ℕ → Action G (Unit {0})
  update_found guild system none =
      respond host.remote (text "Fronter category not set-up, please run `/pk fronters setup`")
  update_found guild system (some category) = do
    answer ← ask (host.remote.get_channel category)
    update_shown guild system answer

  abbrev pub update_configured : (guild : ℕ) → Option ModPkGuildRow → Action G (Unit {0})
  update_configured guild none = respond host.remote not_set_up
  update_configured guild (some settings) = do
    category ← get_fronter_category host.remote.postgres guild
    update_found guild settings.system_uuid category

  -- `handle` of fronters/update.rs.
  unfoldable pub refresh_category : (guild : ℕ) → Action G (Unit {0})
  refresh_category guild = do
    settings ← get_guild_settings_for_id host.remote.postgres guild
    update_configured guild settings
