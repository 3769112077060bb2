-- ===== src/Pluralkit/Fronts/Follow.antt =====
-- The commands that follow and unfollow a system (crates/tulpje-mod-pluralkit/src/notify/add.rs,
-- remove.rs, list.rs, shared.rs, util.rs).
use tulpje.Prelude.{
  [], ◌∷◌, ℕ, Bool, true, false, Option, none, some, List, ◌++◌, leb, ◌==◌, if◌then◌else◌, Text,
  text,
}
use tulpje.Pluralkit.Util.{SystemRef, discord_id, uuid, id, from_str, to_string}
use tulpje.Pluralkit.Database.Tables.{ModPkSystem}
use tulpje.Pluralkit.Database.Action.{Action, pure, fail, ask, ◌>>=◌, ◌>>◌}
use tulpje.Pluralkit.Database.Systems.{get_system, get_systems, update_system}
use tulpje.Pluralkit.Database.Notify.{
  get_notify_channel, does_guild_follow, get_guild_follow_count, add_notify_system,
  remove_notify_system, get_notify_systems,
}
use tulpje.Pluralkit.Fronts.Remote.{
  Remote, FrontAnswer, front_is, front_error, front_failed, SystemAnswer, system_is, system_error,
  system_failed, must,
}
use tulpje.Pluralkit.Fronts.Notices.{shown_name}

abbrev pub max_follow_count : ℕ
max_follow_count = 50

module _ {G : Type 0} (remote : Remote G) where
  abbrev pub respond : Text → Action G (Unit {0})
  respond message = must (remote.respond message)

  abbrev pub read_ref : Text → Option SystemRef → Action G (Option SystemRef)
  read_ref reference (some r) = pure (some r)
  read_ref reference none = do
    respond (
        text "Invalid system reference `"
        ++ reference
        ++ text "`, are you sure you entered it correctly?")
    pure none

  -- `none` when the user has been told that the reference cannot be read.
  unfoldable pub handle_system_ref : Text → Action G (Option SystemRef)
  handle_system_ref reference = read_ref reference (from_str remote.refs reference)

  -- A system that PluralKit does not know may be in the database still.
  abbrev pub look_up : SystemRef → Action G (Option ModPkSystem)
  look_up (id short) = get_system remote.postgres (id short)
  look_up (uuid u) = get_system remote.postgres (uuid u)
  look_up (discord_id user) = fail

  abbrev pub resolve : SystemRef → SystemAnswer → Action G (Option ModPkSystem)
  resolve r (system_is system) = pure (some system)
  resolve r (system_error code) = if code == 20001 then look_up r else fail
  resolve r system_failed = fail

  unfoldable pub resolve_system_from_reference : SystemRef → Action G (Option ModPkSystem)
  resolve_system_from_reference r = do
    answer ← ask (remote.get_system (to_string remote.refs r))
    resolve r answer

  abbrev pub check_front : Text → FrontAnswer → Action G Bool
  check_front message (front_is front) = pure false
  check_front message (front_error code) =
      if code == 30004 then (do respond message; pure true) else fail
  check_front message front_failed = fail

  -- Whether the front is private, and then the user has been told.
  unfoldable pub handle_private_front : SystemRef → Text → Action G Bool
  handle_private_front r message = do
    answer ← ask (remote.get_system_fronters (to_string remote.refs r))
    check_front message answer

  abbrev pub no_channel_text : Text
  no_channel_text = text "Notification channel not set-up please run `/pk notify setup` first"

  abbrev pub respond_missing : SystemRef → Action G (Unit {0})
  respond_missing r = respond (
      text "Couldn't find system `"
      ++ to_string remote.refs r
      ++ text "`, are you sure you're following them and that you spelled it correctly?")

  abbrev pub store_follow : (guild : ℕ) → ModPkSystem → Bool → Action G (Unit {0})
  store_follow guild system true = pure tt
  store_follow guild system false = do
    update_system remote.postgres system
    add_notify_system remote.postgres guild system.uuid
    respond (text "`" ++ shown_name system ++ text "` added to notification list")

  abbrev pub add_under_limit : (guild : ℕ) → SystemRef → ModPkSystem → Bool → Action G (Unit {0})
  add_under_limit guild r system true = respond (
      text "### Error"
      ++ (10 ∷ [])
      ++ text "You've hit the follow limit of 50 please consider unfollowing some systems")
  add_under_limit guild r system false = do
    front_hidden ←
        handle_private_front r
          (text "Front for system `" ++ shown_name system ++ text "` is private")
    store_follow guild system front_hidden

  abbrev pub add_new : (guild : ℕ) → SystemRef → ModPkSystem → Bool → Action G (Unit {0})
  add_new guild r system true =
      respond (text "You're already following `" ++ shown_name system ++ text "`")
  add_new guild r system false = do
    count ← get_guild_follow_count remote.postgres guild
    add_under_limit guild r system (leb max_follow_count count)

  abbrev pub add_system : (guild : ℕ) → SystemRef → Option ModPkSystem → Action G (Unit {0})
  add_system guild r none = respond_missing r
  add_system guild r (some system) = do
    follows ← does_guild_follow remote.postgres guild system.uuid
    add_new guild r system follows

  abbrev pub add_ref : (guild : ℕ) → Option SystemRef → Action G (Unit {0})
  add_ref guild none = pure tt
  add_ref guild (some r) = do system ← resolve_system_from_reference r; add_system guild r system

  abbrev pub add_with : (guild : ℕ) → Text → Option ℕ → Action G (Unit {0})
  add_with guild reference none = respond no_channel_text
  add_with guild reference (some channel) = do r ← handle_system_ref reference; add_ref guild r

  -- `handle` of add.rs, after the command's response is deferred.
  unfoldable pub add : (guild : ℕ) → Text → Action G (Unit {0})
  add guild reference = do
    channel ← get_notify_channel remote.postgres guild
    add_with guild reference channel

  abbrev pub remove_known : (guild : ℕ) → ModPkSystem → Bool → Action G (Unit {0})
  remove_known guild system false =
      respond (text "You don't follow `" ++ shown_name system ++ text "`")
  remove_known guild system true = do
    remove_notify_system remote.postgres guild system.uuid
    respond (shown_name system ++ text " removed from notification list")

  abbrev pub remove_found : (guild : ℕ) → SystemRef → Option ModPkSystem → Action G (Unit {0})
  remove_found guild r none = respond_missing r
  remove_found guild r (some system) = do
    update_system remote.postgres system
    follows ← does_guild_follow remote.postgres guild system.uuid
    remove_known guild system follows

  abbrev pub remove_ref : (guild : ℕ) → Option SystemRef → Action G (Unit {0})
  remove_ref guild none = pure tt
  remove_ref guild (some r) = do
    system ← resolve_system_from_reference r
    remove_found guild r system

  abbrev pub remove_with : (guild : ℕ) → Text → Option ℕ → Action G (Unit {0})
  remove_with guild reference none = respond no_channel_text
  remove_with guild reference (some channel) = do
    r ← handle_system_ref reference
    remove_ref guild r

  -- `handle` of remove.rs, after the command's response is deferred.
  unfoldable pub remove : (guild : ℕ) → Text → Action G (Unit {0})
  remove guild reference = do
    channel ← get_notify_channel remote.postgres guild
    remove_with guild reference channel

  -- The systems that list.rs shows.
  unfoldable pub followed_systems : (guild : ℕ) → Action G (List ModPkSystem)
  followed_systems guild = do
    uuids ← get_notify_systems remote.postgres guild
    get_systems remote.postgres uuids
