-- ===== src/Pluralkit/Fronts/Notices.antt =====
-- Telling the guilds that follow a system (crates/tulpje-mod-pluralkit/src/fronters/tasks.rs).
use tulpje.Prelude.{
  ℕ, Option, none, some, List, [], ◌∷◌, ◌++◌, ◌-◌, ltb, if◌then◌else◌, Text, text, decimal, join,
  length, take, map,
}
use tulpje.Pluralkit.Util.{Member, get_member_name}
use tulpje.Pluralkit.Database.Tables.{ModPkSystem}
use tulpje.Pluralkit.Database.Action.{Action, recover, pure, fail, ask, ◌>>=◌, ◌>>◌}
use tulpje.Pluralkit.Database.Notify.{
  get_notify_channel, get_notify_guilds_for_system, delete_notify_channel, delete_notify_systems,
  remove_notify_system_from_guilds,
}
use tulpje.Pluralkit.Fronts.Remote.{
  Remote, EmbedRules, Embed, GuildNotification, switch_embed, not_found_notice, private_notice,
  ChannelAnswer, answered, unknown_channel, channel_failed, take_value,
}
use tulpje.Pluralkit.Fronts.Shared.{Switch}

abbrev pub max_fronters_in_message : ℕ
max_fronters_in_message = 20

-- `name.as_ref().unwrap_or(&id)`.
abbrev pub shown_name : ModPkSystem → Text
shown_name system = elim system.name [ none ↦ system.id | some name ↦ name ]

abbrev pub fronter_line : Member → Text
fronter_line member = text "* " ++ get_member_name member

abbrev pub more_lines : ℕ → List Text
more_lines fronters =
    if ltb max_fronters_in_message fronters
    then (text "-# and " ++ decimal 20 (fronters - max_fronters_in_message) ++ text " more") ∷ []
    else []

unfoldable pub embed_parts : List Member → List Text
embed_parts fronters =
    map fronter_line (take max_fronters_in_message fronters) ++ more_lines (length fronters)

abbrev pub thumbnail : EmbedRules → Option Text → Option Text
thumbnail rules none = none
thumbnail rules (some url) = if rules.image_url url then some url else none

abbrev pub front_embed : EmbedRules → ModPkSystem → Switch → Embed
front_embed rules system switch = record {
  title = text "Switch: " ++ shown_name system;
  thumbnail = thumbnail rules system.avatar;
  description = join (10 ∷ []) (embed_parts switch.fronters);
  timestamp = switch.timestamp;
}

unfoldable pub create_front_change_embed : EmbedRules → ModPkSystem → Switch → Option Embed
create_front_change_embed rules system switch =
    let embed = front_embed rules system switch in
    if rules.in_range switch.timestamp
    then (if rules.validate embed then some embed else none)
    else none

abbrev pub not_found_text : ModPkSystem → Text
not_found_text system =
    text "### System Unfollowed"
    ++ (10 ∷ [])
    ++ text "System `"
    ++ shown_name system
    ++ text "` has been deleted from PluralKit, and has been unfollowed"

abbrev pub private_text : ModPkSystem → Text
private_text system =
    text "### System Unfollowed"
    ++ (10 ∷ [])
    ++ text "Current fronters for `"
    ++ shown_name system
    ++ text "` are private, system unfollowed"

abbrev pub keep_told : ℕ → Option (Unit {0}) → List ℕ → List ℕ
keep_told guild none told = told
keep_told guild (some _) told = guild ∷ told

module _ {G : Type 0} (remote : Remote G) where
  abbrev pub after_message : (guild channel : ℕ) → ChannelAnswer (Unit {0}) → Action G (Unit {0})
  after_message guild channel (answered _) = pure tt
  after_message guild channel unknown_channel = do
    delete_notify_channel remote.postgres channel
    delete_notify_systems remote.postgres guild
    pure tt
  after_message guild channel channel_failed = fail

  abbrev pub tell : (guild : ℕ) → GuildNotification → Option ℕ → Action G (Unit {0})
  tell guild notification none = fail
  tell guild notification (some channel) = do
    answer ← ask (remote.create_message channel notification)
    after_message guild channel answer

  unfoldable pub notify_guild : (guild : ℕ) → GuildNotification → Action G (Unit {0})
  notify_guild guild notification = do
    channel ← get_notify_channel remote.postgres guild
    tell guild notification channel

  -- The guilds that were told without an error.
  unfoldable pub notify_guilds : List ℕ → GuildNotification → Action G (List ℕ)
  notify_guilds [] notification = pure []
  notify_guilds (guild ∷ guilds) notification = do
    result ← recover (notify_guild guild notification)
    told ← notify_guilds guilds notification
    pure (keep_told guild result told)

  unfoldable pub notify_guilds_for_system : ModPkSystem → GuildNotification → Action G (List ℕ)
  notify_guilds_for_system system notification = do
    guilds ← get_notify_guilds_for_system remote.postgres system.uuid
    notify_guilds guilds notification

  abbrev pub unfollow : ModPkSystem → GuildNotification → Action G (Unit {0})
  unfollow system notification = do
    told ← notify_guilds_for_system system notification
    remove_notify_system_from_guilds remote.postgres system.uuid told

  unfoldable pub notify_system_not_found : ModPkSystem → Action G (Unit {0})
  notify_system_not_found system = unfollow system (not_found_notice (not_found_text system))

  unfoldable pub notify_front_private : ModPkSystem → Action G (Unit {0})
  notify_front_private system = unfollow system (private_notice (private_text system))

  unfoldable pub notify_front_change : ModPkSystem → Switch → Action G (Unit {0})
  notify_front_change system switch = do
    embed ← take_value (create_front_change_embed remote.embed_rules system switch)
    notify_guilds_for_system system (switch_embed embed)
    pure tt
