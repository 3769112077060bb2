-- ===== src/Pluralkit/Fronts/Dropped.antt =====
-- The services and the unfollow command only delete follows
-- (crates/tulpje-mod-pluralkit/src/fronters/tasks.rs, notify/remove.rs, front_update_service.rs).
use tulpje.Prelude.{
  ℕ, Bool, true, false, not, ◌&&◌, Option, none, some, List, [], ◌∷◌, refl, subst, arith, Text, any,
  filter, ◌==◌,
}
use tulpje.Pluralkit.Util.{SystemRef}
use tulpje.Pluralkit.Database.Tables.{ModPkSystem, NotifySystemRow}
use tulpje.Pluralkit.Database.Action.{Action}
use tulpje.Pluralkit.Database.Rules.{bind-Keeps, query-Keeps, recover-Keeps, recover_error-Keeps}
use tulpje.Pluralkit.Database.Fronters.{
  get_fronter_categories_for_system, get_tracked_system_count, get_system_count,
  get_systems_to_update,
}
use tulpje.Pluralkit.Database.Notify.{
  is_follow, delete_notify_channel, delete_notify_systems, get_notify_guilds_for_system,
  remove_notify_system_from_guilds, remove_notify_system,
}
use tulpje.Pluralkit.Fronts.Remote.{
  Remote, ChannelAnswer, answered, unknown_channel, channel_failed, GuildNotification,
}
use tulpje.Pluralkit.Fronts.Shared.{
  Outcome, done, private, not_found, other, FrontChange, unchanged, changed, update_system_fronters,
}
use tulpje.Pluralkit.Fronts.Notices.{
  notify_guild, tell, after_message, notify_guilds, notify_guilds_for_system, unfollow,
  notify_system_not_found, notify_front_private, notify_front_change,
}
use tulpje.Pluralkit.Fronts.Tasks.{update_fronter_categories, act, process_system}
use tulpje.Pluralkit.Fronts.Services.{process_fronts, front_tick}
use tulpje.Pluralkit.Fronts.Follow.{remove_known, remove_found, remove_ref, remove_with, remove}
use tulpje.Pluralkit.Fronts.Kept.{
  KeepsI, still, query-KeepsI, update_system-KeepsI, resolve_system_from_reference-KeepsI,
  handle_system_ref-KeepsI, get_notify_channel-KeepsI, does_guild_follow-KeepsI,
  update_categories-KeepsI, record_front-KeepsI,
}

module _ {G : Type 0} (remote : Remote G) (I : List NotifySystemRow → Type 0)
    (shrinks : (p : NotifySystemRow → Bool) (fs : List NotifySystemRow)
      → I fs
      → I (filter p fs)) where
  abbrev Kept : {A : Type 0} → Action G A → Type 0
  Kept m = KeepsI remote I m

  remove_notify_system-Kept :
      (guild system : ℕ) → Kept (remove_notify_system remote.postgres guild system)
  unfolding remove_notify_system
  remove_notify_system-Kept guild system = query-Keeps remote.postgres (λ now t a t' e i.
      subst I (ground arith) (shrinks (λ f. not (is_follow guild system f)) t.follows i))

  delete_notify_systems-Kept : (guild : ℕ) → Kept (delete_notify_systems remote.postgres guild)
  unfolding delete_notify_systems
  delete_notify_systems-Kept guild = query-Keeps remote.postgres (λ now t a t' e i.
      subst I (ground arith) (shrinks (λ f. not (f.guild_id == guild)) t.follows i))

  remove_notify_system_from_guilds-Kept :
      (system : ℕ) (guilds : List ℕ)
      → Kept (remove_notify_system_from_guilds remote.postgres system guilds)
  unfolding remove_notify_system_from_guilds
  remove_notify_system_from_guilds-Kept system guilds =
      query-Keeps remote.postgres (λ now t a t' e i. subst I (ground arith) (
        shrinks (λ f. not (f.system_uuid == system && any (λ g. f.guild_id == g) guilds)) t.follows
          i))

  after_message-Kept :
      (guild channel : ℕ) (answer : ChannelAnswer (Unit {0}))
      → Kept (after_message remote guild channel answer)
  unfolding delete_notify_channel
  after_message-Kept guild channel (answered _) = still remote I (λ w. refl)
  after_message-Kept guild channel unknown_channel =
      bind-Keeps (query-KeepsI remote I (λ now t a t' e. ground arith))
        λ _. bind-Keeps (delete_notify_systems-Kept guild) (λ _. still remote I (λ w. refl))
  after_message-Kept guild channel channel_failed = still remote I (λ w. refl)

  tell-Kept : (guild : ℕ) (n : GuildNotification) (c : Option ℕ) → Kept (tell remote guild n c)
  tell-Kept guild n none = still remote I (λ w. refl)
  tell-Kept guild n (some channel) =
      bind-Keeps (still remote I (λ w. refl)) (after_message-Kept guild channel)

  notify_guilds-Kept :
      (guilds : List ℕ) (n : GuildNotification) → Kept (notify_guilds remote guilds n)
  unfolding notify_guilds notify_guild
  notify_guilds-Kept [] n = still remote I (λ w. refl)
  notify_guilds-Kept (guild ∷ guilds) n =
      bind-Keeps
        (recover-Keeps (bind-Keeps (get_notify_channel-KeepsI remote I guild) (tell-Kept guild n)))
        λ _. bind-Keeps (notify_guilds-Kept guilds n) (λ _. still remote I (λ w. refl))

  notify_guilds_for_system-Kept :
      (system : ModPkSystem) (n : GuildNotification)
      → Kept (notify_guilds_for_system remote system n)
  unfolding notify_guilds_for_system get_notify_guilds_for_system
  notify_guilds_for_system-Kept system n =
      bind-Keeps (query-KeepsI remote I (λ now t a t' e. ground arith))
        (λ guilds. notify_guilds-Kept guilds n)

  unfollow-Kept : (system : ModPkSystem) (n : GuildNotification) → Kept (unfollow remote system n)
  unfollow-Kept system n =
      bind-Keeps (notify_guilds_for_system-Kept system n)
        (remove_notify_system_from_guilds-Kept system.uuid)

  act-Kept : (system : ModPkSystem) (o : Outcome FrontChange) → Kept (act remote system o)
  unfolding notify_system_not_found notify_front_private notify_front_change
      update_fronter_categories get_fronter_categories_for_system
  act-Kept system (done (changed switch)) =
      bind-Keeps
        (bind-Keeps (query-KeepsI remote I (λ now t a t' e. ground arith))
          (λ cs. update_categories-KeepsI remote I cs switch))
        λ _. bind-Keeps (still remote I (λ w. refl)) λ embed.
          bind-Keeps (notify_guilds_for_system-Kept system _) (λ _. still remote I (λ w. refl))
  act-Kept system (done unchanged) = still remote I (λ w. refl)
  act-Kept system private = unfollow-Kept system _
  act-Kept system not_found = unfollow-Kept system _
  act-Kept system other = still remote I (λ w. refl)

  process_fronts-Kept : (systems : List ModPkSystem) → Kept (process_fronts remote systems)
  unfolding process_fronts process_system update_system_fronters
  process_fronts-Kept [] = still remote I (λ w. refl)
  process_fronts-Kept (s ∷ systems) =
      bind-Keeps
        (recover_error-Keeps (
          bind-Keeps
            (bind-Keeps (bind-Keeps (still remote I (λ w. refl)) (λ _. still remote I (λ w. refl)))
              (record_front-KeepsI remote I s.uuid))
            (act-Kept s)))
        (λ _. process_fronts-Kept systems)

  pub front_tick-Kept : Kept (front_tick remote)
  unfolding front_tick get_tracked_system_count get_system_count get_systems_to_update
  front_tick-Kept = bind-Keeps (query-KeepsI remote I (λ now t a t' e. ground arith)) λ _.
      bind-Keeps (query-KeepsI remote I (λ now t a t' e. ground arith))
        λ _. bind-Keeps (query-KeepsI remote I (λ now t a t' e. ground arith)) process_fronts-Kept

  remove_known-Kept :
      (guild : ℕ) (s : ModPkSystem) (b : Bool) → Kept (remove_known remote guild s b)
  remove_known-Kept guild s false = still remote I (λ w. refl)
  remove_known-Kept guild s true =
      bind-Keeps (remove_notify_system-Kept guild s.uuid) (λ _. still remote I (λ w. refl))

  remove_found-Kept :
      (guild : ℕ) (r : SystemRef) (o : Option ModPkSystem) → Kept (remove_found remote guild r o)
  remove_found-Kept guild r none = still remote I (λ w. refl)
  remove_found-Kept guild r (some s) =
      bind-Keeps (update_system-KeepsI remote I s)
        λ _. bind-Keeps (does_guild_follow-KeepsI remote I guild s.uuid) (remove_known-Kept guild s)

  remove_ref-Kept : (guild : ℕ) (o : Option SystemRef) → Kept (remove_ref remote guild o)
  remove_ref-Kept guild none = still remote I (λ w. refl)
  remove_ref-Kept guild (some r) =
      bind-Keeps (resolve_system_from_reference-KeepsI remote I r) (remove_found-Kept guild r)

  remove_with-Kept :
      (guild : ℕ) (reference : Text) (o : Option ℕ) → Kept (remove_with remote guild reference o)
  remove_with-Kept guild reference none = still remote I (λ w. refl)
  remove_with-Kept guild reference (some channel) =
      bind-Keeps (handle_system_ref-KeepsI remote I reference) (remove_ref-Kept guild)

  pub remove-Kept : (guild : ℕ) (reference : Text) → Kept (remove remote guild reference)
  unfolding remove
  remove-Kept guild reference =
      bind-Keeps (get_notify_channel-KeepsI remote I guild) (remove_with-Kept guild reference)
