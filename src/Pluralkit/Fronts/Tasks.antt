-- ===== src/Pluralkit/Fronts/Tasks.antt =====
-- One system's turn: its front, its categories and its notifications
-- (crates/tulpje-mod-pluralkit/src/fronters/tasks.rs).
use tulpje.Prelude.{ℕ, List, [], ◌∷◌}
use tulpje.Pluralkit.Util.{Member}
use tulpje.Pluralkit.Database.Tables.{ModPkSystem, ModPkFrontersRow}
use tulpje.Pluralkit.Database.Action.{Action, recover_error, pure, fail, ask, ◌>>=◌, ◌>>◌}
use tulpje.Pluralkit.Database.Fronters.{get_fronter_categories_for_system, delete_fronter_category}
use tulpje.Pluralkit.Fronts.Remote.{
  Remote, Channel, ChannelAnswer, answered, unknown_channel, channel_failed, must, take_value,
}
use tulpje.Pluralkit.Fronts.Shared.{
  Switch, FrontChange, unchanged, changed, Outcome, done, private, not_found, other,
  update_system_fronters,
}
use tulpje.Pluralkit.Fronts.Notices.{
  notify_front_change, notify_front_private, notify_system_not_found,
}
use tulpje.Pluralkit.Fronts.Channels.{update_fronter_channels}

module _ {G : Type 0} (remote : Remote G) where
  abbrev pub update_category :
      (guild category : ℕ) → List Member → ChannelAnswer Channel → Action G (Unit {0})
  update_category guild category members (answered channel) = do
    take_value channel.guild_id
    update_fronter_channels remote guild channel.id members
  update_category guild category members unknown_channel = do
    delete_fronter_category remote.postgres category
    pure tt
  update_category guild category members channel_failed = fail

  unfoldable pub update_fronters_for_guild :
      (guild category : ℕ) → List Member → Action G (Unit {0})
  update_fronters_for_guild guild category members = do
    must (remote.get_guild guild)
    answer ← ask (remote.get_channel category)
    update_category guild category members answer

  -- An error in one guild leaves the others their turn.
  unfoldable pub update_categories : List ModPkFrontersRow → Switch → Action G (Unit {0})
  update_categories [] switch = pure tt
  update_categories (c ∷ cs) switch = do
    recover_error (update_fronters_for_guild c.guild_id c.category_id switch.fronters)
    update_categories cs switch

  unfoldable pub update_fronter_categories : ModPkSystem → Switch → Action G (Unit {0})
  update_fronter_categories system switch = do
    categories ← get_fronter_categories_for_system remote.postgres system.uuid
    update_categories categories switch

  abbrev pub act : ModPkSystem → Outcome FrontChange → Action G (Unit {0})
  act system (done (changed switch)) = do
    update_fronter_categories system switch
    notify_front_change remote system switch
  act system (done unchanged) = pure tt
  act system private = notify_front_private remote system
  act system not_found = notify_system_not_found remote system
  act system other = fail

  unfoldable pub process_system : ModPkSystem → Action G (Unit {0})
  process_system system = do change ← update_system_fronters remote system; act system change
