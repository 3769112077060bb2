-- ===== src/Pluralkit/Fronts/Services.antt =====
-- The two services that poll PluralKit (crates/tulpje-mod-pluralkit/src/front_update_service.rs,
-- system_update_service.rs). Each runs its tick again and again until it is shut down.
use tulpje.Prelude.{List, [], ◌∷◌}
use tulpje.Pluralkit.Database.Tables.{ModPkSystem}
use tulpje.Pluralkit.Database.Action.{Action, recover, recover_error, pure, fail, ask, ◌>>=◌, ◌>>◌}
use tulpje.Pluralkit.Database.Systems.{update_system, get_systems_to_update as get_old_systems}
use tulpje.Pluralkit.Database.Fronters.{
  get_tracked_system_count, get_system_count, get_systems_to_update,
}
use tulpje.Pluralkit.Fronts.Remote.{Remote, SystemAnswer, system_is, system_error, system_failed}
use tulpje.Pluralkit.Fronts.Tasks.{process_system}

module _ {G : Type 0} (remote : Remote G) where
  -- A failed system leaves the others their turn.
  unfoldable pub process_fronts : List ModPkSystem → Action G (Unit {0})
  process_fronts [] = pure tt
  process_fronts (system ∷ systems) = do
    recover_error (process_system remote system)
    process_fronts systems

  -- `tick` of front_update_service.rs.
  unfoldable pub front_tick : Action G (Unit {0})
  front_tick = do
    get_tracked_system_count remote.postgres
    get_system_count remote.postgres
    systems ← get_systems_to_update remote.postgres
    process_fronts systems

  abbrev pub store_system : SystemAnswer → Action G (Unit {0})
  store_system (system_is system) = update_system remote.postgres system
  store_system (system_error code) = fail
  store_system system_failed = fail

  -- `process_system` of system_update_service.rs.
  unfoldable pub refresh_system : ModPkSystem → Action G (Unit {0})
  refresh_system system = do
    answer ← ask (remote.get_system (remote.refs.print_uuid system.uuid))
    store_system answer

  unfoldable pub refresh_systems : List ModPkSystem → Action G (Unit {0})
  refresh_systems [] = pure tt
  refresh_systems (system ∷ systems) = do recover (refresh_system system); refresh_systems systems

  -- `tick` of system_update_service.rs.
  unfoldable pub system_tick : Action G (Unit {0})
  system_tick = do systems ← get_old_systems remote.postgres; refresh_systems systems
