-- ===== src/Pluralkit/Fronts/Kept.antt =====
-- What the services and commands do to the table of follows: except for one that follows a system,
-- all of them only delete rows (crates/tulpje-mod-pluralkit/src/fronters, notify).
use tulpje.Prelude.{
  ℕ, Bool, true, false, Option, none, some, List, [], ◌∷◌, ◌≡◌, refl, sym, subst, arith, Text, inl,
  inr, Bool-cases, ◌==◌,
}
use tulpje.Pluralkit.Util.{Member, SystemRef, uuid, id, discord_id, from_str}
use tulpje.Pluralkit.Database.Tables.{Tables, ModPkSystem, ModPkFrontersRow, NotifySystemRow}
use tulpje.Pluralkit.Database.Action.{World, Action, query}
use tulpje.Pluralkit.Database.Rules.{
  Keeps, bind-Keeps, query-Keeps, recover-Keeps, recover_error-Keeps,
}
use tulpje.Pluralkit.Database.Systems.{
  get_system, update_system, get_systems_to_update as get_old_systems,
}
use tulpje.Pluralkit.Database.Fronters.{
  delete_fronter_category, did_fronters_change, get_fronters, update_fronters,
  update_fronters_timestamp,
}
use tulpje.Pluralkit.Database.Notify.{get_notify_channel, does_guild_follow}
use tulpje.Pluralkit.Fronts.Remote.{
  Remote, Channel, ChannelAnswer, answered, unknown_channel, channel_failed, SystemAnswer,
  system_is, system_error, system_failed,
}
use tulpje.Pluralkit.Fronts.Shared.{
  Outcome, done, private, not_found, other, Fronters, Switch, record_front, record_change,
  switch_time,
}
use tulpje.Pluralkit.Fronts.Calls.{update_fronter_channels-Keeps}
use tulpje.Pluralkit.Fronts.Tasks.{update_category, update_fronters_for_guild, update_categories}
use tulpje.Pluralkit.Fronts.Services.{refresh_system, store_system, refresh_systems, system_tick}
use tulpje.Pluralkit.Fronts.Follow.{
  read_ref, handle_system_ref, look_up, resolve, resolve_system_from_reference,
}

module _ {G : Type 0} (remote : Remote G) (I : List NotifySystemRow → Type 0) where
  abbrev pub KeepsI : {A : Type 0} → Action G A → Type 0
  KeepsI m = Keeps (λ t. I t.follows) m

  -- What asks or answers, and does not touch the tables.
  abbrev pub still :
      {A : Type 0} {m : Action G A} → ((w : World G) → (m w).1.tables ≡ w.tables) → KeepsI m
  still h = record { keeps = λ w i. subst (λ t. I t.follows) (sym (h w)) i }

  -- A statement that leaves the follows alone.
  pub query-KeepsI :
      {A : Type 0} {run : ℕ → Tables → Option (A × Tables)}
      → ((now : ℕ) (t : Tables) (a : A) (t' : Tables)
          → run now t ≡ some (a, t')
          → t'.follows ≡ t.follows)
      → KeepsI (query remote.postgres run)
  query-KeepsI h = query-Keeps remote.postgres (λ now t a t' e i. subst I (sym (h now t a t' e)) i)

  pub update_system-KeepsI : (s : ModPkSystem) → KeepsI (update_system remote.postgres s)
  unfolding update_system
  update_system-KeepsI s = query-KeepsI (λ now t a t' e. ground arith)

  pub look_up-KeepsI : (r : SystemRef) → KeepsI (look_up remote r)
  unfolding get_system
  look_up-KeepsI (id s) = query-KeepsI (λ now t a t' e. ground arith)
  look_up-KeepsI (uuid s) = query-KeepsI (λ now t a t' e. ground arith)
  look_up-KeepsI (discord_id s) = still (λ w. refl)

  resolve-KeepsI : (r : SystemRef) (answer : SystemAnswer) → KeepsI (resolve remote r answer)
  resolve-KeepsI r (system_is s) = still (λ w. refl)
  resolve-KeepsI r (system_error code) = elim (Bool-cases (code == 20001)) [
    | inl e ↦ rw e (look_up-KeepsI r)
    | inr e ↦ rw e (still (λ w. refl))
  ]
  resolve-KeepsI r system_failed = still (λ w. refl)

  pub resolve_system_from_reference-KeepsI :
      (r : SystemRef) → KeepsI (resolve_system_from_reference remote r)
  unfolding resolve_system_from_reference
  resolve_system_from_reference-KeepsI r = bind-Keeps (still (λ w. refl)) (resolve-KeepsI r)

  read_ref-KeepsI : (reference : Text) (r : Option SystemRef) → KeepsI (read_ref remote reference r)
  read_ref-KeepsI reference (some r) = still (λ w. refl)
  read_ref-KeepsI reference none = bind-Keeps (still (λ w. refl)) (λ a. still (λ w. refl))

  pub handle_system_ref-KeepsI : (reference : Text) → KeepsI (handle_system_ref remote reference)
  unfolding handle_system_ref
  handle_system_ref-KeepsI reference = read_ref-KeepsI reference (from_str remote.refs reference)

  pub get_notify_channel-KeepsI : (guild : ℕ) → KeepsI (get_notify_channel remote.postgres guild)
  unfolding get_notify_channel
  get_notify_channel-KeepsI guild = query-KeepsI (λ now t a t' e. ground arith)

  pub does_guild_follow-KeepsI :
      (guild system : ℕ) → KeepsI (does_guild_follow remote.postgres guild system)
  unfolding does_guild_follow
  does_guild_follow-KeepsI guild system = query-KeepsI (λ now t a t' e. ground arith)

  update_category-KeepsI :
      (guild category : ℕ) (members : List Member) (answer : ChannelAnswer Channel)
      → KeepsI (update_category remote guild category members answer)
  unfolding delete_fronter_category
  update_category-KeepsI guild category members (answered channel) =
      bind-Keeps (still (λ w. refl))
        λ _. update_fronter_channels-Keeps remote (λ t. I t.follows) guild channel.id members
  update_category-KeepsI guild category members unknown_channel =
      bind-Keeps (query-KeepsI (λ now t a t' e. ground arith)) (λ _. still (λ w. refl))
  update_category-KeepsI guild category members channel_failed = still (λ w. refl)

  pub update_categories-KeepsI :
      (cs : List ModPkFrontersRow) (switch : Switch) → KeepsI (update_categories remote cs switch)
  unfolding update_categories update_fronters_for_guild
  update_categories-KeepsI [] switch = still (λ w. refl)
  update_categories-KeepsI (c ∷ cs) switch =
      bind-Keeps
        (recover_error-Keeps (
          bind-Keeps (still (λ w. refl)) λ _.
            bind-Keeps (still (λ w. refl))
              (update_category-KeepsI c.guild_id c.category_id switch.fronters)))
        (λ _. update_categories-KeepsI cs switch)

  record_change-KeepsI :
      (system : ℕ) (fronters : Option Fronters) (b : Bool)
      → KeepsI (record_change remote system fronters b)
  unfolding update_fronters update_fronters_timestamp
  record_change-KeepsI system fronters true = bind-Keeps (still (λ w. refl)) λ now.
      bind-Keeps (query-KeepsI (λ now t a t' e. ground arith))
        λ _. bind-Keeps (switch_time-KeepsI fronters) (λ _. still (λ w. refl))
    where
      switch_time-KeepsI : (fronters : Option Fronters) → KeepsI (switch_time remote fronters)
      switch_time-KeepsI none = still (λ w. refl)
      switch_time-KeepsI (some f) = still (λ w. refl)
  record_change-KeepsI system fronters false =
      bind-Keeps (query-KeepsI (λ now t a t' e. ground arith)) (λ _. still (λ w. refl))

  pub record_front-KeepsI :
      (system : ℕ) (o : Outcome (Option Fronters)) → KeepsI (record_front remote system o)
  unfolding did_fronters_change get_fronters update_fronters_timestamp
  record_front-KeepsI system (done fronters) =
      bind-Keeps (bind-Keeps (query-KeepsI (λ now t a t' e. ground arith)) (λ _. still (λ w. refl)))
        (record_change-KeepsI system fronters)
  record_front-KeepsI system private =
      bind-Keeps (query-KeepsI (λ now t a t' e. ground arith)) (λ _. still (λ w. refl))
  record_front-KeepsI system not_found =
      bind-Keeps (query-KeepsI (λ now t a t' e. ground arith)) (λ _. still (λ w. refl))
  record_front-KeepsI system other = still (λ w. refl)

  store_system-KeepsI : (answer : SystemAnswer) → KeepsI (store_system remote answer)
  store_system-KeepsI (system_is system) = update_system-KeepsI system
  store_system-KeepsI (system_error code) = still (λ w. refl)
  store_system-KeepsI system_failed = still (λ w. refl)

  refresh_systems-KeepsI : (systems : List ModPkSystem) → KeepsI (refresh_systems remote systems)
  unfolding refresh_systems refresh_system
  refresh_systems-KeepsI [] = still (λ w. refl)
  refresh_systems-KeepsI (s ∷ systems) =
      bind-Keeps (recover-Keeps (bind-Keeps (still (λ w. refl)) store_system-KeepsI))
        (λ _. refresh_systems-KeepsI systems)

  pub system_tick-KeepsI : KeepsI (system_tick remote)
  unfolding system_tick get_old_systems
  system_tick-KeepsI =
      bind-Keeps (query-KeepsI (λ now t a t' e. ground arith)) refresh_systems-KeepsI
