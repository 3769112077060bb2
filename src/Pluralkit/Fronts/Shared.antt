-- ===== src/Pluralkit/Fronts/Shared.antt =====
-- A system's current front, and its record in the database
-- (crates/tulpje-mod-pluralkit/src/fronters/shared.rs).
use tulpje.Prelude.{
  ℕ, Bool, true, false, Option, none, some, List, [], ◌∷◌, ◌==◌, if◌then◌else◌, map,
}
use tulpje.Pluralkit.Util.{Member}
use tulpje.Pluralkit.Database.Tables.{ModPkSystem}
use tulpje.Pluralkit.Database.Action.{Action, pure, ask, ◌>>=◌, ◌>>◌}
use tulpje.Pluralkit.Database.Fronters.{
  did_fronters_change, update_fronters, update_fronters_timestamp,
}
use tulpje.Pluralkit.Fronts.Remote.{
  Remote, Listed, string, struct, FrontAnswer, front_is, front_error, front_failed,
}

pub record Fronters : Type 0 where
  pub members : List Member
  pub timestamp : ℕ

-- `GetSystemFrontersError` as values beside a success; `other` carries any other error.
pub data Outcome {ℓ} (A : Type ℓ) : Type ℓ where
  done : A → Outcome A
  private : Outcome A
  not_found : Outcome A
  other : Outcome A

abbrev pub push_member : Member → Option (List Member) → Option (List Member)
push_member member none = none
push_member member (some members) = some (member ∷ members)

-- A switch that names its members only is an error.
unfoldable pub get_members : List Listed → Option (List Member)
get_members [] = some []
get_members (string ∷ listed) = none
get_members (struct member ∷ listed) = push_member member (get_members listed)

abbrev pub with_time : Option (List Member) → Option ℕ → Outcome (Option Fronters)
with_time none time = other
with_time (some members) none = other
with_time (some members) (some time) = done (some (record { members = members; timestamp = time }))

unfoldable pub read_front : FrontAnswer → Outcome (Option Fronters)
read_front (front_is none) = done none
read_front (front_is (some switch)) = with_time (get_members switch.members) switch.timestamp
read_front (front_error code) =
    if code == 30004 then private else if code == 20001 then not_found else other
read_front front_failed = other

abbrev pub uuids : Option Fronters → List ℕ
uuids none = []
uuids (some f) = map (λ m. m.uuid) f.members

abbrev pub members_of : Option Fronters → List Member
members_of none = []
members_of (some f) = f.members

pub record Switch : Type 0 where
  pub fronters : List Member
  pub timestamp : ℕ

pub data FrontChange : Type 0 where
  unchanged : FrontChange
  changed : Switch → FrontChange

module _ {G : Type 0} (remote : Remote G) where
  unfoldable pub get_system_fronters : ℕ → Action G (Outcome (Option Fronters))
  get_system_fronters system = do
    answer ← ask (remote.get_system_fronters (remote.refs.print_uuid system))
    pure (read_front answer)

  -- `chrono::Utc::now()` where nobody fronts.
  abbrev pub switch_time : Option Fronters → Action G ℕ
  switch_time none = ask remote.utc_now
  switch_time (some f) = pure f.timestamp

  abbrev pub record_change : ℕ → Option Fronters → Bool → Action G (Outcome FrontChange)
  record_change system fronters true = do
    now ← ask remote.utc_now
    update_fronters remote.postgres now system (uuids fronters)
    time ← switch_time fronters
    pure (done (changed (record { fronters = members_of fronters; timestamp = time })))
  record_change system fronters false = do
    update_fronters_timestamp remote.postgres system
    pure (done unchanged)

  -- A private or missing system is marked as tried too.
  abbrev pub record_front : ℕ → Outcome (Option Fronters) → Action G (Outcome FrontChange)
  record_front system (done fronters) = do
    change ← did_fronters_change remote.postgres system (uuids fronters)
    record_change system fronters change
  record_front system private = do update_fronters_timestamp remote.postgres system; pure private
  record_front system not_found = do
    update_fronters_timestamp remote.postgres system
    pure not_found
  record_front system other = pure other

  -- An error of the database is an `Other` as well.
  unfoldable pub update_system_fronters : ModPkSystem → Action G (Outcome FrontChange)
  unfolding get_system_fronters
  update_system_fronters system = do
    fronters ← get_system_fronters system.uuid
    record_front system.uuid fronters
