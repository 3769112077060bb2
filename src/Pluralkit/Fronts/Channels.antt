-- ===== src/Pluralkit/Fronts/Channels.antt =====
-- The voice channels of a category, one for each fronter
-- (crates/tulpje-mod-pluralkit/src/fronters/shared.rs).
use tulpje.Prelude.{
  ℕ, suc, Bool, not, Option, none, some, List, [], ◌∷◌, ltb, ◌==◌, ◌^◌, if◌then◌else◌, Text, get,
  insert, remove, collect, keys, contains, filter, map,
}
use tulpje.Pluralkit.Util.{Member, get_member_name}
use tulpje.Pluralkit.Database.Action.{Action, pure, expect, ◌>>=◌, ◌>>◌}
use tulpje.Pluralkit.Fronts.Remote.{Remote, Channel, attempt, must}

abbrev pub ChannelMap : Type 0
ChannelMap = List (Text × Channel)

abbrev pub in_category : ℕ → Channel → Bool
in_category category c = elim c.parent_id [ none ↦ Bool.false | some parent ↦ parent == category ]

abbrev pub push_entry : Option Text → Channel → Option ChannelMap → Option ChannelMap
push_entry none c rest = none
push_entry (some name) c none = none
push_entry (some name) c (some rest) = some ((name, c) ∷ rest)

-- Each channel under its name; `none` is the panic at a channel without one.
unfoldable pub named : List Channel → Option ChannelMap
named [] = some []
named (c ∷ cs) = push_entry c.name c (named cs)

abbrev pub push_position : Text → ℕ → Option (List (Text × ℕ)) → Option (List (Text × ℕ))
push_position name k none = none
push_position name k (some rest) = if ltb k (2 ^ 16) then some ((name, k) ∷ rest) else none

-- `enumerate`; an index that does not fit into 16 bits is a panic.
unfoldable pub positions : ℕ → List Text → Option (List (Text × ℕ))
positions k [] = some []
positions k (name ∷ names) = push_position name k (positions (suc k) names)

-- A hash set's texts, each once.
abbrev pub set_of : List Text → List Text
set_of [] = []
set_of (k ∷ ks) = let rest = set_of ks in if contains k ks then rest else (k ∷ rest)

abbrev pub difference : List Text → List Text → List Text
difference a b = filter (λ k. not (contains k b)) a

abbrev pub is_at : ℕ → Channel → Bool
is_at position c = elim c.position [ none ↦ Bool.false | some p ↦ p == position ]

module _ {G : Type 0} (remote : Remote G) where
  unfoldable pub get_fronter_channels : (guild category : ℕ) → Action G (List Channel)
  get_fronter_channels guild category = do
    channels ← attempt (remote.guild_channels guild)
    pure (filter (in_category category) channels)

  unfoldable pub delete_channels : List Text → ChannelMap → Action G ChannelMap
  delete_channels [] m = pure m
  delete_channels (name ∷ names) m = do
    channel ← expect (get name m)
    must (remote.delete_channel channel.id)
    delete_channels names (remove name m)

  unfoldable pub create_channels :
      (guild category : ℕ) → List (Text × ℕ) → List Text → ChannelMap → Action G ChannelMap
  create_channels guild category pos [] m = pure m
  create_channels guild category pos (name ∷ names) m = do
    position ← expect (get name pos)
    channel ← attempt (remote.create_channel guild name position category)
    create_channels guild category pos names (insert name channel m)

  abbrev pub move_unless : Bool → (channel position : ℕ) → Action G (Unit {0})
  move_unless Bool.true channel position = pure tt
  move_unless Bool.false channel position = must (remote.move_channel channel position)

  unfoldable pub move_channels : List (Text × ℕ) → List Text → ChannelMap → Action G (Unit {0})
  move_channels pos [] m = pure tt
  move_channels pos (name ∷ names) m = do
    position ← expect (get name pos)
    channel ← expect (get name m)
    move_unless (is_at position channel) channel.id position
    move_channels pos names m

  -- From the maps to the calls that change the category.
  abbrev pub reconcile :
      (guild category : ℕ) → List Text → ChannelMap → List (Text × ℕ) → Action G (Unit {0})
  reconcile guild category names current desired = do
    let channel_map = collect current
    let pos_map = collect desired
    let current_fronters = set_of (keys current)
    let desired_fronters = set_of names
    kept ←
        delete_channels (remote.hash_order (difference current_fronters desired_fronters))
          channel_map
    all ←
        create_channels guild category pos_map
          (remote.hash_order (difference desired_fronters current_fronters)) kept
    move_channels pos_map (remote.hash_order (keys pos_map)) all

  abbrev pub reconcile_listed :
      (guild category : ℕ) → List Text → List Channel → Action G (Unit {0})
  reconcile_listed guild category names fronter_channels = do
    current ← expect (named fronter_channels)
    desired ← expect (positions 0 names)
    reconcile guild category names current desired

  unfoldable pub update_fronter_channels : (guild category : ℕ) → List Member → Action G (Unit {0})
  update_fronter_channels guild category members = do
    fronter_channels ← get_fronter_channels guild category
    reconcile_listed guild category (map get_member_name members) fronter_channels
