-- ===== src/Pluralkit/Fronts/Calls.antt =====
-- Calls of Discord leave the tables alone (crates/tulpje-mod-pluralkit/src/fronters/shared.rs).
use tulpje.Prelude.{ℕ, Bool, true, false, List, [], ◌∷◌, ◌≡◌, refl, sym, subst, Text, get, map}
use tulpje.Pluralkit.Util.{Member, get_member_name}
use tulpje.Pluralkit.Database.Tables.{Tables}
use tulpje.Pluralkit.Database.Action.{World, Action}
use tulpje.Pluralkit.Database.Rules.{Keeps, bind-Keeps, expect-Keeps}
use tulpje.Pluralkit.Fronts.Remote.{Remote}
use tulpje.Pluralkit.Fronts.Channels.{
  ChannelMap, delete_channels, create_channels, move_unless, move_channels, update_fronter_channels,
  is_at, get_fronter_channels, named, positions,
}

module _ {G : Type 0} (remote : Remote G) (J : Tables → Type 0) where
  -- What asks or answers, and does not touch the tables.
  abbrev pub unmoved :
      {A : Type 0} {m : Action G A} → ((w : World G) → (m w).1.tables ≡ w.tables) → Keeps J m
  unmoved h = record { keeps = λ w i. subst J (sym (h w)) i }

  delete_channels-Keeps :
      (names : List Text) (m : ChannelMap) → Keeps J (delete_channels remote names m)
  unfolding delete_channels
  delete_channels-Keeps [] m = unmoved (λ w. refl)
  delete_channels-Keeps (name ∷ names) m =
      bind-Keeps (expect-Keeps (get name m))
        λ c. bind-Keeps (unmoved (λ w. refl)) (λ _. delete_channels-Keeps names _)

  create_channels-Keeps :
      (guild category : ℕ) (pos : List (Text × ℕ)) (names : List Text) (m : ChannelMap)
      → Keeps J (create_channels remote guild category pos names m)
  unfolding create_channels
  create_channels-Keeps guild category pos [] m = unmoved (λ w. refl)
  create_channels-Keeps guild category pos (name ∷ names) m =
      bind-Keeps (expect-Keeps (get name pos)) λ p.
        bind-Keeps (unmoved (λ w. refl)) (λ c. create_channels-Keeps guild category pos names _)

  move_unless-Keeps :
      (b : Bool) (channel position : ℕ) → Keeps J (move_unless remote b channel position)
  move_unless-Keeps true channel position = unmoved (λ w. refl)
  move_unless-Keeps false channel position = unmoved (λ w. refl)

  move_channels-Keeps :
      (pos : List (Text × ℕ)) (names : List Text) (m : ChannelMap)
      → Keeps J (move_channels remote pos names m)
  unfolding move_channels
  move_channels-Keeps pos [] m = unmoved (λ w. refl)
  move_channels-Keeps pos (name ∷ names) m = bind-Keeps (expect-Keeps (get name pos)) λ p.
      bind-Keeps (expect-Keeps (get name m)) λ c.
        bind-Keeps (move_unless-Keeps (is_at p c) c.id p) (λ _. move_channels-Keeps pos names m)

  pub update_fronter_channels-Keeps :
      (guild category : ℕ) (members : List Member)
      → Keeps J (update_fronter_channels remote guild category members)
  unfolding update_fronter_channels get_fronter_channels
  update_fronter_channels-Keeps guild category members =
      bind-Keeps (bind-Keeps (unmoved (λ w. refl)) (λ _. unmoved (λ w. refl))) λ cs.
        bind-Keeps (expect-Keeps (named cs)) λ current.
          bind-Keeps (expect-Keeps (positions 0 (map get_member_name members))) λ desired.
            bind-Keeps (delete_channels-Keeps _ _) λ kept.
              bind-Keeps (create_channels-Keeps guild category _ _ kept)
                λ all. move_channels-Keeps _ _ all
