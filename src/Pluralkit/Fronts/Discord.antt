-- ===== src/Pluralkit/Fronts/Discord.antt =====
-- What Discord documents of the calls on a guild's channels (crates/tulpje-mod-pluralkit/src/fronters/shared.rs).
use tulpje.Prelude.{
  ℕ, true, Option, none, some, List, ◌≡◌, ◌≢◌, sym, ◌∙◌, ◌==◌, if◌then◌else◌, Text, get,
}
use tulpje.Pluralkit.Database.Sorted.{In}
use tulpje.Pluralkit.Fronts.Remote.{Remote, Channel}
use tulpje.Pluralkit.Fronts.Channels.{ChannelMap}

-- What a guild shows under a channel's identifier.
pub record Look : Type 0 where
  pub name : Option Text
  pub parent : Option ℕ
  pub position : Option ℕ

abbrev pub look_of : Channel → Look
look_of c = record { name = c.name; parent = c.parent_id; position = c.position }

abbrev pub voice : (category : ℕ) (name : Text) (position : Option ℕ) → Look
voice category name position = record {
  name = some name;
  parent = some category;
  position = position;
}

abbrev pub placed : ℕ → Option Look → Option Look
placed position none = none
placed position (some l) = some (record l { position = some position })

-- Discord carries out every call on the channels of a guild, and its answers describe them; the
-- name, the parent and the position of a new channel are those asked for, and a move changes one
-- position.
pub record Documented {G : Type 0} (remote : Remote G) (guild : ℕ) (chan : G → ℕ → Option Look)
    : Type 0 where
  pub lists :
      (g : G)
      → (cs : List Channel) × ((remote.guild_channels guild g).0 ≡ some cs)
        × ((c : Channel) → In c cs → chan g c.id ≡ some (look_of c))
        × ((i : ℕ) (l : Look)
            → chan g i ≡ some l
            → (c : Channel) × In c cs × (c.id ≡ i) × (look_of c ≡ l))
        × ((i : ℕ) → chan (remote.guild_channels guild g).1 i ≡ chan g i)
  pub deletes :
      (id : ℕ) (g : G)
      → ((remote.delete_channel id g).0 ≡ true)
        × ((i : ℕ) → chan (remote.delete_channel id g).1 i ≡ (if i == id then none else chan g i))
  pub creates :
      (name : Text) (position category : ℕ) (g : G)
      → (c : Channel) × ((remote.create_channel guild name position category g).0 ≡ some c)
        × (chan g c.id ≡ none)
        × (look_of c ≡ voice category name (some position))
        × ((i : ℕ)
            → chan (remote.create_channel guild name position category g).1 i
              ≡ (if i == c.id then some (voice category name (some position)) else chan g i))
  pub moves :
      (id position : ℕ) (g : G)
      → ((remote.move_channel id position g).0 ≡ true)
        × ((i : ℕ)
            → chan (remote.move_channel id position g).1 i
              ≡ (if i == id then placed position (chan g i) else chan g i))

module _ {G : Type 0} (chan : G → ℕ → Option Look) (category : ℕ) where
  -- The channels outside the category are the same.
  pub record Frame (g g' : G) : Type 0 where
    pub stay :
        (i : ℕ) (l : Look) → chan g i ≡ some l → l.parent ≢ some category → chan g' i ≡ some l
    pub stem :
        (i : ℕ) (l : Look) → chan g' i ≡ some l → l.parent ≢ some category → chan g i ≡ some l

  pub Frame-same : (g g' : G) → ((i : ℕ) → chan g' i ≡ chan g i) → Frame g g'
  Frame-same g g' h = record { stay = λ i l e n. h i ∙ e; stem = λ i l e n. sym (h i) ∙ e }

  pub Frame-trans : (g₁ g₂ g₃ : G) → Frame g₁ g₂ → Frame g₂ g₃ → Frame g₁ g₃
  Frame-trans g₁ g₂ g₃ a b = record {
    stay = λ i l e n. b.stay i l (a.stay i l e n) n;
    stem = λ i l e n. a.stem i l (b.stem i l e n) n;
  }

  -- The map has exactly the category's channels, each under its name; `place` is where it stands.
  pub record Matches (place : Text → Channel → Option ℕ) (g : G) (m : ChannelMap) : Type 0 where
    pub sound :
        (k : Text) (c : Channel)
        → get k m ≡ some c
        → chan g c.id ≡ some (voice category k (place k c))
    pub whole :
        (k : Text) (i : ℕ) (l : Look)
        → chan g i ≡ some l
        → l.parent ≡ some category
        → l.name ≡ some k
        → (c : Channel) × (get k m ≡ some c) × (c.id ≡ i)

  abbrev pub listed_place : Text → Channel → Option ℕ
  listed_place k c = c.position
