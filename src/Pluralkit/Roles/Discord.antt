-- ===== src/Pluralkit/Roles/Discord.antt =====
-- What Discord documents of the calls on a guild's roles, seen through the roles that a guild has,
-- and what one change operation does to the roles of a name
-- (crates/tulpje-mod-pluralkit/src/roles/update.rs).
use tulpje.Prelude.{
  ℕ, Bool, Option, none, some, ◌==◌, ◌≡◌, ◌≢◌, ◌↔◌, refl, sym, ◌∙◌, if◌then◌else◌, Text,
}
use tulpje.Pluralkit.Roles.Ops.{MemberRole}
use tulpje.Pluralkit.Roles.Run.{RoleApi}

-- What a guild shows under a role's identifier.
pub record Look : Type 0 where
  pub name : Text
  pub color : ℕ
  pub mentionable : Bool

abbrev pub look : Text → ℕ → Bool → Look
look name color mentionable = record { name = name; color = color; mentionable = mentionable }

abbrev pub recolor : ℕ → Bool → Option Look → Option Look
recolor color mentionable none = none
recolor color mentionable (some l) = some (look l.name color mentionable)

-- The documented effects: an update changes the color and the mentionable flag of one role, a new
-- role gets an identifier that was not in use, a deleted role is gone, and giving a member a role
-- changes none.
pub record Documented {G : Type 0} (api : RoleApi G) (role : G → ℕ → Option Look) : Type 0 where
  pub updates :
      (id color : ℕ) (mentionable : Bool) (g g' : G)
      → api.update_role id color mentionable g ≡ some g'
      → (i : ℕ) → role g' i ≡ (if i == id then recolor color mentionable (role g i) else role g i)
  pub creates :
      (name : Text) (color : ℕ) (mentionable : Bool) (g g' : G) (id : ℕ)
      → api.create_role name color mentionable g ≡ some (g', some id)
      → (role g id ≡ none)
        × ((i : ℕ) → role g' i ≡ (if i == id then some (look name color mentionable) else role g i))
  pub deletes :
      (id : ℕ) (g g' : G)
      → api.delete_role id g ≡ some g'
      → (i : ℕ) → role g' i ≡ (if i == id then none else role g i)
  pub assigns :
      (id : ℕ) (g g' : G) → api.add_member_role id g ≡ some g' → (i : ℕ) → role g' i ≡ role g i

module _ {G : Type 0} (role : G → ℕ → Option Look) where
  abbrev pub NoneNamed : G → Text → Type 0
  NoneNamed g k = (i : ℕ) (l : Look) → role g i ≡ some l → l.name ≢ k

  -- The identifier has the one role of the name, with this color and flag.
  abbrev pub Shown : G → Text → ℕ → Bool → ℕ → Type 0
  Shown g k color mentionable i =
      (role g i ≡ some (look k color mentionable))
      × ((j : ℕ) (l : Look) → role g j ≡ some l → l.name ≡ k → j ≡ i)

  -- The guild has one role for a name that is desired, as desired, and none for any other.
  abbrev pub Exactly : G → Text → Option MemberRole → Type 0
  Exactly g k none = NoneNamed g k
  Exactly g k (some d) = (i : ℕ) × Shown g k d.color d.mentionable i

  -- The map's entry describes the guild.
  abbrev pub Describes : G → Text → Option MemberRole → Type 0
  Describes g k none = NoneNamed g k
  Describes g k (some c) = (i : ℕ) × (c.role_id ≡ some i) × Shown g k c.color c.mentionable i

  abbrev pub Same : G → G → ℕ → Look → Type 0
  Same g g' i l = (role g i ≡ some l) ↔ (role g' i ≡ some l)

  -- The guilds have the same roles of the name, and of all other names.
  abbrev pub SameAt : G → G → Text → Type 0
  SameAt g g' k = (i : ℕ) (l : Look) → l.name ≡ k → Same g g' i l

  abbrev pub SameBut : G → G → Text → Type 0
  SameBut g g' k = (i : ℕ) (l : Look) → l.name ≢ k → Same g g' i l

  pub SameBut-at : (g g' : G) (k j : Text) → SameBut g g' k → j ≢ k → SameAt g g' j
  SameBut-at g g' k j s n i l e = s i l (λ f. n (sym e ∙ f))

  NoneNamed-SameAt : (g g' : G) (k : Text) → SameAt g g' k → NoneNamed g k → NoneNamed g' k
  NoneNamed-SameAt g g' k s h i l e f = h i l ((s i l f).1 e) f

  Shown-SameAt :
      (g g' : G) (k : Text) (color : ℕ) (mentionable : Bool) (i : ℕ)
      → SameAt g g' k
      → Shown g k color mentionable i
      → Shown g' k color mentionable i
  Shown-SameAt g g' k color mentionable i s (e, u) =
      ((s i (look k color mentionable) refl).0 e, λ j l f n. u j l ((s j l n).1 f) n)

  pub Exactly-SameAt :
      (g g' : G) (k : Text) (o : Option MemberRole) → SameAt g g' k → Exactly g k o → Exactly g' k o
  Exactly-SameAt g g' k none s h = NoneNamed-SameAt g g' k s h
  Exactly-SameAt g g' k (some d) s (i, h) = (i, Shown-SameAt g g' k d.color d.mentionable i s h)

  pub Describes-SameAt :
      (g g' : G) (k : Text) (o : Option MemberRole)
      → SameAt g g' k
      → Describes g k o
      → Describes g' k o
  Describes-SameAt g g' k none s h = NoneNamed-SameAt g g' k s h
  Describes-SameAt g g' k (some c) s (i, e, h) =
      (i, e, Shown-SameAt g g' k c.color c.mentionable i s h)
