-- ===== src/Pluralkit/Roles/Settled.antt =====
-- A second role update after the first (crates/tulpje-mod-pluralkit/src/roles/update.rs).
use tulpje.Prelude.{
  ℕ, Bool, true, false, Option, none, some, List, [], ◌∷◌, ◌≡◌, refl, sym, ap, ◌∙◌, arith, ◌||◌,
  if◌then◌else◌, ==_refl, Text, is_some, get, contains,
}
use tulpje.Pluralkit.Util.{Member}
use tulpje.Pluralkit.Roles.Ops.{
  Role, MemberRole, RoleMap, should_update, role_op, push_op, get_role_ops, with_id, update,
  get_desired_roles, get_current_roles,
}
use tulpje.Pluralkit.Roles.Run.{RoleApi}
use tulpje.Pluralkit.Roles.Discord.{Look, look, Documented, Exactly, Describes}
use tulpje.Pluralkit.Roles.Converge.{Enumerates, contains_head, contains_or}
use tulpje.Pluralkit.Roles.Update.{UniqueAlters, Snapshot, Updated, current-Describes, alter_of}

should_update-same :
    (c d : MemberRole)
    → c.color ≡ d.color
    → c.mentionable ≡ d.mentionable
    → should_update c d ≡ false
unfolding should_update
should_update-same c d e f = ground (arith, ==_refl d.color)

look_color :
    (k : Text) (c d : ℕ) (m n : Bool) → some (look k c m) ≡ some (look k d n) → (c ≡ d) × (m ≡ n)
look_color k c d m n e = (
  ap (λ o. elim o as (λ _. ℕ) [ none ↦ c | some l ↦ l.color ]) e,
  ap (λ o. elim o as (λ _. Bool) [ none ↦ m | some l ↦ l.mentionable ]) e,
)

module _ {G : Type 0} (role : G → ℕ → Option Look) (api : RoleApi G)
    (documented : Documented api role) where
  role_op-settled :
      (g : G) (k : Text) (c d : Option MemberRole)
      → Describes role g k c
      → Exactly role g k d
      → (is_some c || is_some d) ≡ true
      → role_op c d ≡ some none
  unfolding role_op
  role_op-settled g k none none h e known = ground arith
  role_op-settled g k none (some d) h (i, (e, u)) known = elim (h i _ e refl) [ ]
  role_op-settled g k (some c) none (i, q, (e, u)) h known = elim (h i _ e refl) [ ]
  role_op-settled g k (some c) (some d) (i, q, (e, u)) (j, (f, v)) known =
      let same =
        look_color k c.color d.color c.mentionable d.mentionable
          (sym e ∙ ap (role g) (v i _ e refl) ∙ f) in
      ap (λ b. if b then with_id (λ id. update id d.color d.mentionable) c.role_id else some none)
        (should_update-same c d same.0 same.1)

  get_role_ops-settled :
      (g : G) (order : List Text) (current desired : RoleMap)
      → ((k : Text) → contains k order ≡ true → Describes role g k (get k current))
      → ((k : Text) → contains k order ≡ true → Exactly role g k (get k desired))
      → ((k : Text)
          → contains k order ≡ true
          → (is_some (get k current) || is_some (get k desired)) ≡ true)
      → get_role_ops order current desired ≡ some []
  unfolding get_role_ops
  get_role_ops-settled g [] current desired h e known = refl
  get_role_ops-settled g (k ∷ order) current desired h e known =
      ap (λ o. push_op o (get_role_ops order current desired))
        (role_op-settled g k (get k current) (get k desired) (h k (contains_head k order))
          (e k (contains_head k order)) (known k (contains_head k order)))
      ∙ ap (push_op (some none)) (
          get_role_ops-settled g order current desired (λ j i. h j (contains_or j k order i))
            (λ j i. e j (contains_or j k order i)) (λ j i. known j (contains_or j k order i)))

  -- After an update, the roles that the guild has then need no operation for the same members,
  -- whichever order the names are walked in.
  pub Updated-get_role_ops :
      (members : List Member) (g g' : G) (roles : List Role) (order : List Text)
      → Updated role api documented members g g'
      → Snapshot role g' roles
      → UniqueAlters roles
      → Enumerates order (get_current_roles roles) (get_desired_roles members)
      → get_role_ops order (get_current_roles roles) (get_desired_roles members) ≡ some []
  Updated-get_role_ops members g g' roles order updated snap unique enumerates =
      get_role_ops-settled g' order (get_current_roles roles) (get_desired_roles members)
        (λ k h.
          current-Describes role g' roles k snap unique
            (alter_of role roles members k (enumerates.keys_only k h)))
        (λ k h. updated.0 k (alter_of role roles members k (enumerates.keys_only k h)))
        enumerates.keys_only
