-- ===== src/Pluralkit/Roles/Update.antt =====
-- The whole role update on a guild
-- (crates/tulpje-mod-pluralkit/src/roles/update.rs, `get_role_ops` and `handle`).
use mathlib.Core.List.{Memᴰ}
use tulpje.Prelude.{
  ℕ, true, false, Option, none, some, List, ◌≡◌, ◌≢◌, inl, inr, refl, sym, ap, ◌∙◌, subst, arith,
  ◌||◌, Bool-cases, Text, is_some, get, contains, ends_with,
}
use tulpje.Pluralkit.Util.{Member}
use tulpje.Pluralkit.Roles.Ops.{
  Role, MemberRole, ChangeOperation, alter, desired_role, get_desired_roles, get_current_roles,
  get_role_ops,
}
use tulpje.Pluralkit.Roles.Run.{RoleApi, Progress, run_ops}
use tulpje.Pluralkit.Roles.Discord.{
  Look, look, Documented, Exactly, Describes, Same, Exactly-SameAt,
}
use tulpje.Pluralkit.Roles.Step.{Landed, Desires}
use tulpje.Pluralkit.Roles.Converge.{
  Returns, Enumerates, Fixed, FixesAll, Landed-mono, get_role_ops-FixesAll,
}
use tulpje.Pluralkit.Roles.RoleMaps.{
  get_current_roles-Every, get_current_roles-present, get_desired_roles-Every, desired_role-alter,
}

desired_role-mentionable : (m : Member) → (desired_role m).mentionable ≡ true
unfolding desired_role
desired_role-mentionable m = refl

some≢none : false ≢ true
some≢none e = ground arith

-- Two of the guild's roles that end in " (Alter)" have different names.
abbrev pub UniqueAlters : List Role → Type 0
UniqueAlters roles =
    (r s : Role)
    → Memᴰ r roles
    → Memᴰ s roles
    → ends_with alter r.name ≡ true
    → r.name ≡ s.name
    → r.id ≡ s.id

module _ {G : Type 0} (role : G → ℕ → Option Look) where
  -- The list is the guild's roles, as the command was given them.
  pub record Snapshot (g : G) (roles : List Role) : Type 0 where
    pub listed : (r : Role) → Memᴰ r roles → role g r.id ≡ some (look r.name r.color r.mentionable)
    pub complete :
        (i : ℕ) (l : Look)
        → role g i ≡ some l
        → (r : Role) × Memᴰ r roles × (r.id ≡ i) × (r.name ≡ l.name)

  pub current-Describes :
      (g : G) (roles : List Role) (k : Text)
      → Snapshot g roles
      → UniqueAlters roles
      → ends_with alter k ≡ true
      → Describes role g k (get k (get_current_roles roles))
  current-Describes g roles k snap unique a = go (get k (get_current_roles roles)) refl
    where
      go : (o : Option MemberRole) → get k (get_current_roles roles) ≡ o → Describes role g k o
      go none e = λ i l h n.
          let (r, m, q, t) = snap.complete i l h in
          let present = get_current_roles-present roles r m (ap (ends_with alter) (t ∙ n) ∙ a) in
          some≢none (
            sym (ap is_some e)
            ∙ ap (λ j. is_some (get j (get_current_roles roles))) (sym (t ∙ n))
            ∙ present)
      go (some c) e =
          let (r, m, t, n, q) = get_current_roles-Every roles k c e in
          (
            r.id,
            ap (λ d. d.role_id) q,
            (
              snap.listed r m
                  ∙ ap (λ d. some (look r.name d.color d.mentionable)) (sym q)
                  ∙ ap (λ j. some (look j c.color c.mentionable)) (sym n),
              λ j l h f.
                  let (s, i, si, sn) = snap.complete j l h in
                  sym (unique r s m i t (sym (sn ∙ f ∙ n)) ∙ si),
            ),
          )

  pub alter_of :
      (roles : List Role) (members : List Member) (k : Text)
      → (is_some (get k (get_current_roles roles)) || is_some (get k (get_desired_roles members)))
        ≡ true
      → ends_with alter k ≡ true
  alter_of roles members k h =
      go (get k (get_current_roles roles)) (get k (get_desired_roles members)) refl refl h
    where
      go :
          (o u : Option MemberRole)
          → get k (get_current_roles roles) ≡ o
          → get k (get_desired_roles members) ≡ u
          → (is_some o || is_some u) ≡ true
          → ends_with alter k ≡ true
      go (some c) u e f h =
          let (r, m, t, n, q) = get_current_roles-Every roles k c e in ap (ends_with alter) n ∙ t
      go none (some d) e f h =
          let (m, i, n, q) = get_desired_roles-Every members k d f in
          ap (ends_with alter) (n ∙ ap (λ d. d.name) q) ∙ desired_role-alter m
      go none none e f h = ground arith

  module _ (api : RoleApi G) (documented : Documented api role) where
    desired-Desires :
        (members : List Member) (k : Text)
        → Desires role api documented k (get k (get_desired_roles members))
    desired-Desires members k = go (get k (get_desired_roles members)) refl
      where
        go :
            (o : Option MemberRole)
            → get k (get_desired_roles members) ≡ o
            → Desires role api documented k o
        go none e = tt
        go (some d) e =
            let (m, i, n, q) = get_desired_roles-Every members k d e in
            (sym n, ap (λ d. d.mentionable) q ∙ desired_role-mentionable m)

    -- Every name that ends in " (Alter)" is as the members want it, and every other role is as before.
    abbrev pub Updated : List Member → G → G → Type 0
    Updated members g g' =
        ((k : Text)
          → ends_with alter k ≡ true
          → Exactly role g' k (get k (get_desired_roles members)))
        × ((i : ℕ) (l : Look) → ends_with alter l.name ≡ false → Same role g g' i l)

    unknown-Exactly :
        (g g' : G) (roles : List Role) (members : List Member) (order : List Text) (k : Text)
        → Snapshot g roles
        → UniqueAlters roles
        → Enumerates order (get_current_roles roles) (get_desired_roles members)
        → Fixed role api documented order (get_desired_roles members) g g'
        → ends_with alter k ≡ true
        → contains k order ≡ false
        → Exactly role g' k (get k (get_desired_roles members))
    unknown-Exactly g g' roles members order k snap unique enumerates (fixed, others) a out =
        go (get k (get_current_roles roles)) (get k (get_desired_roles members)) refl refl
          (current-Describes g roles k snap unique a) (enumerates.all_keys k)
      where
        go :
            (o u : Option MemberRole)
            → get k (get_current_roles roles) ≡ o
            → get k (get_desired_roles members) ≡ u
            → Describes role g k (get k (get_current_roles roles))
            → ((is_some (get k (get_current_roles roles))
                    || is_some (get k (get_desired_roles members)))
                  ≡ true
                → contains k order ≡ true)
            → Exactly role g' k u
        go none none e f h known =
            Exactly-SameAt role g g' k none
              (λ i l n. others i l (ap (λ j. contains j order) n ∙ out))
              (subst (Describes role g k) e h)
        go (some c) u e f h known =
            elim (some≢none (
              sym out
              ∙ known (ap (λ o. is_some o || is_some (get k (get_desired_roles members))) e))) [ ]
        go none (some d) e f h known =
            elim (some≢none (
              sym out
              ∙ known (
                  ap (λ o. is_some o || is_some (get k (get_desired_roles members))) e
                  ∙ ap is_some f))) [ ]

    Fixed-Updated :
        (g g' : G) (roles : List Role) (members : List Member) (order : List Text)
        → Snapshot g roles
        → UniqueAlters roles
        → Enumerates order (get_current_roles roles) (get_desired_roles members)
        → Fixed role api documented order (get_desired_roles members) g g'
        → Updated members g g'
    Fixed-Updated g g' roles members order snap unique enumerates fixed = (
      λ k a. elim (Bool-cases (contains k order)) [
        | inl h ↦ fixed.0 k h
        | inr h ↦ unknown-Exactly g g' roles members order k snap unique enumerates fixed a h
      ],
      λ i l a. elim (Bool-cases (contains l.name order)) [
        | inl h ↦
            elim (some≢none
              (sym a ∙ alter_of roles members l.name (enumerates.keys_only l.name h))) [ ]
        | inr h ↦ fixed.1 i l h
      ],
    )

    -- From a guild whose roles are as listed and have different names where they end in " (Alter)",
    -- the operations are found without a panic, in whichever order the set of names is walked. When
    -- they are carried out and no call fails, each member's name has exactly one role, with the
    -- member's color and the mentionable flag, no other name that ends in " (Alter)" has a role, and
    -- all other roles are as before.
    pub get_role_ops-Updated :
        (roles : List Role) (members : List Member) (order : List Text) (idx : ℕ) (p : Progress G)
        → Snapshot p.guild roles
        → UniqueAlters roles
        → Enumerates order (get_current_roles roles) (get_desired_roles members)
        → Returns
            (λ ops. Landed (λ p'. Updated members p.guild p'.guild) (run_ops api idx ops p))
            (get_role_ops order (get_current_roles roles) (get_desired_roles members))
    get_role_ops-Updated roles members order idx p snap unique enumerates =
        go (get_role_ops order (get_current_roles roles) (get_desired_roles members)) (
          get_role_ops-FixesAll role api documented order (get_current_roles roles)
            (get_desired_roles members) idx p enumerates.distinct enumerates.keys_only
            (desired-Desires members)
            (λ k h.
              current-Describes p.guild roles k snap unique
                (alter_of roles members k (enumerates.keys_only k h))))
      where
        go :
            (o : Option (List ChangeOperation))
            → FixesAll role api documented idx p order (get_desired_roles members) o
            → Returns
                (λ ops. Landed (λ p'. Updated members p.guild p'.guild) (run_ops api idx ops p))
                o
        go none h = h
        go (some ops) h =
            Landed-mono role api documented
              (λ p'. Fixed role api documented order (get_desired_roles members) p.guild p'.guild)
              (λ p'. Updated members p.guild p'.guild) (run_ops api idx ops p)
              (λ p' f. Fixed-Updated p.guild p'.guild roles members order snap unique enumerates f)
              h
