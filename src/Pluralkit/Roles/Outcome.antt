-- ===== src/Pluralkit/Roles/Outcome.antt =====
-- What the command `pk roles update` ends with
-- (crates/tulpje-mod-pluralkit/src/roles/update.rs, `handle`).
use tulpje.Prelude.{
  ℕ, suc, Bool, true, false, Option, none, some, List, [], ◌∷◌, ◌≡◌, refl, sym, ap, ◌∙◌, subst,
  arith, if◌then◌else◌, Text, same, get, insert, insert_all, map, filter, ends_with, Option-rule,
}
use tulpje.Pluralkit.Util.{Member}
use tulpje.Pluralkit.Roles.Ops.{
  Role, MemberRole, RoleMap, alter, named, current_role, get_desired_roles, get_current_roles,
}
use tulpje.Pluralkit.Roles.Run.{RoleApi, Progress, assigned, assign_roles, known_ids, report}
use tulpje.Pluralkit.Roles.Discord.{Look, Documented, Exactly-SameAt}
use tulpje.Pluralkit.Roles.Step.{Landed}
use tulpje.Pluralkit.Roles.Converge.{Returns, Landed-mono, report-guild}
use tulpje.Pluralkit.Roles.Update.{Updated}

-- Every entry has an identifier.
abbrev pub HasIds : RoleMap → Type 0
HasIds [] = Unit {0}
HasIds (e ∷ m) = ((id : ℕ) × (e.1.role_id ≡ some id)) × HasIds m

HasIds-insert :
    (k : Text) (r : MemberRole) (m : RoleMap)
    → ((id : ℕ) × (r.role_id ≡ some id))
    → HasIds m
    → HasIds (insert k r m)
HasIds-insert k r [] h ids = (h, tt)
HasIds-insert k r (e ∷ m) h (first, ids) = go (same k e.0) (HasIds-insert k r m h ids)
  where
    go :
        (b : Bool) → HasIds (insert k r m) → HasIds (if b then ((k, r) ∷ m) else (e ∷ insert k r m))
    go true rest = (h, ids)
    go false rest = (first, rest)

HasIds-insert_all :
    (rs : List Role) (m : RoleMap)
    → HasIds m
    → HasIds (insert_all (map (λ r. named (current_role r)) rs) m)
HasIds-insert_all [] m ids = ids
HasIds-insert_all (r ∷ rs) m ids =
    HasIds-insert_all rs (insert r.name (current_role r) m)
      (HasIds-insert r.name (current_role r) m (r.id, refl) ids)

pub get_current_roles-HasIds : (roles : List Role) → HasIds (get_current_roles roles)
unfolding get_current_roles
get_current_roles-HasIds roles =
    HasIds-insert_all (filter (λ r. ends_with alter r.name) roles) [] tt

pub known_ids-Returns : (m : RoleMap) → HasIds m → Returns (λ ids. Unit {0}) (known_ids m)
unfolding known_ids
known_ids-Returns [] ids = tt
known_ids-Returns ((k, r) ∷ m) ((id, e), ids) =
    go r.role_id (known_ids m) e (known_ids-Returns m ids)
  where
    go :
        (o : Option ℕ) (rest : Option (List (Text × ℕ)))
        → o ≡ some id
        → Returns (λ ids. Unit {0}) rest
        → Returns
            (λ ids. Unit {0})
            (elim o as (λ _. Option (List (Text × ℕ))) [
              | none ↦ none
              | some id ↦ elim rest [ none ↦ none | some ids ↦ some ((k, id) ∷ ids) ]
            ])
    go none rest e h = ground arith
    go (some i) none e h = h
    go (some i) (some ids) e h = tt

module _ {G : Type 0} (role : G → ℕ → Option Look) (api : RoleApi G)
    (documented : Documented api role) where
  -- Assigning roles leaves the guild's roles as they are.
  abbrev pub SameRoles : G → G → Type 0
  SameRoles g g' = (i : ℕ) → role g' i ≡ role g i

  assigned-SameRoles :
      (p : Progress G) (id : ℕ) (o : Option G)
      → ((g' : G) → o ≡ some g' → SameRoles p.guild g')
      → Landed (λ p'. SameRoles p.guild p'.guild) (assigned api p o)
  assigned-SameRoles p id none f = tt
  assigned-SameRoles p id (some g') f = f g' refl

  pub assign_roles-SameRoles :
      (idx : ℕ) (names : List Text) (p : Progress G)
      → Landed (λ p'. SameRoles p.guild p'.guild) (assign_roles api idx names p)
  unfolding assign_roles
  assign_roles-SameRoles idx [] p = λ i. refl
  assign_roles-SameRoles idx (name ∷ names) p =
      Option-rule (Landed (λ p'. SameRoles p.guild p'.guild)) (get name p.role_ids) _ _
        (λ _. assign_roles-SameRoles (suc idx) names p)
        (λ id _.
          Option-rule (Landed (λ p'. SameRoles p.guild p'.guild))
            (assigned api p (api.add_member_role id p.guild)) none
            (λ p'. assign_roles api (suc idx) names (report api idx p')) (λ _. tt)
            (λ p₁ e.
              Landed-mono role api documented (λ p'. SameRoles (report api idx p₁).guild p'.guild)
                (λ p'. SameRoles p.guild p'.guild)
                (assign_roles api (suc idx) names (report api idx p₁))
                (λ p' h i.
                  h i
                  ∙ ap (λ g. role g i) (report-guild role api documented idx p₁)
                  ∙ subst (Landed (λ p'. SameRoles p.guild p'.guild)) e
                      (assigned-SameRoles p id (api.add_member_role id p.guild)
                        (λ g' f. documented.assigns id p.guild g' f))
                      i)
                (assign_roles-SameRoles (suc idx) names (report api idx p₁))))

  pub Updated-SameRoles :
      (members : List Member) (g g₁ g₂ : G)
      → Updated role api documented members g g₁
      → SameRoles g₁ g₂
      → Updated role api documented members g g₂
  Updated-SameRoles members g g₁ g₂ (exact, others) h = (
    λ k a.
        Exactly-SameAt role g₁ g₂ k (get k (get_desired_roles members))
          (λ i l n. (λ e. h i ∙ e, λ e. sym (h i) ∙ e)) (exact k a),
    λ i l a. (λ e. h i ∙ (others i l a).0 e, λ e. (others i l a).1 (sym (h i) ∙ e)),
  )
