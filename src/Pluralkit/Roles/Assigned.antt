-- ===== src/Pluralkit/Roles/Assigned.antt =====
-- Every missing name is assigned (crates/tulpje-mod-pluralkit/src/roles/update.rs, `handle`).
use tulpje.Prelude.{
  ℕ, Bool, true, false, Option, none, some, List, [], ◌∷◌, ◌≡◌, ◌≢◌, refl, sym, ap, ◌∙◌, arith,
  ◌||◌, Text, Text-cases, inl, inr, is_some, get, length, contains, same, same_refl, All,
  if◌then◌else◌,
}
use tulpje.Pluralkit.Util.{Member}
use tulpje.Pluralkit.Roles.Ops.{
  Role, ChangeOperation, create, MemberRole, RoleMap, role_op, push_op, get_role_ops,
  get_current_roles, get_desired_roles, uuid_or_nil,
}
use tulpje.Pluralkit.Roles.Run.{RoleApi, Progress, run_ops, assign_roles, known_ids}
use tulpje.Pluralkit.Roles.Step.{Landed}
use tulpje.Pluralkit.Roles.Converge.{Returns, Enumerates, contains-tail}
use tulpje.Pluralkit.Roles.RoleMaps.{get_desired_roles-Every}
use tulpje.Pluralkit.Roles.Assign.{
  Knows, creates, run_ops-Knows, AssignsAlways, Assigned, assign_roles-counted, All-mono,
}

known_or : (a b : Bool) → b ≡ true → (a || b) ≡ true
known_or true b h = refl
known_or false b h = h

some_ops : (a b : List ChangeOperation) → some a ≡ some b → a ≡ b
some_ops a b e = ap (λ o. elim o as (λ _. List ChangeOperation) [ none ↦ a | some c ↦ c ]) e

none≢some_ops : (a : List ChangeOperation) → none ≢ some a
none≢some_ops a e = ground arith

creates-cons :
    (k : Text) (op : ChangeOperation) (ops : List ChangeOperation)
    → creates k ops ≡ true
    → creates k (op ∷ ops) ≡ true
creates-cons k (create name uuid color) ops h = ground arith
creates-cons k (ChangeOperation.delete id) ops h = h
creates-cons k (ChangeOperation.update id color m) ops h = h

-- What the rest creates is created.
push_op-rest :
    (o : Option (Option ChangeOperation)) (rest : Option (List ChangeOperation))
    (ops : List ChangeOperation)
    → push_op o rest ≡ some ops
    → (ops' : List ChangeOperation) × (rest ≡ some ops')
      × ((k : Text) → creates k ops' ≡ true → creates k ops ≡ true)
push_op-rest none rest ops e = elim (none≢some_ops ops e) [ ]
push_op-rest (some o) none ops e = elim (none≢some_ops ops e) [ ]
push_op-rest (some none) (some ops') ops e =
    (ops', refl, λ k h. ap (creates k) (sym (some_ops ops' ops e)) ∙ h)
push_op-rest (some (some op)) (some ops') ops e = (
  ops',
  refl,
  λ k h. ap (creates k) (sym (some_ops (op ∷ ops') ops e)) ∙ creates-cons k op ops' h,
)

push_op-create :
    (k : Text) (uuid color : ℕ) (rest : Option (List ChangeOperation)) (ops : List ChangeOperation)
    → push_op (some (some (create k uuid color))) rest ≡ some ops
    → creates k ops ≡ true
push_op-create k uuid color none ops e = elim (none≢some_ops ops e) [ ]
push_op-create k uuid color (some ops') ops e =
    ap (creates k) (sym (some_ops (create k uuid color ∷ ops') ops e))
    ∙ ap (λ b. b || creates k ops') (same_refl k)

head-creates :
    (k : Text) (c : Option MemberRole) (d : MemberRole) (rest : Option (List ChangeOperation))
    (ops : List ChangeOperation)
    → d.name ≡ k
    → push_op (role_op c (some d)) rest ≡ some ops
    → (is_some c || creates k ops) ≡ true
unfolding role_op
head-creates k (some c) d rest ops n e = refl
head-creates k none d rest ops n e =
    push_op-create k (uuid_or_nil d.uuid) d.color rest ops
      (ap (λ j. push_op (some (some (create j (uuid_or_nil d.uuid) d.color))) rest) (sym n) ∙ e)

or_more : (a b c : Bool) → (b ≡ true → c ≡ true) → (a || b) ≡ true → (a || c) ≡ true
or_more true b c f h = refl
or_more false b c f h = f h

get_role_ops-creates :
    (order : List Text) (current desired : RoleMap) (ops : List ChangeOperation) (k : Text)
    (d : MemberRole)
    → get_role_ops order current desired ≡ some ops
    → contains k order ≡ true
    → get k desired ≡ some d
    → d.name ≡ k
    → (is_some (get k current) || creates k ops) ≡ true
unfolding get_role_ops
get_role_ops-creates [] current desired ops k d e h f n = ground arith
get_role_ops-creates (name ∷ order) current desired ops k d e h f n = elim (Text-cases k name) [
  | inl q ↦ head-creates k (get k current) d (get_role_ops order current desired) ops n (
      ap (λ o. push_op (role_op (get k current) o) (get_role_ops order current desired)) (sym f)
      ∙ ap
          (λ j.
            push_op (role_op (get j current) (get j desired)) (get_role_ops order current desired))
          q
      ∙ e)
  | inr m ↦
      (let (ops', rest, more) =
          push_op-rest (role_op (get name current) (get name desired))
            (get_role_ops order current desired) ops e in
        or_more (is_some (get k current)) (creates k ops') (creates k ops) (more k) (
          get_role_ops-creates order current desired ops' k d rest (contains-tail k name order m h)
            f n))
]

some_ids : (a b : List (Text × ℕ)) → some a ≡ some b → a ≡ b
some_ids a b e = ap (λ o. elim o as (λ _. List (Text × ℕ)) [ none ↦ a | some c ↦ c ]) e

none≢some_ids : (a : List (Text × ℕ)) → none ≢ some a
none≢some_ids a e = ground arith

chosen :
    (b : Bool) (id : ℕ) (r : MemberRole) (o : Option ℕ) (u : Option MemberRole)
    → is_some o ≡ is_some u
    → is_some (if b then some id else o) ≡ is_some (if b then some r else u)
chosen true id r o u e = refl
chosen false id r o u e = e

known_ids-known :
    (k : Text) (m : RoleMap) (ids : List (Text × ℕ))
    → known_ids m ≡ some ids
    → is_some (get k ids) ≡ is_some (get k m)
unfolding known_ids
known_ids-known k [] ids e = ap (λ ids. is_some (get k ids)) (sym (some_ids [] ids e))
known_ids-known k (entry ∷ m) ids e = go entry.1.role_id (known_ids m) (known_ids-known k m) e
  where
    go :
        (o : Option ℕ) (rest : Option (List (Text × ℕ)))
        → ((ids : List (Text × ℕ)) → rest ≡ some ids → is_some (get k ids) ≡ is_some (get k m))
        → (elim o as (λ _. Option (List (Text × ℕ))) [
          | none ↦ none
          | some id ↦ elim rest [ none ↦ none | some ids ↦ some ((entry.0, id) ∷ ids) ]
        ])
          ≡ some ids
        → is_some (get k ids) ≡ is_some (get k (entry ∷ m))
    go none rest f e = elim (none≢some_ids ids e) [ ]
    go (some id) none f e = elim (none≢some_ids ids e) [ ]
    go (some id) (some ids') f e =
        ap (λ ids. is_some (get k ids)) (sym (some_ids ((entry.0, id) ∷ ids') ids e))
        ∙ chosen (same k entry.0) id entry.1 (get k ids') (get k m) (f ids' refl)

module _ {G : Type 0} (api : RoleApi G) where
  known_after :
      (roles : List Role) (members : List Member) (order : List Text) (ops : List ChangeOperation)
      (k : Text) (p : Progress G)
      → Enumerates order (get_current_roles roles) (get_desired_roles members)
      → get_role_ops order (get_current_roles roles) (get_desired_roles members) ≡ some ops
      → known_ids (get_current_roles roles) ≡ some p.role_ids
      → is_some (get k (get_desired_roles members)) ≡ true
      → Landed (Knows k) (run_ops api 0 ops p)
  known_after roles members order ops k p enumerates e ids wanted = run_ops-Knows api k 0 ops p (
      ap (λ b. b || creates k ops) (known_ids-known k (get_current_roles roles) p.role_ids ids)
      ∙ go (get k (get_desired_roles members)) refl wanted)
    where
      go :
          (o : Option MemberRole)
          → get k (get_desired_roles members) ≡ o
          → is_some o ≡ true
          → (is_some (get k (get_current_roles roles)) || creates k ops) ≡ true
      go none f h = ground arith
      go (some d) f h =
          let (m, i, n, q) = get_desired_roles-Every members k d f in
          get_role_ops-creates order (get_current_roles roles) (get_desired_roles members) ops k d e
            (enumerates.all_keys k (known_or (is_some (get k (get_current_roles roles))) _ wanted))
            f (sym n)

  -- After the operations were carried out for the roles that the guild had, each missing name of a
  -- member has an identifier, so that it is assigned: where no assignment fails, the counter shows
  -- as many more assigned roles as there were missing names.
  pub run_ops-assigns :
      (roles : List Role) (members : List Member) (order missing : List Text)
      (ops : List ChangeOperation) (p : Progress G) (idx : ℕ)
      → AssignsAlways api
      → Enumerates order (get_current_roles roles) (get_desired_roles members)
      → get_role_ops order (get_current_roles roles) (get_desired_roles members) ≡ some ops
      → known_ids (get_current_roles roles) ≡ some p.role_ids
      → All (λ k. is_some (get k (get_desired_roles members)) ≡ true) missing
      → Landed
          (λ p'. Returns (Assigned api p' (length missing)) (assign_roles api idx missing p'))
          (run_ops api 0 ops p)
  run_ops-assigns roles members order missing ops p idx always enumerates e ids wanted =
      go (run_ops api 0 ops p) (
        All-mono (λ k. is_some (get k (get_desired_roles members)) ≡ true)
          (λ k. Landed (Knows k) (run_ops api 0 ops p)) missing
          (λ k h. known_after roles members order ops k p enumerates e ids h) wanted)
    where
      go :
          (o : Option (Progress G))
          → All (λ k. Landed (Knows k) o) missing
          → Landed
              (λ p'. Returns (Assigned api p' (length missing)) (assign_roles api idx missing p'))
              o
      go none h = tt
      go (some p') h = assign_roles-counted api always idx missing p' h
