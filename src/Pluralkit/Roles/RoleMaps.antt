-- ===== src/Pluralkit/Roles/RoleMaps.antt =====
-- The maps of current and of desired roles against the lists they are made of
-- (crates/tulpje-mod-pluralkit/src/roles/update.rs).
use mathlib.Core.List.{Memᴰ}
use tulpje.Prelude.{
  Bool, true, false, none, some, List, [], ◌∷◌, ◌≡◌, ◌≢◌, ◌⊎◌, inl, inr, refl, sym, ap, ◌∙◌, subst,
  arith, Text, is_some, get, insert, insert_all, map, filter, Text-cases, get-insert_same,
  get-insert_other, ends_with, ends_with-append, text, before,
}
use tulpje.Pluralkit.Util.{Member, get_member_name}
use tulpje.Pluralkit.Roles.Ops.{
  Role, MemberRole, RoleMap, alter, named, desired_role, current_role, get_desired_roles,
  get_current_roles,
}

-- Every entry of the map satisfies the predicate.
abbrev pub Every : (Text → MemberRole → Type 0) → RoleMap → Type 0
Every P m = (k : Text) (a : MemberRole) → get k m ≡ some a → P k a

true≢false : true ≢ false
true≢false e = ground arith

some_inj : (a b : MemberRole) → some a ≡ some b → a ≡ b
some_inj a b e = ap (λ o. elim o as (λ _. MemberRole) [ none ↦ a | some c ↦ c ]) e

insert-Every :
    (P : Text → MemberRole → Type 0) (k : Text) (a : MemberRole) (m : RoleMap)
    → P k a
    → Every P m
    → Every P (insert k a m)
insert-Every P k a m h every j b e = elim (Text-cases j k) [
  | inl q ↦
      subst (λ j. P j b) (sym q)
        (subst (P k)
          (some_inj a b (sym (get-insert_same k a m) ∙ ap (λ i. get i (insert k a m)) (sym q) ∙ e))
          h)
  | inr n ↦ every j b (sym (get-insert_other j k a m n) ∙ e)
]

insert_all-Every :
    (P : Text → MemberRole → Type 0) (es m : RoleMap)
    → ((e : Text × MemberRole) → Memᴰ e es → P e.0 e.1)
    → Every P m
    → Every P (insert_all es m)
insert_all-Every P [] m h every = every
insert_all-Every P (e ∷ es) m h every =
    insert_all-Every P es (insert e.0 e.1 m) (λ f i. h f (Memᴰ.tail i))
      (insert-Every P e.0 e.1 m (h e (Memᴰ.head refl)) every)

Memᴰ-map :
    {A : Type 0} (f : A → Text × MemberRole) (e : Text × MemberRole) (xs : List A)
    → Memᴰ e (map f xs)
    → (x : A) × Memᴰ x xs × (e ≡ f x)
Memᴰ-map f e [] h = elim h [ ]
Memᴰ-map f e (x ∷ xs) (Memᴰ.head q) = (x, Memᴰ.head refl, q)
Memᴰ-map f e (x ∷ xs) (Memᴰ.tail h) = let (y, i, q) = Memᴰ-map f e xs h in (y, Memᴰ.tail i, q)

filter-cons :
    (p : Role → Bool) (x : Role) (rs : List Role) (P : List Role → Type 0)
    → (p x ≡ true → P (x ∷ filter p rs))
    → (p x ≡ false → P (filter p rs))
    → P (filter p (x ∷ rs))
filter-cons p x rs P t f = go (p x) refl
  where
    go :
        (b : Bool)
        → p x ≡ b
        → P (elim b as (λ _. List Role) [ true ↦ x ∷ filter p rs | false ↦ filter p rs ])
    go true e = t e
    go false e = f e

Memᴰ-filter :
    (p : Role → Bool) (r : Role) (rs : List Role) → Memᴰ r (filter p rs) → Memᴰ r rs × (p r ≡ true)
Memᴰ-filter p r [] h = elim h [ ]
Memᴰ-filter p r (x ∷ rs) h =
    let rest = Memᴰ-filter p r rs in
    filter-cons p x rs (λ ys. Memᴰ r ys → Memᴰ r (x ∷ rs) × (p r ≡ true))
      (λ e h. elim h [
        | Memᴰ.head q ↦ (Memᴰ.head q, ap p q ∙ e)
        | Memᴰ.tail i ↦ (Memᴰ.tail (rest i).0, (rest i).1)
      ])
      (λ e h. (Memᴰ.tail (rest h).0, (rest h).1)) h

filter-Memᴰ :
    (p : Role → Bool) (r : Role) (rs : List Role) → Memᴰ r rs → p r ≡ true → Memᴰ r (filter p rs)
filter-Memᴰ p r [] h t = elim h [ ]
filter-Memᴰ p r (x ∷ rs) (Memᴰ.head q) t =
    filter-cons p x rs (Memᴰ r) (λ e. Memᴰ.head q) (λ e. elim (true≢false (sym t ∙ ap p q ∙ e)) [ ])
filter-Memᴰ p r (x ∷ rs) (Memᴰ.tail i) t =
    filter-cons p x rs (Memᴰ r) (λ e. Memᴰ.tail (filter-Memᴰ p r rs i t))
      (λ e. filter-Memᴰ p r rs i t)

map-Memᴰ :
    {A : Type 0} (f : A → Text × MemberRole) (x : A) (xs : List A)
    → Memᴰ x xs
    → Memᴰ (f x) (map f xs)
map-Memᴰ f x [] h = elim h [ ]
map-Memᴰ f x (y ∷ xs) (Memᴰ.head q) = Memᴰ.head (ap f q)
map-Memᴰ f x (y ∷ xs) (Memᴰ.tail i) = Memᴰ.tail (map-Memᴰ f x xs i)

insert-present :
    (k j : Text) (a : MemberRole) (m : RoleMap)
    → (is_some (get k m) ≡ true) ⊎ (k ≡ j)
    → is_some (get k (insert j a m)) ≡ true
insert-present k j a m h = elim (Text-cases k j) [
  | inl q ↦ ap (λ i. is_some (get i (insert j a m))) q ∙ ap is_some (get-insert_same j a m)
  | inr n ↦ elim h [ inl t ↦ ap is_some (get-insert_other k j a m n) ∙ t | inr q ↦ elim (n q) [ ] ]
]

insert_all-present :
    (k : Text) (es m : RoleMap)
    → (is_some (get k m) ≡ true) ⊎ ((e : Text × MemberRole) × Memᴰ e es × (k ≡ e.0))
    → is_some (get k (insert_all es m)) ≡ true
insert_all-present k [] m (inl t) = t
insert_all-present k [] m (inr (e, h, q)) = elim h [ ]
insert_all-present k (f ∷ es) m (inl t) =
    insert_all-present k es (insert f.0 f.1 m) (inl (insert-present k f.0 f.1 m (inl t)))
insert_all-present k (f ∷ es) m (inr (e, Memᴰ.head q, n)) =
    insert_all-present k es (insert f.0 f.1 m)
      (inl (insert-present k f.0 f.1 m (inr (n ∙ ap (λ g. g.0) q))))
insert_all-present k (f ∷ es) m (inr (e, Memᴰ.tail i, n)) =
    insert_all-present k es (insert f.0 f.1 m) (inr (e, i, n))

-- An entry of the current map is one of the guild's roles, under its name.
abbrev pub IsCurrent : List Role → Text → MemberRole → Type 0
IsCurrent roles k c =
    (r : Role) × Memᴰ r roles
    × (ends_with alter r.name ≡ true)
    × (k ≡ r.name)
    × (c ≡ current_role r)

pub get_current_roles-Every :
    (roles : List Role) → Every (IsCurrent roles) (get_current_roles roles)
unfolding get_current_roles
get_current_roles-Every roles =
    insert_all-Every (IsCurrent roles) _ []
      (λ e h.
        let (r, i, q) =
          Memᴰ-map (λ r. named (current_role r)) e (filter (λ r. ends_with alter r.name) roles) h in
        let (j, t) = Memᴰ-filter (λ r. ends_with alter r.name) r roles i in
        (r, j, t, ap (λ e. e.0) q, ap (λ e. e.1) q))
      (λ k a e. ground arith)

pub get_current_roles-present :
    (roles : List Role) (r : Role)
    → Memᴰ r roles
    → ends_with alter r.name ≡ true
    → is_some (get r.name (get_current_roles roles)) ≡ true
unfolding get_current_roles
get_current_roles-present roles r i t = insert_all-present r.name _ [] (
    inr (
      named (current_role r),
      map-Memᴰ (λ r. named (current_role r)) r _
          (filter-Memᴰ (λ r. ends_with alter r.name) r roles i t),
      refl,
    ))

-- An entry of the desired map is a member's role, under its name.
abbrev pub IsDesired : List Member → Text → MemberRole → Type 0
IsDesired members k d = (m : Member) × Memᴰ m members × (k ≡ d.name) × (d ≡ desired_role m)

pub get_desired_roles-Every :
    (members : List Member) → Every (IsDesired members) (get_desired_roles members)
unfolding get_desired_roles
get_desired_roles-Every members =
    insert_all-Every (IsDesired members) _ []
      (λ e h.
        let (m, i, q) = Memᴰ-map (λ m. named (desired_role m)) e members h in
        (m, i, ap (λ e. e.0) q ∙ ap (λ e. e.1.name) (sym q), ap (λ e. e.1) q))
      (λ k a e. ground arith)

pub desired_role-alter : (m : Member) → ends_with alter (desired_role m).name ≡ true
unfolding desired_role
desired_role-alter m = ends_with-append (before (text " (") (get_member_name m)) alter
