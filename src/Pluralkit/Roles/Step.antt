-- ===== src/Pluralkit/Roles/Step.antt =====
-- What one change operation does to the roles of a name
-- (crates/tulpje-mod-pluralkit/src/roles/update.rs, `get_role_ops` and `handle`).
use tulpje.Prelude.{
  ℕ, Bool, true, false, Option, none, some, ◌==◌, ◌≡◌, ◌≢◌, ◌⊎◌, inl, inr, refl, sym, ap, ◌∙◌,
  subst, arith, if◌then◌else◌, Bool-cases, Text, ==_iff, ==_refl, ◌||◌, is_some,
}
use tulpje.Pluralkit.Roles.Ops.{
  ChangeOperation, create, delete, update, MemberRole, should_update, role_op, with_id, uuid_or_nil,
}
use tulpje.Pluralkit.Roles.Run.{RoleApi, Progress, run_op, updated, created, deleted}
use tulpje.Pluralkit.Roles.Discord.{
  Look, look, recolor, Documented, NoneNamed, Shown, Exactly, Describes, SameBut,
}

ℕ-cases : (i j : ℕ) → (i ≡ j) ⊎ (i ≢ j)
ℕ-cases i j = elim (Bool-cases (i == j)) [
  | inl e ↦ inl ((==_iff i j).0 e)
  | inr e ↦ inr (λ f. ground arith)
]

not_equal : (i j : ℕ) → i ≢ j → (i == j) ≡ false
not_equal i j n = ground arith

should_update-false :
    (c d : MemberRole)
    → should_update c d ≡ false
    → (c.color ≡ d.color) × (c.mentionable ≡ d.mentionable)
unfolding should_update
should_update-false c d h = (ground arith, ground arith)

none≢some : (l : Look) → none ≢ some l
none≢some l e = ground arith

name_of :
    (o : Option Look) (k : Text) (color : ℕ) (mentionable : Bool) (l : Look)
    → o ≡ some (look k color mentionable)
    → o ≡ some l
    → l.name ≡ k
name_of o k color mentionable l e f =
    ap (λ u. elim u as (λ _. Text) [ none ↦ k | some m ↦ m.name ]) (sym f ∙ e)

-- The property of a call's result, if it answered.
abbrev pub Landed : {G : Type 0} → (Progress G → Type 0) → Option (Progress G) → Type 0
Landed P none = Unit {0}
Landed P (some p) = P p

module _ {G : Type 0} (role : G → ℕ → Option Look) where
  -- One identifier's role is replaced.
  abbrev Changes : G → G → ℕ → Option Look → Type 0
  Changes g g' id o = (role g' id ≡ o) × ((i : ℕ) → i ≢ id → role g' i ≡ role g i)

  Changes-of :
      (g g' : G) (id : ℕ) (new : ℕ → Option Look)
      → ((i : ℕ) → role g' i ≡ (if i == id then new i else role g i))
      → Changes g g' id (new id)
  Changes-of g g' id new h = (
    h id ∙ ap (λ b. if b then new id else role g id) (==_refl id),
    λ i n. h i ∙ ap (λ b. if b then new i else role g i) (not_equal i id n),
  )

  Changes-SameBut :
      (g g' : G) (id : ℕ) (o : Option Look) (k : Text)
      → Changes g g' id o
      → ((l : Look) → role g id ≡ some l → l.name ≡ k)
      → ((l : Look) → o ≡ some l → l.name ≡ k)
      → SameBut role g g' k
  Changes-SameBut g g' id o k (e, f) was now i l n = elim (ℕ-cases i id) [
    | inl q ↦ (
      λ h. elim (n (was l (ap (role g) (sym q) ∙ h))) [ ],
      λ h. elim (n (now l (sym e ∙ ap (role g') (sym q) ∙ h))) [ ],
    )
    | inr q ↦ (λ h. f i q ∙ h, λ h. sym (f i q) ∙ h)
  ]

  Changes-Shown :
      (g g' : G) (id color : ℕ) (mentionable : Bool) (k : Text)
      → Changes g g' id (some (look k color mentionable))
      → ((j : ℕ) (l : Look) → role g j ≡ some l → l.name ≡ k → j ≡ id)
      → Shown role g' k color mentionable id
  Changes-Shown g g' id color mentionable k (e, f) only =
      (e, λ j l h n. elim (ℕ-cases j id) [ inl q ↦ q | inr q ↦ only j l (sym (f j q) ∙ h) n ])

  Changes-NoneNamed :
      (g g' : G) (id : ℕ) (k : Text)
      → Changes g g' id none
      → ((j : ℕ) (l : Look) → role g j ≡ some l → l.name ≡ k → j ≡ id)
      → NoneNamed role g' k
  Changes-NoneNamed g g' id k (e, f) only j l h n = elim (ℕ-cases j id) [
    | inl q ↦ none≢some l (sym e ∙ ap (role g') (sym q) ∙ h)
    | inr q ↦ q (only j l (sym (f j q) ∙ h) n)
  ]

  module _ (api : RoleApi G) (documented : Documented api role) where
    updated-Landed :
        (Q : G → Type 0) (p : Progress G) (o : Option G)
        → ((g' : G) → o ≡ some g' → Q g')
        → Landed (λ p'. Q p'.guild) (updated api p o)
    updated-Landed Q p none f = tt
    updated-Landed Q p (some g') f = f g' refl

    deleted-Landed :
        (Q : G → Type 0) (p : Progress G) (o : Option G)
        → ((g' : G) → o ≡ some g' → Q g')
        → Landed (λ p'. Q p'.guild) (deleted api p o)
    deleted-Landed Q p none f = tt
    deleted-Landed Q p (some g') f = f g' refl

    created-Landed :
        (Q : G → Type 0) (name : Text) (p : Progress G) (o : Option (G × Option ℕ))
        → ((g' : G) (id : ℕ) → o ≡ some (g', some id) → Q g')
        → Landed (λ p'. Q p'.guild) (created api name p o)
    created-Landed Q name p none f = tt
    created-Landed Q name p (some (g', none)) f = tt
    created-Landed Q name p (some (g', some id)) f = f g' id refl

    -- After the operation the name is as desired, and every other name is as before.
    abbrev pub Fixes : G → Text → Option MemberRole → G → Type 0
    Fixes g k d g' = Exactly role g' k d × SameBut role g g' k

    update-Fixes :
        (p : Progress G) (k : Text) (i color : ℕ) (mentionable : Bool) (d : MemberRole)
        → Shown role p.guild k color mentionable i
        → Landed
            (λ p'. Fixes p.guild k (some d) p'.guild)
            (run_op api (update i d.color d.mentionable) p)
    unfolding run_op
    update-Fixes p k i color mentionable d (e, only) =
        updated-Landed (Fixes p.guild k (some d)) p _ (λ g' h.
          let (at, off) =
            Changes-of p.guild g' i (λ j. recolor d.color d.mentionable (role p.guild j))
              (documented.updates i d.color d.mentionable p.guild g' h) in
          let changes : Changes p.guild g' i (some (look k d.color d.mentionable)) =
            (at ∙ ap (recolor d.color d.mentionable) e, off) in
          (
            (i, Changes-Shown p.guild g' i d.color d.mentionable k changes only),
            Changes-SameBut p.guild g' i (some (look k d.color d.mentionable)) k changes
                (λ l f. name_of (role p.guild i) k color mentionable l e f)
                (λ l f. name_of _ k d.color d.mentionable l refl f),
          ))

    delete-Fixes :
        (p : Progress G) (k : Text) (i color : ℕ) (mentionable : Bool)
        → Shown role p.guild k color mentionable i
        → Landed (λ p'. Fixes p.guild k none p'.guild) (run_op api (delete i) p)
    unfolding run_op
    delete-Fixes p k i color mentionable (e, only) =
        deleted-Landed (Fixes p.guild k none) p _ (λ g' h.
          let changes = Changes-of p.guild g' i (λ _. none) (documented.deletes i p.guild g' h) in
          (
            Changes-NoneNamed p.guild g' i k changes only,
            Changes-SameBut p.guild g' i none k changes
                (λ l f. name_of (role p.guild i) k color mentionable l e f)
                (λ l f. elim (none≢some l f) [ ]),
          ))

    create-Fixes :
        (p : Progress G) (k : Text) (uuid : ℕ) (d : MemberRole)
        → d.mentionable ≡ true
        → NoneNamed role p.guild k
        → Landed (λ p'. Fixes p.guild k (some d) p'.guild) (run_op api (create k uuid d.color) p)
    unfolding run_op
    create-Fixes p k uuid d m free = created-Landed (Fixes p.guild k (some d)) k p _ (λ g' id h.
        let (fresh, now) = documented.creates k d.color true p.guild g' id h in
        let (at, off) = Changes-of p.guild g' id (λ _. some (look k d.color true)) now in
        let changes : Changes p.guild g' id (some (look k d.color d.mentionable)) =
          (at ∙ ap (λ b. some (look k d.color b)) (sym m), off) in
        (
          (
            id,
            Changes-Shown p.guild g' id d.color d.mentionable k changes
                (λ j l f n. elim (free j l f n) [ ]),
          ),
          Changes-SameBut p.guild g' id (some (look k d.color d.mentionable)) k changes
              (λ l f. elim (none≢some l (sym fresh ∙ f)) [ ])
              (λ l f. name_of _ k d.color d.mentionable l refl f),
        ))

    -- An operation that is found leads to the desired role, and none is found only where it is there.
    abbrev pub StepFixes :
        Progress G → Text → Option MemberRole → Option (Option ChangeOperation) → Type 0
    StepFixes p k d none = ⊥
    StepFixes p k d (some none) = Exactly role p.guild k d
    StepFixes p k d (some (some op)) = Landed (λ p'. Fixes p.guild k d p'.guild) (run_op api op p)

    -- A desired role has its key's name and may be mentioned.
    abbrev pub Desires : Text → Option MemberRole → Type 0
    Desires k none = Unit {0}
    Desires k (some d) = (d.name ≡ k) × (d.mentionable ≡ true)

    both-StepFixes :
        (p : Progress G) (k : Text) (c d : MemberRole)
        → Describes role p.guild k (some c)
        → (b : Bool) → should_update c d ≡ b
        → StepFixes p k (some d) (role_op (some c) (some d))
    unfolding role_op
    both-StepFixes p k c d (i, e, shown) true h =
        subst
          (λ b.
            StepFixes p k (some d)
              (if b then with_id (λ id. update id d.color d.mentionable) c.role_id else some none))
          (sym h)
          (subst (λ o. StepFixes p k (some d) (with_id (λ id. update id d.color d.mentionable) o))
            (sym e) (update-Fixes p k i c.color c.mentionable d shown))
    both-StepFixes p k c d (i, e, shown) false h =
        let (ec, em) = should_update-false c d h in
        subst
          (λ b.
            StepFixes p k (some d)
              (if b then with_id (λ id. update id d.color d.mentionable) c.role_id else some none))
          (sym h)
          (
            i,
            subst (λ m. Shown role p.guild k d.color m i) em
                (subst (λ n. Shown role p.guild k n c.mentionable i) ec shown),
          )

    pub role_op-StepFixes :
        (p : Progress G) (k : Text) (c d : Option MemberRole)
        → Describes role p.guild k c
        → Desires k d
        → (is_some c || is_some d) ≡ true
        → StepFixes p k d (role_op c d)
    unfolding role_op
    role_op-StepFixes p k none none h w known = ground arith
    role_op-StepFixes p k none (some d) h (n, m) known =
        subst
          (λ j.
            Landed (λ p'. Fixes p.guild k (some d) p'.guild)
              (run_op api (create j (uuid_or_nil d.uuid) d.color) p))
          (sym n) (create-Fixes p k (uuid_or_nil d.uuid) d m h)
    role_op-StepFixes p k (some c) none (i, e, shown) w known =
        subst (λ o. StepFixes p k none (with_id delete o)) (sym e)
          (delete-Fixes p k i c.color c.mentionable shown)
    role_op-StepFixes p k (some c) (some d) h w known =
        both-StepFixes p k c d h (should_update c d) refl
