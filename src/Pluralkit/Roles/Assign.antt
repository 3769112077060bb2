-- ===== src/Pluralkit/Roles/Assign.antt =====
-- The names whose roles are assigned to the user
-- (crates/tulpje-mod-pluralkit/src/roles/update.rs, `handle`).
use tulpje.Prelude.{
  ℕ, suc, Bool, true, false, Option, none, some, List, [], ◌∷◌, ◌≡◌, ◌⊎◌, inl, inr, refl, sym, ap,
  ◌∙◌, subst, arith, ◌+◌, ◌%◌, ◌^◌, ◌||◌, Text, Text-cases, Option-rule, is_some, get, insert,
  get-insert_same, get-insert_other, length, same, same_neq, All,
}
use tulpje.Pluralkit.Roles.Ops.{ChangeOperation, create, delete, update}
use tulpje.Pluralkit.Roles.Run.{
  RoleApi, Progress, run_op, run_ops, report, updated, created, deleted, assigned, assign_roles,
}
use tulpje.Pluralkit.Roles.Step.{Landed}
use tulpje.Pluralkit.Roles.Converge.{Returns}

-- The name has an identifier.
abbrev pub Knows : {G : Type 0} → Text → Progress G → Type 0
Knows k p = is_some (get k p.role_ids) ≡ true

abbrev pub creates : Text → List ChangeOperation → Bool
creates k [] = false
creates k (create name _ _ ∷ ops) = same k name || creates k ops
creates k (delete _ ∷ ops) = creates k ops
creates k (update _ _ _ ∷ ops) = creates k ops

insert-known :
    (k j : Text) (id : ℕ) (m : List (Text × ℕ))
    → (is_some (get k m) || same k j) ≡ true
    → is_some (get k (insert j id m)) ≡ true
insert-known k j id m h = elim (Text-cases k j) [
  | inl e ↦ ap (λ i. is_some (get i (insert j id m))) e ∙ ap is_some (get-insert_same j id m)
  | inr n ↦ ap is_some (get-insert_other k j id m n) ∙ ground (arith, same_neq k j n)
]

cases : (a b c : Bool) → (a || (b || c)) ≡ true → ((a || (b || false)) ≡ true) ⊎ (c ≡ true)
cases true b c h = inl refl
cases false true c h = inl refl
cases false false c h = inr h

or_true : (a c : Bool) → c ≡ true → (a || c) ≡ true
or_true true c h = refl
or_true false c h = h

pub All-mono :
    {A : Type 0} (P Q : A → Type 0) (xs : List A) → ((a : A) → P a → Q a) → All P xs → All Q xs
All-mono P Q [] f h = tt
All-mono P Q (x ∷ xs) f (h, hs) = (f x h, All-mono P Q xs f hs)

Returns-mono :
    {A : Type 0} (P Q : A → Type 0) (o : Option A)
    → ((a : A) → P a → Q a)
    → Returns P o
    → Returns Q o
Returns-mono P Q none f h = h
Returns-mono P Q (some a) f h = f a h

wrapped : (a n : ℕ) → ((a + 1) % 2 ^ 16 + n) % 2 ^ 16 ≡ (a + suc n) % 2 ^ 16
wrapped a n = omega arith

module _ {G : Type 0} (api : RoleApi G) where
  run_op-Knows :
      (k : Text) (op : ChangeOperation) (p : Progress G)
      → (is_some (get k p.role_ids) || creates k (op ∷ [])) ≡ true
      → Landed (Knows k) (run_op api op p)
  unfolding run_op
  run_op-Knows k (update id color m) p h = go (api.update_role id color m p.guild)
    where
      go : (o : Option G) → Landed (Knows k) (updated api p o)
      go none = tt
      go (some g) = ground arith
  run_op-Knows k (delete id) p h = go (api.delete_role id p.guild)
    where
      go : (o : Option G) → Landed (Knows k) (deleted api p o)
      go none = tt
      go (some g) = ground arith
  run_op-Knows k (create name uuid color) p h = go (api.create_role name color true p.guild)
    where
      go : (o : Option (G × Option ℕ)) → Landed (Knows k) (created api name p o)
      go none = tt
      go (some (g, none)) = tt
      go (some (g, some id)) = insert-known k name id p.role_ids (ground arith)

  report-ids : (idx : ℕ) (p : Progress G) → (report api idx p).role_ids ≡ p.role_ids
  report-ids idx p = ground arith

  later :
      (k : Text) (op : ChangeOperation) (ops : List ChangeOperation) (p : Progress G)
      → (is_some (get k p.role_ids) || creates k (op ∷ ops)) ≡ true
      → ((is_some (get k p.role_ids) || creates k (op ∷ [])) ≡ true) ⊎ (creates k ops ≡ true)
  later k (create name uuid color) ops p h = cases (is_some (get k p.role_ids)) (same k name) _ h
  later k (delete id) ops p h = cases (is_some (get k p.role_ids)) false _ h
  later k (update id color m) ops p h = cases (is_some (get k p.role_ids)) false _ h

  pub run_ops-Knows :
      (k : Text) (idx : ℕ) (ops : List ChangeOperation) (p : Progress G)
      → (is_some (get k p.role_ids) || creates k ops) ≡ true
      → Landed (Knows k) (run_ops api idx ops p)
  unfolding run_ops
  run_ops-Knows k idx [] p h = ground arith
  run_ops-Knows k idx (op ∷ ops) p h =
      Option-rule (Landed (Knows k)) (run_op api op p) none
        (λ p'. run_ops api (suc idx) ops (report api idx p')) (λ _. tt)
        (λ p₁ e. run_ops-Knows k (suc idx) ops (report api idx p₁) (elim (later k op ops p h) [
          | inl now ↦
              ap (λ ids. is_some (get k ids) || creates k ops) (report-ids idx p₁)
              ∙ ap (λ b. b || creates k ops) (subst (Landed (Knows k)) e (run_op-Knows k op p now))
          | inr rest ↦ or_true (is_some (get k (report api idx p₁).role_ids)) (creates k ops) rest
        ]))

  -- Giving a role to the user never fails.
  abbrev pub AssignsAlways : Type 0
  AssignsAlways = (id : ℕ) (g : G) → (g' : G) × (api.add_member_role id g ≡ some g')

  report-assign : (idx : ℕ) (p : Progress G) → (report api idx p).done.assign ≡ p.done.assign
  report-assign idx p = ground arith

  none_known : (o : Option ℕ) → o ≡ none → is_some o ≡ true → ⊥
  none_known o e h = ground arith

  -- So many names more have been assigned.
  abbrev pub Assigned : Progress G → ℕ → Progress G → Type 0
  Assigned p n p' = p'.done.assign % 2 ^ 16 ≡ (p.done.assign + n) % 2 ^ 16

  pub assign_roles-counted :
      AssignsAlways
      → (idx : ℕ) (names : List Text) (p : Progress G) → All (λ k. Knows k p) names
      → Returns (Assigned p (length names)) (assign_roles api idx names p)
  unfolding assign_roles
  assign_roles-counted always idx [] p all = omega arith
  assign_roles-counted always idx (name ∷ names) p (known, all) =
      Option-rule (Returns (Assigned p (suc (length names)))) (get name p.role_ids)
        (assign_roles api (suc idx) names p)
        (λ id.
          elim (assigned api p (api.add_member_role id p.guild)) as (λ _. Option (Progress G)) [
            | none ↦ none
            | some p' ↦ assign_roles api (suc idx) names (report api idx p')
          ])
        (λ e. elim (none_known (get name p.role_ids) e known) [ ])
        (λ id _.
          let (g', e) = always id p.guild in
          let p₁ : Progress G = record p {
            guild = g';
            done = record p.done { assign = (p.done.assign + 1) % 2 ^ 16 };
          } in
          subst
            (λ o.
              Returns (Assigned p (suc (length names)))
                (elim (assigned api p o) as (λ _. Option (Progress G)) [
                  | none ↦ none
                  | some p' ↦ assign_roles api (suc idx) names (report api idx p')
                ]))
            (sym e)
            (Returns-mono (Assigned (report api idx p₁) (length names))
              (Assigned p (suc (length names)))
              (assign_roles api (suc idx) names (report api idx p₁))
              (λ p' h.
                h
                ∙ ap (λ n. (n + length names) % 2 ^ 16) (report-assign idx p₁)
                ∙ wrapped p.done.assign (length names))
              (assign_roles-counted always (suc idx) names (report api idx p₁) (
                All-mono (λ k. Knows k p) (λ k. Knows k (report api idx p₁)) names
                  (λ k h. ap (λ ids. is_some (get k ids)) (report-ids idx p₁) ∙ h) all))))
