-- ===== src/Pluralkit/Roles/Run.antt =====
-- The operations carried out at Discord and the roles assigned to the user
-- (crates/tulpje-mod-pluralkit/src/roles/update.rs, `handle`).
use tulpje.Prelude.{
  ℕ, suc, Bool, true, Option, none, some, List, [], ◌∷◌, ◌++◌, ◌+◌, ◌%◌, ◌^◌, ◌==◌, if◌then◌else◌,
  Text, get, insert,
}
use tulpje.Pluralkit.Roles.Stats.{UpdateCounts}
use tulpje.Pluralkit.Roles.Ops.{ChangeOperation, create, delete, update, RoleMap}

-- Discord's calls on a guild; `none` is an error. A created role comes with its identifier when the
-- answer is read.
pub record RoleApi (G : Type 0) : Type 0 where
  pub update_role : (id color : ℕ) (mentionable : Bool) → G → Option G
  pub create_role : (name : Text) (color : ℕ) (mentionable : Bool) → G → Option (G × Option ℕ)
  pub delete_role : (id : ℕ) → G → Option G
  pub add_member_role : (id : ℕ) → G → Option G

pub record Progress (G : Type 0) : Type 0 where
  pub guild : G
  pub done : UpdateCounts
  pub role_ids : List (Text × ℕ)
  -- What `update_role_progress` was called with, the oldest first.
  pub reports : List UpdateCounts

module _ {G : Type 0} (api : RoleApi G) where
  abbrev pub updated : Progress G → Option G → Option (Progress G)
  updated p none = none
  updated p (some g) =
      some (record p { guild = g; done = record p.done { update = (p.done.update + 1) % 2 ^ 16 } })

  abbrev pub created : Text → Progress G → Option (G × Option ℕ) → Option (Progress G)
  created name p none = none
  created name p (some (g, none)) = none
  created name p (some (g, some id)) = some (record p {
    guild = g;
    role_ids = insert name id p.role_ids;
    done = record p.done { create = (p.done.create + 1) % 2 ^ 16 };
  })

  abbrev pub deleted : Progress G → Option G → Option (Progress G)
  deleted p none = none
  deleted p (some g) =
      some (record p { guild = g; done = record p.done { delete = (p.done.delete + 1) % 2 ^ 16 } })

  unfoldable pub run_op : ChangeOperation → Progress G → Option (Progress G)
  run_op (update id color mentionable) p = updated p (api.update_role id color mentionable p.guild)
  run_op (create name uuid color) p = created name p (api.create_role name color true p.guild)
  run_op (delete id) p = deleted p (api.delete_role id p.guild)

  -- The user is told after every tenth step.
  abbrev pub report : ℕ → Progress G → Progress G
  report idx p = if idx % 10 == 0 then record p { reports = p.reports ++ (p.done ∷ []) } else p

  unfoldable pub run_ops : ℕ → List ChangeOperation → Progress G → Option (Progress G)
  run_ops idx [] p = some p
  run_ops idx (op ∷ ops) p = elim (run_op op p) [
    | none ↦ none
    | some p' ↦ run_ops (suc idx) ops (report idx p')
  ]

  abbrev pub assigned : Progress G → Option G → Option (Progress G)
  assigned p none = none
  assigned p (some g) =
      some (record p { guild = g; done = record p.done { assign = (p.done.assign + 1) % 2 ^ 16 } })

  -- A name without an identifier is passed over.
  unfoldable pub assign_roles : ℕ → List Text → Progress G → Option (Progress G)
  assign_roles idx [] p = some p
  assign_roles idx (name ∷ names) p = elim (get name p.role_ids) [
    | none ↦ assign_roles (suc idx) names p
    | some id ↦ elim (assigned p (api.add_member_role id p.guild)) [
      | none ↦ none
      | some p' ↦ assign_roles (suc idx) names (report idx p')
    ]
  ]

-- `role_name_id_map` at the start; `none` is the panic of `expect`.
unfoldable pub known_ids : RoleMap → Option (List (Text × ℕ))
known_ids [] = some []
known_ids ((name, role) ∷ m) = elim role.role_id [
  | none ↦ none
  | some id ↦ elim (known_ids m) [ none ↦ none | some ids ↦ some ((name, id) ∷ ids) ]
]
