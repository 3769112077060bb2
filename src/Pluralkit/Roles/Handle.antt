-- ===== src/Pluralkit/Roles/Handle.antt =====
-- The command `pk roles update` (crates/tulpje-mod-pluralkit/src/roles/update.rs, `handle`).
use tulpje.Prelude.{
  ℕ, Bool, true, false, not, Option, none, some, List, [], ◌∷◌, ◌++◌, ◌-◌, ◌==◌, ◌%◌, ◌^◌,
  if◌then◌else◌, Text, text, contains, ends_with, length, map, filter,
}
use tulpje.Pluralkit.Util.{Member}
use tulpje.Pluralkit.Roles.Stats.{UpdateStats, new_counts, new_stats, sum}
use tulpje.Pluralkit.Roles.Ops.{
  Role, RoleMap, ChangeOperation, get_desired_roles, get_current_roles, get_role_ops, count_ops,
}
use tulpje.Pluralkit.Roles.Run.{RoleApi, Progress, run_ops, assign_roles, known_ids}
use tulpje.Pluralkit.Roles.Messages.{
  over_limit, near_limit, within_limit, check_limit, role_limit_message, near_limit_message,
  confirm_message, success_message,
}

-- PluralKit's answer: members, an error with a code, or another error.
pub data PkAnswer : Type 0 where
  members_are : List Member → PkAnswer
  pk_error : ℕ → PkAnswer
  other_error : PkAnswer

pub data Fetched : Type 0 where
  fetched : List Member → Fetched
  -- The user has been told what is wrong.
  told_user : Text → Fetched
  fetch_failed : Fetched

-- What the cache and Discord answer about a user's roles; the outer `none` is an error.
pub record RoleSource : Type 0 where
  pub cached_member : Option (Option (List ℕ))
  pub fetch_member : Option (List ℕ)
  pub cached_role : ℕ → Option (Option Role)
  pub fetch_role : ℕ → Option Role

abbrev pub get_role : RoleSource → ℕ → Option Role
get_role source id = elim (source.cached_role id) [
  | none ↦ none
  | some none ↦ source.fetch_role id
  | some (some role) ↦ some role
]

unfoldable pub get_roles : RoleSource → List ℕ → Option (List Role)
get_roles source [] = some []
get_roles source (id ∷ ids) = elim (get_role source id) [
  | none ↦ none
  | some role ↦ elim (get_roles source ids) [ none ↦ none | some roles ↦ some (role ∷ roles) ]
]

unfoldable pub get_user_roles : RoleSource → Option (List Role)
get_user_roles source = elim source.cached_member [
  | none ↦ none
  | some (some ids) ↦ get_roles source ids
  | some none ↦ elim source.fetch_member [ none ↦ none | some ids ↦ get_roles source ids ]
]

-- All that the command asks for: `none` is an error, and `delivers` tells which replies arrive.
pub record Env (G : Type 0) : Type 0 where
  pub api : RoleApi G
  pub start : G
  pub guild : Option (Option (List Role))
  pub deferred : Bool
  -- The system that the guild's settings name, if it is set up.
  pub settings : Option (Option Text)
  pub token : Option (Option Text)
  pub pk : PkAnswer
  pub near_prompt : Text → Option Bool
  pub confirm_prompt : Text → Option Bool
  pub user_roles : RoleSource
  pub delivers : Text → Bool
  -- The orders in which the sets of all names and of the desired names are walked.
  pub order : List Text
  pub desired_order : List Text

pub data Outcome (G : Type 0) : Type 0 where
  panicked : Outcome G
  failed : Outcome G
  told : Text → Outcome G
  canceled : Outcome G
  updated_roles : Progress G → Outcome G

-- `desired_user_role_names.difference(&current_user_role_names)`.
unfoldable pub missing_names : List Text → List Role → List Text
missing_names desired_order user_roles =
    filter
      (λ name. not (
        contains name
          (map (λ r. r.name) (filter (λ r. ends_with (text "(Alter)") r.name) user_roles))))
      desired_order

module _ {G : Type 0} (env : Env G) where
  unfoldable pub reply : Text → Outcome G
  reply message = if env.delivers message then told message else failed

  unfoldable pub handle_get_system_members : Text → PkAnswer → Fetched
  handle_get_system_members system_ref (members_are members) = fetched members
  handle_get_system_members system_ref (pk_error code) =
      if code == 30001
      then (if env.delivers
            (text "### Error\nMember list for `" ++ system_ref ++ text "` is private")
          then told_user (text "### Error\nMember list for `" ++ system_ref ++ text "` is private")
          else fetch_failed)
      else (if code == 20001
          then (if env.delivers (
                text "### Error\nPluralKit can't find this system, does `"
                ++ system_ref
                ++ text "` exist?")
              then told_user (
                  text "### Error\nPluralKit can't find this system, does `"
                  ++ system_ref
                  ++ text "` exist?")
              else fetch_failed)
          else fetch_failed)
  handle_get_system_members system_ref other_error = fetch_failed

  abbrev pub start_progress : List (Text × ℕ) → Progress G
  start_progress ids = record { guild = env.start; done = new_counts; role_ids = ids; reports = [] }

  abbrev pub finish : Option (Progress G) → Outcome G
  finish none = failed
  finish (some p) = if env.delivers (success_message p.done) then updated_roles p else failed

  unfoldable pub carry_out : List ChangeOperation → List Text → RoleMap → Outcome G
  carry_out ops missing current = elim (known_ids current) [
    | none ↦ panicked
    | some ids ↦ elim (run_ops env.api 0 ops (start_progress ids)) [
      | none ↦ failed
      | some p ↦ finish (assign_roles env.api 0 missing p)
    ]
  ]

  abbrev pub totals : List ChangeOperation → List Text → UpdateStats
  totals ops missing =
      let (created, deleted, updated) = count_ops ops (0, 0, 0) in
      new_stats created updated deleted (length missing % 2 ^ 16)

  abbrev pub ask : Option Bool → Outcome G → Outcome G
  ask none go_on = failed
  ask (some false) go_on = canceled
  ask (some true) go_on = go_on

  unfoldable pub confirm : List ChangeOperation → List Text → RoleMap → Outcome G
  confirm ops missing current =
      if sum (totals ops missing).total == 0
      then reply (text "Member roles are already up-to-date")
      else ask (env.confirm_prompt (confirm_message (totals ops missing).total))
          (carry_out ops missing current)

  unfoldable pub plan : List Role → List Member → Outcome G
  plan roles members = elim (get_user_roles env.user_roles) [
    | none ↦ failed
    | some user_roles ↦
        elim (get_role_ops env.order (get_current_roles roles) (get_desired_roles members)) [
          | none ↦ panicked
          | some ops ↦
              confirm ops (missing_names env.desired_order user_roles) (get_current_roles roles)
        ]
  ]

  abbrev pub other_roles : List Role → ℕ
  other_roles roles = length roles - length (get_current_roles roles)

  unfoldable pub check : List Role → List Member → Outcome G
  check roles members = elim (check_limit (length members) (other_roles roles)) [
    | over_limit ↦ reply (role_limit_message (length members) (other_roles roles))
    | near_limit ↦
        ask (env.near_prompt (near_limit_message (length members) (other_roles roles)))
          (plan roles members)
    | within_limit ↦ plan roles members
  ]

  abbrev pub on_members : List Role → Fetched → Outcome G
  on_members roles (fetched members) = check roles members
  on_members roles (told_user message) = told message
  on_members roles fetch_failed = failed

  abbrev pub on_token : List Role → Text → Option (Option Text) → Outcome G
  on_token roles system_ref none = failed
  on_token roles system_ref (some token) =
      on_members roles (handle_get_system_members system_ref env.pk)

  abbrev pub on_settings : List Role → Option (Option Text) → Outcome G
  on_settings roles none = failed
  on_settings roles (some none) =
      reply (text "### Error\nPluralKit module not set-up, please run `/pk setup`")
  on_settings roles (some (some system_ref)) = on_token roles system_ref env.token

  -- A command outside a guild is `unreachable!`.
  abbrev pub on_guild : Option (Option (List Role)) → Outcome G
  on_guild none = failed
  on_guild (some none) = panicked
  on_guild (some (some roles)) = if env.deferred then on_settings roles env.settings else failed

  unfoldable pub handle : Outcome G
  handle = on_guild env.guild
