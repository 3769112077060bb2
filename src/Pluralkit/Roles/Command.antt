-- ===== src/Pluralkit/Roles/Command.antt =====
-- What the command `pk roles update` ends with, on every path
-- (crates/tulpje-mod-pluralkit/src/roles/update.rs, `handle`).
use tulpje.Prelude.{
  ℕ, Option, none, some, List, [], ◌≡◌, ◌≢◌, sym, subst, arith, ◌==◌, ◌+◌, ◌≤◌, Text, text, length,
  Option-rule, if-rule,
}
use tulpje.Pluralkit.Util.{Member}
use tulpje.Pluralkit.Roles.Stats.{sum}
use tulpje.Pluralkit.Roles.Ops.{
  Role, ChangeOperation, get_desired_roles, get_current_roles, get_role_ops,
}
use tulpje.Pluralkit.Roles.Run.{Progress, run_ops, assign_roles, known_ids}
use tulpje.Pluralkit.Roles.Discord.{Look, Documented}
use tulpje.Pluralkit.Roles.Step.{Landed}
use tulpje.Pluralkit.Roles.Converge.{Returns, Enumerates, Landed-mono}
use tulpje.Pluralkit.Roles.Update.{UniqueAlters, Snapshot, Updated, get_role_ops-Updated}
use tulpje.Pluralkit.Roles.Messages.{
  Limit, over_limit, near_limit, within_limit, check_limit, discord_role_limit,
}
use tulpje.Pluralkit.Roles.Handle.{
  members_are, Env, Outcome, panicked, failed, told, canceled, updated_roles, finish, carry_out,
  confirm, plan, check, handle, other_roles, ask, reply, totals, start_progress,
}
use tulpje.Pluralkit.Roles.Messages.{confirm_message, role_limit_message, near_limit_message}
use tulpje.Pluralkit.Roles.Handle.{
  handle_get_system_members, get_user_roles, missing_names, on_members, on_settings, on_guild,
}
use tulpje.Pluralkit.Roles.Outcome.{
  get_current_roles-HasIds, known_ids-Returns, SameRoles, assign_roles-SameRoles, Updated-SameRoles,
}
use tulpje.Pluralkit.Roles.Ends.{Ends, check_limit-le, finish-Ends, reply-Ends, ask-Ends}

module _ {G : Type 0} (env : Env G) where
  module _ (role : G → ℕ → Option Look) (documented : Documented env.api role)
      (members : List Member) where
    abbrev pub Done : Progress G → Type 0
    Done p = Updated role env.api documented members env.start p.guild

    carry_out-Ends :
        (ops : List ChangeOperation) (missing : List Text) (roles : List Role)
        → ((ids : List (Text × ℕ)) → Landed Done (run_ops env.api 0 ops (start_progress env ids)))
        → Ends Done (carry_out env ops missing (get_current_roles roles))
    unfolding carry_out
    carry_out-Ends ops missing roles h =
        Option-rule (Ends Done) (known_ids (get_current_roles roles)) panicked
          (λ ids. elim (run_ops env.api 0 ops (start_progress env ids)) as (λ _. Outcome G) [
            | none ↦ failed
            | some p ↦ finish env (assign_roles env.api 0 missing p)
          ])
          (λ e.
            subst (Returns (λ _. Unit {0})) e
              (known_ids-Returns (get_current_roles roles) (get_current_roles-HasIds roles)))
          (λ ids _.
            Option-rule (Ends Done) (run_ops env.api 0 ops (start_progress env ids)) failed
              (λ p. finish env (assign_roles env.api 0 missing p)) (λ _. tt)
              (λ p e. finish-Ends env Done (assign_roles env.api 0 missing p) (
                Landed-mono role env.api documented
                  (λ p'. SameRoles role env.api documented p.guild p'.guild) Done
                  (assign_roles env.api 0 missing p)
                  (λ p' same.
                    Updated-SameRoles role env.api documented members env.start p.guild p'.guild
                      (subst (Landed Done) e (h ids)) same)
                  (assign_roles-SameRoles role env.api documented 0 missing p))))

    confirm-Ends :
        (ops : List ChangeOperation) (missing : List Text) (roles : List Role)
        → ((ids : List (Text × ℕ)) → Landed Done (run_ops env.api 0 ops (start_progress env ids)))
        → Ends Done (confirm env ops missing (get_current_roles roles))
    unfolding confirm
    confirm-Ends ops missing roles h =
        if-rule (Ends Done) (sum (totals env ops missing).total == 0)
          (reply env (text "Member roles are already up-to-date"))
          (ask env (env.confirm_prompt (confirm_message (totals env ops missing).total))
            (carry_out env ops missing (get_current_roles roles)))
          (λ _. reply-Ends env Done (text "Member roles are already up-to-date"))
          (λ _.
            ask-Ends env Done (env.confirm_prompt (confirm_message (totals env ops missing).total))
              (carry_out env ops missing (get_current_roles roles))
              (carry_out-Ends ops missing roles h))

    plan-Ends :
        (roles : List Role)
        → Snapshot role env.start roles
        → UniqueAlters roles
        → Enumerates env.order (get_current_roles roles) (get_desired_roles members)
        → Ends Done (plan env roles members)
    unfolding plan
    plan-Ends roles snap unique enumerates =
        Option-rule (Ends Done) (get_user_roles env.user_roles) failed
          (λ user_roles.
            elim (get_role_ops env.order (get_current_roles roles) (get_desired_roles members))
              as (λ _. Outcome G) [
                | none ↦ panicked
                | some ops ↦
                    confirm env ops (missing_names env.desired_order user_roles)
                      (get_current_roles roles)
              ])
          (λ _. tt)
          (λ user_roles _.
            Option-rule (Ends Done)
              (get_role_ops env.order (get_current_roles roles) (get_desired_roles members))
              panicked
              (λ ops.
                confirm env ops (missing_names env.desired_order user_roles)
                  (get_current_roles roles))
              (λ e.
                subst (Returns (λ ops. Landed Done (run_ops env.api 0 ops (start_progress env []))))
                  e (found []))
              (λ ops e. confirm-Ends ops (missing_names env.desired_order user_roles) roles (λ ids.
                subst
                  (Returns (λ ops. Landed Done (run_ops env.api 0 ops (start_progress env ids)))) e
                  (found ids))))
      where
        found :
            (ids : List (Text × ℕ))
            → Returns
                (λ ops.
                  Landed
                    (λ p. Updated role env.api documented members env.start p.guild)
                    (run_ops env.api 0 ops (start_progress env ids)))
                (get_role_ops env.order (get_current_roles roles) (get_desired_roles members))
        found ids =
            get_role_ops-Updated role env.api documented roles members env.order 0
              (start_progress env ids) snap unique enumerates

    Ends-and :
        (P : Progress G → Type 0) (Q : Type 0) (o : Outcome G)
        → Q
        → Ends P o
        → Ends (λ p. P p × Q) o
    Ends-and P Q panicked q h = h
    Ends-and P Q failed q h = tt
    Ends-and P Q (told _) q h = tt
    Ends-and P Q canceled q h = tt
    Ends-and P Q (updated_roles p) q h = (h, q)

    abbrev pub Good : List Role → Outcome G → Type 0
    Good roles = Ends (λ p. Done p × (length members + other_roles env roles ≤ discord_role_limit))

    check-Good :
        (roles : List Role)
        → Snapshot role env.start roles
        → UniqueAlters roles
        → Enumerates env.order (get_current_roles roles) (get_desired_roles members)
        → Good roles (check env roles members)
    unfolding check
    check-Good roles snap unique enumerates =
        go (check_limit (length members) (other_roles env roles))
          (check_limit-le (length members) (other_roles env roles))
          (plan-Ends roles snap unique enumerates)
      where
        go :
            (limit : Limit)
            → (limit ≢ over_limit → length members + other_roles env roles ≤ discord_role_limit)
            → Ends Done (plan env roles members)
            → Good roles (elim limit as (λ _. Outcome G) [
              | over_limit ↦ reply env (role_limit_message (length members) (other_roles env roles))
              | near_limit ↦
                  ask env
                    (env.near_prompt (near_limit_message (length members) (other_roles env roles)))
                    (plan env roles members)
              | within_limit ↦ plan env roles members
            ])
        go over_limit f h =
            reply-Ends env _ (role_limit_message (length members) (other_roles env roles))
        go near_limit f h =
            ask-Ends env _
              (env.near_prompt (near_limit_message (length members) (other_roles env roles)))
              (plan env roles members)
              (Ends-and Done _ (plan env roles members) (f (λ e. ground arith)) h)
        go within_limit f h = Ends-and Done _ (plan env roles members) (f (λ e. ground arith)) h

    settings-Good :
        (roles : List Role) (settings : Option (Option Text))
        → env.pk ≡ members_are members
        → Good roles (check env roles members)
        → Good roles (on_settings env roles settings)
    unfolding handle_get_system_members
    settings-Good roles none e h = tt
    settings-Good roles (some none) e h =
        reply-Ends env _ (text "### Error\nPluralKit module not set-up, please run `/pk setup`")
    settings-Good roles (some (some system_ref)) e h =
        Option-rule (Good roles) env.token failed
          (λ _. on_members env roles (handle_get_system_members env system_ref env.pk)) (λ _. tt)
          (λ _ _.
            subst
              (λ pk.
                Good roles (on_members env roles (handle_get_system_members env system_ref pk)))
              (sym e) h)

    -- The command in a guild whose roles are as listed and have different names where they end in
    -- " (Alter)", for members that PluralKit hands out, does not panic, whatever the prompts and
    -- the other calls answer. When it ends with an update, members' roles and other roles together
    -- are within Discord's limit, and all names that end in " (Alter)" are as the members want
    -- them, while all other roles are as before.
    pub handle-Good :
        (roles : List Role)
        → env.guild ≡ some (some roles)
        → env.pk ≡ members_are members
        → Snapshot role env.start roles
        → UniqueAlters roles
        → Enumerates env.order (get_current_roles roles) (get_desired_roles members)
        → Good roles (handle env)
    unfolding handle
    handle-Good roles in_guild pk snap unique enumerates =
        subst (λ g. Good roles (on_guild env g)) (sym in_guild)
          (if-rule (Good roles) env.deferred (on_settings env roles env.settings) failed
            (λ _. settings-Good roles env.settings pk (check-Good roles snap unique enumerates))
            (λ _. tt))
