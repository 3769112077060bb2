-- ===== src/Tests/Pluralkit.antt =====
-- The role update's theorems (crates/tulpje-mod-pluralkit/src/roles) at a concrete guild.
use tulpje.Prelude.{
  true, false, none, some, [], ◌∷◌, ◌≡◌, refl, length, ◌+◌, ◌≤◌, text, is_some, All, get,
}
use tulpje.Pluralkit.Util.{get_member_name}
use tulpje.Pluralkit.Roles.Stats.{new_counts}
use tulpje.Pluralkit.Roles.Ops.{
  create, delete, update, desired_role, get_desired_roles, get_current_roles, get_role_ops,
}
use tulpje.Pluralkit.Roles.Run.{Progress, run_ops, assign_roles, known_ids}
use tulpje.Pluralkit.Roles.Assign.{Assigned}
use tulpje.Pluralkit.Roles.Assigned.{run_ops-assigns}
use tulpje.Pluralkit.Roles.Step.{Landed}
use tulpje.Pluralkit.Roles.Converge.{Returns}
use tulpje.Pluralkit.Roles.Update.{Updated, get_role_ops-Updated}
use tulpje.Pluralkit.Roles.Handle.{Env, members_are, other_roles, handle}
use tulpje.Pluralkit.Roles.Command.{handle-Good}
use tulpje.Pluralkit.Roles.Ends.{Ends}
use tulpje.Tests.RoleSample.{
  Shows, shows, sample_api, sample_documented, ann, bob, cid, sample_roles, sample_members,
  sample_guild, sample_ops, sample_Snapshot, sample_UniqueAlters, sample_Enumerates,
}

abbrev sample_start : Progress Shows
sample_start = record { guild = sample_guild; done = new_counts; role_ids = []; reports = [] }

get_role_ops-Updated_example :
    Returns
      (λ ops.
        Landed
          (λ p'. Updated shows sample_api sample_documented sample_members sample_guild p'.guild)
          (run_ops sample_api 0 ops sample_start))
      (get_role_ops
        (bob ∷ ann ∷ cid ∷ [])
        (get_current_roles sample_roles)
        (get_desired_roles sample_members))
get_role_ops-Updated_example =
    get_role_ops-Updated shows sample_api sample_documented sample_roles sample_members
      (bob ∷ ann ∷ cid ∷ []) 0 sample_start sample_Snapshot sample_UniqueAlters sample_Enumerates

abbrev sample_env : Env Shows
sample_env = record {
  api = sample_api;
  start = sample_guild;
  guild = some (some sample_roles);
  deferred = true;
  settings = some (some (text "system"));
  token = some none;
  pk = members_are sample_members;
  near_prompt = λ _. some true;
  confirm_prompt = λ _. some true;
  user_roles = record {
    cached_member = some none;
    fetch_member = some (2 ∷ []);
    cached_role = λ _. some none;
    fetch_role = λ id. some (record { id = id; name = cid; color = 8; mentionable = false });
  };
  delivers = λ _. true;
  order = bob ∷ ann ∷ cid ∷ [];
  desired_order = ann ∷ bob ∷ [];
}

handle-Good_example :
    Ends
      (λ p.
        Updated shows sample_api sample_documented sample_members sample_guild p.guild
        × (length sample_members + other_roles sample_env sample_roles ≤ 250))
      (handle sample_env)
handle-Good_example =
    handle-Good sample_env shows sample_documented sample_members sample_roles refl refl
      sample_Snapshot sample_UniqueAlters sample_Enumerates

abbrev ready_start : Progress Shows
ready_start = record {
  guild = sample_guild;
  done = new_counts;
  role_ids = (ann, 1) ∷ (cid, 2) ∷ [];
  reports = [];
}

ready_ids : known_ids (get_current_roles sample_roles) ≡ some ((ann, 1) ∷ (cid, 2) ∷ [])
unfolding known_ids get_current_roles
ready_ids = refl

bob_and_ann : All (λ k. is_some (get k (get_desired_roles sample_members)) ≡ true) (bob ∷ ann ∷ [])
unfolding get_desired_roles desired_role get_member_name
bob_and_ann = (refl, (refl, tt))

run_ops-assigns_example :
    Landed
      (λ p'. Returns (Assigned sample_api p' 2) (assign_roles sample_api 0 (bob ∷ ann ∷ []) p'))
      (run_ops sample_api 0
        (create bob 12 10070709 ∷ update 1 16711680 true ∷ delete 2 ∷ [])
        ready_start)
run_ops-assigns_example =
    run_ops-assigns sample_api sample_roles sample_members (bob ∷ ann ∷ cid ∷ []) (bob ∷ ann ∷ [])
      (create bob 12 10070709 ∷ update 1 16711680 true ∷ delete 2 ∷ []) ready_start 0
      (λ id g. (g, refl)) sample_Enumerates sample_ops ready_ids bob_and_ann
