-- ===== src/Pluralkit/Fronts/Bounded.antt =====
-- The commands and services keep the follows of every guild within the limit
-- (crates/tulpje-mod-pluralkit/src/notify/add.rs, remove.rs, the services).
use tulpje.Prelude.{
  ℕ, Bool, true, false, Option, none, some, List, [], ◌∷◌, ◌≡◌, ◌<◌, refl, subst, arith, Text, ◌==◌,
  leb, Bool-cases, inl, inr,
}
use tulpje.Pluralkit.Util.{SystemRef}
use tulpje.Pluralkit.Database.Tables.{ModPkSystem, NotifySystemRow}
use tulpje.Pluralkit.Database.Action.{World, Action, ◌>>=◌}
use tulpje.Pluralkit.Database.Rules.{Keeps, bind-Keeps, bind-rule, query-rule}
use tulpje.Pluralkit.Database.Notify.{get_guild_follow_count, add_notify_system}
use tulpje.Pluralkit.Fronts.Remote.{Remote, FrontAnswer, front_is, front_error, front_failed}
use tulpje.Pluralkit.Fronts.Follow.{
  add, add_with, add_ref, add_system, add_new, add_under_limit, store_follow, remove, check_front,
  handle_private_front,
}
use tulpje.Pluralkit.Fronts.Services.{front_tick, system_tick}
use tulpje.Pluralkit.Fronts.Limits.{IsBounded, of_guild, filter-IsBounded, with_follow-IsBounded}
use tulpje.Pluralkit.Fronts.Kept.{
  still, update_system-KeepsI, resolve_system_from_reference-KeepsI, handle_system_ref-KeepsI,
  get_notify_channel-KeepsI, does_guild_follow-KeepsI, system_tick-KeepsI,
}
use tulpje.Pluralkit.Fronts.Dropped.{remove-Kept, front_tick-Kept}

module _ {G : Type 0} (remote : Remote G) (guild : ℕ) where
  -- There is room for one more.
  abbrev Roomy : List NotifySystemRow → Type 0
  Roomy fs = IsBounded fs × (of_guild guild fs < 50)

  abbrev Bounds : {A : Type 0} → Action G A → Type 0
  Bounds m = Keeps (λ t. IsBounded t.follows) m

  -- From room to bounds.
  record Uses {A : Type 0} (m : Action G A) : Type 0 where
    uses : (w : World G) → Roomy w.tables.follows → IsBounded (m w).1.tables.follows

  bind-Uses :
      {A B : Type 0} {m : Action G A} {f : A → Action G B}
      → Keeps (λ t. Roomy t.follows) m
      → ((a : A) → Uses (f a))
      → Uses (m >>= f)
  bind-Uses {A} {B} {m} {f} h k = record {
    uses = λ w i.
        bind-rule (λ r w'. Roomy w'.tables.follows) (λ r w'. IsBounded w'.tables.follows) m f w
          (h.keeps w i) (λ w' i. i.0) (λ a w' i. (k a).uses w' i);
  }

  use-Bounds : {A : Type 0} {m : Action G A} → Bounds m → Uses m
  use-Bounds h = record { uses = λ w i. h.keeps w i.0 }

  then-Uses :
      {A B : Type 0} {m : Action G A} {f : A → Action G B}
      → Uses m
      → ((a : A) → Bounds (f a))
      → Uses (m >>= f)
  then-Uses {A} {B} {m} {f} h k = record {
    uses = λ w i.
        bind-rule (λ r w'. IsBounded w'.tables.follows) (λ r w'. IsBounded w'.tables.follows) m f w
          (h.uses w i) (λ w' i. i) (λ a w' i. (k a).keeps w' i);
  }

  add_notify_system-Uses : (system : ℕ) → Uses (add_notify_system remote.postgres guild system)
  unfolding add_notify_system
  add_notify_system-Uses system = record {
    uses = λ w i.
        query-rule (λ r w'. IsBounded w'.tables.follows) remote.postgres _ w (λ _. i.0)
          (λ now _ _. i.0)
          (λ now a t _ e.
            subst IsBounded (ground arith)
              (with_follow-IsBounded guild system w.tables.follows i.0 i.1));
  }

  check_front-Roomy :
      (message : Text) (answer : FrontAnswer)
      → Keeps (λ t. Roomy t.follows) (check_front remote message answer)
  check_front-Roomy message (front_is front) = still remote Roomy (λ w. refl)
  check_front-Roomy message (front_error code) = elim (Bool-cases (code == 30004)) [
    | inl e ↦
        rw e (bind-Keeps (still remote Roomy (λ w. refl)) (λ _. still remote Roomy (λ w. refl)))
    | inr e ↦ rw e (still remote Roomy (λ w. refl))
  ]
  check_front-Roomy message front_failed = still remote Roomy (λ w. refl)

  store_follow-Uses : (system : ModPkSystem) (b : Bool) → Uses (store_follow remote guild system b)
  store_follow-Uses system true = use-Bounds (still remote IsBounded (λ w. refl))
  store_follow-Uses system false =
      bind-Uses (update_system-KeepsI remote Roomy system) λ _.
        then-Uses (add_notify_system-Uses system.uuid) (λ _. still remote IsBounded (λ w. refl))

  add_under_limit-Uses :
      (r : SystemRef) (system : ModPkSystem) → Uses (add_under_limit remote guild r system false)
  unfolding handle_private_front
  add_under_limit-Uses r system =
      bind-Uses (bind-Keeps (still remote Roomy (λ w. refl)) (check_front-Roomy _))
        (store_follow-Uses system)

  add_under_limit-Bounds :
      (r : SystemRef) (system : ModPkSystem) (n : ℕ) (w : World G)
      → IsBounded w.tables.follows
      → n ≡ of_guild guild w.tables.follows
      → IsBounded (add_under_limit remote guild r system (leb 50 n) w).1.tables.follows
  add_under_limit-Bounds r system n w i e = elim (Bool-cases (leb 50 n)) [
    | inl full ↦ rw full i
    | inr room ↦ rw room ((add_under_limit-Uses r system).uses w (i, ground arith))
  ]

  add_new-Bounds :
      (r : SystemRef) (system : ModPkSystem) (b : Bool) → Bounds (add_new remote guild r system b)
  unfolding get_guild_follow_count
  add_new-Bounds r system true = still remote IsBounded (λ w. refl)
  add_new-Bounds r system false = record {
    keeps = λ w i.
        bind-rule
          (λ o w'.
            IsBounded w'.tables.follows
            × ((n : ℕ) → o ≡ some n → n ≡ of_guild guild w'.tables.follows))
          (λ o w'. IsBounded w'.tables.follows) (get_guild_follow_count remote.postgres guild) _ w
          (query-rule
            (λ o w'.
              IsBounded w'.tables.follows
              × ((n : ℕ) → o ≡ some n → n ≡ of_guild guild w'.tables.follows))
            remote.postgres _ w (λ _. (i, λ n e. ground arith))
            (λ now _ e. (i, λ n e. ground arith))
            (λ now a t _ e. (subst IsBounded (ground arith) i, λ n f. ground arith)))
          (λ w' q. q.0) (λ n w' q. add_under_limit-Bounds r system n w' q.0 (q.1 n refl));
  }

  add_system-Bounds :
      (r : SystemRef) (o : Option ModPkSystem) → Bounds (add_system remote guild r o)
  add_system-Bounds r none = still remote IsBounded (λ w. refl)
  add_system-Bounds r (some system) =
      bind-Keeps (does_guild_follow-KeepsI remote IsBounded guild system.uuid)
        (add_new-Bounds r system)

  add_ref-Bounds : (o : Option SystemRef) → Bounds (add_ref remote guild o)
  add_ref-Bounds none = still remote IsBounded (λ w. refl)
  add_ref-Bounds (some r) =
      bind-Keeps (resolve_system_from_reference-KeepsI remote IsBounded r) (add_system-Bounds r)

  add_with-Bounds : (reference : Text) (o : Option ℕ) → Bounds (add_with remote guild reference o)
  add_with-Bounds reference none = still remote IsBounded (λ w. refl)
  add_with-Bounds reference (some channel) =
      bind-Keeps (handle_system_ref-KeepsI remote IsBounded reference) add_ref-Bounds

  add-Bounds : (reference : Text) → Bounds (add remote guild reference)
  unfolding add
  add-Bounds reference =
      bind-Keeps (get_notify_channel-KeepsI remote IsBounded guild) (add_with-Bounds reference)

-- What touches the follows, one at a time.
pub data Job : Type 0 where
  follow : (guild : ℕ) (reference : Text) → Job
  unfollow : (guild : ℕ) (reference : Text) → Job
  fronts : Job
  systems : Job

module _ {G : Type 0} (remote : Remote G) where
  -- A job that has panicked ends, and the next one begins afresh.
  abbrev begun : World G → World G
  begun w = record w { panicked = false }

  unfoldable pub run_job : Job → World G → World G
  run_job (follow guild reference) w = (add remote guild reference (begun w)).1
  run_job (unfollow guild reference) w = (remove remote guild reference (begun w)).1
  run_job fronts w = (front_tick remote (begun w)).1
  run_job systems w = (system_tick remote (begun w)).1

  unfoldable pub run_jobs : List Job → World G → World G
  run_jobs [] w = w
  run_jobs (job ∷ jobs) w = run_jobs jobs (run_job job w)

  run_job-IsBounded :
      (job : Job) (w : World G)
      → IsBounded w.tables.follows
      → IsBounded (run_job job w).tables.follows
  unfolding run_job
  run_job-IsBounded (follow guild reference) w i =
      (add-Bounds remote guild reference).keeps (begun w) i
  run_job-IsBounded (unfollow guild reference) w i =
      (remove-Kept remote IsBounded filter-IsBounded guild reference).keeps (begun w) i
  run_job-IsBounded fronts w i =
      (front_tick-Kept remote IsBounded filter-IsBounded).keeps (begun w) i
  run_job-IsBounded systems w i = (system_tick-KeepsI remote IsBounded).keeps (begun w) i

  -- Commands that follow or unfollow a system and ticks of the two services, in any order but one
  -- at a time and whatever fails in them, leave every guild with at most fifty followed systems,
  -- each followed once, if it was so before.
  pub run_jobs-IsBounded :
      (jobs : List Job) (w : World G)
      → IsBounded w.tables.follows
      → IsBounded (run_jobs jobs w).tables.follows
  unfolding run_jobs
  run_jobs-IsBounded [] w i = i
  run_jobs-IsBounded (job ∷ jobs) w i =
      run_jobs-IsBounded jobs (run_job job w) (run_job-IsBounded job w i)
