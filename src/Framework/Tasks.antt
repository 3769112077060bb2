-- ===== src/Framework/Tasks.antt =====
-- Which tasks' jobs run (crates/tulpje-framework/src/scheduler.rs).
use tulpje.Prelude.{
  ℕ, Bool, true, false, not, ◌&&◌, ◌||◌, Option, none, some, List, [], ◌∷◌, ◌≡◌, refl, sym, ap, ◌∙◌,
  subst, arith, Text, same, get, insert, get-insert_same, ◌==◌, ==_refl, ==_iff, Bool-cases, inl,
  inr,
}
use tulpje.Framework.Scheduler.{
  Cron, Scheduler, SchedulerTaskMessage, start, enable, disable, Received, message, shutdown,
  Finish, panicked, waiting, stopped, without_key, enabled, removed, enable_task, disable_task,
  enable_all, on_message, run,
}

-- What is relied on of the cron scheduler: a job runs from its insertion to its removal, under an
-- identifier that no running job has.
pub record Documented {C : Type 0} (cron : Cron C) (runs : C → ℕ → Bool) : Type 0 where
  pub inserts :
      (name : Text) (c : C)
      → (runs c (cron.insert_job name c).1 ≡ false)
        × ((i : ℕ)
            → runs (cron.insert_job name c).0 i ≡ ((i == (cron.insert_job name c).1) || runs c i))
  pub removes :
      (id : ℕ) (c : C) (i : ℕ) → runs (cron.remove_job id c) i ≡ (runs c i && not (i == id))

-- The loop goes on, or it has stopped: it has not panicked.
abbrev pub Lives : {C : Type 0} → Finish C → Type 0
Lives panicked = ⊥
Lives (waiting s) = Unit {0}
Lives (stopped c) = Unit {0}

module _ {C : Type 0} (cron : Cron C) where
  abbrev Ready : Option (Scheduler C) → Type 0
  Ready none = ⊥
  Ready (some s) = (c : C) × (s.scheduler ≡ some c)

  enable_task-Ready :
      (name : Text) (s : Scheduler C) → Ready (some s) → Ready (enable_task cron name s)
  unfolding enable_task
  enable_task-Ready name s (c, e) =
      subst
        (λ o. Ready (elim o as (λ _. Option (Scheduler C)) [
          | none ↦ none
          | some c ↦ some (enabled cron name s.job_map (cron.insert_job name c))
        ]))
        (sym e) ((cron.insert_job name c).0, refl)

  enable_all-Ready :
      (names : List Text) (s : Scheduler C) → Ready (some s) → Ready (enable_all cron names s)
  unfolding enable_all
  enable_all-Ready [] s h = h
  enable_all-Ready (name ∷ names) s h =
      go (enable_task cron name s) (enable_task-Ready name s h) (enable_all-Ready names)
    where
      go :
          (o : Option (Scheduler C))
          → Ready o
          → ((s : Scheduler C) → Ready (some s) → Ready (enable_all cron names s))
          → Ready (elim o as (λ _. Option (Scheduler C)) [
            | none ↦ none
            | some s' ↦ enable_all cron names s'
          ])
      go none h f = h
      go (some s') h f = f s' h

  disable_task-Ready :
      (name : Text) (s : Scheduler C) → Ready (some s) → Ready (disable_task cron name s)
  unfolding disable_task
  disable_task-Ready name s (c, e) = go (get name s.job_map)
    where
      go :
          (o : Option ℕ)
          → Ready (elim o as (λ _. Option (Scheduler C)) [
            | none ↦ some s
            | some id ↦ removed cron name id s s.scheduler
          ])
      go none = (c, e)
      go (some id) =
          subst (λ o. Ready (removed cron name id s o)) (sym e) (cron.remove_job id c, refl)

  on_message-Ready :
      (m : SchedulerTaskMessage) (s : Scheduler C) → Ready (some s) → Ready (on_message cron m s)
  unfolding on_message
  on_message-Ready (start names) s h = enable_all-Ready names s h
  on_message-Ready (enable name) s h = enable_task-Ready name s h
  on_message-Ready (disable name) s h = disable_task-Ready name s h

  run-keeps : (rs : List Received) (s : Scheduler C) → Ready (some s) → Lives (run cron rs s)
  unfolding run
  run-keeps [] s h = tt
  run-keeps (shutdown ∷ rs) s h = tt
  run-keeps (message m ∷ rs) s h = go (on_message cron m s) (on_message-Ready m s h) (run-keeps rs)
    where
      go :
          (o : Option (Scheduler C))
          → Ready o
          → ((s : Scheduler C) → Ready (some s) → Lives (run cron rs s))
          → Lives (elim o as (λ _. Finish C) [ none ↦ panicked | some s' ↦ run cron rs s' ])
      go none h f = h
      go (some s') h f = f s' h

  -- The scheduler does not panic, whatever it receives after its start: the cron scheduler is only
  -- taken when the loop has ended.
  pub run-Lives :
      (rs : List Received) (jobs : List (Text × ℕ)) (c : C)
      → Lives (run cron rs (record { job_map = jobs; scheduler = some c }))
  run-Lives rs jobs c = run-keeps rs (record { job_map = jobs; scheduler = some c }) (c, refl)

get-without_key : (k : Text) (m : List (Text × ℕ)) → get k (without_key k m) ≡ none
get-without_key k [] = refl
get-without_key k (e ∷ m) = elim (Bool-cases (same k e.0)) [
  | inl h ↦ ground (arith, get-without_key k m)
  | inr h ↦ ground (arith, get-without_key k m)
]

-- The loop waits, no job has the name, and a job of the identifier runs.
abbrev pub Leaks : {C : Type 0} → (C → ℕ → Bool) → Text → ℕ → Finish C → Type 0
Leaks runs name id panicked = ⊥
Leaks runs name id (stopped c) = ⊥
Leaks {C} runs name id (waiting s) =
    (get name s.job_map ≡ none) × ((c : C) × (s.scheduler ≡ some c) × (runs c id ≡ true))

module _ {C : Type 0} (cron : Cron C) (runs : C → ℕ → Bool)
    (documented : Documented cron runs) where
  abbrev first : Text → C → C × ℕ
  first name c = cron.insert_job name c

  abbrev second : Text → C → C × ℕ
  second name c = cron.insert_job name (first name c).0

  first-runs : (name : Text) (c : C) → runs (first name c).0 (first name c).1 ≡ true
  first-runs name c =
      (documented.inserts name c).1 (first name c).1
      ∙ ap (λ b. b || runs c (first name c).1) (==_refl (first name c).1)

  first_is_other : (name : Text) (c : C) → ((first name c).1 == (second name c).1) ≡ false
  first_is_other name c = go ((first name c).1 == (second name c).1) (λ e.
      sym ((documented.inserts name (first name c).0).0)
      ∙ ap (runs (first name c).0) (sym ((==_iff (first name c).1 (second name c).1).0 e))
      ∙ first-runs name c)
    where
      go : (b : Bool) → (b ≡ true → false ≡ true) → b ≡ false
      go true f = sym (f refl)
      go false f = refl

  first-stays :
      (name : Text) (c : C)
      → runs (cron.remove_job (second name c).1 (second name c).0) (first name c).1 ≡ true
  first-stays name c =
      documented.removes (second name c).1 (second name c).0 (first name c).1
      ∙ ap (λ b. runs (second name c).0 (first name c).1 && not b) (first_is_other name c)
      ∙ ap (λ b. b && true)
          ((documented.inserts name (first name c).0).1 (first name c).1
            ∙ ap (λ b. ((first name c).1 == (second name c).1) || b) (first-runs name c)
            ∙ ap (λ b. b || true) (first_is_other name c))

  -- A task that is enabled twice and then disabled goes on running: the name has no job any more,
  -- but the job of the first time is still in the cron scheduler, where nothing can remove it.
  pub enabled_twice-Leaks :
      (name : Text) (jobs : List (Text × ℕ)) (c : C)
      → Leaks runs name (cron.insert_job name c).1 (
          run cron
            (message (enable name) ∷ message (enable name) ∷ message (disable name) ∷ [])
            (record { job_map = jobs; scheduler = some c }))
  unfolding run on_message enable_task disable_task
  enabled_twice-Leaks name jobs c =
      subst
        (λ o.
          Leaks runs name (first name c).1
            (elim (elim o as (λ _. Option (Scheduler C)) [
              | none ↦ some (twice name jobs c)
              | some id ↦ removed cron name id (twice name jobs c) (some (second name c).0)
            ])
              as (λ _. Finish C) [ none ↦ panicked | some s' ↦ run cron [] s' ]))
        (sym (get-insert_same name (second name c).1 (insert name (first name c).1 jobs)))
        (
          get-without_key name _,
          (cron.remove_job (second name c).1 (second name c).0, refl, first-stays name c),
        )
    where
      twice : Text → List (Text × ℕ) → C → Scheduler C
      twice name jobs c = record {
        job_map = insert name (second name c).1 (insert name (first name c).1 jobs);
        scheduler = some (second name c).0;
      }
