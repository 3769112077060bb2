-- ===== src/Framework/Scheduler.antt =====
-- The scheduler of the modules' tasks (crates/tulpje-framework/src/scheduler.rs).
use tulpje.Prelude.{ℕ, not, Option, none, some, List, [], ◌∷◌, Text, same, get, insert, filter}

-- `async_cron_scheduler`: the identifiers that it hands out for jobs, and the jobs that it runs.
pub record Cron (C : Type 0) : Type 0 where
  pub insert_job : Text → C → C × ℕ
  pub remove_job : ℕ → C → C

-- The cron scheduler is taken when the loop ends.
pub record Scheduler (C : Type 0) : Type 0 where
  pub job_map : List (Text × ℕ)
  pub scheduler : Option C

pub data SchedulerTaskMessage : Type 0 where
  start : List Text → SchedulerTaskMessage
  enable : Text → SchedulerTaskMessage
  disable : Text → SchedulerTaskMessage

-- What the loop receives: a message or the shutdown.
pub data Received : Type 0 where
  message : SchedulerTaskMessage → Received
  shutdown : Received

pub data Finish (C : Type 0) : Type 0 where
  panicked : Finish C
  waiting : Scheduler C → Finish C
  stopped : Option C → Finish C

abbrev pub without_key : Text → List (Text × ℕ) → List (Text × ℕ)
without_key k m = filter (λ e. not (same k e.0)) m

module _ {C : Type 0} (cron : Cron C) where
  abbrev pub enabled : Text → List (Text × ℕ) → C × ℕ → Scheduler C
  enabled name m (c, id) = record { job_map = insert name id m; scheduler = some c }

  -- `none` is the panic of `unwrap` on a scheduler that has been taken.
  unfoldable pub enable_task : Text → Scheduler C → Option (Scheduler C)
  enable_task name s = elim s.scheduler [
    | none ↦ none
    | some c ↦ some (enabled name s.job_map (cron.insert_job name c))
  ]

  abbrev pub removed : Text → ℕ → Scheduler C → Option C → Option (Scheduler C)
  removed name id s none = none
  removed name id s (some c) =
      some
        (record { job_map = without_key name s.job_map; scheduler = some (cron.remove_job id c) })

  unfoldable pub disable_task : Text → Scheduler C → Option (Scheduler C)
  disable_task name s = elim (get name s.job_map) [
    | none ↦ some s
    | some id ↦ removed name id s s.scheduler
  ]

  unfoldable pub enable_all : List Text → Scheduler C → Option (Scheduler C)
  enable_all [] s = some s
  enable_all (name ∷ names) s = elim (enable_task name s) [
    | none ↦ none
    | some s' ↦ enable_all names s'
  ]

  unfoldable pub on_message : SchedulerTaskMessage → Scheduler C → Option (Scheduler C)
  on_message (start names) s = enable_all names s
  on_message (enable name) s = enable_task name s
  on_message (disable name) s = disable_task name s

  abbrev pub remove_all : List (Text × ℕ) → C → C
  remove_all [] c = c
  remove_all (e ∷ es) c = remove_all es (cron.remove_job e.1 c)

  -- The scheduler that is left to be dropped, with the jobs that it still runs.
  unfoldable pub drain : Scheduler C → Option C
  drain s = elim s.scheduler [ none ↦ none | some c ↦ some (remove_all s.job_map c) ]

  unfoldable pub run : List Received → Scheduler C → Finish C
  run [] s = waiting s
  run (shutdown ∷ rs) s = stopped (drain s)
  run (message m ∷ rs) s = elim (on_message m s) [ none ↦ panicked | some s' ↦ run rs s' ]
