-- ===== src/Tests/Framework.antt =====
-- The framework's theorems (crates/tulpje-framework) at concrete inputs.
use tulpje.Prelude.{
  ℕ, suc, Bool, true, false, not, ◌&&◌, some, List, [], ◌∷◌, ◌≡◌, refl, arith, ◌+◌, ◌≤◌, ◌==◌, Text,
  text, get, any, filter, Bool-cases, inl, inr,
}
use tulpje.Framework.Registry
use tulpje.Framework.Registry.{Module, find_command, register_all}
use tulpje.Framework.Registered.{command_of, handlers_of, register_all-finds}
use tulpje.Framework.Scheduler.{Cron, message, start, enable, disable, shutdown, run}
use tulpje.Framework.Tasks.{Documented, Lives, Leaks, run-Lives, enabled_twice-Leaks}

abbrev module_of : Text → ℕ → Module ℕ
module_of name handler = record {
  name = name;
  guild_scoped = false;
  command_definitions = name ∷ [];
  commands = (name, handler) ∷ [];
  modals = [];
  components = [];
  events = (text "GuildCreate", handler ∷ []) ∷ [];
  tasks = [];
  services = [];
}

abbrev two_modules : List (Module ℕ)
two_modules = module_of (text "emoji") 1 ∷ module_of (text "core") 2 ∷ []

register_all-finds_example :
    (find_command (text "emoji") (register_all two_modules Registry.new)
      ≡ command_of (text "emoji") two_modules)
    × (get (text "emoji") (register_all two_modules Registry.new).events
        ≡ handlers_of (text "emoji") two_modules)
register_all-finds_example = register_all-finds (text "emoji") two_modules

guild_create_run :
    get (text "GuildCreate") (register_all two_modules Registry.new).events ≡ some (2 ∷ [])
unfolding register_all Registry.register
guild_create_run = refl

-- A cron scheduler is the list of its jobs.
abbrev total : List ℕ → ℕ
total [] = 0
total (x ∷ xs) = x + total xs

abbrev job_runs : List ℕ → ℕ → Bool
job_runs jobs i = any (λ j. i == j) jobs

abbrev sample_cron : Cron (List ℕ)
sample_cron = record {
  insert_job = λ name jobs. (suc (total jobs) ∷ jobs, suc (total jobs));
  remove_job = λ id jobs. filter (λ j. not (j == id)) jobs;
}

job_runs-le : (jobs : List ℕ) (i : ℕ) → job_runs jobs i ≡ true → i ≤ total jobs
job_runs-le [] i e = ground arith
job_runs-le (j ∷ jobs) i e = elim (Bool-cases (i == j)) [
  | inl h ↦ ground arith
  | inr h ↦ ground (arith, job_runs-le jobs i)
]

fresh_job : (jobs : List ℕ) → job_runs jobs (suc (total jobs)) ≡ false
fresh_job jobs = elim (Bool-cases (job_runs jobs (suc (total jobs)))) [
  | inl e ↦ ground (arith, job_runs-le jobs (suc (total jobs)) e)
  | inr e ↦ e
]

job_runs-filter :
    (id : ℕ) (jobs : List ℕ) (i : ℕ)
    → job_runs (filter (λ j. not (j == id)) jobs) i ≡ (job_runs jobs i && not (i == id))
job_runs-filter id [] i = refl
job_runs-filter id (j ∷ jobs) i = ground (arith, job_runs-filter id jobs i)

sample_documented : Documented sample_cron job_runs
sample_documented = record {
  inserts = λ name jobs. (fresh_job jobs, λ i. ground arith);
  removes = job_runs-filter;
}

run-Lives_example : Lives (
    run sample_cron
      (message (start (text "a" ∷ [])) ∷ message (disable (text "a")) ∷ shutdown ∷ [])
      (record { job_map = []; scheduler = some [] }))
run-Lives_example =
    run-Lives sample_cron
      (message (start (text "a" ∷ [])) ∷ message (disable (text "a")) ∷ shutdown ∷ []) [] []

enabled_twice-Leaks_example : Leaks job_runs (text "a") 1 (
    run sample_cron
      (message (enable (text "a"))
        ∷ message (enable (text "a"))
        ∷ message (disable (text "a"))
        ∷ [])
      (record { job_map = []; scheduler = some [] }))
enabled_twice-Leaks_example =
    enabled_twice-Leaks sample_cron job_runs sample_documented (text "a") [] []
