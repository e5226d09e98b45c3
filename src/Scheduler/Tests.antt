-- ===== src/Scheduler/Tests.antt =====
-- A tick with two providers and three queued runs, and the theorems at it.
use code_fixer.Base.{
  ℕ, ◌≤◌, String, true, false, none, some, [], ◌∷◌, ◌==◌, text_eq, if◌then◌else◌, length, any, elem,
  All, Distinct, ◌≡◌, refl,
}
use code_fixer.Base.Table.{select}
use code_fixer.Base.Result.{Result, ok, err}
use code_fixer.Tasks.Table.{RunStatus, TaskRun, Tasks, is_waiting}
use code_fixer.Scheduler.Intervals.{
  at_least, add_rule, add_rules, add_project, add_projects, active_provider_intervals,
  project_health_due,
}
use code_fixer.Scheduler.Ticks.{
  ScheduledConfig, Scheduler, list_queued_run_ids, reap, poll_provider, poll_providers, start_runs,
  dispatch, tick,
}
use code_fixer.Scheduler.Lowest.{polls, active_provider_intervals_lowest}
use code_fixer.Scheduler.Capacity.{tick_bounded}
use code_fixer.Scheduler.Oldest.{taken, list_queued_run_ids_oldest}
use code_fixer.Scheduler.Starts.{names, Known, tick_starts}

calls : Unit {0}
unfolding add_rule add_rules add_project add_projects active_provider_intervals project_health_due
    list_queued_run_ids reap poll_provider poll_providers start_runs dispatch tick
calls = tt

abbrev queued_run : String → ℕ → TaskRun
queued_run id created_at = record {
  id = id;
  task_id = id;
  status = RunStatus.queued;
  execution_mode = "automatic";
  ticket_snapshot_id = none;
  project_config_hash = none;
  input_fingerprint = none;
  created_at = created_at;
  started_at = none;
  finished_at = none;
}

abbrev tables : Tasks
tables = record {
  tickets = [];
  snapshots = [];
  tasks = [];
  runs = queued_run "late" 9 ∷ queued_run "b" 3 ∷ queued_run "a" 3 ∷ [];
  stages = [];
  events = [];
  cursors = [];
  next_ticket = 1;
  next_snapshot = 1;
  next_stage = 1;
}

abbrev config : ScheduledConfig
config = record {
  projects =
      record {
        id = "p";
        enabled = true;
        poll_interval_seconds = 300;
        rules = "redmine" ∷ " tapd " ∷ [];
      }
      ∷ record { id = "q"; enabled = true; poll_interval_seconds = 1; rules = "redmine" ∷ [] }
      ∷ [];
  ticket_providers =
      record { id = "redmine"; enabled = true } ∷ record { id = "tapd"; enabled = true } ∷ [];
  max_concurrent_tasks = 3;
}

abbrev scheduler : Scheduler
scheduler = record {
  active = ("old", false) ∷ ("done", true) ∷ [];
  provider_last_poll = ("redmine", 1000000) ∷ [];
  provider_retry_after = [];
}

-- The poll of redmine works and that of tapd fails.
abbrev poll : String → Tasks → Result String (Unit {0}) × (ℕ × Tasks)
poll id t = (if id == "tapd" then err "timeout" else ok tt, (70000000, t))

-- The shortest interval counts and is at least a minute; redmine is due and tapd waits after its
-- failure; the oldest two queued runs are started beside the one that is active.
ticks :
    (active_provider_intervals config.projects ≡ (("redmine", 60) ∷ ("tapd", 300) ∷ []))
    × ((tick poll config (λ id. true) 61000000 (scheduler, tables)).0 ≡ record {
      active = ("old", false) ∷ ("a", false) ∷ ("b", false) ∷ [];
      provider_last_poll = ("redmine", 61000000) ∷ ("tapd", 61000000) ∷ [];
      provider_retry_after = ("tapd", 970000000) ∷ [];
    })
    × (project_health_due (some 0) (some 10799999999) 10800000000 ≡ true)
    × (project_health_due (some 0) (some 10800000000) 21599999999 ≡ false)
unfolding calls
ticks = (refl, refl, refl, refl)

tick_bounded_example :
    length (tick poll config (λ id. true) 61000000 (scheduler, tables)).0.active
    ≤ at_least (at_least 1 3) 2
tick_bounded_example = tick_bounded poll config (λ id. true) 61000000 scheduler tables

tick_starts_example :
    Distinct (names (tick poll config (λ id. true) 61000000 (scheduler, tables)).0.active)
    × All
        (Known
          (reap scheduler).active
          (tick poll config (λ id. true) 61000000 (scheduler, tables)).1)
        (tick poll config (λ id. true) 61000000 (scheduler, tables)).0.active
unfolding calls
tick_starts_example =
    tick_starts poll config (λ id. true) 61000000 scheduler tables (refl, (refl, tt))

active_provider_intervals_lowest_example :
    (60 ≤ 60)
    × All
        (λ x.
          x.enabled ≡ true
          → any (polls "redmine") x.rules ≡ true
          → 60 ≤ at_least 60 x.poll_interval_seconds)
        config.projects
unfolding calls
active_provider_intervals_lowest_example =
    active_provider_intervals_lowest "redmine" config.projects 60 refl refl

list_queued_run_ids_oldest_example :
    All
      (λ r.
        elem r.id (list_queued_run_ids 2 tables) ≡ false
        → All (λ q. q.created_at ≤ r.created_at) (taken 2 tables))
      (select (λ q. is_waiting q.status) tables.runs)
list_queued_run_ids_oldest_example = list_queued_run_ids_oldest 2 tables
