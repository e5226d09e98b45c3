-- ===== src/Tasks/Tests.antt =====
-- Small runs of the tables of tasks, and the theorems at them.
use code_fixer.Base.{
  any, false, ◌≤◌, ◌+◌, String, true, none, some, [], ◌∷◌, ◌≡◌, refl, text_eq, number_eq, map,
}
use code_fixer.Base.Table.{count}
use code_fixer.Base.Result.{ok, err}
use code_fixer.Tasks.Table.{
  is_running, TaskStatus, RunStatus, Task, TaskRun, TicketRecord, Tasks, cannot_claim,
  cannot_cancel,
}
use code_fixer.Tasks.Store.{
  active_run_of, create_run, start_task, claim_run, find_context, complete_run, cancel_task,
}
use code_fixer.Tasks.Ingest.{
  IngestedTicket, Ingestion, upsert_ticket, upsert_snapshot, create_task, refresh_task,
  ingest_locked, ingest,
}
use code_fixer.Tasks.Recovery.{recover_run, recover_rows, recover_interrupted_runs}
use code_fixer.Tasks.Stages.{start_stage, next_stage_attempt, get_cursor, set_cursor}
use code_fixer.Tasks.Attempts.{next_stage_attempt-starts, get-set_cursor}
use code_fixer.Tasks.Consistency.{IsConsistent}
use code_fixer.Tasks.Steps.{Steps, stay, step, ingests, claims, Steps-IsConsistent}
use code_fixer.Tasks.Exclusion.{one_active_run, claim_run_once}
use code_fixer.Tasks.Intake.{ingest_keeps}
use code_fixer.Tasks.Restarted.{recover_none_running}

calls : Unit {0}
unfolding create_run start_task claim_run find_context complete_run cancel_task upsert_ticket
    upsert_snapshot create_task refresh_task ingest_locked ingest recover_run recover_rows
    recover_interrupted_runs start_stage next_stage_attempt get_cursor set_cursor
calls = tt

abbrev no_tasks : Tasks
no_tasks = record {
  tickets = [];
  snapshots = [];
  tasks = [];
  runs = [];
  stages = [];
  events = [];
  cursors = [];
  next_ticket = 1;
  next_snapshot = 1;
  next_stage = 1;
}

no_tasks-IsConsistent : IsConsistent no_tasks
no_tasks-IsConsistent = record {
  tasks_distinct = tt;
  runs_distinct = tt;
  queued_agree = λ k r. refl;
  running_agree = λ k r. refl;
}

abbrev a_ticket : IngestedTicket
a_ticket = record {
  provider_instance_id = "redmine";
  external_ticket_id = "7";
  title = "crash";
  payload_json = "{}";
  external_version = none;
  eligible = true;
}

abbrev automatic : Ingestion
automatic = record {
  project_id = some "p";
  execution_mode = "automatic";
  failure = none;
  new_id = "run-1";
  now = 1;
}

abbrev again : Ingestion
again = record automatic { new_id = "run-2"; now = 2 }

abbrev name_of : String → String → String
name_of provider external = external

abbrev hash_of : String → String
hash_of payload = payload

abbrev one_queued : Tasks
one_queued = (ingest name_of hash_of a_ticket automatic no_tasks).1

abbrev one_runs : Tasks
one_runs = (claim_run "run-1" 3 one_queued).1

abbrev one_task : Task
one_task = record {
  id = "7";
  ticket_record_id = 1;
  project_id = "p";
  status = TaskStatus.running;
  result = none;
  current_run_id = some "run-1";
  failure = none;
}

abbrev one_ticket : TicketRecord
one_ticket = record {
  id = 1;
  provider_instance_id = "redmine";
  external_ticket_id = "7";
  title = "crash";
  eligible = true;
  external_version = none;
  current_snapshot_id = some 1;
}

abbrev one_run : TaskRun
one_run = record {
  id = "run-1";
  task_id = "7";
  status = RunStatus.running;
  execution_mode = "automatic";
  ticket_snapshot_id = some 1;
  project_config_hash = none;
  input_fingerprint = none;
  created_at = 1;
  started_at = some 3;
  finished_at = none;
}

-- A queued run is claimed; a second start is refused while it runs; a cancel request comes once.
life :
    (one_runs.runs ≡ one_run ∷ [])
    × (one_runs.tasks ≡ one_task ∷ [])
    × ((start_task "run-2" "7" "manual" 4 one_runs).1 ≡ one_runs)
    × ((cancel_task "7" 5 (cancel_task "7" 4 one_runs).1).0 ≡ err cannot_cancel)
unfolding calls
life = (refl, refl, refl, refl)

-- A run whose change is frozen is queued again by the recovery, although its task was asked to stop.
cancel_forgotten :
    (map
      (λ t. t.status)
      (recover_interrupted_runs (λ t r. true) 9 (cancel_task "7" 4 one_runs).1).1.tasks)
    ≡ (TaskStatus.queued ∷ [])
unfolding calls
cancel_forgotten = refl

one_runs-Steps : Steps no_tasks one_runs
one_runs-Steps = step (step stay (ingests name_of hash_of a_ticket automatic)) (claims "run-1" 3)

Steps-IsConsistent_example : IsConsistent one_runs
Steps-IsConsistent_example =
    Steps-IsConsistent no_tasks one_runs one_runs-Steps no_tasks-IsConsistent

one_active_run_example : count (active_run_of "7") one_runs.runs ≤ 1
one_active_run_example = one_active_run no_tasks one_runs "7" one_runs-Steps no_tasks-IsConsistent

claim_run_once_example : claim_run "run-1" 8 one_runs ≡ (err cannot_claim, one_runs)
unfolding calls
claim_run_once_example = claim_run_once "run-1" 3 8 one_queued one_run refl

ingest_keeps_example :
    ((ingest name_of hash_of a_ticket again one_runs).0 ≡ ok "7")
    × ((ingest name_of hash_of a_ticket again one_runs).1.tasks ≡ one_runs.tasks)
    × ((ingest name_of hash_of a_ticket again one_runs).1.runs ≡ one_runs.runs)
unfolding calls
ingest_keeps_example =
    ingest_keeps name_of hash_of a_ticket again one_runs one_ticket one_task refl refl refl

next_stage_attempt-starts_example :
    ((start_stage "run-1" "repair" (next_stage_attempt "run-1" "repair" one_runs) one_runs).0
      ≡ ok 1)
    × (next_stage_attempt "run-1" "repair"
          (start_stage "run-1" "repair" (next_stage_attempt "run-1" "repair" one_runs) one_runs).1
        ≡ next_stage_attempt "run-1" "repair" one_runs + 1)
unfolding calls
next_stage_attempt-starts_example = next_stage_attempt-starts "run-1" "repair" one_runs refl

get-set_cursor_example : get_cursor "redmine" (set_cursor "tapd" (some "c") no_tasks) ≡ none
unfolding calls
get-set_cursor_example = get-set_cursor "tapd" "redmine" "c" no_tasks

recover_none_running_example :
    (any (λ r. is_running r.status) (recover_interrupted_runs (λ t r. false) 9 one_runs).1.runs
      ≡ false)
    × ((recover_interrupted_runs (λ t r. false) 9 one_runs).0.0
          + (recover_interrupted_runs (λ t r. false) 9 one_runs).0.1
        ≡ count (λ r. is_running r.status) one_runs.runs)
unfolding calls
recover_none_running_example = recover_none_running (λ t r. false) 9 one_runs (refl, tt)
