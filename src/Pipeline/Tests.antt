-- ===== src/Pipeline/Tests.antt =====
-- A small run with adapters that answer at once, and the theorems at it.
use code_fixer.Base.{
  Bool, true, false, none, some, [], ◌∷◌, ◌≡◌, refl, ap, subst, arith, text_eq, number_eq, map,
}
use code_fixer.Base.Result.{Result, ok, err}
use code_fixer.Tasks.Table.{RunStatus, Tasks}
use code_fixer.Tasks.Store.{
  claim_run, find_context, create_run, complete_run, fail_run, cancel_run, freeze_run_inputs,
  is_cancel_requested,
}
use code_fixer.Tasks.Stages.{start_stage, finish_stage, next_stage_attempt}
use code_fixer.Tasks.Ingest.{
  IngestedTicket, upsert_ticket, upsert_snapshot, create_task, refresh_task, ingest_locked, ingest,
}
use code_fixer.Tasks.Consistency.{IsConsistent}
use code_fixer.Tasks.Steps.{stay, step, ingests, Steps-IsConsistent}
use code_fixer.Delivery.Coordinator.{
  DeliveryExecutionSummary, FinalActionResult, FrozenDeliveryContext, all_succeeded, results,
}
use code_fixer.Pipeline.Session.{
  Raised, other_error, value_error, WorkspaceManifest, Session, External,
}
use code_fixer.Pipeline.Adapters.{
  AgentRunResult, RepairResult, CandidateChange, StoredArtifact, output_found, Adapters,
  agent_failure_reason,
}
use code_fixer.Pipeline.Stages.{
  cancel_requested, check_cancel, check_agent, run_discovery_stage, run_repair_stage,
  run_stability_check, write_conclusion_safe,
}
use code_fixer.Pipeline.Run.{
  get_run_context, claim, prepare, prepare_workspace, scrub, run_verification,
}
use code_fixer.Pipeline.Body.{
  end_completed, end_failed, end_canceled, settle_delivery, settle_report, deliver, freeze,
  deliver_change, no_change, settle_change, body, fail_safely, handler, cleanup, run,
}
use code_fixer.Pipeline.Rules.{Outcome}
use code_fixer.Pipeline.Calm.{IsCalm}
use code_fixer.Pipeline.Settles.{Returned}
use code_fixer.Pipeline.Runs.{run-Returned}
use code_fixer.Pipeline.Execute.{
  Fresh, Executor, get_run_summary, fail_before_execution, settle_resumed, resume_body,
  fail_resumed, resume_frozen_delivery, execute_fresh, configuration_handler, execute_project,
  execute, execute_safely,
}
use code_fixer.Pipeline.Executed.{IsReady, execute-Returned}
use code_fixer.Pipeline.Idle.{is_unfinished, execute_safely-is_unfinished}

calls : Unit {0}
unfolding create_run upsert_ticket upsert_snapshot create_task refresh_task ingest_locked ingest
    find_context claim_run complete_run fail_run cancel_run freeze_run_inputs is_cancel_requested
    start_stage finish_stage next_stage_attempt all_succeeded results agent_failure_reason
    cancel_requested check_cancel check_agent run_discovery_stage run_repair_stage
    run_stability_check write_conclusion_safe get_run_context claim prepare prepare_workspace scrub
    run_verification end_completed end_failed end_canceled settle_delivery settle_report deliver
    freeze deliver_change no_change settle_change body fail_safely handler cleanup run
    get_run_summary fail_before_execution settle_resumed resume_body fail_resumed
    resume_frozen_delivery execute_fresh configuration_handler execute_project execute
    execute_safely
calls = tt

abbrev nothing : Tasks
nothing = record {
  tickets = [];
  snapshots = [];
  tasks = [];
  runs = [];
  stages = [];
  events = [];
  cursors = [];
  next_ticket = 1;
  next_snapshot = 1;
  next_stage = 1;
}

abbrev ticket : IngestedTicket
ticket = record {
  provider_instance_id = "redmine";
  external_ticket_id = "7";
  title = "crash";
  payload_json = "{}";
  external_version = none;
  eligible = true;
}

abbrev waiting : Tasks
waiting =
    (ingest (λ provider external. external) (λ payload. payload) ticket
      (record {
        project_id = some "p";
        execution_mode = "automatic";
        failure = none;
        new_id = "run-1";
        now = 1;
      })
      nothing).1

waiting-IsConsistent : IsConsistent waiting
waiting-IsConsistent =
    Steps-IsConsistent nothing waiting
      (step stay (
        ingests (λ provider external. external) (λ payload. payload) ticket
          (record {
            project_id = some "p";
            execution_mode = "automatic";
            failure = none;
            new_id = "run-1";
            now = 1;
          })))
      (record {
        tasks_distinct = tt;
        runs_distinct = tt;
        queued_agree = λ k r. refl;
        running_agree = λ k r. refl;
      })

abbrev start_session : Session
start_session = record { tasks = waiting; discovery_manifest = none; repair_manifest = none }

abbrev answer : {A : Type 0} → A → External A
answer a t = (ok a, t)

abbrev manifest : WorkspaceManifest
manifest = record {
  source_id = "main";
  source_type = "git";
  base_revision = "r1";
  workspace_path = "work";
  baseline_cohort_id = none;
}

abbrev artifact : StoredArtifact
artifact = record { path = "a.json"; sha256 = "00" }

abbrev agent : AgentRunResult
agent = record {
  status = "succeeded";
  exit_code = "0";
  final_text = some " the bug is in a.c ";
  stderr = "";
  events = [];
}

abbrev change : CandidateChange
change = record {
  patch_text = "+1";
  patch_sha256 = "11";
  changed_paths = "a.c" ∷ [];
  operations = ("a.c", "modify") ∷ [];
  unauthorized_paths = [];
}

abbrev repaired : RepairResult
repaired = record { outcome = some "changed"; blocking_code = none; summary = none }

abbrev delivered : FinalActionResult
delivered = record {
  action_id = "patch";
  action_type = "patch";
  status = "succeeded";
  outcome = "written";
  detail = [];
}

abbrev report : DeliveryExecutionSummary
report = record { required_results = delivered ∷ []; fallback_result = none; outcome = "succeeded" }

abbrev frozen : FrozenDeliveryContext
frozen = record {
  task_id = "7";
  run_id = "run-1";
  change_version = 1;
  source_id = "main";
  base_revision = "r1";
  patch_path = "a.json";
  patch_sha256 = "00";
  manifest_path = "a.json";
  delivery_metadata_path = "m.json";
  commit_subject = "fix";
  patch_filename = "fix.patch";
  ticket_key = "7";
}

-- The verification passes or not.
abbrev adapters : Bool → Adapters
adapters passed = record {
  prepare_localization = λ id k. answer manifest;
  write_snapshot = λ c m. answer artifact;
  find_similar = λ c m. answer none;
  write_entry = λ stage inputs. answer artifact;
  run_discovery = λ entry. answer agent;
  run_repair = λ entry. answer agent;
  write_diagnostic = λ stage r. answer artifact;
  write_report = λ text. answer artifact;
  prepare_source = λ id k. answer manifest;
  write_source_manifest = λ m. answer artifact;
  read_repair_output = λ r. answer (output_found repaired artifact);
  collect_change = λ m. answer change;
  write_candidate = λ c. answer artifact;
  verify = λ c m. answer (record { passed = passed; canceled_steps = false ∷ [] });
  restore_candidate = λ m c. answer tt;
  write_verification = λ p. answer artifact;
  check_stability = none;
  write_metadata = λ c r. answer (record {
    path = "m.json";
    change_summary = "fix";
    commit_subject = "fix";
    patch_filename = "fix.patch";
    ticket_key = "7";
  });
  freeze_change = λ m c v r. answer (artifact, artifact);
  deliver = λ f. answer report;
  write_conclusion = λ c. answer tt;
  clean_localization = λ m. answer tt;
  clean_source = λ m. answer tt;
}

adapters-IsCalm : (passed : Bool) → IsCalm "run-1" (adapters passed)
adapters-IsCalm passed = record {
  prepare_localization = λ id k t h. h;
  write_snapshot = λ c m t h. h;
  find_similar = λ c m t h. h;
  write_entry = λ stage inputs t h. h;
  run_discovery = λ entry t h. h;
  run_repair = λ entry t h. h;
  write_diagnostic = λ stage r t h. h;
  write_report = λ text t h. h;
  prepare_source = λ id k t h. h;
  write_source_manifest = λ m t h. h;
  read_repair_output = λ r t h. h;
  collect_change = λ m t h. h;
  write_candidate = λ c t h. h;
  verify = λ c m t h. h;
  restore_candidate = λ m c t h. h;
  write_verification = λ p t h. h;
  check_stability = λ check absent. absurd (ground arith);
  write_metadata = λ c r t h. h;
  freeze_change = λ m c v r t h. h;
  deliver = λ f t h. h;
  write_conclusion = λ c t h. h;
  clean_localization = λ m status t h. h;
  clean_source = λ m status t h. h;
}

abbrev made : Bool → Fresh
made passed = record {
  adapters = adapters passed;
  project = record { localization_id = "read"; modification_id = "main"; sha256 = "22" };
}

-- The files of a frozen change are there or not, and what is built passes the verification or raises.
abbrev executor : Bool → Result Raised Fresh → Executor
executor resumed built = record {
  reload = answer (record { id = "p"; enabled = true } ∷ []);
  has_frozen_files = λ s. answer resumed;
  preflight =
      λ p. answer (record { project_id = "p"; ready = true; status = "ready"; summary = "" });
  put_health = λ h. answer tt;
  configure = λ p s t. (built, t);
  digest = λ text. text;
  read_frozen = λ s. answer tt;
  frozen_context = λ s. answer frozen;
  deliver_frozen = λ f. answer report;
}

abbrev built_by : Result Raised Fresh → Fresh
built_by (ok fresh) = fresh
built_by (err e) = made true

executor-IsReady :
    (resumed : Bool) (built : Result Raised Fresh)
    → IsCalm "run-1" (built_by built).adapters
    → IsReady "run-1" (executor resumed built)
executor-IsReady resumed built calm = record {
  reload = λ t h. h;
  has_frozen_files = λ s t h. h;
  preflight = λ p t h. h;
  put_health = λ k t h. h;
  configure = λ p s t h. h;
  calm = λ p s t fresh same. subst (λ f. IsCalm "run-1" f.adapters) (ap built_by same) calm;
  read_frozen = λ s t h. h;
  frozen_context = λ s t h. h;
  deliver_frozen = λ f t h. h;
}

-- A change is delivered; a verification that does not pass fails the run; a delivery is resumed; an
-- exception of the executor fails the run and goes on.
runs :
    ((execute (executor false (ok (made true))) "run-1" 5 start_session).0
      ≡ ok (record {
        task_id = "7";
        run_id = "run-1";
        status = "completed";
        result = some "changed";
        deliveries = delivered ∷ [];
      }))
    × (map
          (λ r. r.status)
          (execute (executor false (ok (made true))) "run-1" 5 start_session).1.tasks.runs
        ≡ (RunStatus.completed ∷ []))
    × (map
          (λ r. r.status)
          (execute (executor false (ok (made false))) "run-1" 5 start_session).1.tasks.runs
        ≡ (RunStatus.failed ∷ []))
    × (map
          (λ r. r.status)
          (execute (executor true (ok (made false))) "run-1" 5 start_session).1.tasks.runs
        ≡ (RunStatus.completed ∷ []))
    × ((execute_safely (executor false (err (other_error "disk"))) "run-1" 5 start_session).0
        ≡ err (other_error "disk"))
    × (map
          (λ r. r.status)
          (execute_safely
            (executor false (err (other_error "disk")))
            "run-1"
            5
            start_session).1.tasks.runs
        ≡ (RunStatus.failed ∷ []))
unfolding calls
runs = (refl, refl, refl, refl, refl, refl)

-- A clean-up that raises after the delivery turns the completed run into a failed one; a ValueError of
-- the verification is lost, since the run cannot be claimed a second time.
overwritten :
    (map
        (λ r. r.status)
        (execute_safely
          (executor false (
            ok (record (made true) {
              adapters = record (adapters true) {
                clean_source = λ m t. (err (other_error "locked"), t);
              };
            })))
          "run-1"
          5
          start_session).1.tasks.runs
      ≡ (RunStatus.failed ∷ []))
    × (map
          (λ t. t.failure)
          (execute_safely
            (executor false (
              ok (record (made true) {
                adapters = record (adapters true) {
                  verify = λ c m t. (err (value_error "escapes workspace"), t);
                };
              })))
            "run-1"
            5
            start_session).1.tasks.tasks
        ≡ (some (record {
          code = "unexpected_executor_error";
          stage = "scheduler";
          summary = "run cannot be claimed";
          retryable = true;
        })
            ∷ []))
unfolding calls
overwritten = (refl, refl)

run-Returned_example :
    Outcome IsConsistent
      (Returned "run-1")
      (run (adapters true) (made true).project (λ text. text) "run-1" 5 start_session)
run-Returned_example =
    run-Returned (adapters true) (made true).project (λ text. text) "run-1" 5 (adapters-IsCalm true)
      start_session waiting-IsConsistent

execute-Returned_example :
    Outcome IsConsistent
      (Returned "run-1")
      (execute (executor false (ok (made true))) "run-1" 5 start_session)
execute-Returned_example =
    execute-Returned "run-1" 5 (executor false (ok (made true)))
      (executor-IsReady false (ok (made true)) (adapters-IsCalm true)) start_session
      waiting-IsConsistent

execute_safely-is_unfinished_example :
    is_unfinished "run-1"
      (execute_safely (executor false (err (other_error "disk"))) "run-1" 5 start_session).1.tasks
    ≡ false
execute_safely-is_unfinished_example =
    execute_safely-is_unfinished "run-1" (executor false (err (other_error "disk"))) 5
      (executor-IsReady false (err (other_error "disk")) (adapters-IsCalm true)) start_session
      waiting-IsConsistent
