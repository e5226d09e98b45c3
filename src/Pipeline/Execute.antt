-- ===== src/Pipeline/Execute.antt =====
-- orchestration/factory.py and scheduler.py: what leads to a pipeline, and what an exception ends in.
use code_fixer.Base.{
  ℕ, String, Bool, true, false, not, Option, none, some, List, [], ◌==◌, text_eq, number_eq,
  if◌then◌else◌,
}
use code_fixer.Base.Text.{concat}
use code_fixer.Base.Table.{find}
use code_fixer.Base.Result.{Result, ok, err}
use code_fixer.Tasks.Table.{RunStatus, StageStatus, Failure, Tasks, TaskError, not_found, is_run}
use code_fixer.Tasks.Store.{claim_run, complete_run, fail_run, find_context}
use code_fixer.Tasks.Stages.{start_stage, finish_stage, next_stage_attempt}
use code_fixer.Delivery.Coordinator.{
  DeliveryExecutionSummary, FinalActionResult, FrozenDeliveryContext, all_succeeded, results,
}
use code_fixer.Pipeline.Session.{
  Raised, failure, canceled, protocol_error, value_error, other_error, Pipe, External, pure, raise,
  ◌>>=◌, ◌>>◌, catch, external, call, write,
}
use code_fixer.Pipeline.Adapters.{Adapters}
use code_fixer.Pipeline.Stages.{stage_failure, close_stage}
use code_fixer.Pipeline.Run.{PipelineResult, Project, reason_of}
use code_fixer.Pipeline.Body.{run}

-- The columns of the row of `get_run_summary`.
pub record RunSummary : Type 0 where
  pub id : String
  pub task_id : String
  pub status : RunStatus
  pub execution_mode_snapshot : String
  pub project_id : String
  pub provider_instance_id : String
  pub external_ticket_id : String

pub record ProjectConfig : Type 0 where
  pub id : String
  pub enabled : Bool

-- The result of a preflight; the checks are left out.
pub record ProjectHealth : Type 0 where
  pub project_id : String
  pub ready : Bool
  pub status : String
  pub summary : String

-- What `_execute_fresh` builds before it runs the pipeline.
pub record Fresh : Type 0 where
  pub adapters : Adapters
  pub project : Project

-- What an executor calls: the configuration, the preflight, the files of a frozen change.
pub record Executor : Type 0 where
  pub reload : External (List ProjectConfig)
  pub has_frozen_files : RunSummary → External Bool
  pub preflight : ProjectConfig → External ProjectHealth
  pub put_health : ProjectHealth → External (Unit {0})
  pub configure : ProjectConfig → RunSummary → External Fresh
  pub digest : String → String
  pub read_frozen : RunSummary → External (Unit {0})
  pub frozen_context : RunSummary → External FrozenDeliveryContext
  pub deliver_frozen : FrozenDeliveryContext → External DeliveryExecutionSummary

unfoldable pub get_run_summary : String → Tasks → Result TaskError RunSummary
unfolding find_context
get_run_summary run_id t = elim (find (is_run run_id) t.runs) [
  | none ↦ err not_found
  | some r ↦ elim (find_context r t) [
    | none ↦ err not_found
    | some (task, ticket) ↦ ok (record {
      id = r.id;
      task_id = r.task_id;
      status = r.status;
      execution_mode_snapshot = r.execution_mode;
      project_id = task.project_id;
      provider_instance_id = ticket.provider_instance_id;
      external_ticket_id = ticket.external_ticket_id;
    })
  ]
]

abbrev pub with_result :
    RunSummary → (run_id status : String) → Option String → List FinalActionResult → PipelineResult
with_result summary run_id status result deliveries = record {
  task_id = summary.task_id;
  run_id = run_id;
  status = status;
  result = result;
  deliveries = deliveries;
}

-- A run on its own session.
abbrev pub alone : {A : Type 0} → Pipe A → External A
alone m t =
    let (r, s) = m (record { tasks = t; discovery_manifest = none; repair_manifest = none }) in
    (r, s.tasks)

module _ (x : Executor) (run_id : String) (now : ℕ) where
  -- `_fail_before_execution`
  unfoldable pub fail_before_execution :
      RunSummary → (code summary_text : String) (retryable : Bool) → Pipe PipelineResult
  unfolding claim_run fail_run
  fail_before_execution summary code summary_text retryable = do
    call (claim_run run_id now) >>= λ _. pure tt
    call (
        fail_run run_id
          (record { code = code; stage = "prepare"; summary = summary_text; retryable = retryable })
          now)
    pure (with_result summary run_id "failed" none [])

  abbrev pub recovery_failure : (code summary : String) → Failure
  recovery_failure code summary = record {
    code = code;
    stage = "deliver";
    summary = summary;
    retryable = true;
  }

  -- What follows the report of a delivery that is resumed.
  unfoldable pub settle_resumed :
      (stage : ℕ) → RunSummary → DeliveryExecutionSummary → Pipe PipelineResult
  unfolding all_succeeded results complete_run fail_run
  settle_resumed stage summary report =
      if not (all_succeeded report)
      then (do
        write (
            finish_stage stage StageStatus.failed none (some (stage_failure "delivery_failed" ""))
              now)
        call (
            fail_run run_id
              (recovery_failure "delivery_failed"
                "Recovered delivery still has failed required actions")
              now)
        pure (with_result summary run_id "failed" none (results report)))
      else (do
        close_stage now stage none
        call (complete_run run_id "changed" now)
        pure (with_result summary run_id "completed" (some "changed") (results report)))

  unfoldable pub resume_body : RunSummary → Pipe PipelineResult
  unfolding settle_resumed
  resume_body summary = do
    external (x.read_frozen summary)
    attempt ← (λ s. (ok (next_stage_attempt run_id "deliver" s.tasks), s))
    stage ← call (start_stage run_id "deliver" attempt)
    context ← external (x.frozen_context summary)
    report ← external (x.deliver_frozen context)
    settle_resumed stage summary report

  unfoldable pub fail_resumed : RunSummary → Raised → Pipe PipelineResult
  unfolding fail_run
  fail_resumed summary e = do
    call (fail_run run_id (recovery_failure "delivery_recovery_failed" (reason_of e)) now)
    pure (with_result summary run_id "failed" none [])

  -- `_resume_frozen_delivery`
  unfoldable pub resume_frozen_delivery : RunSummary → Pipe PipelineResult
  unfolding claim_run resume_body fail_resumed
  resume_frozen_delivery summary = do
    call (claim_run run_id now) >>= λ _. pure tt
    catch (resume_body summary) (fail_resumed summary)

  -- `_execute_fresh`: the pipeline, once everything that it needs is built.
  unfoldable pub execute_fresh : ProjectConfig → RunSummary → Pipe PipelineResult
  unfolding run
  execute_fresh project summary = do
    fresh ← external (x.configure project summary)
    external (alone (run fresh.adapters fresh.project x.digest run_id now))

  -- except (KeyError, ValueError, ConfigurationNotReady)
  abbrev pub not_configured : RunSummary → (reason : String) → Pipe PipelineResult
  not_configured summary reason = do
    external (
        x.put_health (record {
          project_id = summary.project_id;
          ready = false;
          status = "not_ready";
          summary = reason;
        }))
    fail_before_execution summary "configuration_not_ready" reason true

  unfoldable pub configuration_handler : ProjectConfig → RunSummary → Raised → Pipe PipelineResult
  unfolding fail_before_execution
  configuration_handler project summary (value_error reason) = not_configured summary reason
  configuration_handler project summary (protocol_error reason) = not_configured summary reason
  configuration_handler project summary (failure reason) = raise (failure reason)
  configuration_handler project summary canceled = raise canceled
  configuration_handler project summary (other_error reason) = raise (other_error reason)

  -- The project that the task belongs to, if it is still configured.
  unfoldable pub execute_project : RunSummary → Option ProjectConfig → Pipe PipelineResult
  unfolding fail_before_execution execute_fresh configuration_handler
  execute_project summary none =
      fail_before_execution summary "project_not_found"
        (concat "Project no longer exists: " summary.project_id) false
  execute_project summary (some project) = do
    preflight ← external (x.preflight project)
    external (x.put_health preflight)
    if not preflight.ready
        then fail_before_execution summary "configuration_not_ready"
            "Project preflight failed before execution" true
        else catch (execute_fresh project summary) (configuration_handler project summary)

  -- `RunExecutor.execute`
  unfoldable pub execute : Pipe PipelineResult
  unfolding get_run_summary resume_frozen_delivery execute_project
  execute = do
    summary ← call (λ t. (get_run_summary run_id t, t))
    projects ← external x.reload
    frozen ← external (x.has_frozen_files summary)
    if frozen
        then resume_frozen_delivery summary
        else execute_project summary (find (λ p. p.id == summary.project_id) projects)

  -- `Scheduler._execute`: an exception ends the run as failed; a run that is gone is passed over.
  unfoldable pub execute_safely : Pipe PipelineResult
  unfolding execute fail_run
  execute_safely = catch execute (λ e.
      catch
        (call (
          fail_run run_id
            (record {
              code = "unexpected_executor_error";
              stage = "scheduler";
              summary = reason_of e;
              retryable = true;
            })
            now))
        (λ _. pure tt)
      >> raise e)
