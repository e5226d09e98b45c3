-- ===== src/Pipeline/Executed.antt =====
-- A run after its execution: no exception leaves it running.
use code_fixer.Base.{
  ℕ, String, Bool, true, false, not, Option, none, some, List, [], ◌==◌, text_eq, ◌≡◌, refl, ap,
}
use code_fixer.Base.Text.{concat}
use code_fixer.Base.Table.{find}
use code_fixer.Base.Result.{Result, ok, err}
use code_fixer.Tasks.Table.{StageStatus, Failure, Tasks, TaskRun, TaskError}
use code_fixer.Tasks.Store.{claim_run, complete_run, fail_run}
use code_fixer.Tasks.Stages.{next_stage_attempt}
use code_fixer.Tasks.Consistency.{IsConsistent}
use code_fixer.Delivery.Coordinator.{
  DeliveryExecutionSummary, FinalActionResult, FrozenDeliveryContext, all_succeeded, results,
}
use code_fixer.Pipeline.Session.{
  Raised, failure, canceled, protocol_error, value_error, other_error, Session, Pipe, External,
  continue, on_tasks, outcome_of, call,
}
use code_fixer.Pipeline.Session
use code_fixer.Pipeline.Stages.{stage_failure}
use code_fixer.Pipeline.Run.{PipelineResult, reason_of}
use code_fixer.Pipeline.Body.{run}
use code_fixer.Pipeline.Rules.{IsRunning, Outcome, Holds, IsQuiet}
use code_fixer.Pipeline.Safe.{
  Safe, ◌>>=◌, ◌>>◌, catch, branch, external, read, start, finish, given,
}
use code_fixer.Pipeline.Ends.{complete_run-EndsAs, fail_run-EndsAs, holds_end}
use code_fixer.Pipeline.Calm.{IsCalm}
use code_fixer.Pipeline.Settles.{Returned}
use code_fixer.Pipeline.Claims.{Claimed, claim_run-Claimed}
use code_fixer.Pipeline.Runs.{run-Returned}
use code_fixer.Pipeline.Execute.{
  RunSummary, ProjectConfig, ProjectHealth, Fresh, Executor, get_run_summary, with_result, alone,
  fail_before_execution, recovery_failure, settle_resumed, resume_body, fail_resumed,
  resume_frozen_delivery, execute_fresh, configuration_handler, execute_project, execute,
}

-- What an executor calls keeps the tables consistent, and does not end the run.
pub record IsReady (run_id : String) (x : Executor) : Type 0 where
  pub reload : IsQuiet IsConsistent x.reload
  pub has_frozen_files : (s : RunSummary) → IsQuiet IsConsistent (x.has_frozen_files s)
  pub preflight : (p : ProjectConfig) → IsQuiet IsConsistent (x.preflight p)
  pub put_health : (h : ProjectHealth) → IsQuiet IsConsistent (x.put_health h)
  pub configure : (p : ProjectConfig) (s : RunSummary) → IsQuiet IsConsistent (x.configure p s)
  pub calm :
      (p : ProjectConfig) (s : RunSummary) (t : Tasks) (fresh : Fresh)
      → (x.configure p s t).0 ≡ ok fresh
      → IsCalm run_id fresh.adapters
  pub read_frozen : (s : RunSummary) → IsQuiet (IsRunning run_id) (x.read_frozen s)
  pub frozen_context : (s : RunSummary) → IsQuiet (IsRunning run_id) (x.frozen_context s)
  pub deliver_frozen : (f : FrozenDeliveryContext) → IsQuiet (IsRunning run_id) (x.deliver_frozen f)

module _ (run_id : String) (now : ℕ) where
  relaxed :
      {B : Type 0} (Q : B → Tasks → Type 0) (y : Result Raised B × Session)
      → Outcome (IsRunning run_id) Q y
      → Outcome IsConsistent Q y
  relaxed Q (ok b, s) h = h
  relaxed Q (err e, s) h = h.consistent

  -- A claim, and what is done with the run after it.
  pub holds_claim :
      {B : Type 0} (Q : B → Tasks → Type 0) (k : Pipe B)
      → Holds (IsRunning run_id) k Q
      → Holds IsConsistent
          (Session.◌>>◌ (Session.◌>>=◌ (call (claim_run run_id now)) (λ _. Session.pure tt)) k)
          Q
  holds_claim {B = B} Q k rest s v =
      after (claim_run run_id now s.tasks) (claim_run-Claimed run_id now s.tasks v)
    where
      after :
          (c : Result TaskError TaskRun × Tasks)
          → Claimed run_id c
          → Outcome IsConsistent Q (
              continue
                (λ (_ : Unit {0}). k)
                (continue (λ (_ : TaskRun). Session.pure (tt {0})) (on_tasks s (outcome_of c))))
      after (ok q, t) h = relaxed Q (k (record s { tasks = t })) (rest (record s { tasks = t }) h)
      after (err e, t) h = h

  module _ (x : Executor) (ready : IsReady run_id x) where
    before-Settles :
        (summary : RunSummary) (code text : String) (retryable : Bool)
        → Holds IsConsistent
            (fail_before_execution x run_id now summary code text retryable)
            (Returned run_id)
    unfolding fail_before_execution
    before-Settles summary code text retryable =
        let reason : Failure = record {
          code = code;
          stage = "prepare";
          summary = text;
          retryable = retryable;
        } in
        holds_claim (Returned run_id) _ (
          holds_end run_id "failed" (fail_run run_id reason now)
            (with_result summary run_id "failed" none []) (Returned run_id)
            (fail_run-EndsAs run_id now reason) (λ t h. (h, refl)))

    abbrev fails_after :
        (summary : RunSummary) (reason : Failure) (deliveries : List FinalActionResult)
        → Safe (IsRunning run_id) (Returned run_id)
    fails_after summary reason deliveries = given _ (
        holds_end run_id "failed" (fail_run run_id reason now)
          (with_result summary run_id "failed" none deliveries) (Returned run_id)
          (fail_run-EndsAs run_id now reason) (λ t h. (h, refl)))

    resumed-Settles :
        (stage : ℕ) (summary : RunSummary) (report : DeliveryExecutionSummary)
        → Holds
            (IsRunning run_id)
            (settle_resumed x run_id now stage summary report)
            (Returned run_id)
    unfolding settle_resumed
    resumed-Settles stage summary report =
        let failed =
          recovery_failure x run_id now "delivery_failed"
            "Recovered delivery still has failed required actions" in
        let m : Safe (IsRunning run_id) (Returned run_id) =
          branch (not (all_succeeded report))
            (do
              finish stage StageStatus.failed none (some (stage_failure "delivery_failed" "")) now
              fails_after summary failed (results report))
            (do
              finish stage StageStatus.completed none none now
              given _ (
                  holds_end run_id "completed" (complete_run run_id "changed" now)
                    (with_result summary run_id "completed" (some "changed") (results report))
                    (Returned run_id) (complete_run-EndsAs run_id now "changed")
                    (λ t h. (h, refl)))) in
        m.holds

    resume-Settles :
        (summary : RunSummary)
        → Holds IsConsistent (resume_frozen_delivery x run_id now summary) (Returned run_id)
    unfolding resume_frozen_delivery resume_body fail_resumed
    resume-Settles summary =
        let m : Safe (IsRunning run_id) (Returned run_id) =
          catch
            (do
              external (x.read_frozen summary) (ready.read_frozen summary)
              attempt ←
                  given (λ s. (ok (next_stage_attempt run_id "deliver" s.tasks), s)) (λ s h. h)
              stage ← start "deliver" attempt
              context ← external (x.frozen_context summary) (ready.frozen_context summary)
              report ← external (x.deliver_frozen context) (ready.deliver_frozen context)
              given (settle_resumed x run_id now stage summary report)
                  (resumed-Settles stage summary report))
            (λ e.
              fails_after summary
                (recovery_failure x run_id now "delivery_recovery_failed" (reason_of e)) []) in
        holds_claim (Returned run_id) m.action m.holds

    fresh-Settles :
        (project : ProjectConfig) (summary : RunSummary)
        → Holds IsConsistent (execute_fresh x run_id now project summary) (Returned run_id)
    unfolding execute_fresh
    fresh-Settles project summary s v =
        configured (x.configure project summary s.tasks) refl
          (ready.configure project summary s.tasks v)
      where
        ran :
            (y : Result Raised PipelineResult × Session)
            → Outcome IsConsistent (Returned run_id) y
            → Outcome IsConsistent (Returned run_id) (on_tasks s (y.0, y.1.tasks))
        ran (ok p, u) h = h
        ran (err e, u) h = h

        configured :
            (c : Result Raised Fresh × Tasks)
            → x.configure project summary s.tasks ≡ c
            → IsConsistent c.1
            → Outcome IsConsistent (Returned run_id) (
                continue
                  (λ fresh.
                    Session.external (alone (run fresh.adapters fresh.project x.digest run_id now)))
                  (on_tasks s c))
        configured (err e, t) same h = h
        configured (ok fresh, t) same h =
            let new : Session = record {
              tasks = t;
              discovery_manifest = none;
              repair_manifest = none;
            } in
            ran (run fresh.adapters fresh.project x.digest run_id now new) (
              run-Returned fresh.adapters fresh.project x.digest run_id now
                (ready.calm project summary s.tasks fresh (ap (λ c. c.0) same)) new h)

    abbrev not_configured_safely : RunSummary → String → Safe IsConsistent (Returned run_id)
    not_configured_safely summary reason = do
      external (x.put_health _) (
          ready.put_health (record {
            project_id = summary.project_id;
            ready = false;
            status = "not_ready";
            summary = reason;
          }))
      given (fail_before_execution x run_id now summary "configuration_not_ready" reason true)
          (before-Settles summary "configuration_not_ready" reason true)

    handler-Settles :
        (project : ProjectConfig) (summary : RunSummary) (e : Raised)
        → Holds IsConsistent
            (configuration_handler x run_id now project summary e)
            (Returned run_id)
    unfolding configuration_handler
    handler-Settles project summary (value_error reason) =
        (not_configured_safely summary reason).holds
    handler-Settles project summary (protocol_error reason) =
        (not_configured_safely summary reason).holds
    handler-Settles project summary (failure reason) = λ s h. h
    handler-Settles project summary canceled = λ s h. h
    handler-Settles project summary (other_error reason) = λ s h. h

    project-Settles :
        (summary : RunSummary) (o : Option ProjectConfig)
        → Holds IsConsistent (execute_project x run_id now summary o) (Returned run_id)
    unfolding execute_project
    project-Settles summary none =
        before-Settles summary "project_not_found"
          (concat "Project no longer exists: " summary.project_id) false
    project-Settles summary (some project) =
        let failed =
          before-Settles summary "configuration_not_ready"
            "Project preflight failed before execution" true in
        let m : Safe IsConsistent (Returned run_id) = (do
          preflight ← external (x.preflight project) (ready.preflight project)
          external (x.put_health preflight) (ready.put_health preflight)
          branch (not preflight.ready) (given _ failed) (
              catch
                (given (execute_fresh x run_id now project summary) (fresh-Settles project summary))
                (λ e.
                  given (configuration_handler x run_id now project summary e)
                    (handler-Settles project summary e)))) in
        m.holds

    -- From consistent tables, `execute` either returns a result, and then the tables are consistent and
    -- the run has the status of the result, which is completed, failed or canceled; or it raises an
    -- exception, and then the tables are consistent. Assumed is that what the executor and the
    -- pipeline call keeps the tables consistent and does not change the state of the run.
    pub execute-Returned :
        (s : Session)
        → IsConsistent s.tasks
        → Outcome IsConsistent (Returned run_id) (execute x run_id now s)
    unfolding execute
    execute-Returned =
        let m : Safe IsConsistent (Returned run_id) = (do
          summary ← read (get_run_summary run_id)
          projects ← external x.reload ready.reload
          frozen ← external (x.has_frozen_files summary) (ready.has_frozen_files summary)
          branch frozen
              (given (resume_frozen_delivery x run_id now summary) (resume-Settles summary))
              (given
                (execute_project x run_id now summary
                  (find (λ p. p.id == summary.project_id) projects))
                (project-Settles summary (find (λ p. p.id == summary.project_id) projects)))) in
        m.holds
