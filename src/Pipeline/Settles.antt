-- ===== src/Pipeline/Settles.antt =====
-- The delivery of a change: a result that is returned is the state of the run.
use code_fixer.Base.{
  ℕ, String, Bool, true, not, ◌||◌, none, some, List, [], ◌==◌, text_eq, if◌then◌else◌, ◌≡◌, refl,
}
use code_fixer.Base.Text.{concat, or_text}
use code_fixer.Base.Result.{Result, ok, err}
use code_fixer.Tasks.Table.{StageStatus, Failure, Tasks}
use code_fixer.Tasks.Store.{complete_run, fail_run, cancel_run}
use code_fixer.Delivery.Coordinator.{
  DeliveryExecutionSummary, FinalActionResult, FrozenDeliveryContext, all_succeeded, results,
}
use code_fixer.Pipeline.Session.{Raised, WorkspaceManifest, Pipe}
use code_fixer.Pipeline.Adapters.{
  RunContext, RepairResult, StoredArtifact, CandidateChange, Adapters,
}
use code_fixer.Pipeline.Stages.{stage_failure, check_cancel, run_stability_check}
use code_fixer.Pipeline.Run.{PipelineResult, Project, run_verification}
use code_fixer.Pipeline.Body.{
  fallback_failed, end_completed, end_failed, end_canceled, delivery_exception, delivery_summary,
  settle_delivery, settle_report, deliver, freeze, deliver_change,
}
use code_fixer.Pipeline.Rules.{IsRunning, Holds, Keeps}
use code_fixer.Pipeline.Safe.{
  Safe, Kept, ◌>>=◌, ◌>>◌, pure, catch, branch, external, start, finish, given,
}
use code_fixer.Pipeline.Ends.{
  IsSettled, complete_run-EndsAs, fail_run-EndsAs, cancel_run-EndsAs, holds_end,
}
use code_fixer.Pipeline.Calm.{IsCalm}
use code_fixer.Pipeline.StagesKept.{check_cancel-Keeps, run_stability_check-Keeps}
use code_fixer.Pipeline.RunKept.{run_verification-Keeps}

abbrev pub is_end : String → Bool
is_end status = status == "completed" || status == "failed" || status == "canceled"

-- The run has the status that the result names, and it is the status of an end.
abbrev pub Returned : String → PipelineResult → Tasks → Type 0
Returned run_id p t = IsSettled run_id p.status t × (is_end p.status ≡ true)

module _ (a : Adapters) (project : Project) (digest : String → String) (run_id : String)
    (now : ℕ) where
  abbrev pub Settles : Pipe PipelineResult → Type 0
  Settles m = Holds (IsRunning run_id) m (Returned run_id)

  pub end_completed-Settles :
      (context : RunContext) (result : String) (deliveries : List FinalActionResult)
      → Settles (end_completed a project digest run_id now context result deliveries)
  unfolding end_completed
  end_completed-Settles context result deliveries =
      holds_end run_id "completed" (complete_run run_id result now) _ (Returned run_id)
        (complete_run-EndsAs run_id now result) (λ t h. (h, refl))

  pub end_failed-Settles :
      (context : RunContext) (reason : Failure) (deliveries : List FinalActionResult)
      → Settles (end_failed a project digest run_id now context reason deliveries)
  unfolding end_failed
  end_failed-Settles context reason deliveries =
      holds_end run_id "failed" (fail_run run_id reason now) _ (Returned run_id)
        (fail_run-EndsAs run_id now reason) (λ t h. (h, refl))

  pub end_canceled-Settles :
      (context : RunContext) → Settles (end_canceled a project digest run_id now context)
  unfolding end_canceled
  end_canceled-Settles context =
      holds_end run_id "canceled" (cancel_run run_id now) _ (Returned run_id)
        (cancel_run-EndsAs run_id now) (λ t h. (h, refl))

  abbrev pub completes :
      RunContext → String → List FinalActionResult → Safe (IsRunning run_id) (Returned run_id)
  completes context result deliveries =
      given (end_completed a project digest run_id now context result deliveries)
        (end_completed-Settles context result deliveries)

  abbrev pub fails :
      RunContext → Failure → List FinalActionResult → Safe (IsRunning run_id) (Returned run_id)
  fails context reason deliveries =
      given (end_failed a project digest run_id now context reason deliveries)
        (end_failed-Settles context reason deliveries)

  settle_delivery-Settles :
      (stage : ℕ) (context : RunContext) (report : DeliveryExecutionSummary)
      → Settles (settle_delivery a project digest run_id now stage context report)
  unfolding settle_delivery
  settle_delivery-Settles stage context report =
      let summary = delivery_summary a project digest run_id now report in
      let m : Safe (IsRunning run_id) (Returned run_id) =
        branch (not (all_succeeded report))
          (do
            finish stage StageStatus.failed none (some (stage_failure "delivery_failed" summary))
                now
            fails context
                (record {
                  code =
                      if fallback_failed report.fallback_result
                      then "fallback_patch_failed"
                      else "delivery_failed";
                  stage = "deliver";
                  summary = summary;
                  retryable = true;
                })
                (results report))
          (do
            finish stage StageStatus.completed none none now
            completes context "changed" (results report)) in
      m.holds

  settle_report-Settles :
      (stage : ℕ) (context : RunContext) (r : Result Raised DeliveryExecutionSummary)
      → Settles (settle_report a project digest run_id now stage context r)
  unfolding settle_report
  settle_report-Settles stage context (ok report) = settle_delivery-Settles stage context report
  settle_report-Settles stage context (err e) =
      let reason = delivery_exception a project digest run_id now e in
      let m : Safe (IsRunning run_id) (Returned run_id) =
        finish stage StageStatus.failed none (some reason) now >> fails context reason [] in
      m.holds

  module _ (calm : IsCalm run_id a) where
    deliver-Settles :
        (context : RunContext) (frozen : FrozenDeliveryContext)
        → Settles (deliver a project digest run_id now context frozen)
    unfolding deliver
    deliver-Settles context frozen =
        let m : Safe (IsRunning run_id) (Returned run_id) = (do
          stage ← start "deliver" 1
          let tried : Kept (IsRunning run_id) (Result Raised DeliveryExecutionSummary) =
              catch (external (a.deliver frozen) (calm.deliver frozen) >>= λ r. pure (ok r))
                (λ e. pure (err e))
          report ← tried
          given (settle_report a project digest run_id now stage context report)
              (settle_report-Settles stage context report)) in
        m.holds

    freeze-Keeps :
        (context : RunContext) (manifest : WorkspaceManifest) (candidate : CandidateChange)
        (verification : StoredArtifact) (payload : RepairResult) (repair : StoredArtifact)
        → Keeps (IsRunning run_id) (
            freeze a project digest run_id now context manifest candidate verification payload
              repair)
    unfolding freeze
    freeze-Keeps context manifest candidate verification payload repair =
        let m : Kept (IsRunning run_id) FrozenDeliveryContext = (do
          stage ← start "freeze_change" 1
          metadata ←
              external (a.write_metadata context payload) (calm.write_metadata context payload)
          frozen ←
              external (a.freeze_change manifest candidate verification repair)
                (calm.freeze_change manifest candidate verification repair)
          finish stage StageStatus.completed (some frozen.1.path) none now
          external (a.write_conclusion _) (
              calm.write_conclusion (record {
                outcome = "changed";
                headline = concat "已修复" metadata.change_summary;
                cause = "定位 Agent 已生成定位报告，Coding Agent 已在当前修改基线上完成核对与修改。";
                resolution = or_text payload.summary metadata.change_summary;
              }))
          pure (record {
            task_id = context.task.id;
            run_id = run_id;
            change_version = 1;
            source_id = manifest.source_id;
            base_revision = manifest.base_revision;
            patch_path = frozen.0.path;
            patch_sha256 = frozen.0.sha256;
            manifest_path = frozen.1.path;
            delivery_metadata_path = metadata.path;
            commit_subject = metadata.commit_subject;
            patch_filename = metadata.patch_filename;
            ticket_key = metadata.ticket_key;
          })) in
        m.holds

    abbrev pub checks_cancel : Kept (IsRunning run_id) (Unit {0})
    checks_cancel = given (check_cancel run_id) (check_cancel-Keeps run_id now)

    abbrev pub checks_stability : RunContext → String → Kept (IsRunning run_id) (Unit {0})
    checks_stability context revision =
        given (run_stability_check a run_id now context revision)
          (run_stability_check-Keeps run_id now a calm context revision)

    pub deliver_change-Settles :
        (context : RunContext) (manifest : WorkspaceManifest) (candidate : CandidateChange)
        (payload : RepairResult) (repair : StoredArtifact)
        → Settles
            (deliver_change a project digest run_id now context manifest candidate payload repair)
    unfolding deliver_change
    deliver_change-Settles context manifest candidate payload repair =
        let m : Safe (IsRunning run_id) (Returned run_id) = (do
          verification ←
              given (run_verification a run_id now manifest candidate)
                (run_verification-Keeps run_id now a calm manifest candidate)
          checks_cancel
          checks_stability context manifest.base_revision
          frozen ←
              given
                (freeze a project digest run_id now context manifest candidate verification payload
                  repair)
                (freeze-Keeps context manifest candidate verification payload repair)
          checks_cancel
          given (deliver a project digest run_id now context frozen)
              (deliver-Settles context frozen)) in
        m.holds
