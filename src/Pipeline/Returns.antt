-- ===== src/Pipeline/Returns.antt =====
-- The `try` block of a run, its handlers and its `finally` block.
use code_fixer.Base.{ℕ, String, not, ◌&&◌, ◌||◌, some, List, [], ◌∷◌, ◌==◌, text_eq}
use code_fixer.Base.Text.{or_text}
use code_fixer.Tasks.Table.{Failure}
use code_fixer.Pipeline.Session.{
  Raised, failure, canceled, protocol_error, value_error, other_error, WorkspaceManifest,
}
use code_fixer.Pipeline.Adapters.{
  RunContext, RepairResult, StoredArtifact, CandidateChange, Conclusion, Adapters,
}
use code_fixer.Pipeline.Stages.{
  pipeline_failure, run_discovery_stage, run_repair_stage, write_conclusion_safe,
}
use code_fixer.Pipeline.Run.{Project, prepare, discovery_inputs, prepare_workspace}
use code_fixer.Pipeline.Body.{
  is_text, is_empty, unauthorized_paths_summary, end_canceled, deliver_change, no_change,
  settle_change, body, protocol_failure, fail_safely, handler,
}
use code_fixer.Pipeline.Rules.{IsRunning, Holds}
use code_fixer.Pipeline.Safe.{Safe, Kept, ◌>>=◌, ◌>>◌, raise, branch, when, external, given}
use code_fixer.Pipeline.Calm.{IsCalm}
use code_fixer.Pipeline.StagesKept.{
  run_discovery_stage-Keeps, run_repair_stage-Keeps, write_conclusion_safe-Keeps,
}
use code_fixer.Pipeline.RunKept.{prepare-Keeps, prepare_workspace-Keeps}
use code_fixer.Pipeline.Settles.{
  Returned, completes, fails, end_canceled-Settles, checks_cancel, checks_stability,
  deliver_change-Settles,
}

module _ (a : Adapters) (project : Project) (digest : String → String) (run_id : String) (now : ℕ)
    (calm : IsCalm run_id a) where
  no_change-Settles :
      (context : RunContext) (manifest : WorkspaceManifest) (payload : RepairResult)
      → Holds
          (IsRunning run_id)
          (no_change a project digest run_id now context manifest payload)
          (Returned run_id)
  unfolding no_change
  no_change-Settles context manifest payload =
      let m : Safe (IsRunning run_id) (Returned run_id) = (do
        checks_stability a project digest run_id now calm context manifest.base_revision
        external (a.write_conclusion _) (
            calm.write_conclusion (record {
              outcome = "no_change";
              headline = "当前代码无需修改";
              cause = "Coding Agent 核对修改工程后未发现需要生成的差异。";
              resolution = or_text payload.summary "未生成代码差异。";
            }))
        completes a project digest run_id now context "no_change" []) in
      m.holds

  settle_change-Settles :
      (context : RunContext) (manifest : WorkspaceManifest) (payload : RepairResult)
      (repair : StoredArtifact) (candidate : CandidateChange)
      → Holds
          (IsRunning run_id)
          (settle_change a project digest run_id now context manifest payload repair candidate)
          (Returned run_id)
  unfolding settle_change
  settle_change-Settles context manifest payload repair candidate =
      let m : Safe (IsRunning run_id) (Returned run_id) =
        branch (is_text "no_valid_diff" payload.outcome && is_empty candidate.changed_paths)
          (given (no_change a project digest run_id now context manifest payload)
            (no_change-Settles context manifest payload))
          (branch (not (is_empty candidate.unauthorized_paths))
            (raise (
              pipeline_failure "unauthorized_change" "repair"
                (unauthorized_paths_summary candidate)))
            (branch (is_empty candidate.changed_paths || candidate.patch_text == "")
              (raise (
                pipeline_failure "repair_no_valid_diff" "repair"
                  "Coding Agent claimed a change but produced no valid diff"))
              (given
                (deliver_change a project digest run_id now context manifest candidate payload
                  repair)
                (deliver_change-Settles a project digest run_id now calm context manifest candidate
                  payload repair)))) in
      m.holds

  pub body-Settles :
      (context : RunContext)
      → Holds (IsRunning run_id) (body a project digest run_id now context) (Returned run_id)
  unfolding body
  body-Settles context =
      let m : Safe (IsRunning run_id) (Returned run_id) = (do
        discovery ←
            given (prepare a project digest run_id now context)
              (prepare-Keeps run_id now a calm project digest context)
        similar ← external (a.find_similar context discovery) (calm.find_similar context discovery)
        report ←
            given (run_discovery_stage a run_id now (discovery_inputs similar))
              (run_discovery_stage-Keeps run_id now a calm (discovery_inputs similar))
        checks_cancel a project digest run_id now calm
        manifest ←
            given (prepare_workspace a project run_id now)
              (prepare_workspace-Keeps run_id now a calm project)
        let inputs : List (String × String) =
            ("Complete ticket context", "ticket")
            ∷ ("Localization report", report.path)
            ∷ ("Project policy", "project")
            ∷ ("Workspace manifest", manifest.workspace_path)
            ∷ []
        repaired ←
            given (run_repair_stage a run_id now inputs)
              (run_repair_stage-Keeps run_id now a calm inputs)
        when (is_text "blocked" repaired.0.outcome) (
            raise (
              pipeline_failure (or_text repaired.0.blocking_code "unsupported_artifact_change")
                "repair" (or_text repaired.0.summary "Coding is blocked by a non-code boundary")))
        candidate ← external (a.collect_change manifest) (calm.collect_change manifest)
        given
            (settle_change a project digest run_id now context manifest repaired.0 repaired.1
              candidate)
            (settle_change-Settles context manifest repaired.0 repaired.1 candidate)) in
      m.holds

  abbrev concludes : Conclusion → Kept (IsRunning run_id) (Unit {0})
  concludes c = given (write_conclusion_safe a c) (write_conclusion_safe-Keeps run_id now a calm c)

  fail_safely-Settles :
      (context : RunContext) (reason : Failure)
      → Holds
          (IsRunning run_id)
          (fail_safely a project digest run_id now context reason)
          (Returned run_id)
  unfolding fail_safely
  fail_safely-Settles context reason =
      let m : Safe (IsRunning run_id) (Returned run_id) = (do
        concludes (record {
          outcome = "failed";
          headline = "任务未能完成";
          cause = or_text (some reason.summary) "任务执行失败。";
          resolution = "请按失败建议补充信息、修正配置或重新运行。";
        })
        fails a project digest run_id now context reason []) in
      m.holds

  pub handler-Settles :
      (context : RunContext) (e : Raised)
      → Holds (IsRunning run_id) (handler a project digest run_id now context e) (Returned run_id)
  unfolding handler
  handler-Settles context canceled =
      let m : Safe (IsRunning run_id) (Returned run_id) = (do
        concludes (record {
          outcome = "canceled";
          headline = "任务已取消";
          cause = "任务在完成前收到取消请求。";
          resolution = "未继续执行后续修改或交付。";
        })
        given (end_canceled a project digest run_id now context)
            (end_canceled-Settles a project digest run_id now context)) in
      m.holds
  handler-Settles context (failure reason) = fail_safely-Settles context reason
  handler-Settles context (protocol_error reason) =
      fail_safely-Settles context (protocol_failure a project digest run_id now reason)
  handler-Settles context (value_error reason) = λ s h. h
  handler-Settles context (other_error reason) = λ s h. h
