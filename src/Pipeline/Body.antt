-- ===== src/Pipeline/Body.antt =====
-- The `try` block of `ChangedPipeline.run`, its handlers and its `finally` block.
use code_fixer.Base.{
  ℕ, String, Bool, true, false, not, ◌&&◌, ◌||◌, Option, none, some, List, [], ◌∷◌, ◌==◌, text_eq,
  if◌then◌else◌,
}
use code_fixer.Base.Text.{concat, join, or_text}
use code_fixer.Base.Table.{select}
use code_fixer.Base.Result.{Result, ok, err}
use code_fixer.Tasks.Table.{StageStatus, Failure}
use code_fixer.Tasks.Store.{complete_run, fail_run, cancel_run}
use code_fixer.Tasks.Stages.{start_stage, finish_stage}
use code_fixer.Delivery.Coordinator.{
  DeliveryExecutionSummary, FinalActionResult, FrozenDeliveryContext, succeeded, nonempty,
  all_succeeded, results,
}
use code_fixer.Pipeline.Session.{
  Raised, failure, canceled, protocol_error, value_error, other_error, WorkspaceManifest, Pipe,
  pure, raise, ◌>>=◌, ◌>>◌, catch, finally, external, call, write, when,
}
use code_fixer.Pipeline.Adapters.{
  RunContext, RepairResult, StoredArtifact, CandidateChange, Adapters,
}
use code_fixer.Pipeline.Stages.{
  stage_failure, pipeline_failure, close_stage, check_cancel, run_discovery_stage, run_repair_stage,
  run_stability_check, write_conclusion_safe,
}
use code_fixer.Pipeline.Run.{
  PipelineResult, Project, claim, prepare, discovery_inputs, prepare_workspace, run_verification,
  reason_of,
}

abbrev pub is_text : String → Option String → Bool
is_text s none = false
is_text s (some t) = t == s

abbrev pub is_empty {ℓ} : {A : Type ℓ} → List A → Bool
is_empty [] = true
is_empty (x ∷ xs) = false

-- `fallback_available` and `fallback_failed` of DeliveryExecutionSummary.
abbrev pub fallback_available : Option FinalActionResult → Bool
fallback_available none = false
fallback_available (some r) = succeeded r

abbrev pub fallback_failed : Option FinalActionResult → Bool
fallback_failed none = false
fallback_failed (some r) = r.status == "failed"

abbrev pub unauthorized_paths_summary : CandidateChange → String
unauthorized_paths_summary candidate =
    concat "Coding changed unauthorized paths: " (join ", " candidate.unauthorized_paths)

module _ (a : Adapters) (project : Project) (digest : String → String) (run_id : String)
    (now : ℕ) where
  abbrev pub ended :
      RunContext → (status : String) → Option String → List FinalActionResult → PipelineResult
  ended context status result deliveries = record {
    task_id = context.task.id;
    run_id = run_id;
    status = status;
    result = result;
    deliveries = deliveries;
  }

  -- The ends of a run: its last write, and the result that is returned.
  unfoldable pub end_completed :
      RunContext → (result : String) → List FinalActionResult → Pipe PipelineResult
  unfolding complete_run
  end_completed context result deliveries = do
    call (complete_run run_id result now)
    pure (ended context "completed" (some result) deliveries)

  unfoldable pub end_failed : RunContext → Failure → List FinalActionResult → Pipe PipelineResult
  unfolding fail_run
  end_failed context reason deliveries = do
    call (fail_run run_id reason now)
    pure (ended context "failed" none deliveries)

  unfoldable pub end_canceled : RunContext → Pipe PipelineResult
  unfolding cancel_run
  end_canceled context = do call (cancel_run run_id now); pure (ended context "canceled" none [])

  abbrev pub delivery_exception : Raised → Failure
  delivery_exception e = record {
    code = "delivery_exception";
    stage = "deliver";
    summary = reason_of e;
    retryable = true;
  }

  abbrev pub delivery_summary : DeliveryExecutionSummary → String
  delivery_summary report =
      if fallback_available report.fallback_result
      then "Final action failed; a fallback Patch is available"
      else if nonempty (select succeeded report.required_results)
      then "Final action failed after partial delivery"
      else "Final actions failed"

  -- What follows the report of the delivery.
  unfoldable pub settle_delivery :
      (stage : ℕ) → RunContext → DeliveryExecutionSummary → Pipe PipelineResult
  unfolding end_completed end_failed results all_succeeded
  settle_delivery stage context report =
      if not (all_succeeded report)
      then (do
        write (
            finish_stage stage StageStatus.failed none
              (some (stage_failure "delivery_failed" (delivery_summary report))) now)
        end_failed context
            (record {
              code =
                  if fallback_failed report.fallback_result
                  then "fallback_patch_failed"
                  else "delivery_failed";
              stage = "deliver";
              summary = delivery_summary report;
              retryable = true;
            })
            (results report))
      else (do close_stage now stage none; end_completed context "changed" (results report))

  -- Either the report, or the exception that the delivery raised.
  unfoldable pub settle_report :
      (stage : ℕ) → RunContext → Result Raised DeliveryExecutionSummary → Pipe PipelineResult
  unfolding settle_delivery end_failed
  settle_report stage context (ok report) = settle_delivery stage context report
  settle_report stage context (err e) =
      write (finish_stage stage StageStatus.failed none (some (delivery_exception e)) now)
      >> end_failed context (delivery_exception e) []

  unfoldable pub deliver : RunContext → FrozenDeliveryContext → Pipe PipelineResult
  unfolding settle_report
  deliver context frozen = do
    stage ← call (start_stage run_id "deliver" 1)
    report ← catch (external (a.deliver frozen) >>= λ r. pure (ok r)) (λ e. pure (err e))
    settle_report stage context report

  -- The stage freeze_change, and the context of the delivery.
  unfoldable pub freeze :
      RunContext
      → WorkspaceManifest
      → CandidateChange
      → StoredArtifact
      → RepairResult
      → StoredArtifact
      → Pipe FrozenDeliveryContext
  freeze context manifest candidate verification payload repair = do
    stage ← call (start_stage run_id "freeze_change" 1)
    metadata ← external (a.write_metadata context payload)
    frozen ← external (a.freeze_change manifest candidate verification repair)
    close_stage now stage (some frozen.1.path)
    external (
        a.write_conclusion (record {
          outcome = "changed";
          headline = concat "已修复" metadata.change_summary;
          cause = "定位 Agent 已生成定位报告，Coding Agent 已在当前修改基线上完成核对与修改。";
          resolution = or_text payload.summary metadata.change_summary;
        }))
    pure (record {
      task_id = context.task.id;
      run_id = run_id;
      change_version = 1;
      source_id = manifest.source_id;
      base_revision = manifest.base_revision;
      patch_path = frozen.0.path;
      patch_sha256 = frozen.0.sha256;
      manifest_path = frozen.1.path;
      delivery_metadata_path = metadata.path;
      commit_subject = metadata.commit_subject;
      patch_filename = metadata.patch_filename;
      ticket_key = metadata.ticket_key;
    })

  -- A candidate that the policy allows, from its verification to its delivery.
  unfoldable pub deliver_change :
      RunContext
      → WorkspaceManifest
      → CandidateChange
      → RepairResult
      → StoredArtifact
      → Pipe PipelineResult
  unfolding check_cancel run_verification run_stability_check freeze deliver
  deliver_change context manifest candidate payload repair = do
    verification ← run_verification a run_id now manifest candidate
    check_cancel run_id
    run_stability_check a run_id now context manifest.base_revision
    frozen ← freeze context manifest candidate verification payload repair
    check_cancel run_id
    deliver context frozen

  unfoldable pub no_change : RunContext → WorkspaceManifest → RepairResult → Pipe PipelineResult
  unfolding run_stability_check end_completed
  no_change context manifest payload = do
    run_stability_check a run_id now context manifest.base_revision
    external (
        a.write_conclusion (record {
          outcome = "no_change";
          headline = "当前代码无需修改";
          cause = "Coding Agent 核对修改工程后未发现需要生成的差异。";
          resolution = or_text payload.summary "未生成代码差异。";
        }))
    end_completed context "no_change" []

  -- What the outcome of the repair and its candidate lead to.
  unfoldable pub settle_change :
      RunContext
      → WorkspaceManifest
      → RepairResult
      → StoredArtifact
      → CandidateChange
      → Pipe PipelineResult
  unfolding no_change deliver_change
  settle_change context manifest payload repair candidate =
      if is_text "no_valid_diff" payload.outcome && is_empty candidate.changed_paths
      then no_change context manifest payload
      else if not (is_empty candidate.unauthorized_paths)
      then raise
          (pipeline_failure "unauthorized_change" "repair" (unauthorized_paths_summary candidate))
      else if is_empty candidate.changed_paths || candidate.patch_text == ""
      then raise (
          pipeline_failure "repair_no_valid_diff" "repair"
            "Coding Agent claimed a change but produced no valid diff")
      else deliver_change context manifest candidate payload repair

  unfoldable pub body : RunContext → Pipe PipelineResult
  unfolding prepare run_discovery_stage check_cancel prepare_workspace run_repair_stage
      settle_change
  body context = do
    discovery ← prepare a project digest run_id now context
    similar ← external (a.find_similar context discovery)
    report ← run_discovery_stage a run_id now (discovery_inputs similar)
    check_cancel run_id
    manifest ← prepare_workspace a project run_id now
    repaired ← run_repair_stage a run_id now (
        ("Complete ticket context", "ticket")
        ∷ ("Localization report", report.path)
        ∷ ("Project policy", "project")
        ∷ ("Workspace manifest", manifest.workspace_path)
        ∷ [])
    when (is_text "blocked" repaired.0.outcome) (
        raise (
          pipeline_failure (or_text repaired.0.blocking_code "unsupported_artifact_change") "repair"
            (or_text repaired.0.summary "Coding is blocked by a non-code boundary")))
    candidate ← external (a.collect_change manifest)
    settle_change context manifest repaired.0 repaired.1 candidate

  abbrev pub protocol_failure : String → Failure
  protocol_failure reason = record {
    code = "agent_protocol_invalid";
    stage = "protocol";
    summary = reason;
    retryable = false;
  }

  unfoldable pub fail_safely : RunContext → Failure → Pipe PipelineResult
  unfolding write_conclusion_safe end_failed
  fail_safely context reason = do
    write_conclusion_safe a (record {
      outcome = "failed";
      headline = "任务未能完成";
      cause = or_text (some reason.summary) "任务执行失败。";
      resolution = "请按失败建议补充信息、修正配置或重新运行。";
    })
    end_failed context reason []

  -- The handlers: any exception that is not one of the pipeline's goes on.
  unfoldable pub handler : RunContext → Raised → Pipe PipelineResult
  unfolding write_conclusion_safe end_canceled fail_safely
  handler context canceled = do
    write_conclusion_safe a (record {
      outcome = "canceled";
      headline = "任务已取消";
      cause = "任务在完成前收到取消请求。";
      resolution = "未继续执行后续修改或交付。";
    })
    end_canceled context
  handler context (failure reason) = fail_safely context reason
  handler context (protocol_error reason) = fail_safely context (protocol_failure reason)
  handler context (value_error reason) = raise (value_error reason)
  handler context (other_error reason) = raise (other_error reason)

  abbrev pub clean_if :
      (WorkspaceManifest → Pipe (Unit {0})) → Option WorkspaceManifest → Pipe (Unit {0})
  clean_if clean none = pure tt
  clean_if clean (some manifest) = clean manifest

  -- The `finally` block.
  unfoldable pub cleanup : Pipe (Unit {0})
  cleanup = do
    (λ s. clean_if (λ m. external (a.clean_localization m)) s.discovery_manifest s)
    (λ s. clean_if (λ m. external (a.clean_source m)) s.repair_manifest s)

  unfoldable pub run : Pipe PipelineResult
  unfolding claim check_cancel body handler cleanup
  run = do
    context ← claim run_id now
    check_cancel run_id
    finally (catch (body context) (handler context)) cleanup
