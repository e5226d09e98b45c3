-- ===== src/Pipeline/Stages.antt =====
-- The stages of a pipeline: `_run_markdown_agent_stage`, `_run_agent_stage` of the repair,
-- `_run_stability_check`, `_check_cancel` and the conclusion. The clock reads `now`.
use code_fixer.Base.{
  ℕ, String, Bool, false, not, Option, none, some, List, ◌==◌, text_eq, if◌then◌else◌,
}
use code_fixer.Base.Text.{strip, concat, or_text}
use code_fixer.Base.Result.{ok}
use code_fixer.Tasks.Table.{StageStatus, Failure}
use code_fixer.Tasks.Store.{is_cancel_requested}
use code_fixer.Tasks.Stages.{start_stage, finish_stage, next_stage_attempt}
use code_fixer.Delivery.Stability.{StabilityCheckResult}
use code_fixer.Pipeline.Session.{
  Raised, failure, canceled, Pipe, pure, raise, ◌>>=◌, ◌>>◌, catch, external, call, write, when,
}
use code_fixer.Pipeline.Adapters.{
  RunContext, AgentRunResult, RepairResult, StoredArtifact, RepairOutput, output_found,
  output_missing, output_invalid, Conclusion, Adapters, agent_failure_reason, text_of,
}

-- A failure stored with a stage; an absent key is the empty text, or false.
abbrev pub stage_failure : (code summary : String) → Failure
stage_failure code summary = record {
  code = code;
  stage = "";
  summary = summary;
  retryable = false;
}

-- PipelineFailure(code, stage, summary)
abbrev pub pipeline_failure : (code stage summary : String) → Raised
pipeline_failure code stage summary =
    failure (record { code = code; stage = stage; summary = summary; retryable = false })

-- A stage that is finished, and the exception after it.
abbrev pub stop_stage : ℕ → {A : Type 0} → ℕ → StageStatus → Option Failure → Raised → Pipe A
stop_stage now id status reason e = do write (finish_stage id status none reason now); raise e

abbrev pub close_stage : ℕ → ℕ → Option String → Pipe (Unit {0})
close_stage now id output_path = write (finish_stage id StageStatus.completed output_path none now)

-- `is_cancel_requested` leaves the tables as they are.
unfoldable pub cancel_requested : String → Pipe Bool
unfolding is_cancel_requested
cancel_requested run_id = call (λ t. (is_cancel_requested run_id t, t))

unfoldable pub check_cancel : String → Pipe (Unit {0})
unfolding cancel_requested
check_cancel run_id = do asked ← cancel_requested run_id; if asked then raise canceled else pure tt

-- What the status of an agent's result ends the stage with: the code that is raised, the code that
-- is stored, the summary stored and raised for a timeout, and the words before a reason.
unfoldable pub check_agent :
    (now id : ℕ) (stage raised_code stored_code stored_timeout timeout words : String)
    → AgentRunResult
    → Pipe (Unit {0})
check_agent now id stage raised_code stored_code stored_timeout timeout words result =
    if result.status == "canceled"
    then stop_stage now id StageStatus.canceled none canceled
    else if result.status == "timed_out"
    then stop_stage now id StageStatus.failed (some (stage_failure "agent_timeout" stored_timeout))
        (pipeline_failure "agent_timeout" stage timeout)
    else if not (result.status == "succeeded")
    then stop_stage now id StageStatus.failed
        (some (stage_failure stored_code (agent_failure_reason result)))
        (pipeline_failure raised_code stage (concat words (agent_failure_reason result)))
    else pure tt

unfoldable pub run_discovery_stage :
    Adapters → (run_id : String) (now : ℕ) → List (String × String) → Pipe StoredArtifact
unfolding check_agent
run_discovery_stage a run_id now inputs = do
  id ← call (start_stage run_id "discovery" 1)
  entry ← external (a.write_entry "discovery" inputs)
  result ← external (a.run_discovery entry)
  external (a.write_diagnostic "discovery" result) >>= λ _. pure tt
  check_agent now id "discovery" "scope_discovery_failed" "scope_discovery_failed"
      "Localization Agent timed out" "Localization Agent timed out" "Localization Agent failed: "
      result
  let report = strip (text_of result.final_text)
  let empty : String = "Localization Agent returned an empty report"
  when (report == "") (
      stop_stage now id StageStatus.failed (some (stage_failure "scope_discovery_failed" empty))
        (pipeline_failure "scope_discovery_failed" "discovery" empty))
  artifact ← external (a.write_report (concat report "\n"))
  close_stage now id (some artifact.path)
  pure artifact

-- What `_run_agent_stage` does with the output of the repair agent.
abbrev pub settle_repair : (now id : ℕ) → RepairOutput → Pipe (RepairResult × StoredArtifact)
settle_repair now id (output_found payload artifact) = do
  close_stage now id (some artifact.path)
  pure (payload, artifact)
settle_repair now id output_missing =
    stop_stage now id StageStatus.failed (some (stage_failure "agent_protocol_invalid" "")) (
      pipeline_failure "agent_protocol_invalid" "repair"
        "repair Agent produced no structured result")
settle_repair now id (output_invalid reason) =
    stop_stage now id StageStatus.failed (some (stage_failure "agent_protocol_invalid" reason)) (
      pipeline_failure "agent_protocol_invalid" "repair"
        (concat "repair Agent output is invalid: " reason))

unfoldable pub run_repair_stage :
    Adapters
    → (run_id : String) (now : ℕ) → List (String × String)
    → Pipe (RepairResult × StoredArtifact)
unfolding check_agent cancel_requested
run_repair_stage a run_id now inputs = do
  id ← call (start_stage run_id "repair" 1)
  entry ← external (a.write_entry "repair" inputs)
  result ← external (a.run_repair entry)
  external (a.write_diagnostic "repair" result) >>= λ _. pure tt
  check_agent now id "repair" "agent_protocol_invalid" "agent_failed" "" "repair Agent timed out"
      "repair Agent failed: " result
  asked ← cancel_requested run_id
  when asked (stop_stage now id StageStatus.canceled none canceled)
  output ← external (a.read_repair_output result)
  settle_repair now id output

-- `_run_stability_check`
abbrev pub settle_stability : (now id : ℕ) → StabilityCheckResult → Pipe (Unit {0})
settle_stability now id stability =
    if stability.ready
    then close_stage now id none
    else stop_stage now id StageStatus.failed
        (some (stage_failure (text_of stability.code) stability.summary))
        (pipeline_failure (or_text stability.code "pre_delivery_check_failed") "pre_delivery_check"
          stability.summary)

unfoldable pub run_stability_check :
    Adapters → (run_id : String) (now : ℕ) → RunContext → String → Pipe (Unit {0})
run_stability_check a run_id now context revision = elim a.check_stability [
  | none ↦ pure tt
  | some check ↦ do
    attempt ← (λ s. (ok (next_stage_attempt run_id "pre_delivery_check" s.tasks), s))
    id ← call (start_stage run_id "pre_delivery_check" attempt)
    stability ← external (check context revision)
    settle_stability now id stability
]

-- `_write_conclusion_safe`
unfoldable pub write_conclusion_safe : Adapters → Conclusion → Pipe (Unit {0})
write_conclusion_safe a conclusion = catch (external (a.write_conclusion conclusion)) (λ e. pure tt)
