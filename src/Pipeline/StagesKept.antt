-- ===== src/Pipeline/StagesKept.antt =====
-- The stages of Pipeline/Stages keep the run running: on a return, and on an exception.
use code_fixer.Base.{
  ℕ, String, not, Option, none, some, List, ◌==◌, text_eq, Option-cases, inl, inr,
}
use code_fixer.Base.Text.{strip, concat, or_text}
use code_fixer.Base.Result.{ok}
use code_fixer.Tasks.Table.{StageStatus, Failure, Tasks}
use code_fixer.Tasks.Store.{is_cancel_requested}
use code_fixer.Tasks.Stages.{next_stage_attempt}
use code_fixer.Delivery.Stability.{StabilityCheckResult}
use code_fixer.Pipeline.Session.{Raised, canceled}
use code_fixer.Pipeline.Safe.{
  Safe, Kept, ◌>>=◌, ◌>>◌, pure, raise, catch, branch, when, external, read, start, finish, given,
}
use code_fixer.Pipeline.Adapters.{
  RunContext, AgentRunResult, RepairResult, StoredArtifact, RepairOutput, output_found,
  output_missing, output_invalid, Conclusion, Adapters, agent_failure_reason, text_of,
}
use code_fixer.Pipeline.Stages.{
  stage_failure, pipeline_failure, cancel_requested, check_cancel, check_agent, run_discovery_stage,
  settle_repair, run_repair_stage, settle_stability, run_stability_check, write_conclusion_safe,
}
use code_fixer.Pipeline.Rules.{IsRunning, Keeps, pure-Keeps}
use code_fixer.Pipeline.Calm.{IsCalm}

module _ (run_id : String) (now : ℕ) where
  abbrev pub stop :
      {A : Type 0} (Q : A → Tasks → Type 0)
      → ℕ
      → StageStatus
      → Option Failure
      → Raised
      → Safe (IsRunning run_id) Q
  stop Q id status reason e = do finish id status none reason now; raise e

  pub check_cancel-Keeps : Keeps (IsRunning run_id) (check_cancel run_id)
  unfolding check_cancel cancel_requested
  check_cancel-Keeps =
      let m : Kept (IsRunning run_id) (Unit {0}) = (do
        asked ← read (is_cancel_requested run_id)
        branch asked (raise canceled) (pure tt)) in
      m.holds

  pub check_agent-Keeps :
      (id : ℕ) (stage raised stored stored_timeout timeout words : String) (r : AgentRunResult)
      → Keeps
          (IsRunning run_id)
          (check_agent now id stage raised stored stored_timeout timeout words r)
  unfolding check_agent
  check_agent-Keeps id stage raised stored stored_timeout timeout words r =
      let m : Kept (IsRunning run_id) (Unit {0}) =
        branch (r.status == "canceled") (stop _ id StageStatus.canceled none canceled) (
          branch (r.status == "timed_out")
            (stop _ id StageStatus.failed (some (stage_failure "agent_timeout" stored_timeout))
              (pipeline_failure "agent_timeout" stage timeout))
            (branch (not (r.status == "succeeded"))
              (stop _ id StageStatus.failed (some (stage_failure stored (agent_failure_reason r)))
                (pipeline_failure raised stage (concat words (agent_failure_reason r))))
              (pure tt))) in
      m.holds

  abbrev pub agent_checked :
      (id : ℕ) (stage raised stored stored_timeout timeout words : String)
      → AgentRunResult
      → Kept (IsRunning run_id) (Unit {0})
  agent_checked id stage raised stored stored_timeout timeout words r =
      given (check_agent now id stage raised stored stored_timeout timeout words r)
        (check_agent-Keeps id stage raised stored stored_timeout timeout words r)

  module _ (a : Adapters) (calm : IsCalm run_id a) where
    pub run_discovery_stage-Keeps :
        (inputs : List (String × String))
        → Keeps (IsRunning run_id) (run_discovery_stage a run_id now inputs)
    unfolding run_discovery_stage
    run_discovery_stage-Keeps inputs =
        let m : Kept (IsRunning run_id) StoredArtifact = (do
          id ← start "discovery" 1
          entry ← external (a.write_entry "discovery" inputs) (calm.write_entry "discovery" inputs)
          result ← external (a.run_discovery entry) (calm.run_discovery entry)
          external (a.write_diagnostic "discovery" result)
                (calm.write_diagnostic "discovery" result)
              >>= λ _. pure tt
          agent_checked id "discovery" "scope_discovery_failed" "scope_discovery_failed"
              "Localization Agent timed out" "Localization Agent timed out"
              "Localization Agent failed: " result
          let report = strip (text_of result.final_text)
          let empty : String = "Localization Agent returned an empty report"
          when (report == "") (
              stop _ id StageStatus.failed (some (stage_failure "scope_discovery_failed" empty))
                (pipeline_failure "scope_discovery_failed" "discovery" empty))
          artifact ←
              external (a.write_report (concat report "\n"))
                (calm.write_report (concat report "\n"))
          finish id StageStatus.completed (some artifact.path) none now
          pure artifact) in
        m.holds

    settle_repair-Keeps :
        (id : ℕ) (o : RepairOutput) → Keeps (IsRunning run_id) (settle_repair now id o)
    settle_repair-Keeps id (output_found payload artifact) =
        let m : Kept (IsRunning run_id) (RepairResult × StoredArtifact) = (do
          finish id StageStatus.completed (some artifact.path) none now
          pure (payload, artifact)) in
        m.holds
    settle_repair-Keeps id output_missing =
        let m : Kept (IsRunning run_id) (RepairResult × StoredArtifact) =
          stop _ id StageStatus.failed (some (stage_failure "agent_protocol_invalid" "")) (
            pipeline_failure "agent_protocol_invalid" "repair"
              "repair Agent produced no structured result") in
        m.holds
    settle_repair-Keeps id (output_invalid reason) =
        let m : Kept (IsRunning run_id) (RepairResult × StoredArtifact) =
          stop _ id StageStatus.failed (some (stage_failure "agent_protocol_invalid" reason)) (
            pipeline_failure "agent_protocol_invalid" "repair"
              (concat "repair Agent output is invalid: " reason)) in
        m.holds

    pub run_repair_stage-Keeps :
        (inputs : List (String × String))
        → Keeps (IsRunning run_id) (run_repair_stage a run_id now inputs)
    unfolding run_repair_stage cancel_requested
    run_repair_stage-Keeps inputs =
        let m : Kept (IsRunning run_id) (RepairResult × StoredArtifact) = (do
          id ← start "repair" 1
          entry ← external (a.write_entry "repair" inputs) (calm.write_entry "repair" inputs)
          result ← external (a.run_repair entry) (calm.run_repair entry)
          external (a.write_diagnostic "repair" result) (calm.write_diagnostic "repair" result)
              >>= λ _. pure tt
          agent_checked id "repair" "agent_protocol_invalid" "agent_failed" ""
              "repair Agent timed out" "repair Agent failed: " result
          asked ← read (is_cancel_requested run_id)
          when asked (stop _ id StageStatus.canceled none canceled)
          output ← external (a.read_repair_output result) (calm.read_repair_output result)
          given (settle_repair now id output) (settle_repair-Keeps id output)) in
        m.holds

    settle_stability-Keeps :
        (id : ℕ) (r : StabilityCheckResult) → Keeps (IsRunning run_id) (settle_stability now id r)
    settle_stability-Keeps id r =
        let m : Kept (IsRunning run_id) (Unit {0}) =
          branch r.ready (finish id StageStatus.completed none none now) (
            stop _ id StageStatus.failed (some (stage_failure (text_of r.code) r.summary)) (
              pipeline_failure (or_text r.code "pre_delivery_check_failed") "pre_delivery_check"
                r.summary)) in
        m.holds

    pub run_stability_check-Keeps :
        (context : RunContext) (revision : String)
        → Keeps (IsRunning run_id) (run_stability_check a run_id now context revision)
    unfolding run_stability_check
    run_stability_check-Keeps context revision = elim (Option-cases a.check_stability) [
      | inl absent ↦ rw (absent, run_stability_check) (pure-Keeps (IsRunning run_id) tt)
      | inr (check, given_check) ↦
          let m : Kept (IsRunning run_id) (Unit {0}) = (do
            attempt ←
                given (λ s. (ok (next_stage_attempt run_id "pre_delivery_check" s.tasks), s))
                  (λ s h. h)
            id ← start "pre_delivery_check" attempt
            stability ←
                external (check context revision)
                  (calm.check_stability check given_check context revision)
            given (settle_stability now id stability) (settle_stability-Keeps id stability)) in
          rw (given_check, run_stability_check) m.holds
    ]

    pub write_conclusion_safe-Keeps :
        (c : Conclusion) → Keeps (IsRunning run_id) (write_conclusion_safe a c)
    unfolding write_conclusion_safe
    write_conclusion_safe-Keeps c =
        let m : Kept (IsRunning run_id) (Unit {0}) =
          catch (external (a.write_conclusion c) (calm.write_conclusion c)) (λ e. pure tt) in
        m.holds
