-- ===== src/Pipeline/Calm.antt =====
-- What is assumed of the adapters: none of them touches the state of the run, which the pipeline keeps.
use code_fixer.Base.{String, some, List, text_eq, ◌≡◌}
use code_fixer.Tasks.Table.{Tasks}
use code_fixer.Delivery.Stability.{StabilityCheckResult}
use code_fixer.Pipeline.Session.{WorkspaceManifest, External}
use code_fixer.Pipeline.Adapters.{
  RunContext, AgentRunResult, RepairResult, StoredArtifact, Conclusion, Adapters, CandidateChange,
  VerificationPayload,
}
use code_fixer.Pipeline.Rules.{IsRunning, IsQuiet}
use code_fixer.Delivery.Coordinator.{FrozenDeliveryContext}
use code_fixer.Pipeline.Ends.{IsSettled}

-- A clean-up leaves the run in its state, whatever that is.
abbrev pub IsHarmless : (run_id : String) → {A : Type 0} → External A → Type 0
IsHarmless run_id m =
    (status : String) (t : Tasks) → IsSettled run_id status t → IsSettled run_id status (m t).1

-- No adapter ends the run or takes it back while it works.
pub record IsCalm (run_id : String) (a : Adapters) : Type 0 where
  pub prepare_localization :
      (id k : String) → IsQuiet (IsRunning run_id) (a.prepare_localization id k)
  pub write_snapshot :
      (c : RunContext) (m : WorkspaceManifest) → IsQuiet (IsRunning run_id) (a.write_snapshot c m)
  pub find_similar :
      (c : RunContext) (m : WorkspaceManifest) → IsQuiet (IsRunning run_id) (a.find_similar c m)
  pub write_entry :
      (stage : String) (inputs : List (String × String))
      → IsQuiet (IsRunning run_id) (a.write_entry stage inputs)
  pub run_discovery : (entry : StoredArtifact) → IsQuiet (IsRunning run_id) (a.run_discovery entry)
  pub run_repair : (entry : StoredArtifact) → IsQuiet (IsRunning run_id) (a.run_repair entry)
  pub write_diagnostic :
      (stage : String) (r : AgentRunResult)
      → IsQuiet (IsRunning run_id) (a.write_diagnostic stage r)
  pub write_report : (report : String) → IsQuiet (IsRunning run_id) (a.write_report report)
  pub prepare_source : (id k : String) → IsQuiet (IsRunning run_id) (a.prepare_source id k)
  pub write_source_manifest :
      (m : WorkspaceManifest) → IsQuiet (IsRunning run_id) (a.write_source_manifest m)
  pub read_repair_output :
      (r : AgentRunResult) → IsQuiet (IsRunning run_id) (a.read_repair_output r)
  pub collect_change : (m : WorkspaceManifest) → IsQuiet (IsRunning run_id) (a.collect_change m)
  pub write_candidate : (c : CandidateChange) → IsQuiet (IsRunning run_id) (a.write_candidate c)
  pub verify :
      (c : CandidateChange) (m : WorkspaceManifest) → IsQuiet (IsRunning run_id) (a.verify c m)
  pub restore_candidate :
      (m : WorkspaceManifest) (c : CandidateChange)
      → IsQuiet (IsRunning run_id) (a.restore_candidate m c)
  pub write_verification :
      (p : VerificationPayload) → IsQuiet (IsRunning run_id) (a.write_verification p)
  pub check_stability :
      (check : RunContext → String → External StabilityCheckResult)
      → a.check_stability ≡ some check
      → (c : RunContext) (revision : String) → IsQuiet (IsRunning run_id) (check c revision)
  pub write_metadata :
      (c : RunContext) (r : RepairResult) → IsQuiet (IsRunning run_id) (a.write_metadata c r)
  pub freeze_change :
      (m : WorkspaceManifest) (c : CandidateChange) (v r : StoredArtifact)
      → IsQuiet (IsRunning run_id) (a.freeze_change m c v r)
  pub deliver : (f : FrozenDeliveryContext) → IsQuiet (IsRunning run_id) (a.deliver f)
  pub write_conclusion : (c : Conclusion) → IsQuiet (IsRunning run_id) (a.write_conclusion c)
  pub clean_localization : (m : WorkspaceManifest) → IsHarmless run_id (a.clean_localization m)
  pub clean_source : (m : WorkspaceManifest) → IsHarmless run_id (a.clean_source m)
