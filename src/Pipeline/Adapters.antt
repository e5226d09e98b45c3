-- ===== src/Pipeline/Adapters.antt =====
-- What the pipeline calls: agents, sources, the verification runner, the delivery and the files.
use code_fixer.Base.{
  String, Bool, false, not, ◌&&◌, ◌||◌, Option, none, some, List, [], ◌∷◌, ◌==◌, text_eq,
  if◌then◌else◌,
}
use code_fixer.Base.Text.{strip, prefix, last_line, concat}
use code_fixer.Tasks.Table.{TaskRun, Task, TicketRecord, Snapshot}
use code_fixer.Delivery.Coordinator.{DeliveryExecutionSummary, FrozenDeliveryContext}
use code_fixer.Delivery.Stability.{StabilityCheckResult}
use code_fixer.Pipeline.Session.{WorkspaceManifest, External}

-- The row of `get_run_context`.
pub record RunContext : Type 0 where
  pub run : TaskRun
  pub task : Task
  pub ticket : TicketRecord
  pub snapshot : Snapshot

-- An event of an agent, with the text of the fields that are read: `error.message` and `message`.
pub record AgentEvent : Type 0 where
  pub event_type : String
  pub error_message : Option String
  pub message : Option String

-- The fields that the pipeline reads; the exit code is its text.
pub record AgentRunResult : Type 0 where
  pub status : String
  pub exit_code : String
  pub final_text : Option String
  pub stderr : String
  pub events : List AgentEvent

-- The fields that the pipeline reads.
pub record SimilarLocalizationReport : Type 0 where
  pub external_ticket_id : String
  pub title : String
  pub path : String
  pub matched_feature : Option String

-- The keys of the repair result that the pipeline reads.
pub record RepairResult : Type 0 where
  pub outcome : Option String
  pub blocking_code : Option String
  pub summary : Option String

pub record CandidateChange : Type 0 where
  pub patch_text : String
  pub patch_sha256 : String
  pub changed_paths : List String
  pub operations : List (String × String)
  pub unauthorized_paths : List String

-- `passed`, and the key `canceled` of each step.
pub record VerificationPayload : Type 0 where
  pub passed : Bool
  pub canceled_steps : List Bool

pub record StoredArtifact : Type 0 where
  pub path : String
  pub sha256 : String

-- What the stored output of the repair agent is read as: a file, a structured output, or nothing.
pub data RepairOutput : Type 0 where
  output_found : RepairResult → StoredArtifact → RepairOutput
  output_missing : RepairOutput
  output_invalid : String → RepairOutput

pub record DeliveryMetadata : Type 0 where
  pub path : String
  pub change_summary : String
  pub commit_subject : String
  pub patch_filename : String
  pub ticket_key : String

pub record Conclusion : Type 0 where
  pub outcome : String
  pub headline : String
  pub cause : String
  pub resolution : String

-- The adapters, each with the files it writes and indexes.
pub record Adapters : Type 0 where
  pub prepare_localization : (source_id run_id : String) → External WorkspaceManifest
  pub write_snapshot : RunContext → WorkspaceManifest → External StoredArtifact
  pub find_similar : RunContext → WorkspaceManifest → External (Option SimilarLocalizationReport)
  pub write_entry : (stage : String) → List (String × String) → External StoredArtifact
  pub run_discovery : StoredArtifact → External AgentRunResult
  pub run_repair : StoredArtifact → External AgentRunResult
  pub write_diagnostic : (stage : String) → AgentRunResult → External StoredArtifact
  pub write_report : String → External StoredArtifact
  pub prepare_source : (source_id run_id : String) → External WorkspaceManifest
  pub write_source_manifest : WorkspaceManifest → External StoredArtifact
  pub read_repair_output : AgentRunResult → External RepairOutput
  pub collect_change : WorkspaceManifest → External CandidateChange
  pub write_candidate : CandidateChange → External StoredArtifact
  pub verify : CandidateChange → WorkspaceManifest → External VerificationPayload
  pub restore_candidate : WorkspaceManifest → CandidateChange → External (Unit {0})
  pub write_verification : VerificationPayload → External StoredArtifact
  pub check_stability : Option (RunContext → String → External StabilityCheckResult)
  pub write_metadata : RunContext → RepairResult → External DeliveryMetadata
  pub freeze_change :
      WorkspaceManifest
      → CandidateChange
      → StoredArtifact
      → StoredArtifact
      → External (StoredArtifact × StoredArtifact)
  pub deliver : FrozenDeliveryContext → External DeliveryExecutionSummary
  pub write_conclusion : Conclusion → External (Unit {0})
  pub clean_localization : WorkspaceManifest → External (Unit {0})
  pub clean_source : WorkspaceManifest → External (Unit {0})

abbrev pub is_failure_event : AgentEvent → Bool
is_failure_event e = e.event_type == "error" || e.event_type == "turn.failed"

-- A text that is there and not empty.
abbrev pub present : Option String → Bool
present none = false
present (some a) = not (a == "")

abbrev pub text_of : Option String → String
text_of none = ""
text_of (some a) = a

-- The loop of `_agent_failure_reason` from the first event on: a later event is preferred.
abbrev pub event_reason : List AgentEvent → Option String
event_reason [] = none
event_reason (e ∷ events) =
    let later = event_reason events in
    if present later
    then later
    else if is_failure_event e && present e.error_message
    then some (prefix 1200 (text_of e.error_message))
    else if is_failure_event e && present e.message
    then some (prefix 1200 (text_of e.message))
    else none

-- `_agent_failure_reason`; the exit code is its text.
unfoldable pub agent_failure_reason : AgentRunResult → String
agent_failure_reason result = elim (event_reason result.events) [
  | some reason ↦ reason
  | none ↦
      let stderr = strip result.stderr in
      if not (stderr == "")
      then prefix 1200 (last_line stderr)
      else concat "process exited with code " result.exit_code
]
