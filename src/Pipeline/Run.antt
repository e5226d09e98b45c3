-- ===== src/Pipeline/Run.antt =====
-- `ChangedPipeline.run`: from the claim of a run to its conclusion. The prompts' notes are left out.
use code_fixer.Base.{
  ℕ, String, Bool, true, false, not, ◌&&◌, Option, none, some, List, [], ◌∷◌, ◌++◌, ◌==◌, text_eq,
  number_eq, if◌then◌else◌, any,
}
use code_fixer.Base.Text.{concat}
use code_fixer.Base.Table.{find}
use code_fixer.Base.Result.{Result, ok, err}
use code_fixer.Tasks.Table.{StageStatus, TaskRun, Tasks, TaskError, not_found}
use code_fixer.Tasks.Store.{claim_run, find_context, freeze_run_inputs}
use code_fixer.Tasks.Stages.{start_stage, finish_stage}
use code_fixer.Delivery.Coordinator.{FinalActionResult}
use code_fixer.Pipeline.Session.{
  Raised, failure, canceled, protocol_error, value_error, other_error, WorkspaceManifest, Pipe,
  pure, raise, ◌>>=◌, ◌>>◌, catch, external, call, write, when,
}
use code_fixer.Pipeline.Adapters.{
  RunContext, SimilarLocalizationReport, StoredArtifact, CandidateChange, Adapters,
}
use code_fixer.Pipeline.Stages.{stage_failure, pipeline_failure, stop_stage, close_stage}

pub record PipelineResult : Type 0 where
  pub task_id : String
  pub run_id : String
  pub status : String
  pub result : Option String
  pub deliveries : List FinalActionResult

-- What the frozen project configuration is read for.
pub record Project : Type 0 where
  pub localization_id : String
  pub modification_id : String
  pub sha256 : String

-- The join of `get_run_context`, of a run that was claimed.
unfoldable pub get_run_context : TaskRun → Tasks → Option RunContext
unfolding find_context
get_run_context run t = elim (find_context run t) [
  | none ↦ none
  | some (task, ticket) ↦ elim run.ticket_snapshot_id [
    | none ↦ none
    | some id ↦ elim (find (λ x. x.id == id) t.snapshots) [
      | none ↦ none
      | some snapshot ↦
          some (record { run = run; task = task; ticket = ticket; snapshot = snapshot })
    ]
  ]
]

abbrev pub found_context : Tasks → Option RunContext → Result TaskError RunContext × Tasks
found_context t none = (err not_found, t)
found_context t (some context) = (ok context, t)

-- `claim_run` of TaskStore with the context it returns.
unfoldable pub claim : (run_id : String) (now : ℕ) → Pipe RunContext
unfolding claim_run get_run_context
claim run_id now = do
  run ← call (claim_run run_id now)
  call (λ t. found_context t (get_run_context run t))

abbrev pub remember_discovery : WorkspaceManifest → Pipe (Unit {0})
remember_discovery m s = (ok tt, record s { discovery_manifest = some m })

abbrev pub remember_repair : WorkspaceManifest → Pipe (Unit {0})
remember_repair m s = (ok tt, record s { repair_manifest = some m })

abbrev pub reason_of : Raised → String
reason_of (failure f) = f.summary
reason_of canceled = ""
reason_of (protocol_error reason) = reason
reason_of (value_error reason) = reason
reason_of (other_error reason) = reason

-- A stage that is finished as failed before the exception goes on.
abbrev pub guard_stage :
    {A : Type 0} → (now id : ℕ) (code : String) → Pipe A → (Raised → Raised) → Pipe A
guard_stage now id code m again =
    catch m (λ e.
      stop_stage now id StageStatus.failed (some (stage_failure code (reason_of e))) (again e))

-- The stage prepare, with the snapshot of the inputs.
unfoldable pub prepare :
    Adapters
    → Project
    → (digest : String → String) → (run_id : String) (now : ℕ) → RunContext
    → Pipe WorkspaceManifest
prepare a project digest run_id now context = do
  write (
      freeze_run_inputs run_id project.sha256
        (digest (concat context.snapshot.content_hash (concat ":" project.sha256))))
  stage ← call (start_stage run_id "prepare" 1)
  manifest ← external (a.prepare_localization project.localization_id (concat run_id ":discovery"))
  remember_discovery manifest
  snapshot ← external (a.write_snapshot context manifest)
  close_stage now stage (some snapshot.path)
  pure manifest

abbrev pub historical_input : Option SimilarLocalizationReport → List (String × String)
historical_input none = []
historical_input (some similar) = ("Similar historical localization report", similar.path) ∷ []

abbrev pub discovery_inputs : Option SimilarLocalizationReport → List (String × String)
discovery_inputs similar =
    (("Complete ticket context", "ticket")
      ∷ ("Project policy", "project")
      ∷ ("Localization source manifest", "source")
      ∷ [])
    ++ historical_input similar

-- The stage workspace_prepare.
unfoldable pub prepare_workspace :
    Adapters → Project → (run_id : String) (now : ℕ) → Pipe WorkspaceManifest
prepare_workspace a project run_id now = do
  stage ← call (start_stage run_id "workspace_prepare" 1)
  manifest ←
      guard_stage now stage "workspace_prepare_failed"
        (external (a.prepare_source project.modification_id (concat run_id ":repair"))) (λ e. e)
  remember_repair manifest
  source ← external (a.write_source_manifest manifest)
  close_stage now stage (some source.path)
  pure manifest

abbrev pub same_paths : List String → List String → Bool
same_paths [] [] = true
same_paths [] (y ∷ ys) = false
same_paths (x ∷ xs) [] = false
same_paths (x ∷ xs) (y ∷ ys) = x == y && same_paths xs ys

abbrev pub same_operations : List (String × String) → List (String × String) → Bool
same_operations [] [] = true
same_operations [] (y ∷ ys) = false
same_operations (x ∷ xs) [] = false
same_operations (x ∷ xs) (y ∷ ys) = (x.0 == y.0 && x.1 == y.1) && same_operations xs ys

-- Not `verification_mutated`.
abbrev pub same_change : CandidateChange → CandidateChange → Bool
same_change c d =
    (c.patch_sha256 == d.patch_sha256 && same_paths c.changed_paths d.changed_paths)
    && same_operations c.operations d.operations

-- The workspace is brought back to the candidate if the verification changed it.
unfoldable pub scrub :
    Adapters → (now id : ℕ) → WorkspaceManifest → CandidateChange → Pipe (Unit {0})
scrub a now id manifest candidate = do
  view ← external (a.collect_change manifest)
  when (not (same_change view candidate)) (do
    restored ←
        guard_stage now id "verification_mutated_workspace"
          (external (a.restore_candidate manifest candidate)
            >> external (a.collect_change manifest))
          (λ e.
            pipeline_failure "verification_mutated_workspace" "verify"
              "Verification changed the coding workspace and the candidate could not be restored")
    when (not (same_change restored candidate)) (
        stop_stage now id StageStatus.failed
          (some (stage_failure "verification_mutated_workspace" ""))
          (pipeline_failure "verification_mutated_workspace" "verify"
            "Verification side effects could not be scrubbed back to the coding candidate")))

-- The stage verify.
unfoldable pub run_verification :
    Adapters
    → (run_id : String) (now : ℕ) → WorkspaceManifest
    → CandidateChange
    → Pipe StoredArtifact
unfolding scrub
run_verification a run_id now manifest candidate = do
  external (a.write_candidate candidate) >>= λ _. pure tt
  stage ← call (start_stage run_id "verify" 1)
  payload ← external (a.verify candidate manifest)
  scrub a now stage manifest candidate
  artifact ← external (a.write_verification payload)
  when (any (λ c. c) payload.canceled_steps)
      (stop_stage now stage StageStatus.canceled none canceled)
  write (
      finish_stage stage (if payload.passed then StageStatus.completed else StageStatus.failed)
        (some artifact.path)
        (if payload.passed then none else some (stage_failure "verification_failed" "")) now)
  when (not payload.passed)
      (raise (pipeline_failure "verification_failed" "verify" "Required verification did not pass"))
  pure artifact
