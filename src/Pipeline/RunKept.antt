-- ===== src/Pipeline/RunKept.antt =====
-- The stages of Pipeline/Run keep the run running: on a return, and on an exception.
use code_fixer.Base.{ℕ, String, not, none, some, text_eq, if◌then◌else◌}
use code_fixer.Base.Text.{concat}
use code_fixer.Tasks.Table.{StageStatus}
use code_fixer.Pipeline.Session.{Raised, canceled, WorkspaceManifest}
use code_fixer.Pipeline.Safe.{
  Kept, ◌>>=◌, ◌>>◌, pure, raise, catch, when, external, start, finish, given,
}
use code_fixer.Pipeline.Adapters.{RunContext, StoredArtifact, Adapters, CandidateChange}
use code_fixer.Pipeline.Stages.{stage_failure, pipeline_failure}
use code_fixer.Pipeline.Rules.{IsRunning, Keeps}
use code_fixer.Pipeline.Calm.{IsCalm}
use code_fixer.Base.{any}
use code_fixer.Pipeline.Session.{write}
use code_fixer.Tasks.Store.{freeze_run_inputs}
use code_fixer.Pipeline.Run.{
  Project, remember_discovery, remember_repair, reason_of, prepare, prepare_workspace, same_change,
  scrub, run_verification,
}
use code_fixer.Pipeline.Rules.{freeze_run_inputs-Keeps}
use code_fixer.Pipeline.StagesKept.{stop}

module _ (run_id : String) (now : ℕ) (a : Adapters) (calm : IsCalm run_id a) where
  abbrev guarded :
      {A : Type 0}
      → (id : ℕ) (code : String) → Kept (IsRunning run_id) A
      → (Raised → Raised)
      → Kept (IsRunning run_id) A
  guarded id code m again = catch m (λ e.
      stop run_id now _ id StageStatus.failed (some (stage_failure code (reason_of e))) (again e))

  pub prepare-Keeps :
      (project : Project) (digest : String → String) (context : RunContext)
      → Keeps (IsRunning run_id) (prepare a project digest run_id now context)
  unfolding prepare
  prepare-Keeps project digest context =
      let fingerprint = digest (concat context.snapshot.content_hash (concat ":" project.sha256)) in
      let m : Kept (IsRunning run_id) WorkspaceManifest = (do
        given (write (freeze_run_inputs run_id project.sha256 fingerprint))
            (freeze_run_inputs-Keeps run_id project.sha256 fingerprint)
        stage ← start "prepare" 1
        manifest ←
            external (a.prepare_localization project.localization_id (concat run_id ":discovery"))
              (calm.prepare_localization project.localization_id (concat run_id ":discovery"))
        given (remember_discovery manifest) (λ s h. h)
        snapshot ←
            external (a.write_snapshot context manifest) (calm.write_snapshot context manifest)
        finish stage StageStatus.completed (some snapshot.path) none now
        pure manifest) in
      m.holds

  pub prepare_workspace-Keeps :
      (project : Project) → Keeps (IsRunning run_id) (prepare_workspace a project run_id now)
  unfolding prepare_workspace
  prepare_workspace-Keeps project =
      let m : Kept (IsRunning run_id) WorkspaceManifest = (do
        stage ← start "workspace_prepare" 1
        manifest ←
            guarded stage "workspace_prepare_failed"
              (external (a.prepare_source project.modification_id (concat run_id ":repair"))
                (calm.prepare_source project.modification_id (concat run_id ":repair")))
              (λ e. e)
        given (remember_repair manifest) (λ s h. h)
        source ← external (a.write_source_manifest manifest) (calm.write_source_manifest manifest)
        finish stage StageStatus.completed (some source.path) none now
        pure manifest) in
      m.holds

  scrub-Keeps :
      (id : ℕ) (manifest : WorkspaceManifest) (candidate : CandidateChange)
      → Keeps (IsRunning run_id) (scrub a now id manifest candidate)
  unfolding scrub
  scrub-Keeps id manifest candidate =
      let collect : Kept (IsRunning run_id) CandidateChange =
        external (a.collect_change manifest) (calm.collect_change manifest) in
      let m : Kept (IsRunning run_id) (Unit {0}) = (do
        view ← collect
        when (not (same_change view candidate)) (do
          restored ←
              guarded id "verification_mutated_workspace"
                (external (a.restore_candidate manifest candidate)
                    (calm.restore_candidate manifest candidate)
                  >> collect)
                (λ e.
                  pipeline_failure "verification_mutated_workspace" "verify"
                    "Verification changed the coding workspace and the candidate could not be restored")
          when (not (same_change restored candidate)) (
              stop run_id now _ id StageStatus.failed
                (some (stage_failure "verification_mutated_workspace" ""))
                (pipeline_failure "verification_mutated_workspace" "verify"
                  "Verification side effects could not be scrubbed back to the coding candidate")))) in
      m.holds

  pub run_verification-Keeps :
      (manifest : WorkspaceManifest) (candidate : CandidateChange)
      → Keeps (IsRunning run_id) (run_verification a run_id now manifest candidate)
  unfolding run_verification
  run_verification-Keeps manifest candidate =
      let m : Kept (IsRunning run_id) StoredArtifact = (do
        external (a.write_candidate candidate) (calm.write_candidate candidate) >>= λ _. pure tt
        stage ← start "verify" 1
        payload ← external (a.verify candidate manifest) (calm.verify candidate manifest)
        given (scrub a now stage manifest candidate) (scrub-Keeps stage manifest candidate)
        artifact ← external (a.write_verification payload) (calm.write_verification payload)
        when (any (λ c. c) payload.canceled_steps)
            (stop run_id now _ stage StageStatus.canceled none canceled)
        finish stage (if payload.passed then StageStatus.completed else StageStatus.failed)
            (some artifact.path)
            (if payload.passed then none else some (stage_failure "verification_failed" "")) now
        when (not payload.passed) (
            raise (
              pipeline_failure "verification_failed" "verify" "Required verification did not pass"))
        pure artifact) in
      m.holds
