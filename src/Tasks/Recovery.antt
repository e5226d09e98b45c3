-- ===== src/Tasks/Recovery.antt =====
-- backend/src/codefixer/orchestration/recovery.py: what a restart does to the runs that were
-- running. `has_manifest` tells whether the file freeze-change/change-manifest.json of a run exists.
use code_fixer.Base.{
  ℕ, ◌+◌, String, Bool, true, false, ◌&&◌, none, some, List, [], ◌∷◌, ◌==◌, text_eq, if◌then◌else◌,
  any, ◌≡◌, refl, eq_iff,
}
use code_fixer.Base.Table.{find, update, select}
use code_fixer.Base.Query.{find-passes}
use code_fixer.Tasks.Table.{
  TaskStatus, RunStatus, StageStatus, Failure, TaskRun, Tasks, is_running, is_active, is_task,
  is_run,
}
use code_fixer.Tasks.Store.{event, write_task, write_run}
use code_fixer.Tasks.Consistency.{IsConsistent}
use code_fixer.Tasks.Moves.{moved, is_active-IsCurrent}

abbrev pub stage_running : StageStatus → Bool
stage_running StageStatus.running = true
stage_running StageStatus.completed = false
stage_running StageStatus.failed = false
stage_running StageStatus.canceled = false

abbrev pub interruption : Failure
interruption = record {
  code = "service_interrupted";
  stage = "recovery";
  summary = "Service stopped while this stage was running";
  retryable = false;
}

abbrev pub interrupted_before_freeze : Failure
interrupted_before_freeze = record {
  code = "service_interrupted_before_freeze";
  stage = "recovery";
  summary =
      "Service stopped before an immutable change was frozen; start a new TaskRun to retry safely";
  retryable = true;
}

abbrev pub fail_stages : String → ℕ → Tasks → Tasks
fail_stages run_id now s = record s {
  stages =
      update (λ x. x.task_run_id == run_id && stage_running x.status)
        (λ x. record x {
          status = StageStatus.failed;
          failure = some interruption;
          finished_at = some now;
        })
        s.stages;
}

-- The loop body: a run whose change is frozen is queued again, any other one fails.
unfoldable pub recover_run : (frozen : Bool) (run_id task_id : String) (now : ℕ) → Tasks → Tasks
recover_run frozen run_id task_id now s =
    if frozen
    then event "delivery_recovery_queued" task_id (some run_id) (
        write_task task_id (λ t. record t { status = TaskStatus.queued; failure = none })
          (write_run run_id (λ r. record r { status = RunStatus.queued })
            (fail_stages run_id now s)))
    else event "run_interrupted" task_id (some run_id) (
        write_task task_id
          (λ t. record t {
            status = TaskStatus.failed;
            result = none;
            failure = some interrupted_before_freeze;
          })
          (write_run run_id (λ r. record r { status = RunStatus.failed; finished_at = some now })
            (fail_stages run_id now s)))

unfoldable pub recover_rows :
    (has_manifest : String → String → Bool) (now : ℕ) → List TaskRun → Tasks → (ℕ × ℕ) × Tasks
recover_rows has_manifest now [] s = ((0, 0), s)
recover_rows has_manifest now (row ∷ rows) s =
    let frozen = has_manifest row.task_id row.id in
    let ((resumed, failed), s') =
      recover_rows has_manifest now rows (recover_run frozen row.id row.task_id now s) in
    (if frozen then (resumed + 1, failed) else (resumed, failed + 1), s')

unfoldable pub recover_interrupted_runs :
    (has_manifest : String → String → Bool) (now : ℕ) → Tasks → (ℕ × ℕ) × Tasks
unfolding recover_rows
recover_interrupted_runs has_manifest now s =
    recover_rows has_manifest now
      (select (λ r. is_running r.status && any (is_task r.task_id) s.tasks) s.runs) s

pub recover_run-IsConsistent :
    (frozen : Bool) (run_id : String) (now : ℕ) (s : Tasks) (q : TaskRun)
    → IsConsistent s
    → find (is_run run_id) s.runs ≡ some q
    → is_active q.status ≡ true
    → IsConsistent (recover_run frozen run_id q.task_id now s)
unfolding recover_run
recover_run-IsConsistent true run_id now s q v found active =
    let (t, c) = is_active-IsCurrent s run_id q v found active in
    moved s v q.task_id run_id t q c (is_run run_id) (λ r. record r { status = RunStatus.queued })
      (λ u. record u { status = TaskStatus.queued; failure = none })
      (λ x h. (eq_iff x.id run_id).0 h) (find-passes (is_run run_id) s.runs q found) (λ x. refl)
      refl (λ x. refl) refl _ refl refl refl refl
recover_run-IsConsistent false run_id now s q v found active =
    let (t, c) = is_active-IsCurrent s run_id q v found active in
    moved s v q.task_id run_id t q c (is_run run_id)
      (λ r. record r { status = RunStatus.failed; finished_at = some now })
      (λ u. record u {
        status = TaskStatus.failed;
        result = none;
        failure = some interrupted_before_freeze;
      })
      (λ x h. (eq_iff x.id run_id).0 h) (find-passes (is_run run_id) s.runs q found) (λ x. refl)
      refl (λ x. refl) refl _ refl refl refl refl
