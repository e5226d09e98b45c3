-- ===== src/Tasks/Cancel.antt =====
-- `cancel_task` keeps tasks and runs consistent.
use code_fixer.Base.{
  ℕ, String, true, false, Option, none, some, ◌==◌, text_eq, number_eq, ◌≡◌, ◌≢◌, refl, ap, arith,
  eq_iff,
}
use code_fixer.Base.Table.{find, update}
use code_fixer.Base.Query.{find-passes}
use code_fixer.Tasks.Table.{TaskStatus, RunStatus, Task, TaskRun, Tasks, is_task, is_run}
use code_fixer.Tasks.Store.{cancel_from, cancel_task}
use code_fixer.Tasks.Consistency.{names_run, IsConsistent}
use code_fixer.Tasks.Moves.{IsCurrent, moved}
use code_fixer.Tasks.Restated.{restated}

abbrev to_status : TaskStatus → Task → Task
to_status status t = record t { status = status }

-- A task that never had a run.
pub cancel_without_run-IsConsistent :
    (task_id : String) (now : ℕ) (s : Tasks) (t : Task)
    → IsConsistent s
    → find (is_task task_id) s.tasks ≡ some t
    → t.current_run_id ≡ none
    → IsConsistent (cancel_task task_id now s).1
unfolding cancel_task
cancel_without_run-IsConsistent task_id now s t v found fresh =
    rw (found, fresh, cancel_task) (by_status t.status refl)
  where
    by_status : (x : TaskStatus) → t.status ≡ x → IsConsistent (cancel_from x task_id none now s).1
    by_status TaskStatus.awaiting_start e =
        restated s v task_id t found (to_status TaskStatus.canceled) (λ x. refl) (λ x. refl) _ refl
          refl (λ r. rw fresh refl) (λ r. rw fresh refl)
    by_status TaskStatus.queued e =
        restated s v task_id t found (to_status TaskStatus.canceled) (λ x. refl) (λ x. refl) _ refl
          refl (λ r. rw fresh refl) (λ r. rw fresh refl)
    by_status TaskStatus.running e =
        restated s v task_id t found (to_status TaskStatus.cancel_requested) (λ x. refl) (λ x. refl)
          _ refl refl (λ r. rw fresh refl) (λ r. rw fresh refl)
    by_status TaskStatus.cancel_requested e = v
    by_status TaskStatus.completed e = v
    by_status TaskStatus.failed e = v
    by_status TaskStatus.canceled e = v

-- A task whose current run is a run of it.
pub cancel_task-IsConsistent :
    (task_id run_id : String) (now : ℕ) (s : Tasks) (t : Task) (q : TaskRun)
    → IsConsistent s
    → run_id ≢ ""
    → IsCurrent s task_id run_id t q
    → IsConsistent (cancel_task task_id now s).1
unfolding cancel_task
cancel_task-IsConsistent task_id run_id now s t q v named c =
    rw (c.task_found, current_some t.current_run_id c.current, cancel_task)
      (by_status t.status refl)
  where
    current_some : (o : Option String) → names_run o run_id ≡ true → o ≡ some run_id
    current_some none h = absurd (ground arith)
    current_some (some id) h = ap some ((eq_iff id run_id).0 h)

    nonempty : (run_id == "") ≡ false
    nonempty = ground (arith, named, eq_iff run_id "")

    stop :
        (u : Tasks)
        → u.tasks ≡ update (is_task task_id) (to_status TaskStatus.canceled) s.tasks
        → u.runs
          ≡ update
              (is_run run_id)
              (λ r. record r { status = RunStatus.canceled; finished_at = some now })
              s.runs
        → IsConsistent u
    stop u tasks runs =
        moved s v task_id run_id t q c (is_run run_id)
          (λ r. record r { status = RunStatus.canceled; finished_at = some now })
          (to_status TaskStatus.canceled) (λ x h. (eq_iff x.id run_id).0 h)
          (find-passes (is_run run_id) s.runs q c.run_found) (λ x. refl) refl (λ x. refl) refl u
          tasks runs refl refl

    by_status :
        (x : TaskStatus) → t.status ≡ x → IsConsistent (cancel_from x task_id (some run_id) now s).1
    by_status TaskStatus.awaiting_start e = rw nonempty (stop _ refl refl)
    by_status TaskStatus.queued e = rw nonempty (stop _ refl refl)
    by_status TaskStatus.running e =
        restated s v task_id t c.task_found (to_status TaskStatus.cancel_requested) (λ x. refl)
          (λ x. refl) _ refl refl (λ r. rw e refl) (λ r. rw e refl)
    by_status TaskStatus.cancel_requested e = v
    by_status TaskStatus.completed e = v
    by_status TaskStatus.failed e = v
    by_status TaskStatus.canceled e = v
