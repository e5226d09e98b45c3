-- ===== src/Tasks/Steps.antt =====
-- Every history of calls of TaskStore, and the agreement of tasks and runs after it.
use code_fixer.Base.{
  ℕ, String, Bool, true, ◌&&◌, none, some, ◌==◌, text_eq, ◌≡◌, ◌≢◌, number_eq, refl, ◌∙◌, arith,
}
use code_fixer.Base.Table.{find}
use code_fixer.Base.Query.{any-update, Distinct-update}
use code_fixer.Tasks.Table.{
  RunStatus, Task, TaskRun, Failure, Tasks, is_task, is_run, is_active, is_waiting, is_running,
}
use code_fixer.Tasks.Store.{
  start_task, retry_frozen_delivery, cancel_task, cancel_run, complete_run, fail_run, claim_run,
  freeze_run_inputs,
}
use code_fixer.Tasks.Consistency.{IsConsistent}
use code_fixer.Tasks.Moves.{IsCurrent}
use code_fixer.Tasks.Creation.{start_task-IsConsistent}
use code_fixer.Tasks.Cancel.{cancel_task-IsConsistent, cancel_without_run-IsConsistent}
use code_fixer.Tasks.Ingest.{IngestedTicket, Ingestion, ingest}
use code_fixer.Tasks.Intake.{ingest-IsConsistent}
use code_fixer.Tasks.Recovery.{recover_run, recover_run-IsConsistent}
use code_fixer.Tasks.Lifecycle.{
  complete_run-IsConsistent, fail_run-IsConsistent, cancel_run-IsConsistent, claim_run-IsConsistent,
  retry-IsConsistent,
}

-- One call of TaskStore, or the recovery of one run. A run is finished only while it is active; ids
-- of runs are never empty; a task that is canceled has no current run, or one of its own.
pub data Step (s : Tasks) : Tasks → Type 0 where
  starts :
      (new_id task_id execution_mode : String) (now : ℕ)
      → Step s (start_task new_id task_id execution_mode now s).1
  claims : (run_id : String) (now : ℕ) → Step s (claim_run run_id now s).1
  retries :
      (task_id run_id : String) → run_id ≢ "" → Step s (retry_frozen_delivery task_id run_id s).1
  completes :
      (run_id result : String) (now : ℕ) (q : TaskRun)
      → find (is_run run_id) s.runs ≡ some q
      → is_active q.status ≡ true
      → Step s (complete_run run_id result now s).1
  fails :
      (run_id : String) (failure : Failure) (now : ℕ) (q : TaskRun)
      → find (is_run run_id) s.runs ≡ some q
      → is_active q.status ≡ true
      → Step s (fail_run run_id failure now s).1
  cancels_run :
      (run_id : String) (now : ℕ) (q : TaskRun)
      → find (is_run run_id) s.runs ≡ some q
      → is_active q.status ≡ true
      → Step s (cancel_run run_id now s).1
  cancels :
      (task_id run_id : String) (now : ℕ) (t : Task) (q : TaskRun)
      → run_id ≢ ""
      → IsCurrent s task_id run_id t q
      → Step s (cancel_task task_id now s).1
  drops :
      (task_id : String) (now : ℕ) (t : Task)
      → find (is_task task_id) s.tasks ≡ some t
      → t.current_run_id ≡ none
      → Step s (cancel_task task_id now s).1
  freezes :
      (run_id project_config_hash input_fingerprint : String)
      → Step s (freeze_run_inputs run_id project_config_hash input_fingerprint s)
  ingests :
      (identify : String → String → String) (digest : String → String) (ticket : IngestedTicket)
      (i : Ingestion)
      → Step s (ingest identify digest ticket i s).1
  recovers :
      (frozen : Bool) (run_id : String) (now : ℕ) (q : TaskRun)
      → find (is_run run_id) s.runs ≡ some q
      → is_active q.status ≡ true
      → Step s (recover_run frozen run_id q.task_id now s)

pub data Steps (s : Tasks) : Tasks → Type 0 where
  stay : Steps s s
  step : {t u : Tasks} → Steps s t → Step t u → Steps s u

pub freeze-IsConsistent :
    (run_id project_config_hash input_fingerprint : String) (s : Tasks)
    → IsConsistent s
    → IsConsistent (freeze_run_inputs run_id project_config_hash input_fingerprint s)
unfolding freeze_run_inputs
freeze-IsConsistent run_id hash fingerprint s v =
    let f : TaskRun → TaskRun =
      λ r. record r { project_config_hash = some hash; input_fingerprint = some fingerprint } in
    let same = λ (states : RunStatus → Bool) (k r : String).
      any-update (λ x. (x.id == r && x.task_id == k) && states x.status)
        (λ x. (x.id == r && x.task_id == k) && states x.status) (is_run run_id) f s.runs
        (λ x. ground arith) in
    record {
      tasks_distinct = v.tasks_distinct;
      runs_distinct =
          Distinct-update (λ (x : TaskRun). x.id) (is_run run_id) f s.runs (λ x. refl)
            v.runs_distinct;
      queued_agree = λ k r. same is_waiting k r ∙ v.queued_agree k r;
      running_agree = λ k r. same is_running k r ∙ v.running_agree k r;
    }

Step-IsConsistent : {s t : Tasks} → Step s t → IsConsistent s → IsConsistent t
Step-IsConsistent {s} (starts new_id task_id mode now) v =
    start_task-IsConsistent new_id task_id mode now s v
Step-IsConsistent {s} (claims run_id now) v = claim_run-IsConsistent run_id now s v
Step-IsConsistent {s} (retries task_id run_id named) v = retry-IsConsistent task_id run_id s named v
Step-IsConsistent {s} (completes run_id result now q found active) v =
    complete_run-IsConsistent run_id now s v q found active result
Step-IsConsistent {s} (fails run_id failure now q found active) v =
    fail_run-IsConsistent run_id now s v q found active failure
Step-IsConsistent {s} (cancels_run run_id now q found active) v =
    cancel_run-IsConsistent run_id now s v q found active
Step-IsConsistent {s} (cancels task_id run_id now t q named c) v =
    cancel_task-IsConsistent task_id run_id now s t q v named c
Step-IsConsistent {s} (drops task_id now t found fresh) v =
    cancel_without_run-IsConsistent task_id now s t v found fresh
Step-IsConsistent {s} (freezes run_id hash fingerprint) v =
    freeze-IsConsistent run_id hash fingerprint s v
Step-IsConsistent {s} (ingests identify digest ticket i) v =
    ingest-IsConsistent identify digest ticket i s v
Step-IsConsistent {s} (recovers frozen run_id now q found active) v =
    recover_run-IsConsistent frozen run_id now s q v found active

-- From consistent tables every history of steps, each under the conditions of its constructor of
-- Step, leads to consistent tables: the queued runs are exactly the current runs of queued tasks,
-- and the running runs exactly the current runs of the tasks that run or wait for cancellation.
pub Steps-IsConsistent : (s t : Tasks) → Steps s t → IsConsistent s → IsConsistent t
Steps-IsConsistent s _ stay v = v
Steps-IsConsistent s u (step {t} history call) v =
    Step-IsConsistent call (Steps-IsConsistent s t history v)
