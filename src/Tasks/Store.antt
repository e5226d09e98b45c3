-- ===== src/Tasks/Store.antt =====
-- The methods of TaskStore that move tasks and runs. A run's row joined with its task is two
-- lookups; `now` is the clock, and `new_id` the value of uuid4().
use code_fixer.Base.{
  ℕ, String, Bool, not, ◌&&◌, ◌||◌, Option, none, some, [], ◌∷◌, ◌++◌, ◌==◌, text_eq, number_eq,
  if◌then◌else◌, any,
}
use code_fixer.Base.Table.{find, update}
use code_fixer.Base.Result.{Result, ok, err, transaction}
use code_fixer.Tasks.Table.{
  TaskStatus, RunStatus, Failure, Task, TaskRun, Tasks, TaskError, not_found, no_route,
  cannot_start, not_current, not_failed, cannot_cancel, cannot_claim, no_snapshot, integrity_error,
  unbound_project_id, is_active, is_waiting, run_failed, task_failed, can_start, cancel_asked,
  is_task, is_run, TicketRecord,
}

-- `_event`
abbrev pub event : String → String → Option String → Tasks → Tasks
event kind task_id run_id s = record s {
  events = s.events ++ record { event_type = kind; task_id = task_id; run_id = run_id } ∷ [];
}

abbrev pub write_task : String → (Task → Task) → Tasks → Tasks
write_task task_id f s = record s { tasks = update (is_task task_id) f s.tasks }

abbrev pub write_run : String → (TaskRun → TaskRun) → Tasks → Tasks
write_run run_id f s = record s { runs = update (is_run run_id) f s.runs }

abbrev pub active_run_of : String → TaskRun → Bool
active_run_of task_id r = r.task_id == task_id && is_active r.status

abbrev pub new_run : String → String → String → ℕ → TaskRun
new_run new_id task_id execution_mode now = record {
  id = new_id;
  task_id = task_id;
  status = RunStatus.queued;
  execution_mode = execution_mode;
  ticket_snapshot_id = none;
  project_config_hash = none;
  input_fingerprint = none;
  created_at = now;
  started_at = none;
  finished_at = none;
}

-- `_create_run`: an active run is returned as it is.
unfoldable pub create_run :
    (new_id task_id execution_mode : String) (now : ℕ) → Tasks → Result TaskError String × Tasks
create_run new_id task_id execution_mode now s = elim (find (active_run_of task_id) s.runs) [
  | some existing ↦ (ok existing.id, s)
  | none ↦ if any (is_run new_id) s.runs then (err integrity_error, s) else (
    ok new_id,
    event "run_queued" task_id (some new_id) (
        write_task task_id
          (λ t. record t {
            current_run_id = some new_id;
            status = TaskStatus.queued;
            failure = none;
          })
          (record s { runs = s.runs ++ new_run new_id task_id execution_mode now ∷ [] })),
  )
]

unfoldable pub start_task :
    (new_id task_id execution_mode : String) (now : ℕ) → Tasks → Result TaskError String × Tasks
unfolding create_run
start_task new_id task_id execution_mode now s = elim (find (is_task task_id) s.tasks) [
  | none ↦ (err not_found, s)
  | some task ↦
      if task.project_id == unbound_project_id
      then (err no_route, s)
      else if not (can_start task.status)
      then (err cannot_start, s)
      else transaction (create_run new_id task_id execution_mode now) s
]

abbrev pub is_current : Option String → String → Bool
is_current none run_id = "" == run_id
is_current (some id) run_id = id == run_id

-- The task and the run of one id pair, joined.
unfoldable pub find_joined : String → String → Tasks → Option (Task × TaskRun)
find_joined task_id run_id s = elim (find (is_task task_id) s.tasks) [
  | none ↦ none
  | some t ↦ elim (find (λ r. r.id == run_id && r.task_id == task_id) s.runs) [
    | none ↦ none
    | some r ↦ some (t, r)
  ]
]

unfoldable pub retry_frozen_delivery :
    (task_id run_id : String) → Tasks → Result TaskError String × Tasks
unfolding find_joined
retry_frozen_delivery task_id run_id s = elim (find_joined task_id run_id s) [
  | none ↦ (err not_found, s)
  | some (t, r) ↦
      if not (is_current t.current_run_id run_id)
      then (err not_current, s)
      else if not (task_failed t.status) || not (run_failed r.status)
      then (err not_failed, s)
      else if any (active_run_of r.task_id) s.runs
      then (err integrity_error, s)
      else (
        ok task_id,
        event "delivery_retry_queued" task_id (some run_id) (
            write_task task_id
              (λ u. record u { status = TaskStatus.queued; result = none; failure = none })
              (write_run run_id (λ q. record q { status = RunStatus.queued; finished_at = none })
                s)),
      )
]

abbrev pub cancel_current : Option String → ℕ → Tasks → Tasks
cancel_current none now s = s
cancel_current (some run_id) now s =
    if run_id == ""
    then s
    else write_run run_id (λ r. record r { status = RunStatus.canceled; finished_at = some now }) s

abbrev pub cancel_from :
    TaskStatus → String → Option String → ℕ → Tasks → Result TaskError String × Tasks
cancel_from TaskStatus.awaiting_start task_id current now s = (
  ok task_id,
  event "task_canceled" task_id none (
      cancel_current current now
        (write_task task_id (λ t. record t { status = TaskStatus.canceled }) s)),
)
cancel_from TaskStatus.queued task_id current now s = (
  ok task_id,
  event "task_canceled" task_id none (
      cancel_current current now
        (write_task task_id (λ t. record t { status = TaskStatus.canceled }) s)),
)
cancel_from TaskStatus.running task_id current now s = (
  ok task_id,
  event "cancel_requested" task_id none
      (write_task task_id (λ t. record t { status = TaskStatus.cancel_requested }) s),
)
cancel_from TaskStatus.cancel_requested task_id current now s = (err cannot_cancel, s)
cancel_from TaskStatus.completed task_id current now s = (err cannot_cancel, s)
cancel_from TaskStatus.failed task_id current now s = (err cannot_cancel, s)
cancel_from TaskStatus.canceled task_id current now s = (err cannot_cancel, s)

unfoldable pub cancel_task : (task_id : String) (now : ℕ) → Tasks → Result TaskError String × Tasks
cancel_task task_id now s = elim (find (is_task task_id) s.tasks) [
  | none ↦ (err not_found, s)
  | some row ↦ cancel_from row.status task_id row.current_run_id now s
]

unfoldable pub is_cancel_requested : String → Tasks → Result TaskError Bool
is_cancel_requested run_id s = elim (find (is_run run_id) s.runs) [
  | none ↦ err not_found
  | some r ↦ elim (find (is_task r.task_id) s.tasks) [
    | none ↦ err not_found
    | some t ↦ ok (cancel_asked t.status)
  ]
]

abbrev pub coalesce {ℓ} : {A : Type ℓ} → Option A → A → Option A
coalesce none a = some a
coalesce (some b) a = some b

unfoldable pub cancel_run :
    (run_id : String) (now : ℕ) → Tasks → Result TaskError (Unit {0}) × Tasks
cancel_run run_id now s = elim (find (is_run run_id) s.runs) [
  | none ↦ (err not_found, s)
  | some row ↦ (
    ok tt,
    event "run_canceled" row.task_id (some run_id) (
        write_task row.task_id
          (λ t. record t { status = TaskStatus.canceled; result = none; failure = none })
          (write_run run_id
            (λ r. record r {
              status = RunStatus.canceled;
              finished_at = coalesce r.finished_at now;
            })
            s)),
  )
]

unfoldable pub complete_run :
    (run_id result : String) (now : ℕ) → Tasks → Result TaskError (Unit {0}) × Tasks
complete_run run_id result now s = elim (find (is_run run_id) s.runs) [
  | none ↦ (err not_found, s)
  | some row ↦ (
    ok tt,
    event "run_completed" row.task_id (some run_id) (
        write_task row.task_id
          (λ t. record t { status = TaskStatus.completed; result = some result; failure = none })
          (write_run run_id (λ r. record r { status = RunStatus.completed; finished_at = some now })
            s)),
  )
]

unfoldable pub fail_run :
    (run_id : String) (failure : Failure) (now : ℕ) → Tasks → Result TaskError (Unit {0}) × Tasks
fail_run run_id failure now s = elim (find (is_run run_id) s.runs) [
  | none ↦ (err not_found, s)
  | some row ↦ (
    ok tt,
    event "run_failed" row.task_id (some run_id) (
        write_task row.task_id
          (λ t. record t { status = TaskStatus.failed; result = none; failure = some failure })
          (write_run run_id (λ r. record r { status = RunStatus.failed; finished_at = some now })
            s)),
  )
]

-- `row["ticket_snapshot_id"] or row["current_snapshot_id"]`; row ids start at 1.
abbrev pub frozen_snapshot : Option ℕ → Option ℕ → Option ℕ
frozen_snapshot (some id) current = some id
frozen_snapshot none current = current

-- The task and the ticket of a run, joined.
unfoldable pub find_context : TaskRun → Tasks → Option (Task × TicketRecord)
find_context r s = elim (find (is_task r.task_id) s.tasks) [
  | none ↦ none
  | some t ↦ elim (find (λ k. k.id == t.ticket_record_id) s.tickets) [
    | none ↦ none
    | some k ↦ some (t, k)
  ]
]

abbrev pub mark_running : ℕ → ℕ → TaskRun → TaskRun
mark_running snapshot_id now r = record r {
  status = RunStatus.running;
  ticket_snapshot_id = some snapshot_id;
  started_at = coalesce r.started_at now;
}

unfoldable pub claim_run : (run_id : String) (now : ℕ) → Tasks → Result TaskError TaskRun × Tasks
unfolding find_context
claim_run run_id now s = elim (find (is_run run_id) s.runs) [
  | none ↦ (err not_found, s)
  | some r ↦ elim (find_context r s) [
    | none ↦ (err not_found, s)
    | some (t, k) ↦
        if not (is_waiting r.status)
        then (err cannot_claim, s)
        else elim (frozen_snapshot r.ticket_snapshot_id k.current_snapshot_id) [
          | none ↦ (err no_snapshot, s)
          | some snapshot_id ↦ (
            ok (mark_running snapshot_id now r),
            event "run_started" t.id (some run_id) (
                write_task t.id (λ u. record u { status = TaskStatus.running })
                  (record s {
                    runs =
                        update (λ q. q.id == run_id && is_waiting q.status)
                          (mark_running snapshot_id now) s.runs;
                  })),
          )
        ]
  ]
]

unfoldable pub freeze_run_inputs :
    (run_id project_config_hash input_fingerprint : String) → Tasks → Tasks
freeze_run_inputs run_id project_config_hash input_fingerprint s =
    write_run run_id
      (λ r. record r {
        project_config_hash = some project_config_hash;
        input_fingerprint = some input_fingerprint;
      })
      s
