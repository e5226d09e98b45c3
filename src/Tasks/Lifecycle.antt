-- ===== src/Tasks/Lifecycle.antt =====
-- The steps of a run's life keep tasks and runs consistent.
use code_fixer.Base.{
  ℕ, String, true, not, ◌&&◌, ◌||◌, Option, none, some, ◌==◌, text_eq, any, ◌≡◌, ◌≢◌, number_eq,
  refl, sym, subst, arith, inl, inr, Bool-cases, Option-cases, eq_iff,
}
use code_fixer.Base.Table.{find}
use code_fixer.Base.Query.{find-passes}
use code_fixer.Base.Keys.{find-key}
use code_fixer.Tasks.Table.{
  TaskStatus, RunStatus, Task, TaskRun, TicketRecord, Failure, Tasks, is_task, is_run, is_active,
  is_waiting, run_failed, task_failed,
}
use code_fixer.Tasks.Store.{
  mark_running, frozen_snapshot, find_context, find_joined, active_run_of, is_current,
  retry_frozen_delivery, cancel_run, complete_run, fail_run, claim_run, coalesce,
}
use code_fixer.Tasks.Consistency.{waiting_active, names_run, IsConsistent}
use code_fixer.Tasks.Moves.{moved, is_active-IsCurrent}

module _ (run_id : String) (now : ℕ) (s : Tasks) (v : IsConsistent s) (q : TaskRun)
    (found : find (is_run run_id) s.runs ≡ some q) (active : is_active q.status ≡ true) where
  pub complete_run-IsConsistent :
      (result : String) → IsConsistent (complete_run run_id result now s).1
  unfolding complete_run
  complete_run-IsConsistent result =
      rw (found, complete_run)
        (let (t, c) = is_active-IsCurrent s run_id q v found active in
          moved s v q.task_id run_id t q c (is_run run_id)
            (λ r. record r { status = RunStatus.completed; finished_at = some now })
            (λ u. record u { status = TaskStatus.completed; result = some result; failure = none })
            (λ x h. (eq_iff x.id run_id).0 h) (find-passes (is_run run_id) s.runs q found)
            (λ x. refl) refl (λ x. refl) refl _ refl refl refl refl)

  pub fail_run-IsConsistent : (failure : Failure) → IsConsistent (fail_run run_id failure now s).1
  unfolding fail_run
  fail_run-IsConsistent failure =
      rw (found, fail_run)
        (let (t, c) = is_active-IsCurrent s run_id q v found active in
          moved s v q.task_id run_id t q c (is_run run_id)
            (λ r. record r { status = RunStatus.failed; finished_at = some now })
            (λ u. record u { status = TaskStatus.failed; result = none; failure = some failure })
            (λ x h. (eq_iff x.id run_id).0 h) (find-passes (is_run run_id) s.runs q found)
            (λ x. refl) refl (λ x. refl) refl _ refl refl refl refl)

  pub cancel_run-IsConsistent : IsConsistent (cancel_run run_id now s).1
  unfolding cancel_run
  cancel_run-IsConsistent =
      rw (found, cancel_run)
        (let (t, c) = is_active-IsCurrent s run_id q v found active in
          moved s v q.task_id run_id t q c (is_run run_id)
            (λ r. record r {
              status = RunStatus.canceled;
              finished_at = coalesce r.finished_at now;
            })
            (λ u. record u { status = TaskStatus.canceled; result = none; failure = none })
            (λ x h. (eq_iff x.id run_id).0 h) (find-passes (is_run run_id) s.runs q found)
            (λ x. refl) refl (λ x. refl) refl _ refl refl refl refl)

find_context-task :
    (q : TaskRun) (s : Tasks) (t : Task) (k : TicketRecord)
    → find_context q s ≡ some (t, k)
    → find (is_task q.task_id) s.tasks ≡ some t
unfolding find_context
find_context-task q s t k h = elim (Option-cases (find (is_task q.task_id) s.tasks)) [
  | inl absent ↦ absurd (ground arith)
  | inr (t', found) ↦
      elim (Option-cases (find (λ (x : TicketRecord). x.id == t'.ticket_record_id) s.tickets)) [
        | inl absent ↦ absurd (ground arith)
        | inr (k', ticket) ↦ ground arith
      ]
]

pub claim_run-IsConsistent :
    (run_id : String) (now : ℕ) (s : Tasks)
    → IsConsistent s
    → IsConsistent (claim_run run_id now s).1
unfolding claim_run
claim_run-IsConsistent run_id now s v = elim (Option-cases (find (is_run run_id) s.runs)) [
  | inl absent ↦ rw (absent, claim_run) v
  | inr (q, found) ↦ elim (Option-cases (find_context q s)) [
    | inl absent ↦ rw (found, absent, claim_run) v
    | inr ((t, k), joined) ↦ elim (Bool-cases (is_waiting q.status)) [
      | inr stopped ↦ rw (found, joined, stopped, claim_run) v
      | inl waits ↦
          elim (Option-cases (frozen_snapshot q.ticket_snapshot_id k.current_snapshot_id)) [
            | inl absent ↦ rw (found, joined, waits, absent, claim_run) v
            | inr (n, frozen) ↦
                rw (found, joined, waits, frozen, claim_run)
                  (let (t', c) =
                      is_active-IsCurrent s run_id q v found (waiting_active q.status waits) in
                    let own = (eq_iff t.id q.task_id).0 (
                      find-passes (is_task q.task_id) s.tasks t
                        (find_context-task q s t k joined)) in
                    moved s v q.task_id run_id t' q c (λ r. r.id == run_id && is_waiting r.status)
                      (mark_running n now) (λ u. record u { status = TaskStatus.running })
                      (λ x h. ground (arith, eq_iff x.id run_id))
                      (ground (arith, waits, find-passes (is_run run_id) s.runs q found))
                      (λ x. refl) refl (λ x. refl) refl _ (rw own refl) refl refl refl)
          ]
    ]
  ]
]

find_joined-task :
    (task_id run_id : String) (s : Tasks) (t : Task) (q : TaskRun)
    → find_joined task_id run_id s ≡ some (t, q)
    → (find (is_task task_id) s.tasks ≡ some t)
      × (find (λ r. r.id == run_id && r.task_id == task_id) s.runs ≡ some q)
unfolding find_joined
find_joined-task task_id run_id s t q h = elim (Option-cases (find (is_task task_id) s.tasks)) [
  | inl absent ↦ absurd (ground arith)
  | inr (t', found) ↦
      elim (Option-cases (find (λ (r : TaskRun). r.id == run_id && r.task_id == task_id) s.runs)) [
        | inl absent ↦ absurd (ground arith)
        | inr (q', row) ↦ (ground arith, ground arith)
      ]
]

pub retry-IsConsistent :
    (task_id run_id : String) (s : Tasks)
    → run_id ≢ ""
    → IsConsistent s
    → IsConsistent (retry_frozen_delivery task_id run_id s).1
unfolding retry_frozen_delivery
retry-IsConsistent task_id run_id s named v = elim (Option-cases (find_joined task_id run_id s)) [
  | inl absent ↦ rw (absent, retry_frozen_delivery) v
  | inr ((t, q), joined) ↦ elim (Bool-cases (is_current t.current_run_id run_id)) [
    | inr other ↦ rw (joined, other, retry_frozen_delivery) v
    | inl current ↦ elim (Bool-cases (not (task_failed t.status) || not (run_failed q.status))) [
      | inl fine ↦ rw (joined, current, fine, retry_frozen_delivery) v
      | inr failed ↦ elim (Bool-cases (any (active_run_of q.task_id) s.runs)) [
        | inl busy ↦ rw (joined, current, failed, busy, retry_frozen_delivery) v
        | inr free ↦
            rw (joined, current, failed, free, retry_frozen_delivery)
              (let (task, row) = find_joined-task task_id run_id s t q joined in
                let keys = find-passes (λ r. r.id == run_id && r.task_id == task_id) s.runs q row in
                let found : find (is_run run_id) s.runs ≡ some q =
                  subst (λ i. find (is_run i) s.runs ≡ some q)
                    ((eq_iff q.id run_id).0 (ground arith))
                    (find-key (λ (x : TaskRun). x.id) (λ r. r.id == run_id && r.task_id == task_id)
                      s.runs q v.runs_distinct row) in
                moved s v task_id run_id t q
                  (record {
                    task_found = task;
                    current = names t.current_run_id current;
                    run_found = found;
                    of_task = ground (arith, keys, eq_iff q.task_id task_id);
                  })
                  (is_run run_id) (λ r. record r { status = RunStatus.queued; finished_at = none })
                  (λ u. record u { status = TaskStatus.queued; result = none; failure = none })
                  (λ x h. (eq_iff x.id run_id).0 h) (find-passes (is_run run_id) s.runs q found)
                  (λ x. refl) refl (λ x. refl) refl _ refl refl refl refl)
      ]
    ]
  ]
]
  where
    names : (o : Option String) → is_current o run_id ≡ true → names_run o run_id ≡ true
    names none h = absurd (named (sym ((eq_iff "" run_id).0 h)))
    names (some id) h = h
