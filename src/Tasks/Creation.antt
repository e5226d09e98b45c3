-- ===== src/Tasks/Creation.antt =====
-- A new run is queued for a task, and tasks and runs stay consistent.
use code_fixer.Base.{
  ℕ, String, Bool, true, false, ◌&&◌, ◌||◌, none, some, List, [], ◌∷◌, ◌++◌, ◌==◌, text_eq,
  number_eq, any, any-append, ◌≡◌, refl, ap, subst, ◌∙◌, arith, inl, inr, Bool-cases, Option-cases,
  eq_iff, eq_self,
}
use code_fixer.Base.Table.{find, update}
use code_fixer.Base.Result.{Result, ok, err, settle}
use code_fixer.Base.Query.{
  find-passes, find-update, any-update, any_unique, Distinct-update, Distinct-map-snoc, any-find,
}
use code_fixer.Tasks.Table.{
  TaskStatus, RunStatus, Task, TaskRun, Tasks, is_task, is_run, is_active, is_waiting, is_running,
  unbound_project_id, can_start,
}
use code_fixer.Tasks.Store.{active_run_of, create_run, new_run, start_task}
use code_fixer.Tasks.Consistency.{
  waiting_active, running_active, names_run, has_run, has_task, IsConsistent, task_queued,
  task_running,
}

abbrev pub queue_task : String → Task → Task
queue_task new_id t = record t {
  current_run_id = some new_id;
  status = TaskStatus.queued;
  failure = none;
}

-- A task without an active run has no run in a state that is active.
idle :
    (states : RunStatus → Bool) (k r : String) (runs : List TaskRun)
    → ((x : RunStatus) → states x ≡ true → is_active x ≡ true)
    → any (active_run_of k) runs ≡ false
    → has_run states k r runs ≡ false
idle states k r [] only h = refl
idle states k r (q ∷ runs) only h = elim (Bool-cases (states q.status)) [
  | inl e ↦ ground (arith, e, only q.status e, idle states k r runs only (ground arith))
  | inr e ↦ ground (arith, e, idle states k r runs only (ground arith))
]

module _ (s : Tasks) (v : IsConsistent s) (k new_id mode : String) (now : ℕ) (t : Task)
    (found : find (is_task k) s.tasks ≡ some t) (fresh : any (is_run new_id) s.runs ≡ false)
    (quiet : any (active_run_of k) s.runs ≡ false) where
  own_task :
      (states : TaskStatus → Bool) (r : String)
      → has_task states k r (update (is_task k) (queue_task new_id) s.tasks)
        ≡ (new_id == r && states TaskStatus.queued)
  own_task states r =
      let own = find-passes (is_task k) s.tasks t found in
      any_unique (λ (x : Task). x.id)
        (λ x. (x.id == k && names_run x.current_run_id r) && states x.status) k
        (update (is_task k) (queue_task new_id) s.tasks) (queue_task new_id t)
        (λ x h. ground (arith, eq_iff x.id k))
        (Distinct-update (λ (x : Task). x.id) (is_task k) (queue_task new_id) s.tasks (λ x. refl)
          v.tasks_distinct)
        (find-update (is_task k) (is_task k) (queue_task new_id) s.tasks t (λ x. refl) found
          ∙ ap some (rw own refl))
      ∙ ground (arith, own)

  other_task :
      (states : TaskStatus → Bool) (k' r : String)
      → (k == k') ≡ false
      → has_task states k' r (update (is_task k) (queue_task new_id) s.tasks)
        ≡ has_task states k' r s.tasks
  other_task states k' r other =
      any-update (λ x. (x.id == k' && names_run x.current_run_id r) && states x.status)
        (λ x. (x.id == k' && names_run x.current_run_id r) && states x.status) (is_task k)
        (queue_task new_id) s.tasks
        (λ x. elim (Bool-cases (x.id == k)) [
          | inl e ↦ ground (arith, eq_iff x.id k, eq_iff x.id k', eq_iff k k')
          | inr e ↦ ground (arith, e)
        ])

  agree :
      (of_run : RunStatus → Bool) (of_task : TaskStatus → Bool)
      → ((x : RunStatus) → of_run x ≡ true → is_active x ≡ true)
      → of_run RunStatus.queued ≡ of_task TaskStatus.queued
      → ((k' r : String) → has_run of_run k' r s.runs ≡ has_task of_task k' r s.tasks)
      → (k' r : String)
      → has_run of_run k' r (s.runs ++ new_run new_id k mode now ∷ [])
        ≡ has_task of_task k' r (update (is_task k) (queue_task new_id) s.tasks)
  agree of_run of_task only same before k' r =
      any-append (λ (x : TaskRun). (x.id == r && x.task_id == k') && of_run x.status) s.runs
        (new_run new_id k mode now ∷ [])
      ∙ elim (Bool-cases (k == k')) [
        | inl e ↦
            let key = (eq_iff k k').0 e in
            subst
              (λ i.
                (has_run of_run i r s.runs
                  || ((new_id == r && k == i) && of_run RunStatus.queued || false))
                ≡ has_task of_task i r (update (is_task k) (queue_task new_id) s.tasks))
              key
              (ground
                (arith, eq_self k, same, idle of_run k r s.runs only quiet, own_task of_task r))
        | inr e ↦ ground (arith, e, before k' r, other_task of_task k' r e)
      ]

  pub queued-IsConsistent :
      (u : Tasks)
      → u.tasks ≡ update (is_task k) (queue_task new_id) s.tasks
      → u.runs ≡ s.runs ++ new_run new_id k mode now ∷ []
      → IsConsistent u
  queued-IsConsistent u tasks runs = record {
    tasks_distinct = rw tasks (
        Distinct-update (λ (x : Task). x.id) (is_task k) (queue_task new_id) s.tasks (λ x. refl)
          v.tasks_distinct);
    runs_distinct =
        rw runs (Distinct-map-snoc (λ (x : TaskRun). x.id) s.runs _ v.runs_distinct fresh);
    queued_agree = λ k' r.
        rw (tasks, runs) (agree is_waiting task_queued waiting_active refl v.queued_agree k' r);
    running_agree = λ k' r.
        rw (tasks, runs) (agree is_running task_running running_active refl v.running_agree k' r);
  }

pub create_run-IsConsistent :
    (new_id task_id mode : String) (now : ℕ) (s : Tasks) (t : Task)
    → find (is_task task_id) s.tasks ≡ some t
    → IsConsistent s
    → IsConsistent (create_run new_id task_id mode now s).1
unfolding create_run
create_run-IsConsistent new_id task_id mode now s t found v =
    elim (Option-cases (find (active_run_of task_id) s.runs)) [
      | inr (q, there) ↦ rw (there, create_run) v
      | inl quiet ↦ elim (Bool-cases (any (is_run new_id) s.runs)) [
        | inl taken ↦ rw (quiet, taken, create_run) v
        | inr fresh ↦
            rw (quiet, fresh, create_run)
              (queued-IsConsistent s v task_id new_id mode now t found fresh
                (any-find (active_run_of task_id) s.runs quiet) _ (refl) refl)
      ]
    ]

pub settle-IsConsistent :
    {E A : Type 0} (s : Tasks) (r : Result E A × Tasks)
    → IsConsistent s
    → IsConsistent r.1
    → IsConsistent (settle s r).1
settle-IsConsistent s (ok a, s') v w = w
settle-IsConsistent s (err e, s') v w = v

pub start_task-IsConsistent :
    (new_id task_id mode : String) (now : ℕ) (s : Tasks)
    → IsConsistent s
    → IsConsistent (start_task new_id task_id mode now s).1
unfolding start_task
start_task-IsConsistent new_id task_id mode now s v =
    elim (Option-cases (find (is_task task_id) s.tasks)) [
      | inl absent ↦ rw (absent, start_task) v
      | inr (t, found) ↦ elim (Bool-cases (t.project_id == unbound_project_id)) [
        | inl unbound ↦ rw (found, unbound, start_task) v
        | inr bound ↦ elim (Bool-cases (can_start t.status)) [
          | inr busy ↦ rw (found, bound, busy, start_task) v
          | inl free ↦
              rw (found, bound, free, start_task)
                (settle-IsConsistent s _ v
                  (create_run-IsConsistent new_id task_id mode now s t found v))
        ]
      ]
    ]
