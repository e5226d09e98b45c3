-- ===== src/Tasks/Restated.antt =====
-- A task is rewritten, and whether it is queued or running stays as it was.
use code_fixer.Base.{
  String, Bool, ◌&&◌, some, ◌==◌, text_eq, number_eq, ◌≡◌, refl, sym, ap, subst, ◌∙◌, arith, inl,
  inr, Bool-cases, eq_iff,
}
use code_fixer.Base.Table.{find, update}
use code_fixer.Base.Query.{find-passes, find-update, any-update, any_unique, Distinct-update}
use code_fixer.Tasks.Table.{TaskStatus, Task, Tasks, is_task}
use code_fixer.Tasks.Consistency.{names_run, has_task, IsConsistent, task_queued, task_running}

module _ (s : Tasks) (v : IsConsistent s) (k : String) (t : Task)
    (found : find (is_task k) s.tasks ≡ some t) (f : Task → Task)
    (id_kept : (x : Task) → (f x).id ≡ x.id)
    (current_kept : (x : Task) → (f x).current_run_id ≡ x.current_run_id) where
  has_task-same :
      (states : TaskStatus → Bool)
      → ((r : String)
          → (names_run t.current_run_id r && states (f t).status)
            ≡ (names_run t.current_run_id r && states t.status))
      → (k' r : String)
      → has_task states k' r (update (is_task k) f s.tasks) ≡ has_task states k' r s.tasks
  has_task-same states same k' r = elim (Bool-cases (k == k')) [
    | inr other ↦
        any-update (λ x. (x.id == k' && names_run x.current_run_id r) && states x.status)
          (λ x. (x.id == k' && names_run x.current_run_id r) && states x.status) (is_task k) f
          s.tasks
          (λ x. elim (Bool-cases (x.id == k)) [
            | inl e ↦
                ground
                  (arith, id_kept x, eq_iff x.id k, eq_iff x.id k', eq_iff (f x).id k', eq_iff k k')
            | inr e ↦ ground (arith, e)
          ])
    | inl e ↦
        let key = (eq_iff k k').0 e in
        let own = find-passes (is_task k) s.tasks t found in
        let test = λ (x : Task). (x.id == k && names_run x.current_run_id r) && states x.status in
        subst
          (λ i. has_task states i r (update (is_task k) f s.tasks) ≡ has_task states i r s.tasks)
          key
          (any_unique (λ (x : Task). x.id) test k (update (is_task k) f s.tasks) (f t)
              (λ x h. ground (arith, eq_iff x.id k))
              (Distinct-update (λ (x : Task). x.id) (is_task k) f s.tasks id_kept v.tasks_distinct)
              (find-update (is_task k) (is_task k) f s.tasks t (λ x. ap (λ i. i == k) (id_kept x))
                  found
                ∙ ap some (rw own refl))
            ∙ ground (
              arith,
              own,
              same r,
              id_kept t,
              ap (λ o. names_run o r) (current_kept t),
              eq_iff t.id k,
              eq_iff (f t).id k,
            )
            ∙ sym (
                any_unique (λ (x : Task). x.id) test k s.tasks t
                  (λ x h. ground (arith, eq_iff x.id k)) v.tasks_distinct found))
  ]

  pub restated :
      (u : Tasks)
      → u.tasks ≡ update (is_task k) f s.tasks
      → u.runs ≡ s.runs
      → ((r : String)
          → (names_run t.current_run_id r && task_queued (f t).status)
            ≡ (names_run t.current_run_id r && task_queued t.status))
      → ((r : String)
          → (names_run t.current_run_id r && task_running (f t).status)
            ≡ (names_run t.current_run_id r && task_running t.status))
      → IsConsistent u
  restated u tasks runs queued running = record {
    tasks_distinct =
        rw tasks
          (Distinct-update (λ (x : Task). x.id) (is_task k) f s.tasks id_kept v.tasks_distinct);
    runs_distinct = rw runs v.runs_distinct;
    queued_agree = λ k' r.
        rw (tasks, runs) (v.queued_agree k' r ∙ sym (has_task-same task_queued queued k' r));
    running_agree = λ k' r.
        rw (tasks, runs) (v.running_agree k' r ∙ sym (has_task-same task_running running k' r));
  }
