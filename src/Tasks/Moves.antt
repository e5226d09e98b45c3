-- ===== src/Tasks/Moves.antt =====
-- A task and its current run are rewritten together, and stay consistent.
use code_fixer.Base.{
  String, Bool, true, ◌&&◌, some, List, [], ◌∷◌, map, ◌==◌, text_eq, any, Distinct, ◌≡◌, refl, sym,
  ◌∙◌, arith, inl, inr, Bool-cases, eq_iff, eq_self,
}
use code_fixer.Base.Table.{find, update}
use code_fixer.Base.Query.{find-passes, find-any, any_unique, any-of-find, Distinct-update}
use code_fixer.Tasks.Table.{
  TaskStatus, RunStatus, Task, TaskRun, Tasks, is_task, is_run, is_active, is_waiting, is_running,
}
use code_fixer.Tasks.Consistency.{
  active_running, names_run, has_run, has_task, IsConsistent, task_queued, task_running,
  has_run-update, has_task-update,
}

-- The run is the current run of the task.
pub record IsCurrent (s : Tasks) (k r : String) (t : Task) (q : TaskRun) : Type 0 where
  pub task_found : find (is_task k) s.tasks ≡ some t
  pub current : names_run t.current_run_id r ≡ true
  pub run_found : find (is_run r) s.runs ≡ some q
  pub of_task : q.task_id ≡ k

module _ (s : Tasks) (v : IsConsistent s) (k r : String) (t : Task) (q : TaskRun)
    (c : IsCurrent s k r t q) (p : TaskRun → Bool) (g : TaskRun → TaskRun) (f : Task → Task)
    (only : (x : TaskRun) → p x ≡ true → x.id ≡ r) (hit : p q ≡ true)
    (run_kept : (x : TaskRun) → (g x).id ≡ x.id) (of_kept : (g q).task_id ≡ q.task_id)
    (task_kept : (x : Task) → (f x).id ≡ x.id)
    (current_kept : (f t).current_run_id ≡ t.current_run_id) where
  agree :
      (of_run : RunStatus → Bool) (of_task : TaskStatus → Bool)
      → ((k' r' : String) → has_run of_run k' r' s.runs ≡ has_task of_task k' r' s.tasks)
      → of_run (g q).status ≡ of_task (f t).status
      → (k' r' : String)
      → has_run of_run k' r' (update p g s.runs)
        ≡ has_task of_task k' r' (update (is_task k) f s.tasks)
  agree of_run of_task before same k' r' =
      has_run-update k r s.runs v.runs_distinct p g q c.run_found c.of_task only hit run_kept
        of_kept of_run k' r'
      ∙ ground (arith, before k' r', same)
      ∙ sym (
          has_task-update k r s.tasks v.tasks_distinct f t c.task_found c.current task_kept
            current_kept of_task k' r')

  pub moved :
      (u : Tasks)
      → u.tasks ≡ update (is_task k) f s.tasks
      → u.runs ≡ update p g s.runs
      → is_waiting (g q).status ≡ task_queued (f t).status
      → is_running (g q).status ≡ task_running (f t).status
      → IsConsistent u
  moved u tasks runs queued running = record {
    tasks_distinct =
        rw tasks
          (Distinct-update (λ (x : Task). x.id) (is_task k) f s.tasks task_kept v.tasks_distinct);
    runs_distinct =
        rw runs (Distinct-update (λ (x : TaskRun). x.id) p g s.runs run_kept v.runs_distinct);
    queued_agree =
        λ k' r'. rw (tasks, runs) (agree is_waiting task_queued v.queued_agree queued k' r');
    running_agree =
        λ k' r'. rw (tasks, runs) (agree is_running task_running v.running_agree running k' r');
  }

-- The task behind `has_task`.
pub find-has_task :
    (states : TaskStatus → Bool) (k r : String) (ts : List Task)
    → Distinct (map (λ t. t.id) ts)
    → has_task states k r ts ≡ true
    → (t : Task) × (find (is_task k) ts ≡ some t)
      × (names_run t.current_run_id r ≡ true)
      × (states t.status ≡ true)
find-has_task states k r ts d h =
    let test = λ (t : Task). (t.id == k && names_run t.current_run_id r) && states t.status in
    let (t, found) = find-any (is_task k) ts (any-keyed ts h) in
    let passes : test t ≡ true =
      sym
        (any_unique (λ (x : Task). x.id) test k ts t (λ x e. ground (arith, eq_iff x.id k)) d found)
      ∙ h in
    (t, found, ground arith, ground arith)
  where
    any-keyed : (xs : List Task) → has_task states k r xs ≡ true → any (is_task k) xs ≡ true
    any-keyed [] h = h
    any-keyed (x ∷ xs) h = ground (arith, any-keyed xs)

-- An active run is the current run of its task.
pub is_active-IsCurrent :
    (s : Tasks) (r : String) (q : TaskRun)
    → IsConsistent s
    → find (is_run r) s.runs ≡ some q
    → is_active q.status ≡ true
    → (t : Task) × IsCurrent s q.task_id r t q
is_active-IsCurrent s r q v found active = elim (Bool-cases (is_waiting q.status)) [
  | inl waits ↦ current is_waiting task_queued v.queued_agree waits
  | inr rest ↦ current is_running task_running v.running_agree (active_running q.status active rest)
]
  where
    current :
        (of_run : RunStatus → Bool) (of_task : TaskStatus → Bool)
        → ((k' r' : String) → has_run of_run k' r' s.runs ≡ has_task of_task k' r' s.tasks)
        → of_run q.status ≡ true
        → (t : Task) × IsCurrent s q.task_id r t q
    current of_run of_task same status =
        let own : has_run of_run q.task_id r s.runs ≡ true =
          any-of-find (is_run r) (λ x. (x.id == r && x.task_id == q.task_id) && of_run x.status)
            s.runs q found
            (ground (arith, find-passes (is_run r) s.runs q found, status, eq_self q.task_id)) in
        let (t, at, named, busy) =
          find-has_task of_task q.task_id r s.tasks v.tasks_distinct
            (sym (same q.task_id r) ∙ own) in
        (t, record { task_found = at; current = named; run_found = found; of_task = refl })
