-- ===== src/Tasks/Consistency.antt =====
-- Tasks and their runs agree: a task is busy exactly if its current run is active.
use code_fixer.Base.{
  String, Bool, true, false, ◌&&◌, Option, none, some, List, map, ◌==◌, text_eq, if◌then◌else◌, any,
  Distinct, ◌≡◌, refl, ap, ◌∙◌, arith, inl, inr, Bool-cases, eq_iff,
}
use code_fixer.Base.Table.{find, update}
use code_fixer.Base.Query.{find-passes, find-update, any-update, any_unique, Distinct-update}
use code_fixer.Tasks.Table.{
  TaskStatus, RunStatus, Task, TaskRun, Tasks, is_task, is_run, is_active, is_waiting, is_running,
}

pub waiting_active : (x : RunStatus) → is_waiting x ≡ true → is_active x ≡ true
waiting_active RunStatus.queued w = refl
waiting_active RunStatus.running w = refl
waiting_active RunStatus.superseded w = absurd (ground arith)
waiting_active RunStatus.completed w = absurd (ground arith)
waiting_active RunStatus.failed w = absurd (ground arith)
waiting_active RunStatus.canceled w = absurd (ground arith)

pub running_active : (x : RunStatus) → is_running x ≡ true → is_active x ≡ true
running_active RunStatus.queued w = refl
running_active RunStatus.running w = refl
running_active RunStatus.superseded w = absurd (ground arith)
running_active RunStatus.completed w = absurd (ground arith)
running_active RunStatus.failed w = absurd (ground arith)
running_active RunStatus.canceled w = absurd (ground arith)

pub active_running :
    (x : RunStatus) → is_active x ≡ true → is_waiting x ≡ false → is_running x ≡ true
active_running RunStatus.queued a w = absurd (ground arith)
active_running RunStatus.running a w = refl
active_running RunStatus.superseded a w = absurd (ground arith)
active_running RunStatus.completed a w = absurd (ground arith)
active_running RunStatus.failed a w = absurd (ground arith)
active_running RunStatus.canceled a w = absurd (ground arith)

abbrev pub names_run : Option String → String → Bool
names_run none r = false
names_run (some id) r = id == r

-- A run of the task is in one of the states.
abbrev pub has_run : (RunStatus → Bool) → String → String → List TaskRun → Bool
has_run states k r = any (λ q. (q.id == r && q.task_id == k) && states q.status)

-- The task names the run as its current one and is in one of the states.
abbrev pub has_task : (TaskStatus → Bool) → String → String → List Task → Bool
has_task states k r = any (λ t. (t.id == k && names_run t.current_run_id r) && states t.status)

abbrev pub Agree : (RunStatus → Bool) → (TaskStatus → Bool) → Tasks → Type 0
Agree of_run of_task s = (k r : String) → has_run of_run k r s.runs ≡ has_task of_task k r s.tasks

abbrev pub task_queued : TaskStatus → Bool
task_queued TaskStatus.queued = true
task_queued TaskStatus.running = false
task_queued TaskStatus.cancel_requested = false
task_queued TaskStatus.awaiting_start = false
task_queued TaskStatus.failed = false
task_queued TaskStatus.canceled = false
task_queued TaskStatus.completed = false

-- running, also with a cancel request pending
abbrev pub task_running : TaskStatus → Bool
task_running TaskStatus.running = true
task_running TaskStatus.cancel_requested = true
task_running TaskStatus.queued = false
task_running TaskStatus.awaiting_start = false
task_running TaskStatus.failed = false
task_running TaskStatus.canceled = false
task_running TaskStatus.completed = false

-- The ids are unique; the queued runs are exactly the current runs of the queued tasks, and the
-- running runs those of the tasks that run or wait for their cancellation.
pub record IsConsistent (s : Tasks) : Type 0 where
  pub tasks_distinct : Distinct (map (λ t. t.id) s.tasks)
  pub runs_distinct : Distinct (map (λ r. r.id) s.runs)
  pub queued_agree : Agree is_waiting task_queued s
  pub running_agree : Agree is_running task_running s

abbrev both : String → String → String → String → Bool
both k k' r r' = k == k' && r == r'

-- One run is rewritten.
module _ (k r : String) (runs : List TaskRun) (d : Distinct (map (λ q. q.id) runs))
    (p : TaskRun → Bool) (g : TaskRun → TaskRun) (q : TaskRun)
    (found : find (is_run r) runs ≡ some q) (of_task : q.task_id ≡ k)
    (only : (x : TaskRun) → p x ≡ true → x.id ≡ r) (hit : p q ≡ true)
    (id_kept : (x : TaskRun) → (g x).id ≡ x.id) (task_kept : (g q).task_id ≡ q.task_id) where
  same_id :
      (k' r' : String) (states : RunStatus → Bool)
      → r ≡ r'
      → (x : TaskRun) → ((x.id == r' && x.task_id == k') && states x.status) ≡ true
      → x.id ≡ r
  same_id k' r' states key x h = ground (arith, eq_iff x.id r')

  pub has_run-update :
      (states : RunStatus → Bool) (k' r' : String)
      → has_run states k' r' (update p g runs)
        ≡ (if both k k' r r' then states (g q).status else has_run states k' r' runs)
  has_run-update states k' r' = elim (Bool-cases (r == r')) [
    | inr other ↦
        any-update (λ x. (x.id == r' && x.task_id == k') && states x.status)
          (λ x. (x.id == r' && x.task_id == k') && states x.status) p g runs
          (λ x. elim (Bool-cases (p x)) [
            | inl e ↦
                ground (arith, only x e, id_kept x, eq_iff x.id r', eq_iff (g x).id r', eq_iff r r')
            | inr e ↦ ground arith
          ])
        ∙ ground (arith, other)
    | inl same ↦
        let key = (eq_iff r r').0 same in
        let test = λ (x : TaskRun). (x.id == r' && x.task_id == k') && states x.status in
        let keyed = λ (x : TaskRun) (h : test x ≡ true). same_id k' r' states key x h in
        let before = any_unique (λ (x : TaskRun). x.id) test r runs q keyed d found in
        let after =
          any_unique (λ (x : TaskRun). x.id) test r (update p g runs) (g q) keyed
            (Distinct-update (λ (x : TaskRun). x.id) p g runs id_kept d)
            (find-update (is_run r) p g runs q (λ x. ap (λ i. i == r) (id_kept x)) found
              ∙ ap some (rw hit refl)) in
        let own = find-passes (is_run r) runs q found in
        ground (
          arith,
          before,
          after,
          own,
          of_task,
          task_kept,
          id_kept q,
          key,
          eq_iff q.id r,
          eq_iff (g q).id r',
          eq_iff q.id r',
          eq_iff q.task_id k',
          eq_iff (g q).task_id k',
          eq_iff k k',
        )
  ]

-- One task is rewritten, its id and its current run kept.
module _ (k r : String) (tasks : List Task) (d : Distinct (map (λ t. t.id) tasks)) (f : Task → Task)
    (t : Task) (found : find (is_task k) tasks ≡ some t)
    (current : names_run t.current_run_id r ≡ true) (id_kept : (x : Task) → (f x).id ≡ x.id)
    (current_kept : (f t).current_run_id ≡ t.current_run_id) where
  task_id :
      (k' r' : String) (states : TaskStatus → Bool)
      → k ≡ k'
      → (x : Task) → ((x.id == k' && names_run x.current_run_id r') && states x.status) ≡ true
      → x.id ≡ k
  task_id k' r' states key x h = ground (arith, eq_iff x.id k')

  one_run : (r' : String) → names_run t.current_run_id r' ≡ (r == r')
  one_run r' = named t.current_run_id current
    where
      named : (o : Option String) → names_run o r ≡ true → names_run o r' ≡ (r == r')
      named none h = absurd (ground arith)
      named (some id) h = ap (λ i. i == r') ((eq_iff id r).0 h)

  pub has_task-update :
      (states : TaskStatus → Bool) (k' r' : String)
      → has_task states k' r' (update (is_task k) f tasks)
        ≡ (if both k k' r r' then states (f t).status else has_task states k' r' tasks)
  has_task-update states k' r' = elim (Bool-cases (k == k')) [
    | inr other ↦
        any-update (λ x. (x.id == k' && names_run x.current_run_id r') && states x.status)
          (λ x. (x.id == k' && names_run x.current_run_id r') && states x.status) (is_task k) f
          tasks
          (λ x. elim (Bool-cases (x.id == k)) [
            | inl e ↦
                ground
                  (arith, id_kept x, eq_iff x.id k, eq_iff x.id k', eq_iff (f x).id k', eq_iff k k')
            | inr e ↦ ground arith
          ])
        ∙ ground (arith, other)
    | inl same ↦
        let key = (eq_iff k k').0 same in
        let test = λ (x : Task). (x.id == k' && names_run x.current_run_id r') && states x.status in
        let keyed = λ (x : Task) (h : test x ≡ true). task_id k' r' states key x h in
        let before = any_unique (λ (x : Task). x.id) test k tasks t keyed d found in
        let own = find-passes (is_task k) tasks t found in
        let after =
          any_unique (λ (x : Task). x.id) test k (update (is_task k) f tasks) (f t) keyed
            (Distinct-update (λ (x : Task). x.id) (is_task k) f tasks id_kept d)
            (find-update (is_task k) (is_task k) f tasks t (λ x. ap (λ i. i == k) (id_kept x)) found
              ∙ ap some (rw own refl)) in
        ground (
          arith,
          before,
          after,
          own,
          one_run r',
          ap (λ o. names_run o r') current_kept,
          id_kept t,
          key,
          eq_iff t.id k,
          eq_iff t.id k',
          eq_iff (f t).id k',
        )
  ]
