-- ===== src/Tasks/Busy.antt =====
-- A task with an active run is busy.
use code_fixer.Base.{
  String, Bool, true, false, ◌&&◌, none, some, ◌==◌, text_eq, number_eq, ◌≡◌, refl, sym, ◌∙◌, arith,
  inl, inr, Bool-cases, Option-cases, eq_self,
}
use code_fixer.Base.Table.{find}
use code_fixer.Base.Query.{find-passes, any-of-find}
use code_fixer.Tasks.Table.{
  TaskStatus, RunStatus, Task, TaskRun, Tasks, is_task, is_busy, is_waiting, is_running,
}
use code_fixer.Tasks.Store.{active_run_of}
use code_fixer.Tasks.Consistency.{
  active_running, names_run, has_run, has_task, IsConsistent, task_queued, task_running,
}
use code_fixer.Tasks.Moves.{find-has_task}

queued_busy : (x : TaskStatus) → task_queued x ≡ true → is_busy x ≡ true
queued_busy TaskStatus.queued h = refl
queued_busy TaskStatus.running h = refl
queued_busy TaskStatus.cancel_requested h = refl
queued_busy TaskStatus.awaiting_start h = absurd (ground arith)
queued_busy TaskStatus.failed h = absurd (ground arith)
queued_busy TaskStatus.canceled h = absurd (ground arith)
queued_busy TaskStatus.completed h = absurd (ground arith)

running_busy : (x : TaskStatus) → task_running x ≡ true → is_busy x ≡ true
running_busy TaskStatus.queued h = refl
running_busy TaskStatus.running h = refl
running_busy TaskStatus.cancel_requested h = refl
running_busy TaskStatus.awaiting_start h = absurd (ground arith)
running_busy TaskStatus.failed h = absurd (ground arith)
running_busy TaskStatus.canceled h = absurd (ground arith)
running_busy TaskStatus.completed h = absurd (ground arith)

-- The task of an active run names that run.
pub active_named :
    (s : Tasks) (k : String) (p : TaskRun → Bool) (q : TaskRun)
    → IsConsistent s
    → find p s.runs ≡ some q
    → active_run_of k q ≡ true
    → (t : Task) × (find (is_task k) s.tasks ≡ some t)
      × (names_run t.current_run_id q.id ≡ true)
      × (is_busy t.status ≡ true)
active_named s k p q v found active = elim (Bool-cases (is_waiting q.status)) [
  | inl waits ↦ named is_waiting task_queued v.queued_agree queued_busy waits
  | inr rest ↦
      named is_running task_running v.running_agree running_busy
        (active_running q.status (ground arith) rest)
]
  where
    named :
        (of_run : RunStatus → Bool) (of_task : TaskStatus → Bool)
        → ((k' r' : String) → has_run of_run k' r' s.runs ≡ has_task of_task k' r' s.tasks)
        → ((x : TaskStatus) → of_task x ≡ true → is_busy x ≡ true)
        → of_run q.status ≡ true
        → (t : Task) × (find (is_task k) s.tasks ≡ some t)
          × (names_run t.current_run_id q.id ≡ true)
          × (is_busy t.status ≡ true)
    named of_run of_task same only status =
        let own : has_run of_run k q.id s.runs ≡ true =
          any-of-find p (λ x. (x.id == q.id && x.task_id == k) && of_run x.status) s.runs q found
            (ground (arith, status, active, eq_self q.id)) in
        let (t, at, current, busy) =
          find-has_task of_task k q.id s.tasks v.tasks_distinct (sym (same k q.id) ∙ own) in
        (t, at, current, only t.status busy)

-- A task at rest has no active run.
pub rest_is_idle :
    (s : Tasks) (k : String) (t : Task)
    → IsConsistent s
    → find (is_task k) s.tasks ≡ some t
    → is_busy t.status ≡ false
    → find (active_run_of k) s.runs ≡ none
rest_is_idle s k t v found rest = elim (Option-cases (find (active_run_of k) s.runs)) [
  | inl absent ↦ absent
  | inr (q, there) ↦
      let (t', at, current, busy) =
        active_named s k (active_run_of k) q v there
          (find-passes (active_run_of k) s.runs q there) in
      let same : some t' ≡ some t = sym at ∙ found in absurd (ground (arith, same))
]
