-- ===== src/Tasks/Restarted.antt =====
-- After the recovery no run is left running.
use code_fixer.Base.{
  ℕ, ◌+◌, String, Bool, true, false, not, ◌&&◌, some, List, [], ◌∷◌, ◌==◌, text_eq, any, map, All,
  elem, length, ◌≡◌, refl, ◌∙◌, arith, eq_iff, eq_self,
}
use code_fixer.Base.Table.{select, count}
use code_fixer.Base.Query.{any-update, any-select, elem-map}
use code_fixer.Tasks.Table.{TaskRun, Task, Tasks, is_running, is_task, is_run, RunStatus}
use code_fixer.Tasks.Recovery.{recover_run, recover_rows, recover_interrupted_runs}

-- The running runs are among the listed ones.
abbrev left_out : List String → List TaskRun → Bool
left_out ids = any (λ q. is_running q.status && not (elem q.id ids))

abbrev to_recover : List Task → TaskRun → Bool
to_recover tasks r = is_running r.status && any (is_task r.task_id) tasks

left_out-recover_run :
    (frozen : Bool) (row : TaskRun) (ids : List String) (now : ℕ) (s : Tasks)
    → left_out ids (recover_run frozen row.id row.task_id now s).runs
      ≡ left_out (row.id ∷ ids) s.runs
unfolding recover_run
left_out-recover_run true row ids now s =
    any-update (λ q. is_running q.status && not (elem q.id ids))
      (λ q. is_running q.status && not (elem q.id (row.id ∷ ids))) (is_run row.id)
      (λ r. record r { status = RunStatus.queued }) s.runs
      (λ q. ground (arith, eq_iff q.id row.id, eq_iff row.id q.id))
left_out-recover_run false row ids now s =
    any-update (λ q. is_running q.status && not (elem q.id ids))
      (λ q. is_running q.status && not (elem q.id (row.id ∷ ids))) (is_run row.id)
      (λ r. record r { status = RunStatus.failed; finished_at = some now }) s.runs
      (λ q. ground (arith, eq_iff q.id row.id, eq_iff row.id q.id))

recover_rows_lem :
    (has_manifest : String → String → Bool) (now : ℕ) (rows : List TaskRun) (s : Tasks)
    → left_out (map (λ r. r.id) rows) s.runs ≡ false
    → (left_out [] (recover_rows has_manifest now rows s).1.runs ≡ false)
      × ((recover_rows has_manifest now rows s).0.0 + (recover_rows has_manifest now rows s).0.1
          ≡ length rows)
unfolding recover_rows
recover_rows_lem has_manifest now [] s h = (h, refl)
recover_rows_lem has_manifest now (row ∷ rows) s h =
    let frozen = has_manifest row.task_id row.id in
    let rest =
      recover_rows_lem has_manifest now rows (recover_run frozen row.id row.task_id now s)
        (left_out-recover_run frozen row (map (λ r. r.id) rows) now s ∙ h) in
    (rest.0, ground (arith, rest.1))

covered :
    (tasks : List Task) (ids : List String) (xs : List TaskRun)
    → All (λ r. any (is_task r.task_id) tasks ≡ true) xs
    → ((r : String) → any (λ q. q.id == r && to_recover tasks q) xs ≡ true → elem r ids ≡ true)
    → left_out ids xs ≡ false
covered tasks ids [] owned h = refl
covered tasks ids (x ∷ xs) owned h =
    ground (
      arith,
      h x.id,
      eq_self x.id,
      owned.0,
      covered tasks ids xs owned.1 (λ r k. h r (ground arith)),
    )

length-select :
    (tasks : List Task) (xs : List TaskRun)
    → All (λ r. any (is_task r.task_id) tasks ≡ true) xs
    → length (select (to_recover tasks) xs) ≡ count (λ r. is_running r.status) xs
length-select tasks [] owned = refl
length-select tasks (x ∷ xs) owned = ground (arith, owned.0, length-select tasks xs owned.1)

-- If every run belongs to a task, then after the recovery no run is running, and the two counts it
-- returns add up to the number of runs that were running.
pub recover_none_running :
    (has_manifest : String → String → Bool) (now : ℕ) (s : Tasks)
    → All (λ r. any (is_task r.task_id) s.tasks ≡ true) s.runs
    → (any (λ r. is_running r.status) (recover_interrupted_runs has_manifest now s).1.runs ≡ false)
      × ((recover_interrupted_runs has_manifest now s).0.0
            + (recover_interrupted_runs has_manifest now s).0.1
          ≡ count (λ r. is_running r.status) s.runs)
unfolding recover_interrupted_runs
recover_none_running has_manifest now s owned =
    let rows = select (to_recover s.tasks) s.runs in
    let listed = covered s.tasks (map (λ (r : TaskRun). r.id) rows) s.runs owned (λ r h.
      elem-map (λ (q : TaskRun). q.id) r rows
      ∙ any-select (λ q. q.id == r) (to_recover s.tasks) s.runs
      ∙ h) in
    let done = recover_rows_lem has_manifest now rows s listed in
    (
      no_exception (recover_interrupted_runs has_manifest now s).1.runs ∙ done.0,
      done.1 ∙ length-select s.tasks s.runs owned,
    )
  where
    no_exception : (xs : List TaskRun) → any (λ r. is_running r.status) xs ≡ left_out [] xs
    no_exception [] = refl
    no_exception (x ∷ xs) = ground (arith, no_exception xs)
