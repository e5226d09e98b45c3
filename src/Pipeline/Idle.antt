-- ===== src/Pipeline/Idle.antt =====
-- `Scheduler._execute` never leaves a run active.
use code_fixer.Base.{
  ℕ, String, Bool, true, false, ◌&&◌, some, List, [], ◌∷◌, map, text_eq, Distinct, ◌≡◌, refl, ap,
  ◌∙◌, arith, any, Option-cases, inl, inr, eq_iff,
}
use code_fixer.Base.Table.{find, update}
use code_fixer.Base.Query.{any-find, any_unique, find-passes, find-update, Distinct-update}
use code_fixer.Base.Result.{Result, ok, err}
use code_fixer.Tasks.Table.{RunStatus, Failure, Tasks, TaskRun, TaskError, is_run, is_active}
use code_fixer.Tasks.Store.{fail_run}
use code_fixer.Tasks.Consistency.{IsConsistent}
use code_fixer.Pipeline.Session.{
  Raised, Session, continue, handled, on_tasks, outcome_of, catch, call,
}
use code_fixer.Pipeline.Session
use code_fixer.Pipeline.Run.{PipelineResult, reason_of}
use code_fixer.Pipeline.Rules.{Outcome}
use code_fixer.Pipeline.Ends.{stored_status}
use code_fixer.Pipeline.Settles.{Returned, is_end}
use code_fixer.Pipeline.Execute.{Executor, execute, execute_safely}
use code_fixer.Pipeline.Executed.{IsReady, execute-Returned}

-- The run is queued or running.
abbrev pub is_unfinished : String → Tasks → Bool
is_unfinished run_id t = any (λ r. is_run run_id r && is_active r.status) t.runs

end_not_active :
    (status : RunStatus) → is_end (stored_status status) ≡ true → is_active status ≡ false
end_not_active RunStatus.queued h = absurd (ground arith)
end_not_active RunStatus.running h = absurd (ground arith)
end_not_active RunStatus.superseded h = refl
end_not_active RunStatus.completed h = refl
end_not_active RunStatus.failed h = refl
end_not_active RunStatus.canceled h = refl

module _ (run_id : String) where
  stopped :
      (runs : List TaskRun) (r : TaskRun)
      → Distinct (map (λ x. x.id) runs)
      → find (is_run run_id) runs ≡ some r
      → is_active r.status ≡ false
      → any (λ x. is_run run_id x && is_active x.status) runs ≡ false
  stopped runs r d found idle =
      any_unique (λ (x : TaskRun). x.id) (λ x. is_run run_id x && is_active x.status) run_id runs r
        (λ x h. ground (arith, eq_iff x.id run_id)) d found
      ∙ ground arith

  returned_stopped :
      (p : PipelineResult) (t : Tasks) → Returned run_id p t → is_unfinished run_id t ≡ false
  returned_stopped p t (h, end) =
      stopped t.runs h.row h.consistent.runs_distinct h.found
        (end_not_active h.row.status (rw h.same end))

  absent_stopped :
      (runs : List TaskRun)
      → any (is_run run_id) runs ≡ false
      → any (λ r. is_run run_id r && is_active r.status) runs ≡ false
  absent_stopped [] h = refl
  absent_stopped (r ∷ runs) h = ground (arith, absent_stopped runs)

  failed_stopped :
      (reason : Failure) (now : ℕ) (t : Tasks)
      → IsConsistent t
      → is_unfinished run_id (fail_run run_id reason now t).1 ≡ false
  unfolding fail_run
  failed_stopped reason now t v = elim (Option-cases (find (is_run run_id) t.runs)) [
    | inl absent ↦
        rw (absent, fail_run) (absent_stopped t.runs (any-find (is_run run_id) t.runs absent))
    | inr (q, found) ↦
        let f : TaskRun → TaskRun =
          λ r. record r { status = RunStatus.failed; finished_at = some now } in
        rw (found, fail_run)
          (stopped (update (is_run run_id) f t.runs) (f q)
            (Distinct-update (λ (x : TaskRun). x.id) (is_run run_id) f t.runs (λ x. refl)
              v.runs_distinct)
            (find-update (is_run run_id) (is_run run_id) f t.runs q (λ x. refl) found
              ∙ ap some (rw (find-passes (is_run run_id) t.runs q found) refl))
            refl)
  ]

  -- The tables after the handler are those after `fail_run`, also where there is no such run.
  passed_over :
      (e : Raised) (s : Session) (z : Result TaskError (Unit {0}) × Tasks)
      → is_unfinished run_id z.1 ≡ false
      → is_unfinished run_id
          (continue {B = PipelineResult}
            (λ (_ : Unit {0}). Session.raise e)
            (handled (λ _. Session.pure tt) (on_tasks s (outcome_of z)))).1.tasks
        ≡ false
  passed_over e s (ok _, t) h = h
  passed_over e s (err f, t) h = h

  module _ (x : Executor) (now : ℕ) (ready : IsReady run_id x) where
    -- From consistent tables, the run is neither queued nor running after the scheduler executed it,
    -- whether a result is returned or an exception is raised. Assumed is that what the executor and
    -- the pipeline call keeps the tables consistent and does not change the state of the run.
    pub execute_safely-is_unfinished :
        (s : Session)
        → IsConsistent s.tasks
        → is_unfinished run_id (execute_safely x run_id now s).1.tasks ≡ false
    unfolding execute_safely
    execute_safely-is_unfinished s v =
        after (execute x run_id now s) (execute-Returned run_id now x ready s v)
      where
        after :
            (y : Result Raised PipelineResult × Session)
            → Outcome IsConsistent (Returned run_id) y
            → is_unfinished run_id
                (handled
                  (λ e.
                    Session.◌>>◌
                      (Session.catch
                        (call (
                          fail_run run_id
                            (record {
                              code = "unexpected_executor_error";
                              stage = "scheduler";
                              summary = reason_of e;
                              retryable = true;
                            })
                            now))
                        (λ _. Session.pure tt))
                      (Session.raise e))
                  y).1.tasks
              ≡ false
        after (ok p, u) h = returned_stopped p u.tasks h
        after (err e, u) h =
            let reason : Failure = record {
              code = "unexpected_executor_error";
              stage = "scheduler";
              summary = reason_of e;
              retryable = true;
            } in
            passed_over e u (fail_run run_id reason now u.tasks)
              (failed_stopped reason now u.tasks h)
