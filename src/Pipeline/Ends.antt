-- ===== src/Pipeline/Ends.antt =====
-- The ends of a run: complete_run, fail_run and cancel_run of a run that is running.
use code_fixer.Base.{ℕ, String, some, ◌==◌, text_eq, ◌≡◌, refl, ap, ◌∙◌, arith}
use code_fixer.Base.Table.{find, update}
use code_fixer.Base.Query.{find-update, find-passes}
use code_fixer.Base.Result.{Result, ok, err}
use code_fixer.Tasks.Table.{TaskRun, RunStatus, Failure, Tasks, TaskError, is_run}
use code_fixer.Tasks.Store.{complete_run, fail_run, cancel_run, coalesce}
use code_fixer.Tasks.Consistency.{IsConsistent, running_active}
use code_fixer.Tasks.Lifecycle.{
  complete_run-IsConsistent, fail_run-IsConsistent, cancel_run-IsConsistent,
}
use code_fixer.Pipeline.Session.{call, pure, ◌>>=◌, outcome_of, continue, on_tasks}
use code_fixer.Pipeline.Rules.{IsRunning, Holds, Outcome}

-- The status as the database stores it.
abbrev pub stored_status : RunStatus → String
stored_status RunStatus.queued = "queued"
stored_status RunStatus.running = "running"
stored_status RunStatus.superseded = "superseded"
stored_status RunStatus.completed = "completed"
stored_status RunStatus.failed = "failed"
stored_status RunStatus.canceled = "canceled"

-- The tables are consistent and the run has the status.
pub record IsSettled (run_id status : String) (t : Tasks) : Type 0 where
  pub consistent : IsConsistent t
  pub row : TaskRun
  pub found : find (is_run run_id) t.runs ≡ some row
  pub same : stored_status row.status ≡ status

-- A call that ends the run, and the result that is returned after it.
abbrev pub EndsAs : String → String → (Tasks → Result TaskError (Unit {0}) × Tasks) → Type 0
EndsAs run_id status m =
    (t : Tasks) → IsRunning run_id t → ((m t).0 ≡ ok tt) × IsSettled run_id status (m t).1

module _ (run_id : String) (now : ℕ) where
  rewritten :
      (f : TaskRun → TaskRun) (t : Tasks) (v : IsRunning run_id t)
      → ((x : TaskRun) → (f x).id ≡ x.id)
      → find (is_run run_id) (update (is_run run_id) f t.runs) ≡ some (f v.row)
  rewritten f t v keyed =
      find-update (is_run run_id) (is_run run_id) f t.runs v.row
        (λ x. ap (λ i. i == run_id) (keyed x)) v.found
      ∙ ap some (rw (find-passes (is_run run_id) t.runs v.row v.found) refl)

  pub complete_run-EndsAs :
      (result : String) → EndsAs run_id "completed" (complete_run run_id result now)
  unfolding complete_run
  complete_run-EndsAs result t v = (
    rw (v.found, complete_run) refl,
    record {
      consistent =
          complete_run-IsConsistent run_id now t v.consistent v.row v.found
            (running_active v.row.status v.running) result;
      row = record v.row { status = RunStatus.completed; finished_at = some now };
      found =
          rw (v.found, complete_run)
            (rewritten (λ r. record r { status = RunStatus.completed; finished_at = some now }) t v
              (λ x. refl));
      same = refl;
    },
  )

  pub fail_run-EndsAs : (failure : Failure) → EndsAs run_id "failed" (fail_run run_id failure now)
  unfolding fail_run
  fail_run-EndsAs failure t v = (
    rw (v.found, fail_run) refl,
    record {
      consistent =
          fail_run-IsConsistent run_id now t v.consistent v.row v.found
            (running_active v.row.status v.running) failure;
      row = record v.row { status = RunStatus.failed; finished_at = some now };
      found =
          rw (v.found, fail_run)
            (rewritten (λ r. record r { status = RunStatus.failed; finished_at = some now }) t v
              (λ x. refl));
      same = refl;
    },
  )

  pub cancel_run-EndsAs : EndsAs run_id "canceled" (cancel_run run_id now)
  unfolding cancel_run
  cancel_run-EndsAs t v = (
    rw (v.found, cancel_run) refl,
    record {
      consistent =
          cancel_run-IsConsistent run_id now t v.consistent v.row v.found
            (running_active v.row.status v.running);
      row = record v.row {
        status = RunStatus.canceled;
        finished_at = coalesce v.row.finished_at now;
      };
      found =
          rw (v.found, cancel_run)
            (rewritten
              (λ r. record r {
                status = RunStatus.canceled;
                finished_at = coalesce r.finished_at now;
              })
              t v (λ x. refl));
      same = refl;
    },
  )

pub holds_end :
    {B : Type 0} (run_id status : String) (m : Tasks → Result TaskError (Unit {0}) × Tasks) (p : B)
    (Q : B → Tasks → Type 0)
    → EndsAs run_id status m
    → ((t : Tasks) → IsSettled run_id status t → Q p t)
    → Holds (IsRunning run_id) (call m >>= λ _. pure p) Q
holds_end {B = B} run_id status m p Q ends goal s v =
    let (returned, settled) = ends s.tasks v in after (m s.tasks) returned settled
  where
    after :
        (x : Result TaskError (Unit {0}) × Tasks)
        → x.0 ≡ ok tt
        → IsSettled run_id status x.1
        → Outcome
            (IsRunning run_id)
            Q
            (continue (λ (_ : Unit {0}). pure p) (on_tasks s (outcome_of x)))
    after (ok _, t) e h = goal t h
    after (err e, t) absent h = absurd (ground arith)
