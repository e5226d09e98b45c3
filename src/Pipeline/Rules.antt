-- ===== src/Pipeline/Rules.antt =====
-- Rules for the actions of a pipeline: what holds of the task tables after an action that starts
-- where an invariant holds, on its return and on an exception.
use code_fixer.Base.{
  ℕ, String, Bool, true, false, Option, some, text_eq, number_eq, if◌then◌else◌, ◌≡◌, refl, arith,
  Bool-cases, inl, inr,
}
use code_fixer.Base.Table.{find}
use code_fixer.Base.Query.{find-update}
use code_fixer.Base.Result.{Result, ok, err}
use code_fixer.Tasks.Table.{TaskRun, StageStatus, Failure, Tasks, TaskError, is_run, is_running}
use code_fixer.Tasks.Store.{freeze_run_inputs}
use code_fixer.Tasks.Stages.{start_stage, finish_stage}
use code_fixer.Tasks.Consistency.{IsConsistent}
use code_fixer.Tasks.Steps.{freeze-IsConsistent}
use code_fixer.Tasks.Intake.{same-IsConsistent}
use code_fixer.Pipeline.Session.{
  Raised, Session, Pipe, External, pure, raise, continue, handled, ◌>>=◌, catch, external, call,
  write, when, outcome_of, on_tasks,
}

-- The tables are consistent and the run is running.
pub record IsRunning (run_id : String) (t : Tasks) : Type 0 where
  pub consistent : IsConsistent t
  pub row : TaskRun
  pub found : find (is_run run_id) t.runs ≡ some row
  pub running : is_running row.status ≡ true

module _ (I : Tasks → Type 0) where
  -- On a return the postcondition, on an exception the invariant.
  abbrev pub Outcome : {A : Type 0} → (A → Tasks → Type 0) → Result Raised A × Session → Type 0
  Outcome Q (ok a, s) = Q a s.tasks
  Outcome Q (err e, s) = I s.tasks

  abbrev pub Holds : {A : Type 0} → Pipe A → (A → Tasks → Type 0) → Type 0
  Holds m Q = (s : Session) → I s.tasks → Outcome Q (m s)

  abbrev pub Keeps : {A : Type 0} → Pipe A → Type 0
  Keeps m = Holds m (λ a t. I t)

  -- What an adapter is expected to leave alone while it works.
  abbrev pub IsQuiet : {A : Type 0} → External A → Type 0
  IsQuiet m = (t : Tasks) → I t → I (m t).1

  pub pure-Keeps : {A : Type 0} (a : A) → Keeps (pure a)
  pure-Keeps a s h = h

  pub holds_raise : {A : Type 0} (Q : A → Tasks → Type 0) (e : Raised) → Holds (raise e) Q
  holds_raise Q e s h = h

  pub holds_bind :
      {A B : Type 0} (Q : B → Tasks → Type 0) (m : Pipe A) (k : A → Pipe B)
      → Keeps m
      → ((a : A) → Holds (k a) Q)
      → Holds (m >>= k) Q
  holds_bind {A = A} Q m k first rest s h = after (m s) (first s h)
    where
      after : (x : Result Raised A × Session) → Outcome (λ a t. I t) x → Outcome Q (continue k x)
      after (ok a, u) g = rest a u g
      after (err e, u) g = g

  pub holds_catch :
      {A : Type 0} (Q : A → Tasks → Type 0) (m : Pipe A) (h : Raised → Pipe A)
      → Holds m Q
      → ((e : Raised) → Holds (h e) Q)
      → Holds (catch m h) Q
  holds_catch {A = A} Q m h body handler s v = after (m s) (body s v)
    where
      after : (x : Result Raised A × Session) → Outcome Q x → Outcome Q (handled h x)
      after (ok a, u) g = g
      after (err e, u) g = handler e u g

  pub holds_if :
      {A : Type 0} (Q : A → Tasks → Type 0) (b : Bool) (m n : Pipe A)
      → Holds m Q
      → Holds n Q
      → Holds (if b then m else n) Q
  holds_if Q true m n h k = h
  holds_if Q false m n h k = k

  pub when-Keeps : (b : Bool) (m : Pipe (Unit {0})) → Keeps m → Keeps (when b m)
  when-Keeps true m h = h
  when-Keeps false m h = pure-Keeps tt

  pub external-Keeps : {A : Type 0} (m : External A) → IsQuiet m → Keeps (external m)
  external-Keeps {A = A} m quiet s h = after (m s.tasks) (quiet s.tasks h)
    where
      after : (x : Result Raised A × Tasks) → I x.1 → Outcome (λ a t. I t) (on_tasks s x)
      after (ok a, t) g = g
      after (err e, t) g = g

  pub write-Keeps : (f : Tasks → Tasks) → ((t : Tasks) → I t → I (f t)) → Keeps (write f)
  write-Keeps f kept s h = kept s.tasks h

  pub call-Keeps :
      {A : Type 0} (m : Tasks → Result TaskError A × Tasks)
      → ((t : Tasks) → I t → I (m t).1)
      → Keeps (call m)
  call-Keeps {A = A} m kept =
      external-Keeps (λ t. outcome_of (m t)) (λ t h. after t (m t) (kept t h))
    where
      after : (t : Tasks) (x : Result TaskError A × Tasks) → I x.1 → I (outcome_of x).1
      after t (ok a, u) g = g
      after t (err e, u) g = g

module _ (run_id : String) where
  -- Tables with the same tasks and runs.
  pub same-IsRunning :
      (t u : Tasks) → u.tasks ≡ t.tasks → u.runs ≡ t.runs → IsRunning run_id t → IsRunning run_id u
  same-IsRunning t u tasks runs v = record {
    consistent = same-IsConsistent t u tasks runs v.consistent;
    row = v.row;
    found = rw runs v.found;
    running = v.running;
  }

  pub start_stage-Keeps :
      (id stage : String) (attempt : ℕ)
      → Keeps (IsRunning run_id) (call (start_stage id stage attempt))
  unfolding start_stage
  start_stage-Keeps id stage attempt =
      call-Keeps (IsRunning run_id) (start_stage id stage attempt)
        (λ t h. same-IsRunning t (start_stage id stage attempt t).1 (ground arith) (ground arith) h)

  pub finish_stage-Keeps :
      (id : ℕ) (status : StageStatus) (path : Option String) (reason : Option Failure) (now : ℕ)
      → Keeps (IsRunning run_id) (write (finish_stage id status path reason now))
  unfolding finish_stage
  finish_stage-Keeps id status path reason now =
      write-Keeps (IsRunning run_id) (finish_stage id status path reason now)
        (λ t h. same-IsRunning t (finish_stage id status path reason now t) refl refl h)

  pub freeze_run_inputs-Keeps :
      (hash fingerprint : String)
      → Keeps (IsRunning run_id) (write (freeze_run_inputs run_id hash fingerprint))
  unfolding freeze_run_inputs
  freeze_run_inputs-Keeps hash fingerprint =
      write-Keeps (IsRunning run_id) (freeze_run_inputs run_id hash fingerprint) (λ t h.
        let f : TaskRun → TaskRun =
          λ r. record r { project_config_hash = some hash; input_fingerprint = some fingerprint } in
        record {
          consistent = freeze-IsConsistent run_id hash fingerprint t h.consistent;
          row = if is_run run_id h.row then f h.row else h.row;
          found = find-update (is_run run_id) (is_run run_id) f t.runs h.row (λ x. refl) h.found;
          running = elim (Bool-cases (is_run run_id h.row)) [
            | inl e ↦ rw e h.running
            | inr e ↦ rw e h.running
          ];
        })
