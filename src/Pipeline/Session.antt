-- ===== src/Pipeline/Session.antt =====
-- The state and the exceptions of a pipeline: a small monad over the task tables.
use code_fixer.Base.{String, Bool, true, false, Option}
use code_fixer.Base.Result.{Result, ok, err}
use code_fixer.Tasks.Table.{
  Failure, Tasks, TaskError, not_found, no_route, cannot_start, not_current, not_failed,
  cannot_cancel, cannot_claim, no_snapshot, integrity_error,
}

-- PipelineFailure with its failure, PipelineCanceled, ArtifactProtocolError, the errors that
-- RunExecutor.execute catches (KeyError, ValueError, ConfigurationNotReady), and any other exception.
pub data Raised : Type 0 where
  failure : Failure → Raised
  canceled : Raised
  protocol_error : String → Raised
  value_error : String → Raised
  other_error : String → Raised

-- The fields that the pipeline reads.
pub record WorkspaceManifest : Type 0 where
  pub source_id : String
  pub source_type : String
  pub base_revision : String
  pub workspace_path : String
  pub baseline_cohort_id : Option String

-- The tables, and the two variables that the `finally` block of `run` reads.
pub record Session : Type 0 where
  pub tasks : Tasks
  pub discovery_manifest : Option WorkspaceManifest
  pub repair_manifest : Option WorkspaceManifest

-- An action of the pipeline, and one of an adapter, during which other callers may use the tables.
abbrev pub Pipe : Type 0 → Type 0
Pipe A = Session → Result Raised A × Session

abbrev pub External : Type 0 → Type 0
External A = Tasks → Result Raised A × Tasks

abbrev pub pure : {A : Type 0} → A → Pipe A
pure a s = (ok a, s)

abbrev pub raise : {A : Type 0} → Raised → Pipe A
raise e s = (err e, s)

-- What follows a result.
abbrev pub continue :
    {A B : Type 0} → (A → Pipe B) → Result Raised A × Session → Result Raised B × Session
continue k (ok a, s) = k a s
continue k (err e, s) = (err e, s)

infixl 5 ◌>>=◌ ◌>>◌
abbrev pub ◌>>=◌ : {A B : Type 0} → Pipe A → (A → Pipe B) → Pipe B
◌>>=◌ m k s = continue k (m s)

abbrev pub ◌>>◌ : {B : Type 0} → Pipe (Unit {0}) → Pipe B → Pipe B
m >> k = m >>= λ _. k

-- try: m except: handler
abbrev pub handled :
    {A : Type 0} → (Raised → Pipe A) → Result Raised A × Session → Result Raised A × Session
handled handler (ok a, s) = (ok a, s)
handled handler (err e, s) = handler e s

abbrev pub catch : {A : Type 0} → Pipe A → (Raised → Pipe A) → Pipe A
catch m handler s = handled handler (m s)

-- try: m finally: last
abbrev pub concluded :
    {A : Type 0} → Result Raised A → Result Raised (Unit {0}) × Session → Result Raised A × Session
concluded r (ok _, s) = (r, s)
concluded r (err e, s) = (err e, s)

abbrev pub finally : {A : Type 0} → Pipe A → Pipe (Unit {0}) → Pipe A
finally m last s = let (r, s') = m s in concluded r (last s')

abbrev pub on_tasks : {A : Type 0} → Session → Result Raised A × Tasks → Result Raised A × Session
on_tasks s (r, t) = (r, record s { tasks = t })

abbrev pub external : {A : Type 0} → External A → Pipe A
external m s = on_tasks s (m s.tasks)

-- The class of an exception of TaskStore, and its text without the state that it names.
abbrev pub raised_by : TaskError → Raised
raised_by not_found = value_error "KeyError"
raised_by no_route = value_error "task has no unique project route"
raised_by cannot_start = value_error "task cannot start"
raised_by not_current = value_error "delivery retry is only allowed for the task current run"
raised_by not_failed = value_error "delivery retry requires a failed task and failed run"
raised_by cannot_cancel = value_error "task cannot cancel"
raised_by cannot_claim = value_error "run cannot be claimed"
raised_by no_snapshot = value_error "task has no current ticket snapshot"
raised_by integrity_error = other_error "IntegrityError"

abbrev pub outcome_of : {A : Type 0} → Result TaskError A × Tasks → Result Raised A × Tasks
outcome_of (ok a, t) = (ok a, t)
outcome_of (err e, t) = (err (raised_by e), t)

-- A call of TaskStore that may raise, and one that may not.
abbrev pub call : {A : Type 0} → (Tasks → Result TaskError A × Tasks) → Pipe A
call m = external (λ t. outcome_of (m t))

abbrev pub write : (Tasks → Tasks) → Pipe (Unit {0})
write f = external (λ t. (ok tt, f t))

abbrev pub when : Bool → Pipe (Unit {0}) → Pipe (Unit {0})
when true m = m
when false m = pure tt
