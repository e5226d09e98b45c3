-- ===== src/Pipeline/Safe.antt =====
-- Actions of a pipeline with their rules: a proof has the form of the action that it is about.
use code_fixer.Base.{ℕ, String, Bool, Option, if◌then◌else◌}
use code_fixer.Base.Result.{Result}
use code_fixer.Tasks.Table.{StageStatus, Failure, Tasks, TaskError}
use code_fixer.Tasks.Stages.{start_stage, finish_stage}
use code_fixer.Pipeline.Session.{Raised, Session, Pipe, External, continue}
use code_fixer.Pipeline.Session
use code_fixer.Pipeline.Rules.{
  IsRunning, Holds, IsQuiet, pure-Keeps, holds_raise, holds_bind, holds_catch, holds_if, when-Keeps,
  external-Keeps, call-Keeps, start_stage-Keeps, finish_stage-Keeps,
}

pub record Safe (I : Tasks → Type 0) {A : Type 0} (Q : A → Tasks → Type 0) : Type 0 where
  pub action : Pipe A
  pub holds : Holds I action Q

abbrev pub Kept : (Tasks → Type 0) → Type 0 → Type 0
Kept I A = Safe I {A = A} (λ a t. I t)

infixl 5 ◌>>=◌ ◌>>◌
abbrev pub ◌>>=◌ :
    {I : Tasks → Type 0} {A B : Type 0} {Q : B → Tasks → Type 0}
    → Kept I A
    → (A → Safe I Q)
    → Safe I Q
◌>>=◌ {I = I} {Q = Q} m k = record {
  action = Session.◌>>=◌ m.action (λ a. (k a).action);
  holds = holds_bind I Q m.action (λ a. (k a).action) m.holds (λ a. (k a).holds);
}

abbrev pub ◌>>◌ :
    {I : Tasks → Type 0} {B : Type 0} {Q : B → Tasks → Type 0}
    → Kept I (Unit {0})
    → Safe I Q
    → Safe I Q
m >> k = m >>= λ _. k

abbrev pub pure : {I : Tasks → Type 0} {A : Type 0} → A → Kept I A
pure {I = I} a = record { action = Session.pure a; holds = pure-Keeps I a }

abbrev pub raise : {I : Tasks → Type 0} {A : Type 0} {Q : A → Tasks → Type 0} → Raised → Safe I Q
raise {I = I} {Q = Q} e = record { action = Session.raise e; holds = holds_raise I Q e }

abbrev pub catch :
    {I : Tasks → Type 0} {A : Type 0} {Q : A → Tasks → Type 0}
    → Safe I Q
    → (Raised → Safe I Q)
    → Safe I Q
catch {I = I} {Q = Q} m h = record {
  action = Session.catch m.action (λ e. (h e).action);
  holds = holds_catch I Q m.action (λ e. (h e).action) m.holds (λ e. (h e).holds);
}

abbrev pub branch :
    {I : Tasks → Type 0} {A : Type 0} {Q : A → Tasks → Type 0}
    → Bool
    → Safe I Q
    → Safe I Q
    → Safe I Q
branch {I = I} {Q = Q} b m n = record {
  action = if b then m.action else n.action;
  holds = holds_if I Q b m.action n.action m.holds n.holds;
}

abbrev pub when : {I : Tasks → Type 0} → Bool → Kept I (Unit {0}) → Kept I (Unit {0})
when {I = I} b m = record {
  action = Session.when b m.action;
  holds = when-Keeps I b m.action m.holds;
}

abbrev pub external : {I : Tasks → Type 0} {A : Type 0} → (m : External A) → IsQuiet I m → Kept I A
external {I = I} m quiet = record { action = Session.external m; holds = external-Keeps I m quiet }

abbrev pub read : {I : Tasks → Type 0} {A : Type 0} → (Tasks → Result TaskError A) → Kept I A
read {I = I} f = record {
  action = Session.call (λ t. (f t, t));
  holds = call-Keeps I (λ t. (f t, t)) (λ t h. h);
}

abbrev pub start : {run_id : String} → (stage : String) (attempt : ℕ) → Kept (IsRunning run_id) ℕ
start {run_id = run_id} stage attempt = record {
  action = Session.call (start_stage run_id stage attempt);
  holds = start_stage-Keeps run_id run_id stage attempt;
}

abbrev pub finish :
    {run_id : String}
    → ℕ
    → StageStatus
    → Option String
    → Option Failure
    → (now : ℕ) → Kept (IsRunning run_id) (Unit {0})
finish {run_id = run_id} id status path reason now = record {
  action = Session.write (finish_stage id status path reason now);
  holds = finish_stage-Keeps run_id id status path reason now;
}

abbrev pub given :
    {I : Tasks → Type 0} {A : Type 0} {Q : A → Tasks → Type 0}
    → (m : Pipe A) → Holds I m Q
    → Safe I Q
given m h = record { action = m; holds = h }
