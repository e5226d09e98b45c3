-- ===== src/Pipeline/Runs.antt =====
-- `ChangedPipeline.run` as a whole: its claim, its body with the handlers, and the clean-up.
use code_fixer.Base.{ℕ, String, true, Option, none, some, text_eq, number_eq, ◌≡◌, refl}
use code_fixer.Base.Result.{Result, ok, err}
use code_fixer.Tasks.Table.{Tasks, TaskRun, TaskError}
use code_fixer.Tasks.Store.{claim_run}
use code_fixer.Tasks.Consistency.{IsConsistent}
use code_fixer.Pipeline.Session.{
  Raised, WorkspaceManifest, Session, Pipe, External, catch, outcome_of, continue, handled,
  concluded, finally, on_tasks,
}
use code_fixer.Pipeline.Session
use code_fixer.Pipeline.Adapters.{RunContext, Adapters}
use code_fixer.Pipeline.Run.{PipelineResult, Project, claim, found_context, get_run_context}
use code_fixer.Pipeline.Stages.{check_cancel}
use code_fixer.Pipeline.Body.{body, handler, cleanup, clean_if, run}
use code_fixer.Pipeline.Claims.{Claimed, claim_run-Claimed}
use code_fixer.Pipeline.Rules.{IsRunning, Outcome, Keeps, holds_catch}
use code_fixer.Pipeline.Safe.{Kept, ◌>>◌, external, given}
use code_fixer.Pipeline.Ends.{IsSettled}
use code_fixer.Pipeline.Calm.{IsCalm, IsHarmless}
use code_fixer.Pipeline.StagesKept.{check_cancel-Keeps}
use code_fixer.Pipeline.Settles.{Returned, is_end}
use code_fixer.Pipeline.Returns.{body-Settles, handler-Settles}

running-IsSettled :
    (run_id : String) (t : Tasks)
    → IsRunning run_id t
    → (status : String) × IsSettled run_id status t
running-IsSettled run_id t v =
    (_, record { consistent = v.consistent; row = v.row; found = v.found; same = refl })

module _ (a : Adapters) (project : Project) (digest : String → String) (run_id : String) (now : ℕ)
    (calm : IsCalm run_id a) where
  clean_if-Keeps :
      (status : String) (clean : WorkspaceManifest → External (Unit {0}))
      → ((m : WorkspaceManifest) → IsHarmless run_id (clean m))
      → (o : Option WorkspaceManifest)
      → Keeps
          (IsSettled run_id status)
          (clean_if a project digest run_id now (λ m. Session.external (clean m)) o)
  clean_if-Keeps status clean harmless none = λ s h. h
  clean_if-Keeps status clean harmless (some m) =
      let k : Kept (IsSettled run_id status) (Unit {0}) =
        external (clean m) (λ t h. harmless m status t h) in
      k.holds

  cleanup-Keeps :
      (status : String) → Keeps (IsSettled run_id status) (cleanup a project digest run_id now)
  unfolding cleanup
  cleanup-Keeps status =
      let k : Kept (IsSettled run_id status) (Unit {0}) = (do
        given
            (λ s.
              clean_if a project digest run_id now (λ m. Session.external (a.clean_localization m))
                s.discovery_manifest s)
            (λ s h.
              clean_if-Keeps status a.clean_localization calm.clean_localization
                s.discovery_manifest s h)
        given
            (λ s.
              clean_if a project digest run_id now (λ m. Session.external (a.clean_source m))
                s.repair_manifest s)
            (λ s h.
              clean_if-Keeps status a.clean_source calm.clean_source s.repair_manifest s h)) in
      k.holds

  -- The clean-up leaves the run as it is, and its exception replaces a result.
  SettledAfter : String → Result Raised (Unit {0}) × Session → Type 0
  SettledAfter status x =
      Outcome (IsSettled run_id status) (λ (_ : Unit {0}) t. IsSettled run_id status t) x

  returned_after :
      (p : PipelineResult) (x : Result Raised (Unit {0}) × Session)
      → is_end p.status ≡ true
      → SettledAfter p.status x
      → Outcome IsConsistent (Returned run_id) (concluded (ok p) x)
  unfolding SettledAfter
  returned_after p (ok _, s) end h = (h, end)
  returned_after p (err e, s) end h = h.consistent

  raised_after :
      (e : Raised) (status : String) (x : Result Raised (Unit {0}) × Session)
      → SettledAfter status x
      → Outcome IsConsistent (Returned run_id) (concluded (err e) x)
  unfolding SettledAfter
  raised_after e status (ok _, s) h = h.consistent
  raised_after e status (err f, s) h = h.consistent

  concluded_after :
      (x : Result Raised PipelineResult × Session)
      → Outcome (IsRunning run_id) (Returned run_id) x
      → Outcome IsConsistent
          (Returned run_id)
          (concluded x.0 (cleanup a project digest run_id now x.1))
  unfolding SettledAfter
  concluded_after (ok p, s) (settled, end) =
      returned_after p (cleanup a project digest run_id now s) end
        (cleanup-Keeps p.status s settled)
  concluded_after (err e, s) v =
      let (status, settled) = running-IsSettled run_id s.tasks v in
      raised_after e status (cleanup a project digest run_id now s) (cleanup-Keeps status s settled)

  tried_after :
      (context : RunContext)
      → (s : Session) → IsRunning run_id s.tasks
      → Outcome IsConsistent (Returned run_id) (
          finally
            (catch
              (body a project digest run_id now context)
              (handler a project digest run_id now context))
            (cleanup a project digest run_id now)
            s)
  tried_after context s v =
      concluded_after
        (catch (body a project digest run_id now context)
          (handler a project digest run_id now context) s)
        (holds_catch (IsRunning run_id) (Returned run_id) (body a project digest run_id now context)
          (handler a project digest run_id now context)
          (body-Settles a project digest run_id now calm context)
          (handler-Settles a project digest run_id now calm context) s v)

  -- After the claim: the question for a cancellation, then the `try` block.
  started_after :
      (context : RunContext) (x : Result Raised (Unit {0}) × Session)
      → Outcome (IsRunning run_id) (λ (_ : Unit {0}) t. IsRunning run_id t) x
      → Outcome IsConsistent (Returned run_id) (
          continue
            (λ (_ : Unit {0}).
              finally
                (catch
                  (body a project digest run_id now context)
                  (handler a project digest run_id now context))
                (cleanup a project digest run_id now))
            x)
  started_after context (ok _, s) v = tried_after context s v
  started_after context (err e, s) v = v.consistent

  -- The context of the run that is claimed, then what follows.
  found_after :
      (o : Option RunContext) (s : Session) (t : Tasks)
      → IsRunning run_id t
      → Outcome IsConsistent (Returned run_id) (
          continue
            (λ context. Session.◌>>◌ (check_cancel run_id) (
              finally
                (catch
                  (body a project digest run_id now context)
                  (handler a project digest run_id now context))
                (cleanup a project digest run_id now)))
            (on_tasks s (outcome_of (found_context t o))))
  found_after none s t v = v.consistent
  found_after (some context) s t v =
      started_after context (check_cancel run_id (record s { tasks = t }))
        (check_cancel-Keeps run_id now (record s { tasks = t }) v)

  after_claim :
      (s : Session) (x : Result TaskError TaskRun × Tasks)
      → Claimed run_id x
      → Outcome IsConsistent (Returned run_id) (
          continue
            (λ context. Session.◌>>◌ (check_cancel run_id) (
              finally
                (catch
                  (body a project digest run_id now context)
                  (handler a project digest run_id now context))
                (cleanup a project digest run_id now)))
            (continue
              (λ q. Session.call (λ t. found_context t (get_run_context q t)))
              (on_tasks s (outcome_of x))))
  after_claim s (ok q, t) v = found_after (get_run_context q t) s t v
  after_claim s (err e, t) v = v

  -- From consistent tables, `run` either returns a result, and then the tables are consistent and the
  -- run has the status of the result, which is completed, failed or canceled; or it raises an
  -- exception, and then the tables are consistent. Assumed is that no adapter changes the state of
  -- the run while the pipeline works, nor a clean-up after it.
  pub run-Returned :
      (s : Session)
      → IsConsistent s.tasks
      → Outcome IsConsistent (Returned run_id) (run a project digest run_id now s)
  unfolding run claim
  run-Returned s v =
      after_claim s (claim_run run_id now s.tasks) (claim_run-Claimed run_id now s.tasks v)
