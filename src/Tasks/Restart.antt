-- ===== src/Tasks/Restart.antt =====
-- A task at rest that ingestion rewrites, and for which it may queue a run.
use code_fixer.Base.{
  String, Bool, false, ◌&&◌, none, some, List, [], ◌∷◌, ◌==◌, text_eq, number_eq, any, ◌≡◌, refl,
  ap, subst, arith, inl, inr, Bool-cases,
}
use code_fixer.Base.Table.{find, update}
use code_fixer.Base.Result.{settle}
use code_fixer.Base.Query.{find-update, any-find}
use code_fixer.Tasks.Table.{is_run, TaskStatus, Task, Tasks, is_task, is_busy}
use code_fixer.Tasks.Store.{create_run, active_run_of}
use code_fixer.Tasks.Consistency.{names_run, IsConsistent, task_queued, task_running}
use code_fixer.Tasks.Busy.{rest_is_idle}
use code_fixer.Tasks.Restated.{restated}
use code_fixer.Tasks.Creation.{queue_task, queued-IsConsistent}
use code_fixer.Tasks.Ingest.{IngestedTicket, Ingestion, ingested_status, run_if_queued, reroute}

update-twice {ℓ} :
    {A : Type ℓ} (p : A → Bool) (f g h : A → A) (xs : List A)
    → ((x : A) → p (g x) ≡ p x)
    → ((x : A) → p (h x) ≡ p x)
    → ((x : A) → f (g x) ≡ f (h x))
    → update p f (update p g xs) ≡ update p f (update p h xs)
update-twice p f g h [] pg ph same = refl
update-twice p f g h (x ∷ xs) pg ph same = elim (Bool-cases (p x)) [
  | inl e ↦ ground (arith, e, pg x, ph x, same x, update-twice p f g h xs pg ph same)
  | inr e ↦ ground (arith, e, update-twice p f g h xs pg ph same)
]

module _ (ticket : IngestedTicket) (i : Ingestion) (s : Tasks) (v : IsConsistent s) (t : Task)
    (found : find (is_task t.id) s.tasks ≡ some t) (rest : is_busy t.status ≡ false) where
  at_rest :
      (states : TaskStatus → Bool) (x : TaskStatus)
      → states x ≡ false
      → states t.status ≡ false
      → (r : String)
      → (names_run t.current_run_id r && states x)
        ≡ (names_run t.current_run_id r && states t.status)
  at_rest states x e e' r = ground (arith, e, e')

  rest_queued :
      (x : TaskStatus) → is_busy x ≡ false → (task_queued x ≡ false) × (task_running x ≡ false)
  rest_queued TaskStatus.queued h = absurd (ground arith)
  rest_queued TaskStatus.running h = absurd (ground arith)
  rest_queued TaskStatus.cancel_requested h = absurd (ground arith)
  rest_queued TaskStatus.awaiting_start h = (refl, refl)
  rest_queued TaskStatus.failed h = (refl, refl)
  rest_queued TaskStatus.canceled h = (refl, refl)
  rest_queued TaskStatus.completed h = (refl, refl)

  -- The task is rewritten into another state at rest.
  rested :
      (f : Task → Task) (u : Tasks)
      → ((x : Task) → (f x).id ≡ x.id)
      → ((x : Task) → (f x).current_run_id ≡ x.current_run_id)
      → is_busy (f t).status ≡ false
      → u.tasks ≡ update (is_task t.id) f s.tasks
      → u.runs ≡ s.runs
      → IsConsistent u
  rested f u ids currents still tasks runs =
      let (q, r) = rest_queued t.status rest in
      let (q', r') = rest_queued (f t).status still in
      restated s v t.id t found f ids currents u tasks runs (at_rest task_queued (f t).status q' q)
        (at_rest task_running (f t).status r' r)

  -- The task is rewritten and its new run queued, or the transaction is rolled back.
  restarted :
      (base : Tasks) (f : Task → Task) (m : String)
      → IsConsistent base
      → ((x : Task) → (f x).id ≡ x.id)
      → ((x : Task) → (f x).current_run_id ≡ x.current_run_id)
      → (u : Tasks) → u.tasks ≡ update (is_task t.id) f s.tasks
      → u.runs ≡ s.runs
      → IsConsistent (settle base (create_run i.new_id t.id m i.now u)).1
  unfolding create_run
  restarted base f m w ids currents u tasks runs =
      let quiet : find (active_run_of t.id) u.runs ≡ none =
        rw runs (rest_is_idle s t.id t v found rest) in
      elim (Bool-cases (any (is_run i.new_id) u.runs)) [
        | inl taken ↦ rw (quiet, taken, create_run) w
        | inr fresh ↦
            rw (quiet, fresh, create_run)
              (let wait = λ (x : Task). record (f x) { status = TaskStatus.awaiting_start } in
                let s1 : Tasks = record s { tasks = update (is_task t.id) wait s.tasks } in
                let row =
                  find-update (is_task t.id) (is_task t.id) wait s.tasks t
                    (λ x. ap (λ k. k == t.id) (ids x)) found in
                queued-IsConsistent s1 (rested wait s1 ids currents refl refl refl) t.id i.new_id m
                  i.now _ row (subst (λ rs. any (is_run i.new_id) rs ≡ false) runs fresh)
                  (any-find (active_run_of t.id) s.runs (rest_is_idle s t.id t v found rest)) _
                  (rw tasks (
                    update-twice (is_task t.id) (queue_task i.new_id) f wait s.tasks
                      (λ x. ap (λ k. k == t.id) (ids x)) (λ x. ap (λ k. k == t.id) (ids x))
                      (λ x. refl)))
                  (rw runs refl))
      ]

  -- Whatever the ticket asks for, the task at rest is brought there.
  pub brought :
      (base u : Tasks)
      → IsConsistent base
      → u.tasks ≡ update (is_task t.id) (reroute ticket i) s.tasks
      → u.runs ≡ s.runs
      → (x : TaskStatus) → ingested_status ticket i.execution_mode i.failure ≡ x
      → IsConsistent (settle base (run_if_queued x i.new_id t.id i.execution_mode i.now u)).1
  brought base u w tasks runs TaskStatus.queued e =
      restarted base (reroute ticket i) i.execution_mode w (λ x. refl) (λ x. refl) u tasks runs
  brought base u w tasks runs TaskStatus.awaiting_start e =
      rested (reroute ticket i) u (λ x. refl) (λ x. refl) (rw e refl) tasks runs
  brought base u w tasks runs TaskStatus.failed e =
      rested (reroute ticket i) u (λ x. refl) (λ x. refl) (rw e refl) tasks runs
  brought base u w tasks runs TaskStatus.canceled e =
      rested (reroute ticket i) u (λ x. refl) (λ x. refl) (rw e refl) tasks runs
  brought base u w tasks runs TaskStatus.completed e =
      rested (reroute ticket i) u (λ x. refl) (λ x. refl) (rw e refl) tasks runs
  brought base u w tasks runs TaskStatus.running e = absurd (ground (arith, e))
  brought base u w tasks runs TaskStatus.cancel_requested e = absurd (ground (arith, e))
