-- ===== src/Tasks/Exclusion.antt =====
-- At most one run of a task is active, and at most one worker claims a run.
use code_fixer.Base.{
  ℕ, ◌≤◌, String, Bool, true, false, not, ◌&&◌, Option, none, some, List, [], ◌∷◌, ◌==◌, text_eq,
  number_eq, if◌then◌else◌, any, ◌≡◌, refl, sym, ap, ◌∙◌, arith, inl, inr, Bool-cases, Option-cases,
  eq_iff,
}
use code_fixer.Base.Table.{find, update, count}
use code_fixer.Base.Result.{ok, err}
use code_fixer.Base.Query.{find-passes, find-update, find-any, any-find, count-none, count-le-one}
use code_fixer.Tasks.Table.{
  TaskStatus, Task, TaskRun, TicketRecord, Tasks, cannot_claim, is_task, is_run, is_waiting,
}
use code_fixer.Tasks.Store.{active_run_of, claim_run, find_context, frozen_snapshot, mark_running}
use code_fixer.Tasks.Consistency.{names_run, IsConsistent}
use code_fixer.Tasks.Busy.{active_named}
use code_fixer.Tasks.Steps.{Steps, Steps-IsConsistent}

count-narrow {ℓ} :
    {A : Type ℓ} (p q : A → Bool) (xs : List A)
    → any (λ x. p x && not (q x)) xs ≡ false
    → count p xs ≡ count (λ x. p x && q x) xs
count-narrow p q [] h = refl
count-narrow p q (x ∷ xs) h = ground (arith, count-narrow p q xs)

names_one :
    (o : Option String) (a b : String)
    → names_run o a ≡ true
    → names_run o b ≡ true
    → (b == a) ≡ true
names_one none a b h k = absurd (ground arith)
names_one (some id) a b h k = ground (arith, eq_iff id a, eq_iff id b, eq_iff b a)

-- In consistent tables a task has at most one run that is queued or running.
active_run_count :
    (s : Tasks) (task_id : String) → IsConsistent s → count (active_run_of task_id) s.runs ≤ 1
active_run_count s task_id v = elim (Option-cases (find (active_run_of task_id) s.runs)) [
  | inl absent ↦
      rw
        (count-none (active_run_of task_id) s.runs (any-find (active_run_of task_id) s.runs absent))
        (omega arith)
  | inr (q, found) ↦
      let (t, at, current, busy) =
        active_named s task_id (active_run_of task_id) q v found
          (find-passes (active_run_of task_id) s.runs q found) in
      let other = λ (x : TaskRun). active_run_of task_id x && not (x.id == q.id) in
      let none_other : any other s.runs ≡ false = elim (Bool-cases (any other s.runs)) [
        | inr e ↦ e
        | inl e ↦
            let (x, there) = find-any other s.runs e in
            let passes = find-passes other s.runs x there in
            let (t', at', current', busy') =
              active_named s task_id other x v there (ground arith) in
            let same : some t' ≡ some t = sym at' ∙ at in
            absurd (ground (arith, same, names_one t.current_run_id q.id x.id))
      ] in
      rw (count-narrow (active_run_of task_id) (is_run q.id) s.runs none_other) (
        count-le-one (λ (x : TaskRun). x.id) q.id (λ x. active_run_of task_id x && is_run q.id x)
          s.runs (λ x h. ground (arith, eq_iff x.id q.id)) v.runs_distinct)
]

-- From consistent tables, after every history of steps, each under the conditions of its constructor
-- of Step, whatever runs they create, start, finish or cancel, a task has at most one run that is
-- queued or running.
pub one_active_run :
    (s t : Tasks) (task_id : String)
    → Steps s t
    → IsConsistent s
    → count (active_run_of task_id) t.runs ≤ 1
one_active_run s t task_id steps v = active_run_count t task_id (Steps-IsConsistent s t steps v)

context_found :
    (q : TaskRun) (u : Tasks) (t : Task) (k : TicketRecord)
    → find (is_task q.task_id) u.tasks ≡ some t
    → find (λ (x : TicketRecord). x.id == t.ticket_record_id) u.tickets ≡ some k
    → find_context q u ≡ some (t, k)
unfolding find_context
context_found q u t k row ticket = rw (row, ticket, find_context) refl

-- A write to tasks that keeps their ids and tickets keeps the context of a run.
context_kept :
    (q : TaskRun) (s u : Tasks) (id : String) (f : Task → Task) (x : Task × TicketRecord)
    → find_context q s ≡ some x
    → u.tasks ≡ update (is_task id) f s.tasks
    → u.tickets ≡ s.tickets
    → ((t : Task) → ((f t).id ≡ t.id) × ((f t).ticket_record_id ≡ t.ticket_record_id))
    → (y : Task × TicketRecord) × (find_context q u ≡ some y)
unfolding find_context
context_kept q s u id f x h tasks tickets kept =
    elim (Option-cases (find (is_task q.task_id) s.tasks)) [
      | inl absent ↦ absurd (ground arith)
      | inr (t, found) ↦
          elim (Option-cases (find (λ (k : TicketRecord). k.id == t.ticket_record_id) s.tickets)) [
            | inl absent ↦ absurd (ground arith)
            | inr (k, ticket) ↦
                let t' = if is_task id t then f t else t in
                let row : find (is_task q.task_id) u.tasks ≡ some t' = rw tasks (
                  find-update (is_task q.task_id) (is_task id) f s.tasks t
                    (λ y. ap (λ i. i == q.task_id) (kept y).0) found) in
                let same : t'.ticket_record_id ≡ t.ticket_record_id =
                  elim (Bool-cases (is_task id t)) [
                    | inl e ↦ rw e (kept t).1
                    | inr e ↦ rw e refl
                  ] in
                (
                  (t', k),
                  context_found q u t' k row (
                      rw tickets
                        (ap (λ i. find (λ (k : TicketRecord). k.id == i) s.tickets) same ∙ ticket)),
                )
          ]
    ]

claim_run_refused :
    (run_id : String) (later : ℕ) (u : Tasks) (q : TaskRun) (x : Task × TicketRecord)
    → find (is_run run_id) u.runs ≡ some q
    → find_context q u ≡ some x
    → is_waiting q.status ≡ false
    → claim_run run_id later u ≡ (err cannot_claim, u)
unfolding claim_run
claim_run_refused run_id later u q (t, k) found context stopped =
    rw (found, context, stopped, claim_run) refl

-- A run that was claimed cannot be claimed again: until another call changes the tables, every
-- later claim of it, by any worker, raises and changes nothing.
pub claim_run_once :
    (run_id : String) (now later : ℕ) (s : Tasks) (q : TaskRun)
    → (claim_run run_id now s).0 ≡ ok q
    → claim_run run_id later (claim_run run_id now s).1
      ≡ (err cannot_claim, (claim_run run_id now s).1)
unfolding claim_run
claim_run_once run_id now later s q h = elim (Option-cases (find (is_run run_id) s.runs)) [
  | inl absent ↦ absurd (ground arith)
  | inr (r, found) ↦ elim (Option-cases (find_context r s)) [
    | inl absent ↦ absurd (ground arith)
    | inr ((t, k), joined) ↦ elim (Bool-cases (is_waiting r.status)) [
      | inr stopped ↦ absurd (ground arith)
      | inl waits ↦
          elim (Option-cases (frozen_snapshot r.ticket_snapshot_id k.current_snapshot_id)) [
            | inl absent ↦ absurd (ground arith)
            | inr (n, frozen) ↦
                let u = (claim_run run_id now s).1 in
                let hit : (r.id == run_id && is_waiting r.status) ≡ true =
                  ground (arith, waits, find-passes (is_run run_id) s.runs r found) in
                let row : find (is_run run_id) u.runs ≡ some (mark_running n now r) =
                  rw (found, joined, waits, frozen, claim_run)
                    (find-update (is_run run_id) (λ x. x.id == run_id && is_waiting x.status)
                        (mark_running n now) s.runs r (λ x. refl) found
                      ∙ ap some (rw hit refl)) in
                let (y, context) =
                  context_kept (mark_running n now r) s u t.id
                    (λ t. record t { status = TaskStatus.running }) (t, k)
                    (unfold find_context in joined)
                    (rw (found, joined, waits, frozen, claim_run) refl)
                    (rw (found, joined, waits, frozen, claim_run) refl) (λ t. (refl, refl)) in
                claim_run_refused run_id later u (mark_running n now r) y row context refl
          ]
    ]
  ]
]
