-- ===== src/Tasks/Intake.antt =====
-- Ingestion keeps tasks and runs consistent, and leaves alone what it should not restart.
use code_fixer.Base.{
  ℕ, String, Bool, true, false, not, ◌&&◌, ◌||◌, none, some, [], ◌∷◌, ◌++◌, ◌==◌, text_eq,
  number_eq, any, any-append, ◌≡◌, refl, sym, ap, subst, ◌∙◌, arith, inl, inr, Bool-cases,
  Option-cases, eq_self,
}
use code_fixer.Base.Table.{find}
use code_fixer.Base.Result.{ok, settle}
use code_fixer.Base.Query.{find-passes, find-snoc, any-find, any-of-find, Distinct-map-snoc}
use code_fixer.Base.Keys.{find-key}
use code_fixer.Tasks.Table.{TicketRecord, TaskStatus, Task, Tasks, TaskError, is_task, is_busy}
use code_fixer.Tasks.Consistency.{names_run, has_task, IsConsistent, task_queued, task_running}
use code_fixer.Tasks.Restart.{brought}
use code_fixer.Tasks.Creation.{create_run-IsConsistent, settle-IsConsistent}
use code_fixer.Tasks.Ingest.{
  IngestedTicket, Ingestion, upsert_ticket, upsert_snapshot, is_snapshot_of, is_ticket_of,
  ingested_status, run_if_queued, new_task, create_task, route_recovered, refresh_task,
  ingest_locked, ingest,
}

-- What the rows of tickets and snapshots do to tasks and runs: nothing.
kept_by_upserts :
    (ticket : IngestedTicket) (id : ℕ) (hash : String) (s : Tasks)
    → ((upsert_ticket ticket s).1.tasks ≡ s.tasks)
      × ((upsert_ticket ticket s).1.runs ≡ s.runs)
      × ((upsert_snapshot ticket id hash s).1.tasks ≡ s.tasks)
      × ((upsert_snapshot ticket id hash s).1.runs ≡ s.runs)
unfolding upsert_ticket upsert_snapshot
kept_by_upserts ticket id hash s = (ground arith, ground arith, ground arith, ground arith)

-- Consistency is a matter of tasks and runs alone.
pub same-IsConsistent :
    (s u : Tasks) → u.tasks ≡ s.tasks → u.runs ≡ s.runs → IsConsistent s → IsConsistent u
same-IsConsistent s u tasks runs v = record {
  tasks_distinct = rw tasks v.tasks_distinct;
  runs_distinct = rw runs v.runs_distinct;
  queued_agree = λ k r. rw (tasks, runs) (v.queued_agree k r);
  running_agree = λ k r. rw (tasks, runs) (v.running_agree k r);
}

run_if_queued-IsConsistent :
    (status : TaskStatus) (new_id task_id mode : String) (now : ℕ) (s : Tasks) (t : Task)
    → find (is_task task_id) s.tasks ≡ some t
    → IsConsistent s
    → IsConsistent (run_if_queued status new_id task_id mode now s).1
run_if_queued-IsConsistent TaskStatus.queued new_id task_id mode now s t found v =
    create_run-IsConsistent new_id task_id mode now s t found v
run_if_queued-IsConsistent TaskStatus.awaiting_start new_id task_id mode now s t found v = v
run_if_queued-IsConsistent TaskStatus.running new_id task_id mode now s t found v = v
run_if_queued-IsConsistent TaskStatus.cancel_requested new_id task_id mode now s t found v = v
run_if_queued-IsConsistent TaskStatus.completed new_id task_id mode now s t found v = v
run_if_queued-IsConsistent TaskStatus.failed new_id task_id mode now s t found v = v
run_if_queued-IsConsistent TaskStatus.canceled new_id task_id mode now s t found v = v

-- A new task has no run yet.
append-IsConsistent :
    (s u : Tasks) (t : Task)
    → t.current_run_id ≡ none
    → any (is_task t.id) s.tasks ≡ false
    → u.tasks ≡ s.tasks ++ t ∷ []
    → u.runs ≡ s.runs
    → IsConsistent s
    → IsConsistent u
append-IsConsistent s u t idle fresh tasks runs v = record {
  tasks_distinct =
      rw tasks (Distinct-map-snoc (λ (x : Task). x.id) s.tasks t v.tasks_distinct fresh);
  runs_distinct = rw runs v.runs_distinct;
  queued_agree = λ k r. rw (tasks, runs) (v.queued_agree k r ∙ sym (same task_queued k r));
  running_agree = λ k r. rw (tasks, runs) (v.running_agree k r ∙ sym (same task_running k r));
}
  where
    same :
        (states : TaskStatus → Bool) (k r : String)
        → has_task states k r (s.tasks ++ t ∷ []) ≡ has_task states k r s.tasks
    same states k r =
        any-append (λ x. (x.id == k && names_run x.current_run_id r) && states x.status) s.tasks
          (t ∷ [])
        ∙ ground (arith, ap (λ o. names_run o r) idle)

create_task-IsConsistent :
    (id : String) (record_id : ℕ) (ticket : IngestedTicket) (i : Ingestion) (s : Tasks)
    → IsConsistent s
    → IsConsistent (create_task id record_id ticket i s).1
unfolding create_task
create_task-IsConsistent id record_id ticket i s v = elim (Bool-cases (any (is_task id) s.tasks)) [
  | inl taken ↦ rw (taken, create_task) v
  | inr fresh ↦
      rw (fresh, create_task)
        (run_if_queued-IsConsistent (ingested_status ticket i.execution_mode i.failure) i.new_id id
          i.execution_mode i.now _ (new_task id record_id ticket i)
          (find-snoc (is_task id) s.tasks (new_task id record_id ticket i) fresh (eq_self id))
          (append-IsConsistent s _ (new_task id record_id ticket i) refl fresh refl refl v))
]

refresh_task-IsConsistent :
    (task : Task) (is_new : Bool) (ticket : IngestedTicket) (i : Ingestion) (base s : Tasks)
    → IsConsistent base
    → IsConsistent s
    → find (is_task task.id) s.tasks ≡ some task
    → IsConsistent (settle base (refresh_task task is_new ticket i s)).1
unfolding refresh_task
refresh_task-IsConsistent task is_new ticket i base s w v found =
    elim (Bool-cases ((is_new || route_recovered task i) && not (is_busy task.status))) [
      | inr left ↦ rw (left, refresh_task) (same-IsConsistent s _ refl refl v)
      | inl taken ↦
          rw (taken, refresh_task)
            (brought ticket i s v task found (ground arith) base _ w refl refl
              (ingested_status ticket i.execution_mode i.failure) refl)
    ]

settled :
    (id : String) (record_id : ℕ) (is_new : Bool) (ticket : IngestedTicket) (i : Ingestion)
    (base s : Tasks)
    → IsConsistent base
    → IsConsistent s
    → IsConsistent
        (settle {E = TaskError} {A = String} base
          (elim (find (λ t. t.ticket_record_id == record_id) s.tasks) [
            | none ↦ create_task id record_id ticket i s
            | some task ↦ refresh_task task is_new ticket i s
          ])).1
settled id record_id is_new ticket i base s w v =
    elim (Option-cases (find (λ (t : Task). t.ticket_record_id == record_id) s.tasks)) [
      | inl absent ↦
          rw absent
            (settle-IsConsistent base _ w (create_task-IsConsistent id record_id ticket i s v))
      | inr (t, found) ↦ rw found (
          refresh_task-IsConsistent t is_new ticket i base s w v (
            find-key (λ (x : Task). x.id) (λ x. x.ticket_record_id == record_id) s.tasks t
              v.tasks_distinct found))
    ]

-- Ingestion keeps tasks and runs consistent, whatever the ticket, its route and its failure are.
pub ingest-IsConsistent :
    (identify : String → String → String) (digest : String → String) (ticket : IngestedTicket)
    (i : Ingestion) (s : Tasks)
    → IsConsistent s
    → IsConsistent (ingest identify digest ticket i s).1
unfolding ingest ingest_locked
ingest-IsConsistent identify digest ticket i s v =
    let (record_id, s1) = upsert_ticket ticket s in
    let ((is_new, snapshot_id), s2) =
      upsert_snapshot ticket record_id (digest ticket.payload_json) s1 in
    let kept = kept_by_upserts ticket record_id (digest ticket.payload_json) in
    settled (identify ticket.provider_instance_id ticket.external_ticket_id) record_id is_new ticket
      i s s2 v (same-IsConsistent s s2 ((kept s1).2 ∙ (kept s).0) ((kept s1).3 ∙ (kept s).1) v)

upsert_ticket-found :
    (ticket : IngestedTicket) (s : Tasks) (k : TicketRecord)
    → find (is_ticket_of ticket) s.tickets ≡ some k
    → ((upsert_ticket ticket s).0 ≡ k.id) × ((upsert_ticket ticket s).1.snapshots ≡ s.snapshots)
unfolding upsert_ticket
upsert_ticket-found ticket s k found =
    (rw (found, upsert_ticket) refl, rw (found, upsert_ticket) refl)

upsert_snapshot-new :
    (ticket : IngestedTicket) (id : ℕ) (hash : String) (s : Tasks)
    → (upsert_snapshot ticket id hash s).0.0 ≡ not (any (is_snapshot_of id hash) s.snapshots)
unfolding upsert_snapshot
upsert_snapshot-new ticket id hash s =
    elim (Option-cases (find (is_snapshot_of id hash) s.snapshots)) [
      | inl absent ↦
          rw (absent, upsert_snapshot, any-find (is_snapshot_of id hash) s.snapshots absent) refl
      | inr (x, found) ↦
          rw
            (
              found,
              upsert_snapshot,
              any-of-find (is_snapshot_of id hash) (is_snapshot_of id hash) s.snapshots x found
                  (find-passes (is_snapshot_of id hash) s.snapshots x found),
            )
            refl
    ]

calm_refresh :
    (id : String) (record_id : ℕ) (is_new : Bool) (ticket : IngestedTicket) (i : Ingestion)
    (base s : Tasks) (t : Task)
    → find (λ x. x.ticket_record_id == record_id) s.tasks ≡ some t
    → ((is_new || route_recovered t i) && not (is_busy t.status)) ≡ false
    → let r =
        settle {E = TaskError} {A = String} base
          (elim (find (λ x. x.ticket_record_id == record_id) s.tasks) [
            | none ↦ create_task id record_id ticket i s
            | some task ↦ refresh_task task is_new ticket i s
          ]) in
      (r.0 ≡ ok t.id) × (r.1.tasks ≡ s.tasks) × (r.1.runs ≡ s.runs)
unfolding refresh_task
calm_refresh id record_id is_new ticket i base s t found skip = rw (found, skip) (refl, refl, refl)

-- Ingestion leaves every task and run as it was if the ticket's task is busy, or if the snapshot
-- is known already and no route is recovered; it returns that task.
pub ingest_keeps :
    (identify : String → String → String) (digest : String → String) (ticket : IngestedTicket)
    (i : Ingestion) (s : Tasks) (k : TicketRecord) (t : Task)
    → find (is_ticket_of ticket) s.tickets ≡ some k
    → find (λ x. x.ticket_record_id == k.id) s.tasks ≡ some t
    → (is_busy t.status
        || (any (is_snapshot_of k.id (digest ticket.payload_json)) s.snapshots
            && not (route_recovered t i)))
      ≡ true
    → ((ingest identify digest ticket i s).0 ≡ ok t.id)
      × ((ingest identify digest ticket i s).1.tasks ≡ s.tasks)
      × ((ingest identify digest ticket i s).1.runs ≡ s.runs)
unfolding ingest ingest_locked refresh_task
ingest_keeps identify digest ticket i s k t row found calm =
    let hash = digest ticket.payload_json in
    let (record_id, s1) = upsert_ticket ticket s in
    let ((is_new, snapshot_id), s2) = upsert_snapshot ticket record_id hash s1 in
    let kept = kept_by_upserts ticket record_id hash in
    let (same_id, same_snapshots) = upsert_ticket-found ticket s k row in
    let tasks : s2.tasks ≡ s.tasks = (kept s1).2 ∙ (kept s).0 in
    let here =
      subst (λ ts. find (λ (x : Task). x.ticket_record_id == record_id) ts ≡ some t) (sym tasks)
        (subst (λ r. find (λ (x : Task). x.ticket_record_id == r) s.tasks ≡ some t) (sym same_id)
          found) in
    let fresh : is_new ≡ not (any (is_snapshot_of k.id hash) s.snapshots) =
      upsert_snapshot-new ticket record_id hash s1
      ∙ ap (λ r. not (any (is_snapshot_of r hash) s1.snapshots)) same_id
      ∙ ap (λ xs. not (any (is_snapshot_of k.id hash) xs)) same_snapshots in
    let skip : ((is_new || route_recovered t i) && not (is_busy t.status)) ≡ false =
      subst (λ b. ((b || route_recovered t i) && not (is_busy t.status)) ≡ false) (sym fresh)
        (ground (arith, calm)) in
    let (returned, same_tasks, same_runs) =
      calm_refresh (identify ticket.provider_instance_id ticket.external_ticket_id) record_id is_new
        ticket i s s2 t here skip in
    (returned, same_tasks ∙ tasks, same_runs ∙ (kept s1).3 ∙ (kept s).1)
