-- ===== src/Tasks/Tickets.antt =====
-- Which tickets the table holds after `TaskStore.ingest`.
use code_fixer.Base.{
  ℕ, String, Bool, not, ◌&&◌, ◌||◌, none, some, ◌==◌, text_eq, number_eq, any, any-append, ◌≡◌,
  refl, sym, ap, ◌∙◌, arith, inl, inr, Bool-cases, Option-cases, eq_iff,
}
use code_fixer.Base.Table.{find, update}
use code_fixer.Base.Query.{any-update, any-of-find, find-passes}
use code_fixer.Base.Result.{Result, ok, err, settle}
use code_fixer.Tasks.Table.{TicketRecord, TaskStatus, Task, Tasks, TaskError, is_task, is_busy}
use code_fixer.Tasks.Store.{create_run}
use code_fixer.Tasks.Ingest.{
  IngestedTicket, Ingestion, upsert_ticket, upsert_snapshot, is_snapshot_of, is_ticket_of,
  ingested_status, run_if_queued, create_task, route_recovered, refresh_task, ingest_locked, ingest,
}

-- The row of this external ticket of this provider.
abbrev pub has_key : (provider_id external_id : String) → TicketRecord → Bool
has_key provider_id external_id k =
    k.provider_instance_id == provider_id && k.external_ticket_id == external_id

module _ (provider_id external_id : String) where
  abbrev stored_in : Tasks → Bool
  stored_in s = any (has_key provider_id external_id) s.tickets

  abbrev is_keyed : IngestedTicket → Bool
  is_keyed ticket =
      ticket.provider_instance_id == provider_id && ticket.external_ticket_id == external_id

  known_key :
      (ticket : IngestedTicket) (s : Tasks) (row : TicketRecord)
      → find (is_ticket_of ticket) s.tickets ≡ some row
      → (stored_in s || is_keyed ticket) ≡ stored_in s
  known_key ticket s row found = elim (Bool-cases (is_keyed ticket)) [
    | inr e ↦ ground (arith, e)
    | inl e ↦
        let hit = find-passes (is_ticket_of ticket) s.tickets row found in
        let there =
          any-of-find (is_ticket_of ticket) (has_key provider_id external_id) s.tickets row found (
            ground (
              arith,
              eq_iff row.provider_instance_id ticket.provider_instance_id,
              eq_iff row.external_ticket_id ticket.external_ticket_id,
            )) in
        ground (arith, there)
  ]

  upsert_ticket-stored :
      (ticket : IngestedTicket) (s : Tasks)
      → stored_in (upsert_ticket ticket s).1 ≡ (stored_in s || is_keyed ticket)
  unfolding upsert_ticket
  upsert_ticket-stored ticket s = elim (Option-cases (find (is_ticket_of ticket) s.tickets)) [
    | inr (row, found) ↦
        rw (found, upsert_ticket)
          (any-update (has_key provider_id external_id) (has_key provider_id external_id)
              (λ k. k.id == row.id)
              (λ k. record k {
                title = ticket.title;
                eligible = ticket.eligible;
                external_version = ticket.external_version;
              })
              s.tickets (λ k. ground arith)
            ∙ sym (known_key ticket s row found))
    | inl absent ↦
        rw (absent, upsert_ticket)
          (any-append (has_key provider_id external_id) s.tickets _ ∙ ground arith)
  ]

  upsert_snapshot-stored :
      (ticket : IngestedTicket) (id : ℕ) (hash : String) (s : Tasks)
      → stored_in (upsert_snapshot ticket id hash s).1 ≡ stored_in s
  unfolding upsert_snapshot
  upsert_snapshot-stored ticket id hash s =
      elim (Option-cases (find (is_snapshot_of id hash) s.snapshots)) [
        | inl absent ↦ rw (absent, upsert_snapshot) (pointed s.next_snapshot)
        | inr (row, found) ↦ rw (found, upsert_snapshot) (pointed row.id)
      ]
    where
      pointed :
          (n : ℕ)
          → any (has_key provider_id external_id) (
              update
                (λ (k : TicketRecord). k.id == id)
                (λ k. record k { current_snapshot_id = some n })
                s.tickets)
            ≡ stored_in s
      pointed n =
          any-update (has_key provider_id external_id) (has_key provider_id external_id)
            (λ k. k.id == id) (λ k. record k { current_snapshot_id = some n }) s.tickets
            (λ k. ground arith)

create_run-tickets :
    (new_id task_id mode : String) (now : ℕ) (s : Tasks)
    → (create_run new_id task_id mode now s).1.tickets ≡ s.tickets
unfolding create_run
create_run-tickets new_id task_id mode now s = ground arith

run_if_queued-tickets :
    (status : TaskStatus) (new_id task_id mode : String) (now : ℕ) (s : Tasks)
    → (run_if_queued status new_id task_id mode now s).1.tickets ≡ s.tickets
run_if_queued-tickets TaskStatus.queued new_id task_id mode now s =
    create_run-tickets new_id task_id mode now s
run_if_queued-tickets TaskStatus.awaiting_start new_id task_id mode now s = refl
run_if_queued-tickets TaskStatus.running new_id task_id mode now s = refl
run_if_queued-tickets TaskStatus.cancel_requested new_id task_id mode now s = refl
run_if_queued-tickets TaskStatus.completed new_id task_id mode now s = refl
run_if_queued-tickets TaskStatus.failed new_id task_id mode now s = refl
run_if_queued-tickets TaskStatus.canceled new_id task_id mode now s = refl

create_task-tickets :
    (id : String) (record_id : ℕ) (ticket : IngestedTicket) (i : Ingestion) (s : Tasks)
    → (create_task id record_id ticket i s).1.tickets ≡ s.tickets
unfolding create_task
create_task-tickets id record_id ticket i s = elim (Bool-cases (any (is_task id) s.tasks)) [
  | inl taken ↦ rw (taken, create_task) refl
  | inr fresh ↦
      rw (fresh, create_task)
        (run_if_queued-tickets (ingested_status ticket i.execution_mode i.failure) i.new_id id
          i.execution_mode i.now _)
]

refresh_task-tickets :
    (task : Task) (is_new : Bool) (ticket : IngestedTicket) (i : Ingestion) (s : Tasks)
    → (refresh_task task is_new ticket i s).1.tickets ≡ s.tickets
unfolding refresh_task
refresh_task-tickets task is_new ticket i s =
    elim (Bool-cases ((is_new || route_recovered task i) && not (is_busy task.status))) [
      | inr left ↦ rw (left, refresh_task) refl
      | inl taken ↦
          rw (taken, refresh_task)
            (run_if_queued-tickets (ingested_status ticket i.execution_mode i.failure) i.new_id
              task.id i.execution_mode i.now _)
    ]

settle-done :
    {S E A : Type 0} (s : S) (r : Result E A × S) (a : A)
    → (settle s r).0 ≡ ok a
    → (settle s r).1 ≡ r.1
settle-done s (ok b, s') a h = refl
settle-done s (err e, s') a h = absurd (ground arith)

brought-tickets :
    (id : String) (record_id : ℕ) (is_new : Bool) (ticket : IngestedTicket) (i : Ingestion)
    (s : Tasks)
    → let r : Result TaskError String × Tasks =
        elim (find (λ t. t.ticket_record_id == record_id) s.tasks) [
          | none ↦ create_task id record_id ticket i s
          | some task ↦ refresh_task task is_new ticket i s
        ] in
      r.1.tickets ≡ s.tickets
brought-tickets id record_id is_new ticket i s =
    elim (Option-cases (find (λ (t : Task). t.ticket_record_id == record_id) s.tasks)) [
      | inl absent ↦ rw absent (create_task-tickets id record_id ticket i s)
      | inr (t, found) ↦ rw found (refresh_task-tickets t is_new ticket i s)
    ]

-- A ticket that is ingested is in the table, and every other key is there exactly if it was before.
pub ingest-stored :
    (provider_id external_id : String) (identify : String → String → String)
    (digest : String → String) (ticket : IngestedTicket) (i : Ingestion) (s : Tasks) (id : String)
    → (ingest identify digest ticket i s).0 ≡ ok id
    → any (has_key provider_id external_id) (ingest identify digest ticket i s).1.tickets ≡ (
        any (has_key provider_id external_id) s.tickets
        || (ticket.provider_instance_id == provider_id && ticket.external_ticket_id == external_id))
unfolding ingest ingest_locked
ingest-stored provider_id external_id identify digest ticket i s id h =
    let (record_id, s1) = upsert_ticket ticket s in
    let hash = digest ticket.payload_json in
    let ((is_new, snapshot_id), s2) = upsert_snapshot ticket record_id hash s1 in
    let done = settle-done s (ingest_locked identify digest ticket i s) id h in
    ap (λ (u : Tasks). any (has_key provider_id external_id) u.tickets) done
    ∙ ap (any (has_key provider_id external_id)) (
        brought-tickets (identify ticket.provider_instance_id ticket.external_ticket_id) record_id
          is_new ticket i s2)
    ∙ upsert_snapshot-stored provider_id external_id ticket record_id hash s1
    ∙ upsert_ticket-stored provider_id external_id ticket s
