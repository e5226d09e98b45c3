-- ===== src/Tasks/Ingest.antt =====
-- `TaskStore.ingest`, and the methods on stages, cursors and the queue. `identify` is _task_id, and
-- `digest` the SHA-256 of the canonical JSON of a payload.
use code_fixer.Base.{
  ℕ, ◌+◌, String, Bool, true, false, not, ◌&&◌, ◌||◌, Option, none, some, [], ◌∷◌, ◌++◌, ◌==◌,
  text_eq, number_eq, if◌then◌else◌, any,
}
use code_fixer.Base.Table.{find, update}
use code_fixer.Base.Result.{Result, ok, err, transaction}
use code_fixer.Tasks.Table.{
  TaskStatus, Failure, TicketRecord, Snapshot, Task, Tasks, TaskError, integrity_error,
  unbound_project_id, is_busy, is_task,
}
use code_fixer.Tasks.Store.{event, write_task, create_run}

pub record IngestedTicket : Type 0 where
  pub provider_instance_id : String
  pub external_ticket_id : String
  pub title : String
  pub payload_json : String
  pub external_version : Option String
  pub eligible : Bool

abbrev pub is_ticket_of : IngestedTicket → TicketRecord → Bool
is_ticket_of ticket k =
    k.provider_instance_id == ticket.provider_instance_id
    && k.external_ticket_id == ticket.external_ticket_id

-- The row of the ticket, inserted or rewritten.
unfoldable pub upsert_ticket : IngestedTicket → Tasks → ℕ × Tasks
upsert_ticket ticket s = elim (find (is_ticket_of ticket) s.tickets) [
  | some row ↦ (
    row.id,
    record s {
      tickets =
          update (λ k. k.id == row.id)
            (λ k. record k {
              title = ticket.title;
              eligible = ticket.eligible;
              external_version = ticket.external_version;
            })
            s.tickets;
    },
  )
  | none ↦ (
    s.next_ticket,
    record s {
      tickets =
          s.tickets
          ++ record {
            id = s.next_ticket;
            provider_instance_id = ticket.provider_instance_id;
            external_ticket_id = ticket.external_ticket_id;
            title = ticket.title;
            eligible = ticket.eligible;
            external_version = ticket.external_version;
            current_snapshot_id = none;
          }
            ∷ [];
      next_ticket = s.next_ticket + 1;
    },
  )
]

abbrev pub is_snapshot_of : ℕ → String → Snapshot → Bool
is_snapshot_of record_id content_hash x =
    x.ticket_record_id == record_id && x.content_hash == content_hash

-- The snapshot of the content and whether it is new; it becomes the ticket's current one.
unfoldable pub upsert_snapshot : IngestedTicket → ℕ → String → Tasks → (Bool × ℕ) × Tasks
upsert_snapshot ticket record_id content_hash s =
    let point = λ (snapshot_id : ℕ).
      update (λ (k : TicketRecord). k.id == record_id)
        (λ k. record k { current_snapshot_id = some snapshot_id }) s.tickets in
    elim (find (is_snapshot_of record_id content_hash) s.snapshots) [
      | some row ↦ ((false, row.id), record s { tickets = point row.id })
      | none ↦ (
        (true, s.next_snapshot),
        record s {
          tickets = point s.next_snapshot;
          snapshots =
              s.snapshots
              ++ record {
                id = s.next_snapshot;
                ticket_record_id = record_id;
                content_hash = content_hash;
                title = ticket.title;
                payload_json = ticket.payload_json;
                external_version = ticket.external_version;
              }
                ∷ [];
          next_snapshot = s.next_snapshot + 1;
        },
      )
    ]

-- `project_id or UNBOUND_PROJECT_ID`
abbrev pub binding : Option String → String
binding none = unbound_project_id
binding (some project_id) = if project_id == "" then unbound_project_id else project_id

abbrev pub mode_status : String → TaskStatus
mode_status execution_mode =
    if execution_mode == "automatic" then TaskStatus.queued else TaskStatus.awaiting_start

abbrev pub ingested_status : IngestedTicket → String → Option Failure → TaskStatus
ingested_status ticket execution_mode (some failure) = TaskStatus.failed
ingested_status ticket execution_mode none =
    if ticket.eligible then mode_status execution_mode else TaskStatus.canceled

-- A run is created for the status queued only.
abbrev pub run_if_queued :
    TaskStatus
    → (new_id task_id execution_mode : String) → ℕ
    → Tasks
    → Result TaskError String × Tasks
run_if_queued TaskStatus.queued new_id task_id mode now s = create_run new_id task_id mode now s
run_if_queued TaskStatus.awaiting_start new_id task_id mode now s = (ok task_id, s)
run_if_queued TaskStatus.running new_id task_id mode now s = (ok task_id, s)
run_if_queued TaskStatus.cancel_requested new_id task_id mode now s = (ok task_id, s)
run_if_queued TaskStatus.completed new_id task_id mode now s = (ok task_id, s)
run_if_queued TaskStatus.failed new_id task_id mode now s = (ok task_id, s)
run_if_queued TaskStatus.canceled new_id task_id mode now s = (ok task_id, s)

abbrev pub is_some : {A : Type 0} → Option A → Bool
is_some none = false
is_some (some a) = true

-- What `ingest` is called with besides the ticket, and the values it draws.
pub record Ingestion : Type 0 where
  pub project_id : Option String
  pub execution_mode : String
  pub failure : Option Failure
  pub new_id : String
  pub now : ℕ

abbrev pub new_task : String → ℕ → IngestedTicket → Ingestion → Task
new_task id record_id ticket i = record {
  id = id;
  ticket_record_id = record_id;
  project_id = binding i.project_id;
  status = ingested_status ticket i.execution_mode i.failure;
  result = none;
  current_run_id = none;
  failure = i.failure;
}

-- The branch of a ticket without a task.
unfoldable pub create_task :
    String → ℕ → IngestedTicket → Ingestion → Tasks → Result TaskError String × Tasks
create_task id record_id ticket i s =
    if any (is_task id) s.tasks
    then (err integrity_error, s)
    else run_if_queued (ingested_status ticket i.execution_mode i.failure) i.new_id id
        i.execution_mode i.now
        (event "ticket_ingested" id none
          (record s { tasks = s.tasks ++ new_task id record_id ticket i ∷ [] }))

abbrev pub reroute : IngestedTicket → Ingestion → Task → Task
reroute ticket i t = record t {
  project_id = binding i.project_id;
  status = ingested_status ticket i.execution_mode i.failure;
  failure = i.failure;
}

abbrev pub route_recovered : Task → Ingestion → Bool
route_recovered task i = task.project_id == unbound_project_id && is_some i.project_id

-- The branch of a ticket with a task: new content or a recovered route restart a task at rest.
unfoldable pub refresh_task :
    Task → Bool → IngestedTicket → Ingestion → Tasks → Result TaskError String × Tasks
refresh_task task is_new_snapshot ticket i s =
    let s' = event "ticket_updated" task.id none s in
    if (is_new_snapshot || route_recovered task i) && not (is_busy task.status)
    then run_if_queued (ingested_status ticket i.execution_mode i.failure) i.new_id task.id
        i.execution_mode i.now (write_task task.id (reroute ticket i) s')
    else (ok task.id, s')

unfoldable pub ingest_locked :
    (identify : String → String → String) (digest : String → String)
    → IngestedTicket
    → Ingestion
    → Tasks
    → Result TaskError String × Tasks
ingest_locked identify digest ticket i s =
    let (record_id, s1) = upsert_ticket ticket s in
    let ((is_new_snapshot, snapshot_id), s2) =
      upsert_snapshot ticket record_id (digest ticket.payload_json) s1 in
    elim (find (λ t. t.ticket_record_id == record_id) s2.tasks) [
      | none ↦
          create_task (identify ticket.provider_instance_id ticket.external_ticket_id) record_id
            ticket i s2
      | some task ↦ refresh_task task is_new_snapshot ticket i s2
    ]

unfoldable pub ingest :
    (identify : String → String → String) (digest : String → String)
    → IngestedTicket
    → Ingestion
    → Tasks
    → Result TaskError String × Tasks
ingest identify digest ticket i s = transaction (ingest_locked identify digest ticket i) s
