-- ===== src/Routing/Ingestion.antt =====
-- ingestion.py: a batch of tickets is routed and stored. A provider is the call `poll`; `fresh` gives
-- the uuid4() of each ticket's run, by its place in the batch.
use code_fixer.Base.{
  ℕ, ◌+◌, String, not, Option, List, [], ◌∷◌, ◌++◌, ◌==◌, text_eq, if◌then◌else◌, length,
}
use code_fixer.Base.Result.{Result, ok, err}
use code_fixer.Tasks.Table.{Tasks, TaskError}
use code_fixer.Tasks.Ingest.{IngestedTicket, ingest}
use code_fixer.Tasks.Stages.{get_cursor, set_cursor}
use code_fixer.Routing.Value.{Value, Fields}
use code_fixer.Routing.Match.{RouteError}
use code_fixer.Routing.Route.{Ticket, RoutingProject, RouteKind, RouteDecision, route_ticket}

pub record TicketBatch : Type 0 where
  pub tickets : List Ticket
  pub next_cursor : Option String
  pub raw_count : ℕ

pub data IngestionError : Type 0 where
  foreign_ticket : IngestionError
  no_route : RouteError → IngestionError
  not_stored : TaskError → IngestionError
  not_polled : String → IngestionError

-- The variables of the loop.
pub record Tally : Type 0 where
  pub matched : ℕ
  pub failed_route : ℕ
  pub ignored_before_intake : ℕ
  pub ignored_by_version : ℕ
  pub ignored_by_title : ℕ
  pub task_ids : List String

pub record BatchSummary : Type 0 where
  pub provider_id : String
  pub raw_count : ℕ
  pub ingested : ℕ
  pub ignored_before_intake : ℕ
  pub ignored_by_version : ℕ
  pub ignored_by_title : ℕ
  pub matched : ℕ
  pub routing_failed : ℕ
  pub next_cursor : Option String
  pub task_ids : List String

pub record TicketProvider : Type 0 where
  pub provider_id : String
  pub poll : Option String → Result String TicketBatch

abbrev pub no_tally : Tally
no_tally = record {
  matched = 0;
  failed_route = 0;
  ignored_before_intake = 0;
  ignored_by_version = 0;
  ignored_by_title = 0;
  task_ids = [];
}

-- What the parameters of IngestionService and the third-party code give.
pub record Service : Type 0 where
  pub repr : Value → String
  pub parse : String → Option ℕ
  pub canonical : Fields → String
  pub identify : String → String → String
  pub digest : String → String
  pub projects : List RoutingProject
  pub execution_mode : String
  pub fresh : ℕ → String
  pub now : ℕ

-- The ticket as it is stored, with the canonical JSON of its payload.
abbrev pub stored : Service → Ticket → IngestedTicket
stored x ticket = record {
  provider_instance_id = ticket.provider_instance_id;
  external_ticket_id = ticket.external_ticket_id;
  title = ticket.title;
  payload_json = x.canonical ticket.payload;
  external_version = ticket.external_version;
  eligible = ticket.eligible;
}

abbrev pub add_task : Tally → Result TaskError String × Tasks → Result IngestionError Tally × Tasks
add_task y (err e, t) = (err (not_stored e), t)
add_task y (ok id, t) = (ok (record y { task_ids = y.task_ids ++ id ∷ [] }), t)

-- An exception ends the loop.
abbrev pub and_then :
    (Tally → Tasks → Result IngestionError Tally × Tasks)
    → Result IngestionError Tally × Tasks
    → Result IngestionError Tally × Tasks
and_then k (err e, t) = (err e, t)
and_then k (ok y, t) = k y t

module _ (x : Service) where
  unfoldable pub store_ticket :
      (place : ℕ) → Ticket → RouteDecision → Tally → Tasks → Result IngestionError Tally × Tasks
  unfolding ingest
  store_ticket place ticket route y t = add_task y (
      ingest x.identify x.digest (stored x ticket)
        (record {
          project_id = route.project_id;
          execution_mode = x.execution_mode;
          failure = route.failure;
          new_id = x.fresh place;
          now = x.now;
        })
        t)

  -- What the kind of a route leads to.
  unfoldable pub take :
      RouteKind
      → (place : ℕ) → Ticket
      → RouteDecision
      → Tally
      → Tasks
      → Result IngestionError Tally × Tasks
  unfolding store_ticket
  take RouteKind.ignored_before_intake place ticket route y t =
      (ok (record y { ignored_before_intake = y.ignored_before_intake + 1 }), t)
  take RouteKind.ignored_by_version place ticket route y t =
      (ok (record y { ignored_by_version = y.ignored_by_version + 1 }), t)
  take RouteKind.ignored_by_title place ticket route y t =
      (ok (record y { ignored_by_title = y.ignored_by_title + 1 }), t)
  take RouteKind.matched place ticket route y t =
      store_ticket place ticket route (record y { matched = y.matched + 1 }) t
  take RouteKind.not_found place ticket route y t =
      store_ticket place ticket route (record y { failed_route = y.failed_route + 1 }) t
  take RouteKind.ambiguous place ticket route y t =
      store_ticket place ticket route (record y { failed_route = y.failed_route + 1 }) t

  -- The body of the loop.
  unfoldable pub ingest_ticket :
      (provider_id : String) (place : ℕ)
      → Ticket
      → Tally
      → Tasks
      → Result IngestionError Tally × Tasks
  unfolding take route_ticket
  ingest_ticket provider_id place ticket y t =
      if not (ticket.provider_instance_id == provider_id)
      then (err foreign_ticket, t)
      else elim (route_ticket x.repr x.parse ticket x.projects) [
        | err e ↦ (err (no_route e), t)
        | ok route ↦ take route.kind place ticket route y t
      ]

  -- The loop over the tickets from the given place on.
  unfoldable pub ingest_tickets :
      (provider_id : String) (place : ℕ)
      → List Ticket
      → Tally
      → Tasks
      → Result IngestionError Tally × Tasks
  unfolding ingest_ticket
  ingest_tickets provider_id place [] y t = (ok y, t)
  ingest_tickets provider_id place (ticket ∷ tickets) y t =
      and_then (ingest_tickets provider_id (place + 1) tickets)
        (ingest_ticket provider_id place ticket y t)

  abbrev pub summarize : (provider_id : String) → TicketBatch → Tally → BatchSummary
  summarize provider_id batch y = record {
    provider_id = provider_id;
    raw_count = batch.raw_count;
    ingested = length y.task_ids;
    ignored_before_intake = y.ignored_before_intake;
    ignored_by_version = y.ignored_by_version;
    ignored_by_title = y.ignored_by_title;
    matched = y.matched;
    routing_failed = y.failed_route;
    next_cursor = batch.next_cursor;
    task_ids = y.task_ids;
  }

  abbrev pub close_batch :
      (provider_id : String)
      → TicketBatch
      → Result IngestionError Tally × Tasks
      → Result IngestionError BatchSummary × Tasks
  close_batch provider_id batch (err e, t) = (err e, t)
  close_batch provider_id batch (ok y, t) =
      (ok (summarize provider_id batch y), set_cursor provider_id batch.next_cursor t)

  unfoldable pub ingest_batch :
      (provider_id : String) → TicketBatch → Tasks → Result IngestionError BatchSummary × Tasks
  unfolding ingest_tickets set_cursor
  ingest_batch provider_id batch t =
      close_batch provider_id batch (ingest_tickets provider_id 0 batch.tickets no_tally t)

  unfoldable pub poll_configured_provider :
      TicketProvider → Tasks → Result IngestionError BatchSummary × Tasks
  unfolding get_cursor ingest_batch
  poll_configured_provider provider t = elim (provider.poll (get_cursor provider.provider_id t)) [
    | err e ↦ (err (not_polled e), t)
    | ok batch ↦ ingest_batch provider.provider_id batch t
  ]
