-- ===== src/Routing/Counts.antt =====
-- A batch: its counters are what they count, its tickets are in the table, and tasks and runs stay
-- consistent.
use code_fixer.Base.{
  ℕ, ◌+◌, String, not, ◌||◌, any, ap, ◌∙◌, Option, none, some, List, [], ◌∷◌, ◌==◌, text_eq, length,
  length-append, ◌≡◌, refl, subst, arith, Bool-cases, Option-cases, inl, inr,
}
use code_fixer.Base.Table.{find, count}
use code_fixer.Base.Result.{Result, ok, err}
use code_fixer.Tasks.Table.{Tasks, TaskError}
use code_fixer.Tasks.Ingest.{Ingestion, ingest}
use code_fixer.Tasks.Stages.{set_cursor, is_cursor}
use code_fixer.Tasks.Consistency.{IsConsistent}
use code_fixer.Tasks.Intake.{ingest-IsConsistent, same-IsConsistent}
use code_fixer.Routing.Match.{RouteError}
use code_fixer.Routing.Route.{Ticket, RouteKind, RouteDecision, route_ticket}
use code_fixer.Tasks.Tickets.{has_key}
use code_fixer.Routing.Kinds.{
  before_intake, by_version, by_title, is_match, is_failure, routed, stores,
}
use code_fixer.Routing.Recorded.{Records, ingest_tickets-Records}
use code_fixer.Routing.Ingestion.{
  TicketBatch, IngestionError, no_route, Tally, BatchSummary, no_tally, Service, stored, add_task,
  and_then, store_ticket, take, ingest_ticket, ingest_tickets, close_batch, ingest_batch,
}

-- The tickets that the loop has counted.
abbrev seen : Tally → ℕ
seen y = length y.task_ids + y.ignored_before_intake + y.ignored_by_version + y.ignored_by_title

abbrev Balanced : ℕ → Tally → Type 0
Balanced n y = (seen y ≡ n) × (length y.task_ids ≡ y.matched + y.failed_route)

-- After so many tickets: the counters add up on a return, and the tables are consistent.
abbrev Counted : ℕ → Result IngestionError Tally × Tasks → Type 0
Counted n (ok y, t) = Balanced n y × IsConsistent t
Counted n (err e, t) = IsConsistent t

set_cursor-IsConsistent :
    (id : String) (value : Option String) (t : Tasks)
    → IsConsistent t
    → IsConsistent (set_cursor id value t)
unfolding set_cursor
set_cursor-IsConsistent id none t v = v
set_cursor-IsConsistent id (some value) t v = elim (Option-cases (find (is_cursor id) t.cursors)) [
  | inl absent ↦ rw (absent, set_cursor) (same-IsConsistent t _ refl refl v)
  | inr (row, found) ↦ rw (found, set_cursor) (same-IsConsistent t _ refl refl v)
]

set_cursor-tickets :
    (id : String) (value : Option String) (t : Tasks) → (set_cursor id value t).tickets ≡ t.tickets
unfolding set_cursor
set_cursor-tickets id none t = refl
set_cursor-tickets id (some value) t = elim (Option-cases (find (is_cursor id) t.cursors)) [
  | inl absent ↦ rw (absent, set_cursor) refl
  | inr (row, found) ↦ rw (found, set_cursor) refl
]

-- What a batch of tickets ends in, from the given tables.
abbrev pub Accounted :
    Service → List Ticket → Tasks → Result IngestionError BatchSummary × Tasks → Type 0
Accounted x tickets t (ok b, u) =
    (b.ingested + b.ignored_before_intake + b.ignored_by_version + b.ignored_by_title
      ≡ length tickets)
    × (b.ingested ≡ b.matched + b.routing_failed)
    × (b.ignored_before_intake ≡ count (routed x before_intake) tickets)
    × (b.ignored_by_version ≡ count (routed x by_version) tickets)
    × (b.ignored_by_title ≡ count (routed x by_title) tickets)
    × (b.matched ≡ count (routed x is_match) tickets)
    × (b.routing_failed ≡ count (routed x is_failure) tickets)
    × ((provider_id external_id : String)
        → any (has_key provider_id external_id) u.tickets ≡ (
            any (has_key provider_id external_id) t.tickets
            || any (stores x provider_id external_id) tickets))
    × IsConsistent u
Accounted x tickets t (err e, u) = IsConsistent u

module _ (x : Service) where
  add_task-Counted :
      (n : ℕ) (y : Tally) (r : Result TaskError String × Tasks)
      → seen y + 1 ≡ n
      → length y.task_ids + 1 ≡ y.matched + y.failed_route
      → IsConsistent r.1
      → Counted n (add_task y r)
  add_task-Counted n y (err e, t) h g v = v
  add_task-Counted n y (ok id, t) h g v =
      let grown = length-append y.task_ids (id ∷ []) in
      ((omega (arith, grown), omega (arith, grown)), v)

  store_ticket-Counted :
      (n place : ℕ) (ticket : Ticket) (route : RouteDecision) (y : Tally) (t : Tasks)
      → seen y + 1 ≡ n
      → length y.task_ids + 1 ≡ y.matched + y.failed_route
      → IsConsistent t
      → Counted n (store_ticket x place ticket route y t)
  unfolding store_ticket
  store_ticket-Counted n place ticket route y t h g v =
      let i : Ingestion = record {
        project_id = route.project_id;
        execution_mode = x.execution_mode;
        failure = route.failure;
        new_id = x.fresh place;
        now = x.now;
      } in
      add_task-Counted n y (ingest x.identify x.digest (stored x ticket) i t) h g
        (ingest-IsConsistent x.identify x.digest (stored x ticket) i t v)

  take-Counted :
      (n place : ℕ) (kind : RouteKind) (ticket : Ticket) (route : RouteDecision) (y : Tally)
      (t : Tasks)
      → Balanced n y
      → IsConsistent t
      → Counted (n + 1) (take x kind place ticket route y t)
  unfolding take
  take-Counted n place RouteKind.ignored_before_intake ticket route y t (h, g) v =
      ((omega arith, g), v)
  take-Counted n place RouteKind.ignored_by_version ticket route y t (h, g) v =
      ((omega arith, g), v)
  take-Counted n place RouteKind.ignored_by_title ticket route y t (h, g) v = ((omega arith, g), v)
  take-Counted n place RouteKind.matched ticket route y t (h, g) v =
      store_ticket-Counted (n + 1) place ticket route (record y { matched = y.matched + 1 }) t
        (omega arith) (omega arith) v
  take-Counted n place RouteKind.not_found ticket route y t (h, g) v =
      store_ticket-Counted (n + 1) place ticket route
        (record y { failed_route = y.failed_route + 1 }) t (omega arith) (omega arith) v
  take-Counted n place RouteKind.ambiguous ticket route y t (h, g) v =
      store_ticket-Counted (n + 1) place ticket route
        (record y { failed_route = y.failed_route + 1 }) t (omega arith) (omega arith) v

  ingest_ticket-Counted :
      (n : ℕ) (provider_id : String) (place : ℕ) (ticket : Ticket) (y : Tally) (t : Tasks)
      → Balanced n y
      → IsConsistent t
      → Counted (n + 1) (ingest_ticket x provider_id place ticket y t)
  unfolding ingest_ticket
  ingest_ticket-Counted n provider_id place ticket y t h v =
      elim (Bool-cases (not (ticket.provider_instance_id == provider_id))) [
        | inl foreign ↦ rw (foreign, ingest_ticket) v
        | inr own ↦ rw (own, ingest_ticket) (routed (route_ticket x.repr x.parse ticket x.projects))
      ]
    where
      routed :
          (r : Result RouteError RouteDecision)
          → Counted (n + 1) (elim r [
            | err e ↦ (err (no_route e), t)
            | ok route ↦ take x route.kind place ticket route y t
          ])
      routed (err e) = v
      routed (ok route) = take-Counted n place route.kind ticket route y t h v

  ingest_tickets-Counted :
      (n : ℕ) (provider_id : String) (place : ℕ) (tickets : List Ticket) (y : Tally) (t : Tasks)
      → Balanced n y
      → IsConsistent t
      → Counted (n + length tickets) (ingest_tickets x provider_id place tickets y t)
  unfolding ingest_tickets
  ingest_tickets-Counted n provider_id place [] y t (h, g) v = ((omega arith, g), v)
  ingest_tickets-Counted n provider_id place (ticket ∷ tickets) y t h v =
      rest (ingest_ticket x provider_id place ticket y t)
        (ingest_ticket-Counted n provider_id place ticket y t h v)
        (λ z u b w. ingest_tickets-Counted (n + 1) provider_id (place + 1) tickets z u b w)
    where
      rest :
          (r : Result IngestionError Tally × Tasks)
          → Counted (n + 1) r
          → ((z : Tally) (u : Tasks)
              → Balanced (n + 1) z
              → IsConsistent u
              → Counted
                  (n + 1 + length tickets)
                  (ingest_tickets x provider_id (place + 1) tickets z u))
          → Counted
              (n + length (ticket ∷ tickets))
              (and_then (ingest_tickets x provider_id (place + 1) tickets) r)
      rest (err e, u) w later = w
      rest (ok z, u) (b, w) later =
          subst (λ k. Counted k (ingest_tickets x provider_id (place + 1) tickets z u))
            (omega arith) (later z u b w)

  -- From consistent tables, a batch leaves consistent tables, also where a ticket of another provider,
  -- a routing error or a storage error stops it. Where it returns, each of the three counters of
  -- ignored tickets, the matched ones and the failed ones is the number of the batch's tickets that
  -- `route_ticket` decides so, the ingested ones are those that matched and those that failed, and
  -- together with the ignored ones they are all the tickets. Then the table has a ticket under a
  -- provider and an external id exactly if it had one before or the batch has a ticket of these two
  -- that matched or failed.
  pub ingest_batch-Accounted :
      (provider_id : String) (batch : TicketBatch) (t : Tasks)
      → IsConsistent t
      → Accounted x batch.tickets t (ingest_batch x provider_id batch t)
  unfolding ingest_batch
  ingest_batch-Accounted provider_id batch t v =
      closed (ingest_tickets x provider_id 0 batch.tickets no_tally t)
        (subst (λ k. Counted k (ingest_tickets x provider_id 0 batch.tickets no_tally t))
          (omega arith)
          (ingest_tickets-Counted 0 provider_id 0 batch.tickets no_tally t (refl, refl) v))
        (ingest_tickets-Records x provider_id 0 batch.tickets no_tally t)
    where
      closed :
          (r : Result IngestionError Tally × Tasks)
          → Counted (length batch.tickets) r
          → Records x batch.tickets no_tally t r
          → Accounted x batch.tickets t (close_batch x provider_id batch r)
      closed (err e, u) w recorded = w
      closed (ok y, u) ((h, g), w) (a, b, c, d, e, f) = (
        h,
        g,
        omega arith,
        omega arith,
        omega arith,
        omega arith,
        omega arith,
        (λ p q.
            ap (any (has_key p q)) (set_cursor-tickets provider_id batch.next_cursor u) ∙ f p q),
        set_cursor-IsConsistent provider_id batch.next_cursor u w,
      )
