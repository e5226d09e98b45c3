-- ===== src/Routing/Recorded.antt =====
-- What a batch of tickets leaves behind: each counter counts the tickets that were routed that way,
-- and the table of tickets holds the keys of the stored ones besides those that it held.
use code_fixer.Base.{
  ℕ, ◌+◌, String, Bool, true, not, ◌&&◌, ◌||◌, List, [], ◌∷◌, ◌++◌, ◌==◌, text_eq, any,
  if◌then◌else◌, ◌≡◌, refl, ◌∙◌, arith, inl, inr, Bool-cases,
}
use code_fixer.Base.Result.{Result, ok, err}
use code_fixer.Tasks.Table.{Tasks, TaskError}
use code_fixer.Tasks.Ingest.{Ingestion, ingest}
use code_fixer.Tasks.Tickets.{has_key, ingest-stored}
use code_fixer.Routing.Match.{RouteError}
use code_fixer.Routing.Route.{Ticket, RouteKind, RouteDecision, route_ticket}
use code_fixer.Routing.Kinds.{
  before_intake, by_version, by_title, is_match, is_failure, decided, routed, Recorded,
}
use code_fixer.Routing.Ingestion.{
  IngestionError, no_route, Tally, Service, stored, add_task, and_then, store_ticket, take,
  ingest_ticket, ingest_tickets,
}

module _ (x : Service) where
  Recorded-cons :
      (ticket : Ticket) (tickets : List Ticket) (y z w : Tally) (t u v : Tasks)
      → Recorded x (ticket ∷ []) y t z u
      → Recorded x tickets z u w v
      → Recorded x (ticket ∷ tickets) y t w v
  Recorded-cons ticket tickets y z w t u v (a, b, c, d, e, f) (a', b', c', d', e', f') = (
    omega arith,
    omega arith,
    omega arith,
    omega arith,
    omega arith,
    (λ p q. ground (arith, f p q, f' p q)),
  )

  -- The result records the tickets, if there is one.
  abbrev pub Records : List Ticket → Tally → Tasks → Result IngestionError Tally × Tasks → Type 0
  Records tickets y t (ok z, u) = Recorded x tickets y t z u
  Records tickets y t (err e, u) = Unit {0}

  abbrev one_if : Bool → ℕ
  one_if b = if b then 1 else 0

  -- The counters after one more ticket of the given kind.
  abbrev Bumped : RouteKind → Tally → Tally → Type 0
  Bumped kind y z =
      (z.ignored_before_intake ≡ y.ignored_before_intake + one_if (before_intake kind))
      × (z.ignored_by_version ≡ y.ignored_by_version + one_if (by_version kind))
      × (z.ignored_by_title ≡ y.ignored_by_title + one_if (by_title kind))
      × (z.matched ≡ y.matched + one_if (is_match kind))
      × (z.failed_route ≡ y.failed_route + one_if (is_failure kind))

  -- One ticket, of the given kind.
  one-Recorded :
      (kind : RouteKind) (ticket : Ticket) (y z : Tally) (t u : Tasks)
      → ((test : RouteKind → Bool) → routed x test ticket ≡ test kind)
      → Bumped kind y z
      → ((provider_id external_id : String)
          → any (has_key provider_id external_id) u.tickets ≡ (
              any (has_key provider_id external_id) t.tickets
              || ((is_match kind || is_failure kind)
                  && (ticket.provider_instance_id == provider_id
                      && ticket.external_ticket_id == external_id))))
      → Recorded x (ticket ∷ []) y t z u
  one-Recorded kind ticket y z t u h (a, b, c, d, e) f = (
    ground (arith, a, h before_intake),
    ground (arith, b, h by_version),
    ground (arith, c, h by_title),
    ground (arith, d, h is_match),
    ground (arith, e, h is_failure),
    (λ p q. f p q ∙ ground (arith, h is_match, h is_failure)),
  )

  add_task-Records :
      (kind : RouteKind) (ticket : Ticket) (y z : Tally) (t : Tasks)
      (r : Result TaskError String × Tasks)
      → ((test : RouteKind → Bool) → routed x test ticket ≡ test kind)
      → Bumped kind y z
      → (is_match kind || is_failure kind) ≡ true
      → ((id provider_id external_id : String)
          → r.0 ≡ ok id
          → any (has_key provider_id external_id) r.1.tickets ≡ (
              any (has_key provider_id external_id) t.tickets
              || (ticket.provider_instance_id == provider_id
                  && ticket.external_ticket_id == external_id)))
      → Records (ticket ∷ []) y t (add_task z r)
  add_task-Records kind ticket y z t (err e, u) h bumped kept there = tt
  add_task-Records kind ticket y z t (ok id, u) h bumped kept there =
      one-Recorded kind ticket y (record z { task_ids = z.task_ids ++ id ∷ [] }) t u h bumped
        (λ p q. there id p q refl ∙ ground (arith, kept))

  store_ticket-Records :
      (kind : RouteKind) (place : ℕ) (ticket : Ticket) (route : RouteDecision) (y z : Tally)
      (t : Tasks)
      → ((test : RouteKind → Bool) → routed x test ticket ≡ test kind)
      → Bumped kind y z
      → (is_match kind || is_failure kind) ≡ true
      → Records (ticket ∷ []) y t (store_ticket x place ticket route z t)
  unfolding store_ticket
  store_ticket-Records kind place ticket route y z t h bumped kept =
      let i : Ingestion = record {
        project_id = route.project_id;
        execution_mode = x.execution_mode;
        failure = route.failure;
        new_id = x.fresh place;
        now = x.now;
      } in
      add_task-Records kind ticket y z t (ingest x.identify x.digest (stored x ticket) i t) h bumped
        kept (λ id p q done. ingest-stored p q x.identify x.digest (stored x ticket) i t id done)

  take-Records :
      (kind : RouteKind) (place : ℕ) (ticket : Ticket) (route : RouteDecision) (y : Tally)
      (t : Tasks)
      → ((test : RouteKind → Bool) → routed x test ticket ≡ test kind)
      → Records (ticket ∷ []) y t (take x kind place ticket route y t)
  unfolding take
  take-Records RouteKind.ignored_before_intake place ticket route y t h =
      one-Recorded RouteKind.ignored_before_intake ticket y
        (record y { ignored_before_intake = y.ignored_before_intake + 1 }) t t h
        (refl, omega arith, omega arith, omega arith, omega arith) (λ p q. ground arith)
  take-Records RouteKind.ignored_by_version place ticket route y t h =
      one-Recorded RouteKind.ignored_by_version ticket y
        (record y { ignored_by_version = y.ignored_by_version + 1 }) t t h
        (omega arith, refl, omega arith, omega arith, omega arith) (λ p q. ground arith)
  take-Records RouteKind.ignored_by_title place ticket route y t h =
      one-Recorded RouteKind.ignored_by_title ticket y
        (record y { ignored_by_title = y.ignored_by_title + 1 }) t t h
        (omega arith, omega arith, refl, omega arith, omega arith) (λ p q. ground arith)
  take-Records RouteKind.matched place ticket route y t h =
      store_ticket-Records RouteKind.matched place ticket route y
        (record y { matched = y.matched + 1 }) t h
        (omega arith, omega arith, omega arith, refl, omega arith) refl
  take-Records RouteKind.not_found place ticket route y t h =
      store_ticket-Records RouteKind.not_found place ticket route y
        (record y { failed_route = y.failed_route + 1 }) t h
        (omega arith, omega arith, omega arith, omega arith, refl) refl
  take-Records RouteKind.ambiguous place ticket route y t h =
      store_ticket-Records RouteKind.ambiguous place ticket route y
        (record y { failed_route = y.failed_route + 1 }) t h
        (omega arith, omega arith, omega arith, omega arith, refl) refl

  ingest_ticket-Records :
      (provider_id : String) (place : ℕ) (ticket : Ticket) (y : Tally) (t : Tasks)
      → Records (ticket ∷ []) y t (ingest_ticket x provider_id place ticket y t)
  unfolding ingest_ticket
  ingest_ticket-Records provider_id place ticket y t =
      elim (Bool-cases (not (ticket.provider_instance_id == provider_id))) [
        | inl foreign ↦ rw (foreign, ingest_ticket) tt
        | inr own ↦
            rw (own, ingest_ticket)
              (decision (route_ticket x.repr x.parse ticket x.projects) (λ test. refl))
      ]
    where
      decision :
          (r : Result RouteError RouteDecision)
          → ((test : RouteKind → Bool) → routed x test ticket ≡ decided test r)
          → Records (ticket ∷ []) y t (elim r [
            | err e ↦ (err (no_route e), t)
            | ok route ↦ take x route.kind place ticket route y t
          ])
      decision (err e) h = tt
      decision (ok route) h = take-Records route.kind place ticket route y t h

  pub ingest_tickets-Records :
      (provider_id : String) (place : ℕ) (tickets : List Ticket) (y : Tally) (t : Tasks)
      → Records tickets y t (ingest_tickets x provider_id place tickets y t)
  unfolding ingest_tickets
  ingest_tickets-Records provider_id place [] y t =
      (omega arith, omega arith, omega arith, omega arith, omega arith, (λ p q. ground arith))
  ingest_tickets-Records provider_id place (ticket ∷ tickets) y t =
      rest (ingest_ticket x provider_id place ticket y t)
        (ingest_ticket-Records provider_id place ticket y t)
        (λ z u. ingest_tickets-Records provider_id (place + 1) tickets z u)
    where
      rest :
          (r : Result IngestionError Tally × Tasks)
          → Records (ticket ∷ []) y t r
          → ((z : Tally) (u : Tasks)
              → Records tickets z u (ingest_tickets x provider_id (place + 1) tickets z u))
          → Records
              (ticket ∷ tickets)
              y
              t
              (and_then (ingest_tickets x provider_id (place + 1) tickets) r)
      rest (err e, u) one later = tt
      rest (ok z, u) one later =
          onwards z u one (ingest_tickets x provider_id (place + 1) tickets z u) (later z u)
        where
          onwards :
              (z : Tally) (u : Tasks)
              → Recorded x (ticket ∷ []) y t z u
              → (r : Result IngestionError Tally × Tasks) → Records tickets z u r
              → Records (ticket ∷ tickets) y t r
          onwards z u one (err e, v) more = tt
          onwards z u one (ok w, v) more = Recorded-cons ticket tickets y z w t u v one more
