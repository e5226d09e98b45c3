-- ===== src/Routing/Kinds.antt =====
-- The tickets of a batch by the way they were routed, and what it is to have counted and stored them.
use code_fixer.Base.{◌+◌, String, Bool, true, false, ◌&&◌, ◌||◌, List, ◌==◌, text_eq, any, ◌≡◌}
use code_fixer.Base.Table.{count}
use code_fixer.Base.Result.{Result, ok, err}
use code_fixer.Tasks.Table.{Tasks}
use code_fixer.Tasks.Tickets.{has_key}
use code_fixer.Routing.Match.{RouteError}
use code_fixer.Routing.Route.{Ticket, RouteKind, RouteDecision, route_ticket}
use code_fixer.Routing.Ingestion.{Tally, Service}

-- The tests of a route.
abbrev pub before_intake : RouteKind → Bool
before_intake RouteKind.ignored_before_intake = true
before_intake RouteKind.ignored_by_version = false
before_intake RouteKind.ignored_by_title = false
before_intake RouteKind.matched = false
before_intake RouteKind.not_found = false
before_intake RouteKind.ambiguous = false

abbrev pub by_version : RouteKind → Bool
by_version RouteKind.ignored_before_intake = false
by_version RouteKind.ignored_by_version = true
by_version RouteKind.ignored_by_title = false
by_version RouteKind.matched = false
by_version RouteKind.not_found = false
by_version RouteKind.ambiguous = false

abbrev pub by_title : RouteKind → Bool
by_title RouteKind.ignored_before_intake = false
by_title RouteKind.ignored_by_version = false
by_title RouteKind.ignored_by_title = true
by_title RouteKind.matched = false
by_title RouteKind.not_found = false
by_title RouteKind.ambiguous = false

abbrev pub is_match : RouteKind → Bool
is_match RouteKind.ignored_before_intake = false
is_match RouteKind.ignored_by_version = false
is_match RouteKind.ignored_by_title = false
is_match RouteKind.matched = true
is_match RouteKind.not_found = false
is_match RouteKind.ambiguous = false

abbrev pub is_failure : RouteKind → Bool
is_failure RouteKind.ignored_before_intake = false
is_failure RouteKind.ignored_by_version = false
is_failure RouteKind.ignored_by_title = false
is_failure RouteKind.matched = false
is_failure RouteKind.not_found = true
is_failure RouteKind.ambiguous = true

abbrev pub decided : (RouteKind → Bool) → Result RouteError RouteDecision → Bool
decided test (err e) = false
decided test (ok route) = test route.kind

-- A ticket whose route passes the test.
abbrev pub routed : Service → (RouteKind → Bool) → Ticket → Bool
routed x test ticket = decided test (route_ticket x.repr x.parse ticket x.projects)

-- A ticket under this key, whose route matched a project or failed.
abbrev pub stores : Service → (provider_id external_id : String) → Ticket → Bool
stores x provider_id external_id ticket =
    (routed x is_match ticket || routed x is_failure ticket)
    && (ticket.provider_instance_id == provider_id && ticket.external_ticket_id == external_id)

module _ (x : Service) where
  -- From the one tally and table to the other, the tickets were counted and stored.
  abbrev pub Recorded : List Ticket → Tally → Tasks → Tally → Tasks → Type 0
  Recorded tickets y t z u =
      (z.ignored_before_intake ≡ y.ignored_before_intake + count (routed x before_intake) tickets)
      × (z.ignored_by_version ≡ y.ignored_by_version + count (routed x by_version) tickets)
      × (z.ignored_by_title ≡ y.ignored_by_title + count (routed x by_title) tickets)
      × (z.matched ≡ y.matched + count (routed x is_match) tickets)
      × (z.failed_route ≡ y.failed_route + count (routed x is_failure) tickets)
      × ((provider_id external_id : String)
          → any (has_key provider_id external_id) u.tickets ≡ (
              any (has_key provider_id external_id) t.tickets
              || any (stores x provider_id external_id) tickets))
