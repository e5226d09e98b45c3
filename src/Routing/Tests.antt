-- ===== src/Routing/Tests.antt =====
-- Tickets that are routed, and the theorems at them.
use code_fixer.Base.{
  ℕ, String, true, false, Option, none, some, List, [], ◌∷◌, ◌==◌, text_eq, number_eq,
  if◌then◌else◌, ◌≡◌, refl,
}
use code_fixer.Base.Integers.{pos, negsuc}
use code_fixer.Base.Result.{ok, err}
use code_fixer.Tasks.Table.{Tasks}
use code_fixer.Tasks.Store.{create_run}
use code_fixer.Tasks.Ingest.{
  upsert_ticket, upsert_snapshot, create_task, refresh_task, ingest_locked, ingest,
}
use code_fixer.Tasks.Stages.{get_cursor, set_cursor}
use code_fixer.Routing.Value.{Value, text, object, Fields, no_fields, field, get, equal, is_member}
use code_fixer.Routing.Match.{
  Condition, VersionFilter, unsupported_operator, field_at, within, condition_matches, all_match,
  version_identity, version_matches, timestamp,
}
use code_fixer.Routing.Route.{
  Ticket, RoutingRule, RoutingProject, RouteKind, Scan, ignored, scan_rule, scan_rules,
  scan_project, scan_projects, decide, route_ticket,
}
use code_fixer.Routing.Scans.{offers, candidate_of, scan_projects-offers}
use code_fixer.Routing.Choice.{matched_to, Chosen, route_ticket-Chosen}
use code_fixer.Routing.Ingestion.{
  TicketBatch, TicketProvider, Service, store_ticket, take, ingest_ticket, ingest_tickets,
  ingest_batch, poll_configured_provider,
}
use code_fixer.Routing.Counts.{Accounted, ingest_batch-Accounted}

calls : Unit {0}
unfolding equal is_member field_at within condition_matches all_match version_identity
    version_matches timestamp scan_rule scan_rules scan_project scan_projects decide route_ticket
    create_run upsert_ticket upsert_snapshot create_task refresh_task ingest_locked ingest
    get_cursor set_cursor store_ticket take ingest_ticket ingest_tickets ingest_batch
    poll_configured_provider
calls = tt

abbrev shown : Value → String
shown v = "7"

abbrev time_of : String → Option ℕ
time_of s =
    if s == "2024-01-01T00:00:00+00:00" then some 1 else if s == "2025-01-01" then some 2 else none

abbrev component : String → Fields
component name =
    field "component" (object (field "name" (text name) no_fields))
      (field "createdAt" (text " 2025-01-01 ") no_fields)

abbrev a_ticket : String → Ticket
a_ticket name = record {
  provider_instance_id = "redmine";
  external_ticket_id = "7";
  title = "crash in ";
  payload = field "versionFix" (text "1.2") (component name);
  external_version = none;
  eligible = true;
}

abbrev rule : String → Condition → Option VersionFilter → RoutingRule
rule id condition versions = record {
  id = id;
  provider_ref = "redmine";
  version_filter = versions;
  catch_all = false;
  conditions = condition ∷ [];
  priority = pos 5;
}

abbrev about : String → String → Condition
about operator name = record { field = "component.name"; operator = operator; expected = text name }

abbrev project : String → RoutingRule → RoutingProject
project id r = record {
  id = id;
  enabled = true;
  title_contains = "crash";
  intake_started_at = text "2024-01-01T00:00:00Z";
  routing_rules = r ∷ record r { catch_all = true; priority = negsuc 0 } ∷ [];
}

abbrev version : String → VersionFilter
version name = record {
  mode = "selected";
  versions = object (field "name" (text name) no_fields) ∷ [];
}

abbrev two_projects : List RoutingProject
two_projects =
    project "parser" (rule "r1" (about "eq" "parser") none)
    ∷ project "server" (rule "r2" (about "contains" "serv") none)
    ∷ []

-- The rule of the component wins over those that catch all; two of these are ambiguous; the version
-- of the ticket is not selected; an operator is not known.
routes :
    (route_ticket shown time_of (a_ticket "parser") two_projects ≡ ok (matched_to "parser"))
    × (route_ticket shown time_of (a_ticket "server") two_projects ≡ ok (matched_to "server"))
    × (route_ticket shown time_of
          (a_ticket "server")
          (project "p" (rule "r1" (about "in" "parser") (some (version "2.0"))) ∷ [])
        ≡ ok (ignored RouteKind.ignored_by_version))
    × (route_ticket shown time_of
          (a_ticket "server")
          (project "p" (rule "r1" (about "like" "s") (some (version "1.2"))) ∷ [])
        ≡ err (unsupported_operator "like"))
    × (route_ticket shown (λ s. none) (a_ticket "parser") two_projects
        ≡ ok (ignored RouteKind.ignored_before_intake))
unfolding calls
routes = (refl, refl, refl, refl, refl)

route_ticket-Chosen_example :
    Chosen
      (timestamp shown time_of (get "createdAt" (a_ticket "parser").payload))
      "parser"
      (offers shown time_of (a_ticket "parser") two_projects)
unfolding calls
route_ticket-Chosen_example =
    route_ticket-Chosen shown time_of (a_ticket "parser") two_projects "parser" refl

abbrev scanned : Scan
scanned = record {
  candidates =
      candidate_of shown time_of (project "parser" (rule "r1" (about "eq" "parser") none))
        (rule "r1" (about "eq" "parser") none)
      ∷ candidate_of shown time_of (project "parser" (rule "r1" (about "eq" "parser") none))
          (record (rule "r1" (about "eq" "parser") none) { catch_all = true; priority = negsuc 0 })
      ∷ [];
  provider_rule_seen = true;
  version_accepted = true;
  title_accepted = true;
}

scan_projects-offers_example :
    scanned.candidates
    ≡ offers shown time_of
        (a_ticket "parser")
        (project "parser" (rule "r1" (about "eq" "parser") none) ∷ [])
unfolding calls
scan_projects-offers_example =
    scan_projects-offers shown time_of (a_ticket "parser")
      (project "parser" (rule "r1" (about "eq" "parser") none) ∷ []) scanned refl

abbrev service : Service
service = record {
  repr = shown;
  parse = time_of;
  canonical = λ fs. "{}";
  identify = λ provider external. external;
  digest = λ payload. payload;
  projects = two_projects;
  execution_mode = "automatic";
  fresh = λ place. "run";
  now = 1;
}

abbrev nothing : Tasks
nothing = record {
  tickets = [];
  snapshots = [];
  tasks = [];
  runs = [];
  stages = [];
  events = [];
  cursors = [];
  next_ticket = 1;
  next_snapshot = 1;
  next_stage = 1;
}

abbrev batch : TicketBatch
batch = record {
  tickets =
      a_ticket "parser"
      ∷ record (a_ticket "server") { external_ticket_id = "8"; title = "typo" }
      ∷ [];
  next_cursor = some "c";
  raw_count = 2;
}

abbrev provider : TicketProvider
provider = record { provider_id = "redmine"; poll = λ cursor. ok batch }

-- One ticket is stored, the other is ignored by its title; the cursor moves on.
polled : get_cursor "redmine" (poll_configured_provider service provider nothing).1 ≡ some "c"
unfolding calls
polled = refl

ingest_batch-Accounted_example :
    Accounted service batch.tickets nothing (ingest_batch service "redmine" batch nothing)
ingest_batch-Accounted_example = ingest_batch-Accounted service "redmine" batch nothing (record {
  tasks_distinct = tt;
  runs_distinct = tt;
  queued_agree = λ k r. refl;
  running_agree = λ k r. refl;
})
