-- ===== src/Routing/Route.antt =====
-- `route_ticket`. The keys suggested_action and projects of a failure are left out.
use code_fixer.Base.{
  ℕ, String, Bool, true, false, not, ◌&&◌, ◌||◌, Option, none, some, List, [], ◌∷◌, ◌++◌, map, ◌==◌,
  text_eq, elem, ltb, if◌then◌else◌,
}
use code_fixer.Base.Integers.{ℤ, at_most}
use code_fixer.Base.Text.{strip, is_in}
use code_fixer.Base.Table.{find, select}
use code_fixer.Base.Result.{Result, ok, err}
use code_fixer.Tasks.Table.{Failure}
use code_fixer.Routing.Value.{Value, Fields, get}
use code_fixer.Routing.Match.{
  RouteError, stop_iteration, Condition, VersionFilter, all_match, version_matches, timestamp,
}

pub record Ticket : Type 0 where
  pub provider_instance_id : String
  pub external_ticket_id : String
  pub title : String
  pub payload : Fields
  pub external_version : Option String
  pub eligible : Bool

-- The configuration of a project; the defaults for keys that are absent are filled in.
pub record RoutingRule : Type 0 where
  pub id : String
  pub provider_ref : String
  pub version_filter : Option VersionFilter
  pub catch_all : Bool
  pub conditions : List Condition
  pub priority : ℤ

pub record RoutingProject : Type 0 where
  pub id : String
  pub enabled : Bool
  pub title_contains : String
  pub intake_started_at : Value
  pub routing_rules : List RoutingRule

pub data RouteKind : Type 0 where
  matched not_found ambiguous ignored_before_intake ignored_by_version ignored_by_title : RouteKind

pub record RouteDecision : Type 0 where
  pub kind : RouteKind
  pub project_id : Option String
  pub failure : Option Failure

pub record Candidate : Type 0 where
  pub priority : ℤ
  pub project_id : String
  pub rule_id : String
  pub intake : Option ℕ

-- The variables of the loops.
pub record Scan : Type 0 where
  pub candidates : List Candidate
  pub provider_rule_seen : Bool
  pub version_accepted : Bool
  pub title_accepted : Bool

abbrev pub no_scan : Scan
no_scan = record {
  candidates = [];
  provider_rule_seen = false;
  version_accepted = false;
  title_accepted = false;
}

abbrev pub ignored : RouteKind → RouteDecision
ignored kind = record { kind = kind; project_id = none; failure = none }

abbrev pub refused : RouteKind → (code summary : String) → RouteDecision
refused kind code summary = record {
  kind = kind;
  project_id = none;
  failure = some (record { code = code; stage = "ingest"; summary = summary; retryable = false });
}

-- max(...) of the priorities, from the first one on.
abbrev pub top_priority : ℤ → List Candidate → ℤ
top_priority best [] = best
top_priority best (c ∷ cs) = top_priority (if at_most c.priority best then best else c.priority) cs

abbrev pub has_priority : ℤ → Candidate → Bool
has_priority p c = at_most p c.priority && at_most c.priority p

-- The set of the texts of a list.
abbrev pub unique : List String → List String
unique [] = []
unique (x ∷ xs) = let rest = unique xs in if elem x rest then rest else x ∷ rest

-- The ticket was created before the intake, or one of the times is missing.
abbrev pub before_intake : (created intake : Option ℕ) → Bool
before_intake none intake = true
before_intake (some created) none = true
before_intake (some created) (some intake) = ltb created intake

-- What follows the set of the projects of the highest priority.
abbrev pub choose :
    (created : Option ℕ) → List Candidate → List String → Result RouteError RouteDecision
choose created top (id ∷ []) = elim (find (λ c. c.project_id == id) top) [
  | none ↦ err stop_iteration
  | some c ↦ ok (
      if before_intake created c.intake
      then ignored RouteKind.ignored_before_intake
      else record { kind = RouteKind.matched; project_id = some id; failure = none })
]
choose created top [] = ok (refused RouteKind.ambiguous "project_ambiguous" "多个最高优先级项目同时匹配该工单")
choose created top (x ∷ y ∷ rest) =
    ok (refused RouteKind.ambiguous "project_ambiguous" "多个最高优先级项目同时匹配该工单")

abbrev pub decide_from :
    (created : Option ℕ) → Scan → List Candidate → Result RouteError RouteDecision
decide_from created s [] = ok (
    if s.provider_rule_seen && not s.version_accepted
    then ignored RouteKind.ignored_by_version
    else if (s.provider_rule_seen && s.version_accepted) && not s.title_accepted
    then ignored RouteKind.ignored_by_title
    else refused RouteKind.not_found "project_not_found" "没有项目路由规则匹配该工单")
decide_from created s (c ∷ cs) =
    let top = select (has_priority (top_priority c.priority cs)) (c ∷ cs) in
    choose created top (unique (map (λ x. x.project_id) top))

-- What follows the loops.
unfoldable pub decide : (created : Option ℕ) → Scan → Result RouteError RouteDecision
decide created s = decide_from created s s.candidates

module _ (repr : Value → String) (parse : String → Option ℕ) where
  -- A rule whose conditions are met gives a candidate.
  abbrev pub add_candidate : RoutingProject → RoutingRule → Scan → Bool → Scan
  add_candidate project rule s met =
      if met
      then record s {
        candidates =
            s.candidates
            ++ record {
              priority = rule.priority;
              project_id = strip project.id;
              rule_id = rule.id;
              intake = timestamp repr parse project.intake_started_at;
            }
              ∷ [];
      }
      else s

  abbrev pub after_conditions :
      RoutingProject → RoutingRule → Scan → Result RouteError Bool → Result RouteError Scan
  after_conditions project rule s (err e) = err e
  after_conditions project rule s (ok met) = ok (add_candidate project rule s met)

  -- The body of the loop over the rules.
  unfoldable pub scan_rule : Ticket → RoutingProject → RoutingRule → Scan → Result RouteError Scan
  unfolding all_match version_matches timestamp
  scan_rule ticket project rule s =
      if not (rule.provider_ref == ticket.provider_instance_id)
      then ok s
      else if not (version_matches repr ticket.payload rule.version_filter)
      then ok (record s { provider_rule_seen = true })
      else if not (strip project.title_contains == "")
          && not (is_in (strip project.title_contains) ticket.title)
      then ok (record s { provider_rule_seen = true; version_accepted = true })
      else after_conditions project rule
          (record s { provider_rule_seen = true; version_accepted = true; title_accepted = true })
          (if rule.catch_all then ok true else all_match repr ticket.payload rule.conditions)

  unfoldable pub scan_rules :
      Ticket → RoutingProject → List RoutingRule → Scan → Result RouteError Scan
  unfolding scan_rule
  scan_rules ticket project [] s = ok s
  scan_rules ticket project (rule ∷ rules) s = elim (scan_rule ticket project rule s) [
    | err e ↦ err e
    | ok t ↦ scan_rules ticket project rules t
  ]

  unfoldable pub scan_project : Ticket → RoutingProject → Scan → Result RouteError Scan
  unfolding scan_rules
  scan_project ticket project s =
      if strip project.id == "" || not project.enabled
      then ok s
      else scan_rules ticket project project.routing_rules s

  unfoldable pub scan_projects : Ticket → List RoutingProject → Scan → Result RouteError Scan
  unfolding scan_project
  scan_projects ticket [] s = ok s
  scan_projects ticket (project ∷ projects) s = elim (scan_project ticket project s) [
    | err e ↦ err e
    | ok t ↦ scan_projects ticket projects t
  ]

  unfoldable pub route_ticket : Ticket → List RoutingProject → Result RouteError RouteDecision
  unfolding timestamp scan_projects decide
  route_ticket ticket projects = elim (scan_projects ticket projects no_scan) [
    | err e ↦ err e
    | ok s ↦ decide (timestamp repr parse (get "createdAt" ticket.payload)) s
  ]
