-- ===== src/Routing/Scans.antt =====
-- The loops of `route_ticket` collect exactly the candidates that the rules offer.
use code_fixer.Base.{
  ℕ, String, Bool, true, false, not, ◌&&◌, ◌||◌, Option, List, [], ◌∷◌, ◌++◌, map, ◌==◌, text_eq,
  if◌then◌else◌, ◌≡◌, refl, sym, ap, subst, ◌∙◌,
}
use mathlib.Core.List.{append-nil, append_assoc}
use code_fixer.Base.Text.{strip, is_in}
use code_fixer.Base.Table.{select}
use code_fixer.Base.Result.{Result, ok, err}
use code_fixer.Routing.Value.{Value}
use code_fixer.Routing.Match.{RouteError, all_match, version_matches, timestamp}
use code_fixer.Routing.Route.{
  Ticket, RoutingRule, RoutingProject, Candidate, Scan, no_scan, after_conditions, scan_rule,
  scan_rules, scan_project, scan_projects,
}

abbrev pub is_met : Result RouteError Bool → Bool
is_met (err e) = false
is_met (ok b) = b

module _ (repr : Value → String) (parse : String → Option ℕ) where
  -- The rule is about the ticket's provider, and its version, its title and its conditions fit.
  abbrev pub accepts : Ticket → RoutingProject → RoutingRule → Bool
  accepts ticket project rule =
      rule.provider_ref == ticket.provider_instance_id
      && (version_matches repr ticket.payload rule.version_filter
          && ((strip project.title_contains == ""
                || is_in (strip project.title_contains) ticket.title)
              && is_met (
                  if rule.catch_all
                  then ok true
                  else all_match repr ticket.payload rule.conditions)))

  abbrev pub candidate_of : RoutingProject → RoutingRule → Candidate
  candidate_of project rule = record {
    priority = rule.priority;
    project_id = strip project.id;
    rule_id = rule.id;
    intake = timestamp repr parse project.intake_started_at;
  }

  -- The candidates of the enabled projects with an id, in the order of the configuration.
  abbrev pub offers : Ticket → List RoutingProject → List Candidate
  offers ticket [] = []
  offers ticket (project ∷ projects) =
      let rest = offers ticket projects in
      if strip project.id == "" || not project.enabled
      then rest
      else map (candidate_of project) (select (accepts ticket project) project.routing_rules)
        ++ rest

  abbrev Grows : List Candidate → List Candidate → Result RouteError Scan → Type 0
  Grows before more (err e) = Unit {0}
  Grows before more (ok s) = s.candidates ≡ before ++ more

  -- The tests of the loop over the rules, by their outcomes.
  tested :
      (project : RoutingProject) (rule : RoutingRule) (s : Scan)
      (own version bare inside all : Bool) (m : Result RouteError Bool)
      → Grows s.candidates
          (if own && (version && ((bare || inside) && is_met (if all then ok true else m)))
            then candidate_of project rule ∷ []
            else [])
          (if not own
            then ok s
            else if not version
            then ok (record s { provider_rule_seen = true })
            else if not bare && not inside
            then ok (record s { provider_rule_seen = true; version_accepted = true })
            else after_conditions repr parse project rule
                (record s {
                  provider_rule_seen = true;
                  version_accepted = true;
                  title_accepted = true;
                })
                (if all then ok true else m))
  tested project rule s false version bare inside all m = sym (append-nil s.candidates)
  tested project rule s true false bare inside all m = sym (append-nil s.candidates)
  tested project rule s true true false false all m = sym (append-nil s.candidates)
  tested project rule s true true true inside true m = refl
  tested project rule s true true true inside false (ok true) = refl
  tested project rule s true true true inside false (ok false) = sym (append-nil s.candidates)
  tested project rule s true true true inside false (err e) = tt
  tested project rule s true true false true true m = refl
  tested project rule s true true false true false (ok true) = refl
  tested project rule s true true false true false (ok false) = sym (append-nil s.candidates)
  tested project rule s true true false true false (err e) = tt

  scan_rule-Grows :
      (ticket : Ticket) (project : RoutingProject) (rule : RoutingRule) (s : Scan)
      → Grows s.candidates
          (if accepts ticket project rule then candidate_of project rule ∷ [] else [])
          (scan_rule repr parse ticket project rule s)
  unfolding scan_rule
  scan_rule-Grows ticket project rule s =
      tested project rule s (rule.provider_ref == ticket.provider_instance_id)
        (version_matches repr ticket.payload rule.version_filter)
        (strip project.title_contains == "") (is_in (strip project.title_contains) ticket.title)
        rule.catch_all (all_match repr ticket.payload rule.conditions)

  scan_rules-Grows :
      (ticket : Ticket) (project : RoutingProject) (rules : List RoutingRule) (s : Scan)
      → Grows s.candidates
          (map (candidate_of project) (select (accepts ticket project) rules))
          (scan_rules repr parse ticket project rules s)
  unfolding scan_rules
  scan_rules-Grows ticket project [] s = sym (append-nil s.candidates)
  scan_rules-Grows ticket project (rule ∷ rules) s =
      after (scan_rule repr parse ticket project rule s) (scan_rule-Grows ticket project rule s)
        (λ t. scan_rules-Grows ticket project rules t)
    where
      after :
          (r : Result RouteError Scan)
          → Grows s.candidates
              (if accepts ticket project rule then candidate_of project rule ∷ [] else [])
              r
          → ((t : Scan)
              → Grows t.candidates
                  (map (candidate_of project) (select (accepts ticket project) rules))
                  (scan_rules repr parse ticket project rules t))
          → Grows s.candidates
              (map (candidate_of project) (select (accepts ticket project) (rule ∷ rules)))
              (elim r [ err e ↦ err e | ok t ↦ scan_rules repr parse ticket project rules t ])
      after (err e) h rest = tt
      after (ok t) h rest =
          joined (accepts ticket project rule) (scan_rules repr parse ticket project rules t) t h
            (rest t)
        where
          joined :
              (b : Bool) (r : Result RouteError Scan) (t : Scan)
              → t.candidates ≡ s.candidates ++ (if b then candidate_of project rule ∷ [] else [])
              → Grows t.candidates
                  (map (candidate_of project) (select (accepts ticket project) rules))
                  r
              → Grows s.candidates
                  (map (candidate_of project) (
                    let more = select (accepts ticket project) rules in
                    if b then rule ∷ more else more))
                  r
          joined b (err e) t h g = tt
          joined true (ok u) t h g =
              g
              ∙ ap (λ c. c ++ map (candidate_of project) (select (accepts ticket project) rules)) h
              ∙ append_assoc s.candidates (candidate_of project rule ∷ []) _
          joined false (ok u) t h g =
              g
              ∙ ap (λ c. c ++ map (candidate_of project) (select (accepts ticket project) rules))
                  (h ∙ append-nil s.candidates)

  scan_projects-Grows :
      (ticket : Ticket) (projects : List RoutingProject) (s : Scan)
      → Grows s.candidates (offers ticket projects) (scan_projects repr parse ticket projects s)
  unfolding scan_projects scan_project
  scan_projects-Grows ticket [] s = sym (append-nil s.candidates)
  scan_projects-Grows ticket (project ∷ projects) s =
      after (strip project.id == "" || not project.enabled)
        (scan_rules repr parse ticket project project.routing_rules s)
        (scan_rules-Grows ticket project project.routing_rules s)
        (λ t. scan_projects-Grows ticket projects t)
    where
      after :
          (b : Bool) (r : Result RouteError Scan)
          → Grows s.candidates
              (map (candidate_of project) (select (accepts ticket project) project.routing_rules))
              r
          → ((t : Scan)
              → Grows t.candidates
                  (offers ticket projects)
                  (scan_projects repr parse ticket projects t))
          → Grows s.candidates
              (let rest = offers ticket projects in
                if b
                then rest
                else map
                    (candidate_of project)
                    (select (accepts ticket project) project.routing_rules)
                  ++ rest)
              (elim (if b then ok s else r) [
                | err e ↦ err e
                | ok t ↦ scan_projects repr parse ticket projects t
              ])
      after true r h rest = rest s
      after false (err e) h rest = tt
      after false (ok t) h rest = joined (scan_projects repr parse ticket projects t) (rest t)
        where
          joined :
              (r : Result RouteError Scan)
              → Grows t.candidates (offers ticket projects) r
              → Grows s.candidates
                  (map
                      (candidate_of project)
                      (select (accepts ticket project) project.routing_rules)
                    ++ offers ticket projects)
                  r
          joined (err e) g = tt
          joined (ok u) g =
              g ∙ ap (λ c. c ++ offers ticket projects) h ∙ append_assoc s.candidates _ _

  -- If the loops return, the candidates that they collected are, in this order, those that the rules
  -- of the enabled projects with an id offer for the ticket.
  pub scan_projects-offers :
      (ticket : Ticket) (projects : List RoutingProject) (s : Scan)
      → scan_projects repr parse ticket projects no_scan ≡ ok s
      → s.candidates ≡ offers ticket projects
  scan_projects-offers ticket projects s h =
      subst (Grows [] (offers ticket projects)) h (scan_projects-Grows ticket projects no_scan)
