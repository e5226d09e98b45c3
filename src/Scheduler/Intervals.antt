-- ===== src/Scheduler/Intervals.antt =====
-- The polling intervals of the providers and the checks of the projects. Times are microseconds.
use code_fixer.Base.{
  ℕ, ◌+◌, ◌-◌, ◌*◌, ◌/◌, String, Bool, true, false, not, Option, none, some, List, [], ◌∷◌, ltb,
  ◌==◌, text_eq, if◌then◌else◌,
}
use code_fixer.Base.Text.{strip}
use code_fixer.Base.Table.{find}

-- What the scheduler reads of a project; the defaults for keys that are absent are filled in, and a
-- rule is its providerRef.
pub record ScheduledProject : Type 0 where
  pub id : String
  pub enabled : Bool
  pub poll_interval_seconds : ℕ
  pub rules : List String

abbrev pub at_least : ℕ → ℕ → ℕ
at_least m n = if ltb n m then m else n

abbrev pub smaller : ℕ → ℕ → ℕ
smaller m n = if ltb n m then n else m

abbrev pub is_of : {A : Type 0} → String → String × A → Bool
is_of key (k, a) = k == key

abbrev pub value_of : {A : Type 0} → Option (String × A) → Option A
value_of none = none
value_of (some (k, a)) = some a

-- d.get(key)
abbrev pub lookup : {A : Type 0} → String → List (String × A) → Option A
lookup key d = value_of (find (is_of key) d)

-- d[key] = a: the place of a key is kept.
abbrev pub put : {A : Type 0} → String → A → List (String × A) → List (String × A)
put key a [] = (key, a) ∷ []
put key a ((k, b) ∷ d) = let rest = put key a d in if k == key then (k, a) ∷ d else (k, b) ∷ rest

abbrev pub or_interval : Option ℕ → ℕ → ℕ
or_interval none n = n
or_interval (some m) n = m

-- The body of the loop over the rules.
unfoldable pub add_rule : (interval : ℕ) → String → List (String × ℕ) → List (String × ℕ)
add_rule interval rule intervals =
    let provider_id = strip rule in
    if provider_id == ""
    then intervals
    else put provider_id (smaller interval (or_interval (lookup provider_id intervals) interval))
        intervals

unfoldable pub add_rules : (interval : ℕ) → List String → List (String × ℕ) → List (String × ℕ)
unfolding add_rule
add_rules interval [] intervals = intervals
add_rules interval (rule ∷ rules) intervals =
    add_rules interval rules (add_rule interval rule intervals)

unfoldable pub add_project : ScheduledProject → List (String × ℕ) → List (String × ℕ)
unfolding add_rules
add_project project intervals =
    if not project.enabled
    then intervals
    else add_rules (at_least 60 project.poll_interval_seconds) project.rules intervals

unfoldable pub add_projects : List ScheduledProject → List (String × ℕ) → List (String × ℕ)
unfolding add_project
add_projects [] intervals = intervals
add_projects (project ∷ projects) intervals = add_projects projects (add_project project intervals)

-- `_active_provider_intervals`
unfoldable pub active_provider_intervals : List ScheduledProject → List (String × ℕ)
unfolding add_projects
active_provider_intervals projects = add_projects projects []

-- PROJECT_HEALTH_INTERVAL: three hours
abbrev pub project_health_interval : ℕ
project_health_interval = 10800000000

-- `_project_health_due` of times that are parsed: `now - created` may be negative.
unfoldable pub project_health_due : (created checked : Option ℕ) (now : ℕ) → Bool
project_health_due none checked now = true
project_health_due (some created) none now = true
project_health_due (some created) (some checked) now =
    if ltb now (created + project_health_interval)
    then false
    else ltb checked
        (created + ((now - created) / project_health_interval) * project_health_interval)
