-- ===== src/Cohorts/Table.antt =====
-- The rows of baseline_cohorts and baseline_cohort_members, and the membership view.
use code_fixer.Base.{
  ℕ, String, Bool, true, false, ◌&&◌, Option, none, some, List, [], ◌∷◌, leb, ltb, ◌==◌, text_eq,
  if◌then◌else◌,
}
use code_fixer.Base.Table.{find}

pub data CohortState : Type 0 where
  opened resolving sealed failed : CohortState

pub data Role : Type 0 where
  leader follower : Role

-- A failure is the JSON text that is stored.
pub record Cohort : Type 0 where
  pub id : String
  pub cohort_key : String
  pub source_type : String
  pub leader_task_run_id : String
  pub state : CohortState
  pub created_at : ℕ
  pub join_deadline : ℕ
  pub baseline_revision : Option String
  pub resolved_at : Option ℕ
  pub failure_json : Option String
  pub updated_at : ℕ
  pub row_version : ℕ

pub record Member : Type 0 where
  pub cohort_id : String
  pub task_run_id : String
  pub role : Role
  pub joined_at : ℕ

pub record Membership : Type 0 where
  pub cohort : Cohort
  pub task_run_id : String
  pub role : Role

pub record Cohorts : Type 0 where
  pub cohorts : List Cohort
  pub members : List Member

pub data CohortError : Type 0 where
  unsupported_source other_cohort membership_missing empty_revision : CohortError
  cohort_missing not_leader revision_conflict cohort_failed cohort_resolved : CohortError
  integrity_error assertion_error : CohortError

abbrev pub is_open : CohortState → Bool
is_open opened = true
is_open resolving = false
is_open sealed = false
is_open failed = false

abbrev pub is_failed : CohortState → Bool
is_failed failed = true
is_failed opened = false
is_failed resolving = false
is_failed sealed = false

abbrev pub is_some {ℓ} : {A : Type ℓ} → Option A → Bool
is_some none = false
is_some (some a) = true

-- `is_leader`
abbrev pub is_leader : Role → Bool
is_leader leader = true
is_leader follower = false

-- `_select_membership`: the member's row joined with its cohort's.
unfoldable pub select_membership : String → Cohorts → Option Membership
select_membership task_run_id s = elim (find (λ m. m.task_run_id == task_run_id) s.members) [
  | none ↦ none
  | some m ↦ elim (find (λ c. c.id == m.cohort_id) s.cohorts) [
    | none ↦ none
    | some c ↦ some (record { cohort = c; task_run_id = m.task_run_id; role = m.role })
  ]
]

abbrev pub newer : Cohort → Option Cohort → Option Cohort
newer c none = some c
newer c (some d) = if leb d.created_at c.created_at then some c else some d

-- WHERE cohort_key=? AND source_type=? AND state='open' AND join_deadline>?
abbrev pub is_joinable : String → String → ℕ → Cohort → Bool
is_joinable cohort_key source_type now c =
    c.cohort_key == cohort_key
    && c.source_type == source_type
    && is_open c.state
    && ltb now c.join_deadline

-- ... ORDER BY created_at DESC LIMIT 1; of cohorts created at one time, the first row.
unfoldable pub joinable : String → String → ℕ → List Cohort → Option Cohort
joinable cohort_key source_type now [] = none
joinable cohort_key source_type now (c ∷ cs) =
    let rest = joinable cohort_key source_type now cs in
    if is_joinable cohort_key source_type now c then newer c rest else rest
