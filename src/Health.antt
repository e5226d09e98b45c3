-- ===== src/Health.antt =====
-- backend/src/codefixer/infrastructure/project_health_store.py: the last result of the checks of each
-- project. `dumps` is canonical_json and `loads` json.loads of a list of checks.
use code_fixer.Base.{
  ℕ, String, Bool, true, false, not, Option, none, some, List, [], ◌∷◌, ◌++◌, map, ◌==◌, text_eq,
  if◌then◌else◌, any,
}
use code_fixer.Base.Text.{strip, or_text}
use code_fixer.Base.Table.{find, update}
use code_fixer.Base.Result.{Result, ok, err}
pub mod Answers
mod Tests

-- A row of project_health.
pub record HealthRow : Type 0 where
  pub project_id : String
  pub ready : Bool
  pub status : String
  pub summary : String
  pub checks_json : String
  pub checked_at : String

-- The result of a check; a key that is absent is none, or false, or no checks.
pub record CheckResult (C : Type 0) : Type 0 where
  pub project_id : Option String
  pub ready : Bool
  pub status : Option String
  pub summary : Option String
  pub checks : C

-- What `put` and `get` return.
pub record Health (C : Type 0) : Type 0 where
  pub project_id : String
  pub ready : Bool
  pub status : String
  pub summary : String
  pub checks : C
  pub checked_at : String

pub data HealthError : Type 0 where
  no_project_id : HealthError

abbrev pub is_project : String → HealthRow → Bool
is_project project_id row = row.project_id == project_id

-- INSERT ... ON CONFLICT(project_id) DO UPDATE
abbrev pub upsert : HealthRow → List HealthRow → List HealthRow
upsert row rows =
    if any (is_project row.project_id) rows
    then update (is_project row.project_id) (λ old. row) rows
    else rows ++ row ∷ []

module _ {C : Type 0} (dumps : C → String) (loads : String → C) where
  abbrev pub payload_of : (project_id now : String) → CheckResult C → Health C
  payload_of project_id now result = record {
    project_id = project_id;
    ready = result.ready;
    status = or_text result.status "not_ready";
    summary = or_text result.summary "流水线状态未知";
    checks = result.checks;
    checked_at = now;
  }

  abbrev pub row_of : Health C → HealthRow
  row_of h = record {
    project_id = h.project_id;
    ready = h.ready;
    status = h.status;
    summary = h.summary;
    checks_json = dumps h.checks;
    checked_at = h.checked_at;
  }

  unfoldable pub put :
      (now : String)
      → CheckResult C
      → List HealthRow
      → Result HealthError (Health C) × List HealthRow
  put now result rows =
      let project_id = strip (or_text result.project_id "") in
      let payload = payload_of project_id now result in
      if project_id == ""
      then (err no_project_id, rows)
      else (ok payload, upsert (row_of payload) rows)

  abbrev pub health_of : HealthRow → Health C
  health_of row = record {
    project_id = row.project_id;
    ready = row.ready;
    status = row.status;
    summary = row.summary;
    checks = loads row.checks_json;
    checked_at = row.checked_at;
  }

  unfoldable pub get : String → List HealthRow → Option (Health C)
  get project_id rows = elim (find (is_project project_id) rows) [
    | none ↦ none
    | some row ↦ some (health_of row)
  ]

  -- The entries of `list`, whose keys are the ids of the rows.
  abbrev pub entries : List HealthRow → List HealthRow → List (String × Health C)
  unfolding get
  entries rows [] = []
  entries rows (row ∷ rest) =
      let more = entries rows rest in
      elim (get row.project_id rows) [ none ↦ more | some h ↦ (row.project_id, h) ∷ more ]

  unfoldable pub list : List HealthRow → List (String × Health C)
  unfolding get
  list rows = entries rows rows
