-- ===== src/Delivery/Store.antt =====
-- backend/src/codefixer/infrastructure/delivery_store.py: the recorded actions and targets of a
-- delivery. A result is the JSON text that is stored.
use code_fixer.Base.{
  ℕ, ◌+◌, String, Bool, not, ◌&&◌, ◌||◌, Option, none, some, List, [], ◌∷◌, ◌++◌, ◌==◌, text_eq,
  number_eq, if◌then◌else◌, any, elem,
}
use code_fixer.Base.Table.{find, update, select}
use code_fixer.Base.Result.{Result, ok, err}

pub record ActionRun : Type 0 where
  pub id : ℕ
  pub task_run_id : String
  pub action_id : String
  pub action_version : ℕ
  pub action_type : String
  pub config_hash : String
  pub status : String
  pub outcome : Option String
  pub intent_key : String
  pub result_json : Option String
  pub started_at : Option ℕ
  pub finished_at : Option ℕ

pub record TargetRun : Type 0 where
  pub id : ℕ
  pub delivery_action_run_id : ℕ
  pub target_key : String
  pub status : String
  pub outcome : Option String
  pub remote_ref : Option String
  pub external_id : Option String
  pub external_url : Option String
  pub result_json : Option String
  pub started_at : Option ℕ
  pub finished_at : Option ℕ

-- `task_runs` are the ids of the table of runs, which a foreign key refers to.
pub record Deliveries : Type 0 where
  pub task_runs : List String
  pub actions : List ActionRun
  pub targets : List TargetRun
  pub next_action : ℕ
  pub next_target : ℕ

pub data DeliveryError : Type 0 where
  row_not_found integrity_error : DeliveryError

-- The arguments of `ensure_action`.
pub record Intent : Type 0 where
  pub task_run_id : String
  pub action_id : String
  pub action_version : ℕ
  pub action_type : String
  pub config_hash : String
  pub intent_key : String

-- `_decode` of a row that was selected: a missing row raises.
abbrev pub found {ℓ} : {A : Type 0} {S : Type ℓ} → Option A → S → Result DeliveryError A × S
found none s = (err row_not_found, s)
found (some row) s = (ok row, s)

abbrev pub new_action : Intent → ℕ → ActionRun
new_action intent id = record {
  id = id;
  task_run_id = intent.task_run_id;
  action_id = intent.action_id;
  action_version = intent.action_version;
  action_type = intent.action_type;
  config_hash = intent.config_hash;
  status = "pending";
  outcome = none;
  intent_key = intent.intent_key;
  result_json = none;
  started_at = none;
  finished_at = none;
}

-- UNIQUE(task_run_id, action_id, action_version)
abbrev pub is_version : Intent → ActionRun → Bool
is_version intent a =
    (a.task_run_id == intent.task_run_id && a.action_id == intent.action_id)
    && a.action_version == intent.action_version

-- The INSERT is refused for a run that is not there, and for a version that has a row.
unfoldable pub ensure_action : Intent → Deliveries → Result DeliveryError ActionRun × Deliveries
ensure_action intent s = elim (find (λ a. a.intent_key == intent.intent_key) s.actions) [
  | some row ↦ (ok row, s)
  | none ↦
      if not (elem intent.task_run_id s.task_runs)
      then (err integrity_error, s)
      else if any (is_version intent) s.actions
      then (err integrity_error, s)
      else let actions = s.actions ++ new_action intent s.next_action ∷ [] in
        let s' : Deliveries = record s { actions = actions; next_action = s.next_action + 1 } in
        found (find (λ a. a.id == s.next_action) actions) s'
]

abbrev pub starts : String → Bool
starts status = status == "running" || status == "reconciling"

abbrev pub finishes : String → Bool
finishes status = status == "succeeded" || status == "failed" || status == "skipped"

abbrev pub stamp : Bool → ℕ → Option ℕ
stamp b now = if b then some now else none

-- COALESCE
abbrev pub first_of : {A : Type 0} → Option A → Option A → Option A
first_of none b = b
first_of (some a) b = some a

abbrev pub marked :
    (status : String) (outcome result : Option String) (now : ℕ) → ActionRun → ActionRun
marked status outcome result now a = record a {
  status = status;
  outcome = outcome;
  result_json = first_of result a.result_json;
  started_at = first_of a.started_at (stamp (starts status) now);
  finished_at = first_of (stamp (finishes status) now) a.finished_at;
}

unfoldable pub mark_action :
    (action_run_id : ℕ) (status : String) (outcome result : Option String) (now : ℕ)
    → Deliveries
    → Deliveries
mark_action action_run_id status outcome result now s = record s {
  actions = update (λ a. a.id == action_run_id) (marked status outcome result now) s.actions;
}

abbrev pub is_target : ℕ → String → TargetRun → Bool
is_target action_run_id target_key t =
    t.delivery_action_run_id == action_run_id && t.target_key == target_key

abbrev pub new_target : ℕ → String → ℕ → TargetRun
new_target action_run_id target_key id = record {
  id = id;
  delivery_action_run_id = action_run_id;
  target_key = target_key;
  status = "pending";
  outcome = none;
  remote_ref = none;
  external_id = none;
  external_url = none;
  result_json = none;
  started_at = none;
  finished_at = none;
}

-- INSERT ... ON CONFLICT(delivery_action_run_id,target_key) DO NOTHING, and the SELECT after it. A
-- row that would be inserted for an action that is not there is refused.
unfoldable pub ensure_target :
    (action_run_id : ℕ) (target_key : String)
    → Deliveries
    → Result DeliveryError TargetRun × Deliveries
ensure_target action_run_id target_key s =
    elim (find (is_target action_run_id target_key) s.targets) [
      | some row ↦ (ok row, s)
      | none ↦
          if not (any (λ a. a.id == action_run_id) s.actions)
          then (err integrity_error, s)
          else let targets = s.targets ++ new_target action_run_id target_key s.next_target ∷ [] in
            let s' : Deliveries = record s { targets = targets; next_target = s.next_target + 1 } in
            found (find (is_target action_run_id target_key) targets) s'
    ]

unfoldable pub mark_target :
    (target_run_id : ℕ) (status : String)
    (outcome remote_ref external_id external_url result : Option String) (now : ℕ)
    → Deliveries
    → Deliveries
mark_target target_run_id status outcome remote_ref external_id external_url result now s =
    record s {
      targets =
          update (λ t. t.id == target_run_id)
            (λ t. record t {
              status = status;
              outcome = outcome;
              remote_ref = first_of remote_ref t.remote_ref;
              external_id = first_of external_id t.external_id;
              external_url = first_of external_url t.external_url;
              result_json = first_of result t.result_json;
              started_at = first_of t.started_at (stamp (starts status) now);
              finished_at = first_of (stamp (finishes status) now) t.finished_at;
            })
            s.targets;
    }

unfoldable pub get_action : (action_run_id : ℕ) → Deliveries → Option (ActionRun × List TargetRun)
get_action action_run_id s = elim (find (λ a. a.id == action_run_id) s.actions) [
  | none ↦ none
  | some row ↦ some (row, select (λ t. t.delivery_action_run_id == action_run_id) s.targets)
]
