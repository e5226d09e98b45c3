-- ===== src/Delivery/Coordinator.antt =====
-- The coordinator of the final actions. An action and the fallback are given by their adapters: a
-- call returns a result or raises an exception, of which the text and the type's name are read.
use code_fixer.Base.{
  ℕ, String, Bool, true, false, not, ◌&&◌, ◌||◌, Option, none, some, List, [], ◌∷◌, ◌++◌, map, ◌==◌,
  text_eq, number_eq, if◌then◌else◌, any, all, elem, length,
}
use code_fixer.Base.Table.{find, select}
use code_fixer.Base.Result.{Result, ok, err}

pub data Value : Type 0 where
  text : String → Value
  texts : List String → Value

pub record FrozenDeliveryContext : Type 0 where
  pub task_id : String
  pub run_id : String
  pub change_version : ℕ
  pub source_id : String
  pub base_revision : String
  pub patch_path : String
  pub patch_sha256 : String
  pub manifest_path : String
  pub delivery_metadata_path : String
  pub commit_subject : String
  pub patch_filename : String
  pub ticket_key : String

pub record FinalActionResult : Type 0 where
  pub action_id : String
  pub action_type : String
  pub status : String
  pub outcome : String
  pub detail : List (String × Value)

abbrev pub succeeded : FinalActionResult → Bool
succeeded r = r.status == "succeeded"

abbrev pub terminal : FinalActionResult → Bool
terminal r = r.status == "succeeded" || r.status == "failed" || r.status == "skipped"

pub record Exception : Type 0 where
  pub message : String
  pub type_name : String

pub record FinalAction : Type 0 where
  pub action_id : String
  pub action_type : String
  pub execute : FrozenDeliveryContext → Result Exception FinalActionResult

-- The arguments are the context, the ids of the failed remote actions and the reusable patch.
abbrev pub FallbackAction : Type 0
FallbackAction =
    FrozenDeliveryContext
    → List String
    → Option FinalActionResult
    → Result Exception FinalActionResult

pub record DeliveryCoordinator : Type 0 where
  pub actions : List FinalAction
  pub fallback_action : Option FallbackAction

pub record DeliveryExecutionSummary : Type 0 where
  pub required_results : List FinalActionResult
  pub fallback_result : Option FinalActionResult
  pub outcome : String

pub data CoordinatorError : Type 0 where
  no_actions repeated_ids : CoordinatorError

abbrev pub nonempty : {A : Type 0} → List A → Bool
nonempty [] = false
nonempty (x ∷ xs) = true

-- `len(ids) != len(set(ids))`
abbrev pub repeats : List String → Bool
repeats [] = false
repeats (x ∷ xs) = elem x xs || repeats xs

-- `__init__`
unfoldable pub new_coordinator :
    List FinalAction → Option FallbackAction → Result CoordinatorError DeliveryCoordinator
new_coordinator actions fallback_action =
    if not (nonempty actions)
    then err no_actions
    else if repeats (map (λ a. a.action_id) actions)
    then err repeated_ids
    else ok (record { actions = actions; fallback_action = fallback_action })

abbrev pub settled_required : FinalAction → Result Exception FinalActionResult → FinalActionResult
settled_required action (ok r) = r
settled_required action (err e) = record {
  action_id = action.action_id;
  action_type = action.action_type;
  status = "failed";
  outcome = "failure";
  detail = ("error", text e.message) ∷ ("errorType", text e.type_name) ∷ [];
}

unfoldable pub execute_required : FrozenDeliveryContext → FinalAction → FinalActionResult
execute_required context action = settled_required action (action.execute context)

abbrev pub is_remote : String → Bool
is_remote action_type = action_type == "gitlabPush" || action_type == "githubPr"

abbrev pub is_failed_remote : FinalActionResult → Bool
is_failed_remote r = is_remote r.action_type && r.status == "failed"

abbrev pub get : String → List (String × Value) → Option Value
get key [] = none
get key ((k, v) ∷ rest) = if k == key then some v else get key rest

abbrev pub is_text : String → Option Value → Bool
is_text s none = false
is_text s (some (text t)) = t == s
is_text s (some (texts ts)) = false

-- An empty text or list is false.
abbrev pub is_truthy : Option Value → Bool
is_truthy none = false
is_truthy (some (text t)) = not (t == "")
is_truthy (some (texts ts)) = nonempty ts

abbrev pub is_reusable : FrozenDeliveryContext → FinalActionResult → Bool
is_reusable context r =
    r.action_type == "patch"
    && succeeded r
    && is_text context.patch_sha256 (get "sha256" r.detail)
    && is_truthy (get "path" r.detail)

abbrev pub settled_fallback : List String → Result Exception FinalActionResult → FinalActionResult
settled_fallback failed_remote (ok r) = r
settled_fallback failed_remote (err e) = record {
  action_id = "__fallback_patch__";
  action_type = "fallbackPatch";
  status = "failed";
  outcome = "failure";
  detail =
      ("code", text "fallback_patch_failed")
      ∷ ("error", text e.message)
      ∷ ("errorType", text e.type_name)
      ∷ ("triggeredBy", texts failed_remote)
      ∷ [];
}

unfoldable pub execute_fallback :
    FrozenDeliveryContext
    → Option FallbackAction
    → List FinalActionResult
    → Option FinalActionResult
execute_fallback context fallback_action required_results =
    let failed_remote =
      map (λ (r : FinalActionResult). r.action_id) (select is_failed_remote required_results) in
    if not (nonempty failed_remote) then none else elim fallback_action [
      | none ↦ none
      | some fallback ↦ some (
          settled_fallback failed_remote
            (fallback context failed_remote (find (is_reusable context) required_results)))
    ]

abbrev pub fallback_outcome : Option FinalActionResult → String
fallback_outcome none = "failure"
fallback_outcome (some r) = if succeeded r then "fallback_available" else "fallback_failed"

unfoldable pub aggregate_outcome : List FinalActionResult → Option FinalActionResult → String
aggregate_outcome required_results fallback_result =
    let failed = select (λ r. r.status == "failed") required_results in
    let done = select succeeded required_results in
    if any (λ r. not (terminal r)) required_results
    then "reconciling"
    else if nonempty required_results && all (λ r. r.status == "skipped") required_results
    then "no_change"
    else if not (nonempty failed) && length done == length required_results
    then "success"
    else if nonempty done
    then "partial_success"
    else fallback_outcome fallback_result

unfoldable pub execute_report :
    DeliveryCoordinator → FrozenDeliveryContext → DeliveryExecutionSummary
unfolding execute_required execute_fallback aggregate_outcome
execute_report c context =
    let required_results = map (execute_required context) c.actions in
    let fallback_result = execute_fallback context c.fallback_action required_results in
    record {
      required_results = required_results;
      fallback_result = fallback_result;
      outcome = aggregate_outcome required_results fallback_result;
    }

abbrev pub with_fallback :
    List FinalActionResult → Option FinalActionResult → List FinalActionResult
with_fallback required_results none = required_results
with_fallback required_results (some r) = required_results ++ r ∷ []

-- `DeliveryExecutionSummary.results`, which `execute` returns.
unfoldable pub results : DeliveryExecutionSummary → List FinalActionResult
results summary = with_fallback summary.required_results summary.fallback_result

-- `DeliveryExecutionSummary.succeeded`
unfoldable pub all_succeeded : DeliveryExecutionSummary → Bool
all_succeeded summary = nonempty summary.required_results && all succeeded summary.required_results
