-- ===== src/Delivery/Tests.antt =====
-- A delivery with a failing and a raising action, and the theorems at it.
use code_fixer.Base.{true, false, none, some, [], ◌∷◌, ◌==◌, text_eq, map, any, ◌≡◌, refl}
use code_fixer.Base.Result.{ok, err}
use code_fixer.Delivery.Coordinator.{
  FrozenDeliveryContext, FinalActionResult, FinalAction, FallbackAction, DeliveryCoordinator,
  new_coordinator, execute_required, execute_fallback, aggregate_outcome, execute_report, results,
  all_succeeded, is_failed_remote, repeated_ids,
}
use code_fixer.Delivery.Stability.{LatestTicket, check}
use code_fixer.Delivery.Store.{
  Deliveries, Intent, integrity_error, new_action, ensure_action, mark_action, marked,
  ensure_target,
}
use code_fixer.Delivery.Intents.{ensure_action_once, ensure_action_conflict}
use code_fixer.Delivery.Outcomes.{execute_report-success, execute_report-fallback}

calls : Unit {0}
unfolding new_coordinator execute_required execute_fallback aggregate_outcome execute_report results
    all_succeeded check ensure_action mark_action ensure_target
calls = tt

abbrev a_context : FrozenDeliveryContext
a_context = record {
  task_id = "t";
  run_id = "r";
  change_version = 1;
  source_id = "s";
  base_revision = "abc";
  patch_path = "p";
  patch_sha256 = "00";
  manifest_path = "m";
  delivery_metadata_path = "d";
  commit_subject = "fix";
  patch_filename = "p.patch";
  ticket_key = "7";
}

abbrev saved : FinalActionResult
saved = record {
  action_id = "a";
  action_type = "patch";
  status = "succeeded";
  outcome = "saved";
  detail = [];
}

abbrev save : FinalAction
save = record { action_id = "a"; action_type = "patch"; execute = λ c. ok saved }

abbrev push : FinalAction
push = record {
  action_id = "b";
  action_type = "gitlabPush";
  execute = λ c. err (record { message = "refused"; type_name = "PushError" });
}

abbrev fall_back : FallbackAction
fall_back = λ c ids patch. ok (record saved { action_id = "f"; action_type = "fallbackPatch" })

abbrev both : DeliveryCoordinator
both = record { actions = save ∷ push ∷ []; fallback_action = some fall_back }

-- The push raises and the patch is saved all the same; the fallback follows.
partial :
    ((execute_report both a_context).outcome ≡ "partial_success")
    × (map (λ r. r.status) (results (execute_report both a_context))
        ≡ "succeeded" ∷ "failed" ∷ "succeeded" ∷ [])
    × (new_coordinator (save ∷ save ∷ []) none ≡ err repeated_ids)
unfolding calls
partial = (refl, refl, refl)

abbrev latest : LatestTicket
latest = record { payload_json = "{}"; external_version = some "2"; eligible = true }

stable :
    ((check (λ p. p) latest (some "2") "{}" "abc" "abc").ready ≡ true)
    × ((check (λ p. p) latest (some "1") "{}" "abc" "abc").code ≡ some "ticket_changed_during_run")
    × ((check (λ p. p) latest (some "2") "{}" "abc" "def").code ≡ some "base_changed_conflict")
unfolding calls
stable = (refl, refl, refl)

execute_report-success_example :
    ((execute_report both a_context).outcome == "success")
    ≡ all_succeeded (execute_report both a_context)
unfolding calls
execute_report-success_example =
    execute_report-success (save ∷ push ∷ []) (some fall_back) both a_context refl

execute_report-fallback_example :
    (any is_failed_remote (execute_report both a_context).required_results ≡ true)
    × (all_succeeded (execute_report both a_context) ≡ false)
    × (((execute_report both a_context).outcome == "success") ≡ false)
unfolding calls
execute_report-fallback_example =
    execute_report-fallback both a_context
      (record saved { action_id = "f"; action_type = "fallbackPatch" }) refl

abbrev an_intent : Intent
an_intent = record {
  task_run_id = "r";
  action_id = "b";
  action_version = 1;
  action_type = "gitlabPush";
  config_hash = "h";
  intent_key = "k";
}

abbrev no_deliveries : Deliveries
no_deliveries = record {
  task_runs = "r" ∷ [];
  actions = [];
  targets = [];
  next_action = 1;
  next_target = 1;
}

abbrev pushed : Deliveries
pushed = mark_action 1 "succeeded" (some "pushed") none 5 (ensure_action an_intent no_deliveries).1

ensure_action_once_example :
    ensure_action (record an_intent { config_hash = "other" }) pushed
    ≡ (ok (marked "succeeded" (some "pushed") none 5 (new_action an_intent 1)), pushed)
unfolding calls
ensure_action_once_example =
    ensure_action_once an_intent (record an_intent { config_hash = "other" }) no_deliveries
      (new_action an_intent 1) 1 "succeeded" (some "pushed") none 5 refl refl refl

ensure_action_conflict_example :
    ensure_action (record an_intent { intent_key = "k2" }) pushed ≡ (err integrity_error, pushed)
unfolding calls
ensure_action_conflict_example =
    ensure_action_conflict an_intent (record an_intent { intent_key = "k2" }) no_deliveries
      (new_action an_intent 1) 1 "succeeded" (some "pushed") none 5 refl refl refl refl refl refl
      refl

-- An action of a run that is not there, and a target of an action that is not there.
foreign_keys :
    (ensure_action (record an_intent { task_run_id = "other" }) no_deliveries
      ≡ (err integrity_error, no_deliveries))
    × (ensure_target 1 "t" no_deliveries ≡ (err integrity_error, no_deliveries))
unfolding calls
foreign_keys = (refl, refl)
