-- ===== src/Delivery/Outcomes.antt =====
-- What the outcome of a delivery says about its actions.
use code_fixer.Base.{
  ◌≤◌, String, Bool, true, false, not, ◌&&◌, Option, none, some, List, [], ◌∷◌, map, ◌==◌, text_eq,
  number_eq, any, all, length, ◌≡◌, refl, sym, ap, ◌∙◌, arith, Bool-cases, inl, inr, eq_iff,
}
use code_fixer.Base.Table.{select}
use code_fixer.Base.Result.{ok}
use code_fixer.Delivery.Coordinator.{
  FinalActionResult, FrozenDeliveryContext, DeliveryCoordinator, FinalAction, FallbackAction,
  new_coordinator, succeeded, terminal, nonempty, is_failed_remote, execute_required,
  execute_fallback, fallback_outcome, aggregate_outcome, execute_report, all_succeeded,
}

select-length : {A : Type 0} (p : A → Bool) (xs : List A) → length (select p xs) ≤ length xs
select-length p [] = omega arith
select-length p (x ∷ xs) = ground (arith, select-length p xs)

select-all :
    {A : Type 0} (p : A → Bool) (xs : List A) → (length (select p xs) == length xs) ≡ all p xs
select-all p [] = refl
select-all p (x ∷ xs) = ground (arith, select-length p xs, select-all p xs)

done_other :
    (r : FinalActionResult) (s : String)
    → succeeded r ≡ true
    → (("succeeded" == s) ≡ false)
    → (r.status == s) ≡ false
done_other r s h e = ap (λ x. x == s) ((eq_iff r.status "succeeded").0 h) ∙ e

-- If every action succeeded, no result has another status.
all_done :
    (rs : List FinalActionResult)
    → all succeeded rs ≡ true
    → (any (λ r. not (terminal r)) rs ≡ false)
      × (nonempty (select (λ r. r.status == "failed") rs) ≡ false)
      × ((nonempty rs && all (λ r. r.status == "skipped") rs) ≡ false)
all_done [] h = (refl, refl, refl)
all_done (r ∷ rs) h =
    let rest = all_done rs (ground arith) in
    let e : succeeded r ≡ true = ground arith in
    ground (arith, rest, e, done_other r "failed" e refl, done_other r "skipped" e refl)

other_outcome : (o : Option FinalActionResult) → (fallback_outcome o == "success") ≡ false
other_outcome none = refl
other_outcome (some r) = elim (Bool-cases (succeeded r)) [ inl e ↦ rw e refl | inr e ↦ rw e refl ]

aggregate_outcome-success :
    (rs : List FinalActionResult) (fallback : Option FinalActionResult)
    → (aggregate_outcome rs fallback == "success") ≡ all succeeded rs
unfolding aggregate_outcome
aggregate_outcome-success rs fallback = elim (Bool-cases (all succeeded rs)) [
  | inl every ↦
      let (over, none_failed, changed) = all_done rs every in
      rw (over, changed, none_failed, select-all succeeded rs ∙ every, every, aggregate_outcome)
        refl
  | inr missed ↦
      let short = select-all succeeded rs ∙ missed in
      let third : (not (nonempty (select (λ r. r.status == "failed") rs))
            && length (select succeeded rs) == length rs)
          ≡ false =
        ground (arith, short) in
      elim (Bool-cases (any (λ r. not (terminal r)) rs)) [
        | inl over ↦ rw (over, missed, aggregate_outcome) refl
        | inr over ↦ elim (Bool-cases (nonempty rs && all (λ r. r.status == "skipped") rs)) [
          | inl idle ↦ rw (over, idle, missed, aggregate_outcome) refl
          | inr idle ↦ elim (Bool-cases (nonempty (select succeeded rs))) [
            | inl part ↦ rw (over, idle, third, part, missed, aggregate_outcome) refl
            | inr part ↦
                rw (over, idle, third, part, missed, aggregate_outcome) (other_outcome fallback)
          ]
        ]
      ]
]

nonempty-map : {A B : Type 0} (f : A → B) (xs : List A) → nonempty (map f xs) ≡ nonempty xs
nonempty-map f [] = refl
nonempty-map f (x ∷ xs) = refl

nonempty-select : {A : Type 0} (p : A → Bool) (xs : List A) → nonempty (select p xs) ≡ any p xs
nonempty-select p [] = refl
nonempty-select p (x ∷ xs) = ground (arith, nonempty-select p xs)

-- A failed remote action is not a success.
any_failed :
    (rs : List FinalActionResult) → any is_failed_remote rs ≡ true → all succeeded rs ≡ false
any_failed [] h = absurd (ground arith)
any_failed (r ∷ rs) h = elim (Bool-cases (succeeded r)) [
  | inl e ↦ ground (arith, e, done_other r "failed" e refl, any_failed rs)
  | inr e ↦ rw e refl
]

-- For a coordinator that __init__ accepts, the outcome of a report is success exactly if every
-- required action succeeded, whatever the fallback did.
pub execute_report-success :
    (actions : List FinalAction) (fallback : Option FallbackAction) (c : DeliveryCoordinator)
    (context : FrozenDeliveryContext)
    → new_coordinator actions fallback ≡ ok c
    → ((execute_report c context).outcome == "success") ≡ all_succeeded (execute_report c context)
unfolding new_coordinator execute_report all_succeeded
execute_report-success actions fallback c context h =
    let some_action : nonempty actions ≡ true = elim (Bool-cases (nonempty actions)) [
      | inl e ↦ e
      | inr e ↦ absurd (ground arith)
    ] in
    let kept : c.actions ≡ actions = ground arith in
    aggregate_outcome-success (execute_report c context).required_results
      (execute_report c context).fallback_result
    ∙ ground
        (arith, nonempty-map (execute_required context) c.actions, ap nonempty kept, some_action)

-- A report has a fallback result only if a remote action failed; then not every required action
-- succeeded, and the outcome is not success.
pub execute_report-fallback :
    (c : DeliveryCoordinator) (context : FrozenDeliveryContext) (r : FinalActionResult)
    → (execute_report c context).fallback_result ≡ some r
    → (any is_failed_remote (execute_report c context).required_results ≡ true)
      × (all_succeeded (execute_report c context) ≡ false)
      × (((execute_report c context).outcome == "success") ≡ false)
unfolding execute_report execute_fallback all_succeeded
execute_report-fallback c context r h =
    let rs = map (execute_required context) c.actions in
    let ids = λ (x : FinalActionResult). x.action_id in
    let failed : any is_failed_remote rs ≡ true =
      elim (Bool-cases (nonempty (map ids (select is_failed_remote rs)))) [
        | inl e ↦
            sym
              (nonempty-map ids (select is_failed_remote rs) ∙ nonempty-select is_failed_remote rs)
            ∙ e
        | inr e ↦ absurd (ground arith)
      ] in
    (
      failed,
      ground (arith, any_failed rs failed),
      aggregate_outcome-success rs (execute_report c context).fallback_result
          ∙ any_failed rs failed,
    )
