-- ===== src/Delivery/Intents.antt =====
-- An intent is recorded once, and a retry resumes from what was recorded.
use code_fixer.Base.{
  ℕ, String, false, Option, some, ◌==◌, text_eq, number_eq, if◌then◌else◌, any, elem, true,
  Bool-cases, none, ◌≡◌, refl, sym, subst, ◌∙◌, arith, Option-cases, inl, inr, eq_self,
}
use code_fixer.Base.Table.{find}
use code_fixer.Base.Result.{ok, err}
use code_fixer.Base.Query.{find-snoc, find-update, any-find, any-of-find, any-update}
use code_fixer.Delivery.Store.{
  ActionRun, Deliveries, Intent, integrity_error, is_version, new_action, ensure_action, marked,
  mark_action,
}

-- The row of the intent after `ensure_action`.
ensure_action-row :
    (intent : Intent) (s : Deliveries) (row : ActionRun)
    → any (λ a. a.id == s.next_action) s.actions ≡ false
    → (ensure_action intent s).0 ≡ ok row
    → find (λ a. a.intent_key == intent.intent_key) (ensure_action intent s).1.actions ≡ some row
unfolding ensure_action
ensure_action-row intent s row fresh h =
    elim (Option-cases (find (λ (a : ActionRun). a.intent_key == intent.intent_key) s.actions)) [
      | inr (old, there) ↦ rw (there, ensure_action) (there ∙ ground arith)
      | inl absent ↦
          let new = new_action intent s.next_action in
          let back =
            find-snoc (λ (a : ActionRun). a.id == s.next_action) s.actions new fresh
              (eq_self s.next_action) in
          let at =
            find-snoc (λ (a : ActionRun). a.intent_key == intent.intent_key) s.actions new
              (any-find (λ (a : ActionRun). a.intent_key == intent.intent_key) s.actions absent)
              (eq_self intent.intent_key) in
          elim (Bool-cases (elem intent.task_run_id s.task_runs)) [
            | inr unknown ↦ absurd (ground arith)
            | inl known ↦ elim (Bool-cases (any (is_version intent) s.actions)) [
              | inl twice ↦ absurd (ground arith)
              | inr first ↦
                  rw (absent, known, first, ensure_action, back) (at ∙ ground (arith, absent, back))
            ]
          ]
    ]

ensure_action_found :
    (intent : Intent) (s : Deliveries) (row : ActionRun)
    → find (λ a. a.intent_key == intent.intent_key) s.actions ≡ some row
    → ensure_action intent s ≡ (ok row, s)
unfolding ensure_action
ensure_action_found intent s row there = rw (there, ensure_action) refl

-- If the next action id is free, an intent is recorded once: after `ensure_action` and a mark of any
-- action, ensuring the same intent key again, whatever the other arguments are, returns the
-- recorded row with the mark if it was the one marked, and changes nothing.
pub ensure_action_once :
    (intent again : Intent) (s : Deliveries) (row : ActionRun) (action_run_id : ℕ) (status : String)
    (outcome result : Option String) (now : ℕ)
    → any (λ a. a.id == s.next_action) s.actions ≡ false
    → again.intent_key ≡ intent.intent_key
    → (ensure_action intent s).0 ≡ ok row
    → ensure_action again
        (mark_action action_run_id status outcome result now (ensure_action intent s).1)
      ≡ (
        ok (if row.id == action_run_id then marked status outcome result now row else row),
        mark_action action_run_id status outcome result now (ensure_action intent s).1,
      )
unfolding mark_action
ensure_action_once intent again s row action_run_id status outcome result now fresh key h =
    let at =
      find-update (λ (a : ActionRun). a.intent_key == intent.intent_key)
        (λ a. a.id == action_run_id) (marked status outcome result now)
        (ensure_action intent s).1.actions row (λ x. refl)
        (ensure_action-row intent s row fresh h) in
    ensure_action_found again _ _ (
      subst
        (λ k.
          find (λ (a : ActionRun). a.intent_key == k)
            (mark_action action_run_id status outcome result now (ensure_action intent s).1).actions
          ≡ some (if row.id == action_run_id then marked status outcome result now row else row))
        (sym key) at)

-- A new row has the intent's run, action and version.
ensure_action-inserted :
    (intent : Intent) (s : Deliveries) (row : ActionRun)
    → any (λ a. a.id == s.next_action) s.actions ≡ false
    → find (λ a. a.intent_key == intent.intent_key) s.actions ≡ none
    → (ensure_action intent s).0 ≡ ok row
    → is_version intent row ≡ true
unfolding ensure_action
ensure_action-inserted intent s row fresh absent h =
    let back =
      find-snoc (λ (a : ActionRun). a.id == s.next_action) s.actions
        (new_action intent s.next_action) fresh (eq_self s.next_action) in
    let is_new : row ≡ new_action intent s.next_action = ground (arith, back) in
    rw is_new (
      ground (
        arith,
        eq_self intent.task_run_id,
        eq_self intent.action_id,
        eq_self intent.action_version,
      ))

ensure_action_refused :
    (intent : Intent) (s : Deliveries)
    → find (λ a. a.intent_key == intent.intent_key) s.actions ≡ none
    → any (is_version intent) s.actions ≡ true
    → ensure_action intent s ≡ (err integrity_error, s)
unfolding ensure_action
ensure_action_refused intent s absent twice =
    elim (Bool-cases (elem intent.task_run_id s.task_runs)) [
      | inl known ↦ rw (absent, known, twice, ensure_action) refl
      | inr unknown ↦ rw (absent, unknown, ensure_action) refl
    ]

same_version :
    (intent again : Intent) (row : ActionRun)
    → is_version intent row ≡ true
    → again.task_run_id ≡ intent.task_run_id
    → again.action_id ≡ intent.action_id
    → again.action_version ≡ intent.action_version
    → is_version again row ≡ true
same_version intent again row h run action version = rw (run, action, version) h

-- UNIQUE(task_run_id, action_id, action_version): if the next action id is free and an intent whose
-- key no row has is recorded, then also after a mark of any action another intent with the same run,
-- action and version, under a key that still no row has, raises IntegrityError and changes nothing.
pub ensure_action_conflict :
    (intent again : Intent) (s : Deliveries) (row : ActionRun) (action_run_id : ℕ) (status : String)
    (outcome result : Option String) (now : ℕ)
    → any (λ a. a.id == s.next_action) s.actions ≡ false
    → find (λ a. a.intent_key == intent.intent_key) s.actions ≡ none
    → (ensure_action intent s).0 ≡ ok row
    → find
        (λ a. a.intent_key == again.intent_key)
        (mark_action action_run_id status outcome result now (ensure_action intent s).1).actions
      ≡ none
    → again.task_run_id ≡ intent.task_run_id
    → again.action_id ≡ intent.action_id
    → again.action_version ≡ intent.action_version
    → ensure_action again
        (mark_action action_run_id status outcome result now (ensure_action intent s).1)
      ≡ (
        err integrity_error,
        mark_action action_run_id status outcome result now (ensure_action intent s).1,
      )
unfolding mark_action
ensure_action_conflict intent again s row action_run_id status outcome result now fresh new h absent
      run action version =
    let row_new = ensure_action-inserted intent s row fresh new h in
    let there =
      any-of-find (λ (a : ActionRun). a.intent_key == intent.intent_key) (is_version again)
        (ensure_action intent s).1.actions row (ensure_action-row intent s row fresh h)
        (same_version intent again row row_new run action version) in
    ensure_action_refused again _ absent (
      any-update (is_version again) (is_version again) (λ a. a.id == action_run_id)
        (marked status outcome result now) (ensure_action intent s).1.actions (λ x. ground arith)
      ∙ there)
