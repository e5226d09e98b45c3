-- ===== src/Cohorts/Calls.antt =====
-- The calls of the cohort store, and a rule for what all of them keep true of the cohorts.
use code_fixer.Base.{
  ℕ, String, false, ◌||◌, some, List, [], ◌∷◌, ◌++◌, ◌==◌, text_eq, any, ◌≡◌, arith, inl, inr,
  Bool-cases, Option-cases,
}
use code_fixer.Base.Table.{find, update}
use code_fixer.Base.Result.{Result, ok, err, settle}
use code_fixer.Cohorts.Table.{
  Role, Cohort, Cohorts, resolving, sealed, leader, follower, is_failed, is_some, select_membership,
  joinable,
}
use code_fixer.Cohorts.Store.{
  advance_expired_locked, answer, insert_member, create_cohort, join_locked, join_or_create,
  get_for_task, has_id, settle_revision, conflicts, resolve_locked, resolve, mark_failed,
  fail_locked, fail, seals, resolves, move, new_cohort,
}

-- One call of a method that writes.
pub data Call (strip : String → String) (s : Cohorts) : Cohorts → Type 0 where
  joins :
      (new_id cohort_key source_type task_run_id : String) (window_ms now : ℕ)
      → Call strip s (join_or_create new_id cohort_key source_type task_run_id window_ms now s).1
  gets : (task_run_id : String) (now : ℕ) → Call strip s (get_for_task task_run_id now s).1
  resolves_as :
      (cohort_id leader_task_run_id revision : String) (now : ℕ)
      → Call strip s (resolve strip cohort_id leader_task_run_id revision now s).1
  fails :
      (cohort_id leader_task_run_id failure : String) (now : ℕ)
      → Call strip s (fail cohort_id leader_task_run_id failure now s).1

pub data Calls (strip : String → String) (s : Cohorts) : Cohorts → Type 0 where
  done : Calls strip s s
  more : {t u : Cohorts} → Calls strip s t → Call strip t u → Calls strip s u

settle-keeps :
    {S E A : Type 0} (P : S → Type 0) (s : S) (r : Result E A × S) → P s → P r.1 → P (settle s r).1
settle-keeps P s (ok a, s') h k = k
settle-keeps P s (err e, s') h k = h

answer-state : (run : String) (s : Cohorts) → (answer run s).1 ≡ s
unfolding answer
answer-state run s = ground arith

-- What to show of the table of cohorts for each write that the methods make.
pub record Rule (P : List Cohort → Type 0) : Type 0 where
  pub grow :
      (new_id cohort_key source_type run : String) (window_ms now : ℕ) (cs : List Cohort)
      → P cs
      → any (λ c. c.id == new_id) cs ≡ false
      → P (cs ++ new_cohort new_id cohort_key source_type run window_ms now ∷ [])
  pub advance :
      (now : ℕ) (cs : List Cohort)
      → P cs
      → P (update (resolves now) (move resolving now) (update (seals now) (move sealed now) cs))
  pub write :
      (id revision : String) (now : ℕ) (row : Cohort) (cs : List Cohort)
      → find (has_id id) cs ≡ some row
      → conflicts revision row.baseline_revision ≡ false
      → is_failed row.state ≡ false
      → P cs
      → P (update (has_id id) (settle_revision revision now) cs)
  pub give_up :
      (id failure : String) (now : ℕ) (row : Cohort) (cs : List Cohort)
      → find (has_id id) cs ≡ some row
      → is_some row.baseline_revision ≡ false
      → P cs
      → P (update (has_id id) (mark_failed failure now) cs)

module _ {P : List Cohort → Type 0} (rule : Rule P) where
  open rule use {grow, advance, write, give_up}

  insert_member-keeps :
      (id run : String) (role : Role) (now : ℕ) (s : Cohorts)
      → P s.cohorts
      → P (insert_member id run role now s).1.cohorts
  unfolding insert_member
  insert_member-keeps id run role now s h =
      elim (Bool-cases (any (λ m. m.task_run_id == run) s.members)) [
        | inl there ↦ rw (there, insert_member) h
        | inr new ↦ rw (new, insert_member) (rw answer-state h)
      ]

  create_cohort-keeps :
      (new_id cohort_key source_type run : String) (window_ms now : ℕ) (s : Cohorts)
      → P s.cohorts
      → P (create_cohort new_id cohort_key source_type run window_ms now s).1.cohorts
  unfolding create_cohort
  create_cohort-keeps new_id cohort_key source_type run window_ms now s h =
      elim (Bool-cases (any (λ c. c.id == new_id) s.cohorts)) [
        | inl there ↦ rw (there, create_cohort) h
        | inr new ↦
            rw (new, create_cohort)
              (insert_member-keeps new_id run leader now _
                (grow new_id cohort_key source_type run window_ms now s.cohorts h new))
      ]

  join_locked-keeps :
      (new_id cohort_key source_type run : String) (window_ms now : ℕ) (s : Cohorts)
      → P s.cohorts
      → P (join_locked new_id cohort_key source_type run window_ms now s).1.cohorts
  unfolding join_locked
  join_locked-keeps new_id cohort_key source_type run window_ms now s h =
      elim (Option-cases (select_membership run s)) [
        | inr (m, found) ↦
            rw (found, join_locked)
              (elim (Bool-cases (m.cohort.cohort_key == cohort_key)) [
                | inl same ↦ rw same h
                | inr other ↦ rw other h
              ])
        | inl absent ↦
            rw (absent, join_locked)
              (elim (Option-cases (joinable cohort_key source_type now s.cohorts)) [
                | inl nobody ↦
                    rw nobody
                      (create_cohort-keeps new_id cohort_key source_type run window_ms now s h)
                | inr (c, found) ↦ rw found (insert_member-keeps c.id run follower now s h)
              ])
      ]

  resolve_locked-keeps :
      (id run revision : String) (now : ℕ) (s : Cohorts)
      → P s.cohorts
      → P (resolve_locked id run revision now s).1.cohorts
  unfolding resolve_locked
  resolve_locked-keeps id run revision now s h = elim (Option-cases (find (has_id id) s.cohorts)) [
    | inl absent ↦ rw (absent, resolve_locked) h
    | inr (row, found) ↦
        rw (found, resolve_locked)
          (elim (Bool-cases (row.leader_task_run_id == run)) [
            | inr other ↦ rw other h
            | inl leads ↦ rw leads (elim (Bool-cases (conflicts revision row.baseline_revision)) [
              | inl clash ↦ rw clash h
              | inr fits ↦ rw fits (elim (Bool-cases (is_failed row.state)) [
                | inl lost ↦ rw lost h
                | inr fine ↦
                    rw fine
                      (rw answer-state (write id revision now row s.cohorts found fits fine h))
              ])
            ])
          ])
  ]

  fail_locked-keeps :
      (id run failure : String) (now : ℕ) (s : Cohorts)
      → P s.cohorts
      → P (fail_locked id run failure now s).1.cohorts
  unfolding fail_locked
  fail_locked-keeps id run failure now s h = elim (Option-cases (find (has_id id) s.cohorts)) [
    | inl absent ↦ rw (absent, fail_locked) h
    | inr (row, found) ↦
        rw (found, fail_locked)
          (elim (Bool-cases (row.leader_task_run_id == run)) [
            | inr other ↦ rw other h
            | inl leads ↦ rw leads (elim (Bool-cases (is_some row.baseline_revision)) [
              | inl known ↦ rw known h
              | inr unknown ↦ rw unknown (elim (Bool-cases (is_failed row.state)) [
                | inl lost ↦ rw lost (rw answer-state h)
                | inr fine ↦
                    rw fine (rw answer-state (give_up id failure now row s.cohorts found unknown h))
              ])
            ])
          ])
  ]

  get-keeps :
      (run : String) (now : ℕ) (s : Cohorts) → P s.cohorts → P (get_for_task run now s).1.cohorts
  unfolding get_for_task
  get-keeps run now s h =
      elim (Option-cases (select_membership run (advance_expired_locked now s))) [
        | inl absent ↦ rw (absent, get_for_task) h
        | inr (m, found) ↦ rw (found, get_for_task) (advance now s.cohorts h)
      ]

  Call-keeps :
      {strip : String → String} {s t : Cohorts} → Call strip s t → P s.cohorts → P t.cohorts
  unfolding join_or_create resolve fail
  Call-keeps {s} (joins new_id cohort_key source_type run window_ms now) h =
      elim (Bool-cases (source_type == "git" || source_type == "svn")) [
        | inr bad ↦ rw (bad, join_or_create) h
        | inl good ↦
            rw (good, join_or_create)
              (settle-keeps (λ t. P t.cohorts) s _ h
                (join_locked-keeps new_id cohort_key source_type run window_ms now
                  (advance_expired_locked now s) (advance now s.cohorts h)))
      ]
  Call-keeps {s} (gets run now) h = get-keeps run now s h
  Call-keeps {strip} {s} (resolves_as id run revision now) h =
      elim (Bool-cases (strip revision == "")) [
        | inl blank ↦ rw (blank, resolve) h
        | inr full ↦
            rw (full, resolve)
              (settle-keeps (λ t. P t.cohorts) s _ h
                (resolve_locked-keeps id run (strip revision) now s h))
      ]
  Call-keeps {s} (fails id run failure now) h =
      settle-keeps (λ t. P t.cohorts) s _ h (fail_locked-keeps id run failure now s h)

  pub Calls-keeps :
      {strip : String → String} {s t : Cohorts} → Calls strip s t → P s.cohorts → P t.cohorts
  Calls-keeps done h = h
  Calls-keeps (more cs c) h = Call-keeps c (Calls-keeps cs h)
