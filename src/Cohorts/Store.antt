-- ===== src/Cohorts/Store.antt =====
-- The methods of BaselineCohortStore. Each runs in one BEGIN IMMEDIATE transaction.
use code_fixer.Base.{
  ℕ, ◌+◌, ◌*◌, String, Bool, false, not, ◌&&◌, ◌||◌, Option, none, some, [], ◌∷◌, ◌++◌, leb, ◌==◌,
  text_eq, if◌then◌else◌, any,
}
use code_fixer.Base.Table.{find, update, count}
use code_fixer.Base.Result.{Result, ok, err, transaction}
use code_fixer.Cohorts.Table.{
  CohortState, Role, Cohort, Membership, Cohorts, CohortError, opened, resolving, sealed, failed,
  leader, follower, unsupported_source, other_cohort, membership_missing, empty_revision,
  cohort_missing, not_leader, revision_conflict, cohort_failed, cohort_resolved, integrity_error,
  assertion_error, is_open, is_failed, is_some, select_membership, joinable,
}

-- The two UPDATEs of `_advance_expired_locked` on one row: an open cohort whose window has
-- closed is sealed if its revision is known, and resolving if not.
abbrev pub seals : ℕ → Cohort → Bool
seals now c = is_open c.state && leb c.join_deadline now && is_some c.baseline_revision

abbrev pub resolves : ℕ → Cohort → Bool
resolves now c = is_open c.state && leb c.join_deadline now && not (is_some c.baseline_revision)

abbrev pub move : CohortState → ℕ → Cohort → Cohort
move state now c = record c { state = state; updated_at = now; row_version = c.row_version + 1 }

unfoldable pub advance_expired_locked : ℕ → Cohorts → Cohorts
advance_expired_locked now s = record s {
  cohorts =
      update (resolves now) (move resolving now) (update (seals now) (move sealed now) s.cohorts);
}

-- The answer of every method: the membership of a run, which the code asserts to be there.
unfoldable pub answer : String → Cohorts → Result CohortError Membership × Cohorts
unfolding select_membership
answer task_run_id s = elim (select_membership task_run_id s) [
  | none ↦ (err assertion_error, s)
  | some m ↦ (ok m, s)
]

unfoldable pub insert_member :
    String → String → Role → ℕ → Cohorts → Result CohortError Membership × Cohorts
unfolding answer
insert_member cohort_id task_run_id role now s =
    if any (λ m. m.task_run_id == task_run_id) s.members
    then (err integrity_error, s)
    else answer task_run_id (record s {
      members =
          s.members
          ++ record {
            cohort_id = cohort_id;
            task_run_id = task_run_id;
            role = role;
            joined_at = now;
          }
            ∷ [];
    })

-- The row of INSERT INTO baseline_cohorts; the window is in milliseconds and not negative.
abbrev pub new_cohort :
    (new_id cohort_key source_type task_run_id : String) (window_ms now : ℕ) → Cohort
new_cohort new_id cohort_key source_type task_run_id window_ms now = record {
  id = new_id;
  cohort_key = cohort_key;
  source_type = source_type;
  leader_task_run_id = task_run_id;
  state = opened;
  created_at = now;
  join_deadline = now + window_ms * 1_000;
  baseline_revision = none;
  resolved_at = none;
  failure_json = none;
  updated_at = now;
  row_version = 1;
}

-- `new_id` is the value of uuid4().
unfoldable pub create_cohort :
    (new_id cohort_key source_type task_run_id : String) (window_ms now : ℕ)
    → Cohorts
    → Result CohortError Membership × Cohorts
unfolding insert_member
create_cohort new_id cohort_key source_type task_run_id window_ms now s =
    if any (λ c. c.id == new_id) s.cohorts
    then (err integrity_error, s)
    else insert_member new_id task_run_id leader now (record s {
      cohorts =
          s.cohorts ++ new_cohort new_id cohort_key source_type task_run_id window_ms now ∷ [];
    })

-- The body of `join_or_create` after the expired cohorts are advanced.
unfoldable pub join_locked :
    (new_id cohort_key source_type task_run_id : String) (window_ms now : ℕ)
    → Cohorts
    → Result CohortError Membership × Cohorts
unfolding create_cohort insert_member select_membership joinable
join_locked new_id cohort_key source_type task_run_id window_ms now s =
    elim (select_membership task_run_id s) [
      | some existing ↦
          if not (existing.cohort.cohort_key == cohort_key)
          then (err other_cohort, s)
          else (ok existing, s)
      | none ↦ elim (joinable cohort_key source_type now s.cohorts) [
        | none ↦ create_cohort new_id cohort_key source_type task_run_id window_ms now s
        | some cohort ↦ insert_member cohort.id task_run_id follower now s
      ]
    ]

unfoldable pub join_or_create :
    (new_id cohort_key source_type task_run_id : String) (window_ms now : ℕ)
    → Cohorts
    → Result CohortError Membership × Cohorts
unfolding join_locked advance_expired_locked
join_or_create new_id cohort_key source_type task_run_id window_ms now s =
    if not (source_type == "git" || source_type == "svn")
    then (err unsupported_source, s)
    else transaction
        (λ t.
          join_locked new_id cohort_key source_type task_run_id window_ms now
            (advance_expired_locked now t))
        s

unfoldable pub get_for_task : String → ℕ → Cohorts → Result CohortError Membership × Cohorts
unfolding select_membership advance_expired_locked
get_for_task task_run_id now s =
    transaction
      (λ t.
        let t' = advance_expired_locked now t in
        elim (select_membership task_run_id t') [
          | none ↦ (err membership_missing, t')
          | some m ↦ (ok m, t')
        ])
      s

abbrev pub has_id : String → Cohort → Bool
has_id cohort_id c = c.id == cohort_id

-- SET baseline_revision, resolved_at (once), state, updated_at
abbrev pub settle_revision : String → ℕ → Cohort → Cohort
settle_revision revision now c = record c {
  baseline_revision = some revision;
  resolved_at = elim c.resolved_at [ none ↦ some now | some t ↦ some t ];
  state = if leb c.join_deadline now then sealed else opened;
  updated_at = now;
  row_version = c.row_version + 1;
}

abbrev pub conflicts : String → Option String → Bool
conflicts revision none = false
conflicts revision (some previous) = not (previous == revision)

-- The guards of `resolve` on the cohort's row.
unfoldable pub resolve_locked :
    (cohort_id leader_task_run_id revision : String) (now : ℕ)
    → Cohorts
    → Result CohortError Membership × Cohorts
unfolding answer
resolve_locked cohort_id leader_task_run_id revision now s =
    elim (find (has_id cohort_id) s.cohorts) [
      | none ↦ (err cohort_missing, s)
      | some row ↦
          if not (row.leader_task_run_id == leader_task_run_id)
          then (err not_leader, s)
          else if conflicts revision row.baseline_revision
          then (err revision_conflict, s)
          else if is_failed row.state
          then (err cohort_failed, s)
          else answer leader_task_run_id (record s {
            cohorts = update (has_id cohort_id) (settle_revision revision now) s.cohorts;
          })
    ]

-- `strip` is Python's str.strip().
unfoldable pub resolve :
    (strip : String → String) (cohort_id leader_task_run_id baseline_revision : String) (now : ℕ)
    → Cohorts
    → Result CohortError Membership × Cohorts
unfolding resolve_locked
resolve strip cohort_id leader_task_run_id baseline_revision now s =
    let revision = strip baseline_revision in
    if revision == ""
    then (err empty_revision, s)
    else transaction (resolve_locked cohort_id leader_task_run_id revision now) s

abbrev pub mark_failed : String → ℕ → Cohort → Cohort
mark_failed failure now c = record c {
  state = failed;
  failure_json = some failure;
  updated_at = now;
  row_version = c.row_version + 1;
}

unfoldable pub fail_locked :
    (cohort_id leader_task_run_id failure : String) (now : ℕ)
    → Cohorts
    → Result CohortError Membership × Cohorts
unfolding answer
fail_locked cohort_id leader_task_run_id failure now s = elim (find (has_id cohort_id) s.cohorts) [
  | none ↦ (err cohort_missing, s)
  | some row ↦
      if not (row.leader_task_run_id == leader_task_run_id)
      then (err not_leader, s)
      else if is_some row.baseline_revision
      then (err cohort_resolved, s)
      else if is_failed row.state
      then answer leader_task_run_id s
      else answer leader_task_run_id
          (record s { cohorts = update (has_id cohort_id) (mark_failed failure now) s.cohorts })
]

unfoldable pub fail :
    (cohort_id leader_task_run_id failure : String) (now : ℕ)
    → Cohorts
    → Result CohortError Membership × Cohorts
unfolding fail_locked
fail cohort_id leader_task_run_id failure now s =
    transaction (fail_locked cohort_id leader_task_run_id failure now) s

unfoldable pub member_count : String → Cohorts → ℕ
member_count cohort_id s = count (λ m. m.cohort_id == cohort_id) s.members
