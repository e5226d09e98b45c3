-- ===== src/Tasks/Attempts.antt =====
-- The attempts of a stage, and the cursor that is read back.
use code_fixer.Base.{
  ℕ, ◌+◌, ◌<◌, String, true, false, none, some, List, [], ◌∷◌, ◌++◌, ◌==◌, text_eq, number_eq,
  if◌then◌else◌, any, ◌≡◌, refl, ap, arith, eq_iff, eq_self, Bool-cases, inl, inr, Option-cases,
  ◌⊎◌, subst,
}
use code_fixer.Base.Table.{find}
use code_fixer.Base.Result.{ok}
use code_fixer.Base.Query.{
  find-passes, find-update, find-snoc, find-snoc_other, find-update_other, any-find,
}
use code_fixer.Tasks.Table.{StageRun, Tasks, is_run}
use code_fixer.Tasks.Stages.{
  is_stage_of, is_attempt, start_stage, max_attempt, next_stage_attempt, is_cursor, get_cursor,
  set_cursor,
}

max_attempt-bounds :
    (run_id stage_id : String) (xs : List StageRun) (n : ℕ)
    → max_attempt run_id stage_id xs < n
    → any (is_attempt run_id stage_id n) xs ≡ false
max_attempt-bounds run_id stage_id [] n h = refl
max_attempt-bounds run_id stage_id (x ∷ xs) n h =
    ground (arith, max_attempt-bounds run_id stage_id xs n)

max_attempt-snoc :
    (run_id stage_id : String) (xs : List StageRun) (a : StageRun)
    → is_stage_of run_id stage_id a ≡ true
    → max_attempt run_id stage_id xs < a.attempt
    → max_attempt run_id stage_id (xs ++ a ∷ []) ≡ a.attempt
max_attempt-snoc run_id stage_id [] a h later = ground (arith, h)
max_attempt-snoc run_id stage_id (x ∷ xs) a h later =
    ground (arith, max_attempt-snoc run_id stage_id xs a h)

-- A stage of a run that exists, started as its next attempt, is not refused: the row is inserted
-- under the next id, and after it the next attempt is one higher.
pub next_stage_attempt-starts :
    (run_id stage_id : String) (s : Tasks)
    → any (is_run run_id) s.runs ≡ true
    → ((start_stage run_id stage_id (next_stage_attempt run_id stage_id s) s).0 ≡ ok s.next_stage)
      × (next_stage_attempt run_id stage_id
            (start_stage run_id stage_id (next_stage_attempt run_id stage_id s) s).1
          ≡ next_stage_attempt run_id stage_id s + 1)
unfolding start_stage next_stage_attempt
next_stage_attempt-starts run_id stage_id s there =
    let n = max_attempt run_id stage_id s.stages + 1 in
    let free = max_attempt-bounds run_id stage_id s.stages n (omega arith) in
    (
      ground (arith, free, there),
      rw (there, free, start_stage)
          (ap (λ m. m + 1)
            (max_attempt-snoc run_id stage_id s.stages _
              (ground (arith, eq_self run_id, eq_self stage_id)) (omega arith))),
    )

-- A cursor that was set is read back by its provider, and no other provider's cursor changes; the
-- empty text is read back as no cursor.
pub get-set_cursor :
    (provider_instance_id other value : String) (s : Tasks)
    → get_cursor other (set_cursor provider_instance_id (some value) s) ≡ (
        if provider_instance_id == other
        then (if value == "" then none else some value)
        else get_cursor other s)
unfolding get_cursor set_cursor
get-set_cursor provider_instance_id other value s =
    elim (Bool-cases (provider_instance_id == other)) [
      | inl same ↦
          let key = (eq_iff provider_instance_id other).0 same in
          rw same (
            subst
              (λ i.
                get_cursor i (set_cursor provider_instance_id (some value) s)
                ≡ (if value == "" then none else some value))
              key (own (Option-cases (find (is_cursor provider_instance_id) s.cursors))))
      | inr differ ↦
          rw differ
            (not_own differ (Option-cases (find (is_cursor provider_instance_id) s.cursors)))
    ]
  where
    own :
        (find (is_cursor provider_instance_id) s.cursors ≡ none)
          ⊎ ((row : String × String) × (find (is_cursor provider_instance_id) s.cursors ≡ some row))
        → get_cursor provider_instance_id (set_cursor provider_instance_id (some value) s)
          ≡ (if value == "" then none else some value)
    own (inl absent) =
        rw (absent, set_cursor)
          (rw
            (
              find-snoc (is_cursor provider_instance_id) s.cursors (provider_instance_id, value)
                  (any-find _ s.cursors absent) (eq_self provider_instance_id),
              get_cursor,
            )
            refl)
    own (inr ((id, old), found)) =
        rw (found, set_cursor)
          (rw
            (
              find-update (is_cursor provider_instance_id) (is_cursor provider_instance_id)
                  (λ (x, y). (x, value)) s.cursors (id, old) (λ x. refl) found,
              find-passes (is_cursor provider_instance_id) s.cursors (id, old) found,
              get_cursor,
            )
            refl)

    not_own :
        (provider_instance_id == other) ≡ false
        → (find (is_cursor provider_instance_id) s.cursors ≡ none)
          ⊎ ((row : String × String) × (find (is_cursor provider_instance_id) s.cursors ≡ some row))
        → get_cursor other (set_cursor provider_instance_id (some value) s) ≡ get_cursor other s
    not_own differ (inl absent) =
        rw (absent, set_cursor)
          (rw
            (
              find-snoc_other (is_cursor other) s.cursors (provider_instance_id, value) differ,
              get_cursor,
            )
            refl)
    not_own differ (inr (row, found)) =
        rw (found, set_cursor)
          (rw
            (
              find-update_other (is_cursor other) (is_cursor provider_instance_id)
                  (λ (x, y). (x, value)) s.cursors
                  (λ x h.
                    let e : (x.0 == other) ≡ false = ground (
                      arith,
                      h,
                      differ,
                      eq_iff x.0 provider_instance_id,
                      eq_iff provider_instance_id other,
                    ) in
                    (e, e)),
              get_cursor,
            )
            refl)
