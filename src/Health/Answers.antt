-- ===== src/Health/Answers.antt =====
-- What `get` answers after a `put`.
use code_fixer.Base.{
  String, true, false, some, List, [], ◌∷◌, ◌++◌, ◌==◌, text_eq, any, ◌≡◌, refl, arith, Bool-cases,
  inl, inr, eq_iff, eq_self,
}
use code_fixer.Base.Text.{strip, or_text}
use code_fixer.Base.Table.{find, update}
use code_fixer.Base.Query.{find-update_other, find-snoc_other}
use code_fixer.Base.Result.{ok}
use code_fixer.Health.{HealthRow, CheckResult, is_project, upsert, payload_of, row_of, put, get}

module _ (row : HealthRow) where
  updated :
      (rows : List HealthRow)
      → any (is_project row.project_id) rows ≡ true
      → find (is_project row.project_id) (update (is_project row.project_id) (λ old. row) rows)
        ≡ some row
  updated [] h = absurd (ground arith)
  updated (r ∷ rows) h = elim (Bool-cases (r.project_id == row.project_id)) [
    | inl same ↦ rw (same, eq_self row.project_id) refl
    | inr other ↦ rw (other, other) (updated rows (ground arith))
  ]

  appended :
      (rows : List HealthRow)
      → any (is_project row.project_id) rows ≡ false
      → find (is_project row.project_id) (rows ++ row ∷ []) ≡ some row
  appended [] h = rw (eq_self row.project_id) refl
  appended (r ∷ rows) h = ground (arith, appended rows)

  found_own :
      (rows : List HealthRow) → find (is_project row.project_id) (upsert row rows) ≡ some row
  found_own rows = elim (Bool-cases (any (is_project row.project_id) rows)) [
    | inl there ↦ rw there (updated rows there)
    | inr new ↦ rw new (appended rows new)
  ]

  found_other :
      (key : String) (rows : List HealthRow)
      → (row.project_id == key) ≡ false
      → find (is_project key) (upsert row rows) ≡ find (is_project key) rows
  found_other key rows apart = elim (Bool-cases (any (is_project row.project_id) rows)) [
    | inl there ↦ rw there (
        find-update_other (is_project key) (is_project row.project_id) (λ old. row) rows
          (λ x h. (
            ground (
              arith,
              eq_iff x.project_id row.project_id,
              eq_iff x.project_id key,
              eq_iff row.project_id key,
            ),
            apart,
          )))
    | inr new ↦ rw new (find-snoc_other (is_project key) rows row apart)
  ]

module _ {C : Type 0} (dumps : C → String) (loads : String → C) where
  -- If the stored text of the checks is read back as the same checks, then after a result with the id
  -- of a project is stored, `put` has returned what `get` answers for this project, and the answer for
  -- every other project is what it was.
  pub get-put :
      (now project_id key : String) (result : CheckResult C) (rows : List HealthRow)
      → loads (dumps result.checks) ≡ result.checks
      → strip (or_text result.project_id "") ≡ project_id
      → (project_id == "") ≡ false
      → (project_id == key) ≡ false
      → ((put dumps loads now result rows).0 ≡ ok (payload_of dumps loads project_id now result))
        × (get dumps loads project_id (put dumps loads now result rows).1
            ≡ some (payload_of dumps loads project_id now result))
        × (get dumps loads key (put dumps loads now result rows).1 ≡ get dumps loads key rows)
  unfolding put get
  get-put now project_id key result rows read id named apart =
      let row = row_of dumps loads (payload_of dumps loads project_id now result) in
      rw (id, named, put)
        (
          refl,
          rw (found_own row rows, read, get) refl,
          rw (found_other row key rows apart, get) refl,
        )
