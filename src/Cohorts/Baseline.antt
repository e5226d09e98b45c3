-- ===== src/Cohorts/Baseline.antt =====
-- The baseline of a cohort: settled once, and never together with a failure, for all histories.
use code_fixer.Base.{
  ℕ, String, Bool, true, false, some, List, [], map, Distinct, ◌==◌, text_eq, if◌then◌else◌, All,
  All-append, ◌≡◌, refl, sym, ap, subst, ◌∙◌, arith, inl, inr, Bool-cases, eq_iff,
}
use code_fixer.Base.Table.{find, update}
use code_fixer.Base.Query.{
  find-passes, find-update, All-update_if, All-update_key, find-snoc_some, Distinct-update,
  Distinct-map-snoc,
}
use code_fixer.Cohorts.Table.{
  CohortState, Cohort, Cohorts, resolving, sealed, is_open, is_failed, is_some,
}
use code_fixer.Cohorts.Store.{
  has_id, settle_revision, conflicts, mark_failed, seals, resolves, move,
}
use code_fixer.Cohorts.Calls.{Calls, Rule, Calls-keeps}

-- A cohort has a failure exactly in the state failed, and then it has no revision.
pub record IsDecided (c : Cohort) : Type 0 where
  pub failure : is_some c.failure_json ≡ is_failed c.state
  pub revision : is_some c.baseline_revision ≡ true → is_failed c.state ≡ false

move-IsDecided :
    (state : CohortState) (now : ℕ) (c : Cohort)
    → is_open c.state ≡ true
    → is_failed state ≡ false
    → IsDecided c
    → IsDecided (move state now c)
move-IsDecided state now c o f d = record { failure = ground (arith, d.failure); revision = λ h. f }

settle-IsDecided :
    (revision : String) (now : ℕ) (c : Cohort)
    → is_failed c.state ≡ false
    → IsDecided c
    → IsDecided (settle_revision revision now c)
settle-IsDecided revision now c fine d = record {
  failure = ground (arith, d.failure);
  revision = λ e. ground arith;
}

-- The ids of the cohorts are distinct, and every cohort is decided one way at most.
abbrev pub AllDecided : List Cohort → Type 0
AllDecided cs = Distinct (map (λ c. c.id) cs) × All IsDecided cs

decided_rule : Rule AllDecided
decided_rule = record {
  grow = λ new_id cohort_key source_type run window_ms now cs h new. (
    Distinct-map-snoc (λ (c : Cohort). c.id) cs _ h.0 new,
    All-append IsDecided cs _ h.1 (record { failure = refl; revision = λ e. refl }, tt),
  );
  advance = λ now cs h. (
    Distinct-update (λ (c : Cohort). c.id) (resolves now) (move resolving now) _ (λ c. refl)
        (Distinct-update (λ (c : Cohort). c.id) (seals now) (move sealed now) cs (λ c. refl) h.0),
    All-update_if IsDecided (resolves now) (move resolving now) _
        (λ c hit d. move-IsDecided resolving now c (ground arith) refl d)
        (All-update_if IsDecided (seals now) (move sealed now) cs
          (λ c hit d. move-IsDecided sealed now c (ground arith) refl d) h.1),
  );
  write = λ id revision now row cs found fits fine h. (
    Distinct-update (λ (c : Cohort). c.id) (has_id id) (settle_revision revision now) cs (λ c. refl)
        h.0,
    All-update_key (λ (c : Cohort). c.id) IsDecided id (settle_revision revision now) cs row h.0
        found (λ d. settle-IsDecided revision now row fine d) h.1,
  );
  give_up = λ id failure now row cs found unknown h. (
    Distinct-update (λ (c : Cohort). c.id) (has_id id) (mark_failed failure now) cs (λ c. refl) h.0,
    All-update_key (λ (c : Cohort). c.id) IsDecided id (mark_failed failure now) cs row h.0 found
        (λ d. record { failure = refl; revision = λ e. absurd (cc (e, unknown)) }) h.1,
  );
}

-- The revision of a cohort.
abbrev pub HasRevision : String → String → List Cohort → Type 0
HasRevision id revision cs =
    (c : Cohort) × (find (has_id id) cs ≡ some c) × (c.baseline_revision ≡ some revision)

HasRevision-update :
    (id revision : String) (p : Cohort → Bool) (f : Cohort → Cohort) (cs : List Cohort)
    → ((c : Cohort) → (f c).id ≡ c.id)
    → ((c : Cohort)
        → find (has_id id) cs ≡ some c
        → p c ≡ true
        → c.baseline_revision ≡ some revision
        → (f c).baseline_revision ≡ some revision)
    → HasRevision id revision cs
    → HasRevision id revision (update p f cs)
HasRevision-update id revision p f cs same keep (c, found, known) = (
  if p c then f c else c,
  find-update (has_id id) p f cs c (λ x. ap (λ i. i == id) (same x)) found,
  elim (Bool-cases (p c)) [ inl hit ↦ rw hit (keep c found hit known) | inr miss ↦ rw miss known ],
)

-- The guard of `resolve` lets through the revision that is there only.
same_revision :
    (id other new revision : String) (row c : Cohort) (cs : List Cohort)
    → find (has_id id) cs ≡ some c
    → find (has_id other) cs ≡ some row
    → has_id other c ≡ true
    → conflicts new row.baseline_revision ≡ false
    → c.baseline_revision ≡ some revision
    → some new ≡ some revision
same_revision id other new revision row c cs at found hit fits known =
    let e : id ≡ other =
      sym ((eq_iff c.id id).0 (find-passes (has_id id) cs c at)) ∙ (eq_iff c.id other).0 hit in
    let both : find (has_id id) cs ≡ some row =
      subst (λ i. find (has_id i) cs ≡ some row) (sym e) found in
    let same : row ≡ c = ground arith in
    let fits' : conflicts new (some revision) ≡ false =
      ap (conflicts new) (sym (ap (λ (x : Cohort). x.baseline_revision) same ∙ known)) ∙ fits in
    ground (arith, eq_iff revision new)

revision_rule : (id revision : String) → Rule (HasRevision id revision)
revision_rule id revision = record {
  grow = λ new_id cohort_key source_type run window_ms now cs (c, found, known) fresh.
      (c, find-snoc_some (has_id id) cs c _ found, known);
  advance = λ now cs h.
      HasRevision-update id revision (resolves now) (move resolving now) _ (λ c. refl)
        (λ c found hit known. known)
        (HasRevision-update id revision (seals now) (move sealed now) cs (λ c. refl)
          (λ c found hit known. known) h);
  write = λ other new now row cs found fits fine.
      HasRevision-update id revision (has_id other) (settle_revision new now) cs (λ c. refl)
        (λ c at hit known. same_revision id other new revision row c cs at found hit fits known);
  give_up = λ other failure now row cs found unknown.
      HasRevision-update id revision (has_id other) (mark_failed failure now) cs (λ c. refl)
        (λ c at hit known. known);
}

-- After any history of calls from empty tables the ids of the cohorts are distinct, a cohort has
-- a failure exactly if it is in the state failed, and none that has a revision is in that state.
pub decided :
    {strip : String → String} (t : Cohorts)
    → Calls strip (record { cohorts = []; members = [] }) t
    → AllDecided t.cohorts
decided t calls = Calls-keeps decided_rule calls (tt, tt)

-- A revision is immutable: once a cohort has one, it has the same one after any history of calls,
-- whoever makes them and at whatever times.
pub revision_immutable :
    {strip : String → String} (id revision : String) (s t : Cohorts)
    → Calls strip s t
    → HasRevision id revision s.cohorts
    → HasRevision id revision t.cohorts
revision_immutable id revision s t calls h = Calls-keeps (revision_rule id revision) calls h
