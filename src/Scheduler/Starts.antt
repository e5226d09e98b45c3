-- ===== src/Scheduler/Starts.antt =====
-- A tick starts queued runs only, and none twice.
use code_fixer.Base.{
  ℕ, ◌-◌, String, Bool, true, false, ◌&&◌, List, [], ◌∷◌, ◌++◌, map, ◌==◌, text_eq, any, length,
  zero, suc, All, All-append, Distinct, Distinct-snoc, elem, ◌≡◌, refl, sym, ap, subst, ◌∙◌, arith,
  Bool-cases, inl, inr, ◌⊎◌, eq_self,
}
use code_fixer.Base.Table.{select, delete}
use code_fixer.Base.Query.{All-map, Distinct-delete}
use code_fixer.Base.Result.{Result}
use code_fixer.Tasks.Table.{TaskRun, Tasks, is_waiting}
use code_fixer.Scheduler.Intervals.{at_least, is_of, active_provider_intervals}
use code_fixer.Scheduler.Ticks.{
  ScheduledConfig, Scheduler, before, insert, ordered, limited, list_queued_run_ids, is_done, reap,
  poll_providers, start_runs, dispatch, tick,
}
use code_fixer.Scheduler.Capacity.{poll_providers-active}

-- The names of the active runs.
abbrev pub names : List (String × Bool) → List String
names active = map (λ (id, done). id) active

elem-names :
    (id : String) (active : List (String × Bool)) → elem id (names active) ≡ any (is_of id) active
elem-names id [] = refl
elem-names id ((k, done) ∷ active) = ground (arith, elem-names id active)

names-append :
    (active more : List (String × Bool)) → names (active ++ more) ≡ names active ++ names more
names-append [] more = refl
names-append (x ∷ active) more = ap (λ ids. x.0 ∷ ids) (names-append active more)

start_runs-Distinct :
    (ids : List String) (active : List (String × Bool))
    → Distinct (names active)
    → Distinct (names (start_runs ids active))
unfolding start_runs
start_runs-Distinct [] active d = d
start_runs-Distinct (id ∷ ids) active d = elim (Bool-cases (any (is_of id) active)) [
  | inl there ↦ rw (there, start_runs) (start_runs-Distinct ids active d)
  | inr new ↦
      rw (new, start_runs)
        (start_runs-Distinct ids (active ++ (id, false) ∷ []) (
          subst (λ ids. Distinct ids) (sym (names-append active ((id, false) ∷ [])))
            (Distinct-snoc (names active) id d (elem-names id active ∙ new))))
]

-- A run that is active after a tick was active before it, or is queued in the tables.
abbrev pub Known : List (String × Bool) → Tasks → String × Bool → Type 0
Known active t (id, done) =
    (any (is_of id) active ≡ true) ⊎ (any (λ q. q.id == id && is_waiting q.status) t.runs ≡ true)

module _ {A : Type 0} where
  All-present : (xs : List A) → All (λ x. (p : A → Bool) → p x ≡ true → any p xs ≡ true) xs
  All-present [] = tt
  All-present (x ∷ xs) = (
    (λ p h. ground arith),
    All-map (λ y. (p : A → Bool) → p y ≡ true → any p xs ≡ true)
        (λ y. (p : A → Bool) → p y ≡ true → any p (x ∷ xs) ≡ true)
        (λ y f p h. ground (arith, f p h)) xs (All-present xs),
  )

  All-select :
      (P : A → Type 0) (p : A → Bool) (xs : List A)
      → All P xs
      → All (λ x. P x × (p x ≡ true)) (select p xs)
  All-select P p [] h = tt
  All-select P p (x ∷ xs) (h, hs) = elim (Bool-cases (p x)) [
    | inl hit ↦ rw hit ((h, hit), All-select P p xs hs)
    | inr miss ↦ rw miss (All-select P p xs hs)
  ]

  All-limited : (P : A → Type 0) (n : ℕ) (xs : List A) → All P xs → All P (limited n xs)
  All-limited P zero xs h = tt
  All-limited P (suc n) [] h = tt
  All-limited P (suc n) (x ∷ xs) (h, hs) = (h, All-limited P n xs hs)

pub All-insert :
    (P : TaskRun → Type 0) (q : TaskRun) (rs : List TaskRun) → P q → All P rs → All P (insert q rs)
All-insert P q [] h hs = (h, tt)
All-insert P q (r ∷ rs) h (g, gs) = elim (Bool-cases (before r q)) [
  | inl first ↦ rw first (g, All-insert P q rs h gs)
  | inr last ↦ rw last (h, (g, gs))
]

All-ordered : (P : TaskRun → Type 0) (qs : List TaskRun) → All P qs → All P (ordered qs)
All-ordered P [] h = tt
All-ordered P (q ∷ qs) (h, hs) = All-insert P q (ordered qs) h (All-ordered P qs hs)

mapped :
    {A B : Type 0} (P : B → Type 0) (f : A → B) (xs : List A)
    → All (λ x. P (f x)) xs
    → All P (map f xs)
mapped P f [] h = tt
mapped P f (x ∷ xs) (h, hs) = (h, mapped P f xs hs)

All-list_queued_run_ids :
    (limit : ℕ) (t : Tasks)
    → All
        (λ id. any (λ q. q.id == id && is_waiting q.status) t.runs ≡ true)
        (list_queued_run_ids limit t)
unfolding list_queued_run_ids
All-list_queued_run_ids limit t =
    let Queued : TaskRun → Type 0 =
      λ q. any (λ x. x.id == q.id && is_waiting x.status) t.runs ≡ true in
    let waiting = select (λ q. is_waiting q.status) t.runs in
    let held : All Queued waiting =
      All-map
        (λ q.
          ((p : TaskRun → Bool) → p q ≡ true → any p t.runs ≡ true) × (is_waiting q.status ≡ true))
        Queued
        (λ q (f, h). f (λ x. x.id == q.id && is_waiting x.status) (ground (arith, h, eq_self q.id)))
        waiting
        (All-select (λ q. (p : TaskRun → Bool) → p q ≡ true → any p t.runs ≡ true)
          (λ q. is_waiting q.status) t.runs (All-present t.runs)) in
    mapped (λ id. any (λ q. q.id == id && is_waiting q.status) t.runs ≡ true) (λ q. q.id)
      (limited limit (ordered waiting))
      (All-limited Queued limit (ordered waiting) (All-ordered Queued waiting held))

start_runs-Known :
    (base : List (String × Bool)) (t : Tasks) (ids : List String) (active : List (String × Bool))
    → All (λ id. any (λ q. q.id == id && is_waiting q.status) t.runs ≡ true) ids
    → All (Known base t) active
    → All (Known base t) (start_runs ids active)
unfolding start_runs
start_runs-Known base t [] active h g = g
start_runs-Known base t (id ∷ ids) active (h, hs) g = elim (Bool-cases (any (is_of id) active)) [
  | inl there ↦ rw (there, start_runs) (start_runs-Known base t ids active hs g)
  | inr new ↦
      rw (new, start_runs)
        (start_runs-Known base t ids (active ++ (id, false) ∷ []) hs
          (All-append (Known base t) active ((id, false) ∷ []) g (inr h, tt)))
]

-- No run is active twice after a tick if none was before it; and a run that is active after it was
-- active before it and not done, or is queued in the tables.
pub tick_starts :
    (poll : String → Tasks → Result String (Unit {0}) × (ℕ × Tasks)) (config : ScheduledConfig)
    (ready : String → Bool) (now : ℕ) (s : Scheduler) (t : Tasks)
    → Distinct (names s.active)
    → Distinct (names (tick poll config ready now (s, t)).0.active)
      × All
          (Known (reap s).active (tick poll config ready now (s, t)).1)
          (tick poll config ready now (s, t)).0.active
unfolding tick dispatch reap
tick_starts poll config ready now s t d =
    let intervals =
      active_provider_intervals (select (λ p. p.enabled && ready p.id) config.projects) in
    let st = poll_providers poll intervals now config.ticket_providers (reap s, t) in
    let queued =
      list_queued_run_ids (at_least 1 config.max_concurrent_tasks - length st.0.active) st.1 in
    let kept : st.0.active ≡ delete is_done s.active =
      poll_providers-active poll intervals now config.ticket_providers (reap s) t in
    (
      start_runs-Distinct queued st.0.active (
          subst (λ a. Distinct (names a)) (sym kept)
            (Distinct-delete (λ (id, done). id) is_done s.active d)),
      start_runs-Known (delete is_done s.active) st.1 queued st.0.active
          (All-list_queued_run_ids (at_least 1 config.max_concurrent_tasks - length st.0.active)
            st.1)
          (subst (λ a. All (Known (delete is_done s.active) st.1) a) (sym kept)
            (All-map
              (λ x.
                (p : String × Bool → Bool) → p x ≡ true → any p (delete is_done s.active) ≡ true)
              (Known (delete is_done s.active) st.1)
              (λ (id, done) f. inl (f (is_of id) (eq_self id))) (delete is_done s.active)
              (All-present (delete is_done s.active)))),
    )
