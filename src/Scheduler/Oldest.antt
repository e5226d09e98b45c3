-- ===== src/Scheduler/Oldest.antt =====
-- The queue of the runs: the oldest are taken first.
use code_fixer.Base.{
  ℕ, ◌≤◌, Bool, true, false, List, [], ◌∷◌, map, text_eq, if◌then◌else◌, All, elem, zero, suc, ◌≡◌,
  arith, Bool-cases, inl, inr, eq_self,
}
use code_fixer.Base.Table.{select}
use code_fixer.Base.Query.{All-map}
use code_fixer.Tasks.Table.{TaskRun, Tasks, is_waiting}
use code_fixer.Scheduler.Ticks.{before, insert, ordered, limited, list_queued_run_ids}
use code_fixer.Scheduler.Starts.{All-insert}

Ordered : List TaskRun → Type 0
Ordered [] = Unit {0}
Ordered (q ∷ qs) = All (λ r. q.created_at ≤ r.created_at) qs × Ordered qs

insert-Ordered : (q : TaskRun) (rs : List TaskRun) → Ordered rs → Ordered (insert q rs)
unfolding Ordered
insert-Ordered q [] h = (tt, tt)
insert-Ordered q (r ∷ rs) (h, hs) = elim (Bool-cases (before r q)) [
  | inl first ↦
      rw first (
        All-insert (λ x. r.created_at ≤ x.created_at) q rs (ground arith) h,
        insert-Ordered q rs hs,
      )
  | inr last ↦
      let under : q.created_at ≤ r.created_at = ground arith in
      rw last (
        (
          under,
          All-map (λ x. r.created_at ≤ x.created_at) (λ x. q.created_at ≤ x.created_at)
              (λ x g. omega (arith, under, g)) rs h,
        ),
        (h, hs),
      )
]

ordered-Ordered : (qs : List TaskRun) → Ordered (ordered qs)
unfolding Ordered
ordered-Ordered [] = tt
ordered-Ordered (q ∷ qs) = insert-Ordered q (ordered qs) (ordered-Ordered qs)

-- A run that is left out by its name is younger than those that are taken.
abbrev Younger : List TaskRun → TaskRun → Type 0
Younger taken r =
    elem r.id (map (λ q. q.id) taken) ≡ false → All (λ q. q.created_at ≤ r.created_at) taken

Younger-limited : (n : ℕ) (qs : List TaskRun) → Ordered qs → All (Younger (limited n qs)) qs
unfolding Ordered
Younger-limited n [] h = tt
Younger-limited zero (q ∷ qs) h = everywhere (q ∷ qs)
  where
    everywhere : (rs : List TaskRun) → All (Younger []) rs
    everywhere [] = tt
    everywhere (r ∷ rs) = ((λ out. tt), everywhere rs)
Younger-limited (suc n) (q ∷ qs) (h, hs) =
    ((λ out. absurd (ground (arith, out, eq_self q.id))), both qs h (Younger-limited n qs hs))
  where
    both :
        (rs : List TaskRun)
        → All (λ r. q.created_at ≤ r.created_at) rs
        → All (Younger (limited n qs)) rs
        → All (Younger (q ∷ limited n qs)) rs
    both [] g gs = tt
    both (r ∷ rs) (g, more) (y, ys) = ((λ out. (g, y (ground arith))), both rs more ys)

module _ (P : TaskRun → Type 0) where
  of_insert : (q : TaskRun) (rs : List TaskRun) → All P (insert q rs) → P q × All P rs
  of_insert q [] h = h
  of_insert q (r ∷ rs) h = split (before r q) h (λ g. of_insert q rs g)
    where
      split :
          (b : Bool)
          → All P (let rest = insert q rs in if b then r ∷ rest else q ∷ r ∷ rs)
          → (All P (insert q rs) → P q × All P rs)
          → P q × (P r × All P rs)
      split true (g, gs) later = let (k, ks) = later gs in (k, (g, ks))
      split false h later = h

  of_ordered : (qs : List TaskRun) → All P (ordered qs) → All P qs
  of_ordered [] h = tt
  of_ordered (q ∷ qs) h = let (g, gs) = of_insert q (ordered qs) h in (g, of_ordered qs gs)

-- The rows whose ids list_queued_run_ids returns.
abbrev pub taken : ℕ → Tasks → List TaskRun
taken limit t = limited limit (ordered (select (λ q. is_waiting q.status) t.runs))

-- No queued run whose id is left out by the limit was created before a run that is returned.
pub list_queued_run_ids_oldest :
    (limit : ℕ) (t : Tasks)
    → All
        (λ r.
          elem r.id (list_queued_run_ids limit t) ≡ false
          → All (λ q. q.created_at ≤ r.created_at) (taken limit t))
        (select (λ q. is_waiting q.status) t.runs)
unfolding list_queued_run_ids
list_queued_run_ids_oldest limit t =
    let waiting = select (λ q. is_waiting q.status) t.runs in
    of_ordered (Younger (taken limit t)) waiting
      (Younger-limited limit (ordered waiting) (ordered-Ordered waiting))
