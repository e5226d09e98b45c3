-- ===== src/Scheduler/Capacity.antt =====
-- A tick starts queued runs only, none twice, and no more than the limit allows.
use code_fixer.Base.{
  ℕ, ◌+◌, ◌-◌, ◌≤◌, String, Bool, false, not, ◌&&◌, ◌||◌, Option, none, some, List, [], ◌∷◌, ◌++◌,
  ◌==◌, text_eq, any, length, zero, suc, length-append, length-map, ◌≡◌, refl, ap, ◌∙◌, arith,
  Bool-cases, inl, inr,
}
use code_fixer.Base.Table.{select}
use code_fixer.Base.Query.{length-delete}
use code_fixer.Base.Result.{Result, ok, err}
use code_fixer.Tasks.Table.{TaskRun, Tasks, is_waiting}
use code_fixer.Scheduler.Intervals.{at_least, is_of, lookup, put, active_provider_intervals}
use code_fixer.Scheduler.Ticks.{
  ProviderConfig, ScheduledConfig, Scheduler, ordered, limited, list_queued_run_ids, is_done, reap,
  waits_for, too_early, after_poll, poll_at, poll_provider, poll_providers, start_runs, dispatch,
  tick,
}

length-limited : {A : Type 0} (n : ℕ) (xs : List A) → length (limited n xs) ≤ n
length-limited zero xs = omega arith
length-limited (suc n) [] = omega arith
length-limited (suc n) (x ∷ xs) = omega (arith, length-limited n xs)

length-list_queued_run_ids : (limit : ℕ) (t : Tasks) → length (list_queued_run_ids limit t) ≤ limit
unfolding list_queued_run_ids
length-list_queued_run_ids limit t =
    let rows = limited limit (ordered (select (λ q. is_waiting q.status) t.runs)) in
    omega (
      arith,
      length-map (λ (q : TaskRun). q.id) rows,
      length-limited limit (ordered (select (λ q. is_waiting q.status) t.runs)),
    )

length-start_runs :
    (ids : List String) (active : List (String × Bool))
    → length (start_runs ids active) ≤ length active + length ids
unfolding start_runs
length-start_runs [] active = omega arith
length-start_runs (id ∷ ids) active = elim (Bool-cases (any (is_of id) active)) [
  | inl there ↦ rw (there, start_runs) (omega (arith, length-start_runs ids active))
  | inr new ↦
      let more = active ++ (id, false) ∷ [] in
      rw (new, start_runs)
        (omega (arith, length-start_runs ids more, length-append active ((id, false) ∷ [])))
]

poll_at-active :
    (poll : String → Tasks → Result String (Unit {0}) × (ℕ × Tasks)) (interval : Option ℕ) (now : ℕ)
    (id : String) (s : Scheduler) (t : Tasks)
    → (poll_at poll interval now id (s, t)).0.active ≡ s.active
poll_at-active poll none now id s t = refl
poll_at-active poll (some interval) now id s t =
    elim (Bool-cases (
      waits_for (lookup id s.provider_retry_after) now
      || too_early (lookup id s.provider_last_poll) interval now)) [
        | inl early ↦ rw early refl
        | inr due ↦ rw due (polled (poll id t))
      ]
  where
    polled :
        (r : Result String (Unit {0}) × (ℕ × Tasks))
        → (after_poll id
            (record s { provider_last_poll = put id now s.provider_last_poll })
            r).0.active
          ≡ s.active
    polled (ok _, (end, u)) = refl
    polled (err e, (end, u)) = refl

pub poll_providers-active :
    (poll : String → Tasks → Result String (Unit {0}) × (ℕ × Tasks)) (intervals : List (String × ℕ))
    (now : ℕ) (providers : List ProviderConfig) (s : Scheduler) (t : Tasks)
    → (poll_providers poll intervals now providers (s, t)).0.active ≡ s.active
unfolding poll_providers poll_provider
poll_providers-active poll intervals now [] s t = refl
poll_providers-active poll intervals now (provider ∷ providers) s t =
    elim (Bool-cases (provider.id == "" || not provider.enabled)) [
      | inl off ↦ rw (off, poll_providers) (poll_providers-active poll intervals now providers s t)
      | inr on ↦
          rw (on, poll_providers)
            (let (u, w) = poll_at poll (lookup provider.id intervals) now provider.id (s, t) in
              poll_providers-active poll intervals now providers u w
              ∙ poll_at-active poll (lookup provider.id intervals) now provider.id s t)
    ]

-- A tick leaves at most as many active runs as the configured limit, or one run if the limit is 0, or
-- as many as were active before it if these were more.
pub tick_bounded :
    (poll : String → Tasks → Result String (Unit {0}) × (ℕ × Tasks)) (config : ScheduledConfig)
    (ready : String → Bool) (now : ℕ) (s : Scheduler) (t : Tasks)
    → length (tick poll config ready now (s, t)).0.active
      ≤ at_least (at_least 1 config.max_concurrent_tasks) (length s.active)
unfolding tick dispatch reap
tick_bounded poll config ready now s t =
    let intervals =
      active_provider_intervals (select (λ p. p.enabled && ready p.id) config.projects) in
    let st = poll_providers poll intervals now config.ticket_providers (reap s, t) in
    let capacity = at_least 1 config.max_concurrent_tasks - length st.0.active in
    let kept =
      ap (λ a. length a)
        (poll_providers-active poll intervals now config.ticket_providers (reap s) t) in
    ground (
      arith,
      kept,
      length-delete is_done s.active,
      length-start_runs (list_queued_run_ids capacity st.1) st.0.active,
      length-list_queued_run_ids capacity st.1,
    )
