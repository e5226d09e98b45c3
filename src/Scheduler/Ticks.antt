-- ===== src/Scheduler/Ticks.antt =====
-- `Scheduler.tick` after the configuration is loaded and the health of the projects is refreshed.
use code_fixer.Base.{
  ℕ, ◌+◌, ◌-◌, ◌*◌, String, Bool, false, not, ◌&&◌, ◌||◌, Option, none, some, List, [], ◌∷◌, ◌++◌,
  map, ltb, leb, ◌==◌, text_eq, if◌then◌else◌, any, length, zero, suc,
}
use code_fixer.Base.Text.{text_ltb}
use code_fixer.Base.Table.{select, delete}
use code_fixer.Base.Result.{Result, ok, err}
use code_fixer.Tasks.Table.{TaskRun, Tasks, is_waiting}
use code_fixer.Scheduler.Intervals.{
  ScheduledProject, at_least, is_of, lookup, put, active_provider_intervals,
}

pub record ProviderConfig : Type 0 where
  pub id : String
  pub enabled : Bool

pub record ScheduledConfig : Type 0 where
  pub projects : List ScheduledProject
  pub ticket_providers : List ProviderConfig
  pub max_concurrent_tasks : ℕ

-- A run in `_active`, with whether its task is done.
pub record Scheduler : Type 0 where
  pub active : List (String × Bool)
  pub provider_last_poll : List (String × ℕ)
  pub provider_retry_after : List (String × ℕ)

-- PROVIDER_FAILURE_BACKOFF_SECONDS, and seconds as microseconds
abbrev pub provider_failure_backoff : ℕ
provider_failure_backoff = 900000000

abbrev pub microseconds_of : ℕ → ℕ
microseconds_of seconds = seconds * 1000000

-- The order of created_at, then id.
abbrev pub before : TaskRun → TaskRun → Bool
before q r = ltb q.created_at r.created_at || (leb q.created_at r.created_at && text_ltb q.id r.id)

abbrev pub insert : TaskRun → List TaskRun → List TaskRun
insert q [] = q ∷ []
insert q (r ∷ rs) = let rest = insert q rs in if before r q then r ∷ rest else q ∷ r ∷ rs

abbrev pub ordered : List TaskRun → List TaskRun
ordered [] = []
ordered (q ∷ qs) = insert q (ordered qs)

-- LIMIT n
abbrev pub limited {ℓ} : {A : Type ℓ} → ℕ → List A → List A
limited zero xs = []
limited (suc n) [] = []
limited (suc n) (x ∷ xs) = x ∷ limited n xs

-- `TaskStore.list_queued_run_ids`
unfoldable pub list_queued_run_ids : (limit : ℕ) → Tasks → List String
list_queued_run_ids limit t =
    map (λ q. q.id) (limited limit (ordered (select (λ q. is_waiting q.status) t.runs)))

abbrev pub is_done : String × Bool → Bool
is_done (run_id, done) = done

-- `_reap`
unfoldable pub reap : Scheduler → Scheduler
reap s = record s { active = delete is_done s.active }

abbrev pub waits_for : Option ℕ → ℕ → Bool
waits_for none now = false
waits_for (some time) now = ltb now time

-- The loop over the queued runs: a run that is active is passed over.
unfoldable pub start_runs : List String → List (String × Bool) → List (String × Bool)
start_runs [] active = active
start_runs (run_id ∷ run_ids) active =
    start_runs run_ids
      (if any (is_of run_id) active then active else active ++ (run_id, false) ∷ [])

-- The capacity is 0 where the source returns, at a capacity of 0 or less.
unfoldable pub dispatch : (limit : ℕ) → Scheduler × Tasks → Scheduler × Tasks
unfolding start_runs list_queued_run_ids
dispatch limit (s, t) = (
  record s {
    active = start_runs (list_queued_run_ids (at_least 1 limit - length s.active) t) s.active;
  },
  t,
)

-- The interval since the last poll is not over.
abbrev pub too_early : (last : Option ℕ) (interval now : ℕ) → Bool
too_early none interval now = false
too_early (some last) interval now = ltb now (last + microseconds_of interval)

-- A provider is polled: `poll` changes the tables, and ends at a time with a result or an exception.
abbrev pub after_poll :
    String → Scheduler → Result String (Unit {0}) × (ℕ × Tasks) → Scheduler × Tasks
after_poll provider_id s (ok _, (end, t)) =
    (record s { provider_retry_after = delete (is_of provider_id) s.provider_retry_after }, t)
after_poll provider_id s (err e, (end, t)) = (
  record s {
    provider_retry_after = put provider_id (end + provider_failure_backoff) s.provider_retry_after;
  },
  t,
)

module _ (poll : String → Tasks → Result String (Unit {0}) × (ℕ × Tasks)) where
  abbrev pub poll_at :
      (interval : Option ℕ) (now : ℕ) → String → Scheduler × Tasks → Scheduler × Tasks
  poll_at none now provider_id (s, t) = (s, t)
  poll_at (some interval) now provider_id (s, t) =
      if waits_for (lookup provider_id s.provider_retry_after) now
        || too_early (lookup provider_id s.provider_last_poll) interval now
      then (s, t)
      else after_poll provider_id
          (record s { provider_last_poll = put provider_id now s.provider_last_poll })
          (poll provider_id t)

  -- The body of the loop over the providers.
  unfoldable pub poll_provider :
      List (String × ℕ) → (now : ℕ) → ProviderConfig → Scheduler × Tasks → Scheduler × Tasks
  poll_provider intervals now provider st =
      if provider.id == "" || not provider.enabled
      then st
      else poll_at (lookup provider.id intervals) now provider.id st

  unfoldable pub poll_providers :
      List (String × ℕ) → (now : ℕ) → List ProviderConfig → Scheduler × Tasks → Scheduler × Tasks
  unfolding poll_provider
  poll_providers intervals now [] st = st
  poll_providers intervals now (provider ∷ providers) st =
      poll_providers intervals now providers (poll_provider intervals now provider st)

  unfoldable pub tick :
      ScheduledConfig → (ready : String → Bool) (now : ℕ) → Scheduler × Tasks → Scheduler × Tasks
  unfolding reap active_provider_intervals poll_providers dispatch
  tick config ready now (s, t) =
      let healthy = select (λ p. p.enabled && ready p.id) config.projects in
      dispatch config.max_concurrent_tasks
        (poll_providers (active_provider_intervals healthy) now config.ticket_providers (reap s, t))
