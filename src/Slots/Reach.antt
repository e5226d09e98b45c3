-- ===== src/Slots/Reach.antt =====
-- Every history of the store: the transactions of all callers, in any order and at any times.
use code_fixer.Base.{
  ℕ, ◌<◌, String, true, false, Option, [], ltb, ◌==◌, number_eq, text_eq, ◌≡◌, refl, arith, inl,
  inr, Bool-cases, ◌⊎◌,
}
use code_fixer.Base.Table.{delete, count}
use code_fixer.Base.Query.{length-delete, length-update, All-delete, All-update}
use code_fixer.Slots.Table.{LlmSlotLease, Slots}
use code_fixer.Slots.Store.{
  enqueue, try_acquire, heartbeat_locked, heartbeat, addresses, is_live, extend, release,
  cancel_waiter, reap_expired, snapshot,
}
use code_fixer.Slots.Invariant.{
  IsWithin, reap-IsSound, reap-IsWithin, enqueue-IsSound, cancel_waiter-IsSound,
  heartbeat_locked-IsSound,
}
use code_fixer.Slots.Releases.{release-IsSound}
use code_fixer.Slots.Acquire.{IsSafe, settle-keeps, try_acquire-IsSafe}

abbrev pub empty : Slots
empty = record { waiters = []; leases = []; next_position = 1 }

-- One call of a method of the store.
pub data Call (capacity : ℕ) (s : Slots) : Slots → Type 0 where
  enqueues :
      (request_id owner stage_id : String) (task_run_id : Option String) (ttl_seconds now : ℕ)
      → Call capacity s (enqueue request_id owner stage_id task_run_id ttl_seconds now s).1
  acquires :
      (request_id owner : String) (ttl_seconds now : ℕ)
      → Call capacity s (try_acquire request_id owner capacity ttl_seconds now s).1
  beats :
      (lease : LlmSlotLease) (ttl_seconds now : ℕ)
      → Call capacity s (heartbeat lease ttl_seconds now s).1
  releases : (lease : LlmSlotLease) (now : ℕ) → Call capacity s (release lease now s).1
  cancels :
      (request_id owner : String) (now : ℕ)
      → Call capacity s (cancel_waiter request_id owner now s).1
  reaps : (now : ℕ) → Call capacity s (reap_expired now s).1
  inspects : (asked now : ℕ) → Call capacity s (snapshot asked now s).1

-- What a history of calls reaches from the empty tables.
pub data Reach (capacity : ℕ) : Slots → Type 0 where
  start : Reach capacity empty
  next : {s t : Slots} → Reach capacity s → Call capacity s t → Reach capacity t

leases-enqueue :
    (request_id owner stage_id : String) (task_run_id : Option String) (ttl_seconds now : ℕ)
    (s : Slots)
    → (enqueue request_id owner stage_id task_run_id ttl_seconds now s).1.leases ≡ s.leases
unfolding enqueue
leases-enqueue request_id owner stage_id task_run_id ttl_seconds now s = ground arith

leases-release :
    (lease : LlmSlotLease) (now : ℕ) (s : Slots)
    → (release lease now s).1.leases ≡ delete (addresses lease) s.leases
unfolding release
leases-release lease now s = ground arith

module _ (capacity : ℕ) where
  enqueue-IsWithin :
      (request_id owner stage_id : String) (task_run_id : Option String) (ttl_seconds now : ℕ)
      (s : Slots)
      → IsWithin capacity s
      → IsWithin capacity (enqueue request_id owner stage_id task_run_id ttl_seconds now s).1
  enqueue-IsWithin request_id owner stage_id task_run_id ttl_seconds now s v =
      let same = leases-enqueue request_id owner stage_id task_run_id ttl_seconds now s in
      record { active = rw same v.active; numbered = rw same v.numbered }

  heartbeat-IsSafe :
      (lease : LlmSlotLease) (ttl_seconds now : ℕ) (s : Slots)
      → IsSafe capacity s
      → IsSafe capacity (heartbeat lease ttl_seconds now s).1
  unfolding heartbeat
  heartbeat-IsSafe lease ttl_seconds now s v = elim (Bool-cases (ltb ttl_seconds 1)) [
    | inl e ↦ rw (e, heartbeat) v
    | inr e ↦
        rw (e, heartbeat)
          (settle-keeps (IsSafe capacity) s _ v (record {
            sound = heartbeat_locked-IsSound lease ttl_seconds now s v.sound;
            within = locked (Bool-cases (count (is_live lease now) s.leases == 1));
          }))
  ]
    where
      locked :
          (count (is_live lease now) s.leases == 1) ≡ true
            ⊎ (count (is_live lease now) s.leases == 1) ≡ false
          → IsWithin capacity (heartbeat_locked lease ttl_seconds now s).1
      locked (inl e) =
          rw (e, heartbeat_locked)
            (record {
              active = omega (
                arith,
                length-update (is_live lease now) (extend ttl_seconds now) s.leases,
                v.within.active,
              );
              numbered =
                  All-update (λ l. l.slot_number < capacity) (is_live lease now)
                    (extend ttl_seconds now) s.leases (λ l h. h) v.within.numbered;
            })
      locked (inr e) = rw (e, heartbeat_locked) (reap-IsWithin now s v.within)

  release-IsSafe :
      (lease : LlmSlotLease) (now : ℕ) (s : Slots)
      → IsSafe capacity s
      → IsSafe capacity (release lease now s).1
  release-IsSafe lease now s v = record {
    sound = release-IsSound lease now s v.sound;
    within =
        let left = leases-release lease now s in
        record {
          active =
              rw left (omega (arith, v.within.active, length-delete (addresses lease) s.leases));
          numbered = rw left (All-delete _ (addresses lease) s.leases v.within.numbered);
        };
  }

  Call-IsSafe : {s t : Slots} → Call capacity s t → IsSafe capacity s → IsSafe capacity t
  unfolding cancel_waiter reap_expired snapshot
  Call-IsSafe {s} (enqueues request_id owner stage_id task_run_id ttl_seconds now) v = record {
    sound = enqueue-IsSound request_id owner stage_id task_run_id ttl_seconds now s v.sound;
    within = enqueue-IsWithin request_id owner stage_id task_run_id ttl_seconds now s v.within;
  }
  Call-IsSafe {s} (acquires request_id owner ttl_seconds now) v =
      try_acquire-IsSafe capacity request_id owner ttl_seconds now s v
  Call-IsSafe {s} (beats lease ttl_seconds now) v = heartbeat-IsSafe lease ttl_seconds now s v
  Call-IsSafe {s} (releases lease now) v = release-IsSafe lease now s v
  Call-IsSafe {s} (cancels request_id owner now) v = record {
    sound = cancel_waiter-IsSound request_id owner now s v.sound;
    within = record { active = v.within.active; numbered = v.within.numbered };
  }
  Call-IsSafe {s} (reaps now) v = record {
    sound = reap-IsSound now s v.sound;
    within = reap-IsWithin now s v.within;
  }
  Call-IsSafe {s} (inspects asked now) v = record {
    sound = reap-IsSound now s v.sound;
    within = reap-IsWithin now s v.within;
  }

  -- After any history of calls at one capacity, in any order and at any times: at most
  -- `capacity` leases exist, on distinct slots below `capacity` and for distinct requests, and
  -- exactly the waiters in the state granted hold a lease, each under its own owner.
  pub Reach-IsSafe : {s : Slots} → Reach capacity s → IsSafe capacity s
  Reach-IsSafe start = record {
    sound = record {
      slots_distinct = tt;
      leases_distinct = tt;
      waiters_distinct = tt;
      agree = λ r o. refl;
    };
    within = record { active = omega arith; numbered = tt };
  }
  Reach-IsSafe (next r c) = Call-IsSafe c (Reach-IsSafe r)
