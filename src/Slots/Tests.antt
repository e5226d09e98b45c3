-- ===== src/Slots/Tests.antt =====
-- Small runs of the store, and the theorems at them.
use code_fixer.Base.{
  ◌<◌, true, Option, none, some, length, ◌≡◌, refl, arith, text_eq, number_eq, All,
}
use code_fixer.Base.Result.{ok, err}
use code_fixer.Slots.Table.{
  Slots, SlotError, LlmSlotLease, Waiter, owner_mismatch, lease_lost, lease_of, first_queued,
  free_slot, insert_lease, queued, is_queued,
}
use code_fixer.Slots.Store.{
  allocate, renew_waiter, grant, enqueue, try_acquire, heartbeat, release, reap_expired_locked,
}
use code_fixer.Slots.Invariant.{leased_to}
use code_fixer.Slots.Acquire.{IsSafe}
use code_fixer.Slots.Fairness.{IsOldest}
use code_fixer.Slots.Reach.{empty, Reach, start, next, enqueues, acquires, Reach-IsSafe}
use code_fixer.Slots.Turns.{try_acquire-IsOldest, try_acquire_first}
use code_fixer.Slots.Answers.{try_acquire_answers, try_acquire_refused}
use code_fixer.Slots.Expiry.{reap_expired_locked-live, heartbeat_protects, heartbeat_lost}

-- What the tests compute with.
calls : Unit {0}
unfolding enqueue try_acquire allocate renew_waiter grant heartbeat release reap_expired_locked
    first_queued free_slot insert_lease lease_of
calls = tt

abbrev one_waits : Slots
one_waits = (enqueue "a" "w" "repair" none 60 0 empty).1

abbrev two_wait : Slots
two_wait = (enqueue "b" "w" "discovery" (some "run-1") 60 1 one_waits).1

abbrev a_holds : Slots
a_holds = (try_acquire "a" "w" 1 60 2 two_wait).1

abbrev a_lease : LlmSlotLease
a_lease = record {
  slot_number = 0;
  request_id = "a";
  owner = "w";
  task_run_id = none;
  stage_id = "repair";
  acquired_at = 2;
  expires_at = 60_000_002;
  queue_position = 1;
  enqueued_at = 0;
}

two_wait-Reach : Reach 1 two_wait
two_wait-Reach =
    next (next start (enqueues "a" "w" "repair" none 60 0))
      (enqueues "b" "w" "discovery" (some "run-1") 60 1)

a_holds-Reach : Reach 1 a_holds
a_holds-Reach = next two_wait-Reach (acquires "a" "w" 60 2)

a_first : (try_acquire "a" "w" 1 60 2 two_wait).0 ≡ ok (some a_lease)
unfolding calls
a_first = refl

-- The second waiter waits while the only slot is taken, and follows once it is released.
b_follows :
    ((try_acquire "b" "w" 1 60 3 a_holds).0 ≡ ok none)
    × ((try_acquire "b" "x" 1 60 3 a_holds).0 ≡ err owner_mismatch)
    × (length (try_acquire "b" "w" 1 60 3 (release a_lease 3 a_holds).1).1.leases ≡ 1)
unfolding calls
b_follows = (refl, refl, refl)

Reach-IsSafe_example : IsSafe 1 a_holds
Reach-IsSafe_example = Reach-IsSafe 1 a_holds-Reach

try_acquire-IsOldest_example : IsOldest 1 (reap_expired_locked 2 two_wait).1.waiters
unfolding calls
try_acquire-IsOldest_example =
    try_acquire-IsOldest "a" "w" 1 60 2 two_wait a_lease (Reach-IsSafe 1 two_wait-Reach).sound refl
      refl

abbrev a_waits : Waiter
a_waits = record {
  queue_position = 1;
  request_id = "a";
  owner = "w";
  task_run_id = none;
  stage_id = "repair";
  state = queued;
  enqueued_at = 0;
  heartbeat_at = 0;
  expires_at = 60_000_000;
  granted_at = none;
  finished_at = none;
}

try_acquire_first_example :
    (lease : LlmSlotLease) × ((try_acquire "a" "w" 1 60 2 two_wait).0 ≡ ok (some lease))
    × (lease.queue_position ≡ 1)
unfolding calls
try_acquire_first_example =
    try_acquire_first 1 60 2 two_wait a_waits (Reach-IsSafe 1 two_wait-Reach).sound (omega arith)
      refl (omega arith)

reap_expired_locked-live_example :
    All (λ l. 60_000_003 < l.expires_at) (reap_expired_locked 60_000_003 a_holds).1.leases
    × All
        (λ w. is_queued w.state ≡ true → 60_000_003 < w.expires_at)
        (reap_expired_locked 60_000_003 a_holds).1.waiters
reap_expired_locked-live_example = reap_expired_locked-live 60_000_003 a_holds

heartbeat_protects_example :
    leased_to (reap_expired_locked 60_000_003 (heartbeat a_lease 60 10 a_holds).1).1.leases "a" "w"
    ≡ true
unfolding calls
heartbeat_protects_example =
    heartbeat_protects a_lease (record a_lease { expires_at = 60_000_010 }) 60 10 60_000_003 a_holds
      (Reach-IsSafe 1 a_holds-Reach).sound refl (omega arith)

heartbeat_lost_example : heartbeat a_lease 60 60_000_002 a_holds ≡ (err lease_lost, a_holds)
unfolding calls
heartbeat_lost_example = heartbeat_lost a_lease 60 60_000_002 a_holds (omega arith) refl

-- The granted waiter asks again, and the queued one whose slot is taken asks.
try_acquire_answers_example :
    (answer : Option LlmSlotLease) × ((try_acquire "b" "w" 1 60 5 a_holds).0 ≡ ok answer)
unfolding calls
try_acquire_answers_example =
    try_acquire_answers "b" "w" 1 60 5 a_holds (Reach-IsSafe 1 a_holds-Reach).sound (omega arith)
      (omega arith) refl

-- A request whose waiter has expired, and whose tables keep the expired rows.
try_acquire_refused_example :
    (e : SlotError) × (try_acquire "a" "w" 1 60 70_000_000 a_holds ≡ (err e, a_holds))
unfolding calls
try_acquire_refused_example = try_acquire_refused "a" "w" 1 60 70_000_000 a_holds refl
