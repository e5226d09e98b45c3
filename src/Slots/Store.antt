-- ===== src/Slots/Store.antt =====
-- The methods of LlmSlotStore. Each runs in one BEGIN IMMEDIATE transaction.
use code_fixer.Base.{
  ℕ, ◌+◌, String, Bool, true, false, ◌&&◌, Option, none, some, List, [], ◌∷◌, ◌++◌, map, leb, ltb,
  ◌==◌, number_eq, text_eq, if◌then◌else◌, elem, length, not,
}
use code_fixer.Base.Table.{find, update, delete, select, count}
use code_fixer.Base.Result.{Result, ok, err, transaction}
use code_fixer.Slots.Table.{
  WaiterState, Waiter, LeaseRow, LlmSlotLease, LlmSlotSnapshot, Slots, SlotError, queued, granted,
  released, expired, canceled, bad_ttl, bad_capacity, owner_mismatch, waiter_missing, lease_lost,
  assertion_error, seconds, is_queued, is_granted, lease_of, first_queued, free_slot, insert_lease,
}

-- The requests whose leases have expired at `now`.
abbrev pub expired_requests : ℕ → List LeaseRow → List String
expired_requests now leases = map (λ l. l.request_id) (select (λ l. leb l.expires_at now) leases)

abbrev pub close : WaiterState → ℕ → Waiter → Waiter
close state now w = record w { state = state; finished_at = some now }

-- `_reap_expired_locked`
unfoldable pub reap_expired_locked : ℕ → Slots → ℕ × Slots
reap_expired_locked now s =
    let gone = expired_requests now s.leases in
    let leases = delete (λ l. elem l.request_id gone) s.leases in
    let waiters =
      update (λ w. elem w.request_id gone && is_granted w.state) (close expired now) s.waiters in
    let late = λ (w : Waiter). is_queued w.state && leb w.expires_at now in
    (
      length gone + count late waiters,
      record s { leases = leases; waiters = update late (close expired now) waiters },
    )

unfoldable pub enqueue :
    (request_id owner stage_id : String) (task_run_id : Option String) (ttl_seconds now : ℕ)
    → Slots
    → Result SlotError ℕ × Slots
enqueue request_id owner stage_id task_run_id ttl_seconds now s =
    if ltb ttl_seconds 1
    then (err bad_ttl, s)
    else elim (find (λ w. w.request_id == request_id) s.waiters) [
      | some row ↦
          if not (row.owner == owner) then (err owner_mismatch, s) else (ok row.queue_position, s)
      | none ↦ (
        ok s.next_position,
        record s {
          waiters =
              s.waiters
              ++ record {
                queue_position = s.next_position;
                request_id = request_id;
                owner = owner;
                task_run_id = task_run_id;
                stage_id = stage_id;
                state = queued;
                enqueued_at = now;
                heartbeat_at = now;
                expires_at = now + seconds ttl_seconds;
                granted_at = none;
                finished_at = none;
              }
                ∷ [];
          next_position = s.next_position + 1;
        },
      )
    ]

abbrev pub new_row : Waiter → ℕ → ℕ → ℕ → LeaseRow
new_row waiter slot_number now ttl_seconds = record {
  slot_number = slot_number;
  request_id = waiter.request_id;
  owner = waiter.owner;
  task_run_id = waiter.task_run_id;
  stage_id = waiter.stage_id;
  acquired_at = now;
  heartbeat_at = now;
  expires_at = now + seconds ttl_seconds;
  row_version = 1;
}

-- WHERE request_id=? AND state='queued'
abbrev pub is_queued_for : String → Waiter → Bool
is_queued_for request_id w = w.request_id == request_id && is_queued w.state

abbrev pub mark_granted : ℕ → Waiter → Waiter
mark_granted now w = record w { state = granted; granted_at = some now }

-- The tail of `try_acquire`: the lease row and the waiter's state are written, and read back.
unfoldable pub grant : Waiter → ℕ → ℕ → ℕ → Slots → Result SlotError (Option LlmSlotLease) × Slots
grant waiter slot_number now ttl_seconds s =
    elim (insert_lease (new_row waiter slot_number now ttl_seconds) s.leases) [
      | err e ↦ (err e, s)
      | ok leases ↦
          let waiters = update (is_queued_for waiter.request_id) (mark_granted now) s.waiters in
          let s' : Slots = record s { leases = leases; waiters = waiters } in
          elim (find (λ l. l.request_id == waiter.request_id) leases) [
            | none ↦ (err assertion_error, s')
            | some lease ↦ (ok (some (lease_of waiter lease)), s')
          ]
    ]

-- The waiter is queued and its heartbeat is renewed: is it its turn, and is a slot free?
unfoldable pub allocate :
    Waiter → ℕ → ℕ → ℕ → Slots → Result SlotError (Option LlmSlotLease) × Slots
allocate waiter capacity ttl_seconds now s = elim (first_queued s.waiters) [
  | none ↦ (ok none, s)
  | some first ↦
      if not (first.request_id == waiter.request_id)
      then (ok none, s)
      else if leb capacity (length s.leases)
      then (ok none, s)
      else elim (free_slot capacity 0 (map (λ l. l.slot_number) s.leases)) [
        | none ↦ (ok none, s)
        | some slot_number ↦ grant waiter slot_number now ttl_seconds s
      ]
]

-- WHERE request_id=? AND owner=? AND state='queued'
abbrev pub waits : String → String → Waiter → Bool
waits request_id owner w = w.request_id == request_id && w.owner == owner && is_queued w.state

abbrev pub renew : ℕ → ℕ → Waiter → Waiter
renew ttl_seconds now w = record w { heartbeat_at = now; expires_at = now + seconds ttl_seconds }

-- UPDATE llm_slot_waiters SET heartbeat_at=?,expires_at=? WHERE request_id=? AND owner=? AND queued
unfoldable pub renew_waiter : String → String → ℕ → ℕ → Slots → Slots
renew_waiter request_id owner ttl_seconds now s = record s {
  waiters = update (waits request_id owner) (renew ttl_seconds now) s.waiters;
}

-- The body of `try_acquire` after the expired leases and waiters are reaped.
unfoldable pub acquire_locked :
    (request_id owner : String) (capacity ttl_seconds now : ℕ)
    → Slots
    → Result SlotError (Option LlmSlotLease) × Slots
acquire_locked request_id owner capacity ttl_seconds now s =
    elim (find (λ w. w.request_id == request_id) s.waiters) [
      | none ↦ (err waiter_missing, s)
      | some waiter ↦
          if not (waiter.owner == owner)
          then (err owner_mismatch, s)
          else if is_granted waiter.state
          then elim (find (λ l. l.request_id == request_id && l.owner == owner) s.leases) [
            | none ↦ (err lease_lost, s)
            | some lease ↦ (ok (some (lease_of waiter lease)), s)
          ]
          else if not (is_queued waiter.state)
          then (err lease_lost, s)
          else allocate waiter capacity ttl_seconds now
              (renew_waiter request_id owner ttl_seconds now s)
    ]

unfoldable pub try_acquire :
    (request_id owner : String) (capacity ttl_seconds now : ℕ)
    → Slots
    → Result SlotError (Option LlmSlotLease) × Slots
unfolding reap_expired_locked acquire_locked
try_acquire request_id owner capacity ttl_seconds now s =
    if ltb capacity 1
    then (err bad_capacity, s)
    else if ltb ttl_seconds 1
    then (err bad_ttl, s)
    else transaction
        (λ t.
          acquire_locked request_id owner capacity ttl_seconds now (reap_expired_locked now t).1)
        s

-- The rows that an UPDATE or DELETE on behalf of a lease handle addresses.
abbrev pub addresses : LlmSlotLease → LeaseRow → Bool
addresses lease l =
    l.slot_number == lease.slot_number && l.request_id == lease.request_id && l.owner == lease.owner

-- WHERE ... AND expires_at>?
abbrev pub is_live : LlmSlotLease → ℕ → LeaseRow → Bool
is_live lease now l = addresses lease l && ltb now l.expires_at

abbrev pub extend : ℕ → ℕ → LeaseRow → LeaseRow
extend ttl_seconds now l = record l {
  heartbeat_at = now;
  expires_at = now + seconds ttl_seconds;
  row_version = l.row_version + 1;
}

unfoldable pub heartbeat_locked :
    LlmSlotLease → ℕ → ℕ → Slots → Result SlotError LlmSlotLease × Slots
heartbeat_locked lease ttl_seconds now s =
    if count (is_live lease now) s.leases == 1
    then (
      ok (record lease { expires_at = now + seconds ttl_seconds }),
      record s { leases = update (is_live lease now) (extend ttl_seconds now) s.leases },
    )
    else (err lease_lost, (reap_expired_locked now s).1)

unfoldable pub heartbeat : LlmSlotLease → ℕ → ℕ → Slots → Result SlotError LlmSlotLease × Slots
unfolding reap_expired_locked heartbeat_locked
heartbeat lease ttl_seconds now s =
    if ltb ttl_seconds 1
    then (err bad_ttl, s)
    else transaction (heartbeat_locked lease ttl_seconds now) s

-- WHERE request_id=? AND owner=? AND state='granted'
abbrev pub holds : LlmSlotLease → Waiter → Bool
holds lease w = w.request_id == lease.request_id && w.owner == lease.owner && is_granted w.state

unfoldable pub release : LlmSlotLease → ℕ → Slots → Bool × Slots
release lease now s =
    let s' = record s { leases = delete (addresses lease) s.leases } in
    if count (addresses lease) s.leases == 1
    then (true, record s' { waiters = update (holds lease) (close released now) s.waiters })
    else (false, s')

unfoldable pub cancel_waiter : (request_id owner : String) (now : ℕ) → Slots → Bool × Slots
cancel_waiter request_id owner now s =
    let mine = waits request_id owner in
    (count mine s.waiters == 1, record s { waiters = update mine (close canceled now) s.waiters })

unfoldable pub reap_expired : ℕ → Slots → ℕ × Slots
unfolding reap_expired_locked
reap_expired now s = reap_expired_locked now s

unfoldable pub snapshot : ℕ → ℕ → Slots → LlmSlotSnapshot × Slots
unfolding reap_expired_locked
snapshot capacity now s =
    let (reclaimed, s') = reap_expired_locked now s in
    (
      record {
        capacity = capacity;
        active = length s'.leases;
        waiting = count (λ w. is_queued w.state) s'.waiters;
        expired_reclaimed = reclaimed;
      },
      s',
    )
