-- ===== src/Slots/Turns.antt =====
-- Who is granted a slot by `try_acquire`, and when.
use code_fixer.Base.{
  ℕ, ◌≤◌, ◌<◌, String, true, false, ◌&&◌, Option, none, some, map, ◌==◌, number_eq, text_eq, eq_iff,
  if◌then◌else◌, length, eq_self, length-map, ◌≡◌, refl, sym, ap, subst, ◌∙◌, arith, inl, inr,
  Bool-cases, Option-cases,
}
use code_fixer.Base.Table.{find}
use code_fixer.Base.Query.{find-passes, find-update, find-any, any-of-find, elem-map, All-of-update}
use code_fixer.Base.Result.{Result, ok, err, settle}
use code_fixer.Slots.Table.{
  Waiter, LlmSlotLease, Slots, is_queued, is_granted, free_slot, first_queued, lease_of,
}
use code_fixer.Slots.Store.{
  reap_expired_locked, grant, allocate, renew, waits, renew_waiter, acquire_locked, try_acquire,
  new_row,
}
use code_fixer.Slots.Invariant.{
  IsSound, granted_to, leased_to, reap-IsSound, renew_waiter-IsSound, leased_to-reap,
}
use code_fixer.Slots.Numbers.{free_slot_fresh, free_slot_exists}
use code_fixer.Slots.Grants.{grant_lem}
use code_fixer.Slots.Fairness.{
  IsOldest, first_queued-IsOldest, first_queued-elem, first_queued-find, first_queued-update,
  first_queued-IsQueued,
}

pub settle-ok : {S E A : Type 0} (s : S) (r : Result E A × S) → (settle s r).0 ≡ r.0
settle-ok s (ok a, s') = refl
settle-ok s (err e, s') = refl

position-grant :
    (waiter : Waiter) (slot_number now ttl_seconds : ℕ) (s : Slots) (lease : LlmSlotLease)
    → (grant waiter slot_number now ttl_seconds s).0 ≡ ok (some lease)
    → lease.queue_position ≡ waiter.queue_position
unfolding grant lease_of
position-grant waiter slot_number now ttl_seconds s lease h = ground arith

allocate_turn :
    (waiter : Waiter) (capacity ttl_seconds now : ℕ) (s : Slots) (lease : LlmSlotLease)
    → (allocate waiter capacity ttl_seconds now s).0 ≡ ok (some lease)
    → (first : Waiter) × (first_queued s.waiters ≡ some first)
      × ((first.request_id == waiter.request_id) ≡ true)
      × (lease.queue_position ≡ waiter.queue_position)
unfolding allocate
allocate_turn waiter capacity ttl_seconds now s lease h =
    elim (Option-cases (first_queued s.waiters)) [
      | inl nobody ↦ absurd (ground arith)
      | inr (first, found) ↦ (
        first,
        found,
        ground arith,
        ground (
          arith,
          position-grant waiter
              (slot_or_zero (free_slot capacity 0 (map (λ l. l.slot_number) s.leases))) now
              ttl_seconds s lease,
        ),
      )
    ]
  where
    slot_or_zero : Option ℕ → ℕ
    slot_or_zero none = 0
    slot_or_zero (some n) = n

-- A call that returns a new lease took the branch of the queued waiters.
acquire_locked_turn :
    (request_id owner : String) (capacity ttl_seconds now : ℕ) (s : Slots) (lease : LlmSlotLease)
    → granted_to s.waiters request_id owner ≡ false
    → (acquire_locked request_id owner capacity ttl_seconds now s).0 ≡ ok (some lease)
    → (waiter : Waiter) × (find (λ w. w.request_id == request_id) s.waiters ≡ some waiter)
      × ((allocate waiter capacity ttl_seconds now
            (renew_waiter request_id owner ttl_seconds now s)).0
          ≡ ok (some lease))
unfolding acquire_locked
acquire_locked_turn request_id owner capacity ttl_seconds now s lease new h =
    elim (Option-cases (find (λ w. w.request_id == request_id) s.waiters)) [
      | inl absent ↦ absurd (ground arith)
      | inr (waiter, found) ↦ (
        waiter,
        found,
        elim (Bool-cases (waiter.owner == owner && is_granted waiter.state)) [
          | inl held ↦ absurd (
              cc (
                new,
                any-of-find (λ w. w.request_id == request_id)
                    (λ w. (w.request_id == request_id && w.owner == owner) && is_granted w.state)
                    s.waiters waiter found
                    (ground (
                      arith,
                      find-passes (λ w. w.request_id == request_id) s.waiters waiter found,
                    )),
              ))
          | inr open_turn ↦ ground arith
        ],
      )
    ]

-- FIFO: in sound tables, if `try_acquire` returns a lease to a request that held none, then no
-- waiter that is still queued after the reaping stands before that lease's queue position.
pub try_acquire-IsOldest :
    (request_id owner : String) (capacity ttl_seconds now : ℕ) (s : Slots) (lease : LlmSlotLease)
    → IsSound s
    → leased_to s.leases request_id owner ≡ false
    → (try_acquire request_id owner capacity ttl_seconds now s).0 ≡ ok (some lease)
    → IsOldest lease.queue_position (reap_expired_locked now s).1.waiters
unfolding try_acquire renew_waiter
try_acquire-IsOldest request_id owner capacity ttl_seconds now s lease v new h =
    let t = (reap_expired_locked now s).1 in
    let sound : IsSound t = reap-IsSound now s v in
    let free : granted_to t.waiters request_id owner ≡ false =
      sound.agree request_id owner ∙ leased_to-reap now s request_id owner ∙ ground arith in
    let body = acquire_locked request_id owner capacity ttl_seconds now t in
    let done : body.0 ≡ ok (some lease) = ground (arith, settle-ok s body) in
    let (waiter, found, turn) =
      acquire_locked_turn request_id owner capacity ttl_seconds now t lease free done in
    let later = renew_waiter request_id owner ttl_seconds now t in
    let (first, oldest, mine, at) =
      allocate_turn waiter capacity ttl_seconds now later lease turn in
    let keyed =
      (eq_iff waiter.request_id request_id).0
        (find-passes (λ w. w.request_id == request_id) t.waiters waiter found) in
    let found' =
      find-update (λ w. w.request_id == request_id) (waits request_id owner) (renew ttl_seconds now)
        t.waiters waiter (λ x. refl) found in
    let row = if waits request_id owner waiter then renew ttl_seconds now waiter else waiter in
    let same : first ≡ row =
      first_queued-find later.waiters first row request_id
        (renew_waiter-IsSound request_id owner now t sound ttl_seconds).waiters_distinct oldest
        (subst (λ k. (first.request_id == k) ≡ true) keyed mine) found' in
    let position : lease.queue_position ≡ first.queue_position =
      at ∙ ground arith ∙ ap (λ (w : Waiter). w.queue_position) (sym same) in
    All-of-update (λ w. is_queued w.state ≡ true → lease.queue_position ≤ w.queue_position)
      (waits request_id owner) (renew ttl_seconds now) t.waiters (λ x k. k)
      (rw position (first_queued-IsOldest later.waiters first oldest))

acquire_locked_first :
    (capacity ttl_seconds now : ℕ) (t : Slots) (first : Waiter)
    → IsSound t
    → first_queued t.waiters ≡ some first
    → length t.leases < capacity
    → (lease : LlmSlotLease) × ((acquire_locked first.request_id first.owner capacity ttl_seconds
          now t).0
        ≡ ok (some lease))
      × (lease.queue_position ≡ first.queue_position)
unfolding acquire_locked renew_waiter allocate lease_of
acquire_locked_first capacity ttl_seconds now t first v oldest room =
    let ids = elem-map (λ (w : Waiter). w.request_id) first.request_id t.waiters in
    let (row, at) =
      find-any (λ w. w.request_id == first.request_id) t.waiters
        (sym ids ∙ first_queued-elem t.waiters first oldest) in
    let same : first ≡ row =
      first_queued-find t.waiters first row first.request_id v.waiters_distinct oldest
        (eq_self first.request_id) at in
    let found : find (λ w. w.request_id == first.request_id) t.waiters ≡ some first =
      at ∙ ap some (sym same) in
    let waiting = first_queued-IsQueued t.waiters first oldest in
    let (slot_number, free) =
      free_slot_exists capacity (map (λ l. l.slot_number) t.leases) (rw length-map room) in
    let rows = waits first.request_id first.owner in
    let later = renew_waiter first.request_id first.owner ttl_seconds now t in
    let first' = if rows first then renew ttl_seconds now first else first in
    let turn : first_queued later.waiters ≡ some first' =
      first_queued-update rows (renew ttl_seconds now) t.waiters (λ w. (refl, refl)) ∙ rw oldest in
    let granted =
      grant_lem later (renew_waiter-IsSound first.request_id first.owner now t v ttl_seconds) first
        first' slot_number now ttl_seconds
        (find-update (λ w. w.request_id == first.request_id) rows (renew ttl_seconds now) t.waiters
          first (λ x. refl) found)
        (ground arith) (ground (arith, waiting))
        (free_slot_fresh capacity 0 _ slot_number free).0 in
    (
      lease_of first (new_row first slot_number now ttl_seconds),
      ground (
        arith,
        found,
        waiting,
        eq_self first.owner,
        turn,
        free,
        granted,
        eq_self first.request_id,
        room,
      ),
      refl,
    )

-- Progress: in sound tables, if after the reaping the oldest queued waiter is `first` and fewer
-- leases than `capacity` are left, then a call of `try_acquire` by that waiter returns a lease at
-- its queue position. No constraint of the tables can fail there, and a free slot is found.
pub try_acquire_first :
    (capacity ttl_seconds now : ℕ) (s : Slots) (first : Waiter)
    → IsSound s
    → 1 ≤ ttl_seconds
    → first_queued (reap_expired_locked now s).1.waiters ≡ some first
    → length (reap_expired_locked now s).1.leases < capacity
    → (lease : LlmSlotLease) × ((try_acquire first.request_id first.owner capacity ttl_seconds now
          s).0
        ≡ ok (some lease))
      × (lease.queue_position ≡ first.queue_position)
unfolding try_acquire
try_acquire_first capacity ttl_seconds now s first v positive oldest room =
    let t = (reap_expired_locked now s).1 in
    let (lease, done, at) =
      acquire_locked_first capacity ttl_seconds now t first (reap-IsSound now s v) oldest room in
    (
      lease,
      ground (
        arith,
        settle-ok s (acquire_locked first.request_id first.owner capacity ttl_seconds now t),
      ),
      at,
    )
