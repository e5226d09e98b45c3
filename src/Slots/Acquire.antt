-- ===== src/Slots/Acquire.antt =====
-- What `try_acquire` does to the invariants.
use code_fixer.Base.{
  ℕ, ◌+◌, ◌<◌, String, true, false, ◌&&◌, some, map, leb, ltb, ◌==◌, number_eq, text_eq, eq_iff,
  if◌then◌else◌, elem, length, ◌≡◌, refl, sym, subst, arith, inl, inr, Bool-cases, Option-cases,
}
use code_fixer.Base.Table.{find}
use code_fixer.Base.Query.{find-passes, find-update}
use code_fixer.Base.Result.{Result, ok, err, settle}
use code_fixer.Slots.Table.{Waiter, Slots, is_queued, is_granted, free_slot, first_queued}
use code_fixer.Slots.Store.{
  reap_expired_locked, grant, allocate, renew, waits, renew_waiter, acquire_locked, try_acquire,
}
use code_fixer.Slots.Invariant.{
  IsSound, IsWithin, reap-IsSound, reap-IsWithin, renew_waiter-IsSound,
}
use code_fixer.Slots.Numbers.{free_slot_fresh}
use code_fixer.Slots.Grants.{grant_lem, grant-IsSound, grant-IsWithin}

-- Both invariants, at the capacity that the pool is configured with.
pub record IsSafe (capacity : ℕ) (s : Slots) : Type 0 where
  pub sound : IsSound s
  pub within : IsWithin capacity s

pub settle-keeps :
    {S E A : Type 0} (P : S → Type 0) (s : S) (r : Result E A × S) → P s → P r.1 → P (settle s r).1
settle-keeps P s (ok a, s') h k = k
settle-keeps P s (err e, s') h k = h

module _ (capacity : ℕ) where
  -- The search for a turn and a free slot, after the waiter was found queued.
  allocate-IsSafe :
      (waiter row : Waiter) (ttl_seconds now : ℕ) (s : Slots)
      → find (λ w. w.request_id == waiter.request_id) s.waiters ≡ some row
      → row.owner ≡ waiter.owner
      → is_queued row.state ≡ true
      → IsSafe capacity s
      → IsSafe capacity (allocate waiter capacity ttl_seconds now s).1
  unfolding allocate
  allocate-IsSafe waiter row ttl_seconds now s found same waiting v =
      elim (Option-cases (first_queued s.waiters)) [
        | inl nobody ↦ rw (nobody, allocate) v
        | inr (first, is_first) ↦
            rw (is_first, allocate)
              (elim (Bool-cases (first.request_id == waiter.request_id)) [
                | inr later ↦ rw later v
                | inl turn ↦ rw turn (elim (Bool-cases (leb capacity (length s.leases))) [
                  | inl full ↦ rw full v
                  | inr room ↦
                      rw room
                        (elim (Option-cases
                          (free_slot capacity 0 (map (λ l. l.slot_number) s.leases))) [
                            | inl taken ↦ rw taken v
                            | inr (slot_number, free) ↦ rw free (
                                granting slot_number (ground arith)
                                  (free_slot_fresh capacity 0 _ slot_number free))
                          ])
                ])
              ])
      ]
    where
      granting :
          (slot_number : ℕ)
          → length s.leases < capacity
          → (elem slot_number (map (λ l. l.slot_number) s.leases) ≡ false)
            × (slot_number < 0 + capacity)
          → IsSafe capacity (grant waiter slot_number now ttl_seconds s).1
      granting slot_number room (fresh, low) =
          rw (grant_lem s v.sound waiter row slot_number now ttl_seconds found same waiting fresh)
            (record {
              sound =
                  grant-IsSound s v.sound waiter row slot_number now ttl_seconds found same waiting
                    fresh;
              within =
                  grant-IsWithin s v.sound waiter row slot_number now ttl_seconds found same waiting
                    fresh capacity v.within room (omega arith);
            })

  acquire_locked-IsSafe :
      (request_id owner : String) (ttl_seconds now : ℕ) (s : Slots)
      → IsSafe capacity s
      → IsSafe capacity (acquire_locked request_id owner capacity ttl_seconds now s).1
  unfolding acquire_locked renew_waiter
  acquire_locked-IsSafe request_id owner ttl_seconds now s v =
      elim (Option-cases (find (λ w. w.request_id == request_id) s.waiters)) [
        | inl absent ↦ rw (absent, acquire_locked) v
        | inr (waiter, found) ↦
            rw (found, acquire_locked)
              (elim (Bool-cases (waiter.owner == owner)) [
                | inr other ↦ rw other v
                | inl own ↦ rw own (elim (Bool-cases (is_granted waiter.state)) [
                  | inl holder ↦
                      rw holder
                        (elim (Option-cases
                          (find (λ l. l.request_id == request_id && l.owner == owner) s.leases)) [
                            | inl lost ↦ rw lost v
                            | inr (lease, kept) ↦ rw kept v
                          ])
                  | inr other ↦ rw other (elim (Bool-cases (is_queued waiter.state)) [
                    | inl waiting ↦ rw waiting (queued_turn waiter found waiting)
                    | inr closed ↦ rw closed v
                  ])
                ])
              ])
      ]
    where
      queued_turn :
          (waiter : Waiter)
          → find (λ w. w.request_id == request_id) s.waiters ≡ some waiter
          → is_queued waiter.state ≡ true
          → IsSafe capacity
              (allocate waiter capacity ttl_seconds now
                (renew_waiter request_id owner ttl_seconds now s)).1
      queued_turn waiter found waiting =
          let keyed =
            (eq_iff waiter.request_id request_id).0
              (find-passes (λ w. w.request_id == request_id) s.waiters waiter found) in
          let found' =
            subst (λ k. find (λ w. w.request_id == k) s.waiters ≡ some waiter) (sym keyed) found in
          let test = waits request_id owner waiter in
          allocate-IsSafe waiter (if test then renew ttl_seconds now waiter else waiter) ttl_seconds
            now (renew_waiter request_id owner ttl_seconds now s)
            (find-update (λ w. w.request_id == waiter.request_id) (waits request_id owner)
              (renew ttl_seconds now) s.waiters waiter (λ x. refl) found')
            (ground arith) (ground (arith, waiting))
            (record {
              sound = renew_waiter-IsSound request_id owner now s v.sound ttl_seconds;
              within = record { active = v.within.active; numbered = v.within.numbered };
            })

  pub try_acquire-IsSafe :
      (request_id owner : String) (ttl_seconds now : ℕ) (s : Slots)
      → IsSafe capacity s
      → IsSafe capacity (try_acquire request_id owner capacity ttl_seconds now s).1
  unfolding try_acquire
  try_acquire-IsSafe request_id owner ttl_seconds now s v = elim (Bool-cases (ltb capacity 1)) [
    | inl e ↦ rw (e, try_acquire) v
    | inr e ↦
        rw (e, try_acquire)
          (elim (Bool-cases (ltb ttl_seconds 1)) [
            | inl f ↦ rw f v
            | inr f ↦ rw f (
                settle-keeps (IsSafe capacity) s _ v (
                  acquire_locked-IsSafe request_id owner ttl_seconds now
                    (reap_expired_locked now s).1
                    (record {
                      sound = reap-IsSound now s v.sound;
                      within = reap-IsWithin now s v.within;
                    })))
          ])
  ]
