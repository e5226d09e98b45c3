-- ===== src/Slots/Answers.antt =====
-- When `try_acquire` raises, and when it answers with a lease or with None.
use code_fixer.Base.{
  ℕ, ◌≤◌, String, Bool, true, false, ◌&&◌, ◌||◌, Option, none, some, List, [], ◌∷◌, map, leb, ltb,
  ◌==◌, number_eq, text_eq, eq_iff, if◌then◌else◌, any, length, ◌≡◌, refl, sym, subst, ◌∙◌, arith,
  inl, inr, Bool-cases, Option-cases,
}
use code_fixer.Base.Table.{find}
use code_fixer.Base.Query.{find-passes, find-update, find-any, any-of-find, any_unique, any-find}
use code_fixer.Base.Result.{Result, ok, err, settle}
use code_fixer.Slots.Table.{
  Waiter, LlmSlotLease, Slots, SlotError, is_queued, is_granted, free_slot, first_queued, lease_of,
  waiter_missing, owner_mismatch, lease_lost, bad_capacity, bad_ttl,
}
use code_fixer.Slots.Store.{
  reap_expired_locked, allocate, renew, waits, renew_waiter, acquire_locked, try_acquire, new_row,
}
use code_fixer.Slots.Invariant.{IsSound, reap-IsSound, renew_waiter-IsSound}
use code_fixer.Slots.Numbers.{free_slot_fresh}
use code_fixer.Slots.Grants.{grant_lem}
use code_fixer.Slots.Turns.{settle-ok}

-- A waiter of the request and the owner that is queued or granted.
abbrev pub has_place : String → String → Waiter → Bool
has_place request_id owner w =
    (w.request_id == request_id && w.owner == owner) && (is_queued w.state || is_granted w.state)

-- A result that is not an exception.
abbrev Answered : Result SlotError (Option LlmSlotLease) → Type 0
Answered r = (answer : Option LlmSlotLease) × (r ≡ ok answer)

allocate-Answered :
    (waiter row : Waiter) (capacity ttl_seconds now : ℕ) (s : Slots)
    → IsSound s
    → find (λ w. w.request_id == waiter.request_id) s.waiters ≡ some row
    → row.owner ≡ waiter.owner
    → is_queued row.state ≡ true
    → Answered (allocate waiter capacity ttl_seconds now s).0
unfolding allocate
allocate-Answered waiter row capacity ttl_seconds now s v found same waiting =
    elim (Option-cases (first_queued s.waiters)) [
      | inl nobody ↦ (none, rw (nobody, allocate) refl)
      | inr (first, is_first) ↦ elim (Bool-cases (first.request_id == waiter.request_id)) [
        | inr later ↦ (none, rw (is_first, later, allocate) refl)
        | inl turn ↦ elim (Bool-cases (leb capacity (length s.leases))) [
          | inl full ↦ (none, rw (is_first, turn, full, allocate) refl)
          | inr room ↦
              elim (Option-cases (free_slot capacity 0 (map (λ l. l.slot_number) s.leases))) [
                | inl taken ↦ (none, rw (is_first, turn, room, taken, allocate) refl)
                | inr (slot_number, free) ↦ (
                  some (lease_of waiter (new_row waiter slot_number now ttl_seconds)),
                  rw
                      (
                        is_first,
                        turn,
                        room,
                        free,
                        grant_lem s v waiter row slot_number now ttl_seconds found same waiting
                            (free_slot_fresh capacity 0 _ slot_number free).0,
                        allocate,
                      )
                      refl,
                )
              ]
        ]
      ]
    ]

acquire_locked-Answered :
    (request_id owner : String) (capacity ttl_seconds now : ℕ) (s : Slots)
    → IsSound s
    → any (has_place request_id owner) s.waiters ≡ true
    → Answered (acquire_locked request_id owner capacity ttl_seconds now s).0
unfolding acquire_locked renew_waiter
acquire_locked-Answered request_id owner capacity ttl_seconds now s v place =
    elim (Option-cases (find (λ w. w.request_id == request_id) s.waiters)) [
      | inl absent ↦
          absurd
            (nobody s.waiters (any-find (λ w. w.request_id == request_id) s.waiters absent) place)
      | inr (waiter, found) ↦
          let placed : has_place request_id owner waiter ≡ true =
            sym (
              any_unique (λ (w : Waiter). w.request_id) (has_place request_id owner) request_id
                s.waiters waiter (λ w h. ground (arith, eq_iff w.request_id request_id))
                v.waiters_distinct found)
            ∙ place in
          elim (Bool-cases (is_granted waiter.state)) [
            | inl held ↦
                let mine =
                  sym (v.agree request_id owner)
                  ∙ any-of-find (λ w. w.request_id == request_id)
                      (λ w. (w.request_id == request_id && w.owner == owner) && is_granted w.state)
                      s.waiters waiter found (ground arith) in
                let (lease, at) =
                  find-any (λ l. l.request_id == request_id && l.owner == owner) s.leases mine in
                (some (lease_of waiter lease), ground (arith, found, at))
            | inr open_turn ↦
                let keyed : waiter.request_id ≡ request_id =
                  (eq_iff waiter.request_id request_id).0
                    (find-passes (λ w. w.request_id == request_id) s.waiters waiter found) in
                let rows = waits request_id owner in
                let row = if rows waiter then renew ttl_seconds now waiter else waiter in
                let found' =
                  find-update (λ w. w.request_id == request_id) rows (renew ttl_seconds now)
                    s.waiters waiter (λ x. refl) found in
                let (answer, done) =
                  allocate-Answered waiter row capacity ttl_seconds now
                    (renew_waiter request_id owner ttl_seconds now s)
                    (renew_waiter-IsSound request_id owner now s v ttl_seconds)
                    (subst
                      (λ k.
                        find (λ w. w.request_id == k)
                          (renew_waiter request_id owner ttl_seconds now s).waiters
                        ≡ some row)
                      (sym keyed) found')
                    (ground arith) (ground arith) in
                (answer, ground (arith, found, done))
          ]
    ]
  where
    nobody :
        (ws : List Waiter)
        → any (λ w. w.request_id == request_id) ws ≡ false
        → any (has_place request_id owner) ws ≡ true
        → ⊥
    nobody [] h k = ground arith
    nobody (w ∷ ws) h k = ground (arith, nobody ws)

-- In sound tables, a call of `try_acquire` with a positive capacity and TTL does not raise if the
-- request has a waiter of its owner that is still queued or granted after the reaping: it returns a
-- lease or None.
pub try_acquire_answers :
    (request_id owner : String) (capacity ttl_seconds now : ℕ) (s : Slots)
    → IsSound s
    → 1 ≤ capacity
    → 1 ≤ ttl_seconds
    → any (has_place request_id owner) (reap_expired_locked now s).1.waiters ≡ true
    → (answer : Option LlmSlotLease) × ((try_acquire request_id owner capacity ttl_seconds now s).0
        ≡ ok answer)
unfolding try_acquire
try_acquire_answers request_id owner capacity ttl_seconds now s v big long place =
    let t = (reap_expired_locked now s).1 in
    let (answer, done) =
      acquire_locked-Answered request_id owner capacity ttl_seconds now t (reap-IsSound now s v)
        place in
    (
      answer,
      ground
          (arith, settle-ok s (acquire_locked request_id owner capacity ttl_seconds now t), done),
    )

acquire_locked_refused :
    (request_id owner : String) (capacity ttl_seconds now : ℕ) (s : Slots)
    → any (has_place request_id owner) s.waiters ≡ false
    → (e : SlotError) × ((acquire_locked request_id owner capacity ttl_seconds now s).0 ≡ err e)
unfolding acquire_locked
acquire_locked_refused request_id owner capacity ttl_seconds now s none_left =
    elim (Option-cases (find (λ w. w.request_id == request_id) s.waiters)) [
      | inl absent ↦ (waiter_missing, rw (absent, acquire_locked) refl)
      | inr (waiter, found) ↦
          let keyed = find-passes (λ w. w.request_id == request_id) s.waiters waiter found in
          elim (Bool-cases (has_place request_id owner waiter)) [
            | inl placed ↦ absurd (
                ground (
                  arith,
                  any-of-find (λ w. w.request_id == request_id) (has_place request_id owner)
                      s.waiters waiter found placed,
                ))
            | inr other ↦ elim (Bool-cases (waiter.owner == owner)) [
              | inl own ↦ (lease_lost, ground (arith, found, keyed))
              | inr foreign ↦ (owner_mismatch, ground (arith, found))
            ]
          ]
    ]

settle-err :
    {S E A : Type 0} (s : S) (r : Result E A × S) (e : E) → r.0 ≡ err e → settle s r ≡ (err e, s)
settle-err s (ok a, s') e h = absurd (ground arith)
settle-err s (err e', s') e h = ground arith

-- If after the reaping the request has no waiter of its owner that is queued or granted, because it
-- was never enqueued, is another owner's, was released or canceled, or has expired, then `try_acquire`
-- raises and leaves both tables as they were: the reaping is rolled back with it.
pub try_acquire_refused :
    (request_id owner : String) (capacity ttl_seconds now : ℕ) (s : Slots)
    → any (has_place request_id owner) (reap_expired_locked now s).1.waiters ≡ false
    → (e : SlotError) × (try_acquire request_id owner capacity ttl_seconds now s ≡ (err e, s))
unfolding try_acquire
try_acquire_refused request_id owner capacity ttl_seconds now s none_left =
    let t = (reap_expired_locked now s).1 in
    let (e, refused) =
      acquire_locked_refused request_id owner capacity ttl_seconds now t none_left in
    elim (Bool-cases (ltb capacity 1)) [
      | inl small ↦ (bad_capacity, ground arith)
      | inr big ↦ elim (Bool-cases (ltb ttl_seconds 1)) [
        | inl short ↦ (bad_ttl, ground arith)
        | inr long ↦ (
          e,
          ground (
            arith,
            settle-err s (acquire_locked request_id owner capacity ttl_seconds now t) e refused,
          ),
        )
      ]
    ]
