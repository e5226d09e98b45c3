-- ===== src/Slots/Expiry.antt =====
-- Expiry: what reaping removes, and what a heartbeat protects from it.
use code_fixer.Base.{
  ℕ, ◌+◌, ◌≤◌, ◌<◌, String, Bool, true, false, ◌&&◌, List, [], ◌∷◌, leb, ltb, ◌==◌, number_eq,
  text_eq, eq_iff, if◌then◌else◌, elem, any, All, eq_self, ◌≡◌, refl, sym, ◌∙◌, arith, inl, inr,
  Bool-cases,
}
use code_fixer.Base.Table.{update, select, count}
use code_fixer.Base.Query.{
  find-passes, find-any, elem-map, find_of_count, find-update, count-none, any-select, any_unique,
  any-update, any-of-find, All-of-delete, Distinct-update,
}
use code_fixer.Base.Result.{ok, err}
use code_fixer.Slots.Table.{
  Waiter, LeaseRow, LlmSlotLease, Slots, lease_lost, is_queued, seconds, expired,
}
use code_fixer.Slots.Store.{
  reap_expired_locked, expired_requests, addresses, is_live, extend, heartbeat_locked, heartbeat,
  close,
}
use code_fixer.Slots.Invariant.{IsSound, leased_to, leased_to-reap}

module _ (now : ℕ) where
  abbrev is_expired : LeaseRow → Bool
  is_expired l = leb l.expires_at now

  elem_gone :
      (r : String) (ls : List LeaseRow)
      → elem r (expired_requests now ls) ≡ any (λ l. l.request_id == r && is_expired l) ls
  elem_gone r ls =
      elem-map (λ (l : LeaseRow). l.request_id) r (select is_expired ls)
      ∙ any-select (λ l. l.request_id == r) is_expired ls

  gone_listed :
      (gone : List String) (ls : List LeaseRow)
      → ((r : String) → any (λ l. l.request_id == r && is_expired l) ls ≡ true → elem r gone ≡ true)
      → All (λ l. elem l.request_id gone ≡ false → now < l.expires_at) ls
  gone_listed gone [] h = tt
  gone_listed gone (l ∷ ls) h = (
    (λ absent. ground (arith, h l.request_id, eq_self l.request_id)),
    gone_listed gone ls (λ r k. h r (ground arith)),
  )

  -- Reaping at `now` leaves only leases that end after `now`, and only queued waiters that do.
  pub reap_expired_locked-live :
      (s : Slots)
      → All (λ l. now < l.expires_at) (reap_expired_locked now s).1.leases
        × All
            (λ w. is_queued w.state ≡ true → now < w.expires_at)
            (reap_expired_locked now s).1.waiters
  unfolding reap_expired_locked
  reap_expired_locked-live s = (
    All-of-delete (λ l. now < l.expires_at) (λ l. elem l.request_id (expired_requests now s.leases))
        s.leases
        (gone_listed (expired_requests now s.leases) s.leases (λ r h. elem_gone r s.leases ∙ h)),
    closed _,
  )
    where
      closed :
          (ws : List Waiter)
          → All
              (λ w. is_queued w.state ≡ true → now < w.expires_at)
              (update (λ w. is_queued w.state && leb w.expires_at now) (close expired now) ws)
      closed [] = tt
      closed (w ∷ ws) = (ground arith, closed ws)

same_request :
    (lease : LlmSlotLease) (l : LeaseRow)
    → addresses lease l ≡ true
    → l.request_id ≡ lease.request_id
same_request lease l h = ground (arith, eq_iff l.request_id lease.request_id)

heartbeat_locked_protects :
    (lease : LlmSlotLease) (ttl_seconds now t : ℕ) (s : Slots)
    → IsSound s
    → count (is_live lease now) s.leases ≡ 1
    → t < now + seconds ttl_seconds
    → let kept = update (is_live lease now) (extend ttl_seconds now) s.leases in
      (leased_to kept lease.request_id lease.owner ≡ true)
      × (elem lease.request_id (expired_requests t kept) ≡ false)
heartbeat_locked_protects lease ttl_seconds now t s v one later =
    let live = is_live lease now in
    let write = extend ttl_seconds now in
    let (row, at) = find_of_count live s.leases one in
    let hit = find-passes live s.leases row at in
    let keyed = same_request lease row (ground arith) in
    let present =
      any-of-find live (λ (l : LeaseRow). l.request_id == lease.request_id) s.leases row at
        (ground arith) in
    let (row', at') =
      find-any (λ (l : LeaseRow). l.request_id == lease.request_id) s.leases present in
    let live' : live row' ≡ true =
      sym (
        any_unique (λ (l : LeaseRow). l.request_id) live lease.request_id s.leases row'
          (λ l h. same_request lease l (ground arith)) v.leases_distinct at')
      ∙ any-of-find live live s.leases row at hit in
    let found =
      find-update (λ (l : LeaseRow). l.request_id == lease.request_id) live write s.leases row'
        (λ x. refl) at' in
    (
      any-update (λ l. l.request_id == lease.request_id && l.owner == lease.owner)
            (λ l. l.request_id == lease.request_id && l.owner == lease.owner) live write s.leases
            (λ l. ground arith)
          ∙ any-of-find live (λ l. l.request_id == lease.request_id && l.owner == lease.owner)
              s.leases row at (ground arith),
      elem_gone t lease.request_id (update live write s.leases)
          ∙ any_unique (λ (l : LeaseRow). l.request_id)
              (λ l. l.request_id == lease.request_id && is_expired t l) lease.request_id
              (update live write s.leases) (if live row' then write row' else row')
              (λ l h. ground (arith, eq_iff l.request_id lease.request_id))
              (Distinct-update (λ (l : LeaseRow). l.request_id) live write s.leases (λ x. refl)
                v.leases_distinct)
              found
          ∙ ground (arith, live'),
    )

-- A heartbeat that succeeds protects its lease: in sound tables no reaping before the new expiry
-- takes it away.
pub heartbeat_protects :
    (lease renewed : LlmSlotLease) (ttl_seconds now t : ℕ) (s : Slots)
    → IsSound s
    → (heartbeat lease ttl_seconds now s).0 ≡ ok renewed
    → t < now + seconds ttl_seconds
    → leased_to
        (reap_expired_locked t (heartbeat lease ttl_seconds now s).1).1.leases
        lease.request_id
        lease.owner
      ≡ true
unfolding heartbeat heartbeat_locked
heartbeat_protects lease renewed ttl_seconds now t s v h later =
    elim (Bool-cases (ltb ttl_seconds 1)) [
      | inl bad ↦ absurd (ground arith)
      | inr good ↦ elim (Bool-cases (count (is_live lease now) s.leases == 1)) [
        | inl one ↦
            let (present, safe) =
              heartbeat_locked_protects lease ttl_seconds now t s v (ground arith) later in
            leased_to-reap t (heartbeat lease ttl_seconds now s).1 lease.request_id lease.owner
            ∙ ground arith
        | inr lost ↦ absurd (ground arith)
      ]
    ]

-- A heartbeat with a positive TTL whose lease is gone or has expired raises
-- LlmSlotLeaseLostError and leaves both tables as they were: the reaping of its transaction is
-- rolled back with it.
pub heartbeat_lost :
    (lease : LlmSlotLease) (ttl_seconds now : ℕ) (s : Slots)
    → 1 ≤ ttl_seconds
    → any (is_live lease now) s.leases ≡ false
    → heartbeat lease ttl_seconds now s ≡ (err lease_lost, s)
unfolding heartbeat heartbeat_locked
heartbeat_lost lease ttl_seconds now s positive gone =
    ground (arith, count-none (is_live lease now) s.leases gone)
