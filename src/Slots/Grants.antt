-- ===== src/Slots/Grants.antt =====
-- What a grant does to the invariant.
use code_fixer.Base.{
  ℕ, ◌<◌, String, true, false, ◌&&◌, ◌||◌, some, List, [], ◌∷◌, ◌++◌, map, ◌==◌, number_eq, text_eq,
  eq_iff, elem, any, any-append, All-append, length, length-append, ◌≡◌, refl, sym, ap, ◌∙◌, arith,
  eq_self,
}
use code_fixer.Base.Table.{find, update}
use code_fixer.Base.Query.{
  any-update, any-or, find-passes, Distinct-update, elem-map, Distinct-map-snoc, any_unique,
  find-snoc,
}
use code_fixer.Base.Result.{ok}
use code_fixer.Slots.Table.{Waiter, LeaseRow, Slots, is_queued, is_granted, insert_lease, lease_of}
use code_fixer.Slots.Store.{grant, new_row, is_queued_for, mark_granted}
use code_fixer.Slots.Invariant.{granted_to, leased_to, IsSound, IsWithin}

-- The state after a grant.
abbrev pub granted_state : Waiter → ℕ → ℕ → ℕ → Slots → Slots
granted_state waiter slot_number now ttl_seconds s = record s {
  waiters = update (is_queued_for waiter.request_id) (mark_granted now) s.waiters;
  leases = s.leases ++ new_row waiter slot_number now ttl_seconds ∷ [];
}

absent_request :
    (request_id : String) (ls : List LeaseRow)
    → ((o : String) → leased_to ls request_id o ≡ false)
    → any (λ l. l.request_id == request_id) ls ≡ false
absent_request request_id [] h = refl
absent_request request_id (l ∷ ls) h =
    ground
      (arith, h l.owner, eq_self l.owner, absent_request request_id ls (λ o. ground (arith, h o)))

-- A waiter that is queued is granted a free slot: no constraint is violated.
module _ (s : Slots) (v : IsSound s) (waiter row : Waiter) (slot_number now ttl_seconds : ℕ)
    (found : find (λ w. w.request_id == waiter.request_id) s.waiters ≡ some row)
    (same : row.owner ≡ waiter.owner) (waiting : is_queued row.state ≡ true)
    (fresh : elem slot_number (map (λ l. l.slot_number) s.leases) ≡ false) where
  keyed : row.request_id ≡ waiter.request_id
  keyed = (eq_iff _ _).0 (find-passes (λ w. w.request_id == waiter.request_id) s.waiters row found)

  not_granted : (o : String) → granted_to s.waiters waiter.request_id o ≡ false
  not_granted o =
      any_unique (λ (w : Waiter). w.request_id)
        (λ w. (w.request_id == waiter.request_id && w.owner == o) && is_granted w.state)
        waiter.request_id s.waiters row
        (λ w h. ground (arith, eq_iff w.request_id waiter.request_id)) v.waiters_distinct found
      ∙ ground arith

  not_leased : any (λ l. l.request_id == waiter.request_id) s.leases ≡ false
  not_leased =
      absent_request waiter.request_id s.leases
        (λ o. sym (v.agree waiter.request_id o) ∙ not_granted o)

  abbrev inserted : LeaseRow
  inserted = new_row waiter slot_number now ttl_seconds

  no_clash :
      any (λ l. l.slot_number == slot_number || l.request_id == waiter.request_id) s.leases ≡ false
  no_clash =
      any-or (λ l. l.slot_number == slot_number) (λ l. l.request_id == waiter.request_id) s.leases
      ∙ ground (arith, elem-map (λ (l : LeaseRow). l.slot_number) slot_number s.leases, not_leased)

  reads_back :
      find (λ l. l.request_id == waiter.request_id) (s.leases ++ inserted ∷ []) ≡ some inserted
  reads_back =
      find-snoc (λ l. l.request_id == waiter.request_id) s.leases inserted not_leased
        (eq_self waiter.request_id)

  granted_to-grant :
      (r o : String)
      → granted_to (granted_state waiter slot_number now ttl_seconds s).waiters r o
        ≡ (granted_to s.waiters r o || (waiter.request_id == r && waiter.owner == o))
  granted_to-grant r o =
      any-update (λ w. (w.request_id == r && w.owner == o) && is_granted w.state)
        (λ w.
          ((w.request_id == r && w.owner == o) && is_granted w.state)
          || (is_queued_for waiter.request_id w && (w.request_id == r && w.owner == o)))
        (is_queued_for waiter.request_id) (mark_granted now) s.waiters (λ w. ground arith)
      ∙ any-or _ _ s.waiters
      ∙ ap (λ b. granted_to s.waiters r o || b)
          (any_unique (λ (w : Waiter). w.request_id)
              (λ w. is_queued_for waiter.request_id w && (w.request_id == r && w.owner == o))
              waiter.request_id s.waiters row
              (λ w h. ground (arith, eq_iff w.request_id waiter.request_id)) v.waiters_distinct
              found
            ∙ row_granted r o)
    where
      row_granted :
          (r' o' : String)
          → (is_queued_for waiter.request_id row && (row.request_id == r' && row.owner == o'))
            ≡ (waiter.request_id == r' && waiter.owner == o')
      row_granted r' o' = ground (
        arith,
        waiting,
        eq_iff row.request_id waiter.request_id,
        keyed,
        same,
        ap (λ x. x == r') keyed,
        ap (λ x. x == o') same,
      )

  pub grant-IsSound : IsSound (granted_state waiter slot_number now ttl_seconds s)
  grant-IsSound = record {
    slots_distinct =
        Distinct-map-snoc (λ (l : LeaseRow). l.slot_number) s.leases inserted v.slots_distinct
          (sym (elem-map (λ (l : LeaseRow). l.slot_number) slot_number s.leases) ∙ fresh);
    leases_distinct =
        Distinct-map-snoc (λ (l : LeaseRow). l.request_id) s.leases inserted v.leases_distinct
          not_leased;
    waiters_distinct =
        Distinct-update (λ (w : Waiter). w.request_id) (is_queued_for waiter.request_id)
          (mark_granted now) s.waiters (λ x. refl) v.waiters_distinct;
    agree = λ r o.
        granted_to-grant r o
        ∙ ap (λ b. b || (waiter.request_id == r && waiter.owner == o)) (v.agree r o)
        ∙ sym (
            any-append (λ l. l.request_id == r && l.owner == o) s.leases (inserted ∷ [])
            ∙ ground arith);
  }

  pub grant-IsWithin :
      (capacity : ℕ)
      → IsWithin capacity s
      → length s.leases < capacity
      → slot_number < capacity
      → IsWithin capacity (granted_state waiter slot_number now ttl_seconds s)
  grant-IsWithin capacity w room low = record {
    active = omega (arith, length-append s.leases (inserted ∷ []));
    numbered =
        All-append (λ l. l.slot_number < capacity) s.leases (inserted ∷ []) w.numbered (low, tt);
  }

  pub grant_lem : grant waiter slot_number now ttl_seconds s ≡ (
    ok (some (lease_of waiter (new_row waiter slot_number now ttl_seconds))),
    granted_state waiter slot_number now ttl_seconds s,
  )
  unfolding grant insert_lease
  grant_lem = ground (arith, no_clash, reads_back)
