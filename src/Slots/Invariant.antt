-- ===== src/Slots/Invariant.antt =====
-- The well-formedness of the two tables, and what each part of the store does to it.
use code_fixer.Base.{
  ℕ, ◌≤◌, ◌<◌, String, Bool, not, ◌&&◌, Option, List, map, ltb, ◌==◌, number_eq, text_eq, eq_iff,
  if◌then◌else◌, elem, any, any-append, All, length, Distinct, ◌≡◌, refl, sym, ap, ◌∙◌, arith, inl,
  inr, Bool-cases, Option-cases,
}
use code_fixer.Base.Table.{find, update, count}
use code_fixer.Base.Query.{
  any-update, any-delete, any-factor, any-find, length-delete, All-delete, All-always, map-update,
  Distinct-update, Distinct-delete, Distinct-map-snoc,
}
use code_fixer.Slots.Table.{Waiter, LeaseRow, LlmSlotLease, Slots, expired, canceled, is_granted}
use code_fixer.Slots.Store.{
  expired_requests, close, reap_expired_locked, enqueue, renew_waiter, heartbeat_locked,
  cancel_waiter, waits, renew, is_live, extend,
}

-- A waiter of this request and owner is in the state granted.
abbrev pub granted_to : List Waiter → String → String → Bool
granted_to ws r o = any (λ w. (w.request_id == r && w.owner == o) && is_granted w.state) ws

-- A lease of this request and owner exists.
abbrev pub leased_to : List LeaseRow → String → String → Bool
leased_to ls r o = any (λ l. l.request_id == r && l.owner == o) ls

-- The keys are unique, and exactly the granted waiters hold a lease, under their own owner.
pub record IsSound (s : Slots) : Type 0 where
  pub slots_distinct : Distinct (map (λ l. l.slot_number) s.leases)
  pub leases_distinct : Distinct (map (λ l. l.request_id) s.leases)
  pub waiters_distinct : Distinct (map (λ w. w.request_id) s.waiters)
  pub agree : (r o : String) → granted_to s.waiters r o ≡ leased_to s.leases r o

-- At most `capacity` leases exist, on slots below `capacity`.
pub record IsWithin (capacity : ℕ) (s : Slots) : Type 0 where
  pub active : length s.leases ≤ capacity
  pub numbered : All (λ l. l.slot_number < capacity) s.leases

-- An UPDATE that keeps owner and request, and neither grants nor ends a grant.
granted_to_kept :
    (p : Waiter → Bool) (f : Waiter → Waiter) (ws : List Waiter) (r o : String)
    → ((w : Waiter)
        → ((((if p w then f w else w).request_id == r) && ((if p w then f w else w).owner == o))
            && is_granted (if p w then f w else w).state)
          ≡ ((w.request_id == r && w.owner == o) && is_granted w.state))
    → granted_to (update p f ws) r o ≡ granted_to ws r o
granted_to_kept p f ws r o h =
    any-update (λ w. (w.request_id == r && w.owner == o) && is_granted w.state)
      (λ w. (w.request_id == r && w.owner == o) && is_granted w.state) p f ws h

module _ (now : ℕ) (s : Slots) where
  abbrev gone : List String
  gone = expired_requests now s.leases

  granted_to-reap :
      (r o : String)
      → granted_to (reap_expired_locked now s).1.waiters r o
        ≡ (granted_to s.waiters r o && not (elem r gone))
  unfolding reap_expired_locked
  granted_to-reap r o =
      granted_to_kept _ (close expired now) _ r o (λ w. ground arith)
      ∙ any-update (λ w. (w.request_id == r && w.owner == o) && is_granted w.state)
          (λ w.
            ((w.request_id == r && w.owner == o) && is_granted w.state)
            && not (elem w.request_id gone))
          (λ w. elem w.request_id gone && is_granted w.state) (close expired now) s.waiters
          (λ w. elim (Bool-cases (elem w.request_id gone)) [
            | inl e ↦ ground arith
            | inr e ↦ ground arith
          ])
      ∙ any-factor _ _ (not (elem r gone)) s.waiters (
          All-always _
            (λ w. elim (Bool-cases (w.request_id == r)) [
              | inl e ↦
                  ground (arith, ap (λ (x : String). elem x gone) ((eq_iff w.request_id r).0 e))
              | inr e ↦ ground arith
            ])
            s.waiters)

  pub leased_to-reap :
      (r o : String)
      → leased_to (reap_expired_locked now s).1.leases r o
        ≡ (leased_to s.leases r o && not (elem r gone))
  unfolding reap_expired_locked
  leased_to-reap r o =
      any-delete (λ l. l.request_id == r && l.owner == o) (λ l. elem l.request_id gone) s.leases
      ∙ any-factor _ _ (not (elem r gone)) s.leases (
          All-always _
            (λ l. elim (Bool-cases (l.request_id == r)) [
              | inl e ↦
                  ground (arith, ap (λ (x : String). elem x gone) ((eq_iff l.request_id r).0 e))
              | inr e ↦ ground arith
            ])
            s.leases)

  waiter_ids-reap :
      map (λ w. w.request_id) (reap_expired_locked now s).1.waiters
      ≡ map (λ w. w.request_id) s.waiters
  unfolding reap_expired_locked
  waiter_ids-reap =
      map-update (λ w. w.request_id) _ (close expired now) _ (λ w. refl)
      ∙ map-update (λ w. w.request_id) _ (close expired now) s.waiters (λ w. refl)

  pub reap-IsSound : IsSound s → IsSound (reap_expired_locked now s).1
  unfolding reap_expired_locked
  reap-IsSound v = record {
    slots_distinct = Distinct-delete (λ l. l.slot_number) _ s.leases v.slots_distinct;
    leases_distinct = Distinct-delete (λ l. l.request_id) _ s.leases v.leases_distinct;
    waiters_distinct = rw waiter_ids-reap v.waiters_distinct;
    agree = λ r o. cc (granted_to-reap r o, leased_to-reap r o, v.agree r o);
  }

  pub reap-IsWithin :
      {capacity : ℕ} → IsWithin capacity s → IsWithin capacity (reap_expired_locked now s).1
  unfolding reap_expired_locked
  reap-IsWithin v = record {
    active = omega (arith, v.active, length-delete (λ l. elem l.request_id gone) s.leases);
    numbered = All-delete _ _ s.leases v.numbered;
  }

-- A new waiter is queued, under a request that no waiter has.
pub enqueue-IsSound :
    (request_id owner stage_id : String) (task_run_id : Option String) (ttl_seconds now : ℕ)
    (s : Slots)
    → IsSound s
    → IsSound (enqueue request_id owner stage_id task_run_id ttl_seconds now s).1
unfolding enqueue
enqueue-IsSound request_id owner stage_id task_run_id ttl_seconds now s v =
    elim (Bool-cases (ltb ttl_seconds 1)) [
      | inl e ↦ rw e v
      | inr e ↦ rw e (elim (Option-cases (find (λ w. w.request_id == request_id) s.waiters)) [
        | inl absent ↦ rw absent (record {
          slots_distinct = v.slots_distinct;
          leases_distinct = v.leases_distinct;
          waiters_distinct =
              Distinct-map-snoc (λ (w : Waiter). w.request_id) s.waiters _ v.waiters_distinct
                (any-find _ s.waiters absent);
          agree = λ r o.
              any-append (λ w. (w.request_id == r && w.owner == o) && is_granted w.state) s.waiters
                _
              ∙ ground (arith, v.agree r o);
        })
        | inr (row, found) ↦ rw found (elim (Bool-cases (row.owner == owner)) [
          | inl same ↦ rw same v
          | inr other ↦ rw other v
        ])
      ])
    ]

-- A waiter's heartbeat changes neither its key nor its state.
module _ (request_id owner : String) (now : ℕ) (s : Slots) (v : IsSound s) where
  pub renew_waiter-IsSound :
      (ttl_seconds : ℕ) → IsSound (renew_waiter request_id owner ttl_seconds now s)
  unfolding renew_waiter
  renew_waiter-IsSound ttl_seconds =
      let rows = waits request_id owner in
      let write = renew ttl_seconds now in
      record {
        slots_distinct = v.slots_distinct;
        leases_distinct = v.leases_distinct;
        waiters_distinct =
            Distinct-update (λ (w : Waiter). w.request_id) rows write s.waiters (λ x. refl)
              v.waiters_distinct;
        agree = λ r o. granted_to_kept rows write s.waiters r o (λ w. ground arith) ∙ v.agree r o;
      }

  pub cancel_waiter-IsSound : IsSound (cancel_waiter request_id owner now s).1
  unfolding cancel_waiter
  cancel_waiter-IsSound =
      let rows = waits request_id owner in
      record {
        slots_distinct = v.slots_distinct;
        leases_distinct = v.leases_distinct;
        waiters_distinct =
            Distinct-update (λ (w : Waiter). w.request_id) rows (close canceled now) s.waiters
              (λ x. refl) v.waiters_distinct;
        agree = λ r o.
            granted_to_kept rows (close canceled now) s.waiters r o (λ w. ground arith)
            ∙ v.agree r o;
      }

-- A lease's heartbeat writes times and the version only.
pub heartbeat_locked-IsSound :
    (lease : LlmSlotLease) (ttl_seconds now : ℕ) (s : Slots)
    → IsSound s
    → IsSound (heartbeat_locked lease ttl_seconds now s).1
unfolding heartbeat_locked
heartbeat_locked-IsSound lease ttl_seconds now s v =
    let rows = is_live lease now in
    let write = extend ttl_seconds now in
    elim (Bool-cases (count rows s.leases == 1)) [
      | inl e ↦ rw e (record {
        slots_distinct =
            Distinct-update (λ (l : LeaseRow). l.slot_number) rows write s.leases (λ x. refl)
              v.slots_distinct;
        leases_distinct =
            Distinct-update (λ (l : LeaseRow). l.request_id) rows write s.leases (λ x. refl)
              v.leases_distinct;
        waiters_distinct = v.waiters_distinct;
        agree = λ r o.
            v.agree r o
            ∙ sym (
                any-update (λ l. l.request_id == r && l.owner == o)
                  (λ l. l.request_id == r && l.owner == o) rows write s.leases (λ l. ground arith));
      })
      | inr e ↦ rw e (reap-IsSound now s v)
    ]
