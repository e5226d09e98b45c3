-- ===== src/Slots/Releases.antt =====
-- What a release does to the invariant.
use code_fixer.Base.{
  ℕ, String, true, false, not, ◌&&◌, List, [], ◌∷◌, map, ◌==◌, number_eq, text_eq, eq_iff, elem,
  All, Distinct, ◌≡◌, refl, ap, ◌∙◌, arith, inl, inr, Bool-cases,
}
use code_fixer.Base.Table.{update, delete, count}
use code_fixer.Base.Query.{
  any-update, any-delete, any-factor, delete-none, All-always, All-map, Distinct-update,
  Distinct-delete, count-le-one,
}
use code_fixer.Slots.Table.{Waiter, LeaseRow, LlmSlotLease, Slots, released, is_granted}
use code_fixer.Slots.Store.{close, addresses, release, holds}
use code_fixer.Slots.Invariant.{granted_to, leased_to, IsSound}

module _ (lease : LlmSlotLease) where
  same_request : (l : LeaseRow) → addresses lease l ≡ true → l.request_id ≡ lease.request_id
  same_request l hit = ground (arith, eq_iff l.request_id lease.request_id)

  All-absent :
      (ls : List LeaseRow)
      → elem lease.request_id (map (λ l. l.request_id) ls) ≡ false
      → All (λ l. (l.request_id == lease.request_id) ≡ true → addresses lease l ≡ true) ls
  All-absent [] h = tt
  All-absent (l ∷ ls) h = ((λ e. ground arith), All-absent ls (ground arith))

  -- A row that is counted stands under the lease's request.
  elem_of_count :
      (ls : List LeaseRow)
      → count (addresses lease) ls ≡ 1
      → elem lease.request_id (map (λ l. l.request_id) ls) ≡ true
  elem_of_count [] c = ground arith
  elem_of_count (l ∷ ls) c = elim (Bool-cases (addresses lease l)) [
    | inl hit ↦ ground arith
    | inr miss ↦ ground (arith, elem_of_count ls)
  ]

  only_row :
      (ls : List LeaseRow)
      → Distinct (map (λ l. l.request_id) ls)
      → count (addresses lease) ls ≡ 1
      → All (λ l. (l.request_id == lease.request_id) ≡ true → addresses lease l ≡ true) ls
  only_row [] d c = tt
  only_row (l ∷ ls) d c = elim (Bool-cases (addresses lease l)) [
    | inl hit ↦ (
      (λ e. hit),
      All-absent ls (
          cc
            (ap (λ r. elem r (map (λ (m : LeaseRow). m.request_id) ls)) (same_request l hit), d.0)),
    )
    | inr miss ↦ (
      (λ e. absurd (
          cc (
            ap (λ r. elem r (map (λ (m : LeaseRow). m.request_id) ls))
                ((eq_iff l.request_id lease.request_id).0 e),
            elem_of_count ls (ground arith),
            d.0,
          ))),
      only_row ls d.1 (ground arith),
    )
  ]

  leased_to-release :
      (ls : List LeaseRow) (r o : String)
      → Distinct (map (λ l. l.request_id) ls)
      → count (addresses lease) ls ≡ 1
      → leased_to (delete (addresses lease) ls) r o
        ≡ (leased_to ls r o && not (lease.request_id == r && lease.owner == o))
  leased_to-release ls r o d c =
      any-delete (λ l. l.request_id == r && l.owner == o) (addresses lease) ls
      ∙ any-factor _ _ _ ls (
          All-map _ _
            (λ l h. ground (
              arith,
              h,
              eq_iff l.request_id r,
              eq_iff l.owner o,
              eq_iff l.request_id lease.request_id,
              eq_iff l.owner lease.owner,
              eq_iff lease.request_id r,
              eq_iff lease.owner o,
            ))
            ls (only_row ls d c))

  granted_to-release :
      (now : ℕ) (ws : List Waiter) (r o : String)
      → granted_to (update (holds lease) (close released now) ws) r o
        ≡ (granted_to ws r o && not (lease.request_id == r && lease.owner == o))
  granted_to-release now ws r o =
      any-update (λ w. (w.request_id == r && w.owner == o) && is_granted w.state)
        (λ w.
          ((w.request_id == r && w.owner == o) && is_granted w.state)
          && not (w.request_id == lease.request_id && w.owner == lease.owner))
        (holds lease) (close released now) ws (λ w. ground arith)
      ∙ any-factor _ _ _ ws (
          All-always _
            (λ w. ground (
              arith,
              eq_iff w.request_id r,
              eq_iff w.owner o,
              eq_iff w.request_id lease.request_id,
              eq_iff w.owner lease.owner,
              eq_iff lease.request_id r,
              eq_iff lease.owner o,
            ))
            ws)

  same_slot : (l : LeaseRow) → addresses lease l ≡ true → l.slot_number ≡ lease.slot_number
  same_slot l hit = ground arith

  pub release-IsSound : (now : ℕ) (s : Slots) → IsSound s → IsSound (release lease now s).1
  unfolding release
  release-IsSound now s v = elim (Bool-cases (count (addresses lease) s.leases == 1)) [
    | inl e ↦ rw e (record {
      slots_distinct = Distinct-delete (λ l. l.slot_number) _ s.leases v.slots_distinct;
      leases_distinct = Distinct-delete (λ l. l.request_id) _ s.leases v.leases_distinct;
      waiters_distinct =
          Distinct-update (λ (w : Waiter). w.request_id) (holds lease) (close released now)
            s.waiters (λ x. refl) v.waiters_distinct;
      agree = λ r o. cc (
        granted_to-release now s.waiters r o,
        leased_to-release s.leases r o v.leases_distinct (ground arith),
        v.agree r o,
      );
    })
    | inr e ↦ rw e (
        rw
          (delete-none (addresses lease) s.leases (
            ground (
              arith,
              count-le-one (λ (l : LeaseRow). l.slot_number) lease.slot_number (addresses lease)
                  s.leases same_slot v.slots_distinct,
            )))
          v)
  ]
