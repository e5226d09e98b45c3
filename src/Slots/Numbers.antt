-- ===== src/Slots/Numbers.antt =====
-- The number of the slot that is chosen.
use code_fixer.Base.{
  ℕ, zero, suc, ◌+◌, ◌≤◌, ◌<◌, true, false, none, some, List, number_eq, text_eq, nat_eq_iff,
  nat_eq, elem, length, pigeonhole, ◌≡◌, ap, arith, inl, inr, Bool-cases, Option-cases,
}
use code_fixer.Slots.Table.{free_slot}

-- The slot that is chosen is free and below the bound.
pub free_slot_fresh :
    (n from : ℕ) (occupied : List ℕ) (i : ℕ)
    → free_slot n from occupied ≡ some i
    → (elem i occupied ≡ false) × (i < from + n)
unfolding free_slot
free_slot_fresh zero from occupied i e = ground arith
free_slot_fresh (suc n) from occupied i e = ground (arith, free_slot_fresh n (from + 1) occupied i)

free_slot-none :
    (n from : ℕ) (occupied : List ℕ)
    → free_slot n from occupied ≡ none
    → (i : ℕ) → from ≤ i
    → i < from + n
    → elem i occupied ≡ true
unfolding free_slot
free_slot-none zero from occupied e i lo hi = absurd (omega arith)
free_slot-none (suc n) from occupied e i lo hi = elim (Bool-cases (nat_eq i from)) [
  | inl same ↦ ground (arith, ap (λ (j : ℕ). elem j occupied) ((nat_eq_iff i from).0 same))
  | inr other ↦ ground (
    arith,
    λ (p : from + 1 ≤ i) (q : i < (from + 1) + n).
        free_slot-none n (from + 1) occupied (ground arith) i p q,
  )
]

-- With fewer leases than slots the search for a slot succeeds.
pub free_slot_exists :
    (n : ℕ) (occupied : List ℕ) → length occupied < n → (i : ℕ) × (free_slot n 0 occupied ≡ some i)
free_slot_exists n occupied h = elim (Option-cases (free_slot n 0 occupied)) [
  | inl full ↦ absurd (
      omega (
        arith,
        pigeonhole n occupied
            (λ i lt. free_slot-none n 0 occupied full i (omega arith) (omega arith)),
      ))
  | inr found ↦ found
]
