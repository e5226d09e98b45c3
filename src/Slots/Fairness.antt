-- ===== src/Slots/Fairness.antt =====
-- The order of grants: only the oldest queued waiter is granted a slot, and it is when one is free.
use code_fixer.Base.{
  ℕ, ◌≤◌, String, Bool, true, Option, none, some, List, [], ◌∷◌, map, ◌==◌, number_eq, text_eq,
  eq_iff, if◌then◌else◌, elem, All, Distinct, ◌≡◌, refl, sym, ap, ◌∙◌, arith, inl, inr, Bool-cases,
  Option-cases,
}
use code_fixer.Base.Table.{find, update}
use code_fixer.Slots.Table.{Waiter, is_queued, first_queued}

-- No queued waiter stands before the position.
abbrev pub IsOldest : ℕ → List Waiter → Type 0
IsOldest position ws = All (λ w. is_queued w.state ≡ true → position ≤ w.queue_position) ws

IsOldest-mono : (m n : ℕ) (ws : List Waiter) → m ≤ n → IsOldest n ws → IsOldest m ws
IsOldest-mono m n [] le h = tt
IsOldest-mono m n (w ∷ ws) le h = ((λ q. omega (arith, h.0 q)), IsOldest-mono m n ws le h.1)

IsOldest-none : (m : ℕ) (ws : List Waiter) → first_queued ws ≡ none → IsOldest m ws
unfolding first_queued
IsOldest-none m [] e = tt
IsOldest-none m (w ∷ ws) e = elim (Option-cases (first_queued ws)) [
  | inl nobody ↦ ((λ q. absurd (ground arith)), IsOldest-none m ws nobody)
  | inr (v, found) ↦ absurd (ground arith)
]

pub first_queued-IsOldest :
    (ws : List Waiter) (first : Waiter)
    → first_queued ws ≡ some first
    → IsOldest first.queue_position ws
unfolding first_queued
first_queued-IsOldest [] first e = tt
first_queued-IsOldest (w ∷ ws) first e = elim (Option-cases (first_queued ws)) [
  | inl nobody ↦ ((λ q. ground arith), IsOldest-none _ ws nobody)
  | inr (v, found) ↦
      let tail = first_queued-IsOldest ws v found in
      (
        (λ q. ground arith),
        IsOldest-mono first.queue_position v.queue_position ws (ground arith) tail,
      )
]

pub first_queued-elem :
    (ws : List Waiter) (first : Waiter)
    → first_queued ws ≡ some first
    → elem first.request_id (map (λ w. w.request_id) ws) ≡ true
unfolding first_queued
first_queued-elem [] first e = ground arith
first_queued-elem (w ∷ ws) first e = elim (Option-cases (first_queued ws)) [
  | inl nobody ↦ ground (arith, eq_iff w.request_id first.request_id)
  | inr (v, found) ↦ ground (arith, eq_iff w.request_id first.request_id, first_queued-elem ws v)
]

-- The oldest queued row is the row of its request.
pub first_queued-find :
    (ws : List Waiter) (first row : Waiter) (request_id : String)
    → Distinct (map (λ w. w.request_id) ws)
    → first_queued ws ≡ some first
    → (first.request_id == request_id) ≡ true
    → find (λ w. w.request_id == request_id) ws ≡ some row
    → first ≡ row
unfolding first_queued
first_queued-find [] first row request_id d e k found = ground arith
first_queued-find (w ∷ ws) first row request_id d e k found =
    elim (Option-cases (first_queued ws)) [
      | inl nobody ↦ ground arith
      | inr (v, later) ↦ elim (Bool-cases (w.request_id == request_id)) [
        | inl here ↦ elim (Bool-cases (v.request_id == request_id)) [
          | inl both ↦ absurd (
              cc (
                ap (λ r. elem r (map (λ (x : Waiter). x.request_id) ws))
                    ((eq_iff v.request_id request_id).0 both
                      ∙ sym ((eq_iff w.request_id request_id).0 here)),
                first_queued-elem ws v later,
                d.0,
              ))
          | inr only ↦ ground (arith, k, ap (λ (x : Option Waiter). x) e)
        ]
        | inr there ↦
            first_queued-find ws first row request_id d.1 (ground (arith, k)) k (ground arith)
      ]
    ]

abbrev written : (Waiter → Bool) → (Waiter → Waiter) → Option Waiter → Option Waiter
written p f none = none
written p f (some w) = some (if p w then f w else w)

-- An UPDATE that keeps states and positions keeps the order.
pub first_queued-update :
    (p : Waiter → Bool) (f : Waiter → Waiter) (ws : List Waiter)
    → ((w : Waiter) → ((f w).state ≡ w.state) × ((f w).queue_position ≡ w.queue_position))
    → first_queued (update p f ws) ≡ written p f (first_queued ws)
unfolding first_queued
first_queued-update p f [] same = refl
first_queued-update p f (w ∷ ws) same = elim (Option-cases (first_queued ws)) [
  | inl nobody ↦
      ground
        (arith, first_queued-update p f ws same, (same w).0, (same w).1, ap is_queued (same w).0)
  | inr (v, found) ↦ ground (
    arith,
    first_queued-update p f ws same,
    (same w).0,
    (same w).1,
    ap is_queued (same w).0,
    (same v).0,
    (same v).1,
  )
]

pub first_queued-IsQueued :
    (ws : List Waiter) (first : Waiter)
    → first_queued ws ≡ some first
    → is_queued first.state ≡ true
unfolding first_queued
first_queued-IsQueued [] first e = ground arith
first_queued-IsQueued (w ∷ ws) first e = elim (Option-cases (first_queued ws)) [
  | inl nobody ↦ ground arith
  | inr (v, found) ↦ ground (arith, first_queued-IsQueued ws v)
]
