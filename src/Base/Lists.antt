-- ===== src/Base/Lists.antt =====
-- Lists measured by native numbers, Boolean membership, and predicates by recursion.
use Prim.Native.Nat.{ℕ, zero, suc, ◌+◌, ◌≤◌, ◌<◌}
use mathlib.Core.Path.{◌≡◌, refl}
use mathlib.Core.Logic.{◌≢◌}
use mathlib.Core.Bool.{Bool, true, false, ◌&&◌, ◌||◌}
use mathlib.Core.List.{List, [], ◌∷◌, ◌++◌, map}
use native.Mathlib.Omega.{arith}
use code_fixer.Base.Tests.{Equality, ◌==◌, if◌then◌else◌, number_eq}

module _ {ℓ} {A : Type ℓ} where
  abbrev pub length : List A → ℕ
  length [] = 0
  length (x ∷ xs) = suc (length xs)

  pub length-append : (xs ys : List A) → length (xs ++ ys) ≡ length xs + length ys
  length-append [] ys = omega arith
  length-append (x ∷ xs) ys = omega (arith, length-append xs ys)

  abbrev pub any : (A → Bool) → List A → Bool
  any p [] = false
  any p (x ∷ xs) = p x || any p xs

  abbrev pub all : (A → Bool) → List A → Bool
  all p [] = true
  all p (x ∷ xs) = p x && all p xs

  abbrev pub All {κ} : (A → Type κ) → List A → Type κ
  All P [] = Unit
  All P (x ∷ xs) = P x × All P xs

  pub any-append : (p : A → Bool) (xs ys : List A) → any p (xs ++ ys) ≡ (any p xs || any p ys)
  any-append p [] ys = refl
  any-append p (x ∷ xs) ys = ground (arith, any-append p xs ys)

  pub All-append {κ} : (P : A → Type κ) (xs ys : List A) → All P xs → All P ys → All P (xs ++ ys)
  All-append P [] ys hx hy = hy
  All-append P (x ∷ xs) ys hx hy = (hx.0, All-append P xs ys hx.1 hy)

module _ {ℓ} {A : Type ℓ} ⦃e : Equality A⦄ where
  abbrev pub elem : A → List A → Bool
  elem a [] = false
  elem a (x ∷ xs) = x == a || elem a xs

  -- No entry stands twice.
  abbrev pub Distinct : List A → Type 0
  Distinct [] = Unit
  Distinct (x ∷ xs) = (elem x xs ≡ false) × Distinct xs

  abbrev remove : A → List A → List A
  remove a [] = []
  remove a (x ∷ xs) = if x == a then xs else x ∷ remove a xs

  pub Distinct-snoc :
      (xs : List A) (a : A) → Distinct xs → elem a xs ≡ false → Distinct (xs ++ a ∷ [])
  Distinct-snoc [] a d h = ground arith
  Distinct-snoc (x ∷ xs) a d h = (
    ground (
      arith,
      any-append (λ y. y == x) xs (a ∷ []),
      elem-snoc x a xs,
      e.same_iff a x,
      e.same_iff x a,
      e.same_iff x x,
    ),
    Distinct-snoc xs a d.1 (ground arith),
  )
    where
      elem-snoc : (y b : A) (ys : List A) → elem y (ys ++ b ∷ []) ≡ (elem y ys || b == y)
      elem-snoc y b [] = ground arith
      elem-snoc y b (z ∷ ys) = ground (arith, elem-snoc y b ys)

length-remove : (a : ℕ) (xs : List ℕ) → elem a xs ≡ true → length xs ≡ suc (length (remove a xs))
length-remove a [] h = ground arith
length-remove a (x ∷ xs) h = ground (arith, length-remove a xs)

elem-remove : (a b : ℕ) (xs : List ℕ) → elem b xs ≡ true → b ≢ a → elem b (remove a xs) ≡ true
elem-remove a b [] h n = ground arith
elem-remove a b (x ∷ xs) h n = ground (arith, elem-remove a b xs)

-- The pigeonhole principle: a list that holds every number below `n` has `n` entries.
pub pigeonhole : (n : ℕ) (xs : List ℕ) → ((i : ℕ) → i < n → elem i xs ≡ true) → n ≤ length xs
pigeonhole zero xs h = omega arith
pigeonhole (suc n) xs h =
    let rest =
      pigeonhole n (remove n xs)
        (λ i lt. elem-remove n i xs (h i (omega arith)) (λ p. omega arith)) in
    omega (arith, length-remove n xs (h n (omega arith)))

pub length-map {ℓ κ} :
    {A : Type ℓ} {B : Type κ} (f : A → B) (xs : List A) → length (map f xs) ≡ length xs
length-map f [] = refl
length-map f (x ∷ xs) = omega (arith, length-map f xs)
