-- ===== src/Base/Query/Kept.antt =====
-- Rows that a DELETE, an INSERT or a selection keeps.
use mathlib.Core.Path.{◌≡◌, subst, sym}
use mathlib.Core.Logic.{inl, inr}
use mathlib.Core.Bool.{Bool, true, false}
use mathlib.Core.Option.{some}
use mathlib.Core.List.{List, [], ◌∷◌, ◌++◌}
use native.Mathlib.Omega.{arith}
use code_fixer.Base.Tests.{Bool-cases}
use code_fixer.Base.Lists.{All, any}
use code_fixer.Base.Table.{find, delete, select}

module _ {ℓ} {A : Type ℓ} where
  pub find-delete_kept :
      (q p : A → Bool) (xs : List A) (a : A)
      → find q xs ≡ some a
      → p a ≡ false
      → find q (delete p xs) ≡ some a
  find-delete_kept q p [] a h k = h
  find-delete_kept q p (x ∷ xs) a h k = elim (Bool-cases (q x)) [
    | inl hit ↦
        let same : x ≡ a = ground arith in
        ground (arith, same, subst (λ y. p y ≡ false) (sym same) k)
    | inr miss ↦ ground (arith, find-delete_kept q p xs a)
  ]

  pub All-snoc {κ} : (P : A → Type κ) (xs : List A) (a : A) → All P xs → P a → All P (xs ++ a ∷ [])
  All-snoc P [] a h k = (k, tt)
  All-snoc P (x ∷ xs) a h k = (h.0, All-snoc P xs a h.1 k)

  pub All-without {κ} :
      (P : A → Type κ) (before : List A) (a : A) (after : List A)
      → All P (before ++ a ∷ after)
      → P a × All P (before ++ after)
  All-without P [] a after h = h
  All-without P (x ∷ before) a after h =
      let (one, rest) = All-without P before a after h.1 in (one, (h.0, rest))

  pub All-of-none {κ} :
      (p : A → Bool) (P : A → Type κ) (xs : List A)
      → any p xs ≡ false
      → All (λ x. p x ≡ true → P x) xs
  All-of-none p P [] h = tt
  All-of-none p P (x ∷ xs) h = ((λ k. absurd (ground arith)), All-of-none p P xs (ground arith))

  pub All-select {κ} :
      (P : A → Type κ) (p : A → Bool) (xs : List A)
      → All (λ x. p x ≡ true → P x) xs
      → All P (select p xs)
  All-select P p [] h = tt
  All-select P p (x ∷ xs) h = elim (Bool-cases (p x)) [
    | inl hit ↦ rw hit (h.0 hit, All-select P p xs h.1)
    | inr miss ↦ rw miss (All-select P p xs h.1)
  ]
