-- ===== src/Base/Query/Others.antt =====
-- Queries that a write does not concern, and properties of all rows that it keeps.
use mathlib.Core.Path.{◌≡◌, subst, refl}
use mathlib.Core.Logic.{inl, inr}
use mathlib.Core.Bool.{Bool, true, false}
use mathlib.Core.Option.{some}
use mathlib.Core.List.{List, [], ◌∷◌, ◌++◌, map}
use native.Mathlib.Omega.{arith}
use code_fixer.Base.Tests.{Equality, ◌==◌, Bool-cases}
use code_fixer.Base.Lists.{All, elem, Distinct}
use code_fixer.Base.Table.{find, update, delete}

-- A query that a write does not concern.
module _ {ℓ} {A : Type ℓ} (q : A → Bool) where
  pub find-update_other :
      (p : A → Bool) (f : A → A) (xs : List A)
      → ((x : A) → p x ≡ true → (q x ≡ false) × (q (f x) ≡ false))
      → find q (update p f xs) ≡ find q xs
  find-update_other p f [] h = refl
  find-update_other p f (x ∷ xs) h = elim (Bool-cases (p x)) [
    | inl e ↦ ground (arith, (h x e).0, (h x e).1, find-update_other p f xs h)
    | inr e ↦ ground (arith, find-update_other p f xs h)
  ]

  pub find-delete_other :
      (p : A → Bool) (xs : List A)
      → ((x : A) → p x ≡ true → q x ≡ false)
      → find q (delete p xs) ≡ find q xs
  find-delete_other p [] h = refl
  find-delete_other p (x ∷ xs) h = elim (Bool-cases (p x)) [
    | inl e ↦ ground (arith, h x e, find-delete_other p xs h)
    | inr e ↦ ground (arith, find-delete_other p xs h)
  ]

  pub find-snoc_other : (xs : List A) (a : A) → q a ≡ false → find q (xs ++ a ∷ []) ≡ find q xs
  find-snoc_other [] a h = ground arith
  find-snoc_other (x ∷ xs) a h = ground (arith, find-snoc_other xs a h)

module _ {ℓ} {A : Type ℓ} where
  -- A row that is found stays found behind an INSERT.
  pub find-snoc_some :
      (q : A → Bool) (xs : List A) (a b : A) → find q xs ≡ some a → find q (xs ++ b ∷ []) ≡ some a
  find-snoc_some q [] a b h = ground arith
  find-snoc_some q (x ∷ xs) a b h = ground (arith, find-snoc_some q xs a b)

  pub find_all {κ} :
      (P : A → Type κ) (q : A → Bool) (xs : List A) (a : A) → All P xs → find q xs ≡ some a → P a
  find_all P q [] a h e = absurd (ground arith)
  find_all P q (x ∷ xs) a h e = elim (Bool-cases (q x)) [
    | inl hit ↦ subst P (ground arith) h.0
    | inr miss ↦ find_all P q xs a h.1 (ground arith)
  ]

  -- An UPDATE on the rows that pass the test.
  pub All-update_if {κ} :
      (P : A → Type κ) (p : A → Bool) (f : A → A) (xs : List A)
      → ((x : A) → p x ≡ true → P x → P (f x))
      → All P xs
      → All P (update p f xs)
  All-update_if P p f [] k h = h
  All-update_if P p f (x ∷ xs) k h = (
    elim (Bool-cases (p x)) [ inl e ↦ rw e (k x e h.0) | inr e ↦ rw e h.0 ],
    All-update_if P p f xs k h.1,
  )

module _ {ℓ κ} {A : Type ℓ} {B : Type κ} ⦃e : Equality B⦄ (f : A → B) where
  All-update_absent {μ} :
      (P : A → Type μ) (k : B) (g : A → A) (xs : List A)
      → elem k (map f xs) ≡ false
      → All P xs
      → All P (update (λ x. f x == k) g xs)
  All-update_absent P k g [] d h = h
  All-update_absent P k g (x ∷ xs) d h = elim (Bool-cases (f x == k)) [
    | inl hit ↦ absurd (ground arith)
    | inr miss ↦ rw miss (h.0, All-update_absent P k g xs (ground arith) h.1)
  ]

  -- An UPDATE by a unique key writes the one row that a SELECT by that key finds.
  pub All-update_key {μ} :
      (P : A → Type μ) (k : B) (g : A → A) (xs : List A) (a : A)
      → Distinct (map f xs)
      → find (λ x. f x == k) xs ≡ some a
      → (P a → P (g a))
      → All P xs
      → All P (update (λ x. f x == k) g xs)
  All-update_key P k g [] a d found keep h = h
  All-update_key P k g (x ∷ xs) a d found keep h = elim (Bool-cases (f x == k)) [
    | inl hit ↦
        let same : a ≡ x = ground arith in
        let rest =
          All-update_absent P k g xs
            (subst (λ b. elem b (map f xs) ≡ false) ((e.same_iff (f x) k).0 hit) d.0) h.1 in
        rw hit (subst (λ y. P y → P (g y)) same keep h.0, rest)
    | inr miss ↦ rw miss (h.0, All-update_key P k g xs a d.1 (ground arith) keep h.1)
  ]
