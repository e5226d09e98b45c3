-- ===== src/Base/Keys.antt =====
-- Rows that a key tells apart.
use mathlib.Core.Path.{◌≡◌, refl, ap, ◌∙◌}
use mathlib.Core.Logic.{inl, inr}
use mathlib.Core.Bool.{Bool, true}
use mathlib.Core.Option.{some}
use mathlib.Core.List.{List, [], ◌∷◌, map}
use native.Mathlib.Omega.{arith}
use code_fixer.Base.Tests.{Equality, ◌==◌, Bool-cases}
use code_fixer.Base.Lists.{any, elem, Distinct}
use code_fixer.Base.Table.{find}
use code_fixer.Base.Query.{any-of-find, elem-map}

-- The row that a query finds is the row that its key finds.
pub find-key {ℓ κ} :
    {A : Type ℓ} {B : Type κ} ⦃e : Equality B⦄ (key : A → B) (p : A → Bool) (xs : List A) (a : A)
    → Distinct (map key xs)
    → find p xs ≡ some a
    → find (λ x. key x == key a) xs ≡ some a
find-key key p [] a d h = absurd (ground arith)
find-key {A = A} ⦃e⦄ key p (x ∷ xs) a d h = elim (Bool-cases (p x)) [
  | inl here ↦ ground (arith, here, e.same_iff (key x) (key a))
  | inr miss ↦
      let later : find p xs ≡ some a = ground (arith, miss) in
      elim (Bool-cases (key x == key a)) [
        | inl same ↦
            let there : any (λ (y : A). key y == key a) xs ≡ true =
              any-of-find p (λ y. key y == key a) xs a later
                ((e.same_iff (key a) (key a)).1 refl) in
            let twice : elem (key x) (map key xs) ≡ true =
              elem-map key (key x) xs
              ∙ ap (λ k. any (λ y. key y == k) xs) ((e.same_iff (key x) (key a)).0 same)
              ∙ there in
            absurd (cc (d.0, twice))
        | inr other ↦ rw other (find-key key p xs a d.1 later)
      ]
]
