-- ===== src/Base/Query/Rows.antt =====
-- Laws of the queries: what an UPDATE or a DELETE does to a test over the rows and to a column.
use Prim.Native.Nat.{◌+◌, ◌≤◌}
use mathlib.Core.Path.{◌≡◌, subst, refl, ap, ◌∙◌}
use mathlib.Core.Logic.{inl, inr}
use mathlib.Core.Bool.{Bool, true, false, not, ◌&&◌, ◌||◌}
use mathlib.Core.Option.{none, some}
use mathlib.Core.List.{List, [], ◌∷◌, ◌++◌, map, map-append}
use native.Mathlib.Omega.{arith}
use code_fixer.Base.Tests.{if◌then◌else◌, Equality, ◌==◌, Bool-cases}
use code_fixer.Base.Lists.{length, any, All, elem, Distinct, Distinct-snoc}
use code_fixer.Base.Table.{find, update, delete, select, count}

module _ {ℓ} {A : Type ℓ} where
  -- A test that an UPDATE turns into another test.
  pub any-update :
      (q r p : A → Bool) (f : A → A) (xs : List A)
      → ((x : A) → q (if p x then f x else x) ≡ r x)
      → any q (update p f xs) ≡ any r xs
  any-update q r p f [] h = refl
  any-update q r p f (x ∷ xs) h = ground (arith, h x, any-update q r p f xs h)

  pub any-delete :
      (q p : A → Bool) (xs : List A) → any q (delete p xs) ≡ any (λ x. q x && not (p x)) xs
  any-delete q p [] = refl
  any-delete q p (x ∷ xs) = ground (arith, any-delete q p xs)

  -- A factor that is the same for every row that passes the test.
  pub any-factor :
      (q p : A → Bool) (c : Bool) (xs : List A)
      → All (λ x. (q x && p x) ≡ (q x && c)) xs
      → any (λ x. q x && p x) xs ≡ (any q xs && c)
  any-factor q p c [] h = refl
  any-factor q p c (x ∷ xs) h = ground (arith, any-factor q p c xs h.1)

  pub any-or : (q p : A → Bool) (xs : List A) → any (λ x. q x || p x) xs ≡ (any q xs || any p xs)
  any-or q p [] = refl
  any-or q p (x ∷ xs) = ground (arith, any-or q p xs)

  pub any-find : (q : A → Bool) (xs : List A) → find q xs ≡ none → any q xs ≡ false
  any-find q [] h = refl
  any-find q (x ∷ xs) h = ground (arith, any-find q xs)

  pub find-any : (q : A → Bool) (xs : List A) → any q xs ≡ true → (a : A) × (find q xs ≡ some a)
  find-any q [] h = absurd (ground arith)
  find-any q (x ∷ xs) h = elim (Bool-cases (q x)) [
    | inl e ↦ (x, ground arith)
    | inr e ↦ let (a, found) = find-any q xs (ground arith) in (a, ground arith)
  ]

  pub find-passes : (q : A → Bool) (xs : List A) (a : A) → find q xs ≡ some a → q a ≡ true
  find-passes q [] a h = ground arith
  find-passes q (x ∷ xs) a h = ground (arith, find-passes q xs a)

  pub find-update :
      (q p : A → Bool) (f : A → A) (xs : List A) (a : A)
      → ((x : A) → q (f x) ≡ q x)
      → find q xs ≡ some a
      → find q (update p f xs) ≡ some (if p a then f a else a)
  find-update q p f [] a h e = ground arith
  find-update q p f (x ∷ xs) a h e = ground (arith, h x, find-update q p f xs a h)

  pub delete-none : (p : A → Bool) (xs : List A) → count p xs ≡ 0 → delete p xs ≡ xs
  delete-none p [] h = refl
  delete-none p (x ∷ xs) h = ground (arith, delete-none p xs)

  pub length-delete : (p : A → Bool) (xs : List A) → length (delete p xs) + count p xs ≡ length xs
  length-delete p [] = refl
  length-delete p (x ∷ xs) = ground (arith, length-delete p xs)

  pub length-update : (p : A → Bool) (f : A → A) (xs : List A) → length (update p f xs) ≡ length xs
  length-update p f [] = refl
  length-update p f (x ∷ xs) = omega (arith, length-update p f xs)

  pub count-select : (p : A → Bool) (xs : List A) → length (select p xs) ≡ count p xs
  count-select p [] = refl
  count-select p (x ∷ xs) = ground (arith, count-select p xs)

module _ {ℓ κ} {A : Type ℓ} (P : A → Type κ) where
  pub All-delete : (p : A → Bool) (xs : List A) → All P xs → All P (delete p xs)
  All-delete p [] h = h
  All-delete p (x ∷ xs) h = ground (arith, All-delete p xs h.1)

  pub All-update :
      (p : A → Bool) (f : A → A) (xs : List A)
      → ((x : A) → P x → P (f x))
      → All P xs
      → All P (update p f xs)
  All-update p f [] k h = h
  All-update p f (x ∷ xs) k h = ground (arith, k x h.0, All-update p f xs k h.1)

  pub All-map {μ} : (Q : A → Type μ) → ((x : A) → P x → Q x) → (xs : List A) → All P xs → All Q xs
  All-map Q k [] h = tt
  All-map Q k (x ∷ xs) h = (k x h.0, All-map Q k xs h.1)

  pub All-always : ((x : A) → P x) → (xs : List A) → All P xs
  All-always h [] = tt
  All-always h (x ∷ xs) = (h x, All-always h xs)

module _ {ℓ κ} {A : Type ℓ} {B : Type κ} (f : A → B) where
  -- An UPDATE that does not write a column leaves the column.
  pub map-update :
      (p : A → Bool) (g : A → A) (xs : List A)
      → ((x : A) → f (g x) ≡ f x)
      → map f (update p g xs) ≡ map f xs
  map-update p g [] h = refl
  map-update p g (x ∷ xs) h = ground (arith, h x, map-update p g xs h)

module _ {ℓ κ} {A : Type ℓ} {B : Type κ} ⦃e : Equality B⦄ (f : A → B) where
  pub elem-map : (b : B) (xs : List A) → elem b (map f xs) ≡ any (λ x. f x == b) xs
  elem-map b [] = refl
  elem-map b (x ∷ xs) = ground (arith, elem-map b xs)

  elem-delete :
      (b : B) (p : A → Bool) (xs : List A)
      → elem b (map f xs) ≡ false
      → elem b (map f (delete p xs)) ≡ false
  elem-delete b p [] h = refl
  elem-delete b p (x ∷ xs) h = ground (arith, elem-delete b p xs)

  pub Distinct-delete :
      (p : A → Bool) (xs : List A) → Distinct (map f xs) → Distinct (map f (delete p xs))
  Distinct-delete p [] h = h
  Distinct-delete p (x ∷ xs) h =
      ground (arith, elem-delete (f x) p xs h.0, Distinct-delete p xs h.1)

  pub Distinct-update :
      (p : A → Bool) (g : A → A) (xs : List A)
      → ((x : A) → f (g x) ≡ f x)
      → Distinct (map f xs)
      → Distinct (map f (update p g xs))
  Distinct-update p g xs h d = rw (map-update f p g xs h) d

  pub Distinct-map-snoc :
      (xs : List A) (a : A)
      → Distinct (map f xs)
      → any (λ x. f x == f a) xs ≡ false
      → Distinct (map f (xs ++ a ∷ []))
  Distinct-map-snoc xs a d h =
      rw map-append (Distinct-snoc (map f xs) (f a) d (elem-map (f a) xs ∙ h))

  -- The rows that hold one key are at most one.
  pub count-le-one :
      (b : B) (p : A → Bool) (xs : List A)
      → ((x : A) → p x ≡ true → f x ≡ b)
      → Distinct (map f xs)
      → count p xs ≤ 1
  count-le-one b p [] k h = omega arith
  count-le-one b p (x ∷ xs) k h = elim (Bool-cases (p x)) [
    | inl hit ↦ ground (arith, count-absent p xs k (ground (arith, k x hit)))
    | inr miss ↦ ground (arith, count-le-one b p xs k h.1)
  ]
    where
      count-absent :
          (p' : A → Bool) (ys : List A)
          → ((y : A) → p' y ≡ true → f y ≡ b)
          → elem b (map f ys) ≡ false
          → count p' ys ≡ 0
      count-absent p' [] k' h' = refl
      count-absent p' (y ∷ ys) k' h' = elim (Bool-cases (p' y)) [
        | inl hit ↦ absurd (ground (arith, k' y hit, (e.same_iff (f y) b).1 (k' y hit)))
        | inr miss ↦ ground (arith, count-absent p' ys k')
      ]

  absent-any :
      (t : A → Bool) (k : B) (xs : List A)
      → ((x : A) → t x ≡ true → f x ≡ k)
      → elem k (map f xs) ≡ false
      → any t xs ≡ false
  absent-any t k [] h d = refl
  absent-any t k (x ∷ xs) h d = elim (Bool-cases (t x)) [
    | inl hit ↦ absurd (ground (arith, (e.same_iff (f x) k).1 (h x hit)))
    | inr miss ↦ ground (arith, absent-any t k xs h)
  ]

  -- A test that only the rows of one key pass is decided by the row of that key.
  pub any_unique :
      (t : A → Bool) (k : B) (xs : List A) (a : A)
      → ((x : A) → t x ≡ true → f x ≡ k)
      → Distinct (map f xs)
      → find (λ x. f x == k) xs ≡ some a
      → any t xs ≡ t a
  any_unique t k [] a h d found = cc
  any_unique t k (x ∷ xs) a h d found = elim (Bool-cases (f x == k)) [
    | inl here ↦
        let only =
          absent-any t k xs h
            (subst (λ b. elem b (map f xs) ≡ false) ((e.same_iff (f x) k).0 here) d.0) in
        let same : x ≡ a = ground arith in rw (← same) (ground (arith, only))
    | inr there ↦ elim (Bool-cases (t x)) [
      | inl hit ↦ absurd (ground (arith, (e.same_iff (f x) k).1 (h x hit)))
      | inr miss ↦ ground (arith, any_unique t k xs a h d.1)
    ]
  ]

module _ {ℓ} {A : Type ℓ} where
  pub find-snoc :
      (q : A → Bool) (xs : List A) (a : A)
      → any q xs ≡ false
      → q a ≡ true
      → find q (xs ++ a ∷ []) ≡ some a
  find-snoc q [] a h e = ground arith
  find-snoc q (x ∷ xs) a h e = ground (arith, find-snoc q xs a)

  pub any-of-find :
      (q t : A → Bool) (xs : List A) (a : A) → find q xs ≡ some a → t a ≡ true → any t xs ≡ true
  any-of-find q t [] a h e = ground arith
  any-of-find q t (x ∷ xs) a h e = elim (Bool-cases (q x)) [
    | inl here ↦ ground (arith, cc-some (ground arith))
    | inr there ↦ ground (arith, any-of-find q t xs a)
  ]
    where
      cc-some : x ≡ a → t x ≡ t a
      cc-some p = ap t p

  pub All-of-update {κ} :
      (P : A → Type κ) (p : A → Bool) (f : A → A) (xs : List A)
      → ((x : A) → P (f x) → P x)
      → All P (update p f xs)
      → All P xs
  All-of-update P p f [] k h = h
  All-of-update P p f (x ∷ xs) k h = (
    elim (Bool-cases (p x)) [ inl e ↦ k x (rw e at h.0) | inr e ↦ rw e at h.0 ],
    All-of-update P p f xs k h.1,
  )

  pub any-select : (q p : A → Bool) (xs : List A) → any q (select p xs) ≡ any (λ x. q x && p x) xs
  any-select q p [] = refl
  any-select q p (x ∷ xs) = ground (arith, any-select q p xs)

  pub All-of-delete {κ} :
      (P : A → Type κ) (p : A → Bool) (xs : List A)
      → All (λ x. p x ≡ false → P x) xs
      → All P (delete p xs)
  All-of-delete P p [] h = tt
  All-of-delete P p (x ∷ xs) h = elim (Bool-cases (p x)) [
    | inl e ↦ rw e (All-of-delete P p xs h.1)
    | inr e ↦ rw e (h.0 e, All-of-delete P p xs h.1)
  ]

  -- A row is counted if one row passes the test.
  pub find_of_count : (p : A → Bool) (xs : List A) → count p xs ≡ 1 → (a : A) × (find p xs ≡ some a)
  find_of_count p [] h = absurd (ground arith)
  find_of_count p (x ∷ xs) h = elim (Bool-cases (p x)) [
    | inl e ↦ (x, ground arith)
    | inr e ↦ let (a, found) = find_of_count p xs (ground arith) in (a, ground arith)
  ]

  pub count-none : (p : A → Bool) (xs : List A) → any p xs ≡ false → count p xs ≡ 0
  count-none p [] h = refl
  count-none p (x ∷ xs) h = ground (arith, count-none p xs)
