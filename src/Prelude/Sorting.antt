-- ===== src/Prelude/Sorting.antt =====
-- The stable sort of `xs.sort(compare)` and of an `orderBy` clause, by insertion.
use mathlib.Core.Path.{◌≡◌, refl}
use mathlib.Core.List.{List, [], ◌∷◌}
use mathlib.Core.Bool.{Bool, true, false}
use mathlib.Core.Logic.{inl, inr}
use native.Mathlib.Omega.{arith}
use rental_be_nest.Prelude.Tests.{if◌then◌else◌, Bool-cases}
use rental_be_nest.Prelude.Lists.{count}

module _ {ℓ} {A : Type ℓ} (le : A → A → Bool) where
  unfoldable pub insert_sorted : A → List A → List A
  insert_sorted x [] = x ∷ []
  insert_sorted x (y ∷ ys) = if le x y then x ∷ y ∷ ys else y ∷ insert_sorted x ys

  unfoldable pub sort_by : List A → List A
  unfolding insert_sorted
  sort_by [] = []
  sort_by (x ∷ xs) = insert_sorted x (sort_by xs)

  pub count-insert_sorted :
      (p : A → Bool) (x : A) (ys : List A) → count p (insert_sorted x ys) ≡ count p (x ∷ ys)
  unfolding insert_sorted
  count-insert_sorted p x [] = refl
  count-insert_sorted p x (y ∷ ys) = ground (arith, count-insert_sorted p x ys)

  -- Sorting keeps how many members pass a test.
  pub count-sort_by : (p : A → Bool) (xs : List A) → count p (sort_by xs) ≡ count p xs
  unfolding sort_by
  count-sort_by p [] = refl
  count-sort_by p (x ∷ xs) =
      ground (arith, count-insert_sorted p x (sort_by xs), count-sort_by p xs)

  abbrev pub IsSorted : List A → Type 0
  IsSorted [] = Unit
  IsSorted (x ∷ []) = Unit
  IsSorted (x ∷ y ∷ ys) = (le x y ≡ true) × IsSorted (y ∷ ys)

  module _ (total : (a b : A) → le a b ≡ false → le b a ≡ true) where
    pub insert_sorted-IsSorted : (x : A) (ys : List A) → IsSorted ys → IsSorted (insert_sorted x ys)
    unfolding insert_sorted
    insert_sorted-IsSorted x [] h = tt
    insert_sorted-IsSorted x (y ∷ []) h = ground (arith, total x y)
    insert_sorted-IsSorted x (y ∷ z ∷ zs) h = elim (Bool-cases (le x y)) [
      | inl t ↦ rw t (t, h)
      | inr f ↦ rw f (below x y z zs (total x y f) h.0 (insert_sorted-IsSorted x (z ∷ zs) h.1))
    ]
      where
        below :
            (x y z : A) (zs : List A)
            → le y x ≡ true
            → le y z ≡ true
            → IsSorted (insert_sorted x (z ∷ zs))
            → IsSorted (y ∷ insert_sorted x (z ∷ zs))
        below x y z zs p q s = elim (Bool-cases (le x z)) [
          | inl t ↦ rw t (p, rw t at s)
          | inr f ↦ rw f (q, rw f at s)
        ]

    pub sort_by-IsSorted : (xs : List A) → IsSorted (sort_by xs)
    unfolding sort_by
    sort_by-IsSorted [] = tt
    sort_by-IsSorted (x ∷ xs) = insert_sorted-IsSorted x (sort_by xs) (sort_by-IsSorted xs)
