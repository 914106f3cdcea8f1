-- ===== src/Prelude/Members.antt =====
-- Membership in lists that the model builds by `map`, `keep`, `find` and `++`.
use Prim.Native.Nat.{ℕ}
use mathlib.Core.Path.{◌≡◌, refl, sym, ap, ◌∙◌}
use mathlib.Core.Logic.{◌⊎◌, inl, inr}
use mathlib.Core.List.{List, [], ◌∷◌, ◌++◌, map, Memᴰ}
use mathlib.Core.Bool.{Bool, true}
use mathlib.Core.Option.{Option, some}
use native.Mathlib.Omega.{arith}
use rental_be_nest.Prelude.Tests.{Bool-cases, Option-cases, ==_iff, ◌==◌}
use rental_be_nest.Prelude.Lists.{find, any, keep, every, includes, filter_map, map_get}

module _ {ℓ} {A : Type ℓ} where
  pub Memᴰ-map {κ} :
      {B : Type κ} (f : A → B) (xs : List A) {y : B}
      → Memᴰ y (map f xs)
      → (x : A) × Memᴰ x xs × (y ≡ f x)
  Memᴰ-map f [] m = elim m [ ]
  Memᴰ-map f (x ∷ xs) (Memᴰ.head e) = (x, Memᴰ.head refl, e)
  Memᴰ-map f (x ∷ xs) (Memᴰ.tail m) = let (z, mz, e) = Memᴰ-map f xs m in (z, Memᴰ.tail mz, e)

  pub Memᴰ-append : (xs ys : List A) {y : A} → Memᴰ y (xs ++ ys) → Memᴰ y xs ⊎ Memᴰ y ys
  Memᴰ-append [] ys m = inr m
  Memᴰ-append (x ∷ xs) ys (Memᴰ.head e) = inl (Memᴰ.head e)
  Memᴰ-append (x ∷ xs) ys (Memᴰ.tail m) = elim (Memᴰ-append xs ys m) [
    | inl k ↦ inl (Memᴰ.tail k)
    | inr k ↦ inr k
  ]

  pub Memᴰ-find :
      (p : A → Bool) (xs : List A) {x : A} → find p xs ≡ some x → Memᴰ x xs × (p x ≡ true)
  Memᴰ-find p [] e = cc
  Memᴰ-find p (y ∷ xs) {x} e = elim (Bool-cases (p y)) [
    | inl t ↦ let same : x ≡ y = ground arith in (Memᴰ.head same, ground arith)
    | inr f ↦ let (m, h) = Memᴰ-find p xs {x = x} (ground arith) in (Memᴰ.tail m, h)
  ]

  -- A member that passes the test makes `any` hold.
  pub any-Memᴰ : (p : A → Bool) (xs : List A) {x : A} → Memᴰ x xs → p x ≡ true → any p xs ≡ true
  any-Memᴰ p [] m h = elim m [ ]
  any-Memᴰ p (y ∷ xs) (Memᴰ.head e) h = ground arith
  any-Memᴰ p (y ∷ xs) (Memᴰ.tail m) h = ground (arith, any-Memᴰ p xs m h)

pub includes-Memᴰ : (xs : List ℕ) {a : ℕ} → Memᴰ a xs → includes xs a ≡ true
includes-Memᴰ [] m = elim m [ ]
includes-Memᴰ (x ∷ xs) (Memᴰ.head e) = ground arith
includes-Memᴰ (x ∷ xs) {a} (Memᴰ.tail m) = ground (arith, includes-Memᴰ xs m)

module _ {ℓ} {A : Type ℓ} where
  pub map-Memᴰ {κ} :
      {B : Type κ} (f : A → B) (xs : List A) {x : A} → Memᴰ x xs → Memᴰ (f x) (map f xs)
  map-Memᴰ f [] m = elim m [ ]
  map-Memᴰ f (x ∷ xs) (Memᴰ.head e) = Memᴰ.head (ap f e)
  map-Memᴰ f (x ∷ xs) (Memᴰ.tail m) = Memᴰ.tail (map-Memᴰ f xs m)

  pub keep-Memᴰ : (p : A → Bool) (xs : List A) {x : A} → Memᴰ x xs → p x ≡ true → Memᴰ x (keep p xs)
  keep-Memᴰ p [] m h = elim m [ ]
  keep-Memᴰ p (y ∷ xs) {x} (Memᴰ.head e) h =
      let kept : p y ≡ true = ap p (sym e) ∙ h in rw (kept) (Memᴰ.head e)
  keep-Memᴰ p (y ∷ xs) {x} (Memᴰ.tail m) h = elim (Bool-cases (p y)) [
    | inl t ↦ rw (t) (Memᴰ.tail (keep-Memᴰ p xs m h))
    | inr f ↦ rw (f) (keep-Memᴰ p xs m h)
  ]

  pub includes-filter_map :
      (f : A → Option ℕ) (xs : List A) {x : A} {a : ℕ}
      → Memᴰ x xs
      → f x ≡ some a
      → includes (filter_map f xs) a ≡ true
  includes-filter_map f [] m h = elim m [ ]
  includes-filter_map f (y ∷ xs) (Memᴰ.head e) h = ground arith
  includes-filter_map f (y ∷ xs) (Memᴰ.tail m) h = ground (arith, includes-filter_map f xs m h)

  -- The first member, or one of the rest.
  Memᴰ-cons : {x y : A} {xs : List A} → Memᴰ x (y ∷ xs) → (x ≡ y) ⊎ Memᴰ x xs
  Memᴰ-cons (Memᴰ.head e) = inl e
  Memᴰ-cons (Memᴰ.tail m) = inr m

  pub Memᴰ-keep :
      (p : A → Bool) (xs : List A) {x : A} → Memᴰ x (keep p xs) → Memᴰ x xs × (p x ≡ true)
  Memᴰ-keep p [] m = elim m [ ]
  Memᴰ-keep p (y ∷ xs) {x} m = elim (Bool-cases (p y)) [
    | inl t ↦
        let m' : Memᴰ x (y ∷ keep p xs) = rw (t) at m in
        elim (Memᴰ-cons m') [
          | inl e ↦ (Memᴰ.head e, ap p e ∙ t)
          | inr k ↦ let (was, h) = Memᴰ-keep p xs k in (Memᴰ.tail was, h)
        ]
    | inr f ↦
        let m' : Memᴰ x (keep p xs) = rw (f) at m in
        let (was, h) = Memᴰ-keep p xs m' in (Memᴰ.tail was, h)
  ]

  pub every-Memᴰ : (p : A → Bool) (xs : List A) {x : A} → every p xs ≡ true → Memᴰ x xs → p x ≡ true
  every-Memᴰ p [] h m = elim m [ ]
  every-Memᴰ p (y ∷ xs) h (Memᴰ.head e) = ap p e ∙ ground (arith, h)
  every-Memᴰ p (y ∷ xs) h (Memᴰ.tail m) = every-Memᴰ p xs (ground (arith, h)) m

  pub map_get-Memᴰ :
      (key : A → ℕ) (xs : List A) (k : ℕ) {x : A}
      → map_get key xs k ≡ some x
      → Memᴰ x xs × (key x ≡ k)
  map_get-Memᴰ key [] k h = cc
  map_get-Memᴰ key (y ∷ xs) k {x} h = elim (Option-cases (map_get key xs k)) [
    | inl e ↦ elim (Bool-cases (key y == k)) [
      | inl t ↦
          let same : x ≡ y = ground (arith, h, e) in
          (Memᴰ.head same, ap key same ∙ (==_iff (key y) k).0 t)
      | inr f ↦ absurd (ground (arith, h, e))
    ]
    | inr (z, e) ↦
        let same : z ≡ x = ground (arith, h, e) in
        let (m, is_k) = map_get-Memᴰ key xs k {x = x} (e ∙ ap some same) in (Memᴰ.tail m, is_k)
  ]

  pub Memᴰ-single : {x y : A} → Memᴰ x (y ∷ []) → x ≡ y
  Memᴰ-single (Memᴰ.head e) = e
  Memᴰ-single (Memᴰ.tail m) = elim m [ ]
