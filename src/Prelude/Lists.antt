-- ===== src/Prelude/Lists.antt =====
-- Lists measured by native numbers, and the array methods that the source uses.
use Prim.Native.Nat.{ℕ, zero, suc, ◌+◌, ◌≤◌}
use mathlib.Core.Path.{◌≡◌, refl, ap}
use mathlib.Core.List.{List, [], ◌∷◌, ◌++◌}
use mathlib.Core.Bool.{Bool, true, false, ◌&&◌, ◌||◌}
use mathlib.Core.Option.{Option, none, some}
use native.Mathlib.Omega.{arith}
use rental_be_nest.Prelude.Tests.{◌==◌, if◌then◌else◌, ==_iff}

module _ {ℓ} {A : Type ℓ} where
  abbrev pub length : List A → ℕ
  length [] = 0
  length (x ∷ xs) = suc (length xs)

  -- `xs.filter(p)`
  abbrev pub keep : (A → Bool) → List A → List A
  keep p [] = []
  keep p (x ∷ xs) = if p x then x ∷ keep p xs else keep p xs

  -- `xs.find(p)`
  abbrev pub find : (A → Bool) → List A → Option A
  find p [] = none
  find p (x ∷ xs) = if p x then some x else find p xs

  -- `xs.every(p)` and `xs.some(p)`
  abbrev pub every : (A → Bool) → List A → Bool
  every p [] = true
  every p (x ∷ xs) = p x && every p xs

  abbrev pub any : (A → Bool) → List A → Bool
  any p [] = false
  any p (x ∷ xs) = p x || any p xs

  -- The rows that a `where` clause counts.
  abbrev pub count : (A → Bool) → List A → ℕ
  count p [] = 0
  count p (x ∷ xs) = if p x then suc (count p xs) else count p xs

  abbrev pub take : ℕ → List A → List A
  take zero xs = []
  take (suc n) [] = []
  take (suc n) (x ∷ xs) = x ∷ take n xs

  abbrev pub drop : ℕ → List A → List A
  drop zero xs = xs
  drop (suc n) [] = []
  drop (suc n) (x ∷ xs) = drop n xs

  abbrev pub replicate : ℕ → A → List A
  replicate zero a = []
  replicate (suc n) a = a ∷ replicate n a

  pub length-append : (xs ys : List A) → length (xs ++ ys) ≡ length xs + length ys
  length-append [] ys = omega arith
  length-append (x ∷ xs) ys = omega (arith, length-append xs ys)

  pub length-replicate : (n : ℕ) (a : A) → length (replicate n a) ≡ n
  length-replicate zero a = refl
  length-replicate (suc n) a = ap suc (length-replicate n a)

  pub length-keep : (p : A → Bool) (xs : List A) → length (keep p xs) ≡ count p xs
  length-keep p [] = refl
  length-keep p (x ∷ xs) = ground (arith, length-keep p xs)

  pub length-take-le : (n : ℕ) (xs : List A) → length (take n xs) ≤ n
  length-take-le zero xs = omega arith
  length-take-le (suc n) [] = omega arith
  length-take-le (suc n) (x ∷ xs) = omega (arith, length-take-le n xs)

  -- The values of the members that have one: `xs.flatMap((x) => (f(x) ? [f(x)] : []))`.
  abbrev pub filter_map {κ} : {B : Type κ} → (A → Option B) → List A → List B
  filter_map f [] = []
  filter_map f (x ∷ xs) = elim (f x) [ none ↦ filter_map f xs | some b ↦ b ∷ filter_map f xs ]

-- `set.has(a)`, `array.includes(a)`
abbrev pub includes : List ℕ → ℕ → Bool
includes [] a = false
includes (x ∷ xs) a = x == a || includes xs a

-- `[...new Set(xs)]`: the first occurrence of each value stays.
nub_from : List ℕ → List ℕ → List ℕ
nub_from seen [] = []
nub_from seen (x ∷ xs) =
    let old = nub_from seen xs in
    let new = nub_from (x ∷ seen) xs in if includes seen x then old else x ∷ new

unfoldable pub unique : List ℕ → List ℕ
unfolding nub_from
unique xs = nub_from [] xs

includes-nub_from :
    (seen xs : List ℕ) (a : ℕ)
    → (includes seen a || includes (nub_from seen xs) a) ≡ (includes seen a || includes xs a)
unfolding nub_from
includes-nub_from seen [] a = refl
includes-nub_from seen (x ∷ xs) a =
    ground (arith, includes-nub_from seen xs a, includes-nub_from (x ∷ seen) xs a, ==_iff x a)

pub includes-unique : (xs : List ℕ) (a : ℕ) → includes (unique xs) a ≡ includes xs a
unfolding unique
includes-unique xs a = includes-nub_from [] xs a

module _ {ℓ} {A : Type ℓ} where
  -- `new Map(xs.map((x) => [key(x), x])).get(k)`: the last entry of a key wins.
  abbrev pub map_get : (A → ℕ) → List A → ℕ → Option A
  map_get key [] k = none
  map_get key (x ∷ xs) k = elim (map_get key xs k) [
    | some y ↦ some y
    | none ↦ if key x == k then some x else none
  ]
