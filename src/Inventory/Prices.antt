-- ===== src/Inventory/Prices.antt =====
-- The price tiers of products: no day of a product has two.
use rental_be_nest.Prelude.{
  ℕ, ◌≤◌, ◌+◌, ◌≡◌, refl, sym, subst, Bool, ◌&&◌, inl, inr, Option, none, some, List, [], ◌∷◌, ◌++◌,
  map, count, Memᴰ, Memᴰ-map, arith, Bool-cases,
}
use rental_be_nest.Result.{ok}
use rental_be_nest.Catalog.{Product, PriceTier, is_null}
use rental_be_nest.Catalog.Tiers.{
  MaxDays, undefined, null, days, PriceTierIn, reaches, up_to, covers, validate_rental_price_tiers,
}
use rental_be_nest.Catalog.Tiers.Disjoint.{
  includes_day, count_days, validate_rental_price_tiers_iff,
}
use rental_be_nest.Inventory.Tiers.{
  stored_max_days, create_tiers, delete_tiers, updated_tiers, tiers_or_none,
}

-- A tier that is live and covers a number of days.
abbrev pub is_live_for : ℕ → PriceTier → Bool
is_live_for n tier = is_null tier.deleted_at && covers n tier

-- No number of days has two live tiers.
abbrev pub HasOnePrice : List PriceTier → Type 0
HasOnePrice tiers = (n : ℕ) → count (is_live_for n) tiers ≤ 1

covers-created : (n : ℕ) (m : MaxDays) → up_to (stored_max_days m) n ≡ reaches m n
unfolding reaches
covers-created n undefined = refl
covers-created n null = refl
covers-created n (days k) = refl

count-create_tiers :
    (n id : ℕ) (tiers : List PriceTierIn)
    → count (is_live_for n) (create_tiers id tiers) ≡ count (includes_day n) tiers
count-create_tiers n id [] = refl
count-create_tiers n id (tier ∷ tiers) =
    rw (covers-created n tier.max_days, count-create_tiers n (id + 1) tiers) refl

count-delete_tiers :
    (n now : ℕ) (tiers : List PriceTier) → count (is_live_for n) (delete_tiers now tiers) ≡ 0
count-delete_tiers n now [] = refl
count-delete_tiers n now (tier ∷ tiers) = elim (Bool-cases (is_null tier.deleted_at)) [
  | inl t ↦ rw (t) (count-delete_tiers n now tiers)
  | inr f ↦ rw (f, f) (count-delete_tiers n now tiers)
]

count-append :
    {A : Type 0} (p : A → Bool) (xs ys : List A) → count p (xs ++ ys) ≡ count p xs + count p ys
count-append p [] ys = omega arith
count-append p (x ∷ xs) ys = ground (arith, count-append p xs ys)

pub create_tiers-HasOnePrice :
    (id : ℕ) (tiers : Option (List PriceTierIn)) {r : Unit {0}}
    → validate_rental_price_tiers tiers ≡ ok r
    → HasOnePrice (create_tiers id (tiers_or_none tiers))
create_tiers-HasOnePrice id none h n = omega arith
create_tiers-HasOnePrice id (some tiers) h n =
    let (_, one) = (validate_rental_price_tiers_iff tiers).0 h in
    omega (arith, one n, count-create_tiers n id tiers, count_days n tiers)

pub updated_tiers-HasOnePrice :
    (new : Option (List PriceTierIn)) (now id : ℕ) (old : List PriceTier) {r : Unit {0}}
    → validate_rental_price_tiers new ≡ ok r
    → HasOnePrice old
    → HasOnePrice (updated_tiers new now id old)
updated_tiers-HasOnePrice none now id old h one n = one n
updated_tiers-HasOnePrice (some new) now id old h one n = omega (
  arith,
  count-append (is_live_for n) (delete_tiers now old) (create_tiers id new),
  count-delete_tiers n now old,
  create_tiers-HasOnePrice id (some new) h n,
)

-- The live tiers of every product share no day.
abbrev pub HasPrices : List Product → Type 0
HasPrices products = (p : Product) → Memᴰ p products → HasOnePrice p.rental_price_tiers

pub map-HasPrices :
    (f : Product → Product) (products : List Product)
    → ((p : Product) → HasOnePrice p.rental_price_tiers → HasOnePrice (f p).rental_price_tiers)
    → HasPrices products
    → HasPrices (map f products)
map-HasPrices f products keeps one p m n =
    let (old, k, e) = Memᴰ-map f products m in
    subst (λ (q : Product). count (is_live_for n) q.rental_price_tiers ≤ 1) (sym e)
      (keeps old (one old k) n)

pub insert-HasPrices :
    (row : Product) (products : List Product)
    → HasOnePrice row.rental_price_tiers
    → HasPrices products
    → HasPrices (row ∷ products)
insert-HasPrices row products one all p (Memᴰ.head e) n =
    subst (λ (q : Product). count (is_live_for n) q.rental_price_tiers ≤ 1) (sym e) (one n)
insert-HasPrices row products one all p (Memᴰ.tail m) n = all p m n
