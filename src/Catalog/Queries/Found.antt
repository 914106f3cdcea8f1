-- ===== src/Catalog/Queries/Found.antt =====
-- What the rows are that the queries for orders return.
use rental_be_nest.Prelude.{
  ℕ, suc, ◌≡◌, refl, sym, ap, ◌∙◌, Bool, true, ◌&&◌, List, [], ◌∷◌, map, keep, length, length-keep,
  count, includes, includes-unique, unique, Memᴰ, Memᴰ-map, Memᴰ-keep, arith,
}
use rental_be_nest.Catalog.Tables.{Product, AssetUnit, is_null, is_assignable}
use rental_be_nest.Catalog.Queries.{
  with_live_tiers, is_active_among, get_active_products_for_rental, get_assignable_asset_units,
}

-- A product that orders may name.
pub record IsOffered (products : List Product) (id : ℕ) : Type 0 where
  pub product : Product
  pub mem : Memᴰ product products
  pub is_it : product.id ≡ id
  pub active : product.is_active ≡ true
  pub live : is_null product.deleted_at ≡ true

pub active-IsOffered :
    (ids : List ℕ) (products : List Product) {q : Product}
    → Memᴰ q (get_active_products_for_rental ids products)
    → IsOffered products q.id
unfolding get_active_products_for_rental
active-IsOffered ids products {q} m =
    let (r, kept, same) =
      Memᴰ-map with_live_tiers (keep (is_active_among (unique ids)) products) m in
    let (there, passes) = Memᴰ-keep (is_active_among (unique ids)) products kept in
    record {
      product = r;
      mem = there;
      is_it = sym (ap (λ (q : Product). q.id) same);
      active = ground (arith, passes);
      live = ground (arith, passes);
    }

pub assignable-Memᴰ :
    (ids : List ℕ) (units : List AssetUnit) {u : AssetUnit}
    → Memᴰ u (get_assignable_asset_units ids units)
    → Memᴰ u units × (is_assignable u ≡ true)
unfolding get_assignable_asset_units
assignable-Memᴰ ids units m =
    let (there, passes) = Memᴰ-keep (λ u. includes (unique ids) u.id && is_assignable u) units m in
    (there, ground (arith, passes))

length-map : {A B : Type 0} (f : A → B) (xs : List A) → length (map f xs) ≡ length xs
length-map f [] = refl
length-map f (x ∷ xs) = ap (λ n. suc n) (length-map f xs)

count_same :
    {A : Type 0} (p q : A → Bool) (xs : List A) → ((x : A) → p x ≡ q x) → count p xs ≡ count q xs
count_same p q [] same = refl
count_same p q (x ∷ xs) same = ground (arith, same x, count_same p q xs same)

pub length-active :
    (ids : List ℕ) (products : List Product)
    → length (get_active_products_for_rental ids products)
      ≡ count (λ (q : Product). includes ids q.id && q.is_active && is_null q.deleted_at) products
unfolding get_active_products_for_rental
length-active ids products =
    length-map with_live_tiers (keep (is_active_among (unique ids)) products)
    ∙ length-keep (is_active_among (unique ids)) products
    ∙ count_same _ _ products
        (λ q. ap (λ t. t && q.is_active && is_null q.deleted_at) (includes-unique ids q.id))

pub length-assignable :
    (ids : List ℕ) (units : List AssetUnit)
    → length (get_assignable_asset_units ids units)
      ≡ count (λ (u : AssetUnit). includes ids u.id && is_assignable u) units
unfolding get_assignable_asset_units
length-assignable ids units =
    length-keep (λ u. includes (unique ids) u.id && is_assignable u) units
    ∙ count_same _ _ units (λ u. ap (λ t. t && is_assignable u) (includes-unique ids u.id))
