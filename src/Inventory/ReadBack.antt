-- ===== src/Inventory/ReadBack.antt =====
-- A row that was written by its id is the row that the id finds.
use rental_be_nest.Prelude.{
  Memᴰ-find, ==_refl, find, ℕ, ◌≡◌, refl, sym, ap, subst, ◌∙◌, String, Bool, ◌&&◌, inl, inr, Option,
  none, some, List, [], ◌∷◌, map, arith, ==_iff, Bool-cases, ◌==◌, if◌then◌else◌,
}
use rental_be_nest.Result.{
  or_fail, or_fail-ok, not_found, product_not_found, asset_unit_not_found, ok,
}
use rental_be_nest.World.{World}
use rental_be_nest.Catalog.{Product, AssetUnit, Label, is_null}
use rental_be_nest.Inventory.Requests.{UpdateProduct, CreateProduct, CreateAssetUnit}
use rental_be_nest.Inventory.Products.{
  product_id_of, new_product, insert_product, updated_product, write_product, find_existing_product,
  update_product_row,
}
use rental_be_nest.Inventory.Units.{
  find_existing_asset_unit, unit_id_of, new_unit, insert_unit, update_unit_row,
}

module _ {A : Type 0} (id_of : A → ℕ) (is_live : A → Bool) where
  abbrev by_id : ℕ → A → Bool
  by_id id a = id_of a == id && is_live a

  -- A write by id that keeps ids and what is live changes what the row's id finds.
  find_written :
      (id : ℕ) (f : A → A) (rows : List A) {a : A}
      → ((b : A) → id_of (f b) ≡ id_of b)
      → ((b : A) → is_live (f b) ≡ is_live b)
      → find (by_id id) rows ≡ some a
      → find (by_id id) (map (λ b. if id_of b == id then f b else b) rows) ≡ some (f a)
  find_written id f [] ids lives h = cc
  find_written id f (b ∷ rows) {a} ids lives h = elim (Bool-cases (id_of b == id)) [
    | inr other ↦
        let later : find (by_id id) rows ≡ some a = rw (other) at h in
        rw (other, other) (find_written id f rows ids lives later)
    | inl here ↦ elim (Bool-cases (is_live b)) [
      | inl live ↦
          let same : some b ≡ some a = rw (here, live) at h in
          rw (here, ids b, here, lives b, live)
            (ap (λ o. elim o [ none ↦ none | some x ↦ some (f x) ]) same)
      | inr dead ↦
          let later : find (by_id id) rows ≡ some a = rw (here, dead) at h in
          rw (here, ids b, here, lives b, dead) (find_written id f rows ids lives later)
    ]
  ]

abbrev live_product : Product → Bool
live_product p = is_null p.deleted_at

abbrev live_unit : AssetUnit → Bool
live_unit u = is_null u.deleted_at

pub found_product :
    (id : ℕ) (w : World) {p : Product}
    → find_existing_product id w ≡ ok p
    → (find (by_id product_id_of live_product id) w.catalog.products ≡ some p) × (p.id ≡ id)
unfolding find_existing_product
found_product id w {p} h =
    let found = or_fail-ok (find (by_id product_id_of live_product id) w.catalog.products) _ h in
    let (_, is_it) = Memᴰ-find (by_id product_id_of live_product id) w.catalog.products found in
    (found, (==_iff p.id id).0 (ground (arith, is_it)))

found_unit :
    (id : ℕ) (w : World) {u : AssetUnit}
    → find_existing_asset_unit id w ≡ ok u
    → (find (by_id unit_id_of live_unit id) w.catalog.asset_units ≡ some u) × (u.id ≡ id)
unfolding find_existing_asset_unit
found_unit id w {u} h =
    let found = or_fail-ok (find (by_id unit_id_of live_unit id) w.catalog.asset_units) _ h in
    let (_, is_it) = Memᴰ-find (by_id unit_id_of live_unit id) w.catalog.asset_units found in
    (found, (==_iff u.id id).0 (ground (arith, is_it)))

-- A product that was found by an id and written by it is found by it again.
pub product_written :
    (id key : ℕ) (f : Product → Product) (w : World) (existing : Product)
    → ((p : Product) → (f p).id ≡ p.id)
    → ((p : Product) → (f p).deleted_at ≡ p.deleted_at)
    → find_existing_product id w ≡ ok existing
    → key ≡ id
    → find_existing_product (f existing).id (update_product_row key f w) ≡ ok (f existing)
unfolding find_existing_product
product_written id key f w existing ids lives h k =
    let (found, e) = found_product id w h in
    let again =
      find_written product_id_of live_product id f w.catalog.products ids
        (λ p. ap is_null (lives p)) found in
    subst (λ i. find_existing_product i (update_product_row key f w) ≡ ok (f existing))
      (sym (ids existing ∙ e))
      (subst (λ i. find_existing_product id (update_product_row i f w) ≡ ok (f existing)) (sym k)
        (ap (λ o. or_fail o (not_found product_not_found)) again))

pub unit_written :
    (id : ℕ) (f : AssetUnit → AssetUnit) (w : World) (existing : AssetUnit)
    → ((u : AssetUnit) → (f u).id ≡ u.id)
    → ((u : AssetUnit) → (f u).deleted_at ≡ u.deleted_at)
    → find_existing_asset_unit id w ≡ ok existing
    → find_existing_asset_unit (f existing).id (update_unit_row existing.id f w) ≡ ok (f existing)
unfolding find_existing_asset_unit
unit_written id f w existing ids lives h =
    let (found, e) = found_unit id w h in
    let again =
      find_written unit_id_of live_unit id f w.catalog.asset_units ids (λ u. ap is_null (lives u))
        found in
    subst (λ i. find_existing_asset_unit i (update_unit_row existing.id f w) ≡ ok (f existing))
      (sym (ids existing ∙ e))
      (subst (λ i. find_existing_asset_unit id (update_unit_row i f w) ≡ ok (f existing)) (sym e)
        (ap (λ o. or_fail o (not_found asset_unit_not_found)) again))

module _ (normalize : String → String) where
  pub product_inserted :
      (dto : CreateProduct) (category brand : Option Label) (w : World) (p : Product)
      → new_product normalize dto category brand w.next_id ≡ p
      → find_existing_product p.id (insert_product normalize dto category brand w) ≡ ok p
  unfolding find_existing_product insert_product new_product
  product_inserted dto category brand w p e =
      let stored = insert_product normalize dto category brand w in
      subst (λ (q : Product). find_existing_product q.id stored ≡ ok q) e
        (rw (==_refl w.next_id) refl)

  pub unit_inserted :
      (dto : CreateAssetUnit) (product : Product) (w : World) (u : AssetUnit)
      → new_unit normalize dto product w.next_id ≡ u
      → find_existing_asset_unit u.id (insert_unit normalize dto product w) ≡ ok u
  unfolding find_existing_asset_unit insert_unit new_unit
  unit_inserted dto product w u e =
      let stored = insert_unit normalize dto product w in
      subst (λ (v : AssetUnit). find_existing_asset_unit v.id stored ≡ ok v) e
        (rw (==_refl w.next_id) refl)

  pub product_updated_row :
      (id : ℕ) (dto : UpdateProduct) (existing : Product) (category brand : Option Label)
      (w : World) (p : Product)
      → find_existing_product id w ≡ ok existing
      → updated_product normalize dto existing category brand w.now w.next_id existing ≡ p
      → find_existing_product p.id (write_product normalize dto existing category brand w) ≡ ok p
  unfolding find_existing_product write_product updated_product
  product_updated_row id dto existing category brand w p h e =
      let write = updated_product normalize dto existing category brand w.now w.next_id in
      let stored = write_product normalize dto existing category brand w in
      subst (λ (q : Product). find_existing_product q.id stored ≡ ok q) e
        (product_written id existing.id write w existing (λ _. refl) (λ _. refl) h
          (found_product id w h).1)
