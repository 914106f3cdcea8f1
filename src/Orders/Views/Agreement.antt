-- ===== src/Orders/Views/Agreement.antt =====
-- The pages agree with the check that an order goes through.
use rental_be_nest.Prelude.{
  ℕ, ◌≤◌, ◌<◌, ◌≡◌, ◌≢◌, refl, sym, ◌∙◌, ◌↔◌, inl, inr, true, false, ◌&&◌, Option, none, some, List,
  [], ◌∷◌, any, keep, filter_map, includes, includes-unique, unique, arith, Bool-cases, ltb,
  is_some_eq,
}
use rental_be_nest.Catalog.{Catalog, AssetUnit, is_null, is_assignable}
use rental_be_nest.Catalog.Queries.{count_assignable_asset_units}
use rental_be_nest.Orders.Tables.{Rentals, OrderItem}
use rental_be_nest.Orders.Booking.{
  is_among, is_booked, get_booked_asset_unit_ids, get_booked_quantity,
}
use rental_be_nest.Orders.Availability.{
  EvaluateParams, product_ids_of, assignable_count, booked_quantity, requested_quantity,
  short_products,
}
use rental_be_nest.Orders.Views.Products.{get_availability_counts, inventory_of}
use rental_be_nest.Orders.Views.Assets.{
  AssetAvailabilityState, BookedRow, booked_rows, conflict_end, classify, asset_view,
}

-- The number of units that the page of products shows as available for a window is the greatest
-- quantity that the check of an order for the same period lets through: for a product that both ask
-- about and a positive quantity, the check finds no shortage of the product exactly when the quantity
-- is at most that number.
pub inventory_of-short_products :
    (catalog : Catalog) (rentals : Rentals) (ids : List ℕ) (p : EvaluateParams)
    (minutes blocked_end id : ℕ)
    → includes ids id ≡ true
    → includes (product_ids_of p.items) id ≡ true
    → 0 < requested_quantity p.items id
    → (short_products
          (assignable_count catalog rentals p minutes blocked_end)
          (booked_quantity catalog rentals p minutes blocked_end)
          (requested_quantity p.items)
          (id ∷ [])
        ≡ [])
      ↔ (requested_quantity p.items id
          ≤ (inventory_of
              (get_availability_counts catalog rentals ids p.start_date blocked_end
                p.exclude_order_id)
              id).available)
unfolding short_products get_availability_counts inventory_of count_assignable_asset_units
    get_booked_quantity
inventory_of-short_products catalog rentals ids p minutes blocked_end id listed asked positive =
    let a = includes-unique ids id in
    let b = includes-unique (product_ids_of p.items) id in
    (
      λ h. ground (arith, h, a, b, listed, asked, positive),
      λ h. ground (arith, h, a, b, listed, asked, positive),
    )

-- A unit with a conflict keeps one.
conflict_end-some : (c : ℕ) (rows : List BookedRow) (a : ℕ) → conflict_end (some c) rows a ≢ none
unfolding conflict_end
conflict_end-some c [] a h = cc
conflict_end-some c (r ∷ rows) a h = elim (Bool-cases (is_some_eq r.asset_unit_id a)) [
  | inr f ↦ conflict_end-some c rows a (ground (arith, f, h))
  | inl t ↦ elim (Bool-cases (ltb c r.order.blocked_end_date)) [
    | inl later ↦ conflict_end-some r.order.blocked_end_date rows a (ground (arith, t, later, h))
    | inr f ↦ conflict_end-some c rows a (ground (arith, t, f, h))
  ]
]

conflict_end-none :
    (rows : List BookedRow) (a : ℕ)
    → (conflict_end none rows a ≡ none)
      ↔ (any (λ (r : BookedRow). is_some_eq r.asset_unit_id a) rows ≡ false)
unfolding conflict_end
conflict_end-none [] a = (λ h. refl, λ h. refl)
conflict_end-none (r ∷ rows) a = elim (Bool-cases (is_some_eq r.asset_unit_id a)) [
  | inl t ↦ (
    λ h. absurd (conflict_end-some r.order.blocked_end_date rows a (ground (arith, t, h))),
    λ h. absurd (ground (arith, t, h)),
  )
  | inr f ↦
      let rest = conflict_end-none rows a in
      (
        λ h. ground (arith, f, rest.0 (ground (arith, f, h))),
        λ h. ground (arith, f, rest.1 (ground (arith, f, h))),
      )
]

is_among-unique : (ids : List ℕ) (o : Option ℕ) → is_among (unique ids) o ≡ is_among ids o
is_among-unique ids none = refl
is_among-unique ids (some a) = includes-unique ids a

any-booked_rows :
    (rentals : Rentals) (items : List OrderItem) (ids : List ℕ) (s e : ℕ) (exclude : Option ℕ)
    (a : ℕ)
    → any
        (λ (r : BookedRow). is_some_eq r.asset_unit_id a)
        (booked_rows rentals.orders items ids s e exclude)
      ≡ includes
          (filter_map
            (λ (i : OrderItem). i.asset_unit_id)
            (keep
              (λ i. is_among (unique ids) i.asset_unit_id && is_booked rentals.orders s e exclude i)
              items))
          a
unfolding booked_rows is_booked
any-booked_rows rentals [] ids s e exclude a = refl
any-booked_rows rentals (i ∷ items) ids s e exclude a =
    let rest = any-booked_rows rentals items ids s e exclude a in
    let same = is_among-unique ids i.asset_unit_id in ground (arith, rest, same)

classify-available :
    (u : AssetUnit) (conflict : Option ℕ)
    → is_null u.deleted_at ≡ true
    → ((classify u conflict).availability ≡ AssetAvailabilityState.available)
      ↔ ((is_assignable u ≡ true) × (conflict ≡ none))
unfolding classify is_assignable
classify-available u conflict live =
    (λ h. (ground (arith, h, live), ground (arith, h, live)), λ (h, e). ground (arith, h, e, live))

-- The page of a product's units shows a unit that is not deleted as available exactly when an order
-- may name it: it is assignable, and the query for booked units, for the same units and period, does
-- not list it.
pub asset_view-available_iff :
    (rentals : Rentals) (ids : List ℕ) (s e : ℕ) (exclude : Option ℕ) (u : AssetUnit)
    → is_null u.deleted_at ≡ true
    → ((asset_view (booked_rows rentals.orders rentals.items ids s e exclude) u).availability
        ≡ AssetAvailabilityState.available)
      ↔ ((is_assignable u ≡ true)
          × (includes (get_booked_asset_unit_ids rentals ids s e exclude) u.id ≡ false))
unfolding asset_view get_booked_asset_unit_ids
asset_view-available_iff rentals ids s e exclude u live =
    let rows = booked_rows rentals.orders rentals.items ids s e exclude in
    let same = any-booked_rows rentals rentals.items ids s e exclude u.id in
    let shown = classify-available u (conflict_end none rows u.id) live in
    let free = conflict_end-none rows u.id in
    (
      λ h. let (a, b) = shown.0 h in (a, sym same ∙ free.0 b),
      λ (a, b). shown.1 (a, free.1 (same ∙ b)),
    )
