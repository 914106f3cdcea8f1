-- ===== src/Orders/Booking/Blocking.antt =====
-- What the booked asset units of a period are.
use rental_be_nest.Prelude.{
  ℕ, ◌≡◌, Bool, true, false, ◌&&◌, Option, some, List, [], ◌∷◌, Memᴰ, keep, filter_map, includes,
  includes-unique, unique, arith, Bool-cases, inl, inr,
}
use rental_be_nest.Orders.Tables.{OrderItem, Rentals}
use rental_be_nest.Orders.Booking.{is_among, is_booked, get_booked_asset_unit_ids}

collected :
    (p : OrderItem → Bool) (items : List OrderItem) {item : OrderItem} {a : ℕ}
    → Memᴰ item items
    → p item ≡ true
    → item.asset_unit_id ≡ some a
    → includes (filter_map (λ (i : OrderItem). i.asset_unit_id) (keep p items)) a ≡ true
collected p [] m h e = elim m [ ]
collected p (i ∷ items) (Memᴰ.head same) h e = ground arith
collected p (i ∷ items) (Memᴰ.tail m) h e = ground (arith, collected p items m h e)

-- An asset unit that is asked for and not reported is on no item that blocks the period.
pub not_booked :
    (rentals : Rentals) (ids : List ℕ) (s e : ℕ) (exclude : Option ℕ) (item : OrderItem) (a : ℕ)
    → includes (get_booked_asset_unit_ids rentals ids s e exclude) a ≡ false
    → includes ids a ≡ true
    → Memᴰ item rentals.items
    → item.asset_unit_id ≡ some a
    → is_booked rentals.orders s e exclude item ≡ false
unfolding get_booked_asset_unit_ids
not_booked rentals ids s e exclude item a free asked m there =
    elim (Bool-cases (is_booked rentals.orders s e exclude item)) [
      | inl booked ↦
          let asked' = includes-unique ids a in
          let found =
            collected
              (λ i. is_among (unique ids) i.asset_unit_id && is_booked rentals.orders s e exclude i)
              rentals.items m (ground arith) there in
          absurd (ground arith)
      | inr f ↦ f
    ]
