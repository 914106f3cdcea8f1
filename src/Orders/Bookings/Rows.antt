-- ===== src/Orders/Bookings/Rows.antt =====
-- How an update of one row shows in the lookups of rows.
use rental_be_nest.Prelude.{
  ℕ, ◌≡◌, refl, true, some, List, [], ◌∷◌, Memᴰ, find, map, arith, Memᴰ-find, ==_iff, Bool-cases,
  inl, inr, ◌==◌, if◌then◌else◌,
}
use rental_be_nest.Catalog.{is_null}
use rental_be_nest.Orders.Tables.{RentalOrder}
use rental_be_nest.Orders.Booking.{find_order}
use rental_be_nest.Orders.Service.{is_live_order}

pub find_order-id :
    (k : ℕ) (orders : List RentalOrder) {o : RentalOrder}
    → find_order k orders ≡ some o
    → Memᴰ o orders × (o.id ≡ k)
unfolding find_order
find_order-id k orders {o} h =
    let (m, e) = Memᴰ-find (λ (o : RentalOrder). o.id == k) orders h in (m, (==_iff o.id k).0 e)

-- A lookup after an update that keeps the ids finds the row it found before, as it is now.
pub find_order-map :
    (k : ℕ) (g : RentalOrder → RentalOrder) (orders : List RentalOrder)
    → ((o : RentalOrder) → (g o).id ≡ o.id)
    → {o' : RentalOrder} → find_order k (map g orders) ≡ some o'
    → (o : RentalOrder) × (find_order k orders ≡ some o) × (o' ≡ g o)
unfolding find_order
find_order-map k g [] same h = cc
find_order-map k g (x ∷ xs) same {o'} h = elim (Bool-cases (x.id == k)) [
  | inl t ↦ (x, ground arith, ground (arith, same x))
  | inr n ↦
      let (o, e, is_row) = find_order-map k g xs same {o' = o'} (ground (arith, same x)) in
      (o, ground arith, is_row)
]

-- The row of an update of one id: it changes if it is the one.
abbrev pub one_row : ℕ → (RentalOrder → RentalOrder) → RentalOrder → RentalOrder
one_row id f o = if o.id == id then f o else o

pub one_row-id :
    (id : ℕ) (f : RentalOrder → RentalOrder)
    → ((o : RentalOrder) → (f o).id ≡ o.id)
    → (o : RentalOrder) → (one_row id f o).id ≡ o.id
one_row-id id f same o = elim (Bool-cases (o.id == id)) [
  | inl t ↦ rw (t) (same o)
  | inr n ↦ rw (n) refl
]

-- The live order of an id is the one that items of the id belong to, if that is live.
pub live_is_found :
    (id : ℕ) (orders : List RentalOrder) {e o : RentalOrder}
    → find (is_live_order id) orders ≡ some e
    → find_order id orders ≡ some o
    → is_null o.deleted_at ≡ true
    → o ≡ e
unfolding find_order
live_is_found id [] h g l = cc
live_is_found id (x ∷ xs) {e} {o} h g l = elim (Bool-cases (x.id == id)) [
  | inl t ↦
      let same : x ≡ o = ground arith in
      let live : is_null x.deleted_at ≡ true = rw (same) l in ground arith
  | inr n ↦ live_is_found id xs {e = e} {o = o} (ground arith) (ground arith) l
]

pub find_live-id :
    (id : ℕ) (orders : List RentalOrder) {e : RentalOrder}
    → find (is_live_order id) orders ≡ some e
    → e.id ≡ id
find_live-id id orders {e} h =
    let (_, passes) = Memᴰ-find (is_live_order id) orders h in
    ground (arith, passes, ==_iff e.id id)
