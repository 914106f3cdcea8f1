-- ===== src/Orders/Bookings/Deleted.antt =====
-- A deletion takes no unit from an order that holds it.
use rental_be_nest.Prelude.{
  ℕ, ◌≡◌, refl, sym, ap, ◌∙◌, subst, true, false, inl, inr, some, List, [], ◌∷◌, map, keep, every,
  includes, unique, arith, Bool-cases, Memᴰ, keep-Memᴰ, every-Memᴰ, ◌==◌, if◌then◌else◌,
}
use rental_be_nest.Result.{ok, require-ok}
use rental_be_nest.Exec.{Exec, pure, reads, modify, ◌>>=◌, reads-ok}
use rental_be_nest.World.{World}
use rental_be_nest.Orders.Tables.{RentalOrder, OrderStatus, status_in, blocking_order_statuses}
use rental_be_nest.Orders.Booking.{find_order}
use rental_be_nest.Orders.Availability.{is_empty}
use rental_be_nest.Orders.Service.Delete.{
  soft_deletable_statuses, deleted_order, write_deleted, assert_soft_deletable,
  delete_rental_orders,
}
use rental_be_nest.Orders.Bookings.{IsBooking, blocks}
use rental_be_nest.Orders.Bookings.Rows.{find_order-id}

soft_deletable_is_free :
    (s : OrderStatus)
    → status_in s soft_deletable_statuses ≡ true
    → status_in s blocking_order_statuses ≡ false
unfolding status_in
soft_deletable_is_free s h = ground (arith, h)

-- A row that an update of rows leaves alone is found where it was.
find_order-kept :
    (k : ℕ) (g : RentalOrder → RentalOrder) (orders : List RentalOrder) {o : RentalOrder}
    → ((o : RentalOrder) → (g o).id ≡ o.id)
    → find_order k orders ≡ some o
    → g o ≡ o
    → find_order k (map g orders) ≡ some o
unfolding find_order
find_order-kept k g [] same h e = cc
find_order-kept k g (x ∷ xs) {o} same h e = elim (Bool-cases (x.id == k)) [
  | inl t ↦
      let is_o : x ≡ o = ground (arith, h, t) in
      let kept : g x ≡ o = ap g is_o ∙ e in
      let found : ((g x).id == k) ≡ true = rw (same x) t in rw (found) (ap some kept)
  | inr f ↦
      let other : ((g x).id == k) ≡ false = rw (same x) f in
      rw (other) (find_order-kept k g xs same (ground (arith, h, f)) e)
]

deleted_row_id :
    (ids : List ℕ) (f : RentalOrder → RentalOrder) (o : RentalOrder)
    → (f o).id ≡ o.id
    → (if includes ids o.id then f o else o).id ≡ o.id
deleted_row_id ids f o e = elim (Bool-cases (includes ids o.id)) [
  | inl t ↦ rw (t) e
  | inr n ↦ rw (n) refl
]

-- Where every order that the ids name may be deleted, the update leaves an order that blocks.
deletion_keeps :
    (ids : List ℕ) (f : RentalOrder → RentalOrder) (orders : List RentalOrder) (o : RentalOrder)
    → every
        (λ (o : RentalOrder). status_in o.status soft_deletable_statuses)
        (keep (λ (o : RentalOrder). includes ids o.id) orders)
      ≡ true
    → Memᴰ o orders
    → blocks o ≡ true
    → (if includes ids o.id then f o else o) ≡ o
deletion_keeps ids f orders o h m b = elim (Bool-cases (includes ids o.id)) [
  | inl t ↦
      let named = keep-Memᴰ (λ (o : RentalOrder). includes ids o.id) orders m t in
      let free =
        every-Memᴰ (λ (o : RentalOrder). status_in o.status soft_deletable_statuses) _ h named in
      let idle = soft_deletable_is_free o.status free in absurd (ground (arith, idle, b))
  | inr n ↦ rw (n) refl
]

-- A deletion that returns keeps every booking: an order that holds an asset unit before holds it
-- afterwards, and its row is the same.
pub delete_rental_orders-IsBooking :
    (rental_order_ids : List ℕ) (user : ℕ) (w : World) (a : ℕ) (o : RentalOrder)
    → (delete_rental_orders rental_order_ids user w).0 ≡ ok tt
    → IsBooking w.rentals a o
    → IsBooking (delete_rental_orders rental_order_ids user w).1.rentals a o
unfolding delete_rental_orders assert_soft_deletable write_deleted modify pure
delete_rental_orders-IsBooking rental_order_ids user w a o h b =
    elim (Bool-cases (is_empty (unique rental_order_ids))) [
      | inl t ↦ rw (t) b
      | inr f ↦ rw (f) (kept (subst (λ c. ((if c then pure tt else write) w).0 ≡ ok tt) f h))
    ]
  where
    ids : List ℕ
    ids = unique rental_order_ids

    write : Exec World (Unit {0})
    write = reads (assert_soft_deletable ids) >>= λ _. modify (write_deleted ids user)

    kept : (write w).0 ≡ ok tt → IsBooking (write w).1.rentals a o
    kept h =
        let (_, may, _, e) =
          reads-ok (assert_soft_deletable ids) (λ _. modify (write_deleted ids user)) w h in
        let f = deleted_order w.now user in
        let (was_in, _) = find_order-id b.item.order_id w.rentals.orders b.of in
        let same = deletion_keeps ids f w.rentals.orders o (require-ok _ _ may) was_in b.blocking in
        subst (λ (w : World). IsBooking w.rentals a o) (sym e)
          (record {
            item = b.item;
            mem = b.mem;
            names = b.names;
            live = b.live;
            of =
                find_order-kept b.item.order_id (λ o. if includes ids o.id then f o else o)
                  w.rentals.orders (λ o. deleted_row_id ids f o refl) b.of same;
            blocking = b.blocking;
          })
