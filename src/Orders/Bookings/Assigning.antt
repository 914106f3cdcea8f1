-- ===== src/Orders/Bookings/Assigning.antt =====
-- Tables after an assignment of asset units are sound.
use rental_be_nest.Prelude.{
  ℕ, ◌≡◌, refl, sym, ap, ◌∙◌, subst, ◌⊎◌, inl, inr, true, ◌&&◌, some, List, ◌++◌, sort_by, Memᴰ,
  Memᴰ-keep, every-Memᴰ, map-Memᴰ, includes-Memᴰ, find, every, length, unique, arith, ◌≢◌, ==_iff,
  ◌==◌,
}
use rental_be_nest.Result.{ok, require-ok}
use rental_be_nest.World.{World}
use rental_be_nest.Catalog.{is_null}
use rental_be_nest.Catalog.Queries.{get_assignable_asset_units}
use rental_be_nest.Orders.Tables.{RentalOrder, OrderItem}
use rental_be_nest.Orders.Booking.{find_order}
use rental_be_nest.Orders.Service.{is_live_order, items_of, update_row, lock_le, distinct_locks}
use rental_be_nest.Orders.Service.Assign.{
  AssignIn, asset_unit_ids_in, can_assign, booked_by_others, check_assignment, assign_items,
  updated_by, assign_locks,
}
use rental_be_nest.Orders.Bookings.{
  IsBooking, WasBooking, IsNewBooking, Sound, blocks, are_apart, SamePeriod, NoDoubleBooking-grows,
}
use rental_be_nest.Orders.Bookings.Apart.{unlisted_apart}
use rental_be_nest.Orders.Bookings.Rows.{
  find_live-id, live_is_found, find_order-map, one_row, one_row-id,
}
use rental_be_nest.Orders.Bookings.Sound.{
  map-BlockedEnds, map-below, one_row_cases, one_row-EndsWell,
}
use rental_be_nest.Orders.Bookings.AssignedItems.{
  assign_items-IsAssigned, can_assign-item, same_of, some-injective,
}

pub record IsAssigning (id : ℕ) (items : List AssignIn) (user : ℕ) (w w' : World) : Type 0 where
  pub existing : RentalOrder
  pub found : find (is_live_order id) w.rentals.orders ≡ some existing
  pub checked : check_assignment existing items w ≡ ok tt
  pub orders : w'.rentals.orders ≡ update_row id (updated_by user) w.rentals.orders
  pub items_after : w'.rentals.items ≡ assign_items items w.rentals.items
  pub histories : w'.rentals.status_histories ≡ w.rentals.status_histories
  pub next_id : w'.next_id ≡ w.next_id
  pub locks :
      w'.locks
      ≡ w.locks
        ++ sort_by lock_le (
            distinct_locks
              (assign_locks id (items_of existing.id w.rentals.items) (asset_unit_ids_in items)))

module _ (id : ℕ) (items : List AssignIn) (user : ℕ) (w w' : World) where
  -- A new booking of the assignment.
  pub assigned_new :
      (c : IsAssigning id items user w w')
      → Sound w
      → (row : OrderItem) (before : RentalOrder) (e : AssignIn) → Memᴰ row w.rentals.items
      → find_order row.order_id w.rentals.orders ≡ some before
      → is_null before.deleted_at ≡ true
      → Memᴰ e items
      → row.id ≡ e.item_id
      → (before.id ≡ id)
        × ((p : RentalOrder)
            → IsBooking w.rentals e.asset_unit_id p
            → p.id ≢ id
            → are_apart before p ≡ true)
  unfolding check_assignment items_of booked_by_others
  assigned_new c s row before e m found live me is_e =
      let ids = asset_unit_ids_in items in
      let units = get_assignable_asset_units ids w.catalog.asset_units in
      let booked = booked_by_others c.existing ids w in
      let rows = items_of c.existing.id w.rentals.items in
      let tests =
        require-ok
          (length units == length (unique ids) && every (can_assign rows units booked) items) _
          c.checked in
      let all_pass : every (can_assign rows units booked) items ≡ true = ground (arith, tests) in
      let pass = every-Memᴰ (can_assign rows units booked) items all_pass me in
      let ((item, m_item, is_id), free) = can_assign-item rows units booked e pass in
      let (was_item, of_order) =
        Memᴰ-keep (λ (i : OrderItem). i.order_id == c.existing.id) w.rentals.items m_item in
      let is_id' = find_live-id id w.rentals.orders c.found in
      let keys = s.item_keys row item m was_item (is_e ∙ sym is_id) in
      let order : row.order_id ≡ id =
        keys ∙ (==_iff item.order_id c.existing.id).0 of_order ∙ is_id' in
      let same : before ≡ c.existing =
        live_is_found id w.rentals.orders c.found
          (subst (λ k. find_order k w.rentals.orders ≡ some before) order found) live in
      let asked = includes-Memᴰ ids (map-Memᴰ (λ (i : AssignIn). i.asset_unit_id) items me) in
      (
        ap (λ (o : RentalOrder). o.id) same ∙ is_id',
        λ p b differ. rw (same) (
            unlisted_apart w.rentals c.existing ids c.existing.start_date
              c.existing.blocked_end_date e.asset_unit_id free asked p b
              (λ q. differ (q ∙ is_id'))),
      )

  pub assigned_booking :
      IsAssigning id items user w w'
      → Sound w
      → (a : ℕ) (o : RentalOrder) → IsBooking w'.rentals a o
      → WasBooking w.rentals a o ⊎ IsNewBooking w.rentals id a o
  assigned_booking c s a o b =
      let f = updated_by user in
      let from =
        assign_items-IsAssigned items w.rentals.items (subst (Memᴰ b.item) c.items_after b.mem) in
      let (before, found, is_row) =
        find_order-map b.item.order_id (one_row id f) w.rentals.orders (one_row-id id f (λ o. refl))
          (subst (λ os. find_order b.item.order_id os ≡ some o) c.orders b.of) in
      let found' : find_order from.row.order_id w.rentals.orders ≡ some before =
        subst (λ k. find_order k w.rentals.orders ≡ some before) from.same_order found in
      let same = updated_same before o is_row in
      let blocking : blocks before ≡ true = sym same.1 ∙ b.blocking in
      elim from.unit [
        | inl kept ↦ inl record {
          before = before;
          booking = record {
            item = from.row;
            mem = from.mem;
            names = sym kept ∙ b.names;
            live = ap is_null (sym from.same_deleted) ∙ b.live;
            of = found';
            blocking = blocking;
          };
          same = same.0;
        }
        | inr (e, me, is_e, named) ↦
            let (is_order, apart) =
              assigned_new c s from.row before e from.mem found' (ground (arith, blocking)) me
                is_e in
            let is_a : e.asset_unit_id ≡ a = some-injective (sym named ∙ b.names) in
            let period = same.0 in
            inr record {
              is_order = period.id ∙ is_order;
              apart = λ p pb differ.
                  rw (period.start_date, period.blocked_end_date)
                    (apart p (subst (λ a. IsBooking w.rentals a p) (sym is_a) pb) differ);
            }
      ]
    where
      updated_same :
          (before o : RentalOrder)
          → o ≡ one_row id (updated_by user) before
          → SamePeriod o before × (blocks o ≡ blocks before)
      updated_same before o is_row = elim (one_row_cases id (updated_by user) before) [
        | inl same ↦ same_of before before o refl refl refl refl (is_row ∙ same)
        | inr changed ↦
            same_of before (updated_by user before) o refl refl refl refl (is_row ∙ changed)
      ]

  pub assigned-Sound : IsAssigning id items user w w' → Sound w → Sound w'
  assigned-Sound c s =
      let f = updated_by user in
      let row_of = λ (i : OrderItem) (m : Memᴰ i w'.rentals.items).
        assign_items-IsAssigned items w.rentals.items (subst (Memᴰ i) c.items_after m) in
      record {
        no_double_booking =
            NoDoubleBooking-grows w.rentals w'.rentals id (assigned_booking c s)
              s.no_double_booking;
        blocked_ends =
            map-BlockedEnds w w' (one_row id f) c.orders (one_row-EndsWell id f (λ o h. h)) s;
        item_keys = λ i j m n e.
            let x = row_of i m in
            let y = row_of j n in
            x.same_order
            ∙ s.item_keys x.row y.row x.mem y.mem (sym x.same_id ∙ e ∙ y.same_id)
            ∙ sym y.same_order;
        items_below =
            λ i m. let x = row_of i m in rw (c.next_id, x.same_id) (s.items_below x.row x.mem);
        orders_below =
            map-below w w' (one_row id f) c.orders c.next_id (one_row-id id f (λ o. refl)) s;
      }
