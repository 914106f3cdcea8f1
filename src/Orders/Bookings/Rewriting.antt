-- ===== src/Orders/Bookings/Rewriting.antt =====
-- Tables after an update of a draft are sound.
use rental_be_nest.Prelude.{
  ℕ, ◌+◌, ◌≤◌, ◌<◌, ◌≡◌, refl, sym, ap, ◌∙◌, subst, ◌⊎◌, inl, inr, true, not, some, List, [], ◌∷◌,
  ◌++◌, map, Memᴰ, Memᴰ-map, Memᴰ-keep, Memᴰ-append, keep, find, length, arith, Bool-cases, ◌==◌,
  ==_iff,
}
use rental_be_nest.World.{World}
use rental_be_nest.Catalog.{is_null}
use rental_be_nest.Orders.Tables.{RentalOrder, OrderItem, OrderStatus, PricedItem, status_in}
use rental_be_nest.Orders.Booking.{find_order}
use rental_be_nest.Orders.Service.{is_live_order}
use rental_be_nest.Orders.Service.Create.{number_items}
use rental_be_nest.Orders.Service.Update.{update_item_rows}
use rental_be_nest.Orders.Bookings.{
  IsBooking, WasBooking, IsNewBooking, NoDoubleBooking-grows, Sound, blocks,
}
use rental_be_nest.Orders.Bookings.Rows.{
  find_order-id, find_order-map, live_is_found, one_row, one_row-id,
}
use rental_be_nest.Orders.Bookings.Sound.{EndsWell, one_row_cases}
use rental_be_nest.Orders.Bookings.Created.{number_items-range}
use rental_be_nest.Orders.Bookings.Kept.{draft_is_free, IsKept, AllOfOrder, update_item_rows-IsKept}

-- What an update has written, with the checks that matter to bookings.
pub record IsUpdating (id : ℕ) (w w' : World) : Type 0 where
  pub existing : RentalOrder
  pub found : find (is_live_order id) w.rentals.orders ≡ some existing
  pub was_draft : status_in existing.status (OrderStatus.draft ∷ []) ≡ true
  pub change : RentalOrder → RentalOrder
  pub orders : w'.rentals.orders ≡ map (one_row id change) w.rentals.orders
  pub keeps_id : (o : RentalOrder) → (change o).id ≡ o.id
  pub keeps_blocks : (o : RentalOrder) → blocks (change o) ≡ blocks o
  pub ends : (o : RentalOrder) → EndsWell (change o)

pub updated_booking :
    (id : ℕ) (w w' : World)
    → IsUpdating id w w'
    → ((i : OrderItem) → Memᴰ i w'.rentals.items → IsKept id w.rentals.items i ⊎ (i.order_id ≡ id))
    → (a : ℕ) (o : RentalOrder) → IsBooking w'.rentals a o
    → WasBooking w.rentals a o ⊎ IsNewBooking w.rentals id a o
updated_booking id w w' c items a o b =
    let (before, found, is_row) =
      find_order-map b.item.order_id (one_row id c.change) w.rentals.orders
        (one_row-id id c.change c.keeps_id)
        (subst (λ os. find_order b.item.order_id os ≡ some o) c.orders b.of) in
    let (_, is_order) = find_order-id b.item.order_id w.rentals.orders found in
    elim (Bool-cases (before.id == id)) [
      | inl t ↦
          let is_e : before.id ≡ id = (==_iff before.id id).0 t in
          let changed : o ≡ c.change before = is_row ∙ rw (t) refl in
          let blocking : blocks before ≡ true =
            sym (c.keeps_blocks before) ∙ ap blocks (sym changed) ∙ b.blocking in
          let same : before ≡ c.existing =
            live_is_found id w.rentals.orders c.found
              (subst (λ k. find_order k w.rentals.orders ≡ some before) (sym is_order ∙ is_e) found)
              (ground (arith, blocking)) in
          let free = draft_is_free c.existing.status c.was_draft in
          let blocking' = ap blocks (sym same) ∙ blocking in
          absurd (ground (arith, free, blocking'))
      | inr n ↦
          let same : o ≡ before = is_row ∙ rw (n) refl in
          let other : b.item.order_id ≡ id → ⊥ =
            λ e. absurd (ground (arith, n, ==_iff before.id id, is_order ∙ e)) in
          elim (items b.item b.mem) [
            | inr of_order ↦ absurd (other of_order)
            | inl x ↦ elim x.unit [
              | inr of_order ↦ absurd (other of_order)
              | inl kept ↦ inl record {
                before = before;
                booking = record {
                  item = x.row;
                  mem = x.mem;
                  names = sym kept ∙ b.names;
                  live = ap is_null (sym x.same_deleted) ∙ b.live;
                  of = subst (λ k. find_order k w.rentals.orders ≡ some before) x.same_order found;
                  blocking = ap blocks (sym same) ∙ b.blocking;
                };
                same = record {
                  id = ap (λ (o : RentalOrder). o.id) same;
                  start_date = ap (λ (o : RentalOrder). o.start_date) same;
                  blocked_end_date = ap (λ (o : RentalOrder). o.blocked_end_date) same;
                };
              }
            ]
          ]
    ]

module _ (id : ℕ) (priced : List PricedItem) (w : World) (s : Sound w) where
  -- What the write of the items leaves.
  pub record AreItems (items : List OrderItem) (next_id : ℕ) : Type 0 where
    pub from : (i : OrderItem) → Memᴰ i items → IsKept id w.rentals.items i ⊎ (i.order_id ≡ id)
    pub keys :
        (i j : OrderItem) → Memᴰ i items → Memᴰ j items → i.id ≡ j.id → i.order_id ≡ j.order_id
    pub below : (i : OrderItem) → Memᴰ i items → i.id < next_id
    pub grows : w.next_id ≤ next_id

  pub rewritten-AreItems :
      AllOfOrder id w.rentals.items priced
      → AreItems (update_item_rows priced w.rentals.items) w.next_id
  rewritten-AreItems all =
      let row_of = λ (i : OrderItem) (m : Memᴰ i (update_item_rows priced w.rentals.items)).
        update_item_rows-IsKept id priced w.rentals.items all m in
      record {
        from = λ i m. inl (row_of i m);
        keys = λ i j m n e.
            let x = row_of i m in
            let y = row_of j n in
            x.same_order
            ∙ s.item_keys x.row y.row x.mem y.mem (sym x.same_id ∙ e ∙ y.same_id)
            ∙ sym y.same_order;
        below = λ i m. let x = row_of i m in rw (x.same_id) (s.items_below x.row x.mem);
        grows = omega arith;
      }

  abbrev pub others : List OrderItem
  others = keep (λ (i : OrderItem). not (i.order_id == id)) w.rentals.items

  pub replaced_keys :
      (i j : OrderItem)
      → Memᴰ i (others ++ number_items id w.next_id priced)
      → Memᴰ j (others ++ number_items id w.next_id priced)
      → i.id ≡ j.id
      → i.order_id ≡ j.order_id
  replaced_keys i j m n e =
      let rows = number_items id w.next_id priced in
      elim (Memᴰ-append others rows m) [
        | inl mi ↦
            let (was, _) =
              Memᴰ-keep (λ (i : OrderItem). not (i.order_id == id)) w.rentals.items mi in
            elim (Memᴰ-append others rows n) [
              | inl mj ↦
                  let (wj, _) =
                    Memᴰ-keep (λ (i : OrderItem). not (i.order_id == id)) w.rentals.items mj in
                  s.item_keys i j was wj e
              | inr mj ↦
                  let (_, low, _) = number_items-range id w.next_id priced mj in
                  let below = s.items_below i was in absurd (omega (arith, low, below, e))
            ]
        | inr mi ↦
            let (oi, low, _) = number_items-range id w.next_id priced mi in
            elim (Memᴰ-append others rows n) [
              | inl mj ↦
                  let (wj, _) =
                    Memᴰ-keep (λ (i : OrderItem). not (i.order_id == id)) w.rentals.items mj in
                  let below = s.items_below j wj in absurd (omega (arith, low, below, e))
              | inr mj ↦ let (oj, _, _) = number_items-range id w.next_id priced mj in oi ∙ sym oj
            ]
      ]

  pub replaced-AreItems :
      AreItems (others ++ number_items id w.next_id priced) (w.next_id + length priced)
  replaced-AreItems = record {
    from = λ i m. elim (Memᴰ-append others (number_items id w.next_id priced) m) [
      | inl k ↦
          let (was, _) = Memᴰ-keep (λ (i : OrderItem). not (i.order_id == id)) w.rentals.items k in
          inl record {
            row = i;
            mem = was;
            same_id = refl;
            same_order = refl;
            same_deleted = refl;
            unit = inl refl;
          }
      | inr k ↦ inr (number_items-range id w.next_id priced k).0
    ];
    keys = replaced_keys;
    below = λ i m. elim (Memᴰ-append others (number_items id w.next_id priced) m) [
      | inl k ↦
          let (was, _) = Memᴰ-keep (λ (i : OrderItem). not (i.order_id == id)) w.rentals.items k in
          let below = s.items_below i was in omega (arith, below)
      | inr k ↦ (number_items-range id w.next_id priced k).2
    ];
    grows = omega arith;
  }

  pub updated-Sound :
      (w' : World) → IsUpdating id w w' → AreItems w'.rentals.items w'.next_id → Sound w'
  updated-Sound w' c items = record {
    no_double_booking =
        NoDoubleBooking-grows w.rentals w'.rentals id (updated_booking id w w' c items.from)
          s.no_double_booking;
    blocked_ends = λ o m.
        let (before, was, row) =
          Memᴰ-map (one_row id c.change) w.rentals.orders (subst (Memᴰ o) c.orders m) in
        elim (one_row_cases id c.change before) [
          | inl same ↦ subst EndsWell (sym (row ∙ same)) (s.blocked_ends before was)
          | inr changed ↦ subst EndsWell (sym (row ∙ changed)) (c.ends before)
        ];
    item_keys = items.keys;
    items_below = items.below;
    orders_below = λ o m.
        let (before, was, row) =
          Memᴰ-map (one_row id c.change) w.rentals.orders (subst (Memᴰ o) c.orders m) in
        let keeps = one_row-id id c.change c.keeps_id before in
        let row_id = ap (λ (o : RentalOrder). o.id) row in
        let below = s.orders_below before was in
        let grows = items.grows in omega (arith, keeps, row_id, below, grows);
  }
