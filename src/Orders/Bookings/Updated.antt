-- ===== src/Orders/Bookings/Updated.antt =====
-- Only a draft is updated, which books nothing: an update keeps the tables sound.
use rental_be_nest.Prelude.{
  ℕ, ◌≡◌, refl, sym, ap, ◌∙◌, subst, true, Option, none, some, List, [], ◌∷◌, map, Memᴰ, Memᴰ-map,
  Memᴰ-keep, find, arith, ◌or_else◌, ◌==◌, ==_iff,
}
use rental_be_nest.Result.{ok, require-ok, or_fail-ok, ok-injective}
use rental_be_nest.Exec.{reads, lift, ◌>>=◌}
use rental_be_nest.World.{World, Customer}
use rental_be_nest.World.Frames.{Frames-reads, Frames-lift, SameTables, SameTables-trans}
use rental_be_nest.Store.Policy.{RentalPolicy}
use rental_be_nest.Orders.Tables.{
  RentalOrder, OrderItem, OrderStatus, NormalizedItem, PricedItem, Totals, status_in,
}
use rental_be_nest.Orders.Pricing.{price_items, calculate_totals}
use rental_be_nest.Orders.Pricing.Sums.{Follows, price_items-Follows}
use rental_be_nest.Orders.Availability.{
  Availability, evaluate_availability, add_minutes, read_policy,
}
use rental_be_nest.Orders.Availability.Frames.{read_policy-Frames, evaluate_availability-Frames}
use rental_be_nest.Orders.Availability.Accepted.{evaluate_availability-IsAccepted}
use rental_be_nest.Orders.Service.{
  Runtime, ItemIn, is_live_order, find_existing_rental_order, items_of, assert_status_in,
  assert_available, find_assigned_user_for_rental, find_products_for_items, normalized_existing,
  update_order, normalize_existing_items,
}
use rental_be_nest.Orders.Service.Update.{
  UpdateRentalOrder, requested_items, update_params, customer_for_update, write_items,
  updated_order, update_in_transaction, update_priced, update_checked, update_rental_order,
}
use rental_be_nest.Orders.Bookings.{Sound}
use rental_be_nest.Orders.Bookings.Rows.{one_row}
use rental_be_nest.Orders.Bookings.Sound.{transaction_keeps, Frames-then}
use rental_be_nest.Orders.Bookings.Kept.{AllOfOrder}
use rental_be_nest.Orders.Bookings.Rewriting.{
  AreItems, rewritten-AreItems, replaced-AreItems, updated-Sound,
}

Follows-Memᴰ :
    (policy : RentalPolicy) (items : List NormalizedItem) (ps : List PricedItem) {p : PricedItem}
    → Follows policy items ps
    → Memᴰ p ps
    → Memᴰ p.item items
Follows-Memᴰ policy [] [] f m = elim m [ ]
Follows-Memᴰ policy [] (q ∷ ps) f m = absurd f
Follows-Memᴰ policy (i ∷ is) [] f m = elim m [ ]
Follows-Memᴰ policy (i ∷ is) (q ∷ ps) (same, _, _, _, f) (Memᴰ.head e) =
    Memᴰ.head (ap (λ (p : PricedItem). p.item) e ∙ same)
Follows-Memᴰ policy (i ∷ is) (q ∷ ps) (_, _, _, _, f) (Memᴰ.tail m) =
    Memᴰ.tail (Follows-Memᴰ policy is ps f m)

-- The priced items of an order that keeps its items are rows of the order.
existing-AllOfOrder :
    (id : ℕ) (policy : RentalPolicy) (ps : List PricedItem) (w : World)
    → Sound w
    → Follows policy (normalize_existing_items (items_of id w.rentals.items)) ps
    → AllOfOrder id w.rentals.items ps
unfolding normalize_existing_items items_of
existing-AllOfOrder id policy ps w s f p row mp mr e =
    let (r, mem, is_item) =
      Memᴰ-map normalized_existing (items_of id w.rentals.items)
        (Follows-Memᴰ policy (normalize_existing_items (items_of id w.rentals.items)) ps f mp) in
    let (was, of_order) = Memᴰ-keep (λ (i : OrderItem). i.order_id == id) w.rentals.items mem in
    let ids : some row.id ≡ some r.id = sym e ∙ ap (λ (i : NormalizedItem). i.id) is_item in
    s.item_keys row r mr was (ground (arith, ids)) ∙ (==_iff r.order_id id).0 of_order

module _ (id : ℕ) (priced : List PricedItem) (w : World) (s : Sound w) where
  write_items-AreItems :
      (request : Option (List ItemIn))
      → (request ≡ none → AllOfOrder id w.rentals.items priced)
      → AreItems id priced w s
          (write_items id request priced w).rentals.items
          (write_items id request priced w).next_id
  unfolding write_items
  write_items-AreItems none all = rewritten-AreItems id priced w s (all refl)
  write_items-AreItems (some items) all = replaced-AreItems id priced w s

  write_items-orders :
      (request : Option (List ItemIn))
      → (write_items id request priced w).rentals.orders ≡ w.rentals.orders
  unfolding write_items
  write_items-orders none = refl
  write_items-orders (some items) = refl

module _ (runtime : Runtime) (id : ℕ) (dto : UpdateRentalOrder) (user : ℕ) where
  update_in_transaction-Sound :
      (existing : RentalOrder) (policy : RentalPolicy) (customer : Customer)
      (assigned_to : Option ℕ) (totals : Totals) (blocked_end_date : ℕ) (priced : List PricedItem)
      (w : World)
      → find (is_live_order id) w.rentals.orders ≡ some existing
      → status_in existing.status (OrderStatus.draft ∷ []) ≡ true
      → blocked_end_date
        ≡ add_minutes (dto.end_date or_else existing.end_date) policy.turnaround_minutes
      → (dto.items ≡ none → AllOfOrder id w.rentals.items priced)
      → Sound w
      → Sound
          (update_in_transaction runtime id dto user existing policy customer assigned_to totals
            blocked_end_date priced w).1
  unfolding update_in_transaction updated_order ◌>>=◌ update_order
  update_in_transaction-Sound existing policy customer assigned_to totals blocked_end_date priced w
        found draft ends all s =
      let f =
        updated_order runtime id dto user existing policy customer assigned_to totals
          blocked_end_date in
      updated-Sound id priced w s (update_order id f (write_items id dto.items priced w))
        record {
          existing = existing;
          found = found;
          was_draft = draft;
          change = f;
          orders = ap (map (one_row id f)) (write_items-orders id priced w s dto.items);
          keeps_id = λ o. refl;
          keeps_blocks = λ o. refl;
          ends = λ o. ends;
        }
        (write_items-AreItems id priced w s dto.items all)

  update_priced-Sound :
      (existing : RentalOrder) (policy : RentalPolicy) (a : Availability) (customer : Customer)
      (assigned_to : Option ℕ) (rows : List OrderItem) (w : World)
      → rows ≡ items_of id w.rentals.items
      → find (is_live_order id) w.rentals.orders ≡ some existing
      → status_in existing.status (OrderStatus.draft ∷ []) ≡ true
      → a.blocked_end_date
        ≡ add_minutes (dto.end_date or_else existing.end_date) policy.turnaround_minutes
      → Sound w
      → Sound
          (update_priced runtime id dto user existing
            (requested_items dto.items rows)
            policy
            a
            customer
            assigned_to
            w).1
  unfolding update_priced reads lift requested_items
  update_priced-Sound existing policy a customer assigned_to rows w is_rows found draft ends s =
      let items = requested_items dto.items rows in
      let p = update_params dto existing items policy in
      Frames-then (reads (find_products_for_items items)) _ w (Frames-reads _) s (λ products h s1.
        Frames-then (lift (price_items items products policy p.start_date p.end_date)) _ w
          (Frames-lift _) s
          (λ priced h s2.
            let totals =
              calculate_totals priced
                (dto.delivery_fee_total or_else existing.totals.delivery_fee_total)
                (dto.discount_total or_else existing.totals.discount_total) in
            let body =
              update_in_transaction runtime id dto user existing policy customer assigned_to totals
                a.blocked_end_date priced in
            let follows = price_items-Follows items products policy p.start_date p.end_date h in
            let all = λ (e : dto.items ≡ none). existing-AllOfOrder id policy priced w s (
              subst (λ rows. Follows policy (normalize_existing_items rows) priced) is_rows
                (subst (λ r. Follows policy (requested_items r rows) priced) e follows)) in
            transaction_keeps body w s (λ o ret.
              update_in_transaction-Sound existing policy customer assigned_to totals
                a.blocked_end_date priced (record w { locks = [] }) found draft ends all s)))

  updated_rest :
      (existing : RentalOrder) (rows : List OrderItem) (policy : RentalPolicy) (w w1 : World)
      → rows ≡ items_of id w.rentals.items
      → SameTables w w1
      → find (is_live_order id) w.rentals.orders ≡ some existing
      → status_in existing.status (OrderStatus.draft ∷ []) ≡ true
      → Sound w1
      → Sound (update_checked runtime id dto user existing rows policy w1).1
  unfolding update_checked reads lift update_params assert_available
  updated_rest existing rows policy w w1 is_rows same1 found draft s1 =
      let p = update_params dto existing (requested_items dto.items rows) policy in
      let check = evaluate_availability runtime.clock p in
      Frames-then check _ w1 (evaluate_availability-Frames runtime.clock p) s1 (λ a h1 s2.
        let w2 = (check w1).1 in
        let same = SameTables-trans same1 ((evaluate_availability-Frames runtime.clock p).at w1) in
        Frames-then (lift (assert_available a)) _ w2 (Frames-lift _) s2 (λ u h2 _.
          let accepted =
            evaluate_availability-IsAccepted runtime.clock p w1 h1 (require-ok _ _ h2) in
          let ends =
            accepted.blocked
            ∙ ap (add_minutes p.end_date) (accepted.given policy.turnaround_minutes refl) in
          Frames-then (reads (customer_for_update dto.customer_id existing)) _ w2 (Frames-reads _)
            s2
            (λ customer _ _.
              Frames-then
                (reads (
                  find_assigned_user_for_rental
                    (dto.assigned_to_id or_else existing.assigned_to_id)))
                _ w2 (Frames-reads _) s2
                (λ assigned_to _ _.
                  update_priced-Sound existing policy a customer assigned_to rows w2
                    (is_rows ∙ ap (λ r. items_of id r.items) (sym same.rentals))
                    (ap (λ r. find (is_live_order id) r.orders) same.rentals ∙ found) draft ends
                    s2))))

  -- An update, whether it returns or throws, keeps the tables sound.
  pub update_rental_order-Sound :
      (w : World) → Sound w → Sound (update_rental_order runtime id dto user w).1
  unfolding update_rental_order reads lift update_params assert_available assert_status_in
      find_existing_rental_order
  update_rental_order-Sound w s =
      Frames-then (reads (find_existing_rental_order id)) _ w (Frames-reads _) s (λ existing h _.
        Frames-then (lift (assert_status_in existing.status (OrderStatus.draft ∷ []))) _ w
          (Frames-lift _) s
          (λ u draft _.
            Frames-then (reads (λ w. ok (items_of id w.rentals.items))) _ w (Frames-reads _) s
              (λ rows' e _. Frames-then read_policy _ w read_policy-Frames s (λ policy _ s1.
                updated_rest existing rows' policy w (read_policy w).1 (ok-injective (sym e))
                  (read_policy-Frames.at w) (or_fail-ok _ _ h) (require-ok _ _ draft) s1))))
