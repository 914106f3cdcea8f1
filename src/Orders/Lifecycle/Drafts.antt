-- ===== src/Orders/Lifecycle/Drafts.antt =====
-- Creating and updating a draft, as changes of the tables.
use rental_be_nest.Prelude.{
  ◌≤◌, ℕ, ◌≡◌, refl, ap, ◌∙◌, true, Option, none, some, List, [], ◌∷◌, ◌++◌, map, find, arith,
  ◌or_else◌,
}
use rental_be_nest.Result.{ok, or_fail-ok, require-ok}
use rental_be_nest.Exec.{reads, lift, ◌>>=◌}
use rental_be_nest.World.{World, Customer}
use rental_be_nest.World.Frames.{Frames-reads, Frames-lift}
use rental_be_nest.Store.Policy.{RentalPolicy}
use rental_be_nest.Orders.Tables.{
  RentalOrder, OrderStatus, Rentals, NormalizedItem, PricedItem, Totals, status_in,
}
use rental_be_nest.Orders.Pricing.{price_items, calculate_totals}
use rental_be_nest.Orders.Availability.{Availability, evaluate_availability, read_policy}
use rental_be_nest.Orders.Availability.Frames.{read_policy-Frames, evaluate_availability-Frames}
use rental_be_nest.Orders.Code.{generate_order_code}
use rental_be_nest.Orders.Service.{
  Runtime, ItemIn, is_live_order, items_of, normalize_items, find_existing_rental_order,
  assert_status_in, assert_available, find_customer_for_rental, find_assigned_user_for_rental,
  find_products_for_items, update_order,
}
use rental_be_nest.Orders.Service.Create.{
  CreateRentalOrder, created_history, create_params, new_order, insert_order, create_in_transaction,
  create_priced, create_rental_order,
}
use rental_be_nest.Orders.Service.Update.{
  UpdateRentalOrder, requested_items, update_params, customer_for_update, write_items,
  updated_order, update_in_transaction, update_priced, update_checked, update_rental_order,
}
use rental_be_nest.Orders.Bookings.Rows.{one_row}
use rental_be_nest.Orders.Lifecycle.{stays, is_draft}
use rental_be_nest.Orders.Lifecycle.Statuses.{is_draft_status, live_row-Evolves}
use rental_be_nest.Orders.Lifecycle.Writes.{
  added, Changes, SameRows, Frames-Changes, transaction-Changes, row-Change,
}

write_items-same :
    (id : ℕ) (priced : List PricedItem) (w : World) (request : Option (List ItemIn))
    → (write_items id request priced w).rentals.orders ≡ w.rentals.orders
unfolding write_items
write_items-same id priced w none = refl
write_items-same id priced w (some items) = refl

write_items-histories :
    (id : ℕ) (priced : List PricedItem) (w : World) (request : Option (List ItemIn))
    → (write_items id request priced w).rentals.status_histories ≡ w.rentals.status_histories
unfolding write_items
write_items-histories id priced w none = refl
write_items-histories id priced w (some items) = refl

write_items-grows :
    (id : ℕ) (priced : List PricedItem) (w : World) (request : Option (List ItemIn))
    → w.next_id ≤ (write_items id request priced w).next_id
unfolding write_items
write_items-grows id priced w none = omega arith
write_items-grows id priced w (some items) = omega arith

module _ (runtime : Runtime) (w : World) where
  -- The transaction of an update, in a state with the same rows.
  update_in_transaction-Changes :
      (id : ℕ) (dto : UpdateRentalOrder) (user : ℕ) (existing : RentalOrder) (policy : RentalPolicy)
      (customer : Customer) (assigned_to : Option ℕ) (totals : Totals) (blocked_end_date : ℕ)
      (priced : List PricedItem) (s : World)
      → SameRows w s
      → find (is_live_order id) w.rentals.orders ≡ some existing
      → status_in existing.status (OrderStatus.draft ∷ []) ≡ true
      → Changes w
          (update_in_transaction runtime id dto user existing policy customer assigned_to totals
            blocked_end_date priced s).1
  unfolding update_in_transaction updated_order update_order ◌>>=◌
  update_in_transaction-Changes id dto user existing policy customer assigned_to totals
        blocked_end_date priced s same found draft =
      let f =
        updated_order runtime id dto user existing policy customer assigned_to totals
          blocked_end_date in
      let next = same.1 in
      let grows = write_items-grows id priced s dto.items in
      row-Change w id f existing (update_order id f (write_items id dto.items priced s)).rentals
        (write_items id dto.items priced s).next_id found
        (ap (map (one_row id f))
          (write_items-same id priced s dto.items ∙ ap (λ (r : Rentals). r.orders) same.0))
        (λ o. refl) (λ o. refl)
        (live_row-Evolves existing (f existing) refl refl (stays existing.status)
          (λ d. absurd (cc (ap is_draft (is_draft_status existing.status draft), d))) refl)
        (write_items-histories id priced s dto.items
          ∙ ap (λ (r : Rentals). r.status_histories) same.0)
        (omega (arith, next, grows))

  update_priced-Changes :
      (id : ℕ) (dto : UpdateRentalOrder) (user : ℕ) (existing : RentalOrder)
      (items : List NormalizedItem) (policy : RentalPolicy) (a : Availability) (customer : Customer)
      (assigned_to : Option ℕ) (s : World)
      → SameRows w s
      → find (is_live_order id) w.rentals.orders ≡ some existing
      → status_in existing.status (OrderStatus.draft ∷ []) ≡ true
      → Changes w
          (update_priced runtime id dto user existing items policy a customer assigned_to s).1
  unfolding update_priced reads lift
  update_priced-Changes id dto user existing items policy a customer assigned_to s same found
        draft =
      let p = update_params dto existing items policy in
      Frames-Changes w (reads (find_products_for_items items)) _ s (Frames-reads _) same
        (λ products _ same1.
          Frames-Changes w (lift (price_items items products policy p.start_date p.end_date)) _ s
            (Frames-lift _) same1
            (λ priced _ same2.
              let totals =
                calculate_totals priced
                  (dto.delivery_fee_total or_else existing.totals.delivery_fee_total)
                  (dto.discount_total or_else existing.totals.discount_total) in
              let body =
                update_in_transaction runtime id dto user existing policy customer assigned_to
                  totals a.blocked_end_date priced in
              transaction-Changes w body s same2 (λ o ret.
                update_in_transaction-Changes id dto user existing policy customer assigned_to
                  totals a.blocked_end_date priced (record s { locks = [] }) same2 found draft)))

  pub update_rental_order-Changes :
      (id : ℕ) (dto : UpdateRentalOrder) (user : ℕ)
      → Changes w (update_rental_order runtime id dto user w).1
  unfolding update_rental_order update_checked reads lift find_existing_rental_order
      assert_status_in
  update_rental_order-Changes id dto user =
      Frames-Changes w (reads (find_existing_rental_order id)) _ w (Frames-reads _) (refl, refl)
        (λ existing h _.
          Frames-Changes w (lift (assert_status_in existing.status (OrderStatus.draft ∷ []))) _ w
            (Frames-lift _) (refl, refl)
            (λ u draft _.
              let found = or_fail-ok _ _ h in
              let rows = items_of id w.rentals.items in
              Frames-Changes w (reads (λ w. ok (items_of id w.rentals.items))) _ w (Frames-reads _)
                (refl, refl)
                (λ rows _ same.
                  Frames-Changes w read_policy _ w read_policy-Frames same (λ policy _ same1.
                    let p = update_params dto existing (requested_items dto.items rows) policy in
                    Frames-Changes w (evaluate_availability runtime.clock p) _ _
                      (evaluate_availability-Frames runtime.clock p) same1
                      (λ a _ same2.
                        Frames-Changes w (lift (assert_available a)) _ _ (Frames-lift _) same2
                          (λ u _ same3.
                            Frames-Changes w (reads (customer_for_update dto.customer_id existing))
                              _ _ (Frames-reads _) same3
                              (λ customer _ same4.
                                Frames-Changes w
                                  (reads (
                                    find_assigned_user_for_rental
                                      (dto.assigned_to_id or_else existing.assigned_to_id)))
                                  _ _ (Frames-reads _) same4
                                  (λ assigned_to _ same5.
                                    update_priced-Changes id dto user existing
                                      (requested_items dto.items rows) policy a customer assigned_to
                                      _ same5 found (require-ok _ _ draft)))))))))

  create_in_transaction-Changes :
      (dto : CreateRentalOrder) (user : ℕ) (policy : RentalPolicy) (customer : Customer)
      (assigned_to : Option ℕ) (totals : Totals) (blocked_end_date : ℕ) (priced : List PricedItem)
      (s : World)
      → SameRows w s
      → Changes w
          (create_in_transaction runtime dto user policy customer assigned_to totals
            blocked_end_date priced s).1
  unfolding create_in_transaction new_order insert_order ◌>>=◌
  create_in_transaction-Changes dto user policy customer assigned_to totals blocked_end_date priced
        s (rows, next) =
      let new =
        new_order runtime dto user policy customer assigned_to totals blocked_end_date s.next_id
          (generate_order_code s.rentals.orders) in
      let entry = created_history new.id user in
      added new entry next refl (ap (λ (r : Rentals). r.orders ++ new ∷ []) rows)
        (ap (λ (r : Rentals). r.status_histories ++ entry ∷ []) rows) refl refl refl
        (omega (arith, next))

  create_priced-Changes :
      (dto : CreateRentalOrder) (user : ℕ) (policy : RentalPolicy) (a : Availability)
      (customer : Customer) (assigned_to : Option ℕ) (s : World)
      → SameRows w s
      → Changes w (create_priced runtime dto user policy a customer assigned_to s).1
  unfolding create_priced reads lift
  create_priced-Changes dto user policy a customer assigned_to s same =
      Frames-Changes w (reads (find_products_for_items (normalize_items dto.items))) _ s
        (Frames-reads _) same
        (λ products _ same1.
          Frames-Changes w
            (lift
              (price_items (normalize_items dto.items) products policy dto.start_date dto.end_date))
            _ s (Frames-lift _) same1
            (λ priced _ same2.
              let totals =
                calculate_totals priced (dto.delivery_fee_total or_else 0)
                  (dto.discount_total or_else 0) in
              let body =
                create_in_transaction runtime dto user policy customer assigned_to totals
                  a.blocked_end_date priced in
              transaction-Changes w body s same2 (λ o ret.
                create_in_transaction-Changes dto user policy customer assigned_to totals
                  a.blocked_end_date priced (record s { locks = [] }) same2)))

  pub create_rental_order-Changes :
      (dto : CreateRentalOrder) (user : ℕ) → Changes w (create_rental_order runtime dto user w).1
  unfolding create_rental_order reads lift
  create_rental_order-Changes dto user =
      Frames-Changes w read_policy _ w read_policy-Frames (refl, refl)
        (λ policy _ same1.
          let p = create_params dto policy in
          Frames-Changes w (evaluate_availability runtime.clock p) _ _
            (evaluate_availability-Frames runtime.clock p) same1
            (λ a _ same2.
              Frames-Changes w (lift (assert_available a)) _ _ (Frames-lift _) same2 (λ u _ same3.
                Frames-Changes w (reads (find_customer_for_rental dto.customer_id)) _ _
                  (Frames-reads _) same3
                  (λ customer _ same4.
                    Frames-Changes w (reads (find_assigned_user_for_rental dto.assigned_to_id)) _ _
                      (Frames-reads _) same4
                      (λ assigned_to _ same5.
                        create_priced-Changes dto user policy a customer assigned_to _ same5)))))
