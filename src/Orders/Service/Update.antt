-- ===== src/Orders/Service/Update.antt =====
-- `updateRentalOrder`.
use rental_be_nest.Prelude.{
  ℕ, ◌+◌, String, Option, none, some, List, [], ◌∷◌, ◌++◌, map, keep, not, length, ◌==◌, ◌or_else◌,
  if◌then◌else◌,
}
use rental_be_nest.Result.{Result, ok}
use rental_be_nest.Exec.{Exec, pure, reads, lift, modify, ◌>>=◌, ◌>>◌}
use rental_be_nest.World.{World, Customer}
use rental_be_nest.Store.Policy.{RentalPolicy}
use rental_be_nest.SearchText.{build_rental_order_search_text}
use rental_be_nest.Orders.Tables.{
  OrderStatus, PickupMethod, RentalOrder, OrderItem, NormalizedItem, PricedItem, Totals,
}
use rental_be_nest.Orders.Pricing.{price_items, calculate_totals, update_order_item}
use rental_be_nest.Orders.Availability.{
  Availability, EvaluateParams, evaluate_availability, read_policy,
}
use rental_be_nest.Orders.Service.Steps.{
  Runtime, ItemIn, find_existing_rental_order, items_of, assert_status_in, assert_available,
  find_customer_for_rental, customer_of, find_assigned_user_for_rental, find_products_for_items,
  normalize_items, normalize_existing_items, update_order, snapshot, transaction,
}
use rental_be_nest.Orders.Service.Create.{number_items}

-- `UpdateRentalOrderDto`. A field that `hasOwn` asks for has two layers: whether it is sent, and its
-- value, which may be null.
pub record UpdateRentalOrder : Type 0 where
  pub customer_id : Option ℕ
  pub start_date : Option ℕ
  pub end_date : Option ℕ
  pub pickup_method : Option PickupMethod
  pub delivery_fee_total : Option ℕ
  pub discount_total : Option ℕ
  pub assigned_to_id : Option (Option ℕ)
  pub delivery_address : Option (Option String)
  pub note : Option (Option String)
  pub internal_note : Option (Option String)
  pub items : Option (List ItemIn)

-- The items that the order will have.
unfoldable pub requested_items : Option (List ItemIn) → List OrderItem → List NormalizedItem
unfolding normalize_items normalize_existing_items
requested_items none existing = normalize_existing_items existing
requested_items (some items) existing = normalize_items items

unfoldable pub update_params :
    UpdateRentalOrder → RentalOrder → List NormalizedItem → RentalPolicy → EvaluateParams
update_params dto existing items policy = record {
  start_date = dto.start_date or_else existing.start_date;
  end_date = dto.end_date or_else existing.end_date;
  items = items;
  exclude_order_id = some existing.id;
  rental_policy = some policy;
  turnaround_minutes = none;
}

unfoldable pub customer_for_update : Option ℕ → RentalOrder → World → Result Customer
customer_for_update none existing w = customer_of existing w
customer_for_update (some customer_id) existing w = find_customer_for_rental customer_id w

-- `rentalOrderItem.update({ where: { id: item.id }, data })`, skipped for an item without an id
abbrev pub update_item_row : PricedItem → OrderItem → OrderItem
update_item_row p row = elim p.item.id [
  | none ↦ row
  | some id ↦ if row.id == id then update_order_item p row else row
]

unfoldable pub update_item_rows : List PricedItem → List OrderItem → List OrderItem
unfolding update_order_item
update_item_rows [] rows = rows
update_item_rows (p ∷ ps) rows = update_item_rows ps (map (update_item_row p) rows)

-- `deleteMany` and `createMany` if the request has items, an update of each row if it has none.
unfoldable pub write_items : ℕ → Option (List ItemIn) → List PricedItem → World → World
unfolding update_item_rows number_items
write_items id none priced w = record w {
  rentals = record w.rentals { items = update_item_rows priced w.rentals.items };
}
write_items id (some items) priced w = record w {
  rentals = record w.rentals {
    items =
        keep (λ (i : OrderItem). not (i.order_id == id)) w.rentals.items
        ++ number_items id w.next_id priced;
  };
  next_id = w.next_id + length priced;
}

module _ (runtime : Runtime) (id : ℕ) (dto : UpdateRentalOrder) (user : ℕ) where
  -- The columns that `tx.rentalOrder.update` sets.
  unfoldable pub updated_order :
      RentalOrder → RentalPolicy → Customer → Option ℕ → Totals → ℕ → RentalOrder → RentalOrder
  unfolding build_rental_order_search_text
  updated_order existing policy customer assigned_to totals blocked_end_date o =
      let delivery_address = dto.delivery_address or_else existing.delivery_address in
      let note = dto.note or_else existing.note in
      let internal_note = dto.internal_note or_else existing.internal_note in
      record o {
        customer_id = customer.id;
        customer = snapshot customer;
        start_date = dto.start_date or_else existing.start_date;
        end_date = dto.end_date or_else existing.end_date;
        turnaround_minutes = policy.turnaround_minutes;
        blocked_end_date = blocked_end_date;
        pickup_method = dto.pickup_method or_else o.pickup_method;
        delivery_address = delivery_address;
        totals = totals;
        remaining_total = totals.upfront_total;
        refund_total = totals.deposit_total;
        assigned_to_id = assigned_to;
        note = note;
        internal_note = internal_note;
        updated_by = some user;
        search_text =
            build_rental_order_search_text runtime.normalize_search_text existing.code customer.name
              customer.phone customer.email customer.identity_number delivery_address note
              internal_note existing.cancel_reason;
      }

  -- The body of the transaction.
  unfoldable pub update_in_transaction :
      RentalOrder
      → RentalPolicy
      → Customer
      → Option ℕ
      → Totals
      → ℕ
      → List PricedItem
      → Exec World RentalOrder
  unfolding updated_order write_items update_order
  update_in_transaction existing policy customer assigned_to totals blocked_end_date priced = do
    modify (write_items id dto.items priced)
    modify (
        update_order id
          (updated_order existing policy customer assigned_to totals blocked_end_date))
    pure (updated_order existing policy customer assigned_to totals blocked_end_date existing)

  -- What follows the lookups of the customer and of the assigned user.
  unfoldable pub update_priced :
      RentalOrder
      → List NormalizedItem
      → RentalPolicy
      → Availability
      → Customer
      → Option ℕ
      → Exec World RentalOrder
  unfolding update_params update_in_transaction transaction
  update_priced existing items policy availability customer assigned_to = do
    let p = update_params dto existing items policy
    products ← reads (find_products_for_items items)
    priced ← lift (price_items items products policy p.start_date p.end_date)
    let totals =
        calculate_totals priced (dto.delivery_fee_total or_else existing.totals.delivery_fee_total)
          (dto.discount_total or_else existing.totals.discount_total)
    transaction (
        update_in_transaction existing policy customer assigned_to totals
          availability.blocked_end_date priced)

  -- What follows the reads of the order and of the policy.
  unfoldable pub update_checked :
      RentalOrder → List OrderItem → RentalPolicy → Exec World RentalOrder
  unfolding requested_items update_params customer_for_update update_priced
  update_checked existing rows policy = do
    let items = requested_items dto.items rows
    availability ← evaluate_availability runtime.clock (update_params dto existing items policy)
    lift (assert_available availability)
    customer ← reads (customer_for_update dto.customer_id existing)
    assigned_to ←
        reads (find_assigned_user_for_rental (dto.assigned_to_id or_else existing.assigned_to_id))
    update_priced existing items policy availability customer assigned_to

  unfoldable pub update_rental_order : Exec World RentalOrder
  unfolding update_checked
  update_rental_order = do
    existing ← reads (find_existing_rental_order id)
    lift (assert_status_in existing.status (OrderStatus.draft ∷ []))
    rows ← reads (λ w. ok (items_of id w.rentals.items))
    policy ← read_policy
    update_checked existing rows policy
