-- ===== src/Orders/Service/Create.antt =====
-- `createRentalOrder`.
use rental_be_nest.Prelude.{
  ℕ, ◌+◌, String, Option, none, some, List, [], ◌∷◌, ◌++◌, length, ◌or_else◌,
}
use rental_be_nest.Result.{ok}
use rental_be_nest.Exec.{Exec, pure, reads, lift, modify, ◌>>=◌, ◌>>◌}
use rental_be_nest.World.{World, Customer}
use rental_be_nest.Store.Policy.{RentalPolicy}
use rental_be_nest.SearchText.{build_rental_order_search_text}
use rental_be_nest.Orders.Tables.{
  OrderStatus, OrderSource, PaymentStatus, PickupMethod, OrderEventType, RentalOrder, OrderItem,
  PricedItem, Totals, StatusHistory, OrderEvent,
}
use rental_be_nest.Orders.Pricing.{price_items, calculate_totals, to_order_item}
use rental_be_nest.Orders.Code.{generate_order_code}
use rental_be_nest.Orders.Availability.{
  Availability, EvaluateParams, evaluate_availability, read_policy,
}
use rental_be_nest.Orders.Service.Steps.{
  Runtime, ItemIn, normalize_items, assert_available, find_customer_for_rental,
  find_assigned_user_for_rental, find_products_for_items, snapshot, transaction,
}

-- `CreateRentalOrderDto`
pub record CreateRentalOrder : Type 0 where
  pub customer_id : ℕ
  pub assigned_to_id : Option ℕ
  pub start_date : ℕ
  pub end_date : ℕ
  pub pickup_method : PickupMethod
  pub delivery_address : String
  pub delivery_fee_total : Option ℕ
  pub discount_total : Option ℕ
  pub note : Option String
  pub internal_note : Option String
  pub items : List ItemIn

unfoldable pub create_params : CreateRentalOrder → RentalPolicy → EvaluateParams
unfolding normalize_items
create_params dto policy = record {
  start_date = dto.start_date;
  end_date = dto.end_date;
  items = normalize_items dto.items;
  exclude_order_id = none;
  rental_policy = some policy;
  turnaround_minutes = none;
}

-- The rows of the items, whose ids the database draws one after the other.
unfoldable pub number_items : ℕ → ℕ → List PricedItem → List OrderItem
unfolding to_order_item
number_items order_id id [] = []
number_items order_id id (p ∷ ps) = to_order_item order_id id p ∷ number_items order_id (id + 1) ps

module _ (runtime : Runtime) (dto : CreateRentalOrder) (user : ℕ) where
  -- The row that `tx.rentalOrder.create` writes.
  unfoldable pub new_order :
      RentalPolicy → Customer → Option ℕ → Totals → (blocked_end_date id : ℕ) → String → RentalOrder
  unfolding build_rental_order_search_text
  new_order policy customer assigned_to totals blocked_end_date id code = record {
    id = id;
    code = code;
    source = OrderSource.admin;
    status = OrderStatus.draft;
    payment_status = PaymentStatus.unpaid;
    rental_policy_id = some policy.id;
    customer_id = customer.id;
    customer = snapshot customer;
    start_date = dto.start_date;
    end_date = dto.end_date;
    turnaround_minutes = policy.turnaround_minutes;
    blocked_end_date = blocked_end_date;
    pickup_method = dto.pickup_method;
    delivery_address = some dto.delivery_address;
    totals = totals;
    paid_total = 0;
    remaining_total = totals.upfront_total;
    refund_total = totals.deposit_total;
    note = dto.note;
    internal_note = dto.internal_note;
    cancel_reason = none;
    assigned_to_id = assigned_to;
    search_text =
        build_rental_order_search_text runtime.normalize_search_text code customer.name
          customer.phone customer.email customer.identity_number (some dto.delivery_address)
          dto.note dto.internal_note none;
    created_by = user;
    updated_by = none;
    deleted_at = none;
    deleted_by = none;
  }

abbrev pub created_history : ℕ → ℕ → StatusHistory
created_history order_id user = record {
  order_id = order_id;
  from_status = none;
  to_status = OrderStatus.draft;
  created_by = user;
  note = some "Order created";
}

abbrev pub created_event : ℕ → ℕ → OrderEvent
created_event order_id user = record {
  order_id = order_id;
  type = OrderEventType.order_created;
  message = "Order created";
  created_by = user;
}

-- The nested create: the order, its items, its first status and its first event.
unfoldable pub insert_order : RentalOrder → List PricedItem → World → World
unfolding number_items
insert_order o items w = record w {
  rentals = record {
    orders = w.rentals.orders ++ o ∷ [];
    items = w.rentals.items ++ number_items o.id (o.id + 1) items;
    status_histories = w.rentals.status_histories ++ created_history o.id o.created_by ∷ [];
    events = w.rentals.events ++ created_event o.id o.created_by ∷ [];
  };
  next_id = o.id + 1 + length items;
}

module _ (runtime : Runtime) (dto : CreateRentalOrder) (user : ℕ) where
  -- The body of the transaction.
  unfoldable pub create_in_transaction :
      RentalPolicy → Customer → Option ℕ → Totals → ℕ → List PricedItem → Exec World RentalOrder
  unfolding new_order insert_order
  create_in_transaction policy customer assigned_to totals blocked_end_date priced = do
    code ← reads (λ w. ok (generate_order_code w.rentals.orders))
    id ← reads (λ w. ok w.next_id)
    let order =
        new_order runtime dto user policy customer assigned_to totals blocked_end_date id code
    modify (insert_order order priced)
    pure order

  -- What follows the lookups of the customer and of the assigned user.
  unfoldable pub create_priced :
      RentalPolicy → Availability → Customer → Option ℕ → Exec World RentalOrder
  unfolding create_in_transaction transaction
  create_priced policy availability customer assigned_to = do
    products ← reads (find_products_for_items (normalize_items dto.items))
    priced ←
        lift (price_items (normalize_items dto.items) products policy dto.start_date dto.end_date)
    let totals =
        calculate_totals priced (dto.delivery_fee_total or_else 0) (dto.discount_total or_else 0)
    transaction (
        create_in_transaction policy customer assigned_to totals availability.blocked_end_date
          priced)

  unfoldable pub create_rental_order : Exec World RentalOrder
  unfolding create_params create_priced
  create_rental_order = do
    policy ← read_policy
    availability ← evaluate_availability runtime.clock (create_params dto policy)
    lift (assert_available availability)
    customer ← reads (find_customer_for_rental dto.customer_id)
    assigned_to ← reads (find_assigned_user_for_rental dto.assigned_to_id)
    create_priced policy availability customer assigned_to
