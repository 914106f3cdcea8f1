-- ===== src/Orders/Output.antt =====
-- What the calls answer of an order: src/modules/rental-orders/dto/rental-order-out.dto.ts, and
-- `rentalOrderInclude` and `toRentalOrderOut` of src/modules/rental-orders/rental-orders.service.ts.
use rental_be_nest.Prelude.{ℕ, String, Option, none, some, List, [], ◌∷◌, find, ◌==◌}
use rental_be_nest.Result.{Result, ok, unexpected, or_fail, ◌>>=◌}
use rental_be_nest.World.{World, Customer, User}
use rental_be_nest.Catalog.{Product, AssetUnit}
use rental_be_nest.Orders.Tables.{
  OrderSource, OrderStatus, PaymentStatus, PickupMethod, RentalOrder, OrderItem,
}
use rental_be_nest.Orders.Service.{items_of}

-- The columns that no code of the server writes, which the database or its client fills, and the
-- printing of a decimal.
pub record Filled : Type 0 where
  pub created_at : RentalOrder → ℕ
  pub updated_at : RentalOrder → ℕ
  pub actual_return_date : RentalOrder → Option ℕ
  pub late_fee_total : RentalOrder → ℕ
  pub damage_fee_total : RentalOrder → ℕ
  pub item_created_at : OrderItem → ℕ
  pub item_updated_at : OrderItem → ℕ
  pub decimal_to_string : ℕ → String

pub record CustomerOut : Type 0 where
  pub id : ℕ
  pub name : String
  pub phone : Option String
  pub email : Option String

pub record UserOut : Type 0 where
  pub id : ℕ
  pub full_name : String
  pub email : String

pub record ProductOut : Type 0 where
  pub id : ℕ
  pub name : String
  pub sku : String

pub record AssetUnitOut : Type 0 where
  pub id : ℕ
  pub serial_number : String

pub record OrderItemOut : Type 0 where
  pub id : ℕ
  pub product : ProductOut
  pub asset_unit : Option AssetUnitOut
  pub product_name_snapshot : String
  pub sku_snapshot : String
  pub unit_price : String
  pub booking_hold_amount : String
  pub upfront_amount : String
  pub refundable_deposit_amount : String
  pub deposit_amount : String
  pub line_total : String
  pub note : Option String
  pub created_at : ℕ
  pub updated_at : ℕ

pub record RentalOrderOut : Type 0 where
  pub id : ℕ
  pub code : String
  pub source : OrderSource
  pub status : OrderStatus
  pub payment_status : PaymentStatus
  pub rental_policy_id : Option ℕ
  pub customer : CustomerOut
  pub customer_name_snapshot : String
  pub customer_phone_snapshot : Option String
  pub customer_email_snapshot : Option String
  pub customer_address_snapshot : Option String
  pub customer_identity_snapshot : Option String
  pub start_date : ℕ
  pub end_date : ℕ
  pub turnaround_minutes : ℕ
  pub blocked_end_date : ℕ
  pub actual_return_date : Option ℕ
  pub pickup_method : PickupMethod
  pub delivery_address : Option String
  pub delivery_fee_total : String
  pub subtotal : String
  pub deposit_total : String
  pub upfront_total : String
  pub booking_hold_total : String
  pub handover_due_total : String
  pub late_fee_total : String
  pub damage_fee_total : String
  pub discount_total : String
  pub paid_total : String
  pub remaining_total : String
  pub refund_total : String
  pub note : Option String
  pub internal_note : Option String
  pub cancel_reason : Option String
  pub created_by : ℕ
  pub assigned_to : Option UserOut
  pub items : List OrderItemOut
  pub created_at : ℕ
  pub updated_at : ℕ
  pub deleted_at : Option ℕ

-- `xs.map(f)`, of which the first throw counts.
unfoldable pub map_result {ℓ κ} :
    {A : Type ℓ} {B : Type κ} → (A → Result B) → List A → Result (List B)
map_result f [] = ok []
map_result f (x ∷ xs) = f x >>= λ y. map_result f xs >>= λ ys. ok (y ∷ ys)

-- The optional relations `assignedTo` and `assetUnit`.
abbrev pub assigned_user : Option ℕ → World → Option UserOut
assigned_user none w = none
assigned_user (some id) w = elim (find (λ (u : User). u.id == id) w.users) [
  | none ↦ none
  | some u ↦ some record { id = u.id; full_name = u.full_name; email = u.email }
]

abbrev pub asset_unit_of : Option ℕ → World → Option AssetUnitOut
asset_unit_of none w = none
asset_unit_of (some id) w = elim (find (λ (u : AssetUnit). u.id == id) w.catalog.asset_units) [
  | none ↦ none
  | some u ↦ some record { id = u.id; serial_number = u.serial_number }
]

-- The relations `product` and `customer`, which the schema requires: without its row the client
-- throws.
abbrev pub product_of : ℕ → World → Result Product
product_of id w = or_fail (find (λ (p : Product). p.id == id) w.catalog.products) unexpected

abbrev pub customer_row : ℕ → World → Result Customer
customer_row id w = or_fail (find (λ (c : Customer). c.id == id) w.customers) unexpected

module _ (filled : Filled) where
  abbrev pub item_out : OrderItem → Product → Option AssetUnitOut → OrderItemOut
  item_out i p unit = record {
    id = i.id;
    product = record { id = p.id; name = p.name; sku = p.sku };
    asset_unit = unit;
    product_name_snapshot = i.product_name_snapshot;
    sku_snapshot = i.sku_snapshot;
    unit_price = filled.decimal_to_string i.unit_price;
    booking_hold_amount = filled.decimal_to_string i.booking_hold_amount;
    upfront_amount = filled.decimal_to_string i.upfront_amount;
    refundable_deposit_amount = filled.decimal_to_string i.refundable_deposit_amount;
    deposit_amount = filled.decimal_to_string i.deposit_amount;
    line_total = filled.decimal_to_string i.line_total;
    note = i.note;
    created_at = filled.item_created_at i;
    updated_at = filled.item_updated_at i;
  }

  abbrev pub find_item_out : World → OrderItem → Result OrderItemOut
  find_item_out w i =
      product_of i.product_id w >>= λ p. ok (item_out i p (asset_unit_of i.asset_unit_id w))

  abbrev pub order_out :
      RentalOrder → Customer → Option UserOut → List OrderItemOut → RentalOrderOut
  order_out o c assigned_to items = record {
    id = o.id;
    code = o.code;
    source = o.source;
    status = o.status;
    payment_status = o.payment_status;
    rental_policy_id = o.rental_policy_id;
    customer = record { id = c.id; name = c.name; phone = c.phone; email = c.email };
    customer_name_snapshot = o.customer.name;
    customer_phone_snapshot = o.customer.phone;
    customer_email_snapshot = o.customer.email;
    customer_address_snapshot = o.customer.address;
    customer_identity_snapshot = o.customer.identity_number;
    start_date = o.start_date;
    end_date = o.end_date;
    turnaround_minutes = o.turnaround_minutes;
    blocked_end_date = o.blocked_end_date;
    actual_return_date = filled.actual_return_date o;
    pickup_method = o.pickup_method;
    delivery_address = o.delivery_address;
    delivery_fee_total = filled.decimal_to_string o.totals.delivery_fee_total;
    subtotal = filled.decimal_to_string o.totals.subtotal;
    deposit_total = filled.decimal_to_string o.totals.deposit_total;
    upfront_total = filled.decimal_to_string o.totals.upfront_total;
    booking_hold_total = filled.decimal_to_string o.totals.booking_hold_total;
    handover_due_total = filled.decimal_to_string o.totals.handover_due_total;
    late_fee_total = filled.decimal_to_string (filled.late_fee_total o);
    damage_fee_total = filled.decimal_to_string (filled.damage_fee_total o);
    discount_total = filled.decimal_to_string o.totals.discount_total;
    paid_total = filled.decimal_to_string o.paid_total;
    remaining_total = filled.decimal_to_string o.remaining_total;
    refund_total = filled.decimal_to_string o.refund_total;
    note = o.note;
    internal_note = o.internal_note;
    cancel_reason = o.cancel_reason;
    created_by = o.created_by;
    assigned_to = assigned_to;
    items = items;
    created_at = filled.created_at o;
    updated_at = filled.updated_at o;
    deleted_at = o.deleted_at;
  }

  -- A row with the relations that `rentalOrderInclude` names.
  unfoldable pub to_rental_order_out : World → RentalOrder → Result RentalOrderOut
  unfolding map_result items_of
  to_rental_order_out w o = customer_row o.customer_id w >>= λ c.
      map_result (find_item_out w) (items_of o.id w.rentals.items) >>= λ items.
      ok (order_out o c (assigned_user o.assigned_to_id w) items)
