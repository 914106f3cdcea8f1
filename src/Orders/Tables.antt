-- ===== src/Orders/Tables.antt =====
-- The tables of rental orders, after prisma/schema.prisma, and the enumerations of an order.
use rental_be_nest.Prelude.{ℕ, String, Bool, false, Option, List, [], ◌∷◌, ◌||◌, ◌==◌}

pub data OrderStatus : Type 0 where
  draft confirmed preparing ready_for_pickup delivering renting overdue : OrderStatus
  returned completed cancelled refunding refunded disputed : OrderStatus

pub data PaymentStatus : Type 0 where
  unpaid partially_paid paid partially_refunded refunded : PaymentStatus

pub data PickupMethod : Type 0 where
  pickup_at_store delivery : PickupMethod

pub data OrderSource : Type 0 where
  admin website : OrderSource

pub data OrderEventType : Type 0 where
  order_created order_confirmed order_cancelled : OrderEventType

-- An enumeration's values are compared as their names.
abbrev pub status_tag : OrderStatus → ℕ
status_tag OrderStatus.draft = 0
status_tag OrderStatus.confirmed = 1
status_tag OrderStatus.preparing = 2
status_tag OrderStatus.ready_for_pickup = 3
status_tag OrderStatus.delivering = 4
status_tag OrderStatus.renting = 5
status_tag OrderStatus.overdue = 6
status_tag OrderStatus.returned = 7
status_tag OrderStatus.completed = 8
status_tag OrderStatus.cancelled = 9
status_tag OrderStatus.refunding = 10
status_tag OrderStatus.refunded = 11
status_tag OrderStatus.disputed = 12

-- `allowedStatuses.includes(status)`
unfoldable pub status_in : OrderStatus → List OrderStatus → Bool
status_in status [] = false
status_in status (s ∷ ss) = status_tag s == status_tag status || status_in status ss

abbrev pub blocking_order_statuses : List OrderStatus
blocking_order_statuses =
    OrderStatus.confirmed ∷ OrderStatus.preparing ∷ OrderStatus.ready_for_pickup
    ∷ OrderStatus.delivering ∷ OrderStatus.renting ∷ OrderStatus.overdue ∷ []

-- The customer's data as they were when the order was written.
pub record CustomerSnapshot : Type 0 where
  pub name : String
  pub phone : Option String
  pub email : Option String
  pub address : Option String
  pub identity_number : Option String

-- What `calculateTotals` computes.
pub record Totals : Type 0 where
  pub subtotal : ℕ
  pub deposit_total : ℕ
  pub delivery_fee_total : ℕ
  pub discount_total : ℕ
  pub booking_hold_total : ℕ
  pub upfront_total : ℕ
  pub handover_due_total : ℕ

pub record RentalOrder : Type 0 where
  pub id : ℕ
  pub code : String
  pub source : OrderSource
  pub status : OrderStatus
  pub payment_status : PaymentStatus
  pub rental_policy_id : Option ℕ
  pub customer_id : ℕ
  pub customer : CustomerSnapshot
  pub start_date : ℕ
  pub end_date : ℕ
  pub turnaround_minutes : ℕ
  pub blocked_end_date : ℕ
  pub pickup_method : PickupMethod
  pub delivery_address : Option String
  pub totals : Totals
  pub paid_total : ℕ
  pub remaining_total : ℕ
  pub refund_total : ℕ
  pub note : Option String
  pub internal_note : Option String
  pub cancel_reason : Option String
  pub assigned_to_id : Option ℕ
  pub search_text : String
  pub created_by : ℕ
  pub updated_by : Option ℕ
  pub deleted_at : Option ℕ
  pub deleted_by : Option ℕ

-- An item as the availability check reads it, `NormalizedRentalOrderItem`.
pub record NormalizedItem : Type 0 where
  pub id : Option ℕ
  pub product_id : ℕ
  pub asset_unit_id : Option ℕ
  pub note : Option String

-- `PricedRentalOrderItem`
pub record PricedItem : Type 0 where
  pub item : NormalizedItem
  pub product_name_snapshot : String
  pub sku_snapshot : String
  pub unit_price : ℕ
  pub booking_hold_amount : ℕ
  pub upfront_amount : ℕ
  pub refundable_deposit_amount : ℕ
  pub deposit_amount : ℕ
  pub line_total : ℕ

pub record OrderItem : Type 0 where
  pub id : ℕ
  pub order_id : ℕ
  pub product_id : ℕ
  pub asset_unit_id : Option ℕ
  pub product_name_snapshot : String
  pub sku_snapshot : String
  pub unit_price : ℕ
  pub booking_hold_amount : ℕ
  pub upfront_amount : ℕ
  pub refundable_deposit_amount : ℕ
  pub deposit_amount : ℕ
  pub line_total : ℕ
  pub note : Option String
  pub deleted_at : Option ℕ

pub record StatusHistory : Type 0 where
  pub order_id : ℕ
  pub from_status : Option OrderStatus
  pub to_status : OrderStatus
  pub created_by : ℕ
  pub note : Option String

pub record OrderEvent : Type 0 where
  pub order_id : ℕ
  pub type : OrderEventType
  pub message : String
  pub created_by : ℕ

pub record Rentals : Type 0 where
  pub orders : List RentalOrder
  pub items : List OrderItem
  pub status_histories : List StatusHistory
  pub events : List OrderEvent
