-- ===== src/Examples/Data.antt =====
-- A small shop: one product with two units, one customer, no order.
use rental_be_nest.Prelude.{ℕ, false, true, none, some, [], ◌∷◌, ◌==◌, if◌then◌else◌}
use rental_be_nest.Catalog.{Catalog, Product, PriceTier, AssetUnit, AssetStatus, AssetCondition}
use rental_be_nest.Store.Cache.{Redis, missing, cached}
use rental_be_nest.Store.Policy.{RentalPolicy}
use rental_be_nest.Store.Hours.{BusinessHour, WallClock}
use rental_be_nest.World.{World, Customer, CustomerStatus}
use rental_be_nest.Orders.{
  PickupMethod, OrderSource, OrderStatus, PaymentStatus, RentalOrder, OrderItem, Rentals,
}
use rental_be_nest.Orders.Service.{Runtime}
use rental_be_nest.Orders.Service.Create.{CreateRentalOrder}

abbrev pub clock : WallClock
clock = record { get_day = λ t. 1; get_hours = λ t. 10; get_minutes = λ t. 30 }

abbrev pub runtime : Runtime
runtime = record { clock = clock; normalize_search_text = λ text. text }

abbrev pub tier : PriceTier
tier = record {
  id = 30;
  min_days = 3;
  max_days = some 6;
  daily_price = 180000;
  name = none;
  sort_order = 0;
  deleted_at = none;
}

abbrev pub camera : Product
camera = record {
  id = 10;
  name = "Camera";
  sku = "CAM";
  description = none;
  included_accessories = none;
  usage_guide = none;
  category_id = some 5;
  brand_id = none;
  daily_price = 250000;
  half_day_price = 150000;
  hourly_overage_price = some 20000;
  rental_price_tiers = tier ∷ [];
  deposit_amount = 1000000;
  replacement_value = none;
  is_active = true;
  search_text = "camera cam";
  deleted_at = none;
}

abbrev pub unit : ℕ → AssetUnit
unit id = record {
  id = id;
  product_id = 10;
  serial_number = if id == 20 then "S20" else "S21";
  status = AssetStatus.available;
  condition = AssetCondition.good;
  note = none;
  is_active = true;
  search_text = "s";
  deleted_at = none;
}

abbrev pub catalog : Catalog
catalog = record {
  categories = record { id = 5; name = "Cameras"; is_active = true } ∷ [];
  brands = [];
  products = camera ∷ [];
  asset_units = unit 20 ∷ unit 21 ∷ [];
}

abbrev pub policy : RentalPolicy
policy = record {
  id = 40;
  name = "Default Rental Policy";
  booking_hold_amount_per_unit = 50000;
  turnaround_minutes = 60;
  created_at = 0;
  updated_at = 0;
}

abbrev pub monday : BusinessHour
monday = record {
  item = record { day_of_week = 1; open_time = "07:00"; close_time = "21:00"; is_open = true };
  created_at = 0;
  updated_at = 0;
}

abbrev pub redis : Redis
redis = record { get_fails = false; set_fails = false; del_fails = false }

abbrev pub customer : Customer
customer = record {
  id = 50;
  name = "An";
  phone = some "0900";
  email = none;
  address = none;
  identity_number = none;
  status = CustomerStatus.active;
  deleted_at = none;
}

abbrev pub empty_rentals : Rentals
empty_rentals = record { orders = []; items = []; status_histories = []; events = [] }

abbrev pub shop : World
shop = record {
  catalog = catalog;
  customers = customer ∷ [];
  users = [];
  policy = record { row = some policy; cell = missing };
  hours = record { rows = monday ∷ []; cell = cached (monday ∷ []) };
  closures = [];
  rentals = empty_rentals;
  redis = redis;
  messages = [];
  locks = [];
  now = 1000;
  next_id = 100;
}

abbrev pub request : CreateRentalOrder
request = record {
  customer_id = 50;
  assigned_to_id = none;
  start_date = 3600000;
  end_date = 10800000;
  pickup_method = PickupMethod.pickup_at_store;
  delivery_address = "";
  delivery_fee_total = none;
  discount_total = none;
  note = none;
  internal_note = none;
  items = record { product_id = 10; asset_unit_id = some 20; note = none } ∷ [];
}

-- The shop with a draft for that request, as a creation leaves it.
abbrev pub draft : RentalOrder
draft = record {
  id = 100;
  code = "ORD-000001";
  source = OrderSource.admin;
  status = OrderStatus.draft;
  payment_status = PaymentStatus.unpaid;
  rental_policy_id = some 40;
  customer_id = 50;
  customer = record {
    name = "An";
    phone = some "0900";
    email = none;
    address = none;
    identity_number = none;
  };
  start_date = 3600000;
  end_date = 10800000;
  turnaround_minutes = 60;
  blocked_end_date = 14400000;
  pickup_method = PickupMethod.pickup_at_store;
  delivery_address = none;
  totals = record {
    subtotal = 150000;
    deposit_total = 1000000;
    delivery_fee_total = 0;
    discount_total = 0;
    booking_hold_total = 50000;
    upfront_total = 1150000;
    handover_due_total = 1100000;
  };
  paid_total = 0;
  remaining_total = 1150000;
  refund_total = 1000000;
  note = none;
  internal_note = none;
  cancel_reason = none;
  assigned_to_id = none;
  search_text = "";
  created_by = 7;
  updated_by = none;
  deleted_at = none;
  deleted_by = none;
}

abbrev pub draft_item : OrderItem
draft_item = record {
  id = 101;
  order_id = 100;
  product_id = 10;
  asset_unit_id = some 20;
  product_name_snapshot = "Camera";
  sku_snapshot = "CAM";
  unit_price = 150000;
  booking_hold_amount = 50000;
  upfront_amount = 1150000;
  refundable_deposit_amount = 1000000;
  deposit_amount = 1000000;
  line_total = 150000;
  note = none;
  deleted_at = none;
}

abbrev pub drafted : World
drafted = record shop {
  rentals = record {
    orders = draft ∷ [];
    items = draft_item ∷ [];
    status_histories = [];
    events = [];
  };
  next_id = 102;
}
