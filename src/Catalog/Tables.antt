-- ===== src/Catalog/Tables.antt =====
-- The tables of products, price tiers and asset units, after prisma/schema.prisma.
-- An id is a UUID, which the code only compares: it is modelled by its value. Money is a decimal
-- with two places, modelled by its hundredths. A date is its milliseconds since the epoch.
use rental_be_nest.Prelude.{ℕ, String, Bool, true, false, ◌&&◌, Option, none, some, List}

-- `deletedAt: null`
abbrev pub is_null : Option ℕ → Bool
is_null none = true
is_null (some t) = false

pub record PriceTier : Type 0 where
  pub id : ℕ
  pub min_days : ℕ
  pub max_days : Option ℕ
  pub daily_price : ℕ
  pub name : Option String
  pub sort_order : ℕ
  pub deleted_at : Option ℕ

pub record Product : Type 0 where
  pub id : ℕ
  pub name : String
  pub sku : String
  pub description : Option String
  pub included_accessories : Option String
  pub usage_guide : Option String
  pub category_id : Option ℕ
  pub brand_id : Option ℕ
  pub daily_price : ℕ
  pub half_day_price : ℕ
  pub hourly_overage_price : Option ℕ
  pub rental_price_tiers : List PriceTier
  pub deposit_amount : ℕ
  pub replacement_value : Option ℕ
  pub is_active : Bool
  pub search_text : String
  pub deleted_at : Option ℕ

pub data AssetStatus : Type 0 where
  available reserved rented maintenance retired lost : AssetStatus

pub data AssetCondition : Type 0 where
  brand_new good fair damaged lost : AssetCondition

pub record AssetUnit : Type 0 where
  pub id : ℕ
  pub product_id : ℕ
  pub serial_number : String
  pub status : AssetStatus
  pub condition : AssetCondition
  pub note : Option String
  pub is_active : Bool
  pub search_text : String
  pub deleted_at : Option ℕ

-- A row of `ProductCategory` or `Brand`.
pub record Label : Type 0 where
  pub id : ℕ
  pub name : String
  pub is_active : Bool

pub record Catalog : Type 0 where
  pub categories : List Label
  pub brands : List Label
  pub products : List Product
  pub asset_units : List AssetUnit

-- `notIn: [MAINTENANCE, RETIRED, LOST]`
abbrev pub is_rentable_status : AssetStatus → Bool
is_rentable_status AssetStatus.maintenance = false
is_rentable_status AssetStatus.retired = false
is_rentable_status AssetStatus.lost = false
is_rentable_status AssetStatus.available = true
is_rentable_status AssetStatus.reserved = true
is_rentable_status AssetStatus.rented = true

-- `not: LOST`
abbrev pub is_not_lost : AssetCondition → Bool
is_not_lost AssetCondition.lost = false
is_not_lost AssetCondition.brand_new = true
is_not_lost AssetCondition.good = true
is_not_lost AssetCondition.fair = true
is_not_lost AssetCondition.damaged = true

-- The `where` clause shared by the queries for assignable asset units.
unfoldable pub is_assignable : AssetUnit → Bool
is_assignable unit =
    unit.is_active
    && is_null unit.deleted_at
    && is_rentable_status unit.status
    && is_not_lost unit.condition
