-- ===== src/Inventory/Requested.antt =====
-- What the requests ask of the rows: the columns of a new row, and of an updated one which change and
-- which stay. The search text, which is derived, and the price tiers are left to other statements.
use rental_be_nest.Prelude.{ℕ, ◌≡◌, refl, String, true, Option, none, some, ◌or_else◌}
use rental_be_nest.Catalog.{Product, AssetUnit, AssetStatus, AssetCondition, Label}
use rental_be_nest.Inventory.Requests.{
  Patch, left_out, to_null, given, patch, some_or, CreateProduct, UpdateProduct, CreateAssetUnit,
  UpdateAssetUnit, UpdateAssetUnitStatus,
}
use rental_be_nest.Inventory.Products.{new_product, updated_product}
use rental_be_nest.Inventory.Units.{new_unit, updated_unit, with_new_status}

-- A column that may be `NULL`, by the field of an update: what it was and what it is.
pub data Written {A : Type 0} : Patch A → Option A → Option A → Type 0 where
  stays : (old : Option A) → Written left_out old old
  emptied : (old : Option A) → Written to_null old none
  filled_in : (a : A) (old : Option A) → Written (given a) old (some a)

-- A column that is never `NULL`, by a field that may be missing.
pub data Sent {A : Type 0} : Option A → A → A → Type 0 where
  missing : (old : A) → Sent none old old
  sent : (a old : A) → Sent (some a) old a

patch-Written : {A : Type 0} (x : Patch A) (old : Option A) → Written x old (patch x old)
patch-Written left_out old = stays old
patch-Written to_null old = emptied old
patch-Written (given a) old = filled_in a old

some_or-Sent : {A : Type 0} (x : Option A) (old : A) → Sent x old (some_or x old)
some_or-Sent none old = missing old
some_or-Sent (some a) old = sent a old

or_else-Sent : {A : Type 0} (x : Option A) (old : A) → Sent x old (x or_else old)
or_else-Sent none old = missing old
or_else-Sent (some a) old = sent a old

pub record IsCreatedProduct (dto : CreateProduct) (p : Product) : Type 0 where
  pub name : p.name ≡ dto.name
  pub sku : p.sku ≡ dto.sku
  pub description : p.description ≡ dto.description
  pub included_accessories : p.included_accessories ≡ dto.included_accessories
  pub usage_guide : p.usage_guide ≡ dto.usage_guide
  pub category_id : p.category_id ≡ dto.category_id
  pub brand_id : p.brand_id ≡ dto.brand_id
  pub daily_price : p.daily_price ≡ dto.daily_price
  pub half_day_price : p.half_day_price ≡ dto.half_day_price
  pub hourly_overage_price : p.hourly_overage_price ≡ dto.hourly_overage_price
  pub deposit_amount : p.deposit_amount ≡ dto.deposit_amount
  pub replacement_value : p.replacement_value ≡ dto.replacement_value
  pub is_active : Sent dto.is_active true p.is_active

pub record IsUpdatedProduct (dto : UpdateProduct) (old p : Product) : Type 0 where
  pub id : p.id ≡ old.id
  pub name : Sent dto.name old.name p.name
  pub sku : Sent dto.sku old.sku p.sku
  pub description : Written dto.description old.description p.description
  pub included_accessories :
      Written dto.included_accessories old.included_accessories p.included_accessories
  pub usage_guide : Written dto.usage_guide old.usage_guide p.usage_guide
  pub category_id : Written dto.category_id old.category_id p.category_id
  pub brand_id : Written dto.brand_id old.brand_id p.brand_id
  pub daily_price : Sent dto.daily_price old.daily_price p.daily_price
  pub half_day_price : Sent dto.half_day_price old.half_day_price p.half_day_price
  pub hourly_overage_price :
      Written dto.hourly_overage_price old.hourly_overage_price p.hourly_overage_price
  pub deposit_amount : Sent dto.deposit_amount old.deposit_amount p.deposit_amount
  pub replacement_value : Written dto.replacement_value old.replacement_value p.replacement_value
  pub is_active : Sent dto.is_active old.is_active p.is_active

pub record IsCreatedUnit (dto : CreateAssetUnit) (u : AssetUnit) : Type 0 where
  pub product_id : u.product_id ≡ dto.product_id
  pub serial_number : u.serial_number ≡ dto.serial_number
  pub status : Sent dto.status AssetStatus.available u.status
  pub condition : Sent dto.condition AssetCondition.good u.condition
  pub note : u.note ≡ dto.note
  pub is_active : Sent dto.is_active true u.is_active

pub record IsUpdatedUnit (dto : UpdateAssetUnit) (old u : AssetUnit) : Type 0 where
  pub id : u.id ≡ old.id
  pub product_id : Sent dto.product_id old.product_id u.product_id
  pub serial_number : Sent dto.serial_number old.serial_number u.serial_number
  pub status : Sent dto.status old.status u.status
  pub condition : Sent dto.condition old.condition u.condition
  pub note : Written dto.note old.note u.note
  pub is_active : Sent dto.is_active old.is_active u.is_active

pub record HasNewStatus (dto : UpdateAssetUnitStatus) (old u : AssetUnit) : Type 0 where
  pub id : u.id ≡ old.id
  pub product_id : u.product_id ≡ old.product_id
  pub serial_number : u.serial_number ≡ old.serial_number
  pub status : u.status ≡ dto.status
  pub condition : u.condition ≡ dto.condition
  pub note : u.note ≡ old.note
  pub is_active : Sent dto.is_active old.is_active u.is_active

module _ (normalize : String → String) where
  pub new_product-IsCreatedProduct :
      (dto : CreateProduct) (category brand : Option Label) (id : ℕ)
      → IsCreatedProduct dto (new_product normalize dto category brand id)
  unfolding new_product
  new_product-IsCreatedProduct dto category brand id = record {
    name = refl;
    sku = refl;
    description = refl;
    included_accessories = refl;
    usage_guide = refl;
    category_id = refl;
    brand_id = refl;
    daily_price = refl;
    half_day_price = refl;
    hourly_overage_price = refl;
    deposit_amount = refl;
    replacement_value = refl;
    is_active = or_else-Sent dto.is_active true;
  }

  pub updated_product-IsUpdatedProduct :
      (dto : UpdateProduct) (old : Product) (category brand : Option Label) (now id : ℕ)
      → IsUpdatedProduct dto old (updated_product normalize dto old category brand now id old)
  unfolding updated_product
  updated_product-IsUpdatedProduct dto old category brand now id = record {
    id = refl;
    name = some_or-Sent dto.name old.name;
    sku = some_or-Sent dto.sku old.sku;
    description = patch-Written dto.description old.description;
    included_accessories = patch-Written dto.included_accessories old.included_accessories;
    usage_guide = patch-Written dto.usage_guide old.usage_guide;
    category_id = patch-Written dto.category_id old.category_id;
    brand_id = patch-Written dto.brand_id old.brand_id;
    daily_price = some_or-Sent dto.daily_price old.daily_price;
    half_day_price = some_or-Sent dto.half_day_price old.half_day_price;
    hourly_overage_price = patch-Written dto.hourly_overage_price old.hourly_overage_price;
    deposit_amount = some_or-Sent dto.deposit_amount old.deposit_amount;
    replacement_value = patch-Written dto.replacement_value old.replacement_value;
    is_active = some_or-Sent dto.is_active old.is_active;
  }

  pub new_unit-IsCreatedUnit :
      (dto : CreateAssetUnit) (product : Product) (id : ℕ)
      → IsCreatedUnit dto (new_unit normalize dto product id)
  unfolding new_unit
  new_unit-IsCreatedUnit dto product id = record {
    product_id = refl;
    serial_number = refl;
    status = or_else-Sent dto.status AssetStatus.available;
    condition = or_else-Sent dto.condition AssetCondition.good;
    note = refl;
    is_active = or_else-Sent dto.is_active true;
  }

  pub updated_unit-IsUpdatedUnit :
      (dto : UpdateAssetUnit) (old : AssetUnit) (product : Option Product)
      → IsUpdatedUnit dto old (updated_unit normalize dto old product old)
  unfolding updated_unit
  updated_unit-IsUpdatedUnit dto old product = record {
    id = refl;
    product_id = some_or-Sent dto.product_id old.product_id;
    serial_number = some_or-Sent dto.serial_number old.serial_number;
    status = some_or-Sent dto.status old.status;
    condition = some_or-Sent dto.condition old.condition;
    note = patch-Written dto.note old.note;
    is_active = some_or-Sent dto.is_active old.is_active;
  }

  pub new_status-HasNewStatus :
      (dto : UpdateAssetUnitStatus) (old : AssetUnit) (product : Option Product)
      → HasNewStatus dto old (with_new_status normalize dto old product old)
  unfolding with_new_status
  new_status-HasNewStatus dto old product = record {
    id = refl;
    product_id = refl;
    serial_number = refl;
    status = refl;
    condition = refl;
    note = refl;
    is_active = some_or-Sent dto.is_active old.is_active;
  }
