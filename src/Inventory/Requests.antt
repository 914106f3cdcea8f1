-- ===== src/Inventory/Requests.antt =====
-- The bodies of the requests that write products and asset units, and what both services share.
-- A body with `null` for a column that is never `NULL`, which Prisma refuses, is not modelled.
use rental_be_nest.Prelude.{
  ℕ, String, Bool, not, ◌&&◌, Option, none, some, List, [], ◌∷◌, ◌++◌, any, find, str_eq,
  is_some_eq, if◌then◌else◌,
}
use rental_be_nest.Result.{Result, ok, err, Error, unexpected, require}
use rental_be_nest.World.{World, ChangeReason}
use rental_be_nest.Catalog.{AssetStatus, AssetCondition}
use rental_be_nest.Catalog.Tiers.{PriceTierIn}

-- A field of an update whose column may be `NULL`: left out, `null`, or given.
pub data Patch (A : Type 0) : Type 0 where
  left_out to_null : Patch A
  given : A → Patch A

module _ {A : Type 0} where
  -- What Prisma writes.
  abbrev pub patch : Patch A → Option A → Option A
  patch left_out old = old
  patch to_null old = none
  patch (given a) old = some a

  -- `dto.field ?? existing.field`
  abbrev pub given_or : Patch A → Option A → Option A
  given_or left_out old = old
  given_or to_null old = old
  given_or (given a) old = some a

  -- The same for a column that is never `NULL`.
  abbrev pub some_or : Option A → A → A
  some_or none old = old
  some_or (some a) old = a

pub record CreateProduct : Type 0 where
  pub name : String
  pub sku : String
  pub description : Option String
  pub included_accessories : Option String
  pub usage_guide : Option String
  pub category_id : Option ℕ
  pub brand_id : Option ℕ
  pub daily_price : ℕ
  pub half_day_price : ℕ
  pub hourly_overage_price : Option ℕ
  pub rental_price_tiers : Option (List PriceTierIn)
  pub deposit_amount : ℕ
  pub replacement_value : Option ℕ
  pub is_active : Option Bool

pub record UpdateProduct : Type 0 where
  pub name : Option String
  pub sku : Option String
  pub description : Patch String
  pub included_accessories : Patch String
  pub usage_guide : Patch String
  pub category_id : Patch ℕ
  pub brand_id : Patch ℕ
  pub daily_price : Option ℕ
  pub half_day_price : Option ℕ
  pub hourly_overage_price : Patch ℕ
  pub rental_price_tiers : Option (List PriceTierIn)
  pub deposit_amount : Option ℕ
  pub replacement_value : Patch ℕ
  pub is_active : Option Bool

pub record CreateAssetUnit : Type 0 where
  pub product_id : ℕ
  pub serial_number : String
  pub status : Option AssetStatus
  pub condition : Option AssetCondition
  pub note : Option String
  pub is_active : Option Bool

pub record UpdateAssetUnit : Type 0 where
  pub product_id : Option ℕ
  pub serial_number : Option String
  pub status : Option AssetStatus
  pub condition : Option AssetCondition
  pub note : Patch String
  pub is_active : Option Bool

pub record UpdateAssetUnitStatus : Type 0 where
  pub status : AssetStatus
  pub condition : AssetCondition
  pub is_active : Option Bool

-- `emitAvailabilityChanged`
unfoldable pub emit_changed : ChangeReason → List ℕ → List ℕ → World → World
emit_changed reason product_ids asset_unit_ids w = record w {
  messages =
      w.messages
      ++ record { reason = reason; product_ids = product_ids; asset_unit_ids = asset_unit_ids }
        ∷ [];
}

-- Rows with an id and a text that is unique in the table.
module _ {A : Type 0} (id_of : A → ℕ) (text_of : A → String) where
  -- The row that was found, compared with the one that is left out.
  unfoldable pub refuse_other : Error → Option ℕ → Option A → Result (Unit {0})
  refuse_other e excluded none = ok tt
  refuse_other e excluded (some row) = require (is_some_eq excluded (id_of row)) e

  -- `findUnique({ where: { sku } })` and that comparison
  unfoldable pub ensure_available : Error → String → Option ℕ → List A → Result (Unit {0})
  unfolding refuse_other
  ensure_available e text excluded rows =
      refuse_other e excluded (find (λ r. str_eq (text_of r) text) rows)

  -- `@unique` of the schema: the database refuses a text that another row has. An insert has no row
  -- of its own yet, an update has the row that it writes.
  unfoldable pub check_unique : String → Option ℕ → List A → Result (Unit {0})
  check_unique text own rows =
      if any (λ r. str_eq (text_of r) text && not (is_some_eq own (id_of r))) rows
      then err unexpected
      else ok tt
