-- ===== src/Inventory/Tiers.antt =====
-- The price tiers that `createProduct` and `updateProduct` write.
use rental_be_nest.Prelude.{
  ℕ, ◌+◌, Option, none, some, List, [], ◌∷◌, ◌++◌, map, ◌or_else◌, if◌then◌else◌,
}
use rental_be_nest.Catalog.{PriceTier, is_null}
use rental_be_nest.Catalog.Tiers.{MaxDays, undefined, null, days, PriceTierIn}

abbrev pub stored_max_days : MaxDays → Option ℕ
stored_max_days undefined = none
stored_max_days null = none
stored_max_days (days m) = some m

-- `rentalPriceTiers: { create: … }`, the ids counted from the next one
abbrev pub create_tiers : ℕ → List PriceTierIn → List PriceTier
create_tiers id [] = []
create_tiers id (tier ∷ tiers) =
    record {
      id = id;
      min_days = tier.min_days;
      max_days = stored_max_days tier.max_days;
      daily_price = tier.daily_price;
      name = tier.name;
      sort_order = tier.sort_order or_else 0;
      deleted_at = none;
    }
    ∷ create_tiers (id + 1) tiers

-- `updateMany({ where: { deletedAt: null }, data: { deletedAt } })` on the tiers of the product
abbrev pub delete_tiers : ℕ → List PriceTier → List PriceTier
delete_tiers now tiers =
    map (λ t. if is_null t.deleted_at then record t { deleted_at = some now } else t) tiers

abbrev pub tiers_or_none : Option (List PriceTierIn) → List PriceTierIn
tiers_or_none none = []
tiers_or_none (some tiers) = tiers

-- The tiers after an update: the live ones are deleted and the new ones created.
abbrev pub updated_tiers : Option (List PriceTierIn) → ℕ → ℕ → List PriceTier → List PriceTier
updated_tiers none now id tiers = tiers
updated_tiers (some new) now id tiers = delete_tiers now tiers ++ create_tiers id new
