-- ===== src/Inventory/Checks.antt =====
-- What the checks of the services show: the text is free for the row, and no failure is unexpected.
use rental_be_nest.Prelude.{
  subst, str_eq, ℕ, ◌≡◌, ◌≢◌, sym, String, Bool, true, false, ◌&&◌, Option, none, some, List, [],
  ◌∷◌, find, sort_by, Memᴰ, Memᴰ-find, arith, ==_iff, ◌==◌,
}
use rental_be_nest.Result.{
  Result, ok, err, Error, bad_request, not_found, unexpected, or_fail, or_fail-ok,
  product_not_found, asset_unit_not_found, product_sku_existed, asset_unit_serial_number_existed,
  ErrorCode,
}
use rental_be_nest.World.{World}
use rental_be_nest.Catalog.{Product, AssetUnit, Label, is_null}
use rental_be_nest.Catalog.Tiers.{
  PriceTierIn, check_sorted, by_min_days, validate_rental_price_tiers,
}
use rental_be_nest.Inventory.Requests.{
  Patch, left_out, to_null, given, some_or, refuse_other, ensure_available,
}
use rental_be_nest.Inventory.Products.{
  product_id_of, product_sku_of, find_label_or_throw, label_for_update, find_existing_product,
  ensure_sku_available, ensure_new_sku,
}
use rental_be_nest.Inventory.Units.{
  unit_id_of, serial_of, ensure_serial_number_available, find_active_product_or_throw,
  find_existing_asset_unit, product_for_update,
}
use rental_be_nest.Inventory.Writes.{IsStocked}
use rental_be_nest.Inventory.Rows.{
  IsOwned, ensure_available-IsOwned, ensure_available-none, IsUnique-IsOwned,
}

-- A step that does not fail in a way that the code does not expect.
abbrev pub IsExpected : {A : Type 0} → Result A → Type 0
IsExpected r = r ≢ err unexpected

pub ok-IsExpected : {A : Type 0} (r : Result A) {a : A} → r ≡ ok a → IsExpected r
ok-IsExpected r h k = cc

pub or_fail-IsExpected :
    {A : Type 0} (o : Option A) (e : Error) → e ≢ unexpected → IsExpected (or_fail o e)
or_fail-IsExpected none e h k = h (cc k)
or_fail-IsExpected (some a) e h k = cc

pub refuse_other-IsExpected :
    {A : Type 0} (id_of : A → ℕ) (text_of : A → String) (c : ErrorCode) (excluded : Option ℕ)
    (o : Option A)
    → IsExpected (refuse_other id_of text_of (bad_request c) excluded o)
unfolding refuse_other
refuse_other-IsExpected id_of text_of c excluded none k = cc
refuse_other-IsExpected id_of text_of c excluded (some row) k = ground arith

pub check_sorted-IsExpected : (tiers : List PriceTierIn) → IsExpected (check_sorted tiers)
unfolding check_sorted
check_sorted-IsExpected [] k = cc
check_sorted-IsExpected (tier ∷ []) k = ground arith
check_sorted-IsExpected (tier ∷ next ∷ rest) k =
    ground (arith, check_sorted-IsExpected (next ∷ rest))

pub validate-IsExpected :
    (tiers : Option (List PriceTierIn)) → IsExpected (validate_rental_price_tiers tiers)
unfolding validate_rental_price_tiers
validate-IsExpected none k = cc
validate-IsExpected (some tiers) k = check_sorted-IsExpected (sort_by by_min_days tiers) k

pub label-IsExpected :
    (c : ErrorCode) (id : Option ℕ) (labels : List Label)
    → IsExpected (find_label_or_throw c id labels)
unfolding find_label_or_throw
label-IsExpected c none labels k = cc
label-IsExpected c (some id) labels k = ground arith

pub label_for_update-IsExpected :
    (c : ErrorCode) (new : Patch ℕ) (old : Option ℕ) (labels : List Label)
    → IsExpected (label_for_update c new old labels)
unfolding label_for_update
label_for_update-IsExpected c left_out old labels k = cc
label_for_update-IsExpected c to_null old labels k = cc
label_for_update-IsExpected c (given id) old labels k = label-IsExpected c (some id) labels k

-- A text that is left out or not empty
abbrev pub is_not_empty : Option String → Bool
is_not_empty none = true
is_not_empty (some String.[]) = false
is_not_empty (some (String.◌∷◌ c s)) = true

pub sku-IsOwned :
    (sku : Option String) (id : ℕ) (existing : Product) (w : World) {r : Unit {0}}
    → IsStocked w
    → is_not_empty sku ≡ true
    → find_existing_product id w ≡ ok existing
    → ensure_new_sku sku id w ≡ ok r
    → IsOwned product_id_of product_sku_of
        (some_or sku existing.sku)
        (some existing.id)
        w.catalog.products
unfolding find_existing_product ensure_sku_available
sku-IsOwned sku id existing w (skus, prices, serials) given_text found free =
    let p = λ (p : Product). p.id == id && is_null p.deleted_at in
    let rows = w.catalog.products in
    let (m, is_it) = Memᴰ-find p rows (or_fail-ok (find p rows) _ found) in
    go sku given_text free m ((==_iff existing.id id).0 (ground (arith, is_it)))
  where
    go :
        (sku : Option String)
        → is_not_empty sku ≡ true
        → ensure_new_sku sku id w ≡ ok tt
        → Memᴰ existing w.catalog.products
        → existing.id ≡ id
        → IsOwned product_id_of product_sku_of
            (some_or sku existing.sku)
            (some existing.id)
            w.catalog.products
    go none g f m e =
        IsUnique-IsOwned product_id_of product_sku_of w.catalog.products existing skus m
    go (some String.[]) g f m e = absurd (cc g)
    go (some (String.◌∷◌ c s)) g f m e =
        subst
          (λ i. IsOwned product_id_of product_sku_of (String.◌∷◌ c s) (some i) w.catalog.products)
          (sym e)
          (ensure_available-IsOwned product_id_of product_sku_of (bad_request product_sku_existed)
            (String.◌∷◌ c s) id w.catalog.products skus f)

pub serial-IsOwned :
    (serial : Option String) (id : ℕ) (existing : AssetUnit) (w : World) {r : Unit {0}}
    → IsStocked w
    → is_not_empty serial ≡ true
    → find_existing_asset_unit id w ≡ ok existing
    → ensure_serial_number_available serial (some id) w ≡ ok r
    → IsOwned unit_id_of serial_of
        (some_or serial existing.serial_number)
        (some existing.id)
        w.catalog.asset_units
unfolding find_existing_asset_unit ensure_serial_number_available
serial-IsOwned serial id existing w (skus, prices, serials) given_text found free =
    let p = λ (u : AssetUnit). u.id == id && is_null u.deleted_at in
    let rows = w.catalog.asset_units in
    let (m, is_it) = Memᴰ-find p rows (or_fail-ok (find p rows) _ found) in
    go serial given_text free m ((==_iff existing.id id).0 (ground (arith, is_it)))
  where
    go :
        (serial : Option String)
        → is_not_empty serial ≡ true
        → ensure_serial_number_available serial (some id) w ≡ ok tt
        → Memᴰ existing w.catalog.asset_units
        → existing.id ≡ id
        → IsOwned unit_id_of serial_of
            (some_or serial existing.serial_number)
            (some existing.id)
            w.catalog.asset_units
    go none g f m e = IsUnique-IsOwned unit_id_of serial_of w.catalog.asset_units existing serials m
    go (some String.[]) g f m e = absurd (cc g)
    go (some (String.◌∷◌ c s)) g f m e =
        subst (λ i. IsOwned unit_id_of serial_of (String.◌∷◌ c s) (some i) w.catalog.asset_units)
          (sym e)
          (ensure_available-IsOwned unit_id_of serial_of
            (bad_request asset_unit_serial_number_existed) (String.◌∷◌ c s) id w.catalog.asset_units
            serials f)

-- No row has the serial number of a new unit.
pub new_serial-IsOwned :
    (serial : String) (w : World) {r : Unit {0}}
    → is_not_empty (some serial) ≡ true
    → ensure_serial_number_available (some serial) none w ≡ ok r
    → IsOwned unit_id_of serial_of serial none w.catalog.asset_units
unfolding ensure_serial_number_available
new_serial-IsOwned String.[] w g h = absurd (cc g)
new_serial-IsOwned (String.◌∷◌ c s) w g h =
    ensure_available-none unit_id_of serial_of (bad_request asset_unit_serial_number_existed)
      (String.◌∷◌ c s) w.catalog.asset_units h

pub available-IsExpected :
    {A : Type 0} (id_of : A → ℕ) (text_of : A → String) (c : ErrorCode) (text : String)
    (excluded : Option ℕ) (rows : List A)
    → IsExpected (ensure_available id_of text_of (bad_request c) text excluded rows)
unfolding ensure_available
available-IsExpected id_of text_of c text excluded rows =
    refuse_other-IsExpected id_of text_of c excluded (find (λ r. str_eq (text_of r) text) rows)

pub new_sku-IsExpected :
    (sku : Option String) (id : ℕ) (w : World) → IsExpected (ensure_new_sku sku id w)
unfolding ensure_sku_available
new_sku-IsExpected none id w k = cc
new_sku-IsExpected (some String.[]) id w k = cc
new_sku-IsExpected (some (String.◌∷◌ c s)) id w k =
    available-IsExpected product_id_of product_sku_of product_sku_existed (String.◌∷◌ c s) (some id)
      w.catalog.products k

pub serial-IsExpected :
    (serial : Option String) (excluded : Option ℕ) (w : World)
    → IsExpected (ensure_serial_number_available serial excluded w)
unfolding ensure_serial_number_available
serial-IsExpected none excluded w k = cc
serial-IsExpected (some String.[]) excluded w k = cc
serial-IsExpected (some (String.◌∷◌ c s)) excluded w k =
    available-IsExpected unit_id_of serial_of asset_unit_serial_number_existed (String.◌∷◌ c s)
      excluded w.catalog.asset_units k

pub find_product-IsExpected : (id : ℕ) (w : World) → IsExpected (find_existing_product id w)
unfolding find_existing_product
find_product-IsExpected id w =
    or_fail-IsExpected
      (find (λ (p : Product). p.id == id && is_null p.deleted_at) w.catalog.products)
      (not_found product_not_found) (λ k. cc)

pub find_unit-IsExpected : (id : ℕ) (w : World) → IsExpected (find_existing_asset_unit id w)
unfolding find_existing_asset_unit
find_unit-IsExpected id w =
    or_fail-IsExpected
      (find (λ (u : AssetUnit). u.id == id && is_null u.deleted_at) w.catalog.asset_units)
      (not_found asset_unit_not_found) (λ k. cc)

pub active_product-IsExpected :
    (id : ℕ) (w : World) → IsExpected (find_active_product_or_throw id w)
unfolding find_active_product_or_throw
active_product-IsExpected id w =
    or_fail-IsExpected
      (find (λ (p : Product). p.id == id && p.is_active && is_null p.deleted_at) w.catalog.products)
      (bad_request product_not_found) (λ k. cc)

pub product_for_update-IsExpected :
    (id : Option ℕ) (existing : AssetUnit) (w : World)
    → IsExpected (product_for_update id existing w)
unfolding product_for_update
product_for_update-IsExpected none existing w k = cc
product_for_update-IsExpected (some id) existing w k =
    ground (arith, active_product-IsExpected id w)
