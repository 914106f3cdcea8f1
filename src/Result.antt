-- ===== src/Result.antt =====
-- Failures as values: src/libs/constants/error.constants.ts and the HTTP exceptions that carry them.
use rental_be_nest.Prelude.{ℕ, ◌≡◌, refl, Bool, true, false, Option, List}

-- The reasons that `evaluateAvailability` gives.
pub data UnavailableReason : Type 0 where
  already_booked no_assignable_units not_enough_units : UnavailableReason

-- `RentalOrderUnavailableItemDto`
pub record UnavailableItem : Type 0 where
  pub product_id : ℕ
  pub asset_unit_id : Option ℕ
  pub reason : UnavailableReason

pub data ErrorCode : Type 0 where
  rental_order_not_found rental_order_time_invalid rental_order_product_invalid : ErrorCode
  rental_order_asset_unit_invalid rental_order_customer_invalid : ErrorCode
  rental_order_assigned_user_invalid rental_order_status_transition_invalid : ErrorCode
  rental_order_store_closed rental_policy_not_found store_business_hours_invalid : ErrorCode
  store_closure_not_found store_closure_time_invalid product_rental_price_tier_invalid : ErrorCode
  product_not_found product_sku_existed product_category_not_found product_brand_not_found :
      ErrorCode
  asset_unit_not_found asset_unit_serial_number_existed record_not_found : ErrorCode
  invalid_session user_not_found password_not_match old_password_not_valid : ErrorCode
  password_confirm_not_match password_reset_token_invalid : ErrorCode
  user_banned user_locked user_inactive unauthorized_request forbidden_request : ErrorCode
  rental_order_unavailable : List UnavailableItem → ErrorCode

pub data Error : Type 0 where
  bad_request not_found unauthorized forbidden : ErrorCode → Error
  -- An exception that is no HTTP exception, such as a `SyntaxError`.
  unexpected : Error

pub data Result {ℓ} (A : Type ℓ) : Type ℓ where
  ok : A → Result A
  err : Error → Result A

-- `if (!test) throw new …`
abbrev pub require : Bool → Error → Result (Unit {0})
require true e = ok tt
require false e = err e

abbrev pub or_fail {ℓ} : {A : Type ℓ} → Option A → Error → Result A
or_fail Option.none e = err e
or_fail (Option.some a) e = ok a

module _ {ℓ κ} {A : Type ℓ} {B : Type κ} where
  infixl 5 ◌>>=◌
  -- What follows a call that may throw.
  abbrev pub ◌>>=◌ : Result A → (A → Result B) → Result B
  err thrown >>= rest = err thrown
  ok value >>= rest = rest value

  -- A sequence that returns has passed through its first call.
  pub bind-ok :
      (call : Result A) (rest : A → Result B) {last : B}
      → (call >>= rest) ≡ ok last
      → (value : A) × (call ≡ ok value) × (rest value ≡ ok last)
  bind-ok (err thrown) rest h = cc
  bind-ok (ok value) rest h = (value, refl, h)

module _ {κ} {B : Type κ} where
  infixl 5 ◌>>◌
  abbrev pub ◌>>◌ : Result (Unit {0}) → Result B → Result B
  test >> rest = test >>= λ u. rest

pub require-ok : (b : Bool) (e : Error) {u : Unit {0}} → require b e ≡ ok u → b ≡ true
require-ok true e h = refl
require-ok false e h = cc

pub or_fail-ok {ℓ} :
    {A : Type ℓ} (o : Option A) (e : Error) {a : A} → or_fail o e ≡ ok a → o ≡ Option.some a
or_fail-ok Option.none e h = cc
or_fail-ok (Option.some a) e h = cc

-- A test that is passed leaves the rest.
pub require-then {ℓ} :
    {B : Type ℓ} (b : Bool) (e : Error) (k : Result B) {x : B}
    → (require b e >> k) ≡ ok x
    → (b ≡ true) × (k ≡ ok x)
require-then true e k h = (refl, h)
require-then false e k h = cc

pub ok-injective {ℓ} : {A : Type ℓ} {a b : A} → ok a ≡ ok b → a ≡ b
ok-injective h = cc

pub err-injective {ℓ} : {A : Type ℓ} {d e : Error} → ◌≡◌ {A = Result A} (err d) (err e) → d ≡ e
err-injective h = cc
