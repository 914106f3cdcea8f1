-- ===== src/Store/Policy.antt =====
-- src/modules/rental-policy/rental-policy.service.ts: the one policy, of code DEFAULT, behind its
-- cache. The database creates a row with an id and a time that are arguments here.
pub mod Reading
use rental_be_nest.Prelude.{ℕ, String, Bool, false, Option, none, some, ◌or_else◌}
use rental_be_nest.Result.{Result, ok, err, not_found, or_fail, rental_policy_not_found}
use rental_be_nest.Store.Cache.{Redis, Cell, missing, get_or_set_json, delete_best_effort}

pub record RentalPolicy : Type 0 where
  pub id : ℕ
  pub name : String
  pub booking_hold_amount_per_unit : ℕ
  pub turnaround_minutes : ℕ
  pub created_at : ℕ
  pub updated_at : ℕ

-- The row of code DEFAULT, and the content of `rental:policy:default`.
pub record PolicyState : Type 0 where
  pub row : Option RentalPolicy
  pub cell : Cell RentalPolicy

pub record UpdateRentalPolicy : Type 0 where
  pub name : Option String
  pub booking_hold_amount_per_unit : Option ℕ
  pub turnaround_minutes : Option ℕ

-- The loader of `findDefaultRentalPolicy` reads the row.
abbrev pub load_policy : Option RentalPolicy → Option RentalPolicy × Option RentalPolicy × Bool
load_policy row = (row, row, false)

-- `findDefaultRentalPolicy`
unfoldable pub find_default_rental_policy : Redis → PolicyState → Option RentalPolicy × PolicyState
unfolding get_or_set_json
find_default_rental_policy redis s =
    let (policy, cell, row) = get_or_set_json redis load_policy s.cell s.row in
    (policy, record { row = row; cell = cell })

-- `getDefaultPolicyForOrder`, and `getRentalPolicy` with it
unfoldable pub get_default_policy_for_order :
    Redis → PolicyState → Result RentalPolicy × PolicyState
unfolding find_default_rental_policy
get_default_policy_for_order redis s =
    let (policy, s') = find_default_rental_policy redis s in
    (or_fail policy (not_found rental_policy_not_found), s')

abbrev upserted : ℕ → ℕ → UpdateRentalPolicy → Option RentalPolicy → RentalPolicy
upserted id now dto none = record {
  id = id;
  name = dto.name or_else "Default Rental Policy";
  booking_hold_amount_per_unit = dto.booking_hold_amount_per_unit or_else 5000000;
  turnaround_minutes = dto.turnaround_minutes or_else 60;
  created_at = now;
  updated_at = now;
}
upserted id now dto (some row) = record row {
  name = dto.name or_else row.name;
  booking_hold_amount_per_unit =
      dto.booking_hold_amount_per_unit or_else row.booking_hold_amount_per_unit;
  turnaround_minutes = dto.turnaround_minutes or_else row.turnaround_minutes;
  updated_at = now;
}

unfoldable pub update_rental_policy :
    Redis → ℕ → ℕ → UpdateRentalPolicy → PolicyState → RentalPolicy × PolicyState
unfolding delete_best_effort
update_rental_policy redis id now dto s =
    let row = upserted id now dto s.row in
    (row, record { row = some row; cell = delete_best_effort redis s.cell })
