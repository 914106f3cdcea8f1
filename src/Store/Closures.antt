-- ===== src/Store/Closures.antt =====
-- src/modules/store-closure/store-closure.service.ts: the periods in which the store takes no rental.
pub mod Overlap
use rental_be_nest.Prelude.{
  ℕ, ◌≡◌, Bool, true, false, not, ◌&&◌, Option, none, some, List, [], ◌∷◌, map, String, ltb, leb,
  find, includes, unique, ◌==◌, ◌or_else◌, if◌then◌else◌,
}
use rental_be_nest.Result.{
  Result, ok, err, Error, bad_request, not_found, require, or_fail, rental_order_store_closed,
  store_closure_not_found, store_closure_time_invalid, ◌>>=◌, ◌>>◌,
}
use rental_be_nest.Catalog.{is_null}

pub data ClosureType : Type 0 where
  off holiday maintenance internal_event other : ClosureType

pub record StoreClosure : Type 0 where
  pub id : ℕ
  pub start_date : ℕ
  pub end_date : ℕ
  pub type : ClosureType
  pub reason : Option String
  pub created_at : ℕ
  pub updated_at : ℕ
  pub deleted_at : Option ℕ

pub record CreateStoreClosure : Type 0 where
  pub start_date : ℕ
  pub end_date : ℕ
  pub type : ClosureType
  pub reason : Option String

pub record UpdateStoreClosure : Type 0 where
  pub start_date : Option ℕ
  pub end_date : Option ℕ
  pub type : Option ClosureType
  pub reason : Option String

unfoldable pub validate_closure_time : ℕ → ℕ → Result (Unit {0})
validate_closure_time start_date end_date =
    require (not (leb end_date start_date)) (bad_request store_closure_time_invalid)

-- A new row, whose id the database draws, with the time of the call.
unfoldable pub create_store_closure :
    ℕ → ℕ → CreateStoreClosure → List StoreClosure → Result (StoreClosure × List StoreClosure)
unfolding validate_closure_time
create_store_closure id now dto closures = do
  validate_closure_time dto.start_date dto.end_date
  let row = new_row
  ok (row, row ∷ closures)
  where
    new_row : StoreClosure
    new_row = record {
      id = id;
      start_date = dto.start_date;
      end_date = dto.end_date;
      type = dto.type;
      reason = dto.reason;
      created_at = now;
      updated_at = now;
      deleted_at = none;
    }

-- `findFirst({ where: { id, deletedAt: null } })`
abbrev pub is_live_closure : ℕ → StoreClosure → Bool
is_live_closure id c = c.id == id && is_null c.deleted_at

unfoldable pub find_existing_store_closure : ℕ → List StoreClosure → Result StoreClosure
find_existing_store_closure id closures =
    or_fail (find (is_live_closure id) closures) (not_found store_closure_not_found)

-- A field of an `update` that is left out keeps its value.
abbrev pub patch_reason : Option String → Option String → Option String
patch_reason none old = old
patch_reason (some text) old = some text

abbrev pub patch_closure : ℕ → UpdateStoreClosure → StoreClosure → StoreClosure
patch_closure now dto c = record c {
  start_date = dto.start_date or_else c.start_date;
  end_date = dto.end_date or_else c.end_date;
  type = dto.type or_else c.type;
  reason = patch_reason dto.reason c.reason;
  updated_at = now;
}

unfoldable pub update_store_closure :
    ℕ → ℕ → UpdateStoreClosure → List StoreClosure → Result (List StoreClosure)
unfolding validate_closure_time find_existing_store_closure
update_store_closure id now dto closures = do
  existing ← find_existing_store_closure id closures
  validate_closure_time (dto.start_date or_else existing.start_date)
      (dto.end_date or_else existing.end_date)
  ok (map (λ c. if c.id == id then patch_closure now dto c else c) closures)

unfoldable pub delete_store_closures : ℕ → List ℕ → List StoreClosure → List StoreClosure
delete_store_closures now ids closures =
    map (λ c. if includes (unique ids) c.id then record c { deleted_at = some now } else c) closures

-- `deletedAt: null, startDate: { lt: endDate }, endDate: { gt: startDate }`
abbrev pub overlaps : ℕ → ℕ → StoreClosure → Bool
overlaps start_date end_date c =
    is_null c.deleted_at && ltb c.start_date end_date && ltb start_date c.end_date

abbrev pub is_none {ℓ} : {A : Type ℓ} → Option A → Bool
is_none none = true
is_none (some a) = false

unfoldable pub assert_no_closure_overlap : ℕ → ℕ → List StoreClosure → Result (Unit {0})
assert_no_closure_overlap start_date end_date closures =
    require (is_none (find (overlaps start_date end_date) closures))
      (bad_request rental_order_store_closed)
