-- ===== src/Store/Cache.antt =====
-- `getOrSetJson` and `deleteBestEffort` of src/libs/redis/redis.service.ts. Which Redis calls fail
-- is a parameter; a key holds nothing, a text that `JSON.parse` rejects, or a value.
pub mod Coherence
use rental_be_nest.Prelude.{Bool, true, false, Option, none, some, if◌then◌else◌}

pub record Redis : Type 0 where
  pub get_fails : Bool
  pub set_fails : Bool
  pub del_fails : Bool

pub data Cell (A : Type 0) : Type 0 where
  missing invalid : Cell A
  cached : A → Cell A

module _ {A : Type 0} (redis : Redis) where
  unfoldable pub delete_best_effort : Cell A → Cell A
  delete_best_effort cell = if redis.del_fails then cell else missing

  -- `setJson` in its `try`; `null` is not stored.
  unfoldable pub set_loaded : Option A → Cell A → Cell A
  set_loaded none cell = cell
  set_loaded (some a) cell = if redis.set_fails then cell else cached a

  -- The loader may delete the key itself, best effort, while it runs.
  abbrev pub drop_if : Bool → Cell A → Cell A
  drop_if true cell = delete_best_effort cell
  drop_if false cell = cell

  -- A loader gives the value, the database after it, and whether it has deleted the key.
  module _ {S : Type 0} (loader : S → Option A × S × Bool) where
    load_and_set : Cell A → S → Option A × Cell A × S
    load_and_set cell s =
        let (a, s', drops) = loader s in (a, set_loaded a (drop_if drops cell), s')

    -- The value that the caller gets, the key's content, and the database after the loader.
    unfoldable pub get_or_set_json : Cell A → S → Option A × Cell A × S
    unfolding load_and_set set_loaded delete_best_effort
    get_or_set_json cell s = if redis.get_fails then load_and_set cell s else elim cell [
      | missing ↦ load_and_set missing s
      | invalid ↦ load_and_set (delete_best_effort invalid) s
      | cached a ↦ (some a, cached a, s)
    ]
