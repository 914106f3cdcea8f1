-- ===== src/Store/Cache/Coherence.antt =====
-- A cache that holds nothing but the database's value answers as the database does.
use rental_be_nest.Prelude.{◌≡◌, refl, Bool, true, false, Option, none, some, inl, inr, Bool-cases}
use rental_be_nest.Store.Cache.{
  Redis, Cell, missing, invalid, cached, get_or_set_json, delete_best_effort, set_loaded, drop_if,
}

-- A cached value is the one that the loader would give.
abbrev pub Agrees : {A : Type 0} → Cell A → Option A → Type 0
Agrees missing v = Unit
Agrees invalid v = Unit
Agrees (cached a) v = some a ≡ v

set_loaded-Agrees :
    {A : Type 0} (redis : Redis) (v : Option A) (cell : Cell A)
    → Agrees cell v
    → Agrees (set_loaded redis v cell) v
unfolding set_loaded
set_loaded-Agrees redis none cell h = h
set_loaded-Agrees redis (some a) cell h = elim (Bool-cases redis.set_fails) [
  | inl t ↦ rw t h
  | inr f ↦ rw f refl
]

delete_best_effort-Agrees :
    {A : Type 0} (redis : Redis) (v : Option A) (cell : Cell A)
    → Agrees cell v
    → Agrees (delete_best_effort redis cell) v
unfolding delete_best_effort
delete_best_effort-Agrees redis v cell h = elim (Bool-cases redis.del_fails) [
  | inl t ↦ rw t h
  | inr f ↦ rw f tt
]

-- What the loader may have deleted and what is then set agrees with the value.
load-Agrees :
    {A : Type 0} (redis : Redis) (v : Option A) (drops : Bool) (cell : Cell A)
    → Agrees cell v
    → Agrees (set_loaded redis v (drop_if redis drops cell)) v
load-Agrees redis v true cell h =
    set_loaded-Agrees redis v (delete_best_effort redis cell)
      (delete_best_effort-Agrees redis v cell h)
load-Agrees redis v false cell h = set_loaded-Agrees redis v cell h

module _ {A S : Type 0} (redis : Redis) (loader : S → Option A × S × Bool) where
  -- Whatever Redis calls fail, a caller of a cache that agrees with the loader gets the loader's
  -- value, and the cache agrees with it afterwards.
  pub get_or_set_json-Agrees :
      (cell : Cell A) (s : S)
      → Agrees cell (loader s).0
      → ((get_or_set_json redis loader cell s).0 ≡ (loader s).0)
        × Agrees (get_or_set_json redis loader cell s).1 (loader s).0
  unfolding get_or_set_json
  get_or_set_json-Agrees missing s h = elim (Bool-cases redis.get_fails) [
    | inl t ↦ rw t (refl, load-Agrees redis (loader s).0 (loader s).2 missing tt)
    | inr f ↦ rw f (refl, load-Agrees redis (loader s).0 (loader s).2 missing tt)
  ]
  get_or_set_json-Agrees invalid s h = elim (Bool-cases redis.get_fails) [
    | inl t ↦ rw t (refl, load-Agrees redis (loader s).0 (loader s).2 invalid tt)
    | inr f ↦
        let dropped = delete_best_effort-Agrees redis (loader s).0 invalid tt in
        rw f (refl, load-Agrees redis (loader s).0 (loader s).2 _ dropped)
  ]
  get_or_set_json-Agrees (cached a) s h = elim (Bool-cases redis.get_fails) [
    | inl t ↦ rw t (refl, load-Agrees redis (loader s).0 (loader s).2 (cached a) h)
    | inr f ↦ rw f (h, h)
  ]

  -- The database is left alone or is as the loader leaves it.
  pub get_or_set_json_keeps :
      (P : S → Type 0) (cell : Cell A) (s : S)
      → P s
      → P (loader s).1
      → P (get_or_set_json redis loader cell s).2
  unfolding get_or_set_json
  get_or_set_json_keeps P missing s h k = elim (Bool-cases redis.get_fails) [
    | inl t ↦ rw t k
    | inr f ↦ rw f k
  ]
  get_or_set_json_keeps P invalid s h k = elim (Bool-cases redis.get_fails) [
    | inl t ↦ rw t k
    | inr f ↦ rw f k
  ]
  get_or_set_json_keeps P (cached a) s h k = elim (Bool-cases redis.get_fails) [
    | inl t ↦ rw t k
    | inr f ↦ rw f h
  ]
