-- ===== src/Auth/Redis/SameKey.antt =====
-- What a command leaves at the keys that it does not name.
use rental_be_nest.Prelude.{ℕ, ◌<◌, ◌≡◌, refl, ◌∙◌, false, List, [], ◌∷◌, ◌++◌, map, any}
use rental_be_nest.Auth.Redis.{RedisClient, IsLawful, Key, Value, key_eq, session, user_sessions}

module _ (R : RedisClient) where
  pub record SameKey (j : Key) (store store' : R.Store) : Type 0 where
    pub get : R.get j store' ≡ R.get j store
    pub ttl : R.ttl j store' ≡ R.ttl j store

  pub SameKey-refl : (j : Key) (store : R.Store) → SameKey j store store
  SameKey-refl j store = record { get = refl; ttl = refl }

  pub SameKey-trans : (j : Key) (a b c : R.Store) → SameKey j a b → SameKey j b c → SameKey j a c
  SameKey-trans j a b c h k = record { get = k.get ∙ h.get; ttl = k.ttl ∙ h.ttl }

module _ (R : RedisClient) (laws : IsLawful R) (j : Key) where
  pub set-SameKey :
      (k : Key) (v : Value) (t : ℕ) (store : R.Store)
      → key_eq j k ≡ false
      → SameKey R j store (R.set k v t store)
  set-SameKey k v t store h = record {
    get = rw (laws.strings.get-set, h) refl;
    ttl = rw (laws.times.ttl-set, h) refl;
  }

  pub del-SameKey :
      (ks : List Key) (store : R.Store)
      → any (key_eq j) ks ≡ false
      → SameKey R j store (R.del ks store)
  del-SameKey ks store h = record {
    get = rw (laws.strings.get-del, h) refl;
    ttl = laws.times.ttl-del j ks store h;
  }

  pub incr-SameKey :
      (k : Key) (store : R.Store) → key_eq j k ≡ false → SameKey R j store (R.incr k store).1
  incr-SameKey k store h = record {
    get = laws.strings.get-incr j k store h;
    ttl = laws.times.ttl-incr j k store h;
  }

  pub expire-SameKey :
      (k : Key) (t : ℕ) (store : R.Store)
      → 0 < t
      → key_eq j k ≡ false
      → SameKey R j store (R.expire k t store)
  expire-SameKey k t store pos h = record {
    get = laws.strings.get-expire j k t store pos;
    ttl = laws.times.ttl-expire j k t store h;
  }

  pub sadd-SameKey :
      (k : Key) (a : ℕ) (store : R.Store)
      → key_eq j k ≡ false
      → SameKey R j store (R.sadd k a store)
  sadd-SameKey k a store h = record {
    get = laws.strings.get-sadd j k a store h;
    ttl = laws.times.ttl-sadd j k a store h;
  }

  pub srem-SameKey :
      (k : Key) (a : ℕ) (store : R.Store)
      → key_eq j k ≡ false
      → SameKey R j store (R.srem k a store)
  srem-SameKey k a store h = record {
    get = laws.strings.get-srem j k a store h;
    ttl = laws.times.ttl-srem j k a store h;
  }

-- A key that belongs to no session.
abbrev pub IsOther : Key → Type 0
IsOther j =
    ((sid : ℕ) → key_eq j (session sid) ≡ false) × ((u : ℕ) → key_eq j (user_sessions u) ≡ false)

pub any-session_keys-other :
    (j : Key) (ids : List ℕ) (u : ℕ)
    → IsOther j
    → any (key_eq j) (map session ids ++ user_sessions u ∷ []) ≡ false
any-session_keys-other j [] u (a, b) = rw (b u) refl
any-session_keys-other j (i ∷ ids) u (a, b) = rw (a i) (any-session_keys-other j ids u (a, b))
