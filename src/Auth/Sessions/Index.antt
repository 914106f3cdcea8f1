-- ===== src/Auth/Sessions/Index.antt =====
-- Each session that is stored is listed in its user's set of sessions, which expires no earlier.
use rental_be_nest.Prelude.{
  ℕ, ◌<◌, ◌≤◌, ◌≡◌, refl, sym, ap, ◌∙◌, true, false, some, List, any, includes,
}
use rental_be_nest.Auth.Tables.{AuthSession}
use rental_be_nest.Auth.Redis.{
  RedisClient, IsLawful, Key, session, user_sessions, Value, session_json, key_eq,
}

module _ (R : RedisClient) (longest : ℕ) where
  pub record IsEntry (store : R.Store) (sid : ℕ) (v : Value) : Type 0 where
    pub s : AuthSession
    pub is_json : v ≡ session_json s
    pub named : s.session_id ≡ sid
    pub listed : includes (R.smembers (user_sessions s.user_id) store) sid ≡ true
    pub left : ℕ
    pub index_left : ℕ
    pub expires : R.ttl (session sid) store ≡ some left
    pub index_expires : R.ttl (user_sessions s.user_id) store ≡ some index_left
    pub outlived : left ≤ index_left
    pub bounded : left ≤ longest

  abbrev pub IsIndexed : R.Store → Type 0
  IsIndexed store = (sid : ℕ) (v : Value) → R.get (session sid) store ≡ some v → IsEntry store sid v

module _ (R : RedisClient) where
  -- Two stores with the same sessions.
  pub record SameSessions (store store' : R.Store) : Type 0 where
    pub get : (sid : ℕ) → R.get (session sid) store' ≡ R.get (session sid) store
    pub ttl : (sid : ℕ) → R.ttl (session sid) store' ≡ R.ttl (session sid) store
    pub smembers :
        (u : ℕ) → R.smembers (user_sessions u) store' ≡ R.smembers (user_sessions u) store
    pub index_ttl : (u : ℕ) → R.ttl (user_sessions u) store' ≡ R.ttl (user_sessions u) store

  pub SameSessions-refl : (store : R.Store) → SameSessions store store
  SameSessions-refl store = record {
    get = λ i. refl;
    ttl = λ i. refl;
    smembers = λ u. refl;
    index_ttl = λ u. refl;
  }

  pub SameSessions-trans :
      (a b c : R.Store) → SameSessions a b → SameSessions b c → SameSessions a c
  SameSessions-trans a b c h k = record {
    get = λ i. k.get i ∙ h.get i;
    ttl = λ i. k.ttl i ∙ h.ttl i;
    smembers = λ u. k.smembers u ∙ h.smembers u;
    index_ttl = λ u. k.index_ttl u ∙ h.index_ttl u;
  }

  pub SameSessions-IsIndexed :
      (n : ℕ) (store store' : R.Store)
      → SameSessions store store'
      → IsIndexed R n store
      → IsIndexed R n store'
  SameSessions-IsIndexed n store store' same h sid v found =
      let e = h sid v (sym (same.get sid) ∙ found) in
      record {
        s = e.s;
        is_json = e.is_json;
        named = e.named;
        listed = ap (λ ids. includes ids sid) (same.smembers e.s.user_id) ∙ e.listed;
        left = e.left;
        index_left = e.index_left;
        expires = same.ttl sid ∙ e.expires;
        index_expires = same.index_ttl e.s.user_id ∙ e.index_expires;
        outlived = e.outlived;
        bounded = e.bounded;
      }

-- Keys that are neither sessions nor sets of them.
abbrev pub IsApart : Key → Type 0
IsApart k =
    ((sid : ℕ) → key_eq (session sid) k ≡ false) × ((u : ℕ) → key_eq (user_sessions u) k ≡ false)

module _ (R : RedisClient) (laws : IsLawful R) where
  pub set-SameSessions :
      (k : Key) (v : Value) (t : ℕ) (store : R.Store)
      → IsApart k
      → SameSessions R store (R.set k v t store)
  set-SameSessions k v t store (a, b) = record {
    get = λ i. rw (laws.strings.get-set, a i) refl;
    ttl = λ i. rw (laws.times.ttl-set, a i) refl;
    smembers = λ u. laws.sets.smembers-set (user_sessions u) k v t store (b u);
    index_ttl = λ u. rw (laws.times.ttl-set, b u) refl;
  }

  pub incr-SameSessions :
      (k : Key) (store : R.Store) → IsApart k → SameSessions R store (R.incr k store).1
  incr-SameSessions k store (a, b) = record {
    get = λ i. laws.strings.get-incr (session i) k store (a i);
    ttl = λ i. laws.times.ttl-incr (session i) k store (a i);
    smembers = λ u. laws.sets.smembers-incr (user_sessions u) k store (b u);
    index_ttl = λ u. laws.times.ttl-incr (user_sessions u) k store (b u);
  }

  pub expire-SameSessions :
      (k : Key) (t : ℕ) (store : R.Store)
      → IsApart k
      → 0 < t
      → SameSessions R store (R.expire k t store)
  expire-SameSessions k t store (a, b) h = record {
    get = λ i. laws.strings.get-expire (session i) k t store h;
    ttl = λ i. laws.times.ttl-expire (session i) k t store (a i);
    smembers = λ u. laws.sets.smembers-expire (user_sessions u) k t store h;
    index_ttl = λ u. laws.times.ttl-expire (user_sessions u) k t store (b u);
  }

  pub del-SameSessions :
      (ks : List Key) (store : R.Store)
      → ((sid : ℕ) → any (key_eq (session sid)) ks ≡ false)
      → ((u : ℕ) → any (key_eq (user_sessions u)) ks ≡ false)
      → SameSessions R store (R.del ks store)
  del-SameSessions ks store a b = record {
    get = λ i. rw (laws.strings.get-del, a i) refl;
    ttl = λ i. laws.times.ttl-del (session i) ks store (a i);
    smembers = λ u. rw (laws.sets.smembers-del, b u) refl;
    index_ttl = λ u. laws.times.ttl-del (user_sessions u) ks store (b u);
  }
