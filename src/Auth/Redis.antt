-- ===== src/Auth/Redis.antt =====
-- The Redis server as src/modules/auth uses it, through src/libs/redis/redis.service.ts: an
-- interface, with the documented behaviour of its commands as laws. A key expires when its time to
-- live has passed.
pub mod SameKey
use rental_be_nest.Prelude.{
  ℕ, ◌+◌, ◌-◌, ◌<◌, ◌≡◌, String, Bool, true, false, not, ◌&&◌, ◌||◌, Option, none, some, List, [],
  ltb, ◌==◌, any, str_eq, includes, if◌then◌else◌,
}
use rental_be_nest.Auth.Tables.{AuthSession}

-- `REDIS_KEYS.auth`
pub data Key : Type 0 where
  password_reset_token login_attempt_email reset_password_rate_limit : String → Key
  password_reset_user login_attempt_user user_lock session user_sessions : ℕ → Key

abbrev pub key_eq : Key → Key → Bool
key_eq (password_reset_token a) (password_reset_token b) = str_eq a b
key_eq (login_attempt_email a) (login_attempt_email b) = str_eq a b
key_eq (reset_password_rate_limit a) (reset_password_rate_limit b) = str_eq a b
key_eq (password_reset_user a) (password_reset_user b) = a == b
key_eq (login_attempt_user a) (login_attempt_user b) = a == b
key_eq (user_lock a) (user_lock b) = a == b
key_eq (session a) (session b) = a == b
key_eq (user_sessions a) (user_sessions b) = a == b
key_eq _ _ = false

-- The strings that are stored; the JSON text of a value stands for it.
pub data Value : Type 0 where
  plain : String → Value
  number : ℕ → Value
  session_json : AuthSession → Value
  payload_json : ℕ → Value

-- All keys but the sets of session ids hold strings.
abbrev pub holds_text : Key → Bool
holds_text (user_sessions a) = false
holds_text _ = true

-- What `INCR` reads: a missing key counts as 0.
abbrev pub count_at : Option Value → Option ℕ
count_at none = some 0
count_at (some (number n)) = some n
count_at (some _) = none

-- Whether a key with this time to live is still there after some seconds.
abbrev pub outlives : ℕ → Option ℕ → Bool
outlives seconds none = true
outlives seconds (some left) = ltb seconds left

abbrev pub time_left : ℕ → Option ℕ → Option ℕ
time_left seconds none = none
time_left seconds (some left) = some (left - seconds)

pub record RedisClient : Type 1 where
  pub Store : Type 0
  pub get : Key → Store → Option Value
  -- `SET key value EX seconds`
  pub set : Key → Value → ℕ → Store → Store
  pub del : List Key → Store → Store
  pub incr : Key → Store → ℕ × Store
  pub exists : Key → Store → Bool
  pub expire : Key → ℕ → Store → Store
  pub sadd : Key → ℕ → Store → Store
  pub srem : Key → ℕ → Store → Store
  pub smembers : Key → Store → List ℕ
  -- The seconds that a key has left, if it has a time to live.
  pub ttl : Key → Store → Option ℕ
  -- The server, some seconds later.
  pub later : ℕ → Store → Store

-- What the commands do to strings.
pub record StringLaws (R : RedisClient) : Type 0 where
  pub get-set :
      (j k : Key) (v : Value) (t : ℕ) (s : R.Store)
      → R.get j (R.set k v t s) ≡ (if key_eq j k then some v else R.get j s)
  pub get-del :
      (j : Key) (ks : List Key) (s : R.Store)
      → R.get j (R.del ks s) ≡ (if any (key_eq j) ks then none else R.get j s)
  pub get-incr : (j k : Key) (s : R.Store) → key_eq j k ≡ false → R.get j (R.incr k s).1 ≡ R.get j s
  pub incr_lem :
      (k : Key) (s : R.Store) (n : ℕ)
      → count_at (R.get k s) ≡ some n
      → ((R.incr k s).0 ≡ n + 1) × (R.get k (R.incr k s).1 ≡ some (number (n + 1)))
  pub exists-get : (k : Key) (s : R.Store) (v : Value) → R.get k s ≡ some v → R.exists k s ≡ true
  pub exists-none :
      (k : Key) (s : R.Store) → holds_text k ≡ true → R.get k s ≡ none → R.exists k s ≡ false
  pub get-expire : (j k : Key) (t : ℕ) (s : R.Store) → 0 < t → R.get j (R.expire k t s) ≡ R.get j s
  pub get-sadd :
      (j k : Key) (a : ℕ) (s : R.Store) → key_eq j k ≡ false → R.get j (R.sadd k a s) ≡ R.get j s
  pub get-srem :
      (j k : Key) (a : ℕ) (s : R.Store) → key_eq j k ≡ false → R.get j (R.srem k a s) ≡ R.get j s
  pub get-later :
      (j : Key) (t : ℕ) (s : R.Store)
      → R.get j (R.later t s) ≡ (if outlives t (R.ttl j s) then R.get j s else none)

-- What they do to sets.
pub record SetLaws (R : RedisClient) : Type 0 where
  pub smembers-set :
      (j k : Key) (v : Value) (t : ℕ) (s : R.Store)
      → key_eq j k ≡ false
      → R.smembers j (R.set k v t s) ≡ R.smembers j s
  pub smembers-del :
      (j : Key) (ks : List Key) (s : R.Store)
      → R.smembers j (R.del ks s) ≡ (if any (key_eq j) ks then [] else R.smembers j s)
  pub smembers-incr :
      (j k : Key) (s : R.Store) → key_eq j k ≡ false → R.smembers j (R.incr k s).1 ≡ R.smembers j s
  pub smembers-expire :
      (j k : Key) (t : ℕ) (s : R.Store) → 0 < t → R.smembers j (R.expire k t s) ≡ R.smembers j s
  pub includes-sadd :
      (j k : Key) (a b : ℕ) (s : R.Store)
      → includes (R.smembers j (R.sadd k a s)) b
        ≡ ((key_eq j k && a == b) || includes (R.smembers j s) b)
  pub includes-srem :
      (j k : Key) (a b : ℕ) (s : R.Store)
      → includes (R.smembers j (R.srem k a s)) b
        ≡ (not (key_eq j k && a == b) && includes (R.smembers j s) b)
  pub smembers-later :
      (j : Key) (t : ℕ) (s : R.Store)
      → R.smembers j (R.later t s) ≡ (if outlives t (R.ttl j s) then R.smembers j s else [])

-- What they do to times to live. A set that loses its last member is deleted.
pub record TtlLaws (R : RedisClient) : Type 0 where
  pub ttl-set :
      (j k : Key) (v : Value) (t : ℕ) (s : R.Store)
      → R.ttl j (R.set k v t s) ≡ (if key_eq j k then some t else R.ttl j s)
  pub ttl-del :
      (j : Key) (ks : List Key) (s : R.Store)
      → any (key_eq j) ks ≡ false
      → R.ttl j (R.del ks s) ≡ R.ttl j s
  pub ttl-incr : (j k : Key) (s : R.Store) → key_eq j k ≡ false → R.ttl j (R.incr k s).1 ≡ R.ttl j s
  pub ttl-incr_again :
      (k : Key) (s : R.Store) (v : Value) → R.get k s ≡ some v → R.ttl k (R.incr k s).1 ≡ R.ttl k s
  pub ttl-expire :
      (j k : Key) (t : ℕ) (s : R.Store) → key_eq j k ≡ false → R.ttl j (R.expire k t s) ≡ R.ttl j s
  pub ttl-expire_text :
      (k : Key) (t : ℕ) (s : R.Store) (v : Value)
      → R.get k s ≡ some v
      → R.ttl k (R.expire k t s) ≡ some t
  pub ttl-expire_set :
      (k : Key) (t a : ℕ) (s : R.Store)
      → includes (R.smembers k s) a ≡ true
      → R.ttl k (R.expire k t s) ≡ some t
  pub ttl-sadd :
      (j k : Key) (a : ℕ) (s : R.Store) → key_eq j k ≡ false → R.ttl j (R.sadd k a s) ≡ R.ttl j s
  pub ttl-srem :
      (j k : Key) (a : ℕ) (s : R.Store) → key_eq j k ≡ false → R.ttl j (R.srem k a s) ≡ R.ttl j s
  pub ttl-srem_again :
      (k : Key) (a b : ℕ) (s : R.Store)
      → includes (R.smembers k (R.srem k a s)) b ≡ true
      → R.ttl k (R.srem k a s) ≡ R.ttl k s
  pub ttl-later :
      (j : Key) (t : ℕ) (s : R.Store)
      → outlives t (R.ttl j s) ≡ true
      → R.ttl j (R.later t s) ≡ time_left t (R.ttl j s)

pub record IsLawful (R : RedisClient) : Type 0 where
  pub strings : StringLaws R
  pub sets : SetLaws R
  pub times : TtlLaws R
