-- ===== src/Auth/Setup.antt =====
-- What src/modules/auth takes from elsewhere, its configuration, and the state that it works on:
-- bcrypt, the signing of JWTs, HMAC, random bytes, and lower-casing by Unicode tables are parameters.
use rental_be_nest.Prelude.{
  ℕ, ◌+◌, ◌/◌, ◌<◌, ◌≡◌, String, Bool, true, Option, List, find, map, ◌==◌, if◌then◌else◌,
}
use rental_be_nest.Auth.Tables.{Account, JwtAccessPayload, JwtRefreshPayload, ResetMail}
use rental_be_nest.Auth.Redis.{RedisClient}

pub record Setup : Type 0 where
  -- `bcrypt.compare` and `bcrypt.hash`, the latter with the salt that it draws.
  pub compare : String → String → Bool
  pub hash : String → ℕ → String
  -- `signAsync`: the payload, the age at which it expires, and the time of signing.
  pub sign_access : JwtAccessPayload → ℕ → ℕ → String
  pub sign_refresh : JwtRefreshPayload → ℕ → ℕ → String
  -- HMAC-SHA256 under `JWT_REFRESH_SECRET` and under `RESET_PASSWORD_SECRET`, in hexadecimal.
  pub hash_refresh_token : String → String
  pub hash_reset_token : String → String
  -- `randomBytes(32).toString('base64url')`
  pub random_token : ℕ → String
  -- `email.toLowerCase().trim()`
  pub normalize_email : String → String
  pub normalize_search_text : String → String
  -- Whether the mail service takes the mail.
  pub sends : ResetMail → Bool
  -- `JWT_ACCESS_EXPIRES_IN`, `JWT_REFRESH_EXPIRES_IN` in milliseconds
  pub access_max_age : ℕ
  pub refresh_max_age : ℕ
  -- `AUTH_MAX_LOGIN_FAILURES`, `AUTH_PASSWORD_RESET_RATE_LIMIT`, `RESET_PASSWORD_EXPIRES_IN_SECONDS`
  pub max_login_failures : ℕ
  pub password_reset_rate_limit : ℕ
  pub reset_expires_in_seconds : ℕ

-- What the code relies on: a password matches its own hash, and nothing expires at once.
pub record IsSane (c : Setup) : Type 0 where
  pub compare-hash : (p : String) (salt : ℕ) → c.compare p (c.hash p salt) ≡ true
  pub lasts : 0 < c.refresh_max_age
  pub reset_lasts : 0 < c.reset_expires_in_seconds
  pub allows : 0 < c.max_login_failures

-- `REDIS_EXPIRE`, in seconds
abbrev pub login_attempt_seconds : ℕ
login_attempt_seconds = 900

abbrev pub auth_lock_seconds : ℕ
auth_lock_seconds = 900

abbrev pub reset_password_rate_limit_seconds : ℕ
reset_password_rate_limit_seconds = 60

-- `getRefreshTTLSeconds`
abbrev pub refresh_ttl_seconds : Setup → ℕ
refresh_ttl_seconds c = (c.refresh_max_age + 999) / 1000

-- The users' table, the Redis server, the mails handed over, the time of the call in milliseconds
-- and the next random draw.
module _ (R : RedisClient) where
  pub record AuthState : Type 0 where
    pub users : List Account
    pub redis : R.Store
    pub mails : List ResetMail
    pub now : ℕ
    pub next_draw : ℕ

  abbrev pub set_redis : R.Store → AuthState → AuthState
  set_redis store w = record w { redis = store }

  abbrev pub on_redis : (R.Store → R.Store) → AuthState → AuthState
  on_redis f w = record w { redis = f w.redis }

  -- `prisma.user.update({ where: { id }, data })`
  abbrev pub update_user : ℕ → (Account → Account) → AuthState → AuthState
  update_user id f w = record w { users = map (λ u. if u.id == id then f u else u) w.users }

  -- `prisma.user.findUnique({ where: { id } })`
  abbrev pub find_user : ℕ → AuthState → Option Account
  find_user id w = find (λ u. u.id == id) w.users
