-- ===== src/Auth/Attempts.antt =====
-- The counters of AuthService: failed logins, the lock that follows, and the limit on reset requests.
pub mod Guarded
pub mod Failure
pub mod Locking
use rental_be_nest.Prelude.{ℕ, ◌≡◌, String, Bool, true, [], ◌∷◌, leb, ◌==◌, if◌then◌else◌}
use rental_be_nest.Result.{Result, ok, unauthorized, user_locked, require}
use rental_be_nest.Exec.{Exec}
use rental_be_nest.Auth.Redis.{
  RedisClient, Key, plain, login_attempt_user, login_attempt_email, user_lock,
  reset_password_rate_limit,
}
use rental_be_nest.Auth.Setup.{
  Setup, AuthState, set_redis, login_attempt_seconds, auth_lock_seconds,
  reset_password_rate_limit_seconds,
}

module _ (R : RedisClient) where
  -- `incrWithTTL` of RedisService
  unfoldable pub incr_with_ttl : Key → ℕ → R.Store → ℕ × R.Store
  incr_with_ttl key seconds store =
      let (result, counted) = R.incr key store in
      (result, if result == 1 then R.expire key seconds counted else counted)

  -- `recordUnknownLoginFailure`
  unfoldable pub record_unknown_login_failure : String → R.Store → R.Store
  unfolding incr_with_ttl
  record_unknown_login_failure normalized_email store =
      (incr_with_ttl (login_attempt_email normalized_email) login_attempt_seconds store).1

  -- `recordUserLoginFailure`
  unfoldable pub record_user_login_failure : Setup → ℕ → String → R.Store → R.Store
  unfolding incr_with_ttl
  record_user_login_failure c user_id normalized_email store =
      let (user_failures, by_user) =
        incr_with_ttl (login_attempt_user user_id) login_attempt_seconds store in
      let (_, by_email) =
        incr_with_ttl (login_attempt_email normalized_email) login_attempt_seconds by_user in
      if user_failures == c.max_login_failures
      then R.set (user_lock user_id) (plain "1") auth_lock_seconds by_email
      else by_email

  -- `clearLoginFailureCounters`
  unfoldable pub clear_login_failure_counters : ℕ → String → R.Store → R.Store
  clear_login_failure_counters user_id normalized_email store =
      R.del (login_attempt_user user_id ∷ login_attempt_email normalized_email ∷ []) store

  -- `assertUserNotTemporarilyLocked`
  unfoldable pub assert_user_not_temporarily_locked : ℕ → AuthState R → Result (Unit {0})
  assert_user_not_temporarily_locked user_id w =
      if R.exists (user_lock user_id) w.redis then Result.err (unauthorized user_locked) else ok tt

  -- `checkPasswordResetRateLimit`
  unfoldable pub check_password_reset_rate_limit : Setup → String → Exec (AuthState R) Bool
  unfolding incr_with_ttl
  check_password_reset_rate_limit c normalized_email w =
      let (requests, store) =
        incr_with_ttl (reset_password_rate_limit normalized_email) reset_password_rate_limit_seconds
          w.redis in
      (ok (leb requests c.password_reset_rate_limit), set_redis R store w)
