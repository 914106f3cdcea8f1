-- ===== src/Auth/Login/Locked.antt =====
-- Wrong passwords lock a user, and a locked user is refused whatever the password.
use rental_be_nest.Prelude.{
  ℕ, zero, suc, ◌+◌, ◌≡◌, refl, sym, ap, ◌∙◌, subst, String, false, none, some, arith, ◌==◌,
}
use rental_be_nest.Result.{ok, err, unauthorized, bad_request, user_locked, password_not_match}
use rental_be_nest.Exec.{◌>>=◌}
use rental_be_nest.Auth.Tables.{Account, LoginDto}
use rental_be_nest.Auth.Redis.{
  RedisClient, IsLawful, Value, plain, login_attempt_user, user_lock, count_at,
}
use rental_be_nest.Auth.Setup.{Setup, AuthState, on_redis}
use rental_be_nest.Auth.Users.{assert_user_can_login}
use rental_be_nest.Auth.Attempts.{assert_user_not_temporarily_locked, record_user_login_failure}
use rental_be_nest.Auth.Attempts.Locking.{
  record_user_login_failure-count, record_user_login_failure-lock,
  record_user_login_failure-unlocked,
}
use rental_be_nest.Auth.Login.{
  find_login_user, after_compare, check_credentials, validate_login_credentials, login,
}

module _ (R : RedisClient) (c : Setup) where
  -- The state after a number of logins with the same input.
  abbrev pub logins : ℕ → LoginDto → AuthState R → AuthState R
  logins zero dto w = w
  logins (suc k) dto w = logins k dto (login R c dto w).1

module _ (R : RedisClient) (laws : IsLawful R) (c : Setup) (account : Account)
    (active : assert_user_can_login account.activity_status ≡ ok tt) where
  -- A locked user is refused, whatever the password, and nothing changes.
  pub locked_login :
      (dto : LoginDto) (w : AuthState R) (v : Value)
      → find_login_user R c (c.normalize_email dto.email) w ≡ some account
      → R.get (user_lock account.id) w.redis ≡ some v
      → login R c dto w ≡ (err (unauthorized user_locked), w)
  unfolding login validate_login_credentials check_credentials assert_user_not_temporarily_locked
      ◌>>=◌
  locked_login dto w v found locked =
      rw (found, active, laws.strings.exists-get (user_lock account.id) w.redis v locked) refl

  -- A wrong password of a user who is not locked is counted.
  wrong_login :
      (dto : LoginDto) (w : AuthState R)
      → find_login_user R c (c.normalize_email dto.email) w ≡ some account
      → R.get (user_lock account.id) w.redis ≡ none
      → c.compare dto.password account.password_hash ≡ false
      → login R c dto w ≡ (
        err (bad_request password_not_match),
        on_redis R (record_user_login_failure R c account.id (c.normalize_email dto.email)) w,
      )
  unfolding login validate_login_credentials check_credentials after_compare
      assert_user_not_temporarily_locked ◌>>=◌
  wrong_login dto w found unlocked wrong =
      rw
        (
          found,
          active,
          laws.strings.exists-none (user_lock account.id) w.redis refl unlocked,
          wrong,
        )
        refl

  -- The state after a wrong password.
  abbrev failed : LoginDto → AuthState R → AuthState R
  failed dto w =
      on_redis R (record_user_login_failure R c account.id (c.normalize_email dto.email)) w

  failed_found :
      (dto : LoginDto) (w : AuthState R) (email : String)
      → find_login_user R c email w ≡ some account
      → find_login_user R c email (failed dto w) ≡ some account
  unfolding find_login_user
  failed_found dto w email h = h

  -- As many wrong passwords as the limit leaves, with no other call between them, lock the user:
  -- then a login for the same user is refused, also with the right password. The user must be active
  -- and not locked at first, with `n` failures counted.
  pub logins-locked :
      (k n : ℕ) (dto dto' : LoginDto) (w : AuthState R)
      → find_login_user R c (c.normalize_email dto.email) w ≡ some account
      → c.normalize_email dto'.email ≡ c.normalize_email dto.email
      → c.compare dto.password account.password_hash ≡ false
      → R.get (user_lock account.id) w.redis ≡ none
      → count_at (R.get (login_attempt_user account.id) w.redis) ≡ some n
      → n + suc k ≡ c.max_login_failures
      → (login R c dto' (logins R c (suc k) dto w)).0 ≡ err (unauthorized user_locked)
  logins-locked zero n dto dto' w found same wrong unlocked counts limit =
      let step = ap (λ p. p.1) (wrong_login dto w found unlocked wrong) in
      let lock =
        record_user_login_failure-lock R laws c account.id (c.normalize_email dto.email) n w.redis
          counts (omega (arith, limit)) in
      subst (λ w1. (login R c dto' w1).0 ≡ err (unauthorized user_locked)) (sym step)
        (ap (λ p. p.0)
          (locked_login dto' (failed dto w) (plain "1")
            (ap (λ email. find_login_user R c email (failed dto w)) same
              ∙ failed_found dto w _ found)
            lock))
  logins-locked (suc k) n dto dto' w found same wrong unlocked counts limit =
      let step = ap (λ p. p.1) (wrong_login dto w found unlocked wrong) in
      let email = c.normalize_email dto.email in
      let below : (n + 1 == c.max_login_failures) ≡ false = ground (arith, limit) in
      let still =
        record_user_login_failure-unlocked R laws c account.id email n w.redis counts below
        ∙ unlocked in
      let counts' =
        ap count_at (record_user_login_failure-count R laws c account.id email n w.redis counts) in
      subst (λ w1. (login R c dto' (logins R c (suc k) dto w1)).0 ≡ err (unauthorized user_locked))
        (sym step)
        (logins-locked k (n + 1) dto dto' (failed dto w) (failed_found dto w _ found) same wrong
          still counts' (omega (arith, limit)))
