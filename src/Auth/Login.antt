-- ===== src/Auth/Login.antt =====
-- `login` of AuthService, with `validateLoginCredentials`.
pub mod Locked
pub mod LoggedIn
use rental_be_nest.Prelude.{
  ℕ, ◌≡◌, String, Bool, true, false, Option, none, some, find, str_eq, if◌then◌else◌,
}
use rental_be_nest.Result.{
  Result, ok, err, not_found, bad_request, user_not_found, password_not_match,
}
use rental_be_nest.Catalog.{is_null}
use rental_be_nest.Exec.{Exec, pure, reads, lift, modify, ◌>>=◌, ◌>>◌}
use rental_be_nest.Auth.Tables.{Account, LoginDto, LoginResult}
use rental_be_nest.Auth.Redis.{RedisClient}
use rental_be_nest.Auth.Setup.{Setup, AuthState, on_redis, update_user}
use rental_be_nest.Auth.Users.{assert_user_can_login, to_auth_user}
use rental_be_nest.Auth.Sessions.{create_login_session}
use rental_be_nest.Auth.Attempts.{
  record_unknown_login_failure, record_user_login_failure, clear_login_failure_counters,
  assert_user_not_temporarily_locked,
}

-- `if (!user || user.deletedAt)`, the other way round
abbrev pub undeleted : Option Account → Option Account
undeleted none = none
undeleted (some user) = if is_null user.deleted_at then some user else none

-- `{ lastLoginAt: new Date() }`
abbrev pub logged_in : ℕ → Account → Account
logged_in now user = record user { last_login_at = some now }

module _ (R : RedisClient) (c : Setup) where
  -- `findUnique({ where: { email } })`, and the check for a deletion
  unfoldable pub find_login_user : String → AuthState R → Option Account
  find_login_user email w = undeleted (find (λ (u : Account). str_eq u.email email) w.users)

  -- What follows the comparison of the passwords.
  unfoldable pub after_compare : Account → String → Bool → Exec (AuthState R) Account
  unfolding clear_login_failure_counters record_user_login_failure
  after_compare user email true w =
      (ok user, on_redis R (clear_login_failure_counters R user.id email) w)
  after_compare user email false w = (
    err (bad_request password_not_match),
    on_redis R (record_user_login_failure R c user.id email) w,
  )

  -- What follows the search for the user.
  unfoldable pub check_credentials : Option Account → String → String → Exec (AuthState R) Account
  unfolding record_unknown_login_failure assert_user_not_temporarily_locked after_compare
  check_credentials none email password w =
      (err (not_found user_not_found), on_redis R (record_unknown_login_failure R email) w)
  check_credentials (some user) email password w =
      (do
        lift (assert_user_can_login user.activity_status)
        reads (assert_user_not_temporarily_locked R user.id)
        after_compare user email (c.compare password user.password_hash))
        w

  unfoldable pub validate_login_credentials : String → String → Exec (AuthState R) Account
  unfolding find_login_user check_credentials
  validate_login_credentials email password w =
      let normalized_email = c.normalize_email email in
      check_credentials (find_login_user normalized_email w) normalized_email password w

  unfoldable pub login : LoginDto → Exec (AuthState R) LoginResult
  unfolding validate_login_credentials create_login_session to_auth_user
  login dto = do
    user ← validate_login_credentials dto.email dto.password
    cookies ← create_login_session R c user.id user.email dto.device
    modify (λ w. update_user R user.id (logged_in w.now) w)
    pure (record { user = to_auth_user user cookies.session_id; cookies = cookies })
