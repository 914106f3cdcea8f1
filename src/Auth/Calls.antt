-- ===== src/Auth/Calls.antt =====
-- The calls of src/modules/auth/auth.controller.ts and the passing of time.
pub mod Stores
pub mod Sound
pub mod Revoking
pub mod Resetting
pub mod Rotated
use rental_be_nest.Prelude.{ℕ, ◌+◌, ◌*◌, String, Bool}
use rental_be_nest.Auth.Tables.{
  AuthUser, LoginDto, RefreshRequestUser, UpdateMeDto, ChangePasswordDto, ResetPasswordDto,
}
use rental_be_nest.Auth.Redis.{RedisClient}
use rental_be_nest.Auth.Setup.{Setup, AuthState}
use rental_be_nest.Auth.Sessions.{validate_access_user, refresh}
use rental_be_nest.Auth.Login.{login}
use rental_be_nest.Auth.Passwords.{
  logout, update_me, change_password, forgot_password, reset_password, verify_reset_password_token,
}

pub data Call : Type 0 where
  log_in : LoginDto → Call
  rotate : RefreshRequestUser → Call
  log_out : AuthUser → Call
  validate : (user_id session_id : ℕ) → Bool → Call
  change_me : AuthUser → UpdateMeDto → Call
  new_password : AuthUser → ChangePasswordDto → Call
  forgot : String → Call
  reset : ResetPasswordDto → Call
  check_token : String → Call
  wait : (seconds : ℕ) → Call

module _ (R : RedisClient) (c : Setup) where
  -- The state after a call, whether it returns or throws.
  unfoldable pub after : Call → AuthState R → AuthState R
  unfolding login refresh logout validate_access_user update_me change_password forgot_password
      reset_password verify_reset_password_token
  after (log_in dto) w = (login R c dto w).1
  after (rotate user) w = (refresh R c user w).1
  after (log_out user) w = (logout R c user w).1
  after (validate user_id session_id is_logout) w =
      (validate_access_user R user_id session_id is_logout w).1
  after (change_me user dto) w = (update_me R c user dto w).1
  after (new_password user dto) w = (change_password R c user dto w).1
  after (forgot email) w = (forgot_password R c email w).1
  after (reset dto) w = (reset_password R c dto w).1
  after (check_token token) w = (verify_reset_password_token R c token w).1
  after (wait seconds) w = record w {
    redis = R.later seconds w.redis;
    now = w.now + seconds * 1000;
  }
