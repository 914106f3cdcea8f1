-- ===== src/Auth/Passwords.antt =====
-- The rest of AuthService: `logout`, `updateMe`, `changePassword`, `forgotPassword`, `resetPassword`,
-- `verifyResetPasswordToken`.
use rental_be_nest.Prelude.{
  ℕ, ◌+◌, String, Bool, true, false, Option, none, some, [], ◌∷◌, ◌++◌, find, str_eq, ◌or_else◌,
  if◌then◌else◌,
}
use rental_be_nest.Result.{
  ok, err, bad_request, require, old_password_not_valid, password_confirm_not_match,
  password_reset_token_invalid,
}
use rental_be_nest.Exec.{Exec, pure, reads, lift, modify, ◌>>=◌, ◌>>◌}
use rental_be_nest.World.{UserActivityStatus}
use rental_be_nest.SearchText.{build_user_search_text}
use rental_be_nest.Auth.Tables.{
  Account, AuthUser, UpdateMeDto, ChangePasswordDto, ResetPasswordDto, VerifiedToken, ResetMail,
}
use rental_be_nest.Auth.Redis.{RedisClient}
use rental_be_nest.Auth.Setup.{Setup, AuthState, on_redis, update_user, find_user}
use rental_be_nest.Auth.Users.{
  not_deleted, find_existing_auth_user, to_auth_user, assert_user_can_login,
}
use rental_be_nest.Auth.Login.{undeleted}
use rental_be_nest.Auth.Sessions.{revoke_session, revoke_all_user_sessions}
use rental_be_nest.Auth.Attempts.{check_password_reset_rate_limit}
use rental_be_nest.Auth.ResetTokens.{create_for_user, verify, consume}

-- `EUserActivityStatus.Active`
abbrev pub is_active_status : UserActivityStatus → Bool
is_active_status UserActivityStatus.active = true
is_active_status _ = false

-- `user.fullName || 'bạn'`
abbrev pub name_or_friend : String → String
name_or_friend name = if str_eq name "" then "bạn" else name

abbrev pub with_password : String → Account → Account
with_password password_hash user = record user { password_hash = password_hash }

module _ (R : RedisClient) (c : Setup) where
  unfoldable pub logout : AuthUser → Exec (AuthState R) (Unit {0})
  unfolding revoke_session
  logout user = modify (on_redis R (revoke_session R user.id user.session_id))

  -- `data` of `updateMe`
  unfoldable pub updated_me : UpdateMeDto → Account → Account → Account
  unfolding build_user_search_text
  updated_me dto existing user =
      let next_full_name = dto.full_name or_else existing.full_name in
      let next_phone : Option String = elim dto.phone [
        | none ↦ existing.phone
        | some phone ↦ some phone
      ] in
      record user {
        full_name = next_full_name;
        phone = next_phone;
        search_text =
            build_user_search_text c.normalize_search_text none (some next_full_name) next_phone;
      }

  unfoldable pub update_me : AuthUser → UpdateMeDto → Exec (AuthState R) AuthUser
  unfolding updated_me to_auth_user
  update_me current_user dto = do
    existing ← reads (find_existing_auth_user R current_user.id)
    modify (update_user R current_user.id (updated_me dto existing))
    pure (to_auth_user (updated_me dto existing existing) current_user.session_id)

  -- `bcrypt.hash(password, 10)` draws a salt; the new hash is stored.
  unfoldable pub store_password : ℕ → String → AuthState R → AuthState R
  store_password user_id password w =
      record (update_user R user_id (with_password (c.hash password w.next_draw)) w) {
        next_draw = w.next_draw + 1;
      }

  unfoldable pub change_password : AuthUser → ChangePasswordDto → Exec (AuthState R) (Unit {0})
  unfolding store_password revoke_all_user_sessions
  change_password current_user dto = do
    user ← reads (λ w. not_deleted (find_user R current_user.id w))
    lift (
        require (c.compare dto.old_password user.password_hash)
          (bad_request old_password_not_valid))
    modify (store_password current_user.id dto.new_password)
    modify (on_redis R (revoke_all_user_sessions R current_user.id))

  -- The mail, which is lost if the mail service throws.
  unfoldable pub send_reset_mail : Account → String → AuthState R → AuthState R
  send_reset_mail user token w =
      let mail : ResetMail = record {
        to_email = user.email;
        user_name = name_or_friend user.full_name;
        token = token;
      } in
      if c.sends mail then record w { mails = w.mails ++ mail ∷ [] } else w

  -- What follows the search for the user: `!user || user.deletedAt || … !== Active`.
  unfoldable pub send_token : Option Account → Exec (AuthState R) (Unit {0})
  unfolding create_for_user send_reset_mail
  send_token none = pure tt
  send_token (some user) =
      if is_active_status user.activity_status
      then (create_for_user R c user.id >>= λ token. modify (send_reset_mail user token))
      else pure tt

  unfoldable pub forgot_password : String → Exec (AuthState R) (Unit {0})
  unfolding check_password_reset_rate_limit send_token
  forgot_password email = do
    let normalized_email = c.normalize_email email
    can_request_reset ← check_password_reset_rate_limit R c normalized_email
    user ←
        reads
          (λ w. ok (undeleted (find (λ (u : Account). str_eq u.email normalized_email) w.users)))
    if can_request_reset then send_token user else pure tt

  -- What follows the search for the token's user.
  unfoldable pub reset_user_password :
      Option Account → VerifiedToken → String → Exec (AuthState R) (Unit {0})
  unfolding assert_user_can_login store_password consume revoke_all_user_sessions
  reset_user_password none token password w =
      (err (bad_request password_reset_token_invalid), on_redis R (consume R c token) w)
  reset_user_password (some user) token password w =
      (do
        lift (assert_user_can_login user.activity_status)
        modify (store_password user.id password)
        modify (on_redis R (consume R c token))
        modify (on_redis R (revoke_all_user_sessions R user.id)))
        w

  unfoldable pub reset_password : ResetPasswordDto → Exec (AuthState R) (Unit {0})
  unfolding verify reset_user_password
  reset_password dto = do
    lift (
        require (str_eq dto.new_password dto.confirm_password)
          (bad_request password_confirm_not_match))
    token ← verify R c dto.token
    user ← reads (λ w. ok (undeleted (find_user R token.user_id w)))
    reset_user_password user token dto.new_password

  unfoldable pub verify_reset_password_token : String → Exec (AuthState R) (Unit {0})
  unfolding verify
  verify_reset_password_token token = verify R c token >>= λ _. pure tt
