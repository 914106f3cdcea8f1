-- ===== src/Auth/Calls/Sound.antt =====
-- Every call keeps the sessions listed and the failed logins counted below the limit.
use rental_be_nest.Prelude.{
  ℕ, ◌≡◌, sym, subst, String, Bool, true, false, Option, none, some, inl, inr, Bool-cases,
  Option-cases, arith,
}
use rental_be_nest.Result.{Result, ok}
use rental_be_nest.Exec.{Exec, pure, reads, lift, modify, ◌>>=◌, bind_keeps}
use rental_be_nest.Auth.Tables.{
  Account, AuthUser, LoginDto, RefreshRequestUser, UpdateMeDto, ChangePasswordDto, ResetPasswordDto,
  VerifiedToken,
}
use rental_be_nest.Auth.Redis.{RedisClient, IsLawful, user_lock}
use rental_be_nest.Auth.Setup.{Setup, IsSane, AuthState}
use rental_be_nest.Auth.Users.{assert_user_can_login}
use rental_be_nest.Auth.Sessions.{
  validate_access_user, refresh, validate_refresh_session, rotate_refresh_session,
  create_login_session,
}
use rental_be_nest.Auth.Attempts.{
  assert_user_not_temporarily_locked, check_password_reset_rate_limit,
}
use rental_be_nest.Auth.ResetTokens.{verify}
use rental_be_nest.Auth.Login.{
  find_login_user, login, check_credentials, after_compare, validate_login_credentials,
}
use rental_be_nest.Auth.Passwords.{
  is_active_status, logout, update_me, store_password, change_password, send_reset_mail, send_token,
  forgot_password, reset_user_password, reset_password, verify_reset_password_token,
}
use rental_be_nest.Auth.Calls.{
  Call, log_in, rotate, log_out, validate, change_me, new_password, forgot, reset, check_token,
  wait, after,
}
use rental_be_nest.Auth.Calls.Stores.{
  IsSoundStore, save_sound, revoke_sound, revoke_all_sound, unknown_sound, failure_sound,
  clear_sound, limit_sound, consume_sound, later_sound, create_sound, check_active_sound,
}

module _ (R : RedisClient) (c : Setup) where
  abbrev pub IsSoundState : AuthState R → Type 0
  IsSoundState w = IsSoundStore R c w.redis

  -- An action that keeps the store sound in every state.
  abbrev pub Keeps : {A : Type 0} → Exec (AuthState R) A → Type 0
  Keeps m = (w : AuthState R) → IsSoundState w → IsSoundState (m w).1

  Keeps-bind :
      {A B : Type 0} (m : Exec (AuthState R) A) (f : A → Exec (AuthState R) B)
      → Keeps m
      → ((a : A) → Keeps (f a))
      → Keeps (m >>= f)
  Keeps-bind m f k l w s = bind_keeps IsSoundState m f w (k w s) (λ a h. l a (m w).1 (k w s))

  Keeps-reads : {A : Type 0} (r : AuthState R → Result A) → Keeps (reads r)
  unfolding reads
  Keeps-reads r w s = s

  Keeps-lift : {A : Type 0} (r : Result A) → Keeps (lift r)
  unfolding lift
  Keeps-lift r w s = s

  Keeps-pure : {A : Type 0} (a : A) → Keeps (pure {S = AuthState R} a)
  unfolding pure
  Keeps-pure a w s = s

  Keeps-modify :
      (f : AuthState R → AuthState R)
      → ((w : AuthState R) → IsSoundState w → IsSoundState (f w))
      → Keeps (modify f)
  unfolding modify
  Keeps-modify f k w s = k w s

  -- A user who is not locked has no lock.
  not_locked :
      (laws : IsLawful R) (u : ℕ) (w : AuthState R) {r : Unit {0}}
      → assert_user_not_temporarily_locked R u w ≡ ok r
      → R.get (user_lock u) w.redis ≡ none
  unfolding assert_user_not_temporarily_locked
  not_locked laws u w h = elim (Option-cases (R.get (user_lock u) w.redis)) [
    | inl e ↦ e
    | inr (v, e) ↦
        let locked = laws.strings.exists-get (user_lock u) w.redis v e in
        absurd (ground (arith, locked, h))
  ]

  module _ (laws : IsLawful R) (sane : IsSane c) where
    after_compare_keeps :
        (user : Account) (email : String) (same : Bool) (w : AuthState R)
        → R.get (user_lock user.id) w.redis ≡ none
        → IsSoundState w
        → IsSoundState (after_compare R c user email same w).1
    unfolding after_compare
    after_compare_keeps user email true w unlocked s =
        clear_sound R laws c sane w.redis s user.id email
    after_compare_keeps user email false w unlocked s =
        failure_sound R laws c sane w.redis s user.id email unlocked

    check_credentials-Keeps :
        (user : Option Account) (email password : String)
        → Keeps (check_credentials R c user email password)
    unfolding check_credentials reads lift
    check_credentials-Keeps none email password w s = unknown_sound R laws c sane w.redis s email
    check_credentials-Keeps (some user) email password w s =
        bind_keeps IsSoundState (lift (assert_user_can_login user.activity_status)) _ w s (λ _ _.
          bind_keeps IsSoundState (reads (assert_user_not_temporarily_locked R user.id)) _ w s
            (λ _ h. after_compare_keeps user email _ w (not_locked laws user.id w h) s))

    login-Keeps : (dto : LoginDto) → Keeps (login R c dto)
    unfolding login validate_login_credentials create_login_session
    login-Keeps dto w s =
        Keeps-bind (validate_login_credentials R c dto.email dto.password) _
          (λ w s.
            check_credentials-Keeps (find_login_user R c (c.normalize_email dto.email) w) _ _ w s)
          (λ user.
            Keeps-bind (create_login_session R c user.id user.email dto.device) _
              (λ w s. save_sound R laws c sane w.redis s _)
              (λ cookies. Keeps-bind _ _ (Keeps-modify _ (λ w s. s)) (λ _. Keeps-pure _)))
          w s

    refresh-Keeps : (user : RefreshRequestUser) → Keeps (refresh R c user)
    unfolding refresh validate_refresh_session rotate_refresh_session
    refresh-Keeps refresh_user =
        Keeps-bind (validate_refresh_session R c refresh_user) _
          (Keeps-bind _ _ (Keeps-reads _) (λ _.
            Keeps-bind _ _ (Keeps-lift _) (λ _. Keeps-bind _ _ (Keeps-lift _) (λ _. Keeps-pure _))))
          (λ old. Keeps-bind _ _ (Keeps-reads _) (λ user.
            Keeps-bind (rotate_refresh_session R c user.id user.email old) _
              (λ w s. save_sound R laws c sane w.redis s _) (λ cookies. Keeps-pure _)))

    validate-Keeps : (u i : ℕ) (is_logout : Bool) → Keeps (validate_access_user R u i is_logout)
    unfolding validate_access_user
    validate-Keeps u i is_logout = Keeps-bind _ _ (Keeps-reads _) (λ _.
        Keeps-bind _ _ (Keeps-lift _) (λ _.
          Keeps-bind _ _ (Keeps-reads _) (λ _. Keeps-bind _ _ (Keeps-lift _) (λ _. Keeps-pure _))))

    logout-Keeps : (user : AuthUser) → Keeps (logout R c user)
    unfolding logout
    logout-Keeps user =
        Keeps-modify _ (λ w s. revoke_sound R laws c sane w.redis s user.id user.session_id)

    update_me-Keeps : (user : AuthUser) (dto : UpdateMeDto) → Keeps (update_me R c user dto)
    unfolding update_me
    update_me-Keeps user dto =
        Keeps-bind _ _ (Keeps-reads _)
          (λ _. Keeps-bind _ _ (Keeps-modify _ (λ w s. s)) (λ _. Keeps-pure _))

    store_password-Keeps : (u : ℕ) (p : String) → Keeps (modify (store_password R c u p))
    unfolding store_password
    store_password-Keeps u p = Keeps-modify _ (λ w s. s)

    change_password-Keeps :
        (user : AuthUser) (dto : ChangePasswordDto) → Keeps (change_password R c user dto)
    unfolding change_password
    change_password-Keeps user dto = Keeps-bind _ _ (Keeps-reads _) (λ _.
        Keeps-bind _ _ (Keeps-lift _) (λ _.
          Keeps-bind _ _ (store_password-Keeps user.id dto.new_password)
            (λ _. Keeps-modify _ (λ w s. revoke_all_sound R laws c sane w.redis s user.id))))

    send_reset_mail-redis :
        (user : Account) (token : String) (w : AuthState R)
        → (send_reset_mail R c user token w).redis ≡ w.redis
    unfolding send_reset_mail
    send_reset_mail-redis user token w = ground arith

    send_reset_mail-Keeps :
        (user : Account) (token : String) → Keeps (modify (send_reset_mail R c user token))
    send_reset_mail-Keeps user token =
        Keeps-modify _
          (λ w s. subst (IsSoundStore R c) (sym (send_reset_mail-redis user token w)) s)

    send_token-Keeps : (user : Option Account) → Keeps (send_token R c user)
    unfolding send_token
    send_token-Keeps none = Keeps-pure _
    send_token-Keeps (some user) = elim (Bool-cases (is_active_status user.activity_status)) [
      | inl t ↦ rw (t) (
          Keeps-bind _ _ (λ w s. create_sound R laws c sane w s user.id)
            (λ token. send_reset_mail-Keeps user token))
      | inr f ↦ rw (f) (Keeps-pure _)
    ]

    limit-Keeps : (email : String) → Keeps (check_password_reset_rate_limit R c email)
    unfolding check_password_reset_rate_limit
    limit-Keeps email w s = limit_sound R laws c sane w.redis s email

    forgot_password-Keeps : (email : String) → Keeps (forgot_password R c email)
    unfolding forgot_password
    forgot_password-Keeps email = Keeps-bind _ _ (limit-Keeps (c.normalize_email email)) (λ can.
        Keeps-bind _ _ (Keeps-reads _) (λ user. elim (Bool-cases can) [
          | inl t ↦ rw (t) (send_token-Keeps user)
          | inr f ↦ rw (f) (Keeps-pure _)
        ]))

    verify-Keeps : (token : String) → Keeps (verify R c token)
    unfolding verify
    verify-Keeps token =
        Keeps-bind _ _ (Keeps-reads _)
          (λ u w s. check_active_sound R laws c sane w s (c.hash_reset_token token) u)

    reset_user-Keeps :
        (user : Option Account) (token : VerifiedToken) (password : String)
        → Keeps (reset_user_password R c user token password)
    unfolding reset_user_password
    reset_user-Keeps none token password w s = consume_sound R laws c sane w.redis s token
    reset_user-Keeps (some user) token password w s =
        Keeps-bind _ _ (Keeps-lift _)
          (λ _. Keeps-bind _ _ (store_password-Keeps user.id password) (λ _.
            Keeps-bind _ _ (Keeps-modify _ (λ w s. consume_sound R laws c sane w.redis s token))
              (λ _. Keeps-modify _ (λ w s. revoke_all_sound R laws c sane w.redis s user.id))))
          w s

    reset_password-Keeps : (dto : ResetPasswordDto) → Keeps (reset_password R c dto)
    unfolding reset_password
    reset_password-Keeps dto = Keeps-bind _ _ (Keeps-lift _) (λ _.
        Keeps-bind _ _ (verify-Keeps dto.token) (λ token.
          Keeps-bind _ _ (Keeps-reads _) (λ user. reset_user-Keeps user token dto.new_password)))

    verify_token-Keeps : (token : String) → Keeps (verify_reset_password_token R c token)
    unfolding verify_reset_password_token
    verify_token-Keeps token = Keeps-bind _ _ (verify-Keeps token) (λ _. Keeps-pure _)

    -- Every call, and the passing of time, keeps the sessions and the counts sound, whether the call
    -- returns or throws. Each stored session is listed in its user's set, which expires no earlier
    -- than the session. Each count of failed logins is below the limit, or the user is locked for at
    -- least as long as the count lasts.
    pub after-IsSoundState :
        (call : Call) (w : AuthState R) → IsSoundState w → IsSoundState (after R c call w)
    unfolding after
    after-IsSoundState (log_in dto) = login-Keeps dto
    after-IsSoundState (rotate user) = refresh-Keeps user
    after-IsSoundState (log_out user) = logout-Keeps user
    after-IsSoundState (validate u i is_logout) = validate-Keeps u i is_logout
    after-IsSoundState (change_me user dto) = update_me-Keeps user dto
    after-IsSoundState (new_password user dto) = change_password-Keeps user dto
    after-IsSoundState (forgot email) = forgot_password-Keeps email
    after-IsSoundState (reset dto) = reset_password-Keeps dto
    after-IsSoundState (check_token token) = verify_token-Keeps token
    after-IsSoundState (wait seconds) = λ w s. later_sound R laws c sane w.redis s seconds
