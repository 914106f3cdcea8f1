-- ===== src/Auth/Login/LoggedIn.antt =====
-- What a login that returns has found and done.
use rental_be_nest.Prelude.{
  ℕ, ◌≡◌, refl, sym, ap, ◌∙◌, subst, String, Bool, true, false, inl, inr, none, some, Option, [],
  ◌∷◌, arith, ==_refl, Bool-cases,
}
use rental_be_nest.Result.{ok, ok-injective}
use rental_be_nest.Exec
use rental_be_nest.Exec.{Exec, pure, modify, ◌>>=◌, ◌>>◌, reads-ok, lift-ok}
use rental_be_nest.Auth.Tables.{Account, LoginDto, LoginResult}
use rental_be_nest.Auth.Redis.{
  RedisClient, IsLawful, login_attempt_user, login_attempt_email, user_lock,
}
use rental_be_nest.Auth.Setup.{Setup, IsSane, AuthState, on_redis, update_user}
use rental_be_nest.Auth.Users.{assert_user_can_login, to_auth_user}
use rental_be_nest.Auth.Attempts.{assert_user_not_temporarily_locked, clear_login_failure_counters}
use rental_be_nest.Auth.Sessions.{
  create_cookie_payload, build_auth_session, validate_refresh_session, create_login_session,
}
use rental_be_nest.Auth.Sessions.Others.{save_auth_session-SameKey}
use rental_be_nest.Auth.Sessions.Rotation.{save_auth_session-get, own_token}
use rental_be_nest.Auth.Login.{
  logged_in, find_login_user, after_compare, check_credentials, validate_login_credentials, login,
}

module _ (R : RedisClient) (c : Setup) where
  -- What the check of the credentials has passed.
  pub record IsChecked (email password : String) (w : AuthState R) (account : Account)
      : Type 0 where
    pub found : find_login_user R c email w ≡ some account
    pub can_log_in : assert_user_can_login account.activity_status ≡ ok tt
    pub unlocked : R.exists (user_lock account.id) w.redis ≡ false
    pub password_fits : c.compare password account.password_hash ≡ true

  after_compare-ok :
      (user : Account) (email : String) (same : Bool) (w : AuthState R) {account : Account}
      → (after_compare R c user email same w).0 ≡ ok account
      → (same ≡ true)
        × (user ≡ account)
        × ((after_compare R c user email same w).1
            ≡ on_redis R (clear_login_failure_counters R user.id email) w)
  unfolding after_compare
  after_compare-ok user email true w h = (refl, ok-injective h, refl)
  after_compare-ok user email false w h = cc

  unlocked-ok :
      (u : ℕ) (w : AuthState R) {r : Unit {0}}
      → assert_user_not_temporarily_locked R u w ≡ ok r
      → R.exists (user_lock u) w.redis ≡ false
  unfolding assert_user_not_temporarily_locked
  unlocked-ok u w h = elim (Bool-cases (R.exists (user_lock u) w.redis)) [
    | inl t ↦ absurd (ground (arith, h, t))
    | inr f ↦ f
  ]

  check_credentials-ok :
      (found : Option Account) (email password : String) (w : AuthState R) {account : Account}
      → found ≡ find_login_user R c email w
      → (check_credentials R c found email password w).0 ≡ ok account
      → IsChecked email password w account
        × ((check_credentials R c found email password w).1
            ≡ on_redis R (clear_login_failure_counters R account.id email) w)
  unfolding check_credentials
  check_credentials-ok none email password w is h = cc
  check_credentials-ok (some user) email password w {account} is h =
      let (_, can, h1, e1) = lift-ok (assert_user_can_login user.activity_status) _ w h in
      let (_, free, h2, e2) = reads-ok (assert_user_not_temporarily_locked R user.id) _ w h1 in
      let (fits, same, e3) =
        after_compare-ok user email (c.compare password user.password_hash) w h2 in
      (
        record {
          found = sym is ∙ ap some same;
          can_log_in =
              ap (λ (a : Account). assert_user_can_login a.activity_status) (sym same) ∙ can;
          unlocked =
              ap (λ (a : Account). R.exists (user_lock a.id) w.redis) (sym same)
              ∙ unlocked-ok user.id w free;
          password_fits =
              ap (λ (a : Account). c.compare password a.password_hash) (sym same) ∙ fits;
        },
        e1
            ∙ e2
            ∙ e3
            ∙ ap (λ (a : Account). on_redis R (clear_login_failure_counters R a.id email) w) same,
      )

  pub record IsLoggedIn (dto : LoginDto) (w w' : AuthState R) (r : LoginResult) : Type 0 where
    pub account : Account
    pub checked : IsChecked (c.normalize_email dto.email) dto.password w account
    pub answer : r.user ≡ to_auth_user account w.next_draw
    pub users : w'.users ≡ (update_user R account.id (logged_in w.now) w).users
    pub uncounted : R.get (login_attempt_user account.id) w'.redis ≡ none
    pub accepted :
        (validate_refresh_session R c
          (record { sub = account.id; sid = w.next_draw; refresh_token = r.cookies.refresh_token })
          w').0
        ≡ ok (
            build_auth_session R c w.next_draw account.id r.cookies.refresh_token w.now dto.device
              w.now)

  module _ (laws : IsLawful R) (sane : IsSane c) where
    -- What follows the check of the credentials.
    abbrev rest : LoginDto → Account → Exec (AuthState R) LoginResult
    rest dto user = do
      cookies ← create_login_session R c user.id user.email dto.device
      modify (λ w. update_user R user.id (logged_in w.now) w)
      pure (record { user = to_auth_user user cookies.session_id; cookies = cookies })

    cleared :
        (u : ℕ) (email : String) (w : AuthState R)
        → R.get (login_attempt_user u) (clear_login_failure_counters R u email w.redis) ≡ none
    unfolding clear_login_failure_counters
    cleared u email w =
        laws.strings.get-del (login_attempt_user u)
          (login_attempt_user u ∷ login_attempt_email email ∷ []) w.redis
        ∙ rw (==_refl u) refl

    rest-IsLoggedIn :
        (dto : LoginDto) (w : AuthState R) (account : Account) (r : LoginResult)
        → IsChecked (c.normalize_email dto.email) dto.password w account
        → (rest dto account (
            on_redis R
              (clear_login_failure_counters R account.id (c.normalize_email dto.email))
              w)).0
          ≡ ok r
        → IsLoggedIn dto w
            (rest dto account (
              on_redis R
                (clear_login_failure_counters R account.id (c.normalize_email dto.email))
                w)).1
            r
    unfolding ◌>>=◌ create_login_session create_cookie_payload build_auth_session
    rest-IsLoggedIn dto w account r checked h =
        let email = c.normalize_email dto.email in
        let store = clear_login_failure_counters R account.id email w.redis in
        let is_r = ok-injective h in
        let token =
          c.sign_refresh (record { sub = account.id; sid = w.next_draw }) c.refresh_max_age w.now in
        let is_token : token ≡ r.cookies.refresh_token =
          ap (λ (r : LoginResult). r.cookies.refresh_token) is_r in
        let s = build_auth_session R c w.next_draw account.id token w.now dto.device w.now in
        let w' =
          (rest dto account (on_redis R (clear_login_failure_counters R account.id email) w)).1 in
        record {
          account = account;
          checked = checked;
          answer = ap (λ (r : LoginResult). r.user) (sym is_r);
          users = refl;
          uncounted =
              (save_auth_session-SameKey R laws (login_attempt_user account.id)
                ((λ i. refl), (λ u. refl)) c s store sane.lasts).get
              ∙ cleared account.id email w;
          accepted =
              subst
                (λ token.
                  (validate_refresh_session R c
                    (record { sub = account.id; sid = w.next_draw; refresh_token = token }) w').0
                  ≡ ok (build_auth_session R c w.next_draw account.id token w.now dto.device w.now))
                is_token
                (own_token R c s w' (save_auth_session-get R c laws s store sane.lasts) token refl);
        }

    -- A login that returns has found a user of that email who is not deleted, is active and not
    -- locked, and whose password fits. It has cleared the count of that user's failures and written
    -- the time of the login, and the session of the next draw is accepted with the refresh token that
    -- the answer holds.
    pub login-IsLoggedIn :
        (dto : LoginDto) (w : AuthState R) (r : LoginResult)
        → (login R c dto w).0 ≡ ok r
        → IsLoggedIn dto w (login R c dto w).1 r
    unfolding login validate_login_credentials
    login-IsLoggedIn dto w r h =
        let email = c.normalize_email dto.email in
        let (account, valid, h1, e1) =
          Exec.bind-ok (validate_login_credentials R c dto.email dto.password) (rest dto) w h in
        let (checked, e2) =
          check_credentials-ok (find_login_user R c email w) email dto.password w refl valid in
        subst (λ w'. IsLoggedIn dto w w' r) (sym (e1 ∙ ap (λ w. (rest dto account w).1) e2))
          (rest-IsLoggedIn dto w account r checked
            (subst (λ w. (rest dto account w).0 ≡ ok r) e2 h1))
