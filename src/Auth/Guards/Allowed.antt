-- ===== src/Auth/Guards/Allowed.antt =====
-- What a request that passes the guards has shown.
use rental_be_nest.Prelude.{
  ℕ, ◌≡◌, refl, sym, ap, ◌∙◌, subst, String, Bool, true, false, inl, inr, Option, none, some, List,
  [], ◌∷◌, every, str_eq, has_text, unique_texts, has_text-unique_texts, arith, Bool-cases,
  Option-cases, if◌then◌else◌,
}
use rental_be_nest.Result.{Result, ok, require-ok, ok-injective}
use rental_be_nest.Exec
use rental_be_nest.Exec.{Exec, pure, lift, ◌>>=◌, reads-ok, lift-ok}
use rental_be_nest.Auth.Tables.{Account, AuthUser, AuthSession}
use rental_be_nest.Auth.Redis.{RedisClient, session, session_json}
use rental_be_nest.Auth.Setup.{AuthState, find_user}
use rental_be_nest.Auth.Users.{assert_user_can_login, permission_codes, to_auth_user, not_deleted}
use rental_be_nest.Auth.Sessions.{get_auth_session, session_of, unless, validate_access_user}
use rental_be_nest.Auth.Sessions.Rotation.{parse_session-ok, session_of-ok}
use rental_be_nest.Auth.Guards.{
  Claims, Route, is_logout, check_permissions, sid_of, validate_access_claims, authenticate,
  can_activate,
}

every_unique :
    (required codes : List String)
    → every (has_text (unique_texts codes)) required ≡ every (has_text codes) required
every_unique [] codes = refl
every_unique (p ∷ ps) codes = ground (arith, has_text-unique_texts codes p, every_unique ps codes)

module _ (R : RedisClient) where
  -- A user with a session of the state, who may act.
  pub record IsPresent (w : AuthState R) (sub sid : ℕ) (logging_out : Bool) (user : AuthUser)
      : Type 0 where
    pub s : AuthSession
    pub stored : R.get (session sid) w.redis ≡ some (session_json s)
    pub owned : s.user_id ≡ sub
    pub account : Account
    pub found : not_deleted (find_user R sub w) ≡ ok account
    pub may_act : unless R logging_out (assert_user_can_login account.activity_status) ≡ ok tt
    pub is_user : user ≡ to_auth_user account sid

  validate_access_user-IsPresent :
      (sub sid : ℕ) (logging_out : Bool) (w : AuthState R) {user : AuthUser}
      → (validate_access_user R sub sid logging_out w).0 ≡ ok user
      → IsPresent w sub sid logging_out user
  unfolding validate_access_user get_auth_session pure
  validate_access_user-IsPresent sub sid logging_out w {user} h =
      let (found, is_found, h1, _) = reads-ok (get_auth_session R sid) _ w h in
      let (s, is_s, h2, _) = lift-ok (session_of R sub found) _ w h1 in
      let (account, not_gone, h3, _) = reads-ok (λ w. not_deleted (find_user R sub w)) _ w h2 in
      let (_, may, h4, _) =
        lift-ok (unless R logging_out (assert_user_can_login account.activity_status)) _ w h3 in
      let (is_some, owned) = session_of-ok R sub found s is_s in
      record {
        s = s;
        stored = parse_session-ok R _ s (is_found ∙ ap ok is_some);
        owned = owned;
        account = account;
        found = not_gone;
        may_act = may;
        is_user = sym (ok-injective h4);
      }

  sid_of-ok :
      (wanted : String) (claims : Claims) {sid : ℕ}
      → sid_of wanted claims ≡ ok sid
      → (str_eq claims.token_type wanted ≡ true) × (claims.sid ≡ some sid)
  sid_of-ok wanted claims {sid} h = elim (Bool-cases (str_eq claims.token_type wanted)) [
    | inr f ↦ absurd (ground (arith, h, f))
    | inl t ↦ elim (Option-cases claims.sid) [
      | inl e ↦ absurd (ground (arith, h, t, e))
      | inr (i, e) ↦ (t, e ∙ ap some (ground (arith, h, t, e)))
    ]
  ]

  pub record IsAllowed (route : Route) (verified : Result Claims) (w : AuthState R)
      (user : AuthUser) : Type 0 where
    pub claims : Claims
    pub is_verified : verified ≡ ok claims
    pub sid : ℕ
    pub is_access : str_eq claims.token_type "access" ≡ true
    pub names_session : claims.sid ≡ some sid
    pub present : IsPresent w claims.sub sid (is_logout route) user
    pub permitted :
        every (has_text (permission_codes present.account.roles)) route.required_permissions ≡ true

  check_permissions-ok :
      (required : List String) (account : Account) (sid : ℕ) {r : Unit {0}}
      → check_permissions required (some (to_auth_user account sid)) ≡ ok r
      → every (has_text (permission_codes account.roles)) required ≡ true
  unfolding check_permissions to_auth_user
  check_permissions-ok required account sid h =
      sym (every_unique required (permission_codes account.roles)) ∙ require-ok _ _ h

  authenticated :
      (route : Route) (verified : Result Claims) (w : AuthState R) {found : Option AuthUser}
      → route.is_public ≡ false
      → (authenticate R route verified w).0 ≡ ok found
      → (claims : Claims) × (verified ≡ ok claims)
        × (sid : ℕ) × (sid_of "access" claims ≡ ok sid)
        × (user : AuthUser) × (found ≡ some user)
        × IsPresent w claims.sub sid (is_logout route) user
  unfolding authenticate validate_access_claims pure
  authenticated route verified w {found} private h =
      let check = lift verified >>= λ claims.
      validate_access_claims R claims (is_logout route) >>= λ user. pure (some user) in
      let checked = subst (λ b. ((if b then pure none else check) w).0 ≡ ok found) private h in
      let (claims, is_verified, h1, _) = lift-ok verified _ w checked in
      let (user, valid, h2, _) =
        Exec.bind-ok (validate_access_claims R claims (is_logout route)) _ w h1 in
      let (sid, is_sid, h3, _) = lift-ok (sid_of "access" claims) _ w valid in
      (
        claims,
        is_verified,
        sid,
        is_sid,
        user,
        sym (ok-injective h2),
        validate_access_user-IsPresent claims.sub sid (is_logout route) w h3,
      )

  -- A request that passes the guards of a route that is not public has shown an access token of a
  -- session that is stored for its user. The user is not deleted, may log in unless the URL has
  -- `/auth/logout` in it, and has each required permission through one of the roles.
  pub can_activate-IsAllowed :
      (route : Route) (verified : Result Claims) (w : AuthState R) (user : AuthUser)
      → route.is_public ≡ false
      → (can_activate R route verified w).0 ≡ ok (some user)
      → IsAllowed route verified w user
  unfolding can_activate pure
  can_activate-IsAllowed route verified w user private h =
      let (found, auth, h1, _) = Exec.bind-ok (authenticate R route verified) _ w h in
      let (_, granted, h2, _) =
        lift-ok (check_permissions route.required_permissions found) _
          (authenticate R route verified w).1 h1 in
      let (claims, is_verified, sid, is_sid, shown, is_shown, present) =
        authenticated route verified w private auth in
      let (is_access, names_session) = sid_of-ok "access" claims is_sid in
      let same : shown ≡ user = cc (is_shown, ok-injective h2) in
      let moved = subst (IsPresent w claims.sub sid (is_logout route)) same present in
      let as_user = is_shown ∙ ap some same ∙ ap some moved.is_user in
      record {
        claims = claims;
        is_verified = is_verified;
        sid = sid;
        is_access = is_access;
        names_session = names_session;
        present = moved;
        permitted = check_permissions-ok route.required_permissions moved.account sid (
            subst (λ found. check_permissions route.required_permissions found ≡ ok tt) as_user
              granted);
      }
