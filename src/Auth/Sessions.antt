-- ===== src/Auth/Sessions.antt =====
-- The sessions of AuthService: `issueTokens`, `buildAuthSession`, `saveAuthSession`, `getAuthSession`,
-- `revokeSession`, `revokeAllUserSessions`, `createLoginSession`, `rotateRefreshSession`,
-- `validateRefreshSession`, and `validateAccessUser`.
pub mod Index
pub mod Kept
pub mod Revoked
pub mod Others
pub mod Rotation
use rental_be_nest.Prelude.{
  ℕ, ◌+◌, ◌≡◌, String, Bool, true, false, Option, none, some, List, [], ◌∷◌, ◌++◌, map, str_eq,
  ◌==◌, if◌then◌else◌,
}
use rental_be_nest.Result.{Result, ok, err, unauthorized, unexpected, invalid_session, require}
use rental_be_nest.Exec.{Exec, pure, reads, lift, modify, ◌>>=◌, ◌>>◌}
use rental_be_nest.Auth.Tables.{
  Account, AuthUser, AuthSession, AuthCookiePayload, RefreshRequestUser, LoginResult, Device,
}
use rental_be_nest.Auth.Redis.{RedisClient, Key, session, user_sessions, Value, session_json}
use rental_be_nest.Auth.Setup.{
  Setup, AuthState, set_redis, on_redis, find_user, refresh_ttl_seconds,
}
use rental_be_nest.Auth.Users.{
  to_auth_user, not_deleted, assert_user_can_login, find_existing_auth_user,
}

module _ (R : RedisClient) (c : Setup) where
  -- `createCookiePayload` and `issueTokens`
  unfoldable pub create_cookie_payload : ℕ → String → ℕ → AuthState R → AuthCookiePayload
  create_cookie_payload user_id email session_id w = record {
    session_id = session_id;
    access_token =
        c.sign_access (record { sub = user_id; email = email; sid = session_id }) c.access_max_age
          w.now;
    refresh_token =
        c.sign_refresh (record { sub = user_id; sid = session_id }) c.refresh_max_age w.now;
    access_max_age = c.access_max_age;
    refresh_max_age = c.refresh_max_age;
  }

  -- `buildAuthSession`
  unfoldable pub build_auth_session : ℕ → ℕ → String → ℕ → Device → ℕ → AuthSession
  build_auth_session session_id user_id refresh_token created_at device now = record {
    session_id = session_id;
    user_id = user_id;
    refresh_token_hash = c.hash_refresh_token refresh_token;
    created_at = created_at;
    last_used_at = now;
    expires_at = now + c.refresh_max_age;
    device = device;
  }

  -- `saveAuthSession`
  unfoldable pub save_auth_session : AuthSession → R.Store → R.Store
  save_auth_session s store =
      let seconds = refresh_ttl_seconds c in
      let stored = R.set (session s.session_id) (session_json s) seconds store in
      R.expire (user_sessions s.user_id) seconds
        (R.sadd (user_sessions s.user_id) s.session_id stored)

  -- `isRefreshTokenHashValid`: the digests are equal.
  abbrev pub is_refresh_token_hash_valid : String → String → Bool
  is_refresh_token_hash_valid refresh_token expected_hash =
      str_eq (c.hash_refresh_token refresh_token) expected_hash

  -- `createLoginSession`; the random UUID is the next draw.
  unfoldable pub create_login_session : ℕ → String → Device → Exec (AuthState R) AuthCookiePayload
  unfolding create_cookie_payload build_auth_session save_auth_session
  create_login_session user_id email device w =
      let cookies = create_cookie_payload user_id email w.next_draw w in
      let s = build_auth_session w.next_draw user_id cookies.refresh_token w.now device w.now in
      (ok cookies, record w { redis = save_auth_session s w.redis; next_draw = w.next_draw + 1 })

  -- `rotateRefreshSession`
  unfoldable pub rotate_refresh_session :
      ℕ → String → AuthSession → Exec (AuthState R) AuthCookiePayload
  unfolding create_cookie_payload build_auth_session save_auth_session
  rotate_refresh_session user_id email old w =
      let cookies = create_cookie_payload user_id email old.session_id w in
      let s =
        build_auth_session old.session_id old.user_id cookies.refresh_token old.created_at
          old.device w.now in
      (ok cookies, record w { redis = save_auth_session s w.redis })

module _ (R : RedisClient) where
  -- `JSON.parse` of what is stored; no session is stored as other text.
  abbrev pub parse_session : Option Value → Result (Option AuthSession)
  parse_session none = ok none
  parse_session (some (session_json s)) = ok (some s)
  parse_session (some _) = err unexpected

  -- `getAuthSession`
  unfoldable pub get_auth_session : ℕ → AuthState R → Result (Option AuthSession)
  get_auth_session session_id w = parse_session (R.get (session session_id) w.redis)

  -- `revokeSession`
  unfoldable pub revoke_session : ℕ → ℕ → R.Store → R.Store
  revoke_session user_id session_id store =
      R.srem (user_sessions user_id) session_id (R.del (session session_id ∷ []) store)

  -- `revokeAllUserSessions`
  unfoldable pub revoke_all_user_sessions : ℕ → R.Store → R.Store
  revoke_all_user_sessions user_id store =
      let session_ids = R.smembers (user_sessions user_id) store in
      R.del (map session session_ids ++ user_sessions user_id ∷ []) store

  -- `if (!session || session.userId !== userId) throw …`
  abbrev pub session_of : ℕ → Option AuthSession → Result AuthSession
  session_of user_id none = err (unauthorized invalid_session)
  session_of user_id (some s) =
      if s.user_id == user_id then ok s else err (unauthorized invalid_session)

  abbrev pub unless : Bool → Result (Unit {0}) → Result (Unit {0})
  unless true r = ok tt
  unless false r = r

  -- `validateAccessUser`
  unfoldable pub validate_access_user : ℕ → ℕ → Bool → Exec (AuthState R) AuthUser
  unfolding get_auth_session to_auth_user
  validate_access_user user_id session_id is_logout = do
    found ← reads (get_auth_session session_id)
    lift (session_of user_id found)
    user ← reads (λ w. not_deleted (find_user R user_id w))
    lift (unless is_logout (assert_user_can_login user.activity_status))
    pure (to_auth_user user session_id)

module _ (R : RedisClient) (c : Setup) where
  -- `validateRefreshSession`
  unfoldable pub validate_refresh_session : RefreshRequestUser → Exec (AuthState R) AuthSession
  unfolding get_auth_session
  validate_refresh_session user = do
    found ← reads (get_auth_session R user.sid)
    s ← lift (session_of R user.sub found)
    lift (
        require (is_refresh_token_hash_valid R c user.refresh_token s.refresh_token_hash)
          (unauthorized invalid_session))
    pure s

  -- `refresh`
  unfoldable pub refresh : RefreshRequestUser → Exec (AuthState R) LoginResult
  unfolding validate_refresh_session rotate_refresh_session to_auth_user
  refresh refresh_user = do
    s ← validate_refresh_session refresh_user
    user ← reads (find_existing_auth_user R refresh_user.sub)
    cookies ← rotate_refresh_session R c user.id user.email s
    pure (record { user = to_auth_user user s.session_id; cookies = cookies })
