-- ===== src/Auth/Guards.antt =====
-- The guards and the strategy of a request: guards/jwt-auth.guard.ts, guards/permissions.guard.ts,
-- strategies/jwt-access.strategy.ts and strategies/jwt-refresh.strategy.ts. The check of a JWT's
-- signature and expiry is Passport's: its outcome is an argument.
pub mod Allowed
use rental_be_nest.Prelude.{
  ℕ, String, Bool, true, false, ◌||◌, not, Option, none, some, List, [], ◌∷◌, every, str_eq,
  has_text, has_part, if◌then◌else◌,
}
use rental_be_nest.Result.{
  Result, ok, err, unauthorized, forbidden, unauthorized_request, forbidden_request, require,
}
use rental_be_nest.Exec.{Exec, pure, lift, ◌>>=◌, ◌>>◌}
use rental_be_nest.Auth.Tables.{AuthUser, RefreshRequestUser}
use rental_be_nest.Auth.Redis.{RedisClient}
use rental_be_nest.Auth.Setup.{AuthState}
use rental_be_nest.Auth.Sessions.{validate_access_user}

-- `JwtAccessPayload` and `JwtRefreshPayload` as they come out of a token.
pub record Claims : Type 0 where
  pub token_type : String
  pub sub : ℕ
  pub sid : Option ℕ

-- What the decorators of a request's route say, and the request's URL, which includes the query.
pub record Route : Type 0 where
  pub is_public : Bool
  pub required_permissions : List String
  pub url : String

-- `request.url.includes('/auth/logout')`
abbrev pub is_logout : Route → Bool
is_logout route = has_part route.url "/auth/logout"

-- `PermissionsGuard.canActivate`: a request without a user has no permissions.
abbrev pub permissions_of : Option AuthUser → List String
permissions_of none = []
permissions_of (some user) = user.permissions

unfoldable pub check_permissions : List String → Option AuthUser → Result (Unit {0})
check_permissions required user =
    require (every (has_text (permissions_of user)) required) (forbidden forbidden_request)

-- The session that a token of the wanted type names.
abbrev pub sid_of : String → Claims → Result ℕ
sid_of wanted claims =
    if str_eq claims.token_type wanted
    then elim claims.sid [ none ↦ err (unauthorized unauthorized_request) | some sid ↦ ok sid ]
    else err (unauthorized unauthorized_request)

-- `JwtRefreshStrategy.validate`
unfoldable pub validate_refresh_claims : Claims → Option String → Result RefreshRequestUser
validate_refresh_claims claims none = err (unauthorized unauthorized_request)
validate_refresh_claims claims (some refresh_token) = elim (sid_of "refresh" claims) [
  | err e ↦ err e
  | ok sid ↦ ok (record { sub = claims.sub; sid = sid; refresh_token = refresh_token })
]

module _ (R : RedisClient) where
  -- `JwtAccessStrategy.validate`
  unfoldable pub validate_access_claims : Claims → Bool → Exec (AuthState R) AuthUser
  unfolding validate_access_user
  validate_access_claims claims logging_out = do
    sid ← lift (sid_of "access" claims)
    validate_access_user R claims.sub sid logging_out

  -- `JwtAuthGuard.canActivate`, which gives the request its user
  unfoldable pub authenticate : Route → Result Claims → Exec (AuthState R) (Option AuthUser)
  unfolding validate_access_claims
  authenticate route verified =
      let check = lift verified >>= λ claims.
      validate_access_claims claims (is_logout route) >>= λ user. pure (some user) in
      if route.is_public then pure none else check

  -- The two guards of the application, in their order.
  unfoldable pub can_activate : Route → Result Claims → Exec (AuthState R) (Option AuthUser)
  unfolding authenticate check_permissions
  can_activate route verified = do
    user ← authenticate route verified
    lift (check_permissions route.required_permissions user)
    pure user
