-- ===== src/Auth/Users.antt =====
-- The helpers of AuthService on users: `findAuthUserById`, `assertUserCanLogin`, `toAuthUser`.
use rental_be_nest.Prelude.{ℕ, String, none, some, List, [], ◌∷◌, ◌++◌, map, Option, unique_texts}
use rental_be_nest.Result.{
  Result, ok, err, unauthorized, user_banned, user_locked, user_inactive, invalid_session, require,
  ◌>>=◌, ◌>>◌,
}
use rental_be_nest.Catalog.{is_null}
use rental_be_nest.World.{UserActivityStatus}
use rental_be_nest.Auth.Tables.{Account, Role, AuthUser}
use rental_be_nest.Auth.Redis.{RedisClient}
use rental_be_nest.Auth.Setup.{AuthState, find_user}

-- `assertUserCanLogin`, with the table `USER_ACTIVITY_ERRORS`
unfoldable pub assert_user_can_login : UserActivityStatus → Result (Unit {0})
assert_user_can_login UserActivityStatus.active = ok tt
assert_user_can_login UserActivityStatus.banned = err (unauthorized user_banned)
assert_user_can_login UserActivityStatus.locked = err (unauthorized user_locked)
assert_user_can_login UserActivityStatus.inactive = err (unauthorized user_inactive)

abbrev pub role_codes : List Role → List String
role_codes roles = map (λ (r : Role). r.code) roles

abbrev pub permission_codes : List Role → List String
permission_codes [] = []
permission_codes (r ∷ rs) = r.permissions ++ permission_codes rs

unfoldable pub to_auth_user : Account → ℕ → AuthUser
to_auth_user user session_id = record {
  id = user.id;
  session_id = session_id;
  email = user.email;
  full_name = user.full_name;
  phone = user.phone;
  roles = role_codes user.roles;
  permissions = unique_texts (permission_codes user.roles);
}

-- `if (!user || user.deletedAt) throw new UnauthorizedException(INVALID_SESSION)`
abbrev pub not_deleted : Option Account → Result Account
not_deleted none = err (unauthorized invalid_session)
not_deleted (some user) =
    require (is_null user.deleted_at) (unauthorized invalid_session) >> ok user

module _ (R : RedisClient) where
  -- `findExistingAuthUserById`, whose body `validateRefreshUser` has too
  unfoldable pub find_existing_auth_user : ℕ → AuthState R → Result Account
  unfolding assert_user_can_login
  find_existing_auth_user id w = do
    user ← not_deleted (find_user R id w)
    assert_user_can_login user.activity_status
    ok user
