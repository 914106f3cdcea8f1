-- ===== src/Examples/Accounts.antt =====
-- Logins and sessions at concrete inputs: one user, and Redis in memory.
use text.Mathlib.TextPositions.{eq_refl}
use rental_be_nest.Prelude.{
  ℕ, ◌≡◌, refl, true, false, none, some, [], ◌∷◌, ltb, str_eq, arith, if◌then◌else◌,
}
use rental_be_nest.Result.{ok, err, unauthorized, user_locked, invalid_session}
use rental_be_nest.Exec.{◌>>=◌}
use rental_be_nest.World.{UserActivityStatus}
use rental_be_nest.Auth.Tables.{
  Account, AuthUser, Device, LoginDto, LoginResult, RefreshRequestUser, ChangePasswordDto,
  ResetPasswordDto,
}
use rental_be_nest.Auth.Setup.{Setup, IsSane, AuthState}
use rental_be_nest.Auth.Users.{assert_user_can_login, to_auth_user, find_existing_auth_user}
use rental_be_nest.Auth.Sessions.{
  validate_access_user, refresh, create_cookie_payload, validate_refresh_session,
  rotate_refresh_session, get_auth_session,
}
use rental_be_nest.Auth.ResetTokens.{create_for_user, verify, check_active}
use rental_be_nest.Auth.ResetTokens.Newest.{create_for_user-verify, create_for_user-newest}
use rental_be_nest.Auth.Login.{login, find_login_user}
use rental_be_nest.Auth.Login.Locked.{logins, logins-locked}
use rental_be_nest.Auth.Login.LoggedIn.{IsLoggedIn, login-IsLoggedIn}
use rental_be_nest.Auth.Passwords.{change_password, reset_password}
use rental_be_nest.Auth.Calls.{Call, log_in, wait, after}
use rental_be_nest.Auth.Calls.Sound.{IsSoundState, after-IsSoundState}
use rental_be_nest.Auth.Calls.Revoking.{IsSignedOut, change_password-IsSignedOut}
use rental_be_nest.Auth.Calls.Resetting.{IsReset, reset_password-IsReset}
use rental_be_nest.Auth.Calls.Rotated.{IsRotated, refresh-IsRotated, refresh-again}
use rental_be_nest.Auth.Guards.{Claims, Route, can_activate}
use rental_be_nest.Auth.Guards.Allowed.{IsAllowed, can_activate-IsAllowed}
use rental_be_nest.Examples.Memory.{memory, memory-IsLawful, empty_memory}

-- A hash that is the password, and tokens that name their time.
abbrev setup : Setup
setup = record {
  compare = str_eq;
  hash = λ p salt. p;
  sign_access = λ p age now. "access";
  sign_refresh = λ p age now. if ltb now 5000 then "early" else "late";
  hash_refresh_token = λ t. t;
  hash_reset_token = λ t. t;
  random_token = λ n. if ltb n 4 then "first" else "second";
  normalize_email = λ e. e;
  normalize_search_text = λ t. t;
  sends = λ m. true;
  access_max_age = 900000;
  refresh_max_age = 604800000;
  max_login_failures = 5;
  password_reset_rate_limit = 3;
  reset_expires_in_seconds = 1800;
}

setup-IsSane : IsSane setup
setup-IsSane = record {
  compare-hash = λ p salt. eq_refl p;
  lasts = omega arith;
  reset_lasts = omega arith;
  allows = omega arith;
}

abbrev ann : Account
ann = record {
  id = 1;
  email = "ann@shop";
  password_hash = "Secret1!";
  full_name = "Ann";
  phone = none;
  search_text = "ann";
  activity_status = UserActivityStatus.active;
  last_login_at = none;
  deleted_at = none;
  roles = record { code = "STAFF"; permissions = "orders.read" ∷ [] } ∷ [];
}

abbrev office : AuthState memory
office = record { users = ann ∷ []; redis = empty_memory; mails = []; now = 1000; next_draw = 3 }

empty-IsSound : IsSoundState memory setup office
empty-IsSound = record { indexed = λ i v h. cc; guarded = λ u v h. cc }

abbrev device : Device
device = record { ip_address = none; user_agent = none; device_id = none; fcm_token = none }

abbrev right : LoginDto
right = record { email = "ann@shop"; password = "Secret1!"; device = device }

abbrev wrong : LoginDto
wrong = record { email = "ann@shop"; password = "guess"; device = device }

after-IsSoundState_example :
    IsSoundState memory setup
      (after memory setup (wait 60) (after memory setup (log_in right) office))
after-IsSoundState_example =
    after-IsSoundState memory setup memory-IsLawful setup-IsSane (wait 60)
      (after memory setup (log_in right) office)
      (after-IsSoundState memory setup memory-IsLawful setup-IsSane (log_in right) office
        empty-IsSound)

logins-locked_example :
    (login memory setup right (logins memory setup 5 wrong office)).0
    ≡ err (unauthorized user_locked)
unfolding find_login_user assert_user_can_login
logins-locked_example =
    logins-locked memory memory-IsLawful setup ann refl 4 0 wrong right office refl refl refl refl
      refl refl

-- Ann, logged in from the next draw, and an hour later.
abbrev entered : AuthState memory
entered = after memory setup (log_in right) office

abbrev cookies : AuthState memory → ℕ → LoginResult
cookies w sid = record {
  user = to_auth_user ann sid;
  cookies = create_cookie_payload memory setup 1 "ann@shop" sid w;
}

logged : (login memory setup right office).0 ≡ ok (cookies office 3)
unfolding login ◌>>=◌ find_login_user assert_user_can_login create_cookie_payload to_auth_user
logged = refl

login-IsLoggedIn_example :
    IsLoggedIn memory setup right office (login memory setup right office).1 (cookies office 3)
login-IsLoggedIn_example =
    login-IsLoggedIn memory setup memory-IsLawful setup-IsSane right office (cookies office 3)
      logged

abbrev later_on : AuthState memory
later_on = after memory setup (wait 60) entered

later_on-IsSound : IsSoundState memory setup later_on
later_on-IsSound = after-IsSoundState memory setup memory-IsLawful setup-IsSane (wait 60) entered (
    after-IsSoundState memory setup memory-IsLawful setup-IsSane (log_in right) office
      empty-IsSound)

abbrev request_user : RefreshRequestUser
request_user = record { sub = 1; sid = 3; refresh_token = "early" }

refreshed : (refresh memory setup request_user later_on).0 ≡ ok (cookies later_on 3)
unfolding login refresh after ◌>>=◌ find_login_user assert_user_can_login create_cookie_payload
    to_auth_user validate_refresh_session rotate_refresh_session find_existing_auth_user
refreshed = refl

refresh-IsRotated_example :
    IsRotated memory setup request_user later_on
      (refresh memory setup request_user later_on).1
      (cookies later_on 3)
refresh-IsRotated_example =
    refresh-IsRotated memory setup memory-IsLawful setup-IsSane request_user later_on
      (cookies later_on 3) later_on-IsSound refreshed

refresh-again_example :
    (refresh memory setup request_user (refresh memory setup request_user later_on).1).0
    ≡ err (unauthorized invalid_session)
unfolding create_cookie_payload after login ◌>>=◌
refresh-again_example =
    refresh-again memory setup memory-IsLawful setup-IsSane request_user later_on
      (cookies later_on 3) later_on-IsSound refreshed refl

abbrev ann_user : AuthUser
ann_user = record {
  id = 1;
  session_id = 3;
  email = "ann@shop";
  full_name = "Ann";
  phone = none;
  roles = "STAFF" ∷ [];
  permissions = "orders.read" ∷ [];
}

abbrev new_secret : ChangePasswordDto
new_secret = record { old_password = "Secret1!"; new_password = "Better2?" }

changed : (change_password memory setup ann_user new_secret entered).0 ≡ ok tt
unfolding change_password after login ◌>>=◌ find_login_user assert_user_can_login
changed = refl

entered-IsSound : IsSoundState memory setup entered
entered-IsSound =
    after-IsSoundState memory setup memory-IsLawful setup-IsSane (log_in right) office empty-IsSound

change_password-IsSignedOut_example :
    IsSignedOut memory setup 1 (change_password memory setup ann_user new_secret entered).1
change_password-IsSignedOut_example =
    change_password-IsSignedOut memory memory-IsLawful setup ann_user new_secret entered
      entered-IsSound changed

-- Ann, with a token for a reset.
abbrev asked : AuthState memory
asked = after memory setup (Call.forgot "ann@shop") entered

abbrev by_token : ResetPasswordDto
by_token = record { token = "second"; new_password = "Better2?"; confirm_password = "Better2?" }

asked-IsSound : IsSoundState memory setup asked
asked-IsSound =
    after-IsSoundState memory setup memory-IsLawful setup-IsSane (Call.forgot "ann@shop") entered
      entered-IsSound

was_reset : (reset_password memory setup by_token asked).0 ≡ ok tt
unfolding reset_password after login ◌>>=◌ find_login_user assert_user_can_login verify check_active
was_reset = refl

reset_password-IsReset_example :
    IsReset memory setup by_token asked (reset_password memory setup by_token asked).1
reset_password-IsReset_example =
    reset_password-IsReset memory setup memory-IsLawful by_token asked asked-IsSound was_reset

create_for_user-verify_example :
    (verify memory setup "first" (create_for_user memory setup 1 office).1).0
    ≡ ok (record { user_id = 1; token_hash = "first" })
create_for_user-verify_example = create_for_user-verify memory memory-IsLawful setup 1 office

abbrev first_token : AuthState memory
first_token = (create_for_user memory setup 1 office).1

create_for_user-newest_example : setup.hash_reset_token "second" ≡ "second"
unfolding create_for_user
create_for_user-newest_example =
    create_for_user-newest memory memory-IsLawful setup 1 first_token "second"
      (record { user_id = 1; token_hash = "second" })
      (create_for_user-verify memory memory-IsLawful setup 1 first_token) refl

abbrev claims : Claims
claims = record { token_type = "access"; sub = 1; sid = some 3 }

abbrev orders_route : Route
orders_route = record {
  is_public = false;
  required_permissions = "orders.read" ∷ [];
  url = "/admin/rental-orders";
}

passed : (can_activate memory orders_route (ok claims) entered).0 ≡ ok (some ann_user)
unfolding can_activate after login ◌>>=◌ find_login_user assert_user_can_login get_auth_session
    validate_access_user to_auth_user
passed = refl

can_activate-IsAllowed_example : IsAllowed memory orders_route (ok claims) entered ann_user
can_activate-IsAllowed_example =
    can_activate-IsAllowed memory orders_route (ok claims) entered ann_user refl passed
