-- ===== src/Auth/ResetTokens.antt =====
-- src/modules/auth/services/password-reset-token.service.ts.
pub mod Others
pub mod Newest
use rental_be_nest.Prelude.{
  ℕ, ◌+◌, ◌≡◌, String, Bool, true, false, Option, none, some, List, [], ◌∷◌, ◌++◌, str_eq,
  if◌then◌else◌,
}
use rental_be_nest.Result.{Result, ok, err, bad_request, password_reset_token_invalid}
use rental_be_nest.Exec.{Exec, pure, reads, lift, modify, ◌>>=◌}
use rental_be_nest.Auth.Tables.{VerifiedToken}
use rental_be_nest.Auth.Redis.{
  RedisClient, Key, Value, plain, payload_json, password_reset_token, password_reset_user,
}
use rental_be_nest.Auth.Setup.{Setup, AuthState, on_redis}

-- `parsePayload`, whose `catch` answers every text that is not the JSON of a payload.
abbrev pub parse_payload : Value → Result ℕ
parse_payload (payload_json user_id) = ok user_id
parse_payload _ = err (bad_request password_reset_token_invalid)

-- `activeTokenHash === tokenHash`
abbrev pub is_active : Option Value → String → Bool
is_active (some (plain active)) token_hash = str_eq active token_hash
is_active _ token_hash = false

module _ (R : RedisClient) (c : Setup) where
  -- The pipeline's deletion of the token that the user had.
  abbrev pub drop_existing : Option Value → R.Store → R.Store
  drop_existing (some (plain existing)) store = R.del (password_reset_token existing ∷ []) store
  drop_existing _ store = store

  unfoldable pub create_for_user : ℕ → Exec (AuthState R) String
  create_for_user user_id w =
      let raw_token = c.random_token w.next_draw in
      let token_hash = c.hash_reset_token raw_token in
      let seconds = c.reset_expires_in_seconds in
      let dropped = drop_existing (R.get (password_reset_user user_id) w.redis) w.redis in
      let stored = R.set (password_reset_token token_hash) (payload_json user_id) seconds dropped in
      (
        ok raw_token,
        record w {
          redis = R.set (password_reset_user user_id) (plain token_hash) seconds stored;
          next_draw = w.next_draw + 1;
        },
      )

  -- The payload that is stored under the token's hash.
  abbrev pub stored_payload : Option Value → Result ℕ
  stored_payload none = err (bad_request password_reset_token_invalid)
  stored_payload (some raw) = parse_payload raw

  -- The token must be the last that was created for its user.
  unfoldable pub check_active : String → ℕ → Exec (AuthState R) VerifiedToken
  check_active token_hash user_id w =
      if is_active (R.get (password_reset_user user_id) w.redis) token_hash
      then (ok (record { user_id = user_id; token_hash = token_hash }), w)
      else (
        err (bad_request password_reset_token_invalid),
        on_redis R (R.del (password_reset_token token_hash ∷ [])) w,
      )

  unfoldable pub verify : String → Exec (AuthState R) VerifiedToken
  unfolding check_active
  verify token = do
    let token_hash = c.hash_reset_token token
    user_id ← reads (λ w. stored_payload (R.get (password_reset_token token_hash) w.redis))
    check_active token_hash user_id

  unfoldable pub consume : VerifiedToken → R.Store → R.Store
  consume token store =
      R.del (password_reset_token token.token_hash ∷ password_reset_user token.user_id ∷ []) store
