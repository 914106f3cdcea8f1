-- ===== src/Auth/ResetTokens/Newest.antt =====
-- Only the last token that was created for a user is accepted.
use text.Mathlib.TextPositions.{eq_refl}
use rental_be_nest.Prelude.{ℕ, ◌≡◌, String, refl, ◌∙◌, subst, some, ==_refl}
use rental_be_nest.Result.{ok}
use rental_be_nest.Exec.{◌>>=◌}
use rental_be_nest.Auth.Tables.{VerifiedToken}
use rental_be_nest.Auth.Redis.{
  RedisClient, IsLawful, plain, payload_json, password_reset_token, password_reset_user,
}
use rental_be_nest.Auth.Setup.{Setup, AuthState}
use rental_be_nest.Auth.Calls.Resetting.{verify-IsVerified}
use rental_be_nest.Auth.ResetTokens.{drop_existing, create_for_user, check_active, verify}

module _ (R : RedisClient) (laws : IsLawful R) (c : Setup) (u : ℕ) (w : AuthState R) where
  abbrev new_hash : String
  new_hash = c.hash_reset_token (c.random_token w.next_draw)

  abbrev dropped : R.Store
  dropped = drop_existing R c (R.get (password_reset_user u) w.redis) w.redis

  abbrev stored : R.Store
  stored = R.set (password_reset_token new_hash) (payload_json u) c.reset_expires_in_seconds dropped

  -- A token that is created is accepted as its user's.
  pub create_for_user-verify :
      (verify R c (c.random_token w.next_draw) (create_for_user R c u w).1).0
      ≡ ok (record { user_id = u; token_hash = new_hash })
  unfolding create_for_user verify check_active ◌>>=◌
  create_for_user-verify =
      let payload : R.get (password_reset_token new_hash) (create_for_user R c u w).1.redis
          ≡ some (payload_json u) =
        laws.strings.get-set (password_reset_token new_hash) (password_reset_user u)
          (plain new_hash) c.reset_expires_in_seconds stored
        ∙ laws.strings.get-set (password_reset_token new_hash) (password_reset_token new_hash)
            (payload_json u) c.reset_expires_in_seconds dropped
        ∙ rw (eq_refl) refl in
      let active : R.get (password_reset_user u) (create_for_user R c u w).1.redis
          ≡ some (plain new_hash) =
        laws.strings.get-set (password_reset_user u) (password_reset_user u) (plain new_hash)
          c.reset_expires_in_seconds stored
        ∙ rw (==_refl u) refl in
      rw (payload, active, eq_refl) refl

  -- Once a token is created for a user, each token that is accepted as that user's has the digest of
  -- the new one.
  pub create_for_user-newest :
      (token : String) (t : VerifiedToken)
      → (verify R c token (create_for_user R c u w).1).0 ≡ ok t
      → t.user_id ≡ u
      → c.hash_reset_token token ≡ new_hash
  unfolding create_for_user
  create_for_user-newest token t h is_u =
      let (verified, _) = verify-IsVerified R c token (create_for_user R c u w).1 h in
      let w' = (create_for_user R c u w).1 in
      let last =
        subst
          (λ u. R.get (password_reset_user u) w'.redis ≡ some (plain (c.hash_reset_token token)))
          is_u verified.last in
      let active : R.get (password_reset_user u) w'.redis ≡ some (plain new_hash) =
        laws.strings.get-set (password_reset_user u) (password_reset_user u) (plain new_hash)
          c.reset_expires_in_seconds stored
        ∙ rw (==_refl u) refl in
      cc (last, active)
