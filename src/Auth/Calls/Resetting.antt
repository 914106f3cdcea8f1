-- ===== src/Auth/Calls/Resetting.antt =====
-- What a reset of the password that returns has found and done.
use text.Mathlib.TextEquality.{eq_iff}
use text.Mathlib.TextPositions.{eq_refl}
use rental_be_nest.Prelude.{
  ℕ, ◌≡◌, String, refl, sym, ap, ◌∙◌, subst, true, Option, none, some, inl, inr, [], ◌∷◌, arith,
  Bool-cases, str_eq,
}
use rental_be_nest.Result.{
  ok, err, bad_request, require, require-ok, ok-injective, password_confirm_not_match,
  password_reset_token_invalid,
}
use rental_be_nest.Exec
use rental_be_nest.Exec.{Exec, pure, reads, lift, modify, ◌>>=◌, reads-ok, lift-ok}
use rental_be_nest.Auth.Tables.{Account, ResetPasswordDto, VerifiedToken}
use rental_be_nest.Auth.Redis.{
  RedisClient, IsLawful, Value, plain, number, session_json, payload_json, password_reset_token,
  password_reset_user,
}
use rental_be_nest.Auth.Setup.{
  Setup, AuthState, refresh_ttl_seconds, find_user, update_user, on_redis,
}
use rental_be_nest.Auth.Users.{assert_user_can_login}
use rental_be_nest.Auth.Sessions.{revoke_all_user_sessions}
use rental_be_nest.Auth.Sessions.Others.{revoke_all_user_sessions-SameKey}
use rental_be_nest.Auth.Sessions.Index.{SameSessions-IsIndexed}
use rental_be_nest.Auth.ResetTokens.{is_active, stored_payload, check_active, verify, consume}
use rental_be_nest.Auth.ResetTokens.Others.{consume-SameSessions}
use rental_be_nest.Auth.Login.{undeleted}
use rental_be_nest.Auth.Passwords.{
  with_password, store_password, reset_user_password, reset_password,
}
use rental_be_nest.Auth.Calls.Revoking.{
  IsSignedOut, all_foreign-IsSignedOut, revoke_all_user_sessions-IsForeign,
}
use rental_be_nest.Auth.Calls.Stores.{IsSoundStore}

is_active-plain : (v : Option Value) (h : String) → is_active v h ≡ true → v ≡ some (plain h)
is_active-plain none h e = cc
is_active-plain (some (plain a)) h e = ap (λ a. some (plain a)) ((eq_iff a h).0 e)
is_active-plain (some (number n)) h e = cc
is_active-plain (some (session_json s)) h e = cc
is_active-plain (some (payload_json u)) h e = cc

module _ (R : RedisClient) (c : Setup) where
  stored_payload-ok :
      (v : Option Value) (u : ℕ) → stored_payload R c v ≡ ok u → v ≡ some (payload_json u)
  stored_payload-ok none u e = cc
  stored_payload-ok (some (plain a)) u e = cc
  stored_payload-ok (some (number n)) u e = cc
  stored_payload-ok (some (session_json s)) u e = cc
  stored_payload-ok (some (payload_json v)) u e = cc

  -- A token that is verified is stored for its user, as the user's last one, and nothing changes.
  pub record IsVerified (raw : String) (w : AuthState R) (token : VerifiedToken) : Type 0 where
    pub token_hash : token.token_hash ≡ c.hash_reset_token raw
    pub stored :
        R.get (password_reset_token (c.hash_reset_token raw)) w.redis
        ≡ some (payload_json token.user_id)
    pub last :
        R.get (password_reset_user token.user_id) w.redis ≡ some (plain (c.hash_reset_token raw))

  check_active-ok :
      (h : String) (u : ℕ) (w : AuthState R) {token : VerifiedToken}
      → (check_active R c h u w).0 ≡ ok token
      → (token ≡ record { user_id = u; token_hash = h })
        × (R.get (password_reset_user u) w.redis ≡ some (plain h))
        × ((check_active R c h u w).1 ≡ w)
  unfolding check_active
  check_active-ok h u w {token} e =
      elim (Bool-cases (is_active (R.get (password_reset_user u) w.redis) h)) [
        | inl t ↦ (ground (arith, e, t), is_active-plain _ h t, rw (t) refl)
        | inr f ↦ absurd (ground (arith, e, f))
      ]

  pub verify-IsVerified :
      (raw : String) (w : AuthState R) {token : VerifiedToken}
      → (verify R c raw w).0 ≡ ok token
      → IsVerified raw w token × ((verify R c raw w).1 ≡ w)
  unfolding verify
  verify-IsVerified raw w {token} h =
      let (u, found, h1, e1) =
        reads-ok
          (λ w. stored_payload R c (R.get (password_reset_token (c.hash_reset_token raw)) w.redis))
          (check_active R c (c.hash_reset_token raw)) w h in
      let (same, last, e2) = check_active-ok (c.hash_reset_token raw) u w h1 in
      let is_u : token.user_id ≡ u = ap (λ (t : VerifiedToken). t.user_id) same in
      (
        record {
          token_hash = ap (λ (t : VerifiedToken). t.token_hash) same;
          stored = stored_payload-ok _ u found ∙ ap (λ u. some (payload_json u)) (sym is_u);
          last = ap (λ u. R.get (password_reset_user u) w.redis) is_u ∙ last;
        },
        e1 ∙ e2,
      )

  -- A token that is not stored is refused.
  missing_token :
      (raw : String) (w : AuthState R)
      → R.get (password_reset_token (c.hash_reset_token raw)) w.redis ≡ none
      → (verify R c raw w).0 ≡ err (bad_request password_reset_token_invalid)
  unfolding verify ◌>>=◌
  missing_token raw w e = rw (e) refl

  pub record IsReset (dto : ResetPasswordDto) (w w' : AuthState R) : Type 0 where
    pub confirmed : str_eq dto.new_password dto.confirm_password ≡ true
    pub token : VerifiedToken
    pub verified : IsVerified dto.token w token
    pub user : Account
    pub found : undeleted (find_user R token.user_id w) ≡ some user
    pub users :
        w'.users
        ≡ (update_user R user.id (with_password (c.hash dto.new_password w.next_draw)) w).users
    pub used_up : (verify R c dto.token w').0 ≡ err (bad_request password_reset_token_invalid)
    pub signed_out : IsSignedOut R c user.id w'

  module _ (laws : IsLawful R) where
    -- The state that a reset leaves.
    abbrev reset_state : Account → VerifiedToken → String → AuthState R → AuthState R
    reset_state user token password w =
        on_redis R (revoke_all_user_sessions R user.id)
          (on_redis R (consume R c token) (store_password R c user.id password w))

    consumed_token :
        (user : Account) (raw password : String) (token : VerifiedToken) (w : AuthState R)
        → token.token_hash ≡ c.hash_reset_token raw
        → R.get
            (password_reset_token (c.hash_reset_token raw))
            (reset_state user token password w).redis
          ≡ none
    unfolding store_password consume
    consumed_token user raw password token w is_hash =
        let k = password_reset_token (c.hash_reset_token raw) in
        let ks = password_reset_token token.token_hash ∷ password_reset_user token.user_id ∷ [] in
        (revoke_all_user_sessions-SameKey R laws k ((λ i. refl), (λ u. refl)) user.id
          (R.del ks w.redis)).get
        ∙ laws.strings.get-del k ks w.redis
        ∙ rw (is_hash, eq_refl) refl

    reset_user_password-ok :
        (found : Option Account) (token : VerifiedToken) (password : String) (w : AuthState R)
        → (reset_user_password R c found token password w).0 ≡ ok tt
        → (user : Account) × (found ≡ some user)
          × ((reset_user_password R c found token password w).1 ≡ reset_state user token password w)
    unfolding reset_user_password ◌>>=◌
    reset_user_password-ok none token password w h = cc
    reset_user_password-ok (some user) token password w h =
        let (_, _, _, e) = lift-ok (assert_user_can_login user.activity_status) _ w h in
        (user, refl, e)

    reset_state-IsReset :
        (dto : ResetPasswordDto) (w : AuthState R) (token : VerifiedToken) (user : Account)
        → IsSoundStore R c w.redis
        → str_eq dto.new_password dto.confirm_password ≡ true
        → IsVerified dto.token w token
        → undeleted (find_user R token.user_id w) ≡ some user
        → IsReset dto w (reset_state user token dto.new_password w)
    unfolding store_password
    reset_state-IsReset dto w token user s confirmed verified found = record {
      confirmed = confirmed;
      token = token;
      verified = verified;
      user = user;
      found = found;
      users = refl;
      used_up =
          missing_token dto.token (reset_state user token dto.new_password w)
            (consumed_token user dto.token dto.new_password token w verified.token_hash);
      signed_out = all_foreign-IsSignedOut R c user.id (reset_state user token dto.new_password w) (
          revoke_all_user_sessions-IsForeign R laws (refresh_ttl_seconds c) user.id
            (consume R c token w.redis)
            (SameSessions-IsIndexed R (refresh_ttl_seconds c) w.redis (consume R c token w.redis)
              (consume-SameSessions R laws c token w.redis) s.indexed));
    }

    -- A reset that returns has found the token stored, as the last one of a user who is not deleted.
    -- It has stored the hash of the new password, the token is refused from then on, and all
    -- sessions of the user are refused too.
    pub reset_password-IsReset :
        (dto : ResetPasswordDto) (w : AuthState R)
        → IsSoundStore R c w.redis
        → (reset_password R c dto w).0 ≡ ok tt
        → IsReset dto w (reset_password R c dto w).1
    unfolding reset_password
    reset_password-IsReset dto w s h =
        let (_, same, h1, e1) =
          lift-ok
            (require (str_eq dto.new_password dto.confirm_password)
              (bad_request password_confirm_not_match))
            _ w h in
        let (token, checked, h2, e2) = Exec.bind-ok (verify R c dto.token) _ w h1 in
        let (verified, unchanged) = verify-IsVerified dto.token w checked in
        let (found, is_found, h3, e3) =
          reads-ok (λ w. ok (undeleted (find_user R token.user_id w))) _ (verify R c dto.token w).1
            h2 in
        let (user, is_user, e4) = reset_user_password-ok found token dto.new_password w (
          subst (λ w. (reset_user_password R c found token dto.new_password w).0 ≡ ok tt) unchanged
            h3) in
        let there : undeleted (find_user R token.user_id w) ≡ some user =
          subst (λ w. undeleted (find_user R token.user_id w) ≡ found) unchanged
            (ok-injective is_found)
          ∙ is_user in
        let last_step =
          subst
            (λ w1.
              (reset_user_password R c found token dto.new_password w1).1
              ≡ reset_state user token dto.new_password w)
            (sym unchanged) e4 in
        subst (IsReset dto w) (sym (e1 ∙ e2 ∙ e3 ∙ last_step))
          (reset_state-IsReset dto w token user s (require-ok _ _ same) verified there)
