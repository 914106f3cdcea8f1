-- ===== src/Auth/Calls/Revoking.antt =====
-- After a change or a reset of the password, none of the user's sessions is accepted.
use rental_be_nest.Prelude.{
  ℕ, ◌≡◌, ◌⊎◌, String, refl, sym, ap, ◌∙◌, subst, Bool, false, Option, none, some, inl, inr, ◌==◌,
  Option-cases,
}
use rental_be_nest.Result.{
  ok, err, unauthorized, invalid_session, require, bad_request, old_password_not_valid,
}
use rental_be_nest.Exec.{modify, ◌>>=◌, reads-ok, lift-ok}
use rental_be_nest.Auth.Tables.{AuthUser, AuthSession, ChangePasswordDto}
use rental_be_nest.Auth.Redis.{RedisClient, IsLawful, session, Value, session_json}
use rental_be_nest.Auth.Setup.{Setup, AuthState, refresh_ttl_seconds, find_user}
use rental_be_nest.Auth.Users.{not_deleted}
use rental_be_nest.Auth.Sessions.{
  get_auth_session, validate_access_user, validate_refresh_session, refresh,
  revoke_all_user_sessions,
}
use rental_be_nest.Auth.Sessions.Index.{IsIndexed}
use rental_be_nest.Auth.Sessions.Revoked.{left_after_revocation}
use rental_be_nest.Auth.Passwords.{store_password, change_password}
use rental_be_nest.Auth.Calls.Stores.{IsSoundStore}

module _ (R : RedisClient) where
  -- No session of the user is accepted, neither for a request nor to be refreshed.
  pub record IsSignedOut (c : Setup) (u : ℕ) (w : AuthState R) : Type 0 where
    pub refused :
        (sid : ℕ) (is_logout : Bool)
        → (validate_access_user R u sid is_logout w).0 ≡ err (unauthorized invalid_session)
    pub not_refreshed :
        (sid : ℕ) (token : String)
        → (refresh R c (record { sub = u; sid = sid; refresh_token = token }) w).0
          ≡ err (unauthorized invalid_session)

  -- What is stored is no session of the user.
  abbrev pub IsForeign : ℕ → Option Value → Type 0
  IsForeign u found =
      (found ≡ none)
      ⊎ ((s : AuthSession) × (found ≡ some (session_json s)) × ((s.user_id == u) ≡ false))

  foreign_is_refused :
      (u sid : ℕ) (is_logout : Bool) (w : AuthState R)
      → IsForeign u (R.get (session sid) w.redis)
      → (validate_access_user R u sid is_logout w).0 ≡ err (unauthorized invalid_session)
  unfolding validate_access_user get_auth_session ◌>>=◌
  foreign_is_refused u sid is_logout w (inl e) = rw (e) refl
  foreign_is_refused u sid is_logout w (inr (s, e, f)) = rw (e, f) refl

  foreign_is_not_refreshed :
      (c : Setup) (u sid : ℕ) (token : String) (w : AuthState R)
      → IsForeign u (R.get (session sid) w.redis)
      → (refresh R c (record { sub = u; sid = sid; refresh_token = token }) w).0
        ≡ err (unauthorized invalid_session)
  unfolding refresh validate_refresh_session get_auth_session ◌>>=◌
  foreign_is_not_refreshed c u sid token w (inl e) = rw (e) refl
  foreign_is_not_refreshed c u sid token w (inr (s, e, f)) = rw (e, f) refl

  pub all_foreign-IsSignedOut :
      (c : Setup) (u : ℕ) (w : AuthState R)
      → ((sid : ℕ) → IsForeign u (R.get (session sid) w.redis))
      → IsSignedOut c u w
  all_foreign-IsSignedOut c u w h = record {
    refused = λ sid is_logout. foreign_is_refused u sid is_logout w (h sid);
    not_refreshed = λ sid token. foreign_is_not_refreshed c u sid token w (h sid);
  }

  module _ (laws : IsLawful R) where
    pub revoke_all_user_sessions-IsForeign :
        (longest u : ℕ) (store : R.Store)
        → IsIndexed R longest store
        → (sid : ℕ) → IsForeign u (R.get (session sid) (revoke_all_user_sessions R u store))
    revoke_all_user_sessions-IsForeign longest u store h sid =
        elim (Option-cases (R.get (session sid) (revoke_all_user_sessions R u store))) [
          | inl e ↦ inl e
          | inr (v, found) ↦
              let (e, other, _) = left_after_revocation R laws longest u store h sid v found in
              inr (e.s, found ∙ ap some e.is_json, other)
        ]

    -- A change of the password that returns signs the user out everywhere: whatever session and
    -- token are shown afterwards, a request and a refresh are refused as an invalid session.
    pub change_password-IsSignedOut :
        (c : Setup) (user : AuthUser) (dto : ChangePasswordDto) (w : AuthState R)
        → IsSoundStore R c w.redis
        → (change_password R c user dto w).0 ≡ ok tt
        → IsSignedOut c user.id (change_password R c user dto w).1
    unfolding change_password store_password modify ◌>>=◌
    change_password-IsSignedOut c user dto w s h =
        let (found, _, h1, e1) = reads-ok (λ w. not_deleted (find_user R user.id w)) _ w h in
        let (_, _, _, e2) =
          lift-ok
            (require (c.compare dto.old_password found.password_hash)
              (bad_request old_password_not_valid))
            _ w h1 in
        subst (IsSignedOut c user.id) (sym (e1 ∙ e2)) (
          all_foreign-IsSignedOut c user.id _
            (revoke_all_user_sessions-IsForeign (refresh_ttl_seconds c) user.id w.redis s.indexed))
