-- ===== src/Auth/Sessions/Rotation.antt =====
-- A session that is saved is accepted with its own refresh token, and with no other.
use text.Mathlib.TextPositions.{eq_refl}
use rental_be_nest.Prelude.{
  ℕ, ◌<◌, ◌≡◌, String, refl, sym, ap, ◌∙◌, subst, true, false, Option, none, some, inl, inr, arith,
  ◌==◌, ==_iff, ==_refl, Bool-cases, str_eq,
}
use rental_be_nest.Result.{
  ok, err, unauthorized, invalid_session, require, require-ok, ok-injective,
}
use rental_be_nest.Exec.{pure, ◌>>=◌, reads-ok, lift-ok}
use rental_be_nest.Auth.Tables.{AuthSession, RefreshRequestUser}
use rental_be_nest.Auth.Redis.{
  RedisClient, IsLawful, session, Value, session_json, plain, number, payload_json,
}
use rental_be_nest.Auth.Setup.{Setup, AuthState}
use rental_be_nest.Auth.Sessions.{
  save_auth_session, is_refresh_token_hash_valid, parse_session, get_auth_session, session_of,
  validate_refresh_session, refresh,
}
use rental_be_nest.Auth.Sessions.Kept.{get-saved}

pub parse_session-ok :
    (R : RedisClient) (v : Option Value) (s : AuthSession)
    → parse_session R v ≡ ok (some s)
    → v ≡ some (session_json s)
parse_session-ok R none s e = cc
parse_session-ok R (some (session_json a)) s e = cc
parse_session-ok R (some (plain a)) s e = cc
parse_session-ok R (some (number a)) s e = cc
parse_session-ok R (some (payload_json a)) s e = cc

pub session_of-ok :
    (R : RedisClient) (u : ℕ) (found : Option AuthSession) (s : AuthSession)
    → session_of R u found ≡ ok s
    → (found ≡ some s) × (s.user_id ≡ u)
session_of-ok R u none s e = cc
session_of-ok R u (some a) s e = elim (Bool-cases (a.user_id == u)) [
  | inl t ↦
      let same : a ≡ s = ground (arith, e, t) in
      (ap some same, ap (λ (s : AuthSession). s.user_id) (sym same) ∙ (==_iff a.user_id u).0 t)
  | inr f ↦ absurd (ground (arith, e, f))
]

module _ (R : RedisClient) (c : Setup) where
  pub save_auth_session-get :
      (laws : IsLawful R) (s : AuthSession) (store : R.Store)
      → 0 < c.refresh_max_age
      → R.get (session s.session_id) (save_auth_session R c s store) ≡ some (session_json s)
  unfolding save_auth_session
  save_auth_session-get laws s store lasts =
      get-saved R laws c lasts s store s.session_id ∙ rw (==_refl s.session_id) refl

  module _ (s : AuthSession) (w : AuthState R)
      (there : R.get (session s.session_id) w.redis ≡ some (session_json s)) (token : String) where
    -- The session's own token is accepted.
    pub own_token :
        c.hash_refresh_token token ≡ s.refresh_token_hash
        → (validate_refresh_session R c
            (record { sub = s.user_id; sid = s.session_id; refresh_token = token })
            w).0
          ≡ ok s
    unfolding validate_refresh_session get_auth_session ◌>>=◌
    own_token same = rw (there, ==_refl s.user_id, same, eq_refl) refl

    -- A token with another digest is not.
    pub other_token :
        str_eq (c.hash_refresh_token token) s.refresh_token_hash ≡ false
        → (refresh R c (record { sub = s.user_id; sid = s.session_id; refresh_token = token }) w).0
          ≡ err (unauthorized invalid_session)
    unfolding refresh validate_refresh_session get_auth_session ◌>>=◌
    other_token other = rw (there, ==_refl s.user_id, other) refl

  -- What a session that is validated shows.
  pub record IsValidated (user : RefreshRequestUser) (w : AuthState R) (s : AuthSession)
      : Type 0 where
    pub stored : R.get (session user.sid) w.redis ≡ some (session_json s)
    pub owned : s.user_id ≡ user.sub
    pub fits : str_eq (c.hash_refresh_token user.refresh_token) s.refresh_token_hash ≡ true

  pub validate_refresh_session-IsValidated :
      (user : RefreshRequestUser) (w : AuthState R) {s : AuthSession}
      → (validate_refresh_session R c user w).0 ≡ ok s
      → IsValidated user w s × ((validate_refresh_session R c user w).1 ≡ w)
  unfolding validate_refresh_session get_auth_session pure
  validate_refresh_session-IsValidated user w {s} h =
      let (found, is_found, h1, e1) = reads-ok (get_auth_session R user.sid) _ w h in
      let (a, is_a, h2, e2) = lift-ok (session_of R user.sub found) _ w h1 in
      let (_, fits, h3, e3) =
        lift-ok
          (require (is_refresh_token_hash_valid R c user.refresh_token a.refresh_token_hash)
            (unauthorized invalid_session))
          _ w h2 in
      let same : a ≡ s = ok-injective h3 in
      let (is_some, owned) = session_of-ok R user.sub found a is_a in
      (
        record {
          stored = parse_session-ok R _ s (is_found ∙ ap ok (is_some ∙ ap some same));
          owned = ap (λ (s : AuthSession). s.user_id) (sym same) ∙ owned;
          fits =
              subst
                (λ (s : AuthSession).
                  str_eq (c.hash_refresh_token user.refresh_token) s.refresh_token_hash ≡ true)
                same (require-ok _ _ fits);
        },
        e1 ∙ e2 ∙ e3,
      )
