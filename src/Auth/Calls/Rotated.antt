-- ===== src/Auth/Calls/Rotated.antt =====
-- What a refresh that returns has found and done.
use rental_be_nest.Prelude.{ℕ, ◌+◌, ◌≡◌, String, refl, sym, ap, ◌∙◌, subst, false, some, str_eq}
use rental_be_nest.Result.{ok, err, unauthorized, invalid_session, ok-injective}
use rental_be_nest.Exec
use rental_be_nest.Exec.{Exec, pure, reads, ◌>>=◌, reads-ok}
use rental_be_nest.Auth.Tables.{Account, AuthSession, RefreshRequestUser, LoginResult}
use rental_be_nest.Auth.Redis.{RedisClient, IsLawful, session, session_json}
use rental_be_nest.Auth.Setup.{Setup, IsSane, AuthState, on_redis}
use rental_be_nest.Auth.Users.{to_auth_user, find_existing_auth_user}
use rental_be_nest.Auth.Sessions.{
  create_cookie_payload, build_auth_session, save_auth_session, validate_refresh_session,
  rotate_refresh_session, refresh,
}
use rental_be_nest.Auth.Sessions.Rotation.{
  save_auth_session-get, own_token, other_token, IsValidated, validate_refresh_session-IsValidated,
}
use rental_be_nest.Auth.Calls.Stores.{IsSoundStore}

module _ (R : RedisClient) (c : Setup) where
  -- The session with a new refresh token.
  abbrev pub with_new_token : AuthSession → String → ℕ → AuthSession
  with_new_token old token now = record old {
    refresh_token_hash = c.hash_refresh_token token;
    last_used_at = now;
    expires_at = now + c.refresh_max_age;
  }

  pub record IsRotated (user : RefreshRequestUser) (w w' : AuthState R) (r : LoginResult)
      : Type 0 where
    pub old : AuthSession
    pub validated : IsValidated R c user w old
    pub account : Account
    pub can_log_in : find_existing_auth_user R user.sub w ≡ ok account
    pub answer : r.user ≡ to_auth_user account user.sid
    pub state :
        w' ≡ on_redis R (save_auth_session R c (with_new_token old r.cookies.refresh_token w.now)) w
    pub stored :
        R.get (session user.sid) w'.redis
        ≡ some (session_json (with_new_token old r.cookies.refresh_token w.now))
    pub accepted :
        (validate_refresh_session R c
          (record user { refresh_token = r.cookies.refresh_token })
          w').0
        ≡ ok (with_new_token old r.cookies.refresh_token w.now)

  module _ (laws : IsLawful R) (sane : IsSane c) where
    session_name :
        (w : AuthState R) (sid : ℕ) (old : AuthSession)
        → IsSoundStore R c w.redis
        → R.get (session sid) w.redis ≡ some (session_json old)
        → old.session_id ≡ sid
    session_name w sid old s found =
        let e = s.indexed sid (session_json old) found in
        let same : old ≡ e.s = cc (e.is_json) in
        ap (λ (s : AuthSession). s.session_id) same ∙ e.named

    with_new_token-IsRotated :
        (user : RefreshRequestUser) (w : AuthState R) (old : AuthSession) (account : Account)
        → IsSoundStore R c w.redis
        → IsValidated R c user w old
        → find_existing_auth_user R user.sub w ≡ ok account
        → IsRotated user w (rotate_refresh_session R c account.id account.email old w).1 (record {
          user = to_auth_user account old.session_id;
          cookies = create_cookie_payload R c account.id account.email old.session_id w;
        })
    unfolding rotate_refresh_session build_auth_session
    with_new_token-IsRotated user w old account s v can =
        let token =
          (create_cookie_payload R c account.id account.email old.session_id w).refresh_token in
        let next = with_new_token old token w.now in
        let w' = on_redis R (save_auth_session R c next) w in
        let named = session_name w user.sid old s v.stored in
        let there = save_auth_session-get R c laws next w.redis sane.lasts in
        record {
          old = old;
          validated = v;
          account = account;
          can_log_in = can;
          answer = ap (to_auth_user account) named;
          state = refl;
          stored = ap (λ i. R.get (session i) w'.redis) (sym named) ∙ there;
          accepted =
              subst
                (λ sid.
                  (validate_refresh_session R c
                    (record { sub = user.sub; sid = sid; refresh_token = token }) w').0
                  ≡ ok next)
                named
                (subst
                  (λ sub.
                    (validate_refresh_session R c
                      (record { sub = sub; sid = old.session_id; refresh_token = token }) w').0
                    ≡ ok next)
                  v.owned (own_token R c next w' there token refl));
        }

    -- What follows the check of the session.
    abbrev rest : RefreshRequestUser → AuthSession → Exec (AuthState R) LoginResult
    rest user old = do
      account ← reads (find_existing_auth_user R user.sub)
      cookies ← rotate_refresh_session R c account.id account.email old
      pure (record { user = to_auth_user account old.session_id; cookies = cookies })

    rest-IsRotated :
        (user : RefreshRequestUser) (w : AuthState R) (old : AuthSession) (r : LoginResult)
        → IsSoundStore R c w.redis
        → IsValidated R c user w old
        → (rest user old w).0 ≡ ok r
        → IsRotated user w (rest user old w).1 r
    unfolding ◌>>=◌ rotate_refresh_session
    rest-IsRotated user w old r s v h =
        let (account, can, h1, e) = reads-ok (find_existing_auth_user R user.sub) _ w h in
        let made = with_new_token-IsRotated user w old account s v can in
        subst (λ w'. IsRotated user w w' r) (sym e)
          (subst (IsRotated user w (rotate_refresh_session R c account.id account.email old w).1)
            (ok-injective h1) made)

    -- A refresh that returns has found the session of the request, with the digest of the token that
    -- was shown, and its user, who can log in. It gives that session a new token and new times and
    -- leaves all else, and the new token is accepted afterwards.
    pub refresh-IsRotated :
        (user : RefreshRequestUser) (w : AuthState R) (r : LoginResult)
        → IsSoundStore R c w.redis
        → (refresh R c user w).0 ≡ ok r
        → IsRotated user w (refresh R c user w).1 r
    unfolding refresh
    refresh-IsRotated user w r s h =
        let (old, valid, h1, e1) = Exec.bind-ok (validate_refresh_session R c user) _ w h in
        let (v, unchanged) = validate_refresh_session-IsValidated R c user w valid in
        subst (λ w'. IsRotated user w w' r) (sym (e1 ∙ ap (λ w. (rest user old w).1) unchanged))
          (rest-IsRotated user w old r s v (subst (λ w. (rest user old w).0 ≡ ok r) unchanged h1))

    -- After a refresh that returns, the token that it replaced is refused, if the new token has
    -- another digest.
    pub refresh-again :
        (user : RefreshRequestUser) (w : AuthState R) (r : LoginResult)
        → IsSoundStore R c w.redis
        → (refresh R c user w).0 ≡ ok r
        → str_eq
            (c.hash_refresh_token user.refresh_token)
            (c.hash_refresh_token r.cookies.refresh_token)
          ≡ false
        → (refresh R c user (refresh R c user w).1).0 ≡ err (unauthorized invalid_session)
    refresh-again user w r s h other =
        let done = refresh-IsRotated user w r s h in
        let next = with_new_token done.old r.cookies.refresh_token w.now in
        let w' = (refresh R c user w).1 in
        let named = session_name w user.sid done.old s done.validated.stored in
        subst
          (λ sid.
            (refresh R c (record { sub = user.sub; sid = sid; refresh_token = user.refresh_token })
              w').0
            ≡ err (unauthorized invalid_session))
          named
          (subst
            (λ sub.
              (refresh R c
                (record {
                  sub = sub;
                  sid = done.old.session_id;
                  refresh_token = user.refresh_token;
                })
                w').0
              ≡ err (unauthorized invalid_session))
            done.validated.owned
            (other_token R c next w' (ap (λ i. R.get (session i) w'.redis) named ∙ done.stored)
              user.refresh_token other))
