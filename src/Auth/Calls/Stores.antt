-- ===== src/Auth/Calls/Stores.antt =====
-- What each operation on Redis keeps: sessions listed, and failed logins counted below the limit.
use rental_be_nest.Prelude.{ℕ, ◌≡◌, refl, String, none, arith}
use rental_be_nest.Auth.Tables.{AuthSession, VerifiedToken}
use rental_be_nest.Auth.Redis.{
  RedisClient, IsLawful, login_attempt_user, login_attempt_email, user_lock,
  reset_password_rate_limit,
}
use rental_be_nest.Auth.Setup.{Setup, IsSane, AuthState, refresh_ttl_seconds}
use rental_be_nest.Auth.Sessions.{save_auth_session, revoke_session, revoke_all_user_sessions}
use rental_be_nest.Auth.Sessions.Index.{IsIndexed, SameSessions, SameSessions-IsIndexed}
use rental_be_nest.Auth.Sessions.Kept.{save_auth_session-IsIndexed}
use rental_be_nest.Auth.Sessions.Revoked.{
  revoke_session-IsIndexed, revoke_all_user_sessions-IsIndexed, later-IsIndexed,
}
use rental_be_nest.Auth.Sessions.Others.{
  save_auth_session-SameKey, revoke_session-SameKey, revoke_all_user_sessions-SameKey,
  incr_with_ttl-SameKey, incr_with_ttl-SameSessions, record_unknown_login_failure-SameSessions,
  record_user_login_failure-SameSessions, clear_login_failure_counters-SameSessions,
}
use rental_be_nest.Auth.Attempts.{
  incr_with_ttl, record_unknown_login_failure, record_user_login_failure,
  clear_login_failure_counters,
}
use rental_be_nest.Auth.Attempts.Guarded.{
  IsGuarded, SameUser, SameUser-IsGuarded, clear_login_failure_counters-IsGuarded, later-IsGuarded,
}
use rental_be_nest.Auth.Attempts.Failure.{record_user_login_failure-IsGuarded}
use rental_be_nest.Auth.ResetTokens.{create_for_user, check_active, consume}
use rental_be_nest.Auth.ResetTokens.Others.{
  create_for_user-SameSessions, check_active-SameSessions, consume-SameSessions,
  create_for_user-SameKey, check_active-SameKey, consume-SameKey,
}

module _ (R : RedisClient) (c : Setup) where
  pub record IsSoundStore (store : R.Store) : Type 0 where
    pub indexed : IsIndexed R (refresh_ttl_seconds c) store
    pub guarded : IsGuarded R c store

module _ (R : RedisClient) (laws : IsLawful R) (c : Setup) (sane : IsSane c) (store : R.Store)
    (h : IsSoundStore R c store) where
  pub same_sound :
      (store' : R.Store)
      → SameSessions R store store'
      → ((u : ℕ) → SameUser R c u store store')
      → IsSoundStore R c store'
  same_sound store' sessions users = record {
    indexed = SameSessions-IsIndexed R (refresh_ttl_seconds c) store store' sessions h.indexed;
    guarded = SameUser-IsGuarded R c store store' users h.guarded;
  }

  pub save_sound : (s : AuthSession) → IsSoundStore R c (save_auth_session R c s store)
  save_sound s = record {
    indexed = save_auth_session-IsIndexed R laws c sane.lasts s store h.indexed;
    guarded =
        SameUser-IsGuarded R c store _
          (λ u. (
            save_auth_session-SameKey R laws (login_attempt_user u) ((λ i. refl), (λ v. refl)) c s
                store sane.lasts,
            save_auth_session-SameKey R laws (user_lock u) ((λ i. refl), (λ v. refl)) c s store
                sane.lasts,
          ))
          h.guarded;
  }

  pub revoke_sound : (u i : ℕ) → IsSoundStore R c (revoke_session R u i store)
  revoke_sound u i = record {
    indexed = revoke_session-IsIndexed R laws (refresh_ttl_seconds c) u i store h.indexed;
    guarded =
        SameUser-IsGuarded R c store _
          (λ v. (
            revoke_session-SameKey R laws (login_attempt_user v) ((λ i. refl), (λ v. refl)) u i
                store,
            revoke_session-SameKey R laws (user_lock v) ((λ i. refl), (λ v. refl)) u i store,
          ))
          h.guarded;
  }

  pub revoke_all_sound : (u : ℕ) → IsSoundStore R c (revoke_all_user_sessions R u store)
  revoke_all_sound u = record {
    indexed = revoke_all_user_sessions-IsIndexed R laws (refresh_ttl_seconds c) u store h.indexed;
    guarded =
        SameUser-IsGuarded R c store _
          (λ v. (
            revoke_all_user_sessions-SameKey R laws (login_attempt_user v)
                ((λ i. refl), (λ v. refl)) u store,
            revoke_all_user_sessions-SameKey R laws (user_lock v) ((λ i. refl), (λ v. refl)) u
                store,
          ))
          h.guarded;
  }

  pub unknown_sound :
      (email : String) → IsSoundStore R c (record_unknown_login_failure R email store)
  unfolding record_unknown_login_failure
  unknown_sound email =
      same_sound _ (record_unknown_login_failure-SameSessions R laws email store) (λ u. (
        incr_with_ttl-SameKey R laws (login_attempt_user u) (login_attempt_email email) 900 store
            (omega arith) refl,
        incr_with_ttl-SameKey R laws (user_lock u) (login_attempt_email email) 900 store
            (omega arith) refl,
      ))

  pub failure_sound :
      (u : ℕ) (email : String)
      → R.get (user_lock u) store ≡ none
      → IsSoundStore R c (record_user_login_failure R c u email store)
  failure_sound u email unlocked = record {
    indexed =
        SameSessions-IsIndexed R (refresh_ttl_seconds c) store _
          (record_user_login_failure-SameSessions R laws c u email store) h.indexed;
    guarded =
        record_user_login_failure-IsGuarded R laws c sane.allows u email store unlocked h.guarded;
  }

  pub clear_sound :
      (u : ℕ) (email : String) → IsSoundStore R c (clear_login_failure_counters R u email store)
  clear_sound u email = record {
    indexed =
        SameSessions-IsIndexed R (refresh_ttl_seconds c) store _
          (clear_login_failure_counters-SameSessions R laws u email store) h.indexed;
    guarded = clear_login_failure_counters-IsGuarded R laws c u email store h.guarded;
  }

  pub limit_sound :
      (email : String)
      → IsSoundStore R c (incr_with_ttl R (reset_password_rate_limit email) 60 store).1
  limit_sound email =
      same_sound _
        (incr_with_ttl-SameSessions R laws (reset_password_rate_limit email) 60 store (omega arith)
          ((λ i. refl), (λ v. refl)))
        (λ u. (
          incr_with_ttl-SameKey R laws (login_attempt_user u) (reset_password_rate_limit email) 60
              store (omega arith) refl,
          incr_with_ttl-SameKey R laws (user_lock u) (reset_password_rate_limit email) 60 store
              (omega arith) refl,
        ))

  pub consume_sound : (token : VerifiedToken) → IsSoundStore R c (consume R c token store)
  consume_sound token = same_sound _ (consume-SameSessions R laws c token store) (λ u. (
    consume-SameKey R laws c (login_attempt_user u) ((λ i. refl), (λ v. refl)) token store,
    consume-SameKey R laws c (user_lock u) ((λ i. refl), (λ v. refl)) token store,
  ))

  pub later_sound : (t : ℕ) → IsSoundStore R c (R.later t store)
  later_sound t = record {
    indexed = later-IsIndexed R laws (refresh_ttl_seconds c) t store h.indexed;
    guarded = later-IsGuarded R laws c t store h.guarded;
  }

module _ (R : RedisClient) (laws : IsLawful R) (c : Setup) (sane : IsSane c) (w : AuthState R)
    (h : IsSoundStore R c w.redis) where
  pub create_sound : (u : ℕ) → IsSoundStore R c (create_for_user R c u w).1.redis
  create_sound u =
      same_sound R laws c sane w.redis h _ (create_for_user-SameSessions R laws c u w) (λ v. (
        create_for_user-SameKey R laws c (login_attempt_user v) ((λ i. refl), (λ v. refl)) u w,
        create_for_user-SameKey R laws c (user_lock v) ((λ i. refl), (λ v. refl)) u w,
      ))

  pub check_active_sound :
      (hash : String) (u : ℕ) → IsSoundStore R c (check_active R c hash u w).1.redis
  check_active_sound hash u =
      same_sound R laws c sane w.redis h _ (check_active-SameSessions R laws c hash u w) (λ v. (
        check_active-SameKey R laws c (login_attempt_user v) ((λ i. refl), (λ v. refl)) hash u w,
        check_active-SameKey R laws c (user_lock v) ((λ i. refl), (λ v. refl)) hash u w,
      ))
