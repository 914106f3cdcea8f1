-- ===== src/Auth/Sessions/Revoked.antt =====
-- Revocations, and the passing of time: what is left of the sessions is listed, and a user whose
-- sessions are revoked has none.
use rental_be_nest.Prelude.{
  ℕ, ◌-◌, ◌≡◌, refl, sym, ap, ◌∙◌, subst, true, false, some, inl, inr, List, [], ◌∷◌, ◌++◌, map,
  arith, any, ltb, includes, ◌==◌, ==_iff, Bool-cases, ltb→lt, lt→ltb,
}
use rental_be_nest.Auth.Redis.{
  RedisClient, IsLawful, Key, session, user_sessions, Value, key_eq, outlives, time_left,
}
use rental_be_nest.Auth.Sessions.{revoke_session, revoke_all_user_sessions}
use rental_be_nest.Auth.Sessions.Index.{IsEntry, IsIndexed}
use rental_be_nest.Auth.Sessions.Kept.{any-session_keys, any-user_keys}

module _ (R : RedisClient) (laws : IsLawful R) (longest : ℕ) where
  -- What a value that is found after a deletion shows.
  pub found-del :
      (k : Key) (ks : List Key) (store : R.Store) (v : Value)
      → R.get k (R.del ks store) ≡ some v
      → (any (key_eq k) ks ≡ false) × (R.get k store ≡ some v)
  found-del k ks store v found =
      let e = sym found ∙ laws.strings.get-del k ks store in
      elim (Bool-cases (any (key_eq k) ks)) [
        | inl t ↦ absurd (ground (arith, e, t))
        | inr f ↦ (f, sym (e ∙ rw (f) refl))
      ]

  pub revoke_session-IsIndexed :
      (user_id session_id : ℕ) (store : R.Store)
      → IsIndexed R longest store
      → IsIndexed R longest (revoke_session R user_id session_id store)
  unfolding revoke_session
  revoke_session-IsIndexed user_id session_id store h sid v found =
      let dropped = R.del (session session_id ∷ []) store in
      let there =
        sym (laws.strings.get-srem (session sid) (user_sessions user_id) session_id dropped refl)
        ∙ found in
      let (other, was) = found-del (session sid) (session session_id ∷ []) store v there in
      let e = h sid v was in
      let same_members : R.smembers (user_sessions e.s.user_id) dropped
          ≡ R.smembers (user_sessions e.s.user_id) store =
        laws.sets.smembers-del (user_sessions e.s.user_id) (session session_id ∷ []) store in
      let listed : includes
            (R.smembers (user_sessions e.s.user_id)
              (R.srem (user_sessions user_id) session_id dropped))
            sid
          ≡ true =
        laws.sets.includes-srem (user_sessions e.s.user_id) (user_sessions user_id) session_id sid
          dropped
        ∙ ground (
          arith,
          ap (λ ids. includes ids sid) same_members ∙ e.listed,
          other,
          ==_iff sid session_id,
          ==_iff session_id sid,
        ) in
      let index_was =
        laws.times.ttl-del (user_sessions e.s.user_id) (session session_id ∷ []) store refl
        ∙ e.index_expires in
      record {
        s = e.s;
        is_json = e.is_json;
        named = e.named;
        listed = listed;
        left = e.left;
        index_left = e.index_left;
        expires =
            laws.times.ttl-srem (session sid) (user_sessions user_id) session_id dropped refl
            ∙ laws.times.ttl-del (session sid) (session session_id ∷ []) store other
            ∙ e.expires;
        index_expires = elim (Bool-cases (e.s.user_id == user_id)) [
          | inl t ↦
              let is_u : e.s.user_id ≡ user_id = (==_iff e.s.user_id user_id).0 t in
              let kept = laws.times.ttl-srem_again (user_sessions user_id) session_id sid dropped (
                subst
                  (λ u.
                    includes
                      (R.smembers (user_sessions u)
                        (R.srem (user_sessions user_id) session_id dropped))
                      sid
                    ≡ true)
                  is_u listed) in
              subst
                (λ u.
                  R.ttl (user_sessions u) (R.srem (user_sessions user_id) session_id dropped)
                  ≡ R.ttl (user_sessions u) dropped)
                (sym is_u) kept
              ∙ index_was
          | inr f ↦
              laws.times.ttl-srem (user_sessions e.s.user_id) (user_sessions user_id) session_id
                dropped f
              ∙ index_was
        ];
        outlived = e.outlived;
        bounded = e.bounded;
      }

  -- What is left after all sessions of a user are revoked was there, for another user.
  pub left_after_revocation :
      (user_id : ℕ) (store : R.Store)
      → IsIndexed R longest store
      → (sid : ℕ) (v : Value)
      → R.get (session sid) (revoke_all_user_sessions R user_id store) ≡ some v
      → (e : IsEntry R longest store sid v) × ((e.s.user_id == user_id) ≡ false)
        × (includes (R.smembers (user_sessions user_id) store) sid ≡ false)
  unfolding revoke_all_user_sessions
  left_after_revocation user_id store h sid v found =
      let ids = R.smembers (user_sessions user_id) store in
      let (other, was) =
        found-del (session sid) (map session ids ++ user_sessions user_id ∷ []) store v found in
      let e = h sid v was in
      let unlisted = sym (any-session_keys ids user_id sid) ∙ other in
      let different : (e.s.user_id == user_id) ≡ false =
        elim (Bool-cases (e.s.user_id == user_id)) [
          | inl t ↦
              let listed =
                subst (λ u. includes (R.smembers (user_sessions u) store) sid ≡ true)
                  ((==_iff e.s.user_id user_id).0 t) e.listed in
              absurd (ground (arith, listed, unlisted))
          | inr f ↦ f
        ] in
      (e, different, unlisted)

  pub revoke_all_user_sessions-IsIndexed :
      (user_id : ℕ) (store : R.Store)
      → IsIndexed R longest store
      → IsIndexed R longest (revoke_all_user_sessions R user_id store)
  unfolding revoke_all_user_sessions
  revoke_all_user_sessions-IsIndexed user_id store h sid v found =
      let ids = R.smembers (user_sessions user_id) store in
      let ks = map session ids ++ user_sessions user_id ∷ [] in
      let (e, different, unlisted) = left_after_revocation user_id store h sid v found in
      let index_kept = any-user_keys ids user_id e.s.user_id ∙ different in
      record {
        s = e.s;
        is_json = e.is_json;
        named = e.named;
        listed =
            ap (λ l. includes l sid)
              (laws.sets.smembers-del (user_sessions e.s.user_id) ks store ∙ rw (index_kept) refl)
            ∙ e.listed;
        left = e.left;
        index_left = e.index_left;
        expires =
            laws.times.ttl-del (session sid) ks store (any-session_keys ids user_id sid ∙ unlisted)
            ∙ e.expires;
        index_expires =
            laws.times.ttl-del (user_sessions e.s.user_id) ks store index_kept ∙ e.index_expires;
        outlived = e.outlived;
        bounded = e.bounded;
      }

  pub later-IsIndexed :
      (t : ℕ) (store : R.Store) → IsIndexed R longest store → IsIndexed R longest (R.later t store)
  later-IsIndexed t store h sid v found =
      let seen = sym found ∙ laws.strings.get-later (session sid) t store in
      elim (Bool-cases (outlives t (R.ttl (session sid) store))) [
        | inr f ↦ absurd (ground (arith, seen, f))
        | inl alive ↦
            let e = h sid v (sym (seen ∙ rw (alive) refl)) in
            let in_time : ltb t e.left ≡ true = sym (ap (outlives t) e.expires) ∙ alive in
            let index_alive : outlives t (R.ttl (user_sessions e.s.user_id) store) ≡ true =
              ap (outlives t) e.index_expires
              ∙ lt→ltb t e.index_left (omega (arith, ltb→lt t e.left in_time, e.outlived)) in
            record {
              s = e.s;
              is_json = e.is_json;
              named = e.named;
              listed =
                  ap (λ l. includes l sid)
                    (laws.sets.smembers-later (user_sessions e.s.user_id) t store
                      ∙ rw (index_alive) refl)
                  ∙ e.listed;
              left = e.left - t;
              index_left = e.index_left - t;
              expires =
                  laws.times.ttl-later (session sid) t store alive ∙ ap (time_left t) e.expires;
              index_expires =
                  laws.times.ttl-later (user_sessions e.s.user_id) t store index_alive
                  ∙ ap (time_left t) e.index_expires;
              outlived = omega (arith, e.outlived);
              bounded = omega (arith, e.bounded);
            }
      ]
