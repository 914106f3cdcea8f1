-- ===== src/Auth/Sessions/Kept.antt =====
-- How the operations on sessions keep them listed.
use rental_be_nest.Prelude.{
  ℕ, ◌<◌, ◌≡◌, refl, sym, ap, ◌∙◌, true, false, some, inl, inr, List, [], ◌∷◌, ◌++◌, map, arith,
  any, includes, ◌&&◌, ◌||◌, ◌==◌, ==_iff, ==_refl, Bool-cases, if◌then◌else◌,
}
use rental_be_nest.Auth.Tables.{AuthSession}
use rental_be_nest.Auth.Redis.{
  RedisClient, IsLawful, session, user_sessions, Value, session_json, key_eq,
}
use rental_be_nest.Auth.Setup.{Setup, refresh_ttl_seconds}
use rental_be_nest.Auth.Sessions.{save_auth_session}
use rental_be_nest.Auth.Sessions.Index.{IsEntry, IsIndexed}

pub refresh_ttl_seconds_pos : (c : Setup) → 0 < c.refresh_max_age → 0 < refresh_ttl_seconds c
refresh_ttl_seconds_pos c h = omega arith

pub any-session_keys :
    (ids : List ℕ) (u sid : ℕ)
    → any (key_eq (session sid)) (map session ids ++ user_sessions u ∷ []) ≡ includes ids sid
any-session_keys [] u sid = refl
any-session_keys (i ∷ ids) u sid =
    ground (arith, any-session_keys ids u sid, ==_iff sid i, ==_iff i sid)

pub any-user_keys :
    (ids : List ℕ) (u v : ℕ)
    → any (key_eq (user_sessions v)) (map session ids ++ user_sessions u ∷ []) ≡ (v == u)
any-user_keys [] u v = ground arith
any-user_keys (i ∷ ids) u v = any-user_keys ids u v

module _ (R : RedisClient) (laws : IsLawful R) where
  module _ (c : Setup) (lasts : 0 < c.refresh_max_age) (s : AuthSession) (store : R.Store) where
    abbrev pub seconds : ℕ
    seconds = refresh_ttl_seconds c

    abbrev pub stored : R.Store
    stored = R.set (session s.session_id) (session_json s) seconds store

    abbrev pub added : R.Store
    added = R.sadd (user_sessions s.user_id) s.session_id stored

    abbrev pub saved : R.Store
    saved = R.expire (user_sessions s.user_id) seconds added

    pub get-saved :
        (sid : ℕ)
        → R.get (session sid) saved
          ≡ (if sid == s.session_id then some (session_json s) else R.get (session sid) store)
    get-saved sid =
        laws.strings.get-expire (session sid) (user_sessions s.user_id) seconds added
          (refresh_ttl_seconds_pos c lasts)
        ∙ laws.strings.get-sadd (session sid) (user_sessions s.user_id) s.session_id stored refl
        ∙ laws.strings.get-set (session sid) (session s.session_id) (session_json s) seconds store

    ttl-saved :
        (sid : ℕ)
        → R.ttl (session sid) saved
          ≡ (if sid == s.session_id then some seconds else R.ttl (session sid) store)
    ttl-saved sid =
        laws.times.ttl-expire (session sid) (user_sessions s.user_id) seconds added refl
        ∙ laws.times.ttl-sadd (session sid) (user_sessions s.user_id) s.session_id stored refl
        ∙ laws.times.ttl-set (session sid) (session s.session_id) (session_json s) seconds store

    includes-saved :
        (u sid : ℕ)
        → includes (R.smembers (user_sessions u) saved) sid ≡ (
            (u == s.user_id && s.session_id == sid)
            || includes (R.smembers (user_sessions u) store) sid)
    includes-saved u sid =
        ap (λ ids. includes ids sid)
          (laws.sets.smembers-expire (user_sessions u) (user_sessions s.user_id) seconds added
            (refresh_ttl_seconds_pos c lasts))
        ∙ laws.sets.includes-sadd (user_sessions u) (user_sessions s.user_id) s.session_id sid
            stored
        ∙ ap (λ ids. (u == s.user_id && s.session_id == sid) || includes ids sid)
            (laws.sets.smembers-set (user_sessions u) (session s.session_id) (session_json s)
              seconds store refl)

    index-saved :
        (u : ℕ)
        → R.ttl (user_sessions u) saved
          ≡ (if u == s.user_id then some seconds else R.ttl (user_sessions u) store)
    index-saved u = elim (Bool-cases (u == s.user_id)) [
      | inl t ↦
          let member : includes (R.smembers (user_sessions s.user_id) added) s.session_id ≡ true =
            laws.sets.includes-sadd (user_sessions s.user_id) (user_sessions s.user_id) s.session_id
              s.session_id stored
            ∙ ground (arith, ==_refl s.user_id, ==_refl s.session_id) in
          let is_u : u ≡ s.user_id = (==_iff u s.user_id).0 t in
          rw (t) (
            ap (λ v. R.ttl (user_sessions v) saved) is_u
            ∙ laws.times.ttl-expire_set (user_sessions s.user_id) seconds s.session_id added member)
      | inr f ↦ rw (f) (
          laws.times.ttl-expire (user_sessions u) (user_sessions s.user_id) seconds added f
          ∙ laws.times.ttl-sadd (user_sessions u) (user_sessions s.user_id) s.session_id stored f
          ∙ laws.times.ttl-set (user_sessions u) (session s.session_id) (session_json s) seconds
              store)
    ]

    -- The new entry.
    saved-IsEntry :
        (sid : ℕ) (v : Value)
        → (sid == s.session_id) ≡ true
        → v ≡ session_json s
        → IsEntry R seconds saved sid v
    saved-IsEntry sid v t is_json = record {
      s = s;
      is_json = is_json;
      named = sym ((==_iff sid s.session_id).0 t);
      listed =
          includes-saved s.user_id sid
          ∙ ground (arith, ==_refl s.user_id, ==_iff sid s.session_id, ==_iff s.session_id sid, t);
      left = seconds;
      index_left = seconds;
      expires = ttl-saved sid ∙ rw (t) refl;
      index_expires = index-saved s.user_id ∙ rw (==_refl s.user_id) refl;
      outlived = omega arith;
      bounded = omega arith;
    }

    -- An entry that was there. Its user's set now expires no earlier.
    kept-IsEntry :
        (sid : ℕ) (v : Value)
        → (sid == s.session_id) ≡ false
        → IsEntry R seconds store sid v
        → IsEntry R seconds saved sid v
    kept-IsEntry sid v f e =
        let listed = includes-saved e.s.user_id sid ∙ ground (arith, e.listed) in
        let expires = ttl-saved sid ∙ rw (f) e.expires in
        elim (Bool-cases (e.s.user_id == s.user_id)) [
          | inl t ↦ record {
            s = e.s;
            is_json = e.is_json;
            named = e.named;
            listed = listed;
            left = e.left;
            index_left = seconds;
            expires = expires;
            index_expires = index-saved e.s.user_id ∙ rw (t) refl;
            outlived = e.bounded;
            bounded = e.bounded;
          }
          | inr o ↦ record {
            s = e.s;
            is_json = e.is_json;
            named = e.named;
            listed = listed;
            left = e.left;
            index_left = e.index_left;
            expires = expires;
            index_expires = index-saved e.s.user_id ∙ rw (o) e.index_expires;
            outlived = e.outlived;
            bounded = e.bounded;
          }
        ]

    pub save_auth_session-IsIndexed :
        IsIndexed R (refresh_ttl_seconds c) store
        → IsIndexed R (refresh_ttl_seconds c) (save_auth_session R c s store)
    unfolding save_auth_session
    save_auth_session-IsIndexed h sid v found = elim (Bool-cases (sid == s.session_id)) [
      | inl t ↦
          let there : some v ≡ some (session_json s) = sym found ∙ get-saved sid ∙ rw (t) refl in
          saved-IsEntry sid v t (cc)
      | inr f ↦
          let there : R.get (session sid) store ≡ some v =
            sym (get-saved sid ∙ rw (f) refl) ∙ found in
          kept-IsEntry sid v f (h sid v there)
    ]
