-- ===== src/Examples/Memory.antt =====
-- A Redis server in memory, which meets the laws.
use text.Mathlib.TextPositions.{eq_refl}
use rental_be_nest.Prelude.{
  ℕ, suc, ◌+◌, ◌≡◌, refl, ap, Bool, true, false, not, ◌&&◌, ◌||◌, Option, none, some, List, [], ◌∷◌,
  arith, any, keep, includes, ◌or_else◌, inl, inr, Bool-cases, ==_iff, ==_refl, ◌==◌, if◌then◌else◌,
}
use rental_be_nest.Auth.Redis.{
  RedisClient, StringLaws, SetLaws, TtlLaws, IsLawful, Key, Value, number, key_eq, holds_text,
  count_at, outlives, time_left,
}

pub record Memory : Type 0 where
  pub texts : Key → Option Value
  pub sets : Key → List ℕ
  pub ttls : Key → Option ℕ

abbrev is_some : Option Value → Bool
is_some none = false
is_some (some v) = true

abbrev has_member : List ℕ → Bool
has_member [] = false
has_member (i ∷ ids) = true

abbrev without : ℕ → List ℕ → List ℕ
without a ids = keep (λ i. not (i == a)) ids

abbrev pub empty_memory : Memory
empty_memory = record { texts = λ k. none; sets = λ k. []; ttls = λ k. none }

abbrev counted : Key → Memory → ℕ
counted k m = suc (count_at (m.texts k) or_else 0)

abbrev pub memory : RedisClient
memory = record {
  Store = Memory;
  get = λ k m. m.texts k;
  set = λ k v t m. record {
    texts = λ j. if key_eq j k then some v else m.texts j;
    sets = λ j. if key_eq j k then [] else m.sets j;
    ttls = λ j. if key_eq j k then some t else m.ttls j;
  };
  del = λ ks m. record {
    texts = λ j. if any (key_eq j) ks then none else m.texts j;
    sets = λ j. if any (key_eq j) ks then [] else m.sets j;
    ttls = λ j. if any (key_eq j) ks then none else m.ttls j;
  };
  incr = λ k m. (
    counted k m,
    record m { texts = λ j. if key_eq j k then some (number (counted k m)) else m.texts j },
  );
  exists = λ k m. is_some (m.texts k) || (not (holds_text k) && has_member (m.sets k));
  expire = λ k t m. record m { ttls = λ j. if key_eq j k then some t else m.ttls j };
  sadd = λ k a m. record m { sets = λ j. if key_eq j k then a ∷ m.sets j else m.sets j };
  srem = λ k a m. record m { sets = λ j. if key_eq j k then without a (m.sets j) else m.sets j };
  smembers = λ k m. m.sets k;
  ttl = λ k m. m.ttls k;
  later = λ t m. record {
    texts = λ j. if outlives t (m.ttls j) then m.texts j else none;
    sets = λ j. if outlives t (m.ttls j) then m.sets j else [];
    ttls = λ j. if outlives t (m.ttls j) then time_left t (m.ttls j) else none;
  };
}

includes-without :
    (a : ℕ) (ids : List ℕ) (b : ℕ) → includes (without a ids) b ≡ (not (a == b) && includes ids b)
includes-without a [] b = ground arith
includes-without a (i ∷ ids) b =
    ground (arith, includes-without a ids b, ==_iff i a, ==_iff i b, ==_iff a b)

key_eq_refl : (k : Key) → key_eq k k ≡ true
key_eq_refl (Key.password_reset_token a) = eq_refl a
key_eq_refl (Key.login_attempt_email a) = eq_refl a
key_eq_refl (Key.reset_password_rate_limit a) = eq_refl a
key_eq_refl (Key.password_reset_user a) = ==_refl a
key_eq_refl (Key.login_attempt_user a) = ==_refl a
key_eq_refl (Key.user_lock a) = ==_refl a
key_eq_refl (Key.session a) = ==_refl a
key_eq_refl (Key.user_sessions a) = ==_refl a

memory-strings : StringLaws memory
memory-strings = record {
  get-set = λ j k v t s. refl;
  get-del = λ j ks s. refl;
  get-incr = λ j k s h. rw (h) refl;
  incr_lem = λ k s n h.
      let e : counted k s ≡ n + 1 = rw (h) (omega arith) in
      (e, rw (key_eq_refl k) (ap (λ n. some (number n)) e));
  exists-get = λ k s v h. rw (h) refl;
  exists-none = λ k s t h. rw (h, t) refl;
  get-expire = λ j k t s h. refl;
  get-sadd = λ j k a s h. refl;
  get-srem = λ j k a s h. refl;
  get-later = λ j t s. refl;
}

memory-sets : SetLaws memory
memory-sets = record {
  smembers-set = λ j k v t s h. rw (h) refl;
  smembers-del = λ j ks s. refl;
  smembers-incr = λ j k s h. refl;
  smembers-expire = λ j k t s h. refl;
  includes-sadd =
      λ j k a b s. elim (Bool-cases (key_eq j k)) [ inl t ↦ rw (t) refl | inr f ↦ rw (f) refl ];
  includes-srem = λ j k a b s. elim (Bool-cases (key_eq j k)) [
    | inl t ↦ rw (t) (includes-without a (s.sets j) b)
    | inr f ↦ rw (f) refl
  ];
  smembers-later = λ j t s. refl;
}

memory-times : TtlLaws memory
memory-times = record {
  ttl-set = λ j k v t s. refl;
  ttl-del = λ j ks s h. rw (h) refl;
  ttl-incr = λ j k s h. refl;
  ttl-incr_again = λ k s v h. refl;
  ttl-expire = λ j k t s h. rw (h) refl;
  ttl-expire_text = λ k t s v h. rw (key_eq_refl k) refl;
  ttl-expire_set = λ k t a s h. rw (key_eq_refl k) refl;
  ttl-sadd = λ j k a s h. refl;
  ttl-srem = λ j k a s h. refl;
  ttl-srem_again = λ k a b s h. refl;
  ttl-later = λ j t s h. rw (h) refl;
}

pub memory-IsLawful : IsLawful memory
memory-IsLawful = record { strings = memory-strings; sets = memory-sets; times = memory-times }
