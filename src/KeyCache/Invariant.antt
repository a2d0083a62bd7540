-- ===== src/KeyCache/Invariant.antt =====
-- The invariant of `JwksKeyCache` (authzoo/src/discovery.rs) under its operations.
use authzoo.Common.{
  ℕ, ◌+◌, ◌≤◌, ◌≡◌, refl, inl, inr, true, Bool-cases, Option-cases, List, [], ◌∷◌, length, contains,
  ltb, nat_beq, arith,
}
use authzoo.Common.Maps.Hash
use authzoo.Common.Maps.Hash.{HashMap, get-remove, get-insert, length-remove-le}
use authzoo.Jwt.{Jwk}
use authzoo.KeyCache.{
  JwksKeyCacheKey as Key, cache_key_eq, CachedJwksKey, JwksKeyCache, new, is_expired, mark_used,
  forget, get, expired_keys, forget_all, evict_expired, evict_loop, evict_lru, put, insert,
}
use authzoo.KeyCache.Order.{
  without, IsDistinct, ==-self, contains-without, contains-concat, without-IsDistinct,
  concat-IsDistinct, has, HasDistinctKeys, remove-HasDistinctKeys, insert-HasDistinctKeys,
}

abbrev Entries : Type 0
Entries = HashMap Key CachedJwksKey

-- The queue and the map hold the same keys, each once.
pub record AreConsistent (r : List Key) (m : Entries) : Type 0 where
  pub tracked : (k : Key) → contains k r ≡ has k m
  pub queued : IsDistinct r
  pub keyed : HasDistinctKeys m

pub record IsValid (c : JwksKeyCache) : Type 0 where
  pub consistent : AreConsistent c.recency c.entries
  pub bounded : length c.entries ≤ c.capacity

abbrev pub IsConsistent : JwksKeyCache → Type 0
IsConsistent c = AreConsistent c.recency c.entries

-- A cache starts valid.
pub new-IsValid : (capacity ttl : ℕ) → IsValid (new capacity ttl)
unfolding new Hash.get
new-IsValid capacity ttl = record {
  consistent = record { tracked = λ k. refl; queued = tt; keyed = tt };
  bounded = omega arith;
}

pub forget-IsConsistent : (k : Key) (c : JwksKeyCache) → IsConsistent c → IsConsistent (forget k c)
unfolding forget
forget-IsConsistent k c v = record {
  tracked =
      λ j. ground (arith, contains-without k j c.recency, get-remove k j c.entries, v.tracked j);
  queued = without-IsDistinct k c.recency v.queued;
  keyed = remove-HasDistinctKeys k c.entries v.keyed;
}

pub mark_used-IsConsistent :
    (k : Key) (c : JwksKeyCache)
    → has k c.entries ≡ true
    → IsConsistent c
    → IsConsistent (mark_used k c)
unfolding mark_used
mark_used-IsConsistent k c h v = record {
  tracked = λ j. ground (
    arith,
    contains-concat j k (without k c.recency),
    contains-without k j c.recency,
    v.tracked j,
    cache_key_eq.eqb_iff k j,
  );
  queued =
      concat-IsDistinct k (without k c.recency)
        (ground (arith, contains-without k k c.recency, ==-self k))
        (without-IsDistinct k c.recency v.queued);
  keyed = v.keyed;
}

pub put-IsConsistent :
    (k : Key) (jwk : Jwk) (now : ℕ) (c : JwksKeyCache)
    → IsConsistent c
    → IsConsistent (put k jwk now c)
unfolding put
put-IsConsistent k jwk now c v =
    let stored : CachedJwksKey = record { jwk = jwk; expires_at = now + c.ttl } in
    record {
      tracked = λ j. ground (
        arith,
        contains-concat j k (without k c.recency),
        contains-without k j c.recency,
        get-insert k j stored c.entries,
        v.tracked j,
      );
      queued =
          concat-IsDistinct k (without k c.recency)
            (ground (arith, contains-without k k c.recency, ==-self k))
            (without-IsDistinct k c.recency v.queued);
      keyed = insert-HasDistinctKeys k stored c.entries v.keyed;
    }

pub forget_all-IsConsistent :
    (ks : List Key) (c : JwksKeyCache) → IsConsistent c → IsConsistent (forget_all ks c)
unfolding forget_all
forget_all-IsConsistent [] c v = v
forget_all-IsConsistent (k ∷ ks) c v =
    forget_all-IsConsistent ks (forget k c) (forget-IsConsistent k c v)

pub tail-AreConsistent :
    (k : Key) (r : List Key) (m : Entries)
    → AreConsistent (k ∷ r) m
    → AreConsistent r (Hash.remove k m)
tail-AreConsistent k r m v = record {
  tracked =
      λ j. ground (arith, get-remove k j m, v.tracked j, cache_key_eq.eqb_iff k j, v.queued.0);
  queued = v.queued.1;
  keyed = remove-HasDistinctKeys k m v.keyed;
}

-- An empty queue means an empty map.
pub nothing_queued : (m : Entries) → AreConsistent [] m → m ≡ []
unfolding Hash.get
nothing_queued [] v = refl
nothing_queued ((k, e) ∷ m) v = absurd (ground (arith, v.tracked k, ==-self k))

evict_loop-AreConsistent :
    (cap : ℕ) (r : List Key) (m : Entries)
    → AreConsistent r m
    → AreConsistent (evict_loop cap r m).1 (evict_loop cap r m).0
      × (length (evict_loop cap r m).0 ≤ cap)
unfolding evict_loop
evict_loop-AreConsistent cap [] m v = (v, rw (nothing_queued m v) (omega arith))
evict_loop-AreConsistent cap (k ∷ r) m v = elim (Bool-cases (ltb cap (length m))) [
  | inl over ↦
      rw (over, evict_loop)
        (evict_loop-AreConsistent cap r (Hash.remove k m) (tail-AreConsistent k r m v))
  | inr fits ↦ rw (fits, evict_loop) (v, ground arith)
]

pub evict_lru-IsValid : (c : JwksKeyCache) → IsConsistent c → IsValid (evict_lru c)
unfolding evict_lru
evict_lru-IsValid c v =
    let (consistent, bounded) = evict_loop-AreConsistent c.capacity c.recency c.entries v in
    record { consistent = consistent; bounded = bounded }

forget-IsValid : (k : Key) (c : JwksKeyCache) → IsValid c → IsValid (forget k c)
unfolding forget
forget-IsValid k c v = record {
  consistent = forget-IsConsistent k c v.consistent;
  bounded = omega (arith, v.bounded, length-remove-le k c.entries);
}

mark_used-bounded :
    (k : Key) (c : JwksKeyCache)
    → length c.entries ≤ c.capacity
    → length (mark_used k c).entries ≤ (mark_used k c).capacity
unfolding mark_used
mark_used-bounded k c h = h

-- `insert` keeps the invariant: map and queue hold the same keys, each once, and never more of
-- them than the capacity.
pub insert-IsValid :
    (k : Key) (jwk : Jwk) (now : ℕ) (c : JwksKeyCache) → IsValid c → IsValid (insert k jwk now c)
unfolding insert evict_expired
insert-IsValid k jwk now c v = elim (Bool-cases (nat_beq c.capacity 0)) [
  | inl closed ↦ rw (closed, insert) v
  | inr opened ↦
      rw (opened, insert)
        (evict_lru-IsValid _ (
          forget_all-IsConsistent (expired_keys now (put k jwk now c).entries) (put k jwk now c)
            (put-IsConsistent k jwk now c v.consistent)))
]

-- `get` keeps the invariant too, whether it hits, misses or drops an expired key.
pub get-IsValid : (k : Key) (now : ℕ) (c : JwksKeyCache) → IsValid c → IsValid (get k now c).0
unfolding get
get-IsValid k now c v = elim (Option-cases (Hash.get k c.entries)) [
  | inl miss ↦ rw (miss, get) v
  | inr (entry, hit) ↦ elim (Bool-cases (is_expired entry now)) [
    | inl old ↦ rw (hit, old, get) (forget-IsValid k c v)
    | inr live ↦
        rw (hit, live, get)
          (record {
            consistent = mark_used-IsConsistent k c (rw (hit, has)) v.consistent;
            bounded = mark_used-bounded k c v.bounded;
          })
  ]
]
