-- ===== src/KeyCache/Eviction.antt =====
-- The writes of `JwksKeyCache` (authzoo/src/discovery.rs): eviction by age and by recency, against
-- the list of `KeyCache.Lru`.
use authzoo.Common.{
  ℕ, zero, suc, ◌+◌, ◌-◌, ◌≤◌, ◌≡◌, refl, ap, sym, ◌∙◌, inl, inr, false, Bool-cases, Option-cases,
  none, some, List, [], ◌∷◌, ◌++◌, length, contains, ltb, ltb→lt, nat_beq, arith, if◌then◌else◌,
}
use authzoo.Common.Maps.Hash
use authzoo.Common.Maps.Hash.{HashMap, get-remove, get-insert}
use authzoo.Jwt.{Jwk}
use authzoo.KeyCache.{
  JwksKeyCacheKey as Key, cache_key_eq, CachedJwksKey, JwksKeyCache, is_expired, forget,
  expired_keys, forget_all, evict_expired, evict_loop, evict_lru, put, insert,
}
use authzoo.KeyCache.Lru.{Lru, view, live, latest, write, view-forget, view-put}
use authzoo.KeyCache.Order.{
  drop, ==-self, has, HasDistinctKeys, length-remove, collect, collect-remove,
}
use authzoo.KeyCache.Invariant.{
  AreConsistent, IsValid, IsConsistent, put-IsConsistent, forget_all-IsConsistent,
  tail-AreConsistent, nothing_queued,
}

remove_all : List Key → Lru → Lru
remove_all [] l = l
remove_all (k ∷ ks) l = remove_all ks (Hash.remove k l)

view-forget_all :
    (ks : List Key) (c : JwksKeyCache) → view (forget_all ks c) ≡ remove_all ks (view c)
unfolding forget_all remove_all
view-forget_all [] c = refl
view-forget_all (k ∷ ks) c = view-forget_all ks (forget k c) ∙ ap (remove_all ks) (view-forget k c)

remove_all-cons :
    (ks : List Key) (x : Key × CachedJwksKey) (l : Lru)
    → remove_all ks (x ∷ l) ≡ (if contains x.0 ks then remove_all ks l else x ∷ remove_all ks l)
unfolding remove_all Hash.remove
remove_all-cons [] x l = refl
remove_all-cons (k ∷ ks) x l = ground (
  arith,
  cache_key_eq.eqb_iff k x.0,
  cache_key_eq.eqb_iff x.0 k,
  remove_all-cons ks x (Hash.remove k l),
)

remove_all-nil : (ks : List Key) → remove_all ks [] ≡ []
unfolding remove_all Hash.remove
remove_all-nil [] = refl
remove_all-nil (k ∷ ks) = remove_all-nil ks

-- A key is among the expired ones exactly when its entry has expired.
contains-expired_keys :
    (now : ℕ) (k : Key) (m : HashMap Key CachedJwksKey)
    → HasDistinctKeys m
    → contains k (expired_keys now m)
      ≡ elim (Hash.get k m) [ none ↦ false | some entry ↦ is_expired entry now ]
unfolding expired_keys Hash.get
contains-expired_keys now k [] d = refl
contains-expired_keys now k ((j, entry) ∷ m) (fresh, d) =
    ground (arith, cache_key_eq.eqb_iff j k, contains-expired_keys now k m d)

remove_all-live :
    (now : ℕ) (r : List Key) (m : HashMap Key CachedJwksKey)
    → HasDistinctKeys m
    → remove_all (expired_keys now m) (collect r m) ≡ live now (collect r m)
unfolding collect
remove_all-live now [] m d = remove_all-nil (expired_keys now m)
remove_all-live now (k ∷ r) m d = elim (Option-cases (Hash.get k m)) [
  | inl miss ↦ rw (miss, collect) (remove_all-live now r m d)
  | inr (entry, hit) ↦
      rw (hit, collect)
        (ground (
          arith,
          remove_all-cons (expired_keys now m) (k, entry) (collect r m),
          contains-expired_keys now k m d,
          remove_all-live now r m d,
        ))
]

view-evict_expired :
    (now : ℕ) (c : JwksKeyCache) → IsConsistent c → view (evict_expired now c) ≡ live now (view c)
unfolding evict_expired
view-evict_expired now c v =
    view-forget_all (expired_keys now c.entries) c ∙ remove_all-live now c.recency c.entries v.keyed

length-collect :
    (r : List Key) (m : HashMap Key CachedJwksKey)
    → AreConsistent r m
    → length (collect r m) ≡ length m
unfolding collect
length-collect [] m v = rw (nothing_queued m v)
length-collect (k ∷ r) m v = elim (Option-cases (Hash.get k m)) [
  | inl miss ↦ absurd (ground (arith, v.tracked k, ==-self k))
  | inr (entry, hit) ↦
      rw (hit, collect)
        (ground (
          arith,
          collect-remove k r m v.queued.0,
          length-remove k m entry v.keyed hit,
          length-collect r (Hash.remove k m) (tail-AreConsistent k r m v),
        ))
]

drop-nil : (n : ℕ) → drop {A = Key × CachedJwksKey} n [] ≡ []
drop-nil zero = refl
drop-nil (suc n) = refl

latest_of_le : (n : ℕ) (l : Lru) → length l ≤ n → latest n l ≡ l
latest_of_le n l h = let e : length l - n ≡ 0 = omega arith in rw e

latest-cons :
    (n : ℕ) (x : Key × CachedJwksKey) (l : Lru) → n ≤ length l → latest n (x ∷ l) ≡ latest n l
latest-cons n x l h = let e : suc (length l) - n ≡ suc (length l - n) = omega arith in rw e

collect-cons :
    (k : Key) (r : List Key) (m : HashMap Key CachedJwksKey)
    → contains k (k ∷ r) ≡ has k m
    → (entry : CachedJwksKey) × (collect (k ∷ r) m ≡ (k, entry) ∷ collect r m)
unfolding collect
collect-cons k r m h = elim (Option-cases (Hash.get k m)) [
  | inl miss ↦ absurd (ground (arith, ==-self k))
  | inr (entry, hit) ↦ (entry, rw (hit, collect))
]

-- The loop keeps the most recently used entries that fit.
collect-evict_loop :
    (most : ℕ) (r : List Key) (m : HashMap Key CachedJwksKey)
    → AreConsistent r m
    → collect (evict_loop most r m).1 (evict_loop most r m).0 ≡ latest most (collect r m)
unfolding evict_loop collect
collect-evict_loop most [] m v = sym (drop-nil (0 - most))
collect-evict_loop most (k ∷ r) m v = elim (Bool-cases (ltb most (length m))) [
  | inl over ↦
      let (entry, e) = collect-cons k r m (v.tracked k) in
      let rest = collect-evict_loop most r (Hash.remove k m) (tail-AreConsistent k r m v) in
      let same = collect-remove k r m v.queued.0 in
      let total = length-collect (k ∷ r) m v in
      rw (over, evict_loop)
        (rest
          ∙ ap (latest most) same
          ∙ sym (
              ap (latest most) e
              ∙ latest-cons most (k, entry) (collect r m)
                  (omega (arith, ap length e, total, ltb→lt most (length m) over))))
  | inr fits ↦
      rw (fits, evict_loop)
        (sym (latest_of_le most (collect (k ∷ r) m) (ground (arith, length-collect (k ∷ r) m v))))
]

view-evict_lru :
    (c : JwksKeyCache) → IsConsistent c → view (evict_lru c) ≡ latest c.capacity (view c)
unfolding evict_lru
view-evict_lru c v = collect-evict_loop c.capacity c.recency c.entries v

forget_all-capacity : (ks : List Key) (c : JwksKeyCache) → (forget_all ks c).capacity ≡ c.capacity
unfolding forget_all forget
forget_all-capacity [] c = refl
forget_all-capacity (k ∷ ks) c = forget_all-capacity ks (forget k c)

evict_expired-capacity :
    (now : ℕ) (k : Key) (jwk : Jwk) (c : JwksKeyCache)
    → (evict_expired now (put k jwk now c)).capacity ≡ c.capacity
unfolding evict_expired put
evict_expired-capacity now k jwk c =
    forget_all-capacity (expired_keys now (put k jwk now c).entries) (put k jwk now c)

evict_expired-IsConsistent :
    (now : ℕ) (c : JwksKeyCache) → IsConsistent c → IsConsistent (evict_expired now c)
unfolding evict_expired
evict_expired-IsConsistent now c v = forget_all-IsConsistent (expired_keys now c.entries) c v

-- `insert` of the cache is a write to the list.
pub view-insert :
    (k : Key) (jwk : Jwk) (now : ℕ) (c : JwksKeyCache)
    → IsValid c
    → view (insert k jwk now c) ≡ write c.capacity c.ttl k jwk now (view c)
unfolding insert
view-insert k jwk now c v = elim (Bool-cases (nat_beq c.capacity 0)) [
  | inl closed ↦ rw (closed, insert)
  | inr opened ↦
      let written = put k jwk now c in
      let consistent = put-IsConsistent k jwk now c v.consistent in
      rw (opened, insert)
        (view-evict_lru (evict_expired now written)
            (evict_expired-IsConsistent now written consistent)
          ∙ ap (latest (evict_expired now written).capacity)
              (view-evict_expired now written consistent ∙ ap (live now) (view-put k jwk now c))
          ∙ ap
              (λ n. latest n (
                live now (
                  Hash.remove k (view c)
                  ++ (k, record { jwk = jwk; expires_at = now + c.ttl }) ∷ [])))
              (evict_expired-capacity now k jwk c))
]
