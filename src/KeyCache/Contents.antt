-- ===== src/KeyCache/Contents.antt =====
-- What `JwksKeyCache` (authzoo/src/discovery.rs) holds: properties of all entries under its operations.
use authzoo.Common.{
  ℕ, inl, inr, Bool-cases, Option-cases, Option, none, some, List, [], ◌∷◌, length, All, nat_beq,
  ltb,
}
use authzoo.Common.Maps.Hash
use authzoo.Common.Maps.Hash.{HashMap}
use authzoo.Jwt.{Jwk}
use authzoo.KeyCache.{
  JwksKeyCacheKey as Key, cache_key_eq, CachedJwksKey, JwksKeyCache, is_expired, mark_used, forget,
  forget_all, evict_expired, evict_loop, evict_lru, expired_keys, put, get, insert,
}
use authzoo.KeyCache.Freshness.{remove-All, get-All}

module _ (P : Key → Jwk → Type 0) where
  -- Every entry's key and JWK.
  abbrev pub Holds : HashMap Key CachedJwksKey → Type 0
  Holds m = All (λ x. P x.0 x.1.jwk) m

  forget_all-Holds :
      (ks : List Key) (c : JwksKeyCache) → Holds c.entries → Holds (forget_all ks c).entries
  unfolding forget_all forget
  forget_all-Holds [] c h = h
  forget_all-Holds (k ∷ ks) c h = forget_all-Holds ks (forget k c) (remove-All _ k c.entries h)

  evict_loop-Holds :
      (capacity : ℕ) (r : List Key) (m : HashMap Key CachedJwksKey)
      → Holds m
      → Holds (evict_loop capacity r m).0
  unfolding evict_loop
  evict_loop-Holds capacity [] m h = h
  evict_loop-Holds capacity (k ∷ r) m h = elim (Bool-cases (ltb capacity (length m))) [
    | inl over ↦ rw (over, evict_loop) (evict_loop-Holds capacity r _ (remove-All _ k m h))
    | inr fits ↦ rw (fits, evict_loop) h
  ]

  pub insert-Holds :
      (k : Key) (jwk : Jwk) (now : ℕ) (c : JwksKeyCache)
      → Holds c.entries
      → P k jwk
      → Holds (insert k jwk now c).entries
  unfolding insert put mark_used evict_lru evict_expired Hash.insert
  insert-Holds k jwk now c h p = elim (Bool-cases (nat_beq c.capacity 0)) [
    | inl closed ↦ rw (closed, insert) h
    | inr opened ↦
        rw (opened, insert)
          (evict_loop-Holds _ _ _ (
            forget_all-Holds (expired_keys now (put k jwk now c).entries) (put k jwk now c)
              (p, remove-All _ k c.entries h)))
  ]

  -- What a read leaves, and what it returns.
  abbrev pub Returned : Key → Option Jwk → Type 0
  Returned k none = Unit
  Returned k (some jwk) = P k jwk

  pub get-Holds :
      (k : Key) (now : ℕ) (c : JwksKeyCache)
      → Holds c.entries
      → Holds (get k now c).0.entries × Returned k (get k now c).1
  unfolding get forget mark_used
  get-Holds k now c h = elim (Option-cases (Hash.get k c.entries)) [
    | inl miss ↦ rw (miss, get) (h, tt)
    | inr (entry, hit) ↦ elim (Bool-cases (is_expired entry now)) [
      | inl old ↦ rw (hit, old, get) (remove-All _ k c.entries h, tt)
      | inr fresh ↦ rw (hit, fresh, get) (h, get-All _ k c.entries entry h hit)
    ]
  ]
