-- ===== src/KeyCache/Lru.antt =====
-- An abstract view of `JwksKeyCache` of authzoo/src/discovery.rs: one list of entries, the least
-- recently used first, and its reads.
use authzoo.Common.{
  ℕ, ◌+◌, ◌-◌, ◌≡◌, refl, ◌∙◌, inl, inr, not, Bool-cases, Option-cases, Option, none, some, List,
  [], ◌∷◌, ◌++◌, length, keep, contains, nat_beq, arith, if◌then◌else◌,
}
use authzoo.Common.Maps.Hash
use authzoo.Common.Maps.Hash.{HashMap, get-remove, get-insert}
use authzoo.Jwt.{Jwk}
use authzoo.KeyCache.{
  JwksKeyCacheKey as Key, cache_key_eq, CachedJwksKey, JwksKeyCache, is_expired, mark_used, forget,
  get, put,
}
use authzoo.KeyCache.Order.{
  drop, without, ==-self, contains-without, collect, collect-concat, collect-remove, collect-insert,
  collect-without,
}
use authzoo.KeyCache.Invariant.{IsValid, IsConsistent}

abbrev pub Lru : Type 0
Lru = List (Key × CachedJwksKey)

abbrev pub view : JwksKeyCache → Lru
view c = collect c.recency c.entries

-- A read: an absent key changes nothing, an expired entry goes, and a live one becomes the most
-- recently used.
abbrev pub read : Key → ℕ → Lru → Lru × Option Jwk
read k now l = elim (Hash.get k l) [
  | none ↦ (l, none)
  | some entry ↦
      if is_expired entry now
      then (Hash.remove k l, none)
      else (Hash.remove k l ++ (k, entry) ∷ [], some entry.jwk)
]

-- The entries that still live.
abbrev pub live : ℕ → Lru → Lru
live now = keep (λ x. not (is_expired x.1 now))

-- The last `n`.
abbrev pub latest : ℕ → Lru → Lru
latest n l = drop (length l - n) l

-- A write: the key becomes the most recently used, expired entries go, and then the least recently
-- used ones until the rest fits.
abbrev pub write : ℕ → ℕ → Key → Jwk → ℕ → Lru → Lru
write capacity ttl k jwk now l =
    if nat_beq capacity 0
    then l
    else latest capacity
        (live now (Hash.remove k l ++ (k, record { jwk = jwk; expires_at = now + ttl }) ∷ []))

get-collect :
    (k : Key) (r : List Key) (m : HashMap Key CachedJwksKey)
    → Hash.get k (collect r m) ≡ (if contains k r then Hash.get k m else none)
unfolding collect Hash.get
get-collect k [] m = refl
get-collect k (j ∷ r) m = ground (arith, cache_key_eq.eqb_iff j k, get-collect k r m)

-- On a consistent cache a key is found in the view as in the map.
get-view :
    (k : Key) (c : JwksKeyCache) → IsConsistent c → Hash.get k (view c) ≡ Hash.get k c.entries
get-view k c v = ground (arith, get-collect k c.recency c.entries, v.tracked k)

pub view-forget : (k : Key) (c : JwksKeyCache) → view (forget k c) ≡ Hash.remove k (view c)
unfolding forget
view-forget k c =
    collect-remove k (without k c.recency) c.entries
      (ground (arith, contains-without k k c.recency, ==-self k))
    ∙ collect-without k c.recency c.entries

view-mark_used :
    (k : Key) (c : JwksKeyCache) (entry : CachedJwksKey)
    → Hash.get k c.entries ≡ some entry
    → view (mark_used k c) ≡ Hash.remove k (view c) ++ (k, entry) ∷ []
unfolding mark_used collect
view-mark_used k c entry h =
    ground (
      arith,
      collect-concat (without k c.recency) k c.entries,
      collect-without k c.recency c.entries,
    )

pub view-put :
    (k : Key) (jwk : Jwk) (now : ℕ) (c : JwksKeyCache)
    → view (put k jwk now c)
      ≡ Hash.remove k (view c) ++ (k, record { jwk = jwk; expires_at = now + c.ttl }) ∷ []
unfolding put collect
view-put k jwk now c =
    let stored : CachedJwksKey = record { jwk = jwk; expires_at = now + c.ttl } in
    ground (
      arith,
      collect-concat (without k c.recency) k (Hash.insert k stored c.entries),
      collect-insert k stored (without k c.recency) c.entries,
      contains-without k k c.recency,
      ==-self k,
      get-insert k k stored c.entries,
      collect-without k c.recency c.entries,
    )

-- `get` of the cache is a read of the list.
pub get-read :
    (k : Key) (now : ℕ) (c : JwksKeyCache)
    → IsValid c
    → (view (get k now c).0, (get k now c).1) ≡ read k now (view c)
unfolding get
get-read k now c v =
    rw (get-view k c v.consistent, read)
      (elim (Option-cases (Hash.get k c.entries)) [
        | inl miss ↦ rw (miss, get)
        | inr (entry, hit) ↦ elim (Bool-cases (is_expired entry now)) [
          | inl old ↦ rw (hit, old, get, view-forget k c)
          | inr alive ↦ rw (hit, alive, get, view-mark_used k c entry hit)
        ]
      ])
