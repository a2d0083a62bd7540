-- ===== src/KeyCache.antt =====
-- `JwksKeyCache` of authzoo/src/discovery.rs: a cache of keys with a time to live and least recently
-- used eviction. `Instant` and `Duration` are numbers of one unit; their sum does not overflow.
pub mod Order
pub mod Invariant
pub mod Lru
pub mod Eviction
pub mod Reads
pub mod Traces
pub mod Freshness
pub mod Contents
use authzoo.Common.{
  ℕ, zero, suc, ◌+◌, ◌≡◌, ◌↔◌, refl, Bool, true, false, not, ◌&&◌, Option, none, some, List, [],
  ◌∷◌, ◌++◌, Text, text, text_beq, text_beq_iff, length, keep, Eq, ◌==◌, ltb, leb, nat_beq, arith,
  if◌then◌else◌,
}
use authzoo.Common.Maps.Hash
use authzoo.Common.Maps.Hash.{HashMap}
use authzoo.Jwt.{Algorithm, Jwk}

pub record JwksKeyCacheKey : Type 0 where
  pub jwks_uri : Text
  pub selector : Text

abbrev pub cache_key_beq : JwksKeyCacheKey → JwksKeyCacheKey → Bool
cache_key_beq k j = text_beq k.jwks_uri j.jwks_uri && text_beq k.selector j.selector

pub cache_key_beq_iff : (k j : JwksKeyCacheKey) → (cache_key_beq k j ≡ true) ↔ (k ≡ j)
cache_key_beq_iff k j =
    ground (arith, text_beq_iff k.jwks_uri j.jwks_uri, text_beq_iff k.selector j.selector)

instance abbrev pub cache_key_eq : Eq JwksKeyCacheKey
cache_key_eq = record { eqb = cache_key_beq; eqb_iff = cache_key_beq_iff }

-- The selector of `JwksKeyCacheKey::new`; `debug` is `{:?}` of an algorithm.
unfoldable pub selector_for : (Algorithm → Text) → Option Text → Algorithm → Text
selector_for debug (some kid) algorithm = text "kid:" ++ kid
selector_for debug none algorithm = text "algorithm:" ++ debug algorithm

-- `JwksKeyCacheKey::new`.
unfoldable pub new_key : (Algorithm → Text) → Text → Option Text → Algorithm → JwksKeyCacheKey
new_key debug jwks_uri kid algorithm = record {
  jwks_uri = jwks_uri;
  selector = selector_for debug kid algorithm;
}

pub record CachedJwksKey : Type 0 where
  pub jwk : Jwk
  pub expires_at : ℕ

-- `recency` has the least recently used key first.
pub record JwksKeyCache : Type 0 where
  pub entries : HashMap JwksKeyCacheKey CachedJwksKey
  pub recency : List JwksKeyCacheKey
  pub capacity : ℕ
  pub ttl : ℕ

-- `JwksKeyCache::new`.
unfoldable pub new : ℕ → ℕ → JwksKeyCache
new capacity ttl = record { entries = []; recency = []; capacity = capacity; ttl = ttl }

abbrev pub is_expired : CachedJwksKey → ℕ → Bool
is_expired entry now = leb entry.expires_at now

unfoldable pub remove_from_recency : JwksKeyCacheKey → JwksKeyCache → JwksKeyCache
remove_from_recency key c = record c {
  recency = keep (λ candidate. not (candidate == key)) c.recency;
}

unfoldable pub mark_used : JwksKeyCacheKey → JwksKeyCache → JwksKeyCache
unfolding remove_from_recency
mark_used key c =
    let c' = remove_from_recency key c in record c' { recency = c'.recency ++ key ∷ [] }

-- `self.entries.remove(key); self.remove_from_recency(key)`.
unfoldable pub forget : JwksKeyCacheKey → JwksKeyCache → JwksKeyCache
unfolding remove_from_recency
forget key c = remove_from_recency key (record c { entries = Hash.remove key c.entries })

-- `JwksKeyCache::get`.
unfoldable pub get : JwksKeyCacheKey → ℕ → JwksKeyCache → JwksKeyCache × Option Jwk
get key now c = elim (Hash.get key c.entries) [
  | none ↦ (c, none)
  | some entry ↦
      if is_expired entry now then (forget key c, none) else (mark_used key c, some entry.jwk)
]

-- The `filter_map` of `evict_expired`.
unfoldable pub expired_keys : ℕ → HashMap JwksKeyCacheKey CachedJwksKey → List JwksKeyCacheKey
expired_keys now [] = []
expired_keys now ((key, entry) ∷ m) =
    if is_expired entry now then key ∷ expired_keys now m else expired_keys now m

-- The loop of `evict_expired`.
unfoldable pub forget_all : List JwksKeyCacheKey → JwksKeyCache → JwksKeyCache
forget_all [] c = c
forget_all (key ∷ keys) c = forget_all keys (forget key c)

unfoldable pub evict_expired : ℕ → JwksKeyCache → JwksKeyCache
evict_expired now c = forget_all (expired_keys now c.entries) c

-- The loop of `evict_lru`: the entries and the queue. It ends at an empty queue.
unfoldable pub evict_loop :
    ℕ
    → List JwksKeyCacheKey
    → HashMap JwksKeyCacheKey CachedJwksKey
    → HashMap JwksKeyCacheKey CachedJwksKey × List JwksKeyCacheKey
evict_loop capacity [] m = (m, [])
evict_loop capacity (key ∷ recency) m =
    let rest = evict_loop capacity recency (Hash.remove key m) in
    if ltb capacity (length m) then rest else (m, key ∷ recency)

unfoldable pub evict_lru : JwksKeyCache → JwksKeyCache
evict_lru c =
    let left = evict_loop c.capacity c.recency c.entries in
    record c { entries = left.0; recency = left.1 }

-- The write of `insert`, before anything is evicted.
unfoldable pub put : JwksKeyCacheKey → Jwk → ℕ → JwksKeyCache → JwksKeyCache
unfolding mark_used
put key jwk now c = mark_used key (record c {
  entries = Hash.insert key (record { jwk = jwk; expires_at = now + c.ttl }) c.entries;
})

-- `JwksKeyCache::insert`.
unfoldable pub insert : JwksKeyCacheKey → Jwk → ℕ → JwksKeyCache → JwksKeyCache
insert key jwk now c =
    if nat_beq c.capacity 0 then c else evict_lru (evict_expired now (put key jwk now c))
