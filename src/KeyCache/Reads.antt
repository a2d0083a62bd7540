-- ===== src/KeyCache/Reads.antt =====
-- What a reader of `JwksKeyCache` (authzoo/src/discovery.rs) sees after a write, and which keys two
-- requests share.
use authzoo.Common.{
  ℕ, zero, suc, ◌+◌, ◌≤◌, ◌<◌, ◌≡◌, ◌↔◌, refl, Option, none, some, [], ◌∷◌, ◌++◌, length,
  length-append, ltb, Text, arith, if◌then◌else◌,
}
use authzoo.Common.Maps.Hash
use authzoo.Common.Maps.Hash.{get-remove}
use authzoo.Jwt.{Jwk, Algorithm}
use authzoo.KeyCache.{
  JwksKeyCacheKey as Key, cache_key_eq, CachedJwksKey, JwksKeyCache, get, insert, new_key,
  selector_for,
}
use authzoo.KeyCache.Order.{drop, ==-self}
use authzoo.KeyCache.Invariant.{IsValid, insert-IsValid}
use authzoo.KeyCache.Lru.{Lru, view, live, latest, get-read}
use authzoo.KeyCache.Eviction.{view-insert}

get-drop-concat :
    (d : ℕ) (k : Key) (entry : CachedJwksKey) (l : Lru)
    → d ≤ length l
    → Hash.get k l ≡ none
    → Hash.get k (drop d (l ++ (k, entry) ∷ [])) ≡ some entry
unfolding Hash.get
get-drop-concat zero k entry [] h absent = ground (arith, ==-self k)
get-drop-concat (suc d) k entry [] h absent = absurd (omega arith)
get-drop-concat zero k entry (x ∷ l) h absent = ground (arith, get-drop-concat zero k entry l)
get-drop-concat (suc d) k entry (x ∷ l) h absent =
    get-drop-concat d k entry l (omega arith) (ground arith)

get-latest-concat :
    (n : ℕ) (k : Key) (entry : CachedJwksKey) (l : Lru)
    → 0 < n
    → Hash.get k l ≡ none
    → Hash.get k (latest n (l ++ (k, entry) ∷ [])) ≡ some entry
get-latest-concat n k entry l pos absent =
    get-drop-concat _ k entry l (omega (arith, length-append l ((k, entry) ∷ []))) absent

live-concat :
    (now : ℕ) (x : Key × CachedJwksKey) (l : Lru)
    → now < x.1.expires_at
    → live now (l ++ x ∷ []) ≡ live now l ++ x ∷ []
live-concat now x [] h = ground arith
live-concat now x (y ∷ l) h = ground (arith, live-concat now x l h)

get-live-none : (now : ℕ) (k : Key) (l : Lru) → Hash.get k l ≡ none → Hash.get k (live now l) ≡ none
unfolding Hash.get
get-live-none now k [] h = refl
get-live-none now k (y ∷ l) h = ground (arith, get-live-none now k l)

-- A key that was stored is read back until its time to live is over, and never from then on: on a
-- valid cache with room and a time to live, whatever else the cache holds.
pub get-insert_self :
    (k : Key) (jwk : Jwk) (now later : ℕ) (c : JwksKeyCache)
    → IsValid c
    → 0 < c.capacity
    → 0 < c.ttl
    → (get k later (insert k jwk now c)).1 ≡ (if ltb later (now + c.ttl) then some jwk else none)
get-insert_self k jwk now later c v room lasting =
    let entry : CachedJwksKey = record { jwk = jwk; expires_at = now + c.ttl } in
    let others = Hash.remove k (view c) in
    let gone : Hash.get k others ≡ none = ground (arith, get-remove k k (view c), ==-self k) in
    let kept =
      get-latest-concat c.capacity k entry (live now others) room
        (get-live-none now k others gone) in
    let found : Hash.get k (view (insert k jwk now c)) ≡ some entry =
      ground (arith, view-insert k jwk now c v, live-concat now (k, entry) others, kept) in
    ground (arith, get-read k later (insert k jwk now c) (insert-IsValid k jwk now c v), found)

-- The same key id, or none and algorithms that are shown alike.
abbrev pub SameSelector :
    (Algorithm → Text) → Option Text → Option Text → Algorithm → Algorithm → Type 0
SameSelector debug none none a a' = debug a ≡ debug a'
SameSelector debug (some kid) (some kid') a a' = kid ≡ kid'
SameSelector debug _ _ a a' = ⊥

-- Two requests share a cache key exactly when they name the same key set and either the same key
-- id, or both have none and their algorithms are shown alike. A key id never meets an algorithm.
pub new_key-eq_iff :
    (debug : Algorithm → Text) (uri uri' : Text) (kid kid' : Option Text) (a a' : Algorithm)
    → (new_key debug uri kid a ≡ new_key debug uri' kid' a')
      ↔ ((uri ≡ uri') × SameSelector debug kid kid' a a')
unfolding new_key selector_for
new_key-eq_iff debug uri uri' none none a a' = ground arith
new_key-eq_iff debug uri uri' none (some kid') a a' = ground arith
new_key-eq_iff debug uri uri' (some kid) none a a' = ground arith
new_key-eq_iff debug uri uri' (some kid) (some kid') a a' = ground arith
