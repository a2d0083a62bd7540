-- ===== src/Examples/Caching.antt =====
-- The key cache (authzoo/src/discovery.rs) on two keys and room for one.
use authzoo.Common.{
  some, ltb, arith, if◌then◌else◌, ℕ, ◌<◌, At, List, [], ◌∷◌, ◌+◌, ◌≡◌, refl, text, none, text_beq,
}
use authzoo.Common.Maps.Hash
use authzoo.KeyCache
use authzoo.KeyCache.{JwksKeyCache, JwksKeyCacheKey}
use authzoo.KeyCache.Invariant.{IsValid, new-IsValid, insert-IsValid}
use authzoo.KeyCache.Traces.{
  Call, reading, writing, run, answers, run_lru, answers_lru, Refines, run-new-Refines,
}
use authzoo.KeyCache.Reads.{get-insert_self}
use authzoo.KeyCache.Freshness.{get-Written}
use authzoo.Examples.Samples.{jwk}

abbrev key : JwksKeyCacheKey
key = record { jwks_uri = text "https://ci/jwks"; selector = text "kid:a" }

abbrev other_key : JwksKeyCacheKey
other_key = record { jwks_uri = text "https://ci/jwks"; selector = text "kid:b" }

abbrev empty : JwksKeyCache
empty = KeyCache.new 1 60

empty-IsValid : IsValid empty
empty-IsValid = new-IsValid 1 60

abbrev one : JwksKeyCache
one = KeyCache.insert key jwk 0 empty

one-IsValid : IsValid one
one-IsValid = insert-IsValid key jwk 0 empty empty-IsValid

get-insert_self_example :
    (KeyCache.get key 30 (KeyCache.insert key jwk 0 empty)).1
    ≡ (if ltb 30 (0 + empty.ttl) then some jwk else none)
unfolding KeyCache.new
get-insert_self_example =
    get-insert_self key jwk 0 30 empty empty-IsValid (ground arith) (ground arith)

-- The second key takes the place of the first.
evicted : (KeyCache.get key 6 (KeyCache.insert other_key jwk 5 one)).1 ≡ none
unfolding KeyCache.new KeyCache.insert KeyCache.get KeyCache.put KeyCache.mark_used
    KeyCache.remove_from_recency KeyCache.evict_expired KeyCache.expired_keys KeyCache.forget_all
    KeyCache.evict_lru KeyCache.evict_loop Hash.get Hash.insert Hash.remove text_beq
evicted = refl

abbrev calls : List Call
calls = writing key jwk 0 ∷ writing other_key jwk 5 ∷ reading other_key 20 ∷ []

run-new-Refines_example :
    Refines 1 60 (run calls (KeyCache.new 1 60)) (run_lru 1 60 calls [])
    × (answers calls (KeyCache.new 1 60) ≡ answers_lru 1 60 calls [])
run-new-Refines_example = run-new-Refines 1 60 calls

get-Written_example : (time : ℕ) × At (writing other_key jwk time) calls × (30 < time + 60)
unfolding KeyCache.get KeyCache.insert KeyCache.new KeyCache.put KeyCache.mark_used
    KeyCache.evict_expired KeyCache.evict_lru KeyCache.evict_loop KeyCache.expired_keys
    KeyCache.forget_all KeyCache.forget Hash.get Hash.insert Hash.remove text_beq
get-Written_example = get-Written 1 60 calls other_key 30 jwk refl
