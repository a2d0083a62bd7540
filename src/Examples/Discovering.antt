-- ===== src/Examples/Discovering.antt =====
-- Tokens for a role without a key, the first of which has it discovered and the second of which finds
-- it in the cache (authzoo/src/discovery.rs, validator.rs).
use authzoo.World.Triples.{Post}
use authzoo.Common.{
  ok, ℕ, zero, suc, List, Returns, arith, ◌≡◌, refl, none, some, [], ◌∷◌, Text, text, text_beq,
  trim_end_matches, At,
}
use authzoo.Common.Maps.Hash
use authzoo.Jwt.{Algorithm-discrete, KeyAlgorithm-discrete, Jwk, JwkSet, Validation}
use authzoo.Config.{RoleConfig, es256, to_algorithm, allows_algorithm}
use authzoo.Claims.{require_claims, first_missing_required_claim}
use authzoo.Jwks.{
  select_jwk_for_token, select_by_algorithm, next_match, jwk_matches_algorithm,
  ensure_jwk_compatible, key_algorithm_matches, key_type_matches, key_algorithm_for_algorithm,
}
use authzoo.KeyCache
use authzoo.KeyCache.{new_key, selector_for}
use authzoo.World.{Environment, State, fetched, ask}
use authzoo.Discovery.{
  get_or_init, checked_key, read_cache, cached_jwks_key, write_cache, cache_jwks_key, received,
  is_kubernetes_service_issuer,
}
use authzoo.Common.Maps.Tree
use authzoo.World
use authzoo.World.Logic.{IsSane}
use authzoo.Validator.{TokenValidator}
use authzoo.Tasks.{◌>>=◌, atomic, step_of, interleave, done, pool, EndWell}
use authzoo.Threads.{
  configure_client, discovery_client, fetch_key, key_or_fetch, discovery_decoding_key,
  key_or_discover, named_if_ok, Request, validating_for_role, validating, accepted, named,
  validate_allowed, validate_token_for_role, validate_for_role, validate_roles, validate, serve,
  threads,
}
use authzoo.Threads.Provenance.{IsJustified, interleave-IsJustified}
use authzoo.Threads.Safety.{AnyReturns, interleave-IsSane}
use authzoo.Validator
use authzoo.Keys
use authzoo.Discovery
use authzoo.Examples.Samples.{json, jwt, env, start, claims, jwks}

abbrev online : Environment
online = record env {
  get_openid_configuration = λ n c u. fetched (text "https://ci/jwks");
  get_jwks = λ n c u. fetched jwks;
}

abbrev keyless : RoleConfig
keyless = record {
  name = text "ci";
  audience = text "authzoo";
  issuer = text "https://ci";
  validation_key = none;
  algorithms = es256 ∷ [];
  claims = [];
}

abbrev validator : TokenValidator
validator = record { roles = (text "ci", keyless) ∷ [] }

finds : (set : JwkSet) (id : Text) (found : Jwk) → jwt.find set id ≡ some found → At found set.keys
finds set id found h = cc

abbrev requests : List Request
requests =
    validating_for_role validator (text "ci") (text "good")
    ∷ validating validator (text "good")
    ∷ []

-- Turns for both, one after the other.
abbrev both : ℕ → List ℕ
both zero = []
both (suc n) = 0 ∷ 1 ∷ both n

interleave-IsJustified_example :
    EndWell
      (λ request. Post (IsJustified json jwt online finds request))
      requests
      (interleave (both 17) (threads json jwt online requests) start).0
interleave-IsJustified_example =
    interleave-IsJustified json jwt online finds requests (both 17) start refl

-- After their turns both threads have returned; each looked into the cache before the other stored.
both_return :
    (interleave (both 17) (threads json jwt online requests) start).0
    ≡ done (ok (accepted claims)) ∷ done (ok (named (text "ci" ∷ []))) ∷ []
unfolding serve pool validate_for_role validate_token_for_role validate_allowed key_or_discover
    ◌>>=◌ atomic interleave step_of ask World.◌>>=◌ allows_algorithm to_algorithm text_beq
    Algorithm-discrete KeyAlgorithm-discrete require_claims first_missing_required_claim validate
    validate_roles named_if_ok discovery_decoding_key discovery_client configure_client
    is_kubernetes_service_issuer trim_end_matches received cached_jwks_key read_cache checked_key
    get_or_init fetch_key key_or_fetch cache_jwks_key write_cache new_key selector_for
    select_jwk_for_token select_by_algorithm next_match jwk_matches_algorithm ensure_jwk_compatible
    key_algorithm_matches key_type_matches key_algorithm_for_algorithm KeyCache.get KeyCache.insert
    KeyCache.new KeyCache.put KeyCache.mark_used KeyCache.evict_expired KeyCache.evict_lru
    KeyCache.evict_loop KeyCache.expired_keys KeyCache.forget_all Hash.get Hash.insert Hash.remove
    Tree.get
both_return = refl

decode-Returns : (n : ℕ) (t k : Text) (w : Validation) → Returns (jwt.decode n t k w)
decode-Returns n t k w = ground arith

interleave-IsSane_example :
    IsSane (interleave (both 17) (threads json jwt online requests) start).1
    × EndWell
        (AnyReturns json jwt online decode-Returns)
        requests
        (interleave (both 17) (threads json jwt online requests) start).0
interleave-IsSane_example =
    interleave-IsSane json jwt online decode-Returns requests (both 17) start (tt, refl)

-- The state in which both threads have returned, the key in the cache.
abbrev shared : State
shared = (interleave (both 17) (threads json jwt online requests) start).1
