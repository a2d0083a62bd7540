-- ===== src/Discovery.antt =====
-- Key discovery: `discovery_decoding_key` of authzoo/src/discovery.rs, with the HTTP client that it
-- configures and the global key cache.
pub mod Safety
pub mod Sources
pub mod Provenance
use authzoo.Common.{
  ℕ, ◌*◌, Bool, true, false, not, ◌||◌, ◌++◌, Option, none, some, List, [], ◌∷◌, Text, text,
  text_beq, nat_beq, trim_end_matches, trim, is_whitespace, is_empty, contains, text_eq, Result, ok,
  err, panic, if◌then◌else◌,
}
use authzoo.Jwt.{Algorithm, Jwt, Jwk, JwkSet, Header}
use authzoo.Config.{
  RoleConfig, AuthzooError, Failure, other, discovery_header_undecodable, openid_fetch_failed,
  openid_error_status, openid_unparsable, jwks_fetch_failed, jwks_error_status, jwks_unparsable,
  client_build_failed, ca_certificate_invalid, authorization_invalid, cached_jwk_unusable,
  discovered_jwk_unusable,
}
use authzoo.Jwks.{ensure_jwk_compatible, select_jwk_for_token, kid_or}
use authzoo.KeyCache
use authzoo.KeyCache.{JwksKeyCache, JwksKeyCacheKey, new_key}
use authzoo.World.{
  Client, Fetch, unsent, error_status, unparsable, fetched, Environment, State, M, ◌>>=◌, ◌>>◌,
  bind, pure, fail, lift, wrap, expect, ask,
}

abbrev pub kubernetes_service_host_aliases : List Text
kubernetes_service_host_aliases =
    text "https://kubernetes.default.svc" ∷ text "https://kubernetes.default.svc.cluster.local" ∷ []

abbrev pub jwks_key_cache_capacity : ℕ
jwks_key_cache_capacity = 100

-- In seconds, as the clock of the model.
abbrev pub jwks_key_cache_ttl : ℕ
jwks_key_cache_ttl = 60 * 60

-- `trim_end_matches('/')`.
abbrev pub trim_slashes : Text → Text
trim_slashes = trim_end_matches (λ c. nat_beq c b'/')

unfoldable pub is_kubernetes_service_issuer : Text → Bool
is_kubernetes_service_issuer issuer = contains (trim_slashes issuer) kubernetes_service_host_aliases

-- `JWKS_KEY_CACHE.get_or_init(…)`.
unfoldable pub get_or_init : Option JwksKeyCache → JwksKeyCache
get_or_init none = KeyCache.new jwks_key_cache_capacity jwks_key_cache_ttl
get_or_init (some cache) = cache

abbrev pub keep_cache : JwksKeyCache → State → State
keep_cache cache s = record s { cache = some cache }

-- The end of `cached_jwks_key`, under the lock: `ensure_jwk_compatible(…).ok()?`, where a panic
-- poisons the lock.
unfoldable pub checked_key : Option Jwk → Algorithm → M (Option Jwk)
checked_key none algorithm s = (ok none, s)
checked_key (some jwk) algorithm s = elim (ensure_jwk_compatible jwk algorithm) [
  | ok _ ↦ (ok (some jwk), s)
  | err _ ↦ (ok none, s)
  | panic ↦ (panic, record s { poisoned = true })
]

abbrev pub default_client : Client
default_client = record { root_certificate = none; authorization = none }

-- `.send()?.error_for_status()?.json()?`, with the message of each step.
unfoldable pub received : {A : Type 0} → Fetch A → Failure → Failure → Failure → M A
received unsent e e' e'' = fail (other e)
received error_status e e' e'' = fail (other e')
received unparsable e e' e'' = fail (other e'')
received (fetched a) e e' e'' = pure a

abbrev pub openid_configuration_url : RoleConfig → Text
openid_configuration_url role = trim_slashes role.issuer ++ text "/.well-known/openid-configuration"

module _ (env : Environment) where
  unfoldable pub read_cache : JwksKeyCacheKey → Algorithm → M (Option Jwk)
  read_cache key algorithm s =
      (do
        now ← ask env.now
        (λ t.
            let (cache, found) = KeyCache.get key now (get_or_init t.cache) in
            checked_key found algorithm (keep_cache cache t)))
        s

  unfoldable pub cached_jwks_key : JwksKeyCacheKey → Algorithm → M (Option Jwk)
  cached_jwks_key key algorithm s =
      if s.poisoned
      then (ok none, keep_cache (get_or_init s.cache) s)
      else read_cache key algorithm s

  unfoldable pub write_cache : JwksKeyCacheKey → Jwk → M (Unit {0})
  write_cache key jwk = do
    now ← ask env.now
    (λ t. (ok tt, keep_cache (KeyCache.insert key jwk now (get_or_init t.cache)) t))

  unfoldable pub cache_jwks_key : JwksKeyCacheKey → Jwk → M (Unit {0})
  cache_jwks_key key jwk s =
      if s.poisoned then (ok tt, keep_cache (get_or_init s.cache) s) else write_cache key jwk s

  -- `if let Ok(ca_cert_pem) = std::fs::read(…)`.
  unfoldable pub add_root_certificate : Option Text → Client → M Client
  add_root_certificate none client = pure client
  add_root_certificate (some pem) client =
      if env.is_certificate pem
      then pure (record client { root_certificate = some pem })
      else fail (other ca_certificate_invalid)

  -- `if let Ok(service_account_token) = std::fs::read_to_string(…)`.
  unfoldable pub add_authorization : Option Text → Client → M Client
  add_authorization none client = pure client
  add_authorization (some service_account_token) client =
      let token = trim service_account_token in
      let bearer = text "Bearer " ++ token in
      if is_empty token
      then pure client
      else (if env.is_header_value bearer
          then pure (record client { authorization = some bearer })
          else fail (other authorization_invalid))

  unfoldable pub configure_in_cluster_client : Client → M Client
  configure_in_cluster_client client = do
    ca ← ask env.read_ca_certificate
    trusting ← add_root_certificate ca client
    token ← ask env.read_service_account_token
    add_authorization token trusting

  unfoldable pub configure_client : RoleConfig → M Client
  configure_client role =
      if is_kubernetes_service_issuer role.issuer
      then configure_in_cluster_client default_client
      else pure default_client

  unfoldable pub discovery_client : RoleConfig → M Client
  discovery_client role = do
    client ← configure_client role
    if env.can_build client then pure client else fail (other client_build_failed)

  module _ {V K : Type 0} (jwt : Jwt V K) where
    -- The key of a JWK that was fetched just now.
    unfoldable pub fetch_key : Client → Text → Option Text → Algorithm → JwksKeyCacheKey → M K
    fetch_key client jwks_uri kid algorithm cache_key = do
      answer ← ask (λ n. env.get_jwks n client jwks_uri)
      jwks ←
          received answer (jwks_fetch_failed jwks_uri) (jwks_error_status jwks_uri)
            (jwks_unparsable jwks_uri)
      jwk ← lift (wrap (select_jwk_for_token jwt.find jwks kid algorithm))
      cache_jwks_key cache_key jwk
      expect (jwt.from_jwk jwk) (discovered_jwk_unusable (kid_or jwk.common.key_id))

    -- What follows `cached_jwks_key`.
    unfoldable pub key_or_fetch :
        Option Jwk → Client → Text → Option Text → Algorithm → JwksKeyCacheKey → M K
    key_or_fetch (some jwk) client jwks_uri kid algorithm cache_key =
        expect (jwt.from_jwk jwk) (cached_jwk_unusable (kid_or jwk.common.key_id))
    key_or_fetch none client jwks_uri kid algorithm cache_key =
        fetch_key client jwks_uri kid algorithm cache_key

    unfoldable pub discovery_decoding_key : RoleConfig → Text → Algorithm → M K
    discovery_decoding_key role token algorithm = do
      header ← expect (jwt.decode_header token) discovery_header_undecodable
      let url = openid_configuration_url role
      client ← discovery_client role
      answer ← ask (λ n. env.get_openid_configuration n client url)
      jwks_uri ←
          received answer (openid_fetch_failed url) (openid_error_status url)
            (openid_unparsable url)
      let cache_key = new_key jwt.debug_algorithm jwks_uri header.kid algorithm
      cached ← cached_jwks_key cache_key algorithm
      key_or_fetch cached client jwks_uri header.kid algorithm cache_key
