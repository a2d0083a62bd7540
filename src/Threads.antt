-- ===== src/Threads.antt =====
-- The callers of authzoo/src/validator.rs on several threads, which share the key cache of
-- authzoo/src/discovery.rs: `validate_for_role` and `validate` step by step. A step is one of the two
-- sections under the lock of `JWKS_KEY_CACHE`, one call to the outside, or code that shares nothing.
pub mod Sequential
pub mod Rules
pub mod Provenance
pub mod Safety
use authzoo.Common.{
  Bool, ◌++◌, Option, none, some, List, [], ◌∷◌, Text, text, Result, ok, err, panic, if◌then◌else◌,
}
use authzoo.Common.Maps.Tree
use authzoo.Common.Maps.Tree.{BTreeMap}
use authzoo.Jwt.{Algorithm, Json, Jwt, Jwk, Validation, ValidatedClaims}
use authzoo.Config.{
  RoleConfig, AuthzooError, discovery_header_undecodable, openid_fetch_failed, openid_error_status,
  openid_unparsable, jwks_fetch_failed, jwks_error_status, jwks_unparsable, client_build_failed,
  cached_jwk_unusable, discovered_jwk_unusable, header_undecodable, algorithm_not_allowed,
  unknown_role, other, allows_algorithm,
}
use authzoo.Claims.{require_claims}
use authzoo.Jwks.{select_jwk_for_token, kid_or}
use authzoo.Keys.{decoding_key_for_algorithm}
use authzoo.KeyCache.{JwksKeyCacheKey, new_key}
use authzoo.World.{Environment, Client, State, pure, fail, lift, wrap, expect, ask}
use authzoo.Discovery.{
  add_root_certificate, add_authorization, default_client, is_kubernetes_service_issuer,
  openid_configuration_url, received, cached_jwks_key, cache_jwks_key,
}
use authzoo.Validator.{TokenValidator, with_role, prepend}
use authzoo.Tasks.{Task, done, step, ◌>>=◌, ◌>>◌, atomic, pool}

abbrev pub Thread : Type 0 → Type 0
Thread A = Task State AuthzooError A

module _ (env : Environment) where
  unfoldable pub configure_in_cluster_client : Client → Thread Client
  configure_in_cluster_client client = do
    ca ← atomic (ask env.read_ca_certificate)
    trusting ← atomic (add_root_certificate env ca client)
    token ← atomic (ask env.read_service_account_token)
    atomic (add_authorization env token trusting)

  unfoldable pub configure_client : RoleConfig → Thread Client
  configure_client role =
      if is_kubernetes_service_issuer role.issuer
      then configure_in_cluster_client default_client
      else done (ok default_client)

  unfoldable pub discovery_client : RoleConfig → Thread Client
  discovery_client role = do
    client ← configure_client role
    if env.can_build client then done (ok client) else done (err (other client_build_failed))

  module _ {V K : Type 0} (jwt : Jwt V K) where
    -- The key of a JWK that was fetched just now.
    unfoldable pub fetch_key : Client → Text → Option Text → Algorithm → JwksKeyCacheKey → Thread K
    fetch_key client jwks_uri kid algorithm cache_key = do
      answer ← atomic (ask (λ n. env.get_jwks n client jwks_uri))
      jwks ← atomic (
          received answer (jwks_fetch_failed jwks_uri) (jwks_error_status jwks_uri)
            (jwks_unparsable jwks_uri))
      jwk ← atomic (lift (wrap (select_jwk_for_token jwt.find jwks kid algorithm)))
      atomic (cache_jwks_key env cache_key jwk)
      atomic (expect (jwt.from_jwk jwk) (discovered_jwk_unusable (kid_or jwk.common.key_id)))

    -- What follows `cached_jwks_key`.
    unfoldable pub key_or_fetch :
        Option Jwk → Client → Text → Option Text → Algorithm → JwksKeyCacheKey → Thread K
    key_or_fetch (some jwk) client jwks_uri kid algorithm cache_key =
        atomic (expect (jwt.from_jwk jwk) (cached_jwk_unusable (kid_or jwk.common.key_id)))
    key_or_fetch none client jwks_uri kid algorithm cache_key =
        fetch_key client jwks_uri kid algorithm cache_key

    unfoldable pub discovery_decoding_key : RoleConfig → Text → Algorithm → Thread K
    discovery_decoding_key role token algorithm = do
      header ← atomic (expect (jwt.decode_header token) discovery_header_undecodable)
      let url = openid_configuration_url role
      client ← discovery_client role
      answer ← atomic (ask (λ n. env.get_openid_configuration n client url))
      jwks_uri ← atomic (
          received answer (openid_fetch_failed url) (openid_error_status url)
            (openid_unparsable url))
      let cache_key = new_key jwt.debug_algorithm jwks_uri header.kid algorithm
      cached ← atomic (cached_jwks_key env cache_key algorithm)
      key_or_fetch cached client jwks_uri header.kid algorithm cache_key

    unfoldable pub key_or_discover : Option Text → RoleConfig → Text → Algorithm → Thread K
    key_or_discover (some validation_key) role token algorithm =
        atomic (lift (wrap (decoding_key_for_algorithm jwt validation_key algorithm)))
    key_or_discover none role token algorithm = discovery_decoding_key role token algorithm

-- What `filter_map` does with the result of one role, in `TokenValidator::validate`.
unfoldable pub named_if_ok : {V : Type 0} → Text → Thread V → Thread (Option Text)
named_if_ok name (done (ok _)) = done (ok (some name))
named_if_ok name (done (err _)) = done (ok none)
named_if_ok name (done panic) = done panic
named_if_ok name (step write rest) = step write (λ s. named_if_ok name (rest s))

-- A call of a `TokenValidator`, and what it returns.
pub data Request : Type 0 where
  validating_for_role : TokenValidator → Text → Text → Request
  validating : TokenValidator → Text → Request

pub data Answer (V : Type 0) : Type 0 where
  accepted : ValidatedClaims V → Answer V
  named : List Text → Answer V

module _ {V K : Type 0} (json : Json V) (jwt : Jwt V K) (env : Environment) where
  -- `validate_token_for_role`, once the algorithm is allowed.
  unfoldable pub validate_allowed : RoleConfig → Text → Algorithm → Thread (ValidatedClaims V)
  validate_allowed role token algorithm = do
    decoding_key ← key_or_discover env jwt role.validation_key role token algorithm
    let validation : Validation = record {
      algorithm = algorithm;
      audience = role.audience;
      issuer = role.issuer;
    }
    decoded ← atomic (ask (λ n. jwt.decode n token decoding_key validation))
    claims ← atomic (lift (with_role role.name decoded))
    atomic (lift (require_claims json claims role.claims))
    done (ok claims)

  unfoldable pub validate_token_for_role : RoleConfig → Text → Thread (ValidatedClaims V)
  validate_token_for_role role token = do
    header ← atomic (expect (jwt.decode_header token) (header_undecodable role.name))
    let algorithm = header.alg
    if allows_algorithm role algorithm
        then validate_allowed role token algorithm
        else done (err (algorithm_not_allowed role.name algorithm))

  -- `TokenValidator::validate_for_role`.
  unfoldable pub validate_for_role : TokenValidator → Text → Text → Thread (ValidatedClaims V)
  validate_for_role v role_name token = elim (Tree.get role_name v.roles) [
    | none ↦ done (err (unknown_role role_name))
    | some role ↦ validate_token_for_role role token
  ]

  unfoldable pub validate_roles : BTreeMap RoleConfig → Text → Thread (List Text)
  validate_roles [] token = done (ok [])
  validate_roles ((name, role) ∷ roles) token = do
    found ← named_if_ok name (validate_token_for_role role token)
    names ← validate_roles roles token
    done (ok (prepend found names))

  -- `TokenValidator::validate`.
  unfoldable pub validate : TokenValidator → Text → Thread (List Text)
  validate v token = validate_roles v.roles token

  unfoldable pub serve : Request → Thread (Answer V)
  serve (validating_for_role v role_name token) =
      validate_for_role v role_name token >>= λ claims. done (ok (accepted claims))
  serve (validating v token) = validate v token >>= λ names. done (ok (named names))

  -- The threads of a process, one for each call.
  abbrev pub threads : List Request → List (Thread (Answer V))
  threads requests = pool serve requests
