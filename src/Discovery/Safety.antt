-- ===== src/Discovery/Safety.antt =====
-- Panics and the global key cache under the key discovery of authzoo/src/discovery.rs.
use authzoo.Common.{
  ◌*◌, Option, none, some, Text, is_empty, trim, Result, ok, err, Returns, outcome, returned,
  failed, panicked,
}
use authzoo.Jwt.{Algorithm, Jwt, Jwk}
use authzoo.Config.{RoleConfig, Failure, AuthzooError, other, client_build_failed}
use authzoo.Jwks.{ensure_jwk_compatible}
use authzoo.Jwks.Fitting.{IsHandled}
use authzoo.Jwks.Selection.{ensure_jwk_compatible-Returns, select_jwk_for_token-Returns}
use authzoo.KeyCache.{JwksKeyCache, JwksKeyCacheKey}
use authzoo.KeyCache.Invariant.{IsValid, new-IsValid, insert-IsValid, get-IsValid}
use authzoo.World.{
  Client, Fetch, unsent, error_status, unparsable, fetched, Environment, State, ◌>>=◌, ask,
}
use authzoo.World.Logic.{
  IsSafe, IsSane, IsSaneCache, IsSafe-pure, IsSafe-lift, IsSafe-expect, IsSafe-ask, IsSafe-if,
  wrap-Returns, if_false,
}
use authzoo.Discovery
use authzoo.Discovery.{
  get_or_init, checked_key, read_cache, cached_jwks_key, write_cache, cache_jwks_key,
  add_root_certificate, add_authorization, default_client, received, is_kubernetes_service_issuer,
}
use authzoo.Tasks.{done}
use authzoo.Threads.{
  configure_in_cluster_client, configure_client, discovery_client, fetch_key, key_or_fetch,
  discovery_decoding_key,
}
use authzoo.Threads.Sequential.{discovery_decoding_key-Runs}
use authzoo.Threads.Rules.{
  IsSafeThread, IsSafeThread->>=, IsSafeThread-atomic, IsSafeThread-if, IsSafeThread-IsSafe,
}

get_or_init-IsValid : (o : Option JwksKeyCache) → IsSaneCache o → IsValid (get_or_init o)
unfolding get_or_init
get_or_init-IsValid none h = new-IsValid 100 (60 * 60)
get_or_init-IsValid (some c) h = h

checked_key-IsSafe :
    (found : Option Jwk) (a : Algorithm) → IsHandled a → IsSafe (checked_key found a)
unfolding checked_key
checked_key-IsSafe none a h s k = (tt, k)
checked_key-IsSafe (some jwk) a h s k = elim (outcome (ensure_jwk_compatible jwk a)) [
  | returned u e ↦ rw (e, checked_key) (tt, k)
  | failed x e ↦ rw (e, checked_key) (tt, k)
  | panicked e ↦ absurd (rw e at (ensure_jwk_compatible-Returns jwk a h))
]

received-IsSafe :
    {A : Type 0} (answer : Fetch A) (e e' e'' : Failure) → IsSafe (received answer e e' e'')
unfolding received
received-IsSafe unsent e e' e'' s k = (tt, k)
received-IsSafe error_status e e' e'' s k = (tt, k)
received-IsSafe unparsable e e' e'' s k = (tt, k)
received-IsSafe (fetched a) e e' e'' s k = (tt, k)

module _ (env : Environment) where
  read_cache-IsSafe :
      (key : JwksKeyCacheKey) (a : Algorithm) → IsHandled a → IsSafe (read_cache env key a)
  unfolding read_cache ask ◌>>=◌
  read_cache-IsSafe key a h s (k, p) =
      let now = env.now s.calls in
      let v = get-IsValid key now (get_or_init s.cache) (get_or_init-IsValid s.cache k) in
      checked_key-IsSafe _ a h _ (v, p)

  cached_jwks_key-IsSafe :
      (key : JwksKeyCacheKey) (a : Algorithm) → IsHandled a → IsSafe (cached_jwks_key env key a)
  unfolding cached_jwks_key
  cached_jwks_key-IsSafe key a h s (k, p) =
      if_false (λ (r : Result AuthzooError (Option Jwk) × State). Returns r.0 × IsSane r.1)
        s.poisoned _ _ p (read_cache-IsSafe key a h s (k, p))

  cache_jwks_key-IsSafe : (key : JwksKeyCacheKey) (jwk : Jwk) → IsSafe (cache_jwks_key env key jwk)
  unfolding cache_jwks_key write_cache ask ◌>>=◌
  cache_jwks_key-IsSafe key jwk s (k, p) =
      if_false (λ (r : Result AuthzooError (Unit {0}) × State). Returns r.0 × IsSane r.1) s.poisoned
        _ _ p
        (
          tt,
          (
            insert-IsValid key jwk (env.now s.calls) (get_or_init s.cache)
                (get_or_init-IsValid s.cache k),
            p,
          ),
        )

  add_root_certificate-IsSafe :
      (pem : Option Text) (client : Client) → IsSafe (add_root_certificate env pem client)
  unfolding add_root_certificate
  add_root_certificate-IsSafe none client = IsSafe-pure client
  add_root_certificate-IsSafe (some pem) client =
      IsSafe-if (env.is_certificate pem) _ _ (λ s k. (tt, k)) (λ s k. (tt, k))

  add_authorization-IsSafe :
      (token : Option Text) (client : Client) → IsSafe (add_authorization env token client)
  unfolding add_authorization
  add_authorization-IsSafe none client = IsSafe-pure client
  add_authorization-IsSafe (some token) client =
      IsSafe-if (is_empty (trim token)) _ _ (λ s k. (tt, k))
        (IsSafe-if _ _ _ (λ s k. (tt, k)) (λ s k. (tt, k)))

  configure_in_cluster_client-IsSafeThread :
      (client : Client) → IsSafeThread (configure_in_cluster_client env client)
  unfolding configure_in_cluster_client
  configure_in_cluster_client-IsSafeThread client =
      IsSafeThread->>= _ _ (IsSafeThread-atomic _ (IsSafe-ask _)) λ ca.
        IsSafeThread->>= _ _ (IsSafeThread-atomic _ (add_root_certificate-IsSafe ca client))
          λ trusting.
            IsSafeThread->>= _ _ (IsSafeThread-atomic _ (IsSafe-ask _))
              λ token. IsSafeThread-atomic _ (add_authorization-IsSafe token trusting)

  configure_client-IsSafeThread : (role : RoleConfig) → IsSafeThread (configure_client env role)
  unfolding configure_client
  configure_client-IsSafeThread role =
      IsSafeThread-if (is_kubernetes_service_issuer role.issuer) _ (done (ok default_client))
        (configure_in_cluster_client-IsSafeThread default_client) tt

  discovery_client-IsSafeThread : (role : RoleConfig) → IsSafeThread (discovery_client env role)
  unfolding discovery_client
  discovery_client-IsSafeThread role =
      IsSafeThread->>= _ _ (configure_client-IsSafeThread role) λ client.
        IsSafeThread-if (env.can_build client) (done (ok client))
          (done (err (other client_build_failed))) tt tt

  module _ {V K : Type 0} (jwt : Jwt V K) (a : Algorithm) (h : IsHandled a) where
    fetch_key-IsSafeThread :
        (client : Client) (uri : Text) (kid : Option Text) (key : JwksKeyCacheKey)
        → IsSafeThread (fetch_key env jwt client uri kid a key)
    unfolding fetch_key
    fetch_key-IsSafeThread client uri kid key =
        IsSafeThread->>= _ _ (IsSafeThread-atomic _ (IsSafe-ask _)) λ answer.
          IsSafeThread->>= _ _ (IsSafeThread-atomic _ (received-IsSafe answer _ _ _)) λ jwks.
            IsSafeThread->>= _ _
              (IsSafeThread-atomic _ (
                IsSafe-lift _
                  (wrap-Returns _ (select_jwk_for_token-Returns jwt.find jwks kid a h))))
              λ jwk.
                IsSafeThread->>= _ _ (IsSafeThread-atomic _ (cache_jwks_key-IsSafe key jwk))
                  λ _. IsSafeThread-atomic _ (IsSafe-expect (jwt.from_jwk jwk) _)

    key_or_fetch-IsSafeThread :
        (found : Option Jwk) (client : Client) (uri : Text) (kid : Option Text)
        (key : JwksKeyCacheKey)
        → IsSafeThread (key_or_fetch env jwt found client uri kid a key)
    unfolding key_or_fetch
    key_or_fetch-IsSafeThread none client uri kid key = fetch_key-IsSafeThread client uri kid key
    key_or_fetch-IsSafeThread (some jwk) client uri kid key =
        IsSafeThread-atomic _ (IsSafe-expect (jwt.from_jwk jwk) _)

    pub discovery_decoding_key-IsSafeThread :
        (role : RoleConfig) (token : Text)
        → IsSafeThread (discovery_decoding_key env jwt role token a)
    unfolding discovery_decoding_key
    discovery_decoding_key-IsSafeThread role token =
        IsSafeThread->>= _ _ (IsSafeThread-atomic _ (IsSafe-expect (jwt.decode_header token) _))
          λ header. IsSafeThread->>= _ _ (discovery_client-IsSafeThread role) λ client.
            IsSafeThread->>= _ _ (IsSafeThread-atomic _ (IsSafe-ask _)) λ answer.
              IsSafeThread->>= _ _ (IsSafeThread-atomic _ (received-IsSafe answer _ _ _)) λ uri.
                IsSafeThread->>= _ _ (IsSafeThread-atomic _ (cached_jwks_key-IsSafe _ a h))
                  λ found. key_or_fetch-IsSafeThread found client uri header.kid _

    -- On a handled algorithm, discovery does not panic and leaves a sane state.
    pub discovery_decoding_key-IsSafe :
        (role : RoleConfig) (token : Text)
        → IsSafe (Discovery.discovery_decoding_key env jwt role token a)
    discovery_decoding_key-IsSafe role token =
        IsSafeThread-IsSafe _ _ (discovery_decoding_key-Runs env jwt role token a)
          (discovery_decoding_key-IsSafeThread role token)
