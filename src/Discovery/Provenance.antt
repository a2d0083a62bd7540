-- ===== src/Discovery/Provenance.antt =====
-- Where the keys come from that the discovery of authzoo/src/discovery.rs returns.
use authzoo.Common.{ℕ, ◌≡◌, refl, ◌∙◌, Option, none, some, Text, is_empty, trim, At, ok}
use mathlib.Core.Path.{subst}
use authzoo.Jwt.{Algorithm, Jwt, Jwk, JwkSet}
use authzoo.Config.{RoleConfig, Failure}
use authzoo.Jwks.{select_jwk_for_token}
use authzoo.Jwks.Fitting.{Fits}
use authzoo.Jwks.Selection.{select_jwk_for_token-Fits, select_jwk_for_token_iff}
use authzoo.KeyCache.{JwksKeyCacheKey, new_key}
use authzoo.World.{Client, fetched, Environment, State, wrap, expect}
use authzoo.World.Logic.{wrap-eq-ok}
use authzoo.World.Triples.{Post, Keeps, Keeps-lift, Keeps-expect, Keeps-ask, Keeps-if, Keeps-map}
use authzoo.Discovery
use authzoo.Discovery.{
  add_root_certificate, add_authorization, default_client, is_kubernetes_service_issuer,
  openid_configuration_url,
}
use authzoo.Threads.{
  configure_in_cluster_client, configure_client, discovery_client, fetch_key, key_or_fetch,
  discovery_decoding_key,
}
use authzoo.Threads.Sequential.{discovery_decoding_key-Runs}
use authzoo.Threads.Rules.{Makes, Makes->>=, Makes-atomic, Makes-if, Makes-map, Makes-Keeps}
use authzoo.Discovery.Sources.{
  IsFetched, IsSourced, Usable, IsChosen-At, received-fetched, cached_jwks_key-Usable,
  cache_jwks_key-Keeps,
}

module _ (env : Environment) where
  AnyClient : Client → Type 0
  AnyClient client = Unit

  add_root_certificate-Keeps :
      (pem : Option Text) (client : Client)
      → Keeps (IsSourced env) AnyClient (add_root_certificate env pem client)
  unfolding add_root_certificate AnyClient
  add_root_certificate-Keeps none client = λ s i. (i, tt)
  add_root_certificate-Keeps (some pem) client =
      Keeps-if (IsSourced env) AnyClient (env.is_certificate pem) _ _ (λ s i. (i, tt))
        (λ s i. (i, tt))

  add_authorization-Keeps :
      (token : Option Text) (client : Client)
      → Keeps (IsSourced env) AnyClient (add_authorization env token client)
  unfolding add_authorization AnyClient
  add_authorization-Keeps none client = λ s i. (i, tt)
  add_authorization-Keeps (some token) client =
      Keeps-if (IsSourced env) AnyClient (is_empty (trim token)) _ _ (λ s i. (i, tt))
        (Keeps-if (IsSourced env) AnyClient _ _ _ (λ s i. (i, tt)) (λ s i. (i, tt)))

  configure_client-Makes :
      (role : RoleConfig) → Makes (IsSourced env) AnyClient (configure_client env role)
  unfolding configure_client configure_in_cluster_client AnyClient
  configure_client-Makes role =
      Makes-if (IsSourced env) AnyClient (is_kubernetes_service_issuer role.issuer) _ _
        (Makes->>= (IsSourced env) _ AnyClient _ _
          (Makes-atomic (IsSourced env) _ _ (Keeps-ask (IsSourced env) env.read_ca_certificate))
          λ ca _.
            Makes->>= (IsSourced env) AnyClient AnyClient _ _
              (Makes-atomic (IsSourced env) AnyClient _
                (add_root_certificate-Keeps ca default_client))
              λ trusting _.
                Makes->>= (IsSourced env) _ AnyClient _ _
                  (Makes-atomic (IsSourced env) _ _
                    (Keeps-ask (IsSourced env) env.read_service_account_token))
                  λ token _.
                    Makes-atomic (IsSourced env) AnyClient _
                      (add_authorization-Keeps token trusting))
        tt

  discovery_client-Makes :
      (role : RoleConfig) → Makes (IsSourced env) AnyClient (discovery_client env role)
  unfolding discovery_client AnyClient
  discovery_client-Makes role =
      Makes->>= (IsSourced env) AnyClient AnyClient _ _ (configure_client-Makes role)
        λ client _. Makes-if (IsSourced env) AnyClient (env.can_build client) _ _ tt tt

  module _ {V K : Type 0} (jwt : Jwt V K)
      (finds : (jwks : JwkSet) (id : Text) (jwk : Jwk)
        → jwt.find jwks id ≡ some jwk
        → At jwk jwks.keys) where
    -- A key read from a usable JWK of the address.
    abbrev IsKeyAt : Text → Algorithm → K → Type 0
    IsKeyAt uri a key =
        (jwk : Jwk) × IsFetched env uri jwk × Fits jwk a × (jwt.from_jwk jwk ≡ some key)

    expect-IsKeyAt :
        (uri : Text) (jwk : Jwk) (a : Algorithm) (e : Failure)
        → IsFetched env uri jwk
        → Fits jwk a
        → Keeps (IsSourced env) (IsKeyAt uri a) (expect (jwt.from_jwk jwk) e)
    expect-IsKeyAt uri jwk a e source fits =
        Keeps-map (IsSourced env) (λ key. jwt.from_jwk jwk ≡ some key) (IsKeyAt uri a)
          (expect (jwt.from_jwk jwk) e) (λ key made. (jwk, source, fits, made))
          (Keeps-expect (IsSourced env) (jwt.from_jwk jwk) e)

    fetched_source :
        (client : Client) (uri : Text) (kid : Option Text) (a : Algorithm) (call : ℕ)
        (jwks : JwkSet) (jwk : Jwk)
        → env.get_jwks call client uri ≡ fetched jwks
        → select_jwk_for_token jwt.find jwks kid a ≡ ok jwk
        → IsFetched env uri jwk
    fetched_source client uri kid a call jwks jwk answered chosen = record {
      call = call;
      client = client;
      jwks = jwks;
      answered = answered;
      held =
          IsChosen-At jwt.find jwks kid a jwk (λ id. finds jwks id jwk)
            ((select_jwk_for_token_iff jwt.find jwks kid a jwk).0 chosen);
    }

    fetch_key-IsKeyAt :
        (client : Client) (uri : Text) (kid : Option Text) (a : Algorithm) (k : JwksKeyCacheKey)
        → k.jwks_uri ≡ uri
        → Makes (IsSourced env) (IsKeyAt uri a) (fetch_key env jwt client uri kid a k)
    unfolding fetch_key
    fetch_key-IsKeyAt client uri kid a k at =
        Makes->>= (IsSourced env) _ (IsKeyAt uri a) _ _
          (Makes-atomic (IsSourced env) _ _
            (Keeps-ask (IsSourced env) (λ n. env.get_jwks n client uri)))
          λ answer (call, asked).
            Makes->>= (IsSourced env) _ (IsKeyAt uri a) _ _
              (Makes-atomic (IsSourced env) _ _ (received-fetched (IsSourced env) answer _ _ _))
              λ jwks got.
                Makes->>= (IsSourced env) _ (IsKeyAt uri a) _ _
                  (Makes-atomic (IsSourced env) _ _
                    (Keeps-lift (IsSourced env) (wrap (select_jwk_for_token jwt.find jwks kid a))))
                  λ jwk picked.
                    let chosen = wrap-eq-ok (select_jwk_for_token jwt.find jwks kid a) picked in
                    let source =
                      fetched_source client uri kid a call jwks jwk (asked ∙ got) chosen in
                    Makes->>= (IsSourced env) (λ _. Unit {0}) (IsKeyAt uri a) _ _
                      (Makes-atomic (IsSourced env) (λ _. Unit {0}) _
                        (cache_jwks_key-Keeps env k jwk (rw at source)))
                      λ _ _. Makes-atomic (IsSourced env) (IsKeyAt uri a) _ (
                        expect-IsKeyAt uri jwk a _ source
                          (select_jwk_for_token-Fits jwt.find jwks kid a jwk chosen))

    key_or_fetch-IsKeyAt :
        (found : Option Jwk) (client : Client) (uri : Text) (kid : Option Text) (a : Algorithm)
        (k : JwksKeyCacheKey)
        → k.jwks_uri ≡ uri
        → Usable env uri a found
        → Makes (IsSourced env) (IsKeyAt uri a) (key_or_fetch env jwt found client uri kid a k)
    unfolding key_or_fetch
    key_or_fetch-IsKeyAt none client uri kid a k at usable = fetch_key-IsKeyAt client uri kid a k at
    key_or_fetch-IsKeyAt (some jwk) client uri kid a k at (source, fits) =
        Makes-atomic (IsSourced env) (IsKeyAt uri a) _ (expect-IsKeyAt uri jwk a _ source fits)

    -- A key of the issuer: of a key set that was fetched from the address that the issuer's OpenID
    -- configuration named, fitting the algorithm.
    pub record IsIssuers (role : RoleConfig) (a : Algorithm) (key : K) : Type 0 where
      pub call : ℕ
      pub client : Client
      pub uri : Text
      pub named :
          env.get_openid_configuration call client (openid_configuration_url role) ≡ fetched uri
      pub jwk : Jwk
      pub source : IsFetched env uri jwk
      pub fits : Fits jwk a
      pub read : jwt.from_jwk jwk ≡ some key

    pub discovery_decoding_key-Makes :
        (role : RoleConfig) (token : Text) (a : Algorithm)
        → Makes (IsSourced env) (IsIssuers role a) (discovery_decoding_key env jwt role token a)
    unfolding discovery_decoding_key new_key
    discovery_decoding_key-Makes role token a =
        Makes->>= (IsSourced env) _ (IsIssuers role a) _ _
          (Makes-atomic (IsSourced env) _ _
            (Keeps-expect (IsSourced env) (jwt.decode_header token) _))
          λ header _.
            Makes->>= (IsSourced env) AnyClient (IsIssuers role a) _ _ (discovery_client-Makes role)
              λ client _.
                Makes->>= (IsSourced env) _ (IsIssuers role a) _ _
                  (Makes-atomic (IsSourced env) _ _ (Keeps-ask (IsSourced env) _))
                  λ answer (call, asked).
                    Makes->>= (IsSourced env) _ (IsIssuers role a) _ _
                      (Makes-atomic (IsSourced env) _ _
                        (received-fetched (IsSourced env) answer _ _ _))
                      λ uri got.
                        Makes->>= (IsSourced env) (Usable env uri a) (IsIssuers role a) _ _
                          (Makes-atomic (IsSourced env) (Usable env uri a) _
                            (cached_jwks_key-Usable env uri _ a refl))
                          λ found usable.
                            Makes-map (IsSourced env) (IsKeyAt uri a) (IsIssuers role a)
                              (key_or_fetch env jwt found client uri header.kid a _)
                              (λ key (jwk, source, fits, read). record {
                                call = call;
                                client = client;
                                uri = uri;
                                named = asked ∙ got;
                                jwk = jwk;
                                source = source;
                                fits = fits;
                                read = read;
                              })
                              (key_or_fetch-IsKeyAt found client uri header.kid a _ refl usable)

    discovery_decoding_key-Keeps :
        (role : RoleConfig) (token : Text) (a : Algorithm)
        → Keeps
            (IsSourced env)
            (IsIssuers role a)
            (Discovery.discovery_decoding_key env jwt role token a)
    discovery_decoding_key-Keeps role token a =
        Makes-Keeps (IsSourced env) (IsIssuers role a) _ _
          (discovery_decoding_key-Runs env jwt role token a)
          (discovery_decoding_key-Makes role token a)

    -- A key that discovery returns is the issuer's: it was read from a JWK that fits the algorithm and
    -- is in a key set fetched, now or when it was cached, from the address that the issuer's OpenID
    -- configuration names. If every cached key was fetched from the address under which it is cached,
    -- that stays so. It relies on `find` to return a key of the set.
    pub discovery_decoding_key-IsIssuers :
        (role : RoleConfig) (token : Text) (a : Algorithm) (s s' : State) (key : K)
        → IsSourced env s.cache
        → Discovery.discovery_decoding_key env jwt role token a s ≡ (ok key, s')
        → IsIssuers role a key × IsSourced env s'.cache
    discovery_decoding_key-IsIssuers role token a s s' key i h =
        let (kept, post) = discovery_decoding_key-Keeps role token a s i in
        (
          subst (λ r. Post (IsIssuers role a) r.0) h post,
          subst (λ r. IsSourced env r.1.cache) h kept,
        )
