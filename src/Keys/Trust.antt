-- ===== src/Keys/Trust.antt =====
-- Which keys verify a token: the results of authzoo/src/keys.rs and of the discovery that it calls.
use authzoo.Common.{
  ◌≡◌, ap, ◌↔◌, inl, inr, Bool-cases, false, Option, none, some, Text, ok, Returns, outcome,
  returned, failed, panicked, arith,
}
use authzoo.Jwt.{Algorithm, hs256, unhandled, Jwt, Jwk, JwkSet}
use authzoo.Config.{RoleConfig, Failure}
use authzoo.Jwks.{ensure_jwk_compatible, select_jwk_for_token}
use authzoo.Jwks.Fitting.{Fits, IsHandled, Family, hmac, rsa_keys, elliptic, edwards, family}
use authzoo.Jwks.Selection.{ensure_jwk_compatible_iff, select_jwk_for_token-Fits}
use authzoo.Keys.{
  looks_like_pem, decoding_key_for_algorithm, key_or_discover, resolving_decoding_key,
}
use authzoo.KeyCache.{JwksKeyCacheKey}
use authzoo.World.Logic.{wrap-eq-ok, Ensures, Ensures->>=, holds_of_ok}
use authzoo.World.{Environment, State, Client, ◌>>=◌, lift, wrap, expect, ask}
use authzoo.Discovery.{
  checked_key, read_cache, cached_jwks_key, fetch_key, key_or_fetch, discovery_decoding_key,
}

module _ {V K : Type 0} (jwt : Jwt V K) where
  -- A configured key for a family of algorithms: a shared secret that is no PEM text, or a PEM text
  -- of that family's kind of key.
  abbrev pub IsKeyOf : Text → K → Option Family → Type 0
  IsKeyOf text key none = ⊥
  IsKeyOf text key (some hmac) = (looks_like_pem text ≡ false) × (key ≡ jwt.from_secret text)
  IsKeyOf text key (some rsa_keys) = jwt.from_rsa_pem text ≡ some key
  IsKeyOf text key (some elliptic) = jwt.from_ec_pem text ≡ some key
  IsKeyOf text key (some edwards) = jwt.from_ed_pem text ≡ some key

  -- A configured key is used exactly as the family of the token's algorithm wants it: a public key
  -- in PEM is never taken for a shared secret.
  pub decoding_key_for_algorithm_iff :
      (validation_key : Text) (algorithm : Algorithm) (key : K)
      → (decoding_key_for_algorithm jwt validation_key algorithm ≡ ok key)
        ↔ IsKeyOf validation_key key (family algorithm)
  unfolding decoding_key_for_algorithm
  decoding_key_for_algorithm_iff k hs256 key = ground arith
  decoding_key_for_algorithm_iff k (unhandled n) key = ground arith
  decoding_key_for_algorithm_iff k a key = ground arith

  pub decoding_key_for_algorithm-Returns :
      (k : Text) (a : Algorithm) → IsHandled a → Returns (decoding_key_for_algorithm jwt k a)
  unfolding decoding_key_for_algorithm
  decoding_key_for_algorithm-Returns k hs256 h = ground arith
  decoding_key_for_algorithm-Returns k a h = ground arith

  -- A key that the role has for the algorithm.
  abbrev pub IsTrusted : Option Text → Algorithm → K → Type 0
  IsTrusted (some validation_key) algorithm key = IsKeyOf validation_key key (family algorithm)
  IsTrusted none algorithm key = (jwk : Jwk) × Fits jwk algorithm × (jwt.from_jwk jwk ≡ some key)

  -- If there is a key, it fits.
  abbrev FitsIfAny : Algorithm → Option Jwk → Type 0
  FitsIfAny a none = Unit
  FitsIfAny a (some jwk) = Fits jwk a

  expect-from_jwk :
      (jwk : Jwk) (a : Algorithm) (e : Failure)
      → Fits jwk a
      → Ensures (IsTrusted none a) (expect (jwt.from_jwk jwk) e)
  expect-from_jwk jwk a e f s s' key h = (jwk, f, ground arith)

  checked_key-FitsIfAny :
      (found : Option Jwk) (a : Algorithm) → Ensures (FitsIfAny a) (checked_key found a)
  unfolding checked_key
  checked_key-FitsIfAny none a s s' o h = holds_of_ok (FitsIfAny a) h tt
  checked_key-FitsIfAny (some k) a s s' o h = elim (outcome (ensure_jwk_compatible k a)) [
    | returned u e ↦
        holds_of_ok (FitsIfAny a) (rw (e, checked_key) at h) ((ensure_jwk_compatible_iff k a).0 e)
    | failed x e ↦ holds_of_ok (FitsIfAny a) (rw (e, checked_key) at h) tt
    | panicked e ↦ cc (rw (e, checked_key) at h)
  ]

  chosen-Fits :
      (jwks : JwkSet) (kid : Option Text) (a : Algorithm)
      → Ensures (λ jwk. Fits jwk a) (lift (wrap (select_jwk_for_token jwt.find jwks kid a)))
  chosen-Fits jwks kid a s s' jwk h =
      select_jwk_for_token-Fits jwt.find jwks kid a jwk (wrap-eq-ok _ (ap (λ p. p.0) h))

  module _ (env : Environment) where
    cached_jwks_key-FitsIfAny :
        (key : JwksKeyCacheKey) (a : Algorithm) → Ensures (FitsIfAny a) (cached_jwks_key env key a)
    unfolding cached_jwks_key read_cache ask ◌>>=◌
    cached_jwks_key-FitsIfAny key a s s' o h = elim (Bool-cases s.poisoned) [
      | inl poisoned ↦ holds_of_ok (FitsIfAny a) (rw (poisoned, cached_jwks_key) at h) tt
      | inr fine ↦ checked_key-FitsIfAny _ a _ s' o (rw (fine, cached_jwks_key) at h)
    ]

    fetch_key-IsTrusted :
        (client : Client) (uri : Text) (kid : Option Text) (a : Algorithm) (key : JwksKeyCacheKey)
        → Ensures (IsTrusted none a) (fetch_key env jwt client uri kid a key)
    unfolding fetch_key
    fetch_key-IsTrusted client uri kid a key =
        Ensures->>= (λ _. Unit {0}) (IsTrusted none a) _ _ (λ _ _ _ _. tt)
          λ answer _.
            Ensures->>= (λ _. Unit {0}) (IsTrusted none a) _ _ (λ _ _ _ _. tt)
              λ jwks _.
                Ensures->>= (λ jwk. Fits jwk a) (IsTrusted none a) _ _ (chosen-Fits jwks kid a)
                  λ jwk f.
                    Ensures->>= (λ _. Unit {0}) (IsTrusted none a) _ _ (λ _ _ _ _. tt)
                      λ _ _. expect-from_jwk jwk a _ f

    key_or_fetch-IsTrusted :
        (found : Option Jwk) (client : Client) (uri : Text) (kid : Option Text) (a : Algorithm)
        (key : JwksKeyCacheKey)
        → FitsIfAny a found
        → Ensures (IsTrusted none a) (key_or_fetch env jwt found client uri kid a key)
    unfolding key_or_fetch
    key_or_fetch-IsTrusted none client uri kid a key f = fetch_key-IsTrusted client uri kid a key
    key_or_fetch-IsTrusted (some jwk) client uri kid a key f = expect-from_jwk jwk a _ f

    discovery_decoding_key-IsTrusted :
        (role : RoleConfig) (token : Text) (a : Algorithm)
        → Ensures (IsTrusted none a) (discovery_decoding_key env jwt role token a)
    unfolding discovery_decoding_key
    discovery_decoding_key-IsTrusted role token a =
        Ensures->>= (λ _. Unit {0}) (IsTrusted none a) _ _ (λ _ _ _ _. tt)
          λ header _.
            Ensures->>= (λ _. Unit {0}) (IsTrusted none a) _ _ (λ _ _ _ _. tt)
              λ client _.
                Ensures->>= (λ _. Unit {0}) (IsTrusted none a) _ _ (λ _ _ _ _. tt)
                  λ answer _.
                    Ensures->>= (λ _. Unit {0}) (IsTrusted none a) _ _ (λ _ _ _ _. tt)
                      λ uri _.
                        Ensures->>= (FitsIfAny a) (IsTrusted none a) _ _
                          (cached_jwks_key-FitsIfAny _ a)
                          λ found f. key_or_fetch-IsTrusted found client uri header.kid a _ f

    -- A key that `resolving_decoding_key` returns is one that the role has for the algorithm:
    -- the configured key, read as the algorithm's family wants it, or, where the role configures
    -- none, a key of the issuer's set that fits, cached or fetched.
    pub resolving_decoding_key-IsTrusted :
        (role : RoleConfig) (token : Text) (a : Algorithm) (s s' : State) (key : K)
        → resolving_decoding_key jwt env role token a s ≡ (ok key, s')
        → IsTrusted role.validation_key a key
    unfolding resolving_decoding_key
    resolving_decoding_key-IsTrusted role token a s s' key h = of_configured role.validation_key h
      where
        of_configured :
            (configured : Option Text)
            → key_or_discover jwt env configured role token a s ≡ (ok key, s')
            → IsTrusted configured a key
        of_configured none e = discovery_decoding_key-IsTrusted role token a s s' key e
        of_configured (some k) e =
            (decoding_key_for_algorithm_iff k a key).0 (wrap-eq-ok _ (ap (λ p. p.0) e))
