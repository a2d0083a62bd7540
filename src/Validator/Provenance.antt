-- ===== src/Validator/Provenance.antt =====
-- Where the keys come from that verify the tokens of authzoo/src/validator.rs.
use authzoo.Common.{
  ℕ, Bool, true, false, ◌≡◌, refl, ap, ◌∙◌, Option, none, some, List, [], ◌∷◌, Text, At, here,
  there, All, ok, err, panic, if◌then◌else◌,
}
use authzoo.Common.Maps.Tree.{BTreeMap}
use authzoo.Jwt.{Algorithm, Header, Json, Jwt, Jwk, JwkSet, ValidatedClaims}
use authzoo.Config.{RoleConfig, JwtAlgorithm, to_algorithm, algorithm_not_allowed, allows_algorithm}
use authzoo.Claims.{require_claims}
use authzoo.Claims.Required.{Meets, require_claims_iff}
use authzoo.Keys.{decoding_key_for_algorithm}
use authzoo.World.{Environment, lift, wrap}
use authzoo.World.Logic.{wrap-eq-ok}
use authzoo.Validator.Acceptance.{allows_algorithm-At, with_role-eq-ok}
use authzoo.World.Triples.{Keeps-map, Keeps-lift, Keeps-expect, Keeps-ask}
use authzoo.Discovery.Sources.{IsSourced}
use authzoo.Discovery.Provenance.{IsIssuers, discovery_decoding_key-Makes}
use authzoo.Validator.{with_role, prepend}
use authzoo.Tasks.{done, step}
use authzoo.Threads.{
  Thread, key_or_discover, named_if_ok, validate_allowed, validate_token_for_role, validate_roles,
}
use authzoo.Threads.Rules.{Makes, Makes->>=, Makes-atomic}

module _ {V K : Type 0} (json : Json V) (jwt : Jwt V K) (env : Environment)
    (finds : (jwks : JwkSet) (id : Text) (jwk : Jwk)
      → jwt.find jwks id ≡ some jwk
      → At jwk jwks.keys) where
  -- The key that the role configures, or else a key of its issuer.
  abbrev IsOwn : Option Text → RoleConfig → Algorithm → K → Type 0
  IsOwn (some validation_key) role a key = decoding_key_for_algorithm jwt validation_key a ≡ ok key
  IsOwn none role a key = IsIssuers env jwt finds role a key

  key_or_discover-IsOwn :
      (configured : Option Text) (role : RoleConfig) (token : Text) (a : Algorithm)
      → Makes
          (IsSourced env)
          (IsOwn configured role a)
          (key_or_discover env jwt configured role token a)
  unfolding key_or_discover
  key_or_discover-IsOwn none role token a = discovery_decoding_key-Makes env jwt finds role token a
  key_or_discover-IsOwn (some k) role token a =
      Makes-atomic (IsSourced env) (IsOwn (some k) role a) _ (
        Keeps-map (IsSourced env) _ (IsOwn (some k) role a)
          (lift (wrap (decoding_key_for_algorithm jwt k a))) (λ key e. wrap-eq-ok _ e)
          (Keeps-lift (IsSourced env) (wrap (decoding_key_for_algorithm jwt k a))))

  -- A token that the role's own key verifies for the role's audience and issuer, whose algorithm is
  -- one that the role allows and whose claims meet those that the role requires.
  pub record IsVerified (role : RoleConfig) (token : Text) (claims : ValidatedClaims V)
      : Type 0 where
    pub header : Header
    pub read : jwt.decode_header token ≡ some header
    pub allowed : (j : JwtAlgorithm) × At j role.algorithms × (to_algorithm j ≡ header.alg)
    pub key : K
    pub own : IsOwn role.validation_key role header.alg key
    pub call : ℕ
    pub verified :
        jwt.decode call token key
          (record { algorithm = header.alg; audience = role.audience; issuer = role.issuer })
        ≡ ok claims
    pub met : All (Meets json claims) role.claims

  validate_allowed-Makes :
      (role : RoleConfig) (token : Text) (header : Header)
      → jwt.decode_header token ≡ some header
      → allows_algorithm role header.alg ≡ true
      → Makes
          (IsSourced env)
          (IsVerified role token)
          (validate_allowed json jwt env role token header.alg)
  unfolding validate_allowed
  validate_allowed-Makes role token header read allowed =
      Makes->>= (IsSourced env) (IsOwn role.validation_key role header.alg) (IsVerified role token)
        _ _ (key_or_discover-IsOwn role.validation_key role token header.alg)
        λ key own.
          Makes->>= (IsSourced env) _ (IsVerified role token) _ _
            (Makes-atomic (IsSourced env) _ _ (Keeps-ask (IsSourced env) _))
            λ decoded (call, asked).
              Makes->>= (IsSourced env) _ (IsVerified role token) _ _
                (Makes-atomic (IsSourced env) _ _
                  (Keeps-lift (IsSourced env) (with_role role.name decoded)))
                λ claims found.
                  Makes->>= (IsSourced env) _ (IsVerified role token) _ _
                    (Makes-atomic (IsSourced env) _ _
                      (Keeps-lift (IsSourced env) (require_claims json claims role.claims)))
                    λ _ met. record {
                      header = header;
                      read = read;
                      allowed = allows_algorithm-At role header.alg allowed;
                      key = key;
                      own = own;
                      call = call;
                      verified = asked ∙ with_role-eq-ok role.name decoded found;
                      met = (require_claims_iff json claims role.claims).0 met;
                    }

  pub validate_token_for_role-Makes :
      (role : RoleConfig) (token : Text)
      → Makes
          (IsSourced env)
          (IsVerified role token)
          (validate_token_for_role json jwt env role token)
  unfolding validate_token_for_role
  validate_token_for_role-Makes role token =
      Makes->>= (IsSourced env) _ (IsVerified role token) _ _
        (Makes-atomic (IsSourced env) _ _
          (Keeps-expect (IsSourced env) (jwt.decode_header token) _))
        λ header read. of_test header read (allows_algorithm role header.alg) refl
    where
      of_test :
          (header : Header)
          → jwt.decode_header token ≡ some header
          → (b : Bool) → allows_algorithm role header.alg ≡ b
          → Makes (IsSourced env) (IsVerified role token) (
              if b
              then validate_allowed json jwt env role token header.alg
              else done (err (algorithm_not_allowed role.name header.alg)))
      of_test header read true e = validate_allowed-Makes role token header read e
      of_test header read false e = tt

  -- A name that `validate` adds: one of a role that verifies the token.
  abbrev pub IsBacked : Text → RoleConfig → Text → Option Text → Type 0
  IsBacked name role token none = Unit
  IsBacked name role token (some found) =
      (found ≡ name) × (claims : ValidatedClaims V) × IsVerified role token claims

  named_if_ok-Makes :
      (name : Text) (role : RoleConfig) (token : Text) (t : Thread (ValidatedClaims V))
      → Makes (IsSourced env) (IsVerified role token) t
      → Makes (IsSourced env) (IsBacked name role token) (named_if_ok name t)
  unfolding named_if_ok
  named_if_ok-Makes name role token (done (ok claims)) h = (refl, claims, h)
  named_if_ok-Makes name role token (done (err e)) h = tt
  named_if_ok-Makes name role token (done panic) h = tt
  named_if_ok-Makes name role token (step write rest) h =
      λ s i. ((h s i).0, named_if_ok-Makes name role token (rest s) (h s i).1)

  -- The names of roles that verify the token.
  abbrev pub AreBacked : BTreeMap RoleConfig → Text → List Text → Type 0
  AreBacked roles token names =
      (name : Text)
      → At name names
      → (role : RoleConfig) × At (name, role) roles
        × (claims : ValidatedClaims V) × IsVerified role token claims

  prepend-AreBacked :
      (name : Text) (role : RoleConfig) (roles : BTreeMap RoleConfig) (token : Text)
      (found : Option Text) (names : List Text)
      → IsBacked name role token found
      → AreBacked roles token names
      → AreBacked ((name, role) ∷ roles) token (prepend found names)
  prepend-AreBacked name role roles token none names h k n at =
      let (r, held, c, backed) = k n at in (r, there held, c, backed)
  prepend-AreBacked name role roles token (some found) names (same, c, backed) k n (here e) =
      (role, here (ap (λ x. (x, role)) (e ∙ same)), c, backed)
  prepend-AreBacked name role roles token (some found) names (same, c, backed) k n (there at) =
      let (r, held, d, others) = k n at in (r, there held, d, others)

  pub validate_roles-Makes :
      (roles : BTreeMap RoleConfig) (token : Text)
      → Makes (IsSourced env) (AreBacked roles token) (validate_roles json jwt env roles token)
  unfolding validate_roles
  validate_roles-Makes [] token = λ name at. elim at [ ]
  validate_roles-Makes ((name, role) ∷ roles) token =
      Makes->>= (IsSourced env) (IsBacked name role token) (AreBacked ((name, role) ∷ roles) token)
        _ _ (named_if_ok-Makes name role token _ (validate_token_for_role-Makes role token))
        λ found backed.
          Makes->>= (IsSourced env) (AreBacked roles token) (AreBacked ((name, role) ∷ roles) token)
            _ _ (validate_roles-Makes roles token)
            λ names others. prepend-AreBacked name role roles token found names backed others
