-- ===== src/Interop.antt =====
-- Access tokens of authzoo-oauth/src/token.rs, checked by authzoo/src/validator.rs.
use authzoo.Common.{
  ℕ, suc, ◌+◌, ◌≤◌, ◌≡◌, refl, sym, ◌∙◌, inl, inr, some, List, ◌++◌, Text, text, At, here, there,
  All, ok,
}
use authzoo.Jwt.{Algorithm, Json, Jwt, ValidatedClaims}
use authzoo.Config.{JwtAlgorithm, RoleConfig, to_algorithm}
use authzoo.Claims.Required.{Meets}
use authzoo.Keys.{resolving_decoding_key, key_or_discover, decoding_key_for_algorithm}
use authzoo.World.{Environment, State}
use authzoo.Validator.{validate_token_for_role}
use authzoo.Validator.Completeness.{validate_token_for_role_complete}
use authzoo.Token.{
  Chrono, Principal, TokenHeader, Payload, Claim, Signing, SigningKey, AccessTokenRequest,
  TokenIssuer, AccessTokenClaims, access_payload,
}
use authzoo.Token.Minting.{text_or, mint_access_token_until}
use authzoo.Token.Claims.{IsGrant, mint_access_token_until-IsMinted}

-- The claims of a payload that a verifier needs.
pub record Names (payload : Payload) (subject audience issuer : Text) (expires : ℕ) : Type 0 where
  pub sub : At (text "sub", Claim.string subject) payload
  pub aud : At (text "aud", Claim.string audience) payload
  pub iss : At (text "iss", Claim.string issuer) payload
  pub exp : At (text "exp", Claim.number expires) payload

access_payload-Names : (c : AccessTokenClaims) → Names (access_payload c) c.sub c.aud c.iss c.exp
unfolding access_payload
access_payload-Names c = record {
  sub = there (here refl);
  aud = there (there (here refl));
  iss = here refl;
  exp = there (there (there (there (here refl))));
}

configured_key-found :
    {V K : Type 0} (jwt : Jwt V K) (env : Environment) (role : RoleConfig) (token pem : Text)
    (key : K) (s : State)
    → role.validation_key ≡ some pem
    → jwt.from_ec_pem pem ≡ some key
    → resolving_decoding_key jwt env role token Algorithm.es256 s ≡ (ok key, s)
unfolding resolving_decoding_key key_or_discover decoding_key_for_algorithm
configured_key-found jwt env role token pem key s configured parsed = rw (configured, parsed) refl

-- The grant's lifetime, at a time within both of its bounds.
grant-lasts :
    (chrono : Chrono) {issuer : TokenIssuer} {principal : Principal} {request : AccessTokenRequest}
    (now expires_at time : ℕ) (claims : AccessTokenClaims)
    → IsGrant chrono issuer principal request now expires_at claims
    → time ≤ chrono.timestamp now + 3600
    → time ≤ chrono.timestamp expires_at
    → time ≤ claims.exp
grant-lasts chrono now expires_at time claims g hour until = elim g.ends [
  | inl e ↦ rw (e, g.started) hour
  | inr e ↦ rw e until
]

grant-audience :
    {chrono : Chrono} {issuer : TokenIssuer} {principal : Principal} {request : AccessTokenRequest}
    {now expires_at : ℕ} (claims : AccessTokenClaims)
    → IsGrant chrono issuer principal request now expires_at claims
    → claims.aud ≡ text_or request.resource (issuer.issuer ++ text "/userinfo")
grant-audience claims g = elim g.addressed [ inl e ↦ rw e refl | inr (e, own) ↦ rw (e, own) refl ]

-- A token that is minted is accepted: a role that is configured with the public key of the issuer's
-- signing key, with ES256, the issuer, and the token's audience, accepts the token until it expires,
-- within an hour and within the authorization, if the claims of every such grant meet the role's
-- requirements; the claims it returns are read from the payload of a grant. It relies on
-- jsonwebtoken to read the header that it encoded, and to verify a token that it encoded with the
-- pair of its key, for the audience and the issuer that the payload names, until it expires.
pub validate_token_for_role-minted :
    {S E V K : Type 0} (crates : Signing S E) (json : Json V) (jwt : Jwt V K) (env : Environment)
    (clock : ℕ → ℕ) (read : Payload → ValidatedClaims V) (pairs : E → K → Type 0)
    (reads_header : (header : TokenHeader) (payload : Payload) (e : E) (token : Text)
      → crates.encode header payload e ≡ ok token
      → header.alg ≡ text "ES256"
      → jwt.decode_header token ≡ some (record { alg = Algorithm.es256; kid = some header.kid }))
    (verifies : (call : ℕ) (header : TokenHeader) (payload : Payload) (e : E) (token : Text) (k : K)
        (subject audience issuer : Text) (expires : ℕ)
      → crates.encode header payload e ≡ ok token
      → header.alg ≡ text "ES256"
      → pairs e k
      → Names payload subject audience issuer expires
      → clock call ≤ expires
      → jwt.decode call token k
          (record { algorithm = Algorithm.es256; audience = audience; issuer = issuer })
        ≡ ok (read payload))
    (chrono : Chrono) (random : List ℕ) (issuer : TokenIssuer) (key : SigningKey E)
    (principal : Principal) (request : AccessTokenRequest) (now expires_at : ℕ) (token : Text)
    (role : RoleConfig) (pem : Text) (public_key : K) (s : State)
    → mint_access_token_until crates chrono random issuer key principal request now expires_at
      ≡ ok token
    → role.validation_key ≡ some pem
    → jwt.from_ec_pem pem ≡ some public_key
    → pairs key.encoding_key public_key
    → At JwtAlgorithm.es256 role.algorithms
    → role.issuer ≡ issuer.issuer
    → role.audience ≡ text_or request.resource (issuer.issuer ++ text "/userinfo")
    → clock s.calls ≤ chrono.timestamp now + 3600
    → clock s.calls ≤ chrono.timestamp expires_at
    → ((claims : AccessTokenClaims)
        → IsGrant chrono issuer principal request now expires_at claims
        → All (Meets json (read (access_payload claims))) role.claims)
    → (claims : AccessTokenClaims) × IsGrant chrono issuer principal request now expires_at claims
      × (validate_token_for_role json jwt env role token s
          ≡ (ok (read (access_payload claims)), record s { calls = suc s.calls }))
unfolding to_algorithm
validate_token_for_role-minted crates json jwt env clock read pairs reads_header verifies chrono
      random issuer key principal request now expires_at token role pem public_key s minted
      configured parsed paired allowed same_issuer same_audience hour until meets =
    let m =
      mint_access_token_until-IsMinted crates chrono random issuer key principal request now
        expires_at token minted in
    let c = m.claims in
    let lasts = grant-lasts chrono now expires_at (clock s.calls) c m.grant hour until in
    let aud : role.audience ≡ c.aud = same_audience ∙ sym (grant-audience c m.grant) in
    let iss : role.issuer ≡ c.iss = same_issuer ∙ sym m.grant.issued in
    (
      c,
      m.grant,
      validate_token_for_role_complete json jwt env role token s s _ JwtAlgorithm.es256 public_key
          (read (access_payload c)) (reads_header _ _ _ token m.encoded refl) allowed refl
          (configured_key-found jwt env role token pem public_key s configured parsed)
          (rw (aud, iss)
            (verifies s.calls _ _ key.encoding_key token public_key c.sub c.aud c.iss c.exp
              m.encoded refl paired (access_payload-Names c) lasts))
          (meets c m.grant),
    )
