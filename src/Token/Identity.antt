-- ===== src/Token/Identity.antt =====
-- What the ID tokens of authzoo-oauth/src/token.rs say.
use authzoo.Common.{
  ℕ, ◌+◌, ◌≡◌, refl, Bool, true, false, ◌⊎◌, inl, inr, none, some, Text, text, ok, >>=-eq-ok,
  ok-inj,
}
use authzoo.Token.{
  Chrono, Principal, Signing, SigningKey, IdTokenRequest, TokenIssuer, IdTokenClaims, id_payload,
  sign,
}
use authzoo.Token.Minting.{hour_after, then_some, id_token_claims, mint_id_token}
use authzoo.Token.Claims.{hour_after-eq, signed-eq}

-- The claims of an ID token: of the issuer, about the principal, for the audience, an hour long, with
-- the request's nonce, and with the groups if they are asked for.
pub record IsIdentity (chrono : Chrono) (issuer : TokenIssuer) (principal : Principal)
    (request : IdTokenRequest) (now : ℕ) (claims : IdTokenClaims) : Type 0 where
  pub issued : claims.iss ≡ issuer.issuer
  pub about : claims.sub ≡ principal.subject
  pub addressed : claims.aud ≡ request.audience
  pub started : claims.iat ≡ chrono.timestamp now
  pub ends : claims.exp ≡ claims.iat + 3600
  pub authenticated : claims.auth_time ≡ chrono.timestamp request.authenticated_at
  pub nonce : claims.nonce ≡ request.nonce
  pub email : claims.email ≡ principal.email
  pub groups :
      ((request.include_groups ≡ true) × (claims.groups ≡ some principal.groups))
      ⊎ ((request.include_groups ≡ false) × (claims.groups ≡ none))

then_some-cases :
    {A : Type 0} (b : Bool) (a : A)
    → ((b ≡ true) × (then_some b a ≡ some a)) ⊎ ((b ≡ false) × (then_some b a ≡ none))
then_some-cases true a = inl (refl, refl)
then_some-cases false a = inr (refl, refl)

id_token_claims-IsIdentity :
    (chrono : Chrono) (issuer : TokenIssuer) (principal : Principal) (request : IdTokenRequest)
    (now : ℕ) (claims : IdTokenClaims)
    → id_token_claims chrono issuer principal request now ≡ ok claims
    → IsIdentity chrono issuer principal request now claims
unfolding id_token_claims
id_token_claims-IsIdentity chrono issuer principal request now claims h =
    let (limit, hour, built) = >>=-eq-ok (hour_after chrono now) _ h in
    let same = ok-inj built in
    rw (← same) (record {
      issued = refl;
      about = refl;
      addressed = refl;
      started = refl;
      ends = hour_after-eq chrono now limit hour;
      authenticated = refl;
      nonce = refl;
      email = refl;
      groups = then_some-cases request.include_groups principal.groups;
    })

-- A minted ID token is signed over these claims, as `JWT` with ES256 under the key's id.
pub record IsMinted {S E : Type 0} (crates : Signing S E) (chrono : Chrono) (issuer : TokenIssuer)
    (key : SigningKey E) (principal : Principal) (request : IdTokenRequest) (now : ℕ) (token : Text)
    : Type 0 where
  pub claims : IdTokenClaims
  pub identity : IsIdentity chrono issuer principal request now claims
  pub encoded :
      crates.encode
        (record { alg = text "ES256"; typ = text "JWT"; kid = key.kid })
        (id_payload claims)
        key.encoding_key
      ≡ ok token

-- An ID token says who logged in: it is the issuer's, about the principal, for the audience, with the
-- request's nonce and time of authentication; it ends an hour after its start; it tells the groups
-- exactly if they are asked for; and it is signed with ES256 under the key's id.
pub mint_id_token-IsMinted :
    {S E : Type 0} (crates : Signing S E) (chrono : Chrono) (issuer : TokenIssuer)
    (key : SigningKey E) (principal : Principal) (request : IdTokenRequest) (now : ℕ) (token : Text)
    → mint_id_token crates chrono issuer key principal request now ≡ ok token
    → IsMinted crates chrono issuer key principal request now token
unfolding mint_id_token sign
mint_id_token-IsMinted crates chrono issuer key principal request now token h =
    let (claims, built, h) = >>=-eq-ok (id_token_claims chrono issuer principal request now) _ h in
    record {
      claims = claims;
      identity = id_token_claims-IsIdentity chrono issuer principal request now claims built;
      encoded = signed-eq _ token h;
    }
