-- ===== src/Token/Claims.antt =====
-- What the tokens of authzoo-oauth/src/token.rs say: lifetime, audience and disclosure.
use authzoo.Common.{
  ℕ, leb→le, leb, ◌+◌, ◌≤◌, ◌≡◌, refl, ◌⊎◌, inl, inr, Bool, true, false, Bool-cases, Option, none,
  some, List, ◌++◌, Text, text, At, contains, contains_iff, text_eq, min, Result, ok, err, panic,
  >>=-eq-ok, ok-inj, arith,
}
use authzoo.Token.{
  Chrono, or_panic, Principal, Signing, SigningKey, AccessTokenRequest, TokenIssuer,
  AccessTokenClaims, access_payload, signed, sign,
}
use authzoo.Token.Minting.{
  hour_after, join, keep_if, then_some, text_or, access_token_claims, mint_access_token_until,
  has_scope,
}

-- A value is told exactly when the scope is granted.
pub data IsDisclosed {A : Type 0} (scopes : List Text) (scope : Text) (value told : Option A)
    : Type 0 where
  granted : At scope scopes → told ≡ value → IsDisclosed scopes scope value told
  withheld : ¬ At scope scopes → told ≡ none → IsDisclosed scopes scope value told

-- The claims of an access token: of the issuer and the principal, for the resource or else the
-- issuer's own endpoint, with a lifetime within an hour and within the authorization's, and with the
-- e-mail and the groups that the scopes disclose.
pub record IsGrant (chrono : Chrono) (issuer : TokenIssuer) (principal : Principal)
    (request : AccessTokenRequest) (now expires_at : ℕ) (claims : AccessTokenClaims) : Type 0 where
  pub issued : claims.iss ≡ issuer.issuer
  pub about : claims.sub ≡ principal.subject
  pub for_client : claims.client_id ≡ request.client_id
  pub addressed :
      (request.resource ≡ some claims.aud)
      ⊎ ((request.resource ≡ none) × (claims.aud ≡ issuer.issuer ++ text "/userinfo"))
  pub started : claims.iat ≡ chrono.timestamp now
  pub hour_long : claims.exp ≤ claims.iat + 3600
  pub within : claims.exp ≤ chrono.timestamp expires_at
  pub ends : (claims.exp ≡ claims.iat + 3600) ⊎ (claims.exp ≡ chrono.timestamp expires_at)
  pub scoped : claims.scope ≡ join request.scopes
  pub email : IsDisclosed request.scopes (text "email") principal.email claims.email
  pub groups : IsDisclosed request.scopes (text "groups") (some principal.groups) claims.groups

keep_if-IsDisclosed :
    {A : Type 0} (scopes : List Text) (scope : Text) (value : Option A)
    → IsDisclosed scopes scope value (keep_if (has_scope scopes scope) value)
keep_if-IsDisclosed scopes scope value = elim (Bool-cases (contains scope scopes)) [
  | inl listed ↦ granted ((contains_iff scope scopes).0 listed) (rw listed)
  | inr missing ↦ withheld (λ at. ground (arith, (contains_iff scope scopes).1 at)) (rw missing)
]

then_some-keep_if : {A : Type 0} (b : Bool) (a : A) → then_some b a ≡ keep_if b (some a)
then_some-keep_if true a = refl
then_some-keep_if false a = refl

audience_lem :
    (o : Option Text) (fallback : Text)
    → (o ≡ some (text_or o fallback)) ⊎ ((o ≡ none) × (text_or o fallback ≡ fallback))
audience_lem none fallback = inr (refl, refl)
audience_lem (some r) fallback = inl refl

pub hour_after-eq :
    (chrono : Chrono) (now limit : ℕ)
    → hour_after chrono now ≡ ok limit
    → chrono.timestamp limit ≡ chrono.timestamp now + 3600
unfolding hour_after
hour_after-eq chrono now limit h =
    chrono.timestamp_add now 1 limit (or_panic-eq (chrono.add_hours now 1) limit h)
  where
    or_panic-eq : (o : Option ℕ) (limit : ℕ) → or_panic o ≡ ok limit → o ≡ some limit
    or_panic-eq none limit h = cc
    or_panic-eq (some t) limit h = cc

timestamp-min :
    (chrono : Chrono) (now expires_at limit : ℕ)
    → chrono.timestamp limit ≡ chrono.timestamp now + 3600
    → (chrono.timestamp (min expires_at limit) ≤ chrono.timestamp now + 3600)
      × (chrono.timestamp (min expires_at limit) ≤ chrono.timestamp expires_at)
      × ((chrono.timestamp (min expires_at limit) ≡ chrono.timestamp now + 3600)
          ⊎ (chrono.timestamp (min expires_at limit) ≡ chrono.timestamp expires_at))
timestamp-min chrono now expires_at limit e = elim (Bool-cases (leb expires_at limit)) [
  | inl first ↦
      let le = chrono.timestamp_mono expires_at limit (leb→le expires_at limit first) in
      rw first (omega (arith, le, e), omega arith, inr refl)
  | inr last ↦
      let le = chrono.timestamp_mono limit expires_at (later expires_at limit last) in
      rw last (omega (arith, e), le, inl e)
]
  where
    later : (a b : ℕ) → leb a b ≡ false → b ≤ a
    later a b h = ground arith

pub access_token_claims-IsGrant :
    (chrono : Chrono) (random : Text) (issuer : TokenIssuer) (principal : Principal)
    (request : AccessTokenRequest) (now expires_at : ℕ) (claims : AccessTokenClaims)
    → access_token_claims chrono random issuer principal request now expires_at ≡ ok claims
    → IsGrant chrono issuer principal request now expires_at claims
unfolding access_token_claims
access_token_claims-IsGrant chrono random issuer principal request now expires_at claims h =
    let (limit, hour, built) = >>=-eq-ok (hour_after chrono now) _ h in
    let (hourly, within, ends) =
      timestamp-min chrono now expires_at limit (hour_after-eq chrono now limit hour) in
    let same = ok-inj built in
    rw (← same) (record {
      issued = refl;
      about = refl;
      for_client = refl;
      addressed = audience_lem request.resource _;
      started = refl;
      hour_long = hourly;
      within = within;
      ends = ends;
      scoped = refl;
      email = keep_if-IsDisclosed request.scopes (text "email") principal.email;
      groups =
          rw (then_some-keep_if (has_scope request.scopes (text "groups")) principal.groups)
            (keep_if-IsDisclosed request.scopes (text "groups") (some principal.groups));
    })

-- A minted token is signed over the claims of a grant, as `at+jwt` with ES256 under the key's id.
pub record IsMinted {S E : Type 0} (crates : Signing S E) (chrono : Chrono) (issuer : TokenIssuer)
    (key : SigningKey E) (principal : Principal) (request : AccessTokenRequest) (now expires_at : ℕ)
    (token : Text) : Type 0 where
  pub claims : AccessTokenClaims
  pub grant : IsGrant chrono issuer principal request now expires_at claims
  pub encoded :
      crates.encode
        (record { alg = text "ES256"; typ = text "at+jwt"; kid = key.kid })
        (access_payload claims)
        key.encoding_key
      ≡ ok token

pub signed-eq : (r : Result Text Text) (token : Text) → signed r ≡ ok token → r ≡ ok token
signed-eq (ok t) token h = cc
signed-eq (err e) token h = cc
signed-eq panic token h = cc

module _ {S E : Type 0} (crates : Signing S E) where
  -- An access token says what its grant allows: it is the issuer's, about the principal, for the
  -- client and the resource, or else the issuer's own endpoint; it ends an hour after its start or
  -- with the authorization, whichever is first; it tells the e-mail and the groups exactly if their
  -- scopes are granted; and it is signed with ES256 under the key's id.
  pub mint_access_token_until-IsMinted :
      (chrono : Chrono) (random : List ℕ) (issuer : TokenIssuer) (key : SigningKey E)
      (principal : Principal) (request : AccessTokenRequest) (now expires_at : ℕ) (token : Text)
      → mint_access_token_until crates chrono random issuer key principal request now expires_at
        ≡ ok token
      → IsMinted crates chrono issuer key principal request now expires_at token
  unfolding mint_access_token_until sign
  mint_access_token_until-IsMinted chrono random issuer key principal request now expires_at token
        h =
      let (claims, built, h) =
        >>=-eq-ok
          (access_token_claims chrono (crates.base64 random) issuer principal request now
            expires_at)
          _ h in
      record {
        claims = claims;
        grant =
            access_token_claims-IsGrant chrono _ issuer principal request now expires_at claims
              built;
        encoded = signed-eq _ token h;
      }
