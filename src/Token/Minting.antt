-- ===== src/Token/Minting.antt =====
-- The claims of the tokens of authzoo-oauth/src/token.rs, and their minting.
use authzoo.Common.{
  ℕ, Bool, true, false, Option, none, some, List, [], ◌∷◌, ◌++◌, Text, text, min, Result, ok, ◌>>=◌,
  contains, text_eq,
}
use authzoo.Token.{
  Chrono, or_panic, Principal, TokenError, Signing, SigningKey, AccessTokenRequest, IdTokenRequest,
  TokenIssuer, IdTokenClaims, AccessTokenClaims, access_payload, id_payload, sign,
}

-- `TOKEN_TTL_HOURS`.
abbrev pub token_ttl_hours : ℕ
token_ttl_hours = 1

-- `now + Duration::hours(TOKEN_TTL_HOURS)`, which panics past the last `DateTime`.
unfoldable pub hour_after : Chrono → ℕ → Result TokenError ℕ
hour_after chrono now = or_panic (chrono.add_hours now token_ttl_hours)

-- `Vec::join(" ")`.
unfoldable pub join : List Text → Text
join [] = []
join (w ∷ []) = w
join (w ∷ v ∷ ws) = w ++ (32 ∷ join (v ∷ ws))

-- `Option::filter` with a constant test, and `bool::then_some`.
abbrev pub keep_if {ℓ} : {A : Type ℓ} → Bool → Option A → Option A
keep_if true o = o
keep_if false o = none

abbrev pub then_some {ℓ} : {A : Type ℓ} → Bool → A → Option A
then_some true a = some a
then_some false a = none

abbrev pub text_or : Option Text → Text → Text
text_or none t = t
text_or (some s) t = s

abbrev pub has_scope : List Text → Text → Bool
has_scope scopes scope = contains scope scopes

-- The claims of `mint_access_token_until`; `random` is the text of the random bytes.
unfoldable pub access_token_claims :
    (chrono : Chrono)
    → Text
    → TokenIssuer
    → Principal
    → AccessTokenRequest
    → (now expires_at : ℕ) → Result TokenError AccessTokenClaims
access_token_claims chrono random issuer principal request now expires_at = do
  limit ← hour_after chrono now
  ok (record {
    iss = issuer.issuer;
    sub = principal.subject;
    aud = text_or request.resource (issuer.issuer ++ text "/userinfo");
    client_id = request.client_id;
    exp = chrono.timestamp (min expires_at limit);
    iat = chrono.timestamp now;
    jti = random;
    scope = join request.scopes;
    email = keep_if (has_scope request.scopes (text "email")) principal.email;
    groups = then_some (has_scope request.scopes (text "groups")) principal.groups;
  })

-- The claims of `mint_id_token`.
unfoldable pub id_token_claims :
    Chrono → TokenIssuer → Principal → IdTokenRequest → ℕ → Result TokenError IdTokenClaims
id_token_claims chrono issuer principal request now = do
  limit ← hour_after chrono now
  ok (record {
    iss = issuer.issuer;
    sub = principal.subject;
    aud = request.audience;
    exp = chrono.timestamp limit;
    iat = chrono.timestamp now;
    auth_time = chrono.timestamp request.authenticated_at;
    nonce = request.nonce;
    email = principal.email;
    groups = then_some request.include_groups principal.groups;
  })

module _ {S E : Type 0} (crates : Signing S E) where
  -- `mint_access_token_until`; `random` is the 18 bytes drawn.
  unfoldable pub mint_access_token_until :
      (chrono : Chrono)
      → List ℕ
      → TokenIssuer
      → SigningKey E
      → Principal
      → AccessTokenRequest
      → (now expires_at : ℕ) → Result TokenError Text
  mint_access_token_until chrono random issuer key principal request now expires_at = do
    claims ←
        access_token_claims chrono (crates.base64 random) issuer principal request now expires_at
    sign crates key (access_payload claims) (text "at+jwt")

  -- `mint_access_token`.
  unfoldable pub mint_access_token :
      (chrono : Chrono)
      → List ℕ
      → TokenIssuer
      → SigningKey E
      → Principal
      → AccessTokenRequest
      → ℕ
      → Result TokenError Text
  mint_access_token chrono random issuer key principal request now = do
    limit ← hour_after chrono now
    mint_access_token_until chrono random issuer key principal request now limit

  -- `mint_id_token`.
  unfoldable pub mint_id_token :
      (chrono : Chrono)
      → TokenIssuer
      → SigningKey E
      → Principal
      → IdTokenRequest
      → ℕ
      → Result TokenError Text
  mint_id_token chrono issuer key principal request now = do
    claims ← id_token_claims chrono issuer principal request now
    sign crates key (id_payload claims) (text "JWT")
