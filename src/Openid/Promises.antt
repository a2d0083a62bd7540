-- ===== src/Openid/Promises.antt =====
-- The discovery document of authzoo-oauth/src/discovery.rs beside the code that serves it: requests
-- of authzoo-oauth/src/protocol.rs and tokens of authzoo-oauth/src/token.rs.
use authzoo.Common.{
  ℕ, ◌≡◌, refl, ap, sym, ◌⊎◌, inl, inr, some, List, [], ◌∷◌, Text, text, At, All, here, ok,
}
use authzoo.Url.{Urls}
use authzoo.Client.{Client}
use authzoo.Protocol.{
  AuthorizationRequest, AuthorizationPolicy, PendingAuthorizationRequest, ScopePolicy, supported,
  validate_authorization_request,
}
use authzoo.Protocol.Scopes.{IsGranted}
use authzoo.Protocol.Acceptance.{validate_authorization_request_iff}
use authzoo.Token.{Chrono, TokenIssuer, Principal, AccessTokenClaims}
use authzoo.Token.Minting.{access_token_claims}
use authzoo.Token.Claims.{access_token_claims-IsGrant}
use authzoo.Openid
use authzoo.Openid.{OpenidConfiguration}

-- What an accepted request and the token for it rely on is in the document.
pub record IsAdvertised (document : OpenidConfiguration) (request : AuthorizationRequest)
    (pending : PendingAuthorizationRequest) (claims : AccessTokenClaims) : Type 0 where
  pub response_type : At request.response_type document.response_types_supported
  pub challenge_method :
      (method : Text) × (request.code_challenge_method ≡ some method)
      × At method document.code_challenge_methods_supported
  pub scopes : All (λ scope. At scope document.scopes_supported) pending.scopes
  pub issuer : claims.iss ≡ document.issuer
  pub audience :
      (pending.resource ≡ some claims.aud) ⊎ (document.userinfo_endpoint ≡ some claims.aud)

granted-advertised :
    (policy : ScopePolicy) (advertised scopes : List Text)
    → policy ≡ supported advertised
    → All (IsGranted policy) scopes
    → All (λ scope. At scope advertised) scopes
granted-advertised policy advertised [] e granted = tt
granted-advertised policy advertised (scope ∷ scopes) e (first, rest) =
    (first.listed advertised e, granted-advertised policy advertised scopes e rest)

-- Under a policy of the scopes that the issuer's document advertises, a request that is accepted uses
-- a response type, a challenge method and scopes that the document advertises, and the access token
-- for it names the document's issuer and, without a resource, its userinfo endpoint as audience.
pub validate_authorization_request-IsAdvertised :
    (urls : Urls) (issuer : TokenIssuer) (request : AuthorizationRequest) (client : Client)
    (policy : AuthorizationPolicy) (pending : PendingAuthorizationRequest) (chrono : Chrono)
    (random : Text) (principal : Principal) (now expires_at : ℕ) (claims : AccessTokenClaims)
    → policy.scopes ≡ supported (Openid.new issuer.issuer).scopes_supported
    → validate_authorization_request urls request client policy ≡ ok pending
    → access_token_claims chrono random issuer principal
        (record {
          client_id = pending.client_id;
          resource = pending.resource;
          scopes = pending.scopes;
        })
        now
        expires_at
      ≡ ok claims
    → IsAdvertised (Openid.new issuer.issuer) request pending claims
unfolding Openid.new
validate_authorization_request-IsAdvertised urls issuer request client policy pending chrono random
      principal now expires_at claims advertised accepted minted =
    let a = (validate_authorization_request_iff urls request client policy pending).0 accepted in
    let g =
      access_token_claims-IsGrant chrono random issuer principal _ now expires_at claims minted in
    record {
      response_type = here a.wants_code;
      challenge_method = (text "S256", a.hashed, here refl);
      scopes = granted-advertised policy.scopes _ pending.scopes advertised a.granted;
      issuer = g.issued;
      audience = elim g.addressed [
        | inl own ↦ inl own
        | inr (missing, fallback) ↦ inr (ap some (sym fallback))
      ];
    }
