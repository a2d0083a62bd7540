-- ===== src/Grants.antt =====
-- From a client's identifier to its access token: client_metadata.rs, protocol.rs and token.rs of
-- authzoo-oauth/src, one after the other.
use mathlib.Core.Path.{subst}
use authzoo.Common.{
  ℕ, ◌≤◌, ◌≡◌, sym, ◌∙◌, ap, inl, inr, true, Option, none, some, List, [], ◌∷◌, Text, text, All, At,
  here, there, ◌⊎◌, Result, ok, err, panic,
}
use authzoo.Url.{Urls}
use authzoo.Client.{Client, valid_redirect}
use authzoo.Client.Redirects.{Lets, allows_redirect-Lets}
use authzoo.Metadata.{MetadataError}
use authzoo.Metadata.Resolution.{Web}
use authzoo.Metadata.Resolution.Service.{
  ClientMetadataService, resolving, callers, resolve_metadata, resolve, find_client, as_resolved,
}
use authzoo.Metadata.Resolution.Fetches.{IsFetched-IsClientOf}
use authzoo.Metadata.Resolution.Stored.{IsKept}
use authzoo.Metadata.Resolution.Shared.{
  HasOrigin, IsFresh, no_clients, resolving-HasOrigin, interleave-IsFresh,
}
use authzoo.Protocol.{
  AuthorizationRequest, PendingAuthorizationRequest, AuthorizationPolicy, parse_scopes,
  validate_authorization_request,
}
use authzoo.Protocol.Acceptance.{IsAcceptable, validate_authorization_request_iff}
use authzoo.Protocol.Resources.{IsResource}
use authzoo.Protocol.Scopes.{IsGranted, parse_scopes-IsWord}
use authzoo.Token.{
  Principal, Signing, SigningKey, AccessTokenRequest, AccessTokenClaims, TokenIssuer, Chrono,
  access_payload,
}
use authzoo.Token.Minting.{mint_access_token_until}
use authzoo.Token.Claims.{mint_access_token_until-IsMinted}
use authzoo.Token.Scopes.{parse_scopes-join}
use authzoo.Tasks.{interleave}
use authzoo.Tasks.Rules.{Yields, Respects-alone}

-- The request for the token of an authorization.
abbrev pub token_request : PendingAuthorizationRequest → AccessTokenRequest
token_request pending = record {
  client_id = pending.client_id;
  resource = pending.resource;
  scopes = pending.scopes;
}

as_resolved-eq :
    {E : Type 0} (r : Result MetadataError Client × ClientMetadataService) (client : Client)
    (s : ClientMetadataService)
    → as_resolved {E = E} r ≡ (ok client, s)
    → r ≡ (ok client, s)
as_resolved-eq (ok c, t) client s h = cc
as_resolved-eq (err e, t) client s h = cc
as_resolved-eq (panic, t) client s h = cc

module _ (web : Web) (advances : (n m : ℕ) → n ≤ m → web.now n ≤ web.now m) where
  -- The service after the steps of some callers.
  abbrev pub served : List Text → List ℕ → ClientMetadataService
  served ids schedule = (interleave schedule (callers web ids) no_clients).1

  resolve-HasOrigin :
      (ids : List Text) (schedule : List ℕ) (id : Text) (client : Client)
      (s : ClientMetadataService)
      → resolve web (find_client id) id (served ids schedule) ≡ (ok client, s)
      → HasOrigin web id client
  unfolding resolve find_client resolve_metadata
  resolve-HasOrigin ids schedule id client s h =
      let (_, kept) = interleave-IsFresh web advances ids schedule in
      let (_, given) =
        Respects-alone (IsKept (IsFresh web)) (Yields (HasOrigin web id)) (resolving web id)
          (resolving-HasOrigin web advances id) (served ids schedule) kept in
      let found = as_resolved-eq (resolve_metadata web id (served ids schedule)) client s h in
      subst (λ r. Yields (HasOrigin web id) r.0) found given

-- What the token and the redirect of an authorization have to do with the client's document.
pub record IsAuthorized {S E : Type 0} (web : Web) (crates : Signing S E) (key : SigningKey E)
    (request : AuthorizationRequest) (policy : AuthorizationPolicy) (client : Client)
    (pending : PendingAuthorizationRequest) (token : Text) : Type 0 where
  pub origin : HasOrigin web request.client_id client
  pub registered : Text
  pub listed : At registered client.redirect_uris
  pub valid : valid_redirect web.urls registered ≡ true
  pub lets : Lets web.urls client.application_type registered pending.redirect_uri
  pub claims : AccessTokenClaims
  pub encoded :
      crates.encode
        (record { alg = text "ES256"; typ = text "at+jwt"; kid = key.kid })
        (access_payload claims)
        key.encoding_key
      ≡ ok token
  pub for_client : claims.client_id ≡ request.client_id
  pub addressed : request.resource ≡ some claims.aud
  pub resource : IsResource web.urls claims.aud
  pub scopes : List Text
  pub scoped : parse_scopes claims.scope ≡ ok scopes
  pub granted : All (IsGranted policy.scopes) scopes

At-All : {A : Type 0} (P : A → Type 0) (a : A) (xs : List A) → All P xs → At a xs → P a
At-All P a [] h at = elim at [ ]
At-All P a (x ∷ xs) (h, k) (here e) = subst P (sym e) h
At-All P a (x ∷ xs) (h, k) (there at) = At-All P a xs k at

-- A client of a metadata document has to name its resource.
named_target :
    (urls : Urls) (request : AuthorizationRequest) (client : Client) (policy : AuthorizationPolicy)
    (pending : PendingAuthorizationRequest)
    → IsAcceptable urls request client policy pending
    → client.cimd ≡ true
    → (r : Text) × (request.resource ≡ some r) × IsResource urls r
named_target urls request client policy pending a cimd = elim a.targets [
  | inl named ↦ named
  | inr (_, static, _) ↦ cc
]

same_audience :
    (o : Option Text) (r aud fallback : Text)
    → o ≡ some r
    → (o ≡ some aud) ⊎ ((o ≡ none) × (aud ≡ fallback))
    → r ≡ aud
same_audience o r aud fallback e (inl f) = cc
same_audience o r aud fallback e (inr (f, _)) = cc

-- The whole flow for a client that no registry knows, resolved by a service that has served any
-- other callers in any order of their steps, with a clock that does not go back. If the
-- authorization request is accepted for the client that its identifier resolves to, and a token is
-- minted for the request, then the client was fetched from the URL that is the identifier; the
-- redirect goes to a valid URI that its document registered, but for the port of a native client on
-- a loopback host; and the token is for that client, for the one resource that the request named, a
-- valid one, and for scopes that the policy grants.
pub authorize-IsAuthorized :
    {S E : Type 0} (web : Web) (advances : (n m : ℕ) → n ≤ m → web.now n ≤ web.now m)
    (ids : List Text) (schedule : List ℕ) (request : AuthorizationRequest)
    (policy : AuthorizationPolicy) (client : Client) (s : ClientMetadataService)
    (pending : PendingAuthorizationRequest) (crates : Signing S E) (chrono : Chrono)
    (random : List ℕ) (issuer : TokenIssuer) (key : SigningKey E) (principal : Principal)
    (now expires_at : ℕ) (token : Text)
    → resolve web
        (find_client request.client_id)
        request.client_id
        (served web advances ids schedule)
      ≡ (ok client, s)
    → validate_authorization_request web.urls request client policy ≡ ok pending
    → mint_access_token_until crates chrono random issuer key principal
        (token_request pending)
        now
        expires_at
      ≡ ok token
    → IsAuthorized web crates key request policy client pending token
authorize-IsAuthorized web advances ids schedule request policy client s pending crates chrono
      random issuer key principal now expires_at token resolved accepted minted =
    let origin = resolve-HasOrigin web advances ids schedule request.client_id client s resolved in
    let c =
      IsFetched-IsClientOf web origin.call request.client_id origin.url client origin.source in
    let a =
      (validate_authorization_request_iff web.urls request client policy pending).0 accepted in
    let m =
      mint_access_token_until-IsMinted crates chrono random issuer key principal
        (token_request pending) now expires_at token minted in
    let (registered, listed, lets) =
      allows_redirect-Lets web.urls client request.redirect_uri a.redirects in
    let (filled, words, _) = parse_scopes-IsWord _ pending.scopes a.scoped in
    let (target, asked, resource) =
      named_target web.urls request client policy pending a c.is_cimd in
    let same =
      same_audience pending.resource target m.claims.aud _ (a.keeps_resource ∙ asked)
        m.grant.addressed in
    record {
      origin = origin;
      registered = registered;
      listed = listed;
      valid = At-All (λ uri. valid_redirect web.urls uri ≡ true) registered _ c.redirects listed;
      lets = subst (Lets web.urls client.application_type registered) (sym a.keeps_redirect) lets;
      claims = m.claims;
      encoded = m.encoded;
      for_client = m.grant.for_client ∙ (a.keeps_client ∙ c.same_id);
      addressed = asked ∙ ap some same;
      resource = subst (IsResource web.urls) same resource;
      scopes = pending.scopes;
      scoped = rw (m.grant.scoped) (parse_scopes-join pending.scopes filled words);
      granted = a.granted;
    }
