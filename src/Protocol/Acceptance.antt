-- ===== src/Protocol/Acceptance.antt =====
-- Which authorization requests, resources and pending clients authzoo-oauth/src/protocol.rs accepts.
use authzoo.Common.{
  ◌≡◌, refl, ap, ◌∙◌, sym, ◌↔◌, ◌⊎◌, inl, inr, Bool, true, false, not, ◌&&◌, ◌||◌, Option, none,
  some, Text, text, text_beq, text_beq_iff, All, all, bytes, len, nat_beq_iff, ok, >>=-eq-ok,
  require-eq, ok_or-eq, arith,
}
use authzoo.Url.{Urls, is_none}
use authzoo.Client.{Client, allows_redirect}
use authzoo.Protocol.{
  AuthorizationRequest, PendingAuthorizationRequest, AuthorizationPolicy, ResourceRequirement,
  always, metadata_clients, is_challenge_byte, is_challenge, is_always, scope_text, parse_scopes,
  validate_resource_if_any, validate_authorization_request, validate_pending_client,
}
use authzoo.Protocol.Resources.{IsResource, validate_resource_iff}
use authzoo.Protocol.Scopes.{IsGranted, check_scopes_iff}

-- What a request, a client and a policy are when the request is accepted as `pending`.
pub record IsAcceptable (urls : Urls) (request : AuthorizationRequest) (client : Client)
    (policy : AuthorizationPolicy) (pending : PendingAuthorizationRequest) : Type 0 where
  pub same_client : request.client_id ≡ client.client_id
  pub wants_code : request.response_type ≡ text "code"
  pub redirects : allows_redirect urls client request.redirect_uri ≡ true
  pub targets :
      ((r : Text) × (request.resource ≡ some r) × IsResource urls r)
      ⊎ ((request.resource ≡ none)
          × (client.cimd ≡ false)
          × (policy.resource_requirement ≡ metadata_clients))
  pub scoped : parse_scopes (scope_text request) ≡ ok pending.scopes
  pub granted : All (IsGranted policy.scopes) pending.scopes
  pub challenged : request.code_challenge ≡ some pending.code_challenge
  pub hashed : request.code_challenge_method ≡ some (text "S256")
  pub sized : len pending.code_challenge ≡ 43
  pub encoded : all is_challenge_byte (bytes pending.code_challenge) ≡ true
  pub keeps_client : pending.client_id ≡ client.client_id
  pub keeps_redirect : pending.redirect_uri ≡ request.redirect_uri
  pub keeps_resource : pending.resource ≡ request.resource
  pub keeps_state : pending.state ≡ request.state
  pub keeps_nonce : pending.nonce ≡ request.nonce

module _ (urls : Urls) where
  targets_iff :
      (request : AuthorizationRequest) (client : Client) (policy : AuthorizationPolicy)
      → ((validate_resource_if_any urls request.resource ≡ ok tt)
          × (not
                (is_none request.resource && (client.cimd || is_always policy.resource_requirement))
              ≡ true))
        ↔ (((r : Text) × (request.resource ≡ some r) × IsResource urls r)
            ⊎ ((request.resource ≡ none)
                × (client.cimd ≡ false)
                × (policy.resource_requirement ≡ metadata_clients)))
  targets_iff request client policy =
      of_resource request.resource client.cimd policy.resource_requirement
    where
      of_resource :
          (o : Option Text) (cimd : Bool) (requirement : ResourceRequirement)
          → ((validate_resource_if_any urls o ≡ ok tt)
              × (not (is_none o && (cimd || is_always requirement)) ≡ true))
            ↔ (((r : Text) × (o ≡ some r) × IsResource urls r)
                ⊎ ((o ≡ none) × (cimd ≡ false) × (requirement ≡ metadata_clients)))
      of_resource none true q = ground arith
      of_resource none false always = ground arith
      of_resource none false metadata_clients = ground arith
      of_resource (some r) cimd q = (
        λ (h, _). inl (r, refl, (validate_resource_iff urls r).0 h),
        λ c. elim c [
          | inl (s, e, k) ↦
              let same : s ≡ r = cc in ((validate_resource_iff urls r).1 (rw same at k), refl)
          | inr (e, _, _) ↦ cc
        ],
      )

  is_challenge_iff :
      (c : Text)
      → (is_challenge c ≡ true) ↔ ((len c ≡ 43) × (all is_challenge_byte (bytes c) ≡ true))
  is_challenge_iff c = ground (arith, nat_beq_iff (len c) 43)

  IsAcceptable-of_ok :
      (request : AuthorizationRequest) (client : Client) (policy : AuthorizationPolicy)
      (pending : PendingAuthorizationRequest)
      → validate_authorization_request urls request client policy ≡ ok pending
      → IsAcceptable urls request client policy pending
  unfolding validate_authorization_request
  IsAcceptable-of_ok request client policy pending h =
      let (_, same_client, h) = >>=-eq-ok _ _ h in
      let (_, wants_code, h) = >>=-eq-ok _ _ h in
      let (_, redirects, h) = >>=-eq-ok _ _ h in
      let (_, valid, h) = >>=-eq-ok _ _ h in
      let (_, needed, h) = >>=-eq-ok _ _ h in
      let (scopes, scoped, h) = >>=-eq-ok _ _ h in
      let (_, granted, h) = >>=-eq-ok _ _ h in
      let (code_challenge, challenged, h) = >>=-eq-ok _ _ h in
      let (method, hashed, h) = >>=-eq-ok _ _ h in
      let (_, s256, h) = >>=-eq-ok _ _ h in
      let (_, formed, h) = >>=-eq-ok _ _ h in
      let built : (◌≡◌ {A = PendingAuthorizationRequest}
          (record {
            resource = request.resource;
            client_id = client.client_id;
            redirect_uri = request.redirect_uri;
            scopes = scopes;
            state = request.state;
            nonce = request.nonce;
            code_challenge = code_challenge;
          })
          pending) =
        cc in
      let (sized, encoded) = (is_challenge_iff code_challenge).0 (require-eq _ _ formed) in
      rw (sym built) (record {
        same_client = (text_beq_iff _ _).0 (require-eq _ _ same_client);
        wants_code = (text_beq_iff _ _).0 (require-eq _ _ wants_code);
        redirects = require-eq _ _ redirects;
        targets = (targets_iff request client policy).0 (valid, require-eq _ _ needed);
        scoped = scoped;
        granted = (check_scopes_iff policy.scopes scopes).0 granted;
        challenged = ok_or-eq _ _ challenged;
        hashed = ok_or-eq _ _ hashed ∙ ap some ((text_beq_iff _ _).0 (require-eq _ _ s256));
        sized = sized;
        encoded = encoded;
        keeps_client = refl;
        keeps_redirect = refl;
        keeps_resource = refl;
        keeps_state = refl;
        keeps_nonce = refl;
      })

  ok_of_acceptable :
      (request : AuthorizationRequest) (client : Client) (policy : AuthorizationPolicy)
      (pending : PendingAuthorizationRequest)
      → IsAcceptable urls request client policy pending
      → validate_authorization_request urls request client policy ≡ ok pending
  unfolding validate_authorization_request text_beq
  ok_of_acceptable request client policy pending a =
      let (valid, needed) = (targets_iff request client policy).1 a.targets in
      rw
        (
          (text_beq_iff _ _).1 a.same_client,
          (text_beq_iff _ _).1 a.wants_code,
          a.redirects,
          valid,
          needed,
          a.scoped,
          (check_scopes_iff policy.scopes pending.scopes).1 a.granted,
          a.challenged,
          a.hashed,
          (is_challenge_iff pending.code_challenge).1 (a.sized, a.encoded),
          sym a.keeps_client,
          sym a.keeps_redirect,
          sym a.keeps_resource,
          sym a.keeps_state,
          sym a.keeps_nonce,
        )
        refl

  -- `validate_authorization_request` accepts a request, as `pending`, exactly when the request is for
  -- this client and a code, the client allows the redirect URI, the resource is a valid one or may
  -- be left out, the policy grants every scope of a list that is not empty, and the PKCE challenge
  -- is one of S256; `pending` has the request's fields.
  pub validate_authorization_request_iff :
      (request : AuthorizationRequest) (client : Client) (policy : AuthorizationPolicy)
      (pending : PendingAuthorizationRequest)
      → (validate_authorization_request urls request client policy ≡ ok pending)
        ↔ IsAcceptable urls request client policy pending
  validate_authorization_request_iff request client policy pending = (
    IsAcceptable-of_ok request client policy pending,
    ok_of_acceptable request client policy pending,
  )

  -- `validate_pending_client` passes exactly when the pending request is this client's and the client
  -- allows its redirect URI.
  pub validate_pending_client_iff :
      (pending : PendingAuthorizationRequest) (client : Client)
      → (validate_pending_client urls pending client ≡ ok tt) ↔ (
          (client.client_id ≡ pending.client_id)
          × (allows_redirect urls client pending.redirect_uri ≡ true))
  unfolding validate_pending_client
  validate_pending_client_iff pending client =
      ground (arith, text_beq_iff client.client_id pending.client_id)

  -- A request that was accepted for a client passes the later check against the same client.
  pub validate_pending_client-accepted :
      (request : AuthorizationRequest) (client : Client) (policy : AuthorizationPolicy)
      (pending : PendingAuthorizationRequest)
      → validate_authorization_request urls request client policy ≡ ok pending
      → validate_pending_client urls pending client ≡ ok tt
  validate_pending_client-accepted request client policy pending h =
      let a = IsAcceptable-of_ok request client policy pending h in
      (validate_pending_client_iff pending client).1
        (sym a.keeps_client, rw a.keeps_redirect a.redirects)
