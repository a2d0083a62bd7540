-- ===== src/Protocol.antt =====
-- authzoo-oauth/src/protocol.rs: authorization-code requests, PKCE and redirects. The crates url,
-- sha2 and base64 are parameters.
pub mod Pkce
pub mod Scopes
pub mod Resources
pub mod Acceptance
use authzoo.Common.{
  ℕ, Bool, true, false, not, ◌&&◌, ◌||◌, Option, none, some, List, [], ◌∷◌, Text, text, text_beq,
  is_empty, all, keep, contains, text_eq, leb, nat_beq, bytes, len, split, is_ascii_alphanumeric,
  if◌then◌else◌, ◌++◌, Result, ok, err, panic, require, ok_or, ◌>>=◌, ◌>>◌,
}
use authzoo.Url.{Url, Urls, is_some, is_none}
use authzoo.Client.{Client, allows_redirect}

pub record AuthorizationRequest : Type 0 where
  pub resource : Option Text
  pub response_type : Text
  pub client_id : Text
  pub redirect_uri : Text
  pub scope : Text
  pub state : Option Text
  pub nonce : Option Text
  pub code_challenge : Option Text
  pub code_challenge_method : Option Text

pub record PendingAuthorizationRequest : Type 0 where
  pub resource : Option Text
  pub client_id : Text
  pub redirect_uri : Text
  pub scopes : List Text
  pub state : Option Text
  pub nonce : Option Text
  pub code_challenge : Text

pub data ScopePolicy : Type 0 where
  supported : List Text → ScopePolicy
  resource_defined : ScopePolicy

pub data ResourceRequirement : Type 0 where
  always : ResourceRequirement
  metadata_clients : ResourceRequirement

pub record AuthorizationPolicy : Type 0 where
  pub scopes : ScopePolicy
  pub resource_requirement : ResourceRequirement

pub data ProtocolError : Type 0 where
  bad_request : Text → ProtocolError
  oauth : Text → ProtocolError

-- `0x21 | 0x23..=0x5b | 0x5d..=0x7e`.
abbrev pub is_scope_byte : ℕ → Bool
is_scope_byte b = nat_beq b 0x21 || (leb 0x23 b && leb b 0x5b) || (leb 0x5d b && leb b 0x7e)

-- `valid_scope`.
unfoldable pub valid_scope : Text → Bool
valid_scope scope = not (is_empty scope) && all is_scope_byte (bytes scope)

abbrev pub not_blank : Text → Bool
not_blank w = not (is_empty w)

abbrev pub if_any : List Text → Result ProtocolError (List Text)
if_any [] = err (bad_request (text "scope must not be empty"))
if_any (w ∷ ws) = ok (w ∷ ws)

-- `parse_scopes`.
unfoldable pub parse_scopes : Text → Result ProtocolError (List Text)
parse_scopes scope = if_any (keep not_blank (split 32 scope))

abbrev pub is_allowed_by : ScopePolicy → Text → Bool
is_allowed_by (supported allowed) scope = contains scope allowed
is_allowed_by resource_defined scope = true

-- The loop over the scopes.
unfoldable pub check_scopes : ScopePolicy → List Text → Result ProtocolError (Unit {0})
check_scopes policy [] = ok tt
check_scopes policy (scope ∷ scopes) =
    let rest = check_scopes policy scopes in
    if not (valid_scope scope) || not (is_allowed_by policy scope)
    then err (bad_request (text "scope '" ++ scope ++ text "' is not supported"))
    else rest

abbrev pub is_challenge_byte : ℕ → Bool
is_challenge_byte b = is_ascii_alphanumeric b || nat_beq b 45 || nat_beq b 95

abbrev pub is_challenge : Text → Bool
is_challenge c = nat_beq (len c) 43 && all is_challenge_byte (bytes c)

abbrev pub is_always : ResourceRequirement → Bool
is_always always = true
is_always metadata_clients = false

-- The scope text, with its default for a request that names a resource.
abbrev pub scope_text : AuthorizationRequest → Text
scope_text request =
    if is_empty request.scope && is_some request.resource then text "email" else request.scope

-- `valid_verifier`.
unfoldable pub valid_verifier : Text → Bool
valid_verifier value =
    leb 43 (len value)
    && leb (len value) 128
    && all
        (λ b.
          is_ascii_alphanumeric b || nat_beq b 45 || nat_beq b 46 || nat_beq b 95 || nat_beq b 126)
        (bytes value)

-- `verify_pkce`: `digest` is SHA-256, `encode` is unpadded URL-safe base64, and `ct_eq` is equality.
unfoldable pub verify_pkce :
    (digest : List ℕ → List ℕ) (encode : List ℕ → Text) (code_verifier expected_challenge : Text)
    → Bool
verify_pkce digest encode code_verifier expected_challenge =
    let challenge = encode (digest (bytes code_verifier)) in
    text_beq (digest (bytes challenge)) (digest (bytes expected_challenge))

module _ (urls : Urls) where
  abbrev pub is_resource : Option Url → Bool
  is_resource none = false
  is_resource (some url) =
      text_beq url.scheme (text "https")
      && is_some url.host_str
      && is_none url.fragment
      && is_none url.query
      && is_empty url.username
      && is_none url.password

  -- `validate_resource`.
  unfoldable pub validate_resource : Text → Result ProtocolError (Unit {0})
  validate_resource resource =
      require (is_resource (urls.parse resource)) (oauth (text "invalid_target"))

  abbrev pub validate_resource_if_any : Option Text → Result ProtocolError (Unit {0})
  validate_resource_if_any none = ok tt
  validate_resource_if_any (some resource) = validate_resource resource

  -- `validate_authorization_request`.
  unfoldable pub validate_authorization_request :
      AuthorizationRequest
      → Client
      → AuthorizationPolicy
      → Result ProtocolError PendingAuthorizationRequest
  validate_authorization_request request client policy = do
    require (text_beq request.client_id client.client_id) (oauth (text "invalid_client"))
    require (text_beq request.response_type (text "code"))
        (bad_request (text "Only response_type=code is supported"))
    require (allows_redirect urls client request.redirect_uri)
        (bad_request (text "redirect_uri is not registered for this client"))
    validate_resource_if_any request.resource
    require
        (not (is_none request.resource && (client.cimd || is_always policy.resource_requirement)))
        (oauth (text "invalid_target"))
    scopes ← parse_scopes (scope_text request)
    check_scopes policy.scopes scopes
    code_challenge ← ok_or request.code_challenge (bad_request (text "code_challenge is required"))
    code_challenge_method ←
        ok_or request.code_challenge_method (bad_request (text "code_challenge_method is required"))
    require (text_beq code_challenge_method (text "S256"))
        (bad_request (text "Only PKCE code_challenge_method=S256 is supported"))
    require (is_challenge code_challenge)
        (bad_request (text "code_challenge must be a base64url-encoded S256 digest"))
    ok (record {
      resource = request.resource;
      client_id = client.client_id;
      redirect_uri = request.redirect_uri;
      scopes = scopes;
      state = request.state;
      nonce = request.nonce;
      code_challenge = code_challenge;
    })

  -- `validate_pending_client`.
  unfoldable pub validate_pending_client :
      PendingAuthorizationRequest → Client → Result ProtocolError (Unit {0})
  validate_pending_client pending client =
      require
        (not (
          not (text_beq client.client_id pending.client_id)
          || not (allows_redirect urls client pending.redirect_uri)))
        (oauth (text "invalid_request"))

  abbrev pub present : List (Text × Option Text) → List (Text × Text)
  present [] = []
  present ((key, none) ∷ params) = present params
  present ((key, some value) ∷ params) = (key, value) ∷ present params

  -- `build_redirect`.
  unfoldable pub build_redirect : Text → List (Text × Option Text) → Result ProtocolError Text
  build_redirect redirect_uri params = elim (urls.parse redirect_uri) [
    | none ↦ err (bad_request (text "Invalid redirect URI: " ++ urls.parse_error redirect_uri))
    | some redirect ↦ ok (urls.to_string (urls.append_pairs redirect (present params)))
  ]
