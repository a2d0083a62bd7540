-- ===== src/Examples/Oauth.antt =====
-- Requests and redirects (authzoo-oauth/src/protocol.rs, client_metadata.rs).
use authzoo.Common.{
  ◌*◌, ◌≡◌, ◌↔◌, ◌⊎◌, refl, Bool, true, ◌||◌, none, some, [], ◌∷◌, Text, text, text_beq, At, ok,
  strip_prefix, before_first, from_first, split_after, split, bytes, if◌then◌else◌,
}
use authzoo.Url.{Url, Urls, domain}
use authzoo.Client.{
  Client, native, valid_redirect, loopback_without_port, allows_registered, allows_redirect,
  split_host, is_port,
}
use authzoo.Client.Redirects.{Lets, allows_redirect-Lets}
use authzoo.Protocol.{
  AuthorizationRequest, PendingAuthorizationRequest, AuthorizationPolicy, supported, always,
  validate_authorization_request, validate_resource, parse_scopes, check_scopes, valid_scope,
}
use authzoo.Protocol.{verify_pkce}
use authzoo.Protocol.Pkce.{Collide, verify_pkce_iff}
use authzoo.Protocol.Resources.{IsResource, validate_resource_iff}
use authzoo.Protocol.Acceptance.{
  validate_authorization_request_iff, validate_pending_client_iff, validate_pending_client-accepted,
}
use authzoo.Protocol.Acceptance
use authzoo.Token.{Principal, AccessTokenClaims}
use authzoo.Token.Minting.{access_token_claims, hour_after, join}
use authzoo.Examples.Samples.{second, chrono}
use authzoo.Token.Scopes.{parse_scopes-scope}
use authzoo.Openid
use authzoo.Openid.Promises.{IsAdvertised, validate_authorization_request-IsAdvertised}

abbrev pub app : Url
app = record {
  scheme = text "https";
  username = [];
  password = none;
  host = some (domain (text "app"));
  host_str = some (text "app");
  port_or_known_default = some 443;
  path = text "/c";
  query = none;
  fragment = none;
}

abbrev pub loopback : Url
loopback = record {
  scheme = text "http";
  username = [];
  password = none;
  host = some (domain (text "localhost"));
  host_str = some (text "localhost");
  port_or_known_default = some 80;
  path = text "/cb";
  query = none;
  fragment = none;
}

abbrev pub is_local : Text → Bool
is_local t = text_beq t (text "http://localhost/cb") || text_beq t (text "http://localhost:8080/cb")

abbrev pub urls : Urls
urls = record {
  parse = λ t.
      if text_beq t (text "https://app/c")
      then some app
      else if is_local t
      then some loopback
      else none;
  parse_error = λ t. text "relative URL without a base";
  to_string = λ u. u.path;
  append_pairs = λ u pairs. u;
}

abbrev pub client : Client
client = record {
  client_id = text "https://app/c";
  name = text "App";
  redirect_uris = text "http://localhost/cb" ∷ [];
  cimd = true;
  application_type = native;
}

allows_redirect-Lets_example :
    (registered : Text) × At registered client.redirect_uris
    × Lets urls native registered (text "http://localhost:8080/cb")
unfolding allows_redirect allows_registered loopback_without_port valid_redirect split_host is_port
    text_beq strip_prefix before_first from_first split_after bytes
allows_redirect-Lets_example =
    allows_redirect-Lets urls client (text "http://localhost:8080/cb") refl

abbrev challenge : Text
challenge = text "E9Melhoa2OwvFrEMTJguCHaoeK1t8URWbuGJSstw-cM"

abbrev pub request : AuthorizationRequest
request = record {
  resource = some (text "https://app/c");
  response_type = text "code";
  client_id = text "https://app/c";
  redirect_uri = text "http://localhost:8080/cb";
  scope = text "email openid";
  state = some (text "s");
  nonce = none;
  code_challenge = some challenge;
  code_challenge_method = some (text "S256");
}

abbrev pub policy : AuthorizationPolicy
policy = record {
  scopes = supported (text "openid" ∷ text "email" ∷ []);
  resource_requirement = always;
}

abbrev pub pending : PendingAuthorizationRequest
pending = record {
  resource = some (text "https://app/c");
  client_id = text "https://app/c";
  redirect_uri = text "http://localhost:8080/cb";
  scopes = text "email" ∷ text "openid" ∷ [];
  state = some (text "s");
  nonce = none;
  code_challenge = challenge;
}

validate_authorization_request_iff_example :
    (validate_authorization_request urls request client policy ≡ ok pending)
    ↔ Acceptance.IsAcceptable urls request client policy pending
validate_authorization_request_iff_example =
    validate_authorization_request_iff urls request client policy pending

pub accepted : validate_authorization_request urls request client policy ≡ ok pending
unfolding validate_authorization_request allows_redirect allows_registered loopback_without_port
    valid_redirect split_host is_port text_beq strip_prefix before_first from_first split_after
    bytes validate_resource parse_scopes split check_scopes valid_scope
accepted = refl

abbrev pub principal : Principal
principal = record { subject = text "42"; email = some (text "a@b"); groups = text "dev" ∷ [] }

abbrev minted : AccessTokenClaims
minted = record {
  iss = text "https://id";
  sub = text "42";
  aud = text "https://app/c";
  client_id = text "https://app/c";
  exp = 110;
  iat = 100;
  jti = text "r";
  scope = text "email openid";
  email = some (text "a@b");
  groups = none;
}

parse_scopes-scope_example :
    parse_scopes (text "email openid") ≡ ok (text "email" ∷ text "openid" ∷ [])
unfolding access_token_claims hour_after text_beq join
parse_scopes-scope_example =
    parse_scopes-scope urls request client policy pending chrono (text "r")
      (record { issuer = text "https://id" }) principal (100 * second) (110 * second) minted
      accepted refl

abbrev advertised_policy : AuthorizationPolicy
advertised_policy = record {
  scopes =
      supported (
        text "openid" ∷ text "email" ∷ text "profile" ∷ text "groups" ∷ text "offline_access" ∷ []);
  resource_requirement = always;
}

accepted_as_advertised :
    validate_authorization_request urls request client advertised_policy ≡ ok pending
unfolding validate_authorization_request allows_redirect allows_registered loopback_without_port
    valid_redirect split_host is_port text_beq strip_prefix before_first from_first split_after
    bytes validate_resource parse_scopes split check_scopes valid_scope
accepted_as_advertised = refl

validate_authorization_request-IsAdvertised_example :
    IsAdvertised (Openid.new (text "https://id")) request pending minted
unfolding Openid.new access_token_claims hour_after text_beq join
validate_authorization_request-IsAdvertised_example =
    validate_authorization_request-IsAdvertised urls (record { issuer = text "https://id" }) request
      client advertised_policy pending chrono (text "r") principal (100 * second) (110 * second)
      minted refl accepted_as_advertised refl

validate_resource_iff_example :
    (validate_resource urls (text "https://app/c") ≡ ok tt) ↔ IsResource urls (text "https://app/c")
validate_resource_iff_example = validate_resource_iff urls (text "https://app/c")

-- A hash that keeps the bytes, and an encoding that keeps them too.
verify_pkce_iff_example : (verify_pkce (λ b. b) (λ b. b) (text "abc") (text "abc") ≡ true) ↔ (
    (bytes (bytes (text "abc")) ≡ bytes (text "abc"))
    ⊎ Collide (λ b. b) (bytes (bytes (text "abc"))) (bytes (text "abc")))
verify_pkce_iff_example = verify_pkce_iff (λ b. b) (λ b. b) (text "abc") (text "abc")
