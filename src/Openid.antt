-- ===== src/Openid.antt =====
-- authzoo-oauth/src/discovery.rs: the discovery document of an issuer.
pub mod Promises
use authzoo.Common.{Bool, true, Option, some, List, [], ◌∷◌, ◌++◌, Text, text}

pub record OpenidConfiguration : Type 0 where
  pub issuer : Text
  pub client_id_metadata_document_supported : Bool
  pub authorization_response_iss_parameter_supported : Bool
  pub authorization_endpoint : Text
  pub token_endpoint : Text
  pub userinfo_endpoint : Option Text
  pub response_modes_supported : List Text
  pub jwks_uri : Text
  pub response_types_supported : List Text
  pub subject_types_supported : List Text
  pub id_token_signing_alg_values_supported : List Text
  pub scopes_supported : List Text
  pub token_endpoint_auth_methods_supported : List Text
  pub claims_supported : List Text
  pub grant_types_supported : List Text
  pub code_challenge_methods_supported : List Text

-- `OpenidConfiguration::new`.
unfoldable pub new : Text → OpenidConfiguration
new issuer = record {
  issuer = issuer;
  client_id_metadata_document_supported = true;
  authorization_response_iss_parameter_supported = true;
  authorization_endpoint = issuer ++ text "/authorize";
  token_endpoint = issuer ++ text "/token";
  userinfo_endpoint = some (issuer ++ text "/userinfo");
  response_modes_supported = text "query" ∷ [];
  jwks_uri = issuer ++ text "/jwks.json";
  response_types_supported = text "code" ∷ [];
  subject_types_supported = text "public" ∷ [];
  id_token_signing_alg_values_supported = text "ES256" ∷ [];
  scopes_supported =
      text "openid" ∷ text "email" ∷ text "profile" ∷ text "groups" ∷ text "offline_access" ∷ [];
  token_endpoint_auth_methods_supported = text "none" ∷ text "client_secret_basic" ∷ [];
  claims_supported =
      text "sub"
      ∷ text "iss"
      ∷ text "aud"
      ∷ text "exp"
      ∷ text "iat"
      ∷ text "auth_time"
      ∷ text "nonce"
      ∷ text "email"
      ∷ text "groups"
      ∷ [];
  grant_types_supported = text "authorization_code" ∷ text "refresh_token" ∷ [];
  code_challenge_methods_supported = text "S256" ∷ [];
}
