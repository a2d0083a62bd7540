-- ===== src/Metadata.antt =====
-- Client metadata documents, of authzoo-oauth/src/client_metadata.rs: the errors and the document, with
-- the lifetime and the addresses in Ttl.antt and Ip.antt. serde_json is a parameter;
-- Metadata/Resolution.antt has the requests.
mod Ttl
mod Ip
pub mod Documents
pub mod Addresses
pub mod Lifetime
pub mod Logs
pub mod Resolution
pub use Ttl.*
unfoldable pub use Ttl.{max_age, cache_ttl}
pub use Ip.*
unfoldable pub use Ip.{public_ip}
use authzoo.Common.{
  ℕ, ◌+◌, ◌*◌, ◌/◌, ◌%◌, Bool, true, false, not, ◌&&◌, ◌||◌, Option, none, some, List, [], ◌∷◌,
  Text, text, text_beq, is_empty, any, all, keep, length, map, contains, text_eq, leb, ltb, nat_beq,
  len, bytes, trim, split, trim_matches, to_ascii_lowercase, strip_prefix, parse_u64, if◌then◌else◌,
  ◌++◌, Result, ok, err, panic, require, ok_or, ◌>>=◌, ◌>>◌,
}
use authzoo.Url.{
  Url, Urls, Ipv4Addr, Ipv6Addr, IpAddr, v4, v6, is_some, is_none, is_unspecified, is_loopback,
  is_private, is_link_local, is_multicast, is_broadcast, is_documentation,
}
use authzoo.Client.{ApplicationType, Client, valid_redirect}

pub record MetadataError : Type 0 where
  pub code : Text
  pub detail : Text

pub record Document : Type 0 where
  pub application_type : ApplicationType
  pub client_id : Text
  pub client_name : Text
  pub redirect_uris : List Text
  pub token_endpoint_auth_method : Option Text
  pub token_endpoint_auth_methods_supported : Option (List Text)
  pub grant_types : Option (List Text)
  pub response_types : Option (List Text)

-- The first row that names the reason.
unfoldable pub detail_in : List (List Text × Text) → Text → Text → Text
detail_in [] unknown reason = unknown
detail_in ((reasons, detail) ∷ rows) unknown reason =
    if contains reason reasons then detail else detail_in rows unknown reason

-- The `match` of `invalid`.
unfoldable pub details : List (List Text × Text)
details =
    (
      text "invalid_metadata_url" ∷ text "missing_metadata_host" ∷ [],
      text
          "The application's client ID must be a valid HTTPS client metadata URL, including a path and without credentials, query parameters, or a fragment.",
    )
    ∷ (
      text "dns_lookup_timeout" ∷ [],
      text "Looking up the application's client metadata host timed out.",
    )
    ∷ (
      text "dns_lookup_failed" ∷ text "dns_lookup_returned_no_addresses" ∷ [],
      text "The application's client metadata host could not be found in DNS.",
    )
    ∷ (
      text "metadata_address_is_not_public" ∷ [],
      text
          "The application's client metadata URL resolves to a private or reserved network address. Client metadata must be hosted on a public HTTPS address.",
    )
    ∷ (
      text "metadata_http_client_configuration_failed" ∷ [],
      text
          "The identity provider could not prepare a secure connection to the application's client metadata endpoint.",
    )
    ∷ (
      text "metadata_request_timeout" ∷ [],
      text "Fetching the application's client metadata timed out.",
    )
    ∷ (
      text "metadata_connection_failed" ∷ [],
      text
          "The identity provider could not establish a secure connection to the application's client metadata endpoint.",
    )
    ∷ (
      text "metadata_request_failed" ∷ text "metadata_body_read_failed" ∷ [],
      text "The identity provider could not download the application's client metadata.",
    )
    ∷ (
      text "metadata_response_too_large" ∷ [],
      text "The application's client metadata document exceeds the maximum size of 64 KiB.",
    )
    ∷ (
      text "invalid_metadata_json_or_field_type" ∷ [],
      text
          "The application's client metadata is not valid JSON, is missing required fields, or contains unsupported field types or values.",
    )
    ∷ (
      text "metadata_client_id_mismatch" ∷ [],
      text
          "The client_id in the application's metadata document does not exactly match the URL used to fetch that document.",
    )
    ∷ (
      text "invalid_client_name" ∷ [],
      text
          "The application's client metadata must include a non-empty client_name of at most 256 bytes.",
    )
    ∷ (
      text "invalid_redirect_uri_count" ∷ [],
      text
          "The application's client metadata must include between 1 and 32 callback URLs in redirect_uris.",
    )
    ∷ (
      text "invalid_redirect_uri" ∷ [],
      text
          "The application's client metadata contains an invalid callback URL. Callbacks must use HTTPS or HTTP on a loopback host, without credentials, fragments, or wildcards.",
    )
    ∷ (
      text "public_client_authentication_not_supported" ∷ [],
      text
          "The application's client metadata does not support token authentication method 'none', which is required by this identity provider's CIMD implementation.",
    )
    ∷ (
      text "authorization_code_grant_not_supported" ∷ [],
      text
          "The application's client metadata does not list the required 'authorization_code' grant type.",
    )
    ∷ (
      text "unsupported_response_types" ∷ [],
      text
          "The application's client metadata declares unsupported response types. This identity provider requires response_types to contain only 'code'.",
    )
    ∷ []

-- `invalid`, without its log line, the one use of the client's identifier.
unfoldable pub invalid : Text → MetadataError
unfolding detail_in details
invalid reason = record {
  code = text "invalid_client";
  detail = elim (strip_prefix (text "metadata_http_status_") reason) [
    | some status ↦
        text "The application's client metadata endpoint returned HTTP "
        ++ status
        ++ text
            " instead of a successful response. Metadata must be served directly without redirects."
    | none ↦
        detail_in details (text "The application's client metadata could not be validated.") reason
  ];
}

-- `methods.iter().any(|m| m == "none")`, or the single method with its default.
abbrev pub supports_none : Option (List Text) → Option Text → Bool
supports_none (some methods) method = contains (text "none") methods
supports_none none (some method) = text_beq method (text "none")
supports_none none none = true

abbrev pub grants_code : Option (List Text) → Bool
grants_code none = true
grants_code (some grants) = contains (text "authorization_code") grants

-- `types != ["code"]`.
abbrev pub is_only_code : List Text → Bool
is_only_code (t ∷ []) = text_beq t (text "code")
is_only_code _ = false

abbrev pub responds_code : Option (List Text) → Bool
responds_code none = true
responds_code (some types) = is_only_code types

module _ (urls : Urls) where
  -- `parse_document`, once the bytes are read.
  unfoldable pub check_document : Text → Document → Result MetadataError Client
  check_document id doc = do
    require (text_beq doc.client_id id) (invalid (text "metadata_client_id_mismatch"))
    require (not (is_empty (trim doc.client_name) || ltb 256 (len doc.client_name)))
        (invalid (text "invalid_client_name"))
    require (not (is_empty doc.redirect_uris || ltb 32 (length doc.redirect_uris)))
        (invalid (text "invalid_redirect_uri_count"))
    require (not (any (λ uri. not (valid_redirect urls uri)) doc.redirect_uris))
        (invalid (text "invalid_redirect_uri"))
    require (supports_none doc.token_endpoint_auth_methods_supported doc.token_endpoint_auth_method)
        (invalid (text "public_client_authentication_not_supported"))
    require (grants_code doc.grant_types) (invalid (text "authorization_code_grant_not_supported"))
    require (responds_code doc.response_types) (invalid (text "unsupported_response_types"))
    ok (record {
      client_id = doc.client_id;
      name = doc.client_name;
      redirect_uris = doc.redirect_uris;
      cimd = true;
      application_type = doc.application_type;
    })

  -- `parse_document`; `from_slice` is serde_json's, for a `Document`.
  unfoldable pub parse_document :
      (List ℕ → Option Document) → Text → List ℕ → Result MetadataError Client
  parse_document from_slice id body = do
    doc ← ok_or (from_slice body) (invalid (text "invalid_metadata_json_or_field_type"))
    check_document id doc

  abbrev pub is_metadata_url : Url → Bool
  is_metadata_url url = not (
      not (text_beq url.scheme (text "https"))
      || is_none url.host_str
      || text_beq url.path (text "/")
      || is_some url.fragment
      || is_some url.query
      || not (is_empty url.username)
      || is_some url.password)

  -- `metadata_url`.
  unfoldable pub metadata_url : Text → Result MetadataError Url
  metadata_url id = do
    url ← ok_or (urls.parse id) (invalid (text "invalid_metadata_url"))
    require (is_metadata_url url) (invalid (text "invalid_metadata_url"))
    ok url
