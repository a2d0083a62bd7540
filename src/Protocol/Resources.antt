-- ===== src/Protocol/Resources.antt =====
-- Which resources `validate_resource` of authzoo-oauth/src/protocol.rs accepts.
use authzoo.Common.{
  ◌≡◌, refl, ◌↔◌, true, Option, none, some, [], Text, text, text_beq_iff, is_empty_iff, ok, arith,
}
use authzoo.Url.{Url, Urls, is_some_iff, is_none_iff}
use authzoo.Protocol.{is_resource, validate_resource}

-- An absolute HTTPS URL with a host, and no credentials, query or fragment.
pub record IsResource (urls : Urls) (resource : Text) : Type 0 where
  pub url : Url
  pub parsed : urls.parse resource ≡ some url
  pub secure : url.scheme ≡ text "https"
  pub hosted : (host : Text) × (url.host_str ≡ some host)
  pub no_fragment : url.fragment ≡ none
  pub no_query : url.query ≡ none
  pub no_username : url.username ≡ []
  pub no_password : url.password ≡ none

module _ (urls : Urls) where
  is_resource_iff :
      (resource : Text) → (is_resource urls (urls.parse resource) ≡ true) ↔ IsResource urls resource
  is_resource_iff resource = (of_url (urls.parse resource) refl, to_url)
    where
      of_url :
          (o : Option Url)
          → urls.parse resource ≡ o
          → is_resource urls o ≡ true
          → IsResource urls resource
      of_url none e h = cc
      of_url (some url) e h = record {
        url = url;
        parsed = e;
        secure = (text_beq_iff _ _).0 (ground arith);
        hosted = (is_some_iff _).0 (ground arith);
        no_fragment = (is_none_iff _).0 (ground arith);
        no_query = (is_none_iff _).0 (ground arith);
        no_username = (is_empty_iff _).0 (ground arith);
        no_password = (is_none_iff _).0 (ground arith);
      }

      to_url : IsResource urls resource → is_resource urls (urls.parse resource) ≡ true
      to_url r =
          rw
            (
              r.parsed,
              (text_beq_iff _ _).1 r.secure,
              (is_some_iff _).1 r.hosted,
              (is_none_iff _).1 r.no_fragment,
              (is_none_iff _).1 r.no_query,
              (is_empty_iff _).1 r.no_username,
              (is_none_iff _).1 r.no_password,
            )
            refl

  -- `validate_resource` accepts an HTTPS URL with a host and without credentials, query and
  -- fragment, and no other text.
  pub validate_resource_iff :
      (resource : Text) → (validate_resource urls resource ≡ ok tt) ↔ IsResource urls resource
  unfolding validate_resource
  validate_resource_iff resource = ground (arith, is_resource_iff resource)
