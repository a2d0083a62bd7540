-- ===== src/Examples/Granting.antt =====
-- An access token for a client that is known by its metadata document only (authzoo-oauth).
use authzoo.Common.{
  refl, ◌*◌, [], ◌∷◌, text, text_beq, bytes, split, strip_prefix, trim_start_matches,
  trim_end_matches, to_ascii_lowercase, is_whitespace,
}
use authzoo.Common.Maps.Hash
use authzoo.Client.{valid_redirect}
use authzoo.Metadata.{parse_document, check_document, metadata_url, cache_ttl, max_age, public_ip}
use authzoo.Metadata.Resolution.{fetch_metadata, read_body, remember, retain_live}
use authzoo.Metadata.Resolution.Service.{
  ClientMetadataService, find_cached, fetch, keep_fetched, cached_or_fetched, resolving,
  resolve_metadata, resolve, find_client,
}
use authzoo.Token.{sign}
use authzoo.Token.Minting.{mint_access_token_until, access_token_claims, hour_after}
use authzoo.Tasks.{◌>>=◌, atomic, alone, interleave, pool, step_of}
use authzoo.Grants.{served, IsAuthorized, authorize-IsAuthorized}
use authzoo.Examples.Samples.{second, chrono}
use authzoo.Examples.Oauth.{client, request, policy, pending, accepted, principal}
use authzoo.Examples.Documents.{cacheable, ids, schedule}
use authzoo.Examples.Issuing.{crates, issuer, key}

abbrev after_others : ClientMetadataService
after_others = served cacheable (λ n m l. l) ids schedule

abbrev after_resolve : ClientMetadataService
after_resolve =
    (resolve cacheable (find_client (text "https://app/c")) (text "https://app/c") after_others).1

authorize-IsAuthorized_example :
    IsAuthorized cacheable crates key request policy client pending (text "k1")
unfolding resolve find_client pool interleave step_of resolve_metadata resolving find_cached
    cached_or_fetched fetch keep_fetched ◌>>=◌ atomic alone metadata_url fetch_metadata read_body
    parse_document check_document public_ip valid_redirect cache_ttl max_age split
    to_ascii_lowercase strip_prefix text_beq bytes trim_start_matches trim_end_matches is_whitespace
    Hash.get Hash.insert Hash.remove remember retain_live mint_access_token_until sign
    access_token_claims hour_after
authorize-IsAuthorized_example =
    authorize-IsAuthorized cacheable (λ n m l. l) ids schedule request policy client after_resolve
      pending crates chrono (1 ∷ []) issuer key principal (100 * second) (9999 * second) (text "k1")
      refl accepted refl
