-- ===== src/Examples/Documents.antt =====
-- Metadata documents (authzoo-oauth/src/client_metadata.rs).
use authzoo.Common.{
  Text, ℕ, ◌≡◌, ◌↔◌, refl, arith, true, length, nat_beq, Option, none, some, List, [], ◌∷◌, text,
  text_beq, ok, strip_prefix, split, bytes, trim_start_matches, trim_end_matches, is_whitespace,
  to_ascii_lowercase, if◌then◌else◌,
}
use authzoo.Common.Maps.Hash
use authzoo.Url.{Url, IpAddr, v4}
use authzoo.Client.{native, valid_redirect}
use authzoo.Metadata.Logs.{log_client_id, Logged, log_client_id-Logged}
use authzoo.Metadata.{
  Document, parse_document, check_document, metadata_url, public_ip, cache_ttl, max_age,
}
use authzoo.Metadata.Addresses.{IsPublic, public_ip_iff}
use authzoo.Metadata.Documents
use authzoo.Metadata.Documents.{parse_document_iff, client_of}
use authzoo.Metadata.Resolution.{
  Web, Response, answered, addresses, fetch_metadata, read_body, remember, retain_live,
}
use authzoo.Metadata.Resolution.Service.{
  find_cached, fetch, keep_fetched, cached_or_fetched, resolving, resolve_metadata, callers,
}
use authzoo.Metadata.Resolution.Shared.{HasOrigin, IsFresh, no_clients, interleave-IsFresh}
use authzoo.Tasks.{◌>>=◌, atomic, alone, interleave, EndWell}
use authzoo.Tasks.Rules.{Yields}
use authzoo.Metadata.Resolution.Fetches.{IsFetched, resolve_metadata-IsFetched}
use authzoo.Metadata.Resolution.Stored.{IsKept}
use authzoo.Examples.Oauth.{urls, client}

log_client_id-Logged_example :
    Logged urls (text "https://app/c") (log_client_id urls (text "https://app/c"))
log_client_id-Logged_example = log_client_id-Logged urls (text "https://app/c")

abbrev address : IpAddr
address = v4 (record { a = 8; b = 8; c = 4; d = 4 })

public_ip_iff_example : (public_ip address ≡ true) ↔ IsPublic address
public_ip_iff_example =
    public_ip_iff address (ground arith, ground arith, ground arith, ground arith)

abbrev document : Document
document = record {
  application_type = native;
  client_id = text "https://app/c";
  client_name = text "App";
  redirect_uris = text "http://localhost/cb" ∷ [];
  token_endpoint_auth_method = some (text "none");
  token_endpoint_auth_methods_supported = none;
  grant_types = none;
  response_types = none;
}

abbrev from_slice : List ℕ → Option Document
from_slice body = if nat_beq (length body) 2 then some document else none

parse_document_iff_example :
    (parse_document urls from_slice (text "https://app/c") (123 ∷ 125 ∷ []) ≡ ok client) ↔ (
      (doc : Document) × (from_slice (123 ∷ 125 ∷ []) ≡ some doc)
      × Documents.IsAcceptable urls (text "https://app/c") doc
      × (client ≡ client_of doc))
parse_document_iff_example =
    parse_document_iff urls (text "https://app/c") from_slice (123 ∷ 125 ∷ []) client

abbrev response : Response
response = record {
  status = 200;
  content_length = some 2;
  cache_control = some (text "no-store");
  age = none;
  chunks = some (123 ∷ []) ∷ some (125 ∷ []) ∷ [];
}

abbrev internet : Web
internet = record {
  urls = urls;
  from_slice = from_slice;
  now = λ n. n;
  lookup_host = λ n host port. addresses (address ∷ []);
  can_build = λ host found. true;
  send = λ n host found url. answered response;
}

resolve_metadata-IsFetched_example :
    (url : Url) × (metadata_url urls (text "https://app/c") ≡ ok url)
    × IsFetched internet 1 (text "https://app/c") url client
unfolding resolve_metadata resolving find_cached cached_or_fetched fetch keep_fetched ◌>>=◌ atomic
    alone metadata_url fetch_metadata read_body parse_document check_document public_ip
    valid_redirect cache_ttl max_age split to_ascii_lowercase strip_prefix text_beq bytes
    trim_start_matches trim_end_matches is_whitespace Hash.get remember retain_live
resolve_metadata-IsFetched_example =
    resolve_metadata-IsFetched internet (text "https://app/c") no_clients
      (record { cache = []; calls = 3 }) client refl refl

abbrev pub cacheable : Web
cacheable = record internet {
  send = λ n host found url. answered (record response { cache_control = none });
}

abbrev pub ids : List Text
ids = text "https://app/c" ∷ text "https://app/c" ∷ text "" ∷ []

-- The second caller looks into the cache before the first one stores, and then both fetch.
abbrev pub schedule : List ℕ
schedule = 0 ∷ 1 ∷ 0 ∷ 0 ∷ 1 ∷ 2 ∷ 1 ∷ []

interleave-IsFresh_example :
    EndWell
      (λ id. Yields (HasOrigin cacheable id))
      ids
      (interleave schedule (callers cacheable ids) no_clients).0
    × IsKept (IsFresh cacheable) (interleave schedule (callers cacheable ids) no_clients).1
interleave-IsFresh_example = interleave-IsFresh cacheable (λ n m l. l) ids schedule
