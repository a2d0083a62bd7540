-- ===== src/Metadata/Resolution.antt =====
-- What `resolve_metadata` of authzoo-oauth/src/client_metadata.rs fetches and remembers.
-- DNS, HTTP, the clock and serde_json are a parameter, `Web`; what answers differently each time takes
-- the number of the call. Instants are in nanoseconds.
pub mod Service
pub mod Fetches
pub mod Entries
pub mod Stored
pub mod Shared
use authzoo.Common.{
  ℕ, suc, ◌+◌, ◌-◌, ◌*◌, ◌/◌, ◌%◌, Bool, true, false, not, ◌&&◌, ◌||◌, Option, none, some, List, [],
  ◌∷◌, Text, text, is_empty, any, length, leb, ltb, nat_beq, trim_matches, parse_u64, text_eq,
  if◌then◌else◌, ◌++◌, Result, ok, err, panic, require, ok_or, ◌>>=◌, ◌>>◌,
}
use authzoo.Common.Maps.Hash
use authzoo.Common.Maps.Hash.{HashMap}
use authzoo.Url.{Url, Urls, IpAddr}
use authzoo.Client.{Client}
use authzoo.Metadata.{
  MetadataError, Document, invalid, parse_document, metadata_url, cache_ttl, public_ip,
}

-- The body as the chunks that arrive; `none` is a read that fails.
pub record Response : Type 0 where
  pub status : ℕ
  pub content_length : Option ℕ
  pub cache_control : Option Text
  pub age : Option Text
  pub chunks : List (Option (List ℕ))

pub data Sent : Type 0 where
  timed_out unconnected failed : Sent
  answered : Response → Sent

pub data Lookup : Type 0 where
  lookup_timed_out lookup_failed : Lookup
  addresses : List IpAddr → Lookup

pub record Web : Type 0 where
  pub urls : Urls
  pub from_slice : List ℕ → Option Document
  pub now : ℕ → ℕ
  pub lookup_host : ℕ → Text → ℕ → Lookup
  -- A client for HTTPS only, without proxy and redirects, that finds the host at these addresses.
  pub can_build : Text → List IpAddr → Bool
  pub send : ℕ → Text → List IpAddr → Url → Sent

abbrev pub max_document_bytes : ℕ
max_document_bytes = 64 * 1024

abbrev pub max_cache_entries : ℕ
max_cache_entries = 256

abbrev pub looked_up : Lookup → Result MetadataError (List IpAddr)
looked_up lookup_timed_out = err (invalid (text "dns_lookup_timeout"))
looked_up lookup_failed = err (invalid (text "dns_lookup_failed"))
looked_up (addresses found) = ok found

abbrev pub response_of : Sent → Result MetadataError Response
response_of timed_out = err (invalid (text "metadata_request_timeout"))
response_of unconnected = err (invalid (text "metadata_connection_failed"))
response_of failed = err (invalid (text "metadata_request_failed"))
response_of (answered response) = ok response

-- `status.as_u16()`, three digits.
abbrev pub status_text : ℕ → Text
status_text status = (48 + status / 100) ∷ (48 + (status / 10) % 10) ∷ (48 + status % 10) ∷ []

abbrev pub is_success : ℕ → Bool
is_success status = leb 200 status && ltb status 300

abbrev pub is_too_large : Option ℕ → Bool
is_too_large none = false
is_too_large (some n) = ltb max_document_bytes n

-- The loop over `response.chunk()`, with the bytes so far.
unfoldable pub read_body : List ℕ → List (Option (List ℕ)) → Result MetadataError (List ℕ)
read_body body [] = ok body
read_body body (none ∷ chunks) = err (invalid (text "metadata_body_read_failed"))
read_body body (some chunk ∷ chunks) =
    let rest = read_body (body ++ chunk) chunks in
    if ltb max_document_bytes (length body + length chunk)
    then err (invalid (text "metadata_response_too_large"))
    else rest

abbrev pub text_or_empty : Option Text → Text
text_or_empty none = []
text_or_empty (some t) = t

abbrev pub zero_if_none : Option ℕ → ℕ
zero_if_none none = 0
zero_if_none (some n) = n

abbrev pub age_of : Option Text → ℕ
age_of none = 0
age_of (some t) = zero_if_none (parse_u64 t)

abbrev pub port_or_https : Option ℕ → ℕ
port_or_https none = 443
port_or_https (some port) = port

abbrev pub is_bracket : ℕ → Bool
is_bracket c = nat_beq c 91 || nat_beq c 93

-- `retain` of the entries that have not expired, each against a new reading of the clock.
unfoldable pub retain_live : (ℕ → ℕ) → ℕ → HashMap Text (ℕ × Client) → HashMap Text (ℕ × Client)
retain_live now n [] = []
retain_live now n ((id, (expiry, client)) ∷ entries) =
    let rest = retain_live now (suc n) entries in
    if ltb (now n) expiry then (id, (expiry, client)) ∷ rest else rest

-- The end of `resolve_metadata`, from call `n` on.
unfoldable pub remember :
    (ℕ → ℕ) → ℕ → Text → Client → ℕ → HashMap Text (ℕ × Client) → HashMap Text (ℕ × Client)
remember now n id client ttl cache =
    let live = retain_live now n cache in
    let room = if leb max_cache_entries (length live) then [] else live in
    let expiry = now (n + length cache) + ttl * 1000000000 in
    if nat_beq ttl 0 then cache else Hash.insert id (expiry, client) room

module _ (web : Web) where
  -- The part of `resolve_metadata` after the cache: the client and how long to keep it.
  unfoldable pub fetch_metadata : ℕ → Text → Url → Result MetadataError (Client × ℕ)
  fetch_metadata n id url = do
    host ← ok_or url.host_str (invalid (text "missing_metadata_host"))
    found ←
        looked_up (
          web.lookup_host n (trim_matches is_bracket host)
            (port_or_https url.port_or_known_default))
    require (not (is_empty found)) (invalid (text "dns_lookup_returned_no_addresses"))
    require (not (any (λ a. not (public_ip a)) found))
        (invalid (text "metadata_address_is_not_public"))
    require (web.can_build host found) (invalid (text "metadata_http_client_configuration_failed"))
    response ← response_of (web.send n host found url)
    require (is_success response.status)
        (invalid (text "metadata_http_status_" ++ status_text response.status))
    require (not (is_too_large response.content_length))
        (invalid (text "metadata_response_too_large"))
    body ← read_body [] response.chunks
    client ← parse_document web.urls web.from_slice id body
    ok (client, cache_ttl (text_or_empty response.cache_control) - age_of response.age)
