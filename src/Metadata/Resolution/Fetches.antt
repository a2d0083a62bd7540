-- ===== src/Metadata/Resolution/Fetches.antt =====
-- What `resolve_metadata` of authzoo-oauth/src/client_metadata.rs fetches, returns and caches.
use authzoo.Common.{
  ℕ, suc, ◌≤◌, ◌≡◌, refl, ap, sym, ◌∙◌, ◌≢◌, inl, inr, true, not, Option-cases, Option, none, some,
  List, [], ◌∷◌, ◌++◌, Text, text, any, All, is_empty, length, length-append, text_eq, trim_matches,
  ok, err, require, >>=-eq-ok, require-eq, ok_or-eq, ok-first, outcome, returned, failed, panicked,
  Returns, arith,
}
use authzoo.Common.Maps.Hash
use authzoo.Common.Maps.Hash.{HashMap}
use authzoo.Url.{Url, Urls, IpAddr}
use authzoo.Client.{Client, valid_redirect}
use authzoo.Metadata.{MetadataError, invalid, parse_document, metadata_url, public_ip}
use authzoo.Metadata.Documents.{parse_document_iff, parse_document-Returns}
use authzoo.Metadata.Resolution.{
  lookup_timed_out, lookup_failed, timed_out, unconnected, failed, Response, Sent, answered, Lookup,
  addresses, looked_up, response_of, is_success, is_too_large, read_body, is_bracket, port_or_https,
  Web, max_document_bytes, fetch_metadata, text_or_empty,
}
use authzoo.Metadata.Lifetime.{cache_ttl-bounded}
use authzoo.Metadata.Resolution.Service.{
  ClientMetadataService, unexpired, find_cached, fetch, keep_fetched, cached_or_fetched, resolving,
  resolve_metadata,
}
use authzoo.Tasks.{◌>>=◌, atomic, alone}

read_body-bounded :
    (body : List ℕ) (chunks : List (Option (List ℕ))) (whole : List ℕ)
    → length body ≤ max_document_bytes
    → read_body body chunks ≡ ok whole
    → length whole ≤ max_document_bytes
unfolding read_body
read_body-bounded body [] whole b h = ground arith
read_body-bounded body (none ∷ chunks) whole b h = cc
read_body-bounded body (some chunk ∷ chunks) whole b h =
    ground (arith, length-append body chunk, read_body-bounded (body ++ chunk) chunks whole)

all_public :
    (found : List IpAddr)
    → not (any (λ a. not (public_ip a)) found) ≡ true
    → All (λ a. public_ip a ≡ true) found
all_public [] h = tt
all_public (a ∷ found) h = ground (arith, all_public found)

-- A client that a metadata document makes under its identifier.
pub record IsClientOf (urls : Urls) (id : Text) (client : Client) : Type 0 where
  pub same_id : client.client_id ≡ id
  pub is_cimd : client.cimd ≡ true
  pub some_redirect : client.redirect_uris ≢ []
  pub few_redirects : length client.redirect_uris ≤ 32
  pub redirects : All (λ uri. valid_redirect urls uri ≡ true) client.redirect_uris

-- A fetch: every address found for the host is public, the request goes to these addresses only, and
-- the body read from a success is no longer than the limit and parses as the client's document.
pub record IsFetched (web : Web) (n : ℕ) (id : Text) (url : Url) (client : Client) : Type 0 where
  pub host : Text
  pub hosted : url.host_str ≡ some host
  pub found : List IpAddr
  pub looked :
      web.lookup_host n (trim_matches is_bracket host) (port_or_https url.port_or_known_default)
      ≡ addresses found
  pub some_found : found ≢ []
  pub public : All (λ a. public_ip a ≡ true) found
  pub response : Response
  pub sent : web.send n host found url ≡ answered response
  pub succeeded : is_success response.status ≡ true
  pub body : List ℕ
  pub was_read : read_body [] response.chunks ≡ ok body
  pub short : length body ≤ max_document_bytes
  pub parsed : parse_document web.urls web.from_slice id body ≡ ok client

looked_up-eq : (l : Lookup) (found : List IpAddr) → looked_up l ≡ ok found → l ≡ addresses found
looked_up-eq (addresses f) found h = cc
looked_up-eq lookup_timed_out found h = cc
looked_up-eq lookup_failed found h = cc

response_of-eq :
    (r : Sent) (response : Response) → response_of r ≡ ok response → r ≡ answered response
response_of-eq (answered f) response h = cc
response_of-eq timed_out response h = cc
response_of-eq unconnected response h = cc
response_of-eq failed response h = cc

filled {ℓ} : {A : Type ℓ} (xs : List A) → not (is_empty xs) ≡ true → xs ≢ []
filled [] h = cc
filled (x ∷ xs) h = λ e. cc

module _ (web : Web) where
  pub fetch_metadata-IsFetched :
      (n : ℕ) (id : Text) (url : Url) (client : Client) (ttl : ℕ)
      → fetch_metadata web n id url ≡ ok (client, ttl)
      → IsFetched web n id url client × (ttl ≤ 300)
  unfolding fetch_metadata
  fetch_metadata-IsFetched n id url client ttl h =
      let (host, hosted, h) = >>=-eq-ok _ _ h in
      let (found, looked, h) = >>=-eq-ok _ _ h in
      let (_, some_found, h) = >>=-eq-ok _ _ h in
      let (_, public, h) = >>=-eq-ok _ _ h in
      let (_, built, h) =
        >>=-eq-ok
          (require (web.can_build host found)
            (invalid (text "metadata_http_client_configuration_failed")))
          _ h in
      let (response, sent, h) = >>=-eq-ok (response_of (web.send n host found url)) _ h in
      let (_, succeeded, h) = >>=-eq-ok _ _ h in
      let (_, small, h) =
        >>=-eq-ok
          (require (not (is_too_large response.content_length))
            (invalid (text "metadata_response_too_large")))
          _ h in
      let (body, was_read, h) = >>=-eq-ok _ _ h in
      let (c, parsed, h) = >>=-eq-ok (parse_document web.urls web.from_slice id body) _ h in
      let same : c ≡ client = ok-first h in
      let limit = cache_ttl-bounded (text_or_empty response.cache_control) in
      (
        record {
          host = host;
          hosted = ok_or-eq _ _ hosted;
          found = found;
          looked = looked_up-eq _ found looked;
          some_found = filled found (require-eq _ _ some_found);
          public = all_public found (require-eq _ _ public);
          response = response;
          sent = response_of-eq _ response sent;
          succeeded = require-eq _ _ succeeded;
          body = body;
          was_read = was_read;
          short = read_body-bounded [] response.chunks body (ground arith) was_read;
          parsed = parsed ∙ ap ok same;
        },
        ground arith,
      )

  pub IsFetched-IsClientOf :
      (n : ℕ) (id : Text) (url : Url) (client : Client)
      → IsFetched web n id url client
      → IsClientOf web.urls id client
  IsFetched-IsClientOf n id url client f =
      let (doc, _, a, e) =
        (parse_document_iff web.urls id web.from_slice f.body client).0 f.parsed in
      rw e (record {
        same_id = a.same_id;
        is_cimd = refl;
        some_redirect = a.some_redirect;
        few_redirects = a.few_redirects;
        redirects = a.redirects;
      })

  looked_up-Returns : (l : Lookup) → Returns (looked_up l)
  looked_up-Returns l = ground arith

  response_of-Returns : (r : Sent) → Returns (response_of r)
  response_of-Returns r = ground arith

  read_body-Returns :
      (body : List ℕ) (chunks : List (Option (List ℕ))) → Returns (read_body body chunks)
  unfolding read_body
  read_body-Returns body [] = tt
  read_body-Returns body (none ∷ chunks) = tt
  read_body-Returns body (some chunk ∷ chunks) =
      ground (arith, read_body-Returns (body ++ chunk) chunks)

  pub metadata_url-Returns : (id : Text) → Returns (metadata_url web.urls id)
  unfolding metadata_url
  metadata_url-Returns id = ground arith

  pub fetch_metadata-Returns :
      (n : ℕ) (id : Text) (url : Url) → Returns (fetch_metadata web n id url)
  unfolding fetch_metadata
  fetch_metadata-Returns n id url = elim (Option-cases url.host_str) [
    | inl unnamed ↦ ground arith
    | inr (host, named) ↦
        let l =
          web.lookup_host n (trim_matches is_bracket host)
            (port_or_https url.port_or_known_default) in
        elim (outcome (looked_up l)) [
          | failed e looked ↦ ground arith
          | panicked looked ↦ absurd (rw looked at (looked_up-Returns l))
          | returned found looked ↦ elim (outcome (response_of (web.send n host found url))) [
            | failed e sent ↦ ground arith
            | panicked sent ↦ absurd (rw sent at (response_of-Returns (web.send n host found url)))
            | returned response sent ↦ elim (outcome (read_body [] response.chunks)) [
              | failed e got ↦ ground arith
              | panicked got ↦ absurd (rw got at (read_body-Returns [] response.chunks))
              | returned body got ↦
                  ground (arith, parse_document-Returns web.urls web.from_slice id body)
            ]
          ]
        ]
  ]

  -- What `resolve_metadata` does once it has the URL.
  resolve_metadata-url :
      (id : Text) (s : ClientMetadataService) (url : Url)
      → metadata_url web.urls id ≡ ok url
      → resolve_metadata web id s
        ≡ alone
            (cached_or_fetched web id url (unexpired (web.now s.calls) (Hash.get id s.cache)))
            (record s { calls = suc s.calls })
  unfolding resolve_metadata resolving find_cached ◌>>=◌ atomic alone
  resolve_metadata-url id s url e = rw (e, resolving) refl

  resolve_metadata-err :
      (id : Text) (s : ClientMetadataService) (x : MetadataError)
      → metadata_url web.urls id ≡ err x
      → resolve_metadata web id s ≡ (err x, s)
  unfolding resolve_metadata resolving ◌>>=◌ alone
  resolve_metadata-err id s x e = rw (e, resolving) refl

  of_fetch :
      (id : Text) (s s' : ClientMetadataService) (url : Url) (client : Client)
      → alone (cached_or_fetched web id url none) s ≡ (ok client, s')
      → IsFetched web s.calls id url client
  unfolding cached_or_fetched fetch keep_fetched ◌>>=◌ atomic alone
  of_fetch id s s' url client h = elim (outcome (fetch_metadata web s.calls id url)) [
    | returned (c, ttl) f ↦
        let same : c ≡ client = cc (rw (f, alone, ◌>>=◌, keep_fetched) at h) in
        rw (sym same) (fetch_metadata-IsFetched s.calls id url c ttl f).0
    | failed x f ↦ cc (rw (f, alone, ◌>>=◌, keep_fetched) at h)
    | panicked f ↦ cc (rw (f, alone, ◌>>=◌, keep_fetched) at h)
  ]

  -- A client that `resolve_metadata` returns without an entry of the cache that has not expired was
  -- fetched under the checks of `IsFetched`, from the URL that is its identifier.
  pub resolve_metadata-IsFetched :
      (id : Text) (s s' : ClientMetadataService) (client : Client)
      → unexpired (web.now s.calls) (Hash.get id s.cache) ≡ none
      → resolve_metadata web id s ≡ (ok client, s')
      → (url : Url) × (metadata_url web.urls id ≡ ok url)
        × IsFetched web (suc s.calls) id url client
  resolve_metadata-IsFetched id s s' client absent h = elim (outcome (metadata_url web.urls id)) [
    | failed x e ↦ cc (sym h ∙ resolve_metadata-err id s x e)
    | panicked e ↦ absurd (rw e at (metadata_url-Returns id))
    | returned url e ↦
        let t : ClientMetadataService = record s { calls = suc s.calls } in
        let found =
          ap (λ o. alone (cached_or_fetched web id url o) t) (sym absent)
          ∙ (sym (resolve_metadata-url id s url e) ∙ h) in
        (url, e, of_fetch id t s' url client found)
  ]
