-- ===== src/Metadata/Resolution/Service.antt =====
-- `ClientMetadataService` of authzoo-oauth/src/client_metadata.rs: `resolve` and `resolve_metadata`,
-- for callers that share the cache. A step is one of the two sections under its lock, or the fetch.
use authzoo.Common.{
  ℕ, suc, ◌+◌, Option, none, some, List, Text, length, ltb, text_eq, Result, ok, err, panic,
  if◌then◌else◌,
}
use authzoo.Common.Maps.Hash
use authzoo.Common.Maps.Hash.{HashMap}
use authzoo.Url.{Url}
use authzoo.Client.{Client}
use authzoo.Metadata.{MetadataError, metadata_url}
use authzoo.Metadata.Resolution.{Web, remember, fetch_metadata}
use authzoo.Tasks.{Task, done, ◌>>=◌, atomic, alone, pool}

pub record ClientMetadataService : Type 0 where
  pub cache : HashMap Text (ℕ × Client)
  pub calls : ℕ

abbrev pub Resolution : Type 0 → Type 0
Resolution A = Task ClientMetadataService MetadataError A

-- The cached client of an identifier, unless it has expired.
abbrev pub unexpired : ℕ → Option (ℕ × Client) → Option Client
unexpired now none = none
unexpired now (some (expiry, client)) = if ltb now expiry then some client else none

module _ (web : Web) where
  -- The section under the first lock of the cache.
  unfoldable pub find_cached :
      Text → ClientMetadataService → Result MetadataError (Option Client) × ClientMetadataService
  find_cached id s =
      (ok (unexpired (web.now s.calls) (Hash.get id s.cache)), record s { calls = suc s.calls })

  -- The calls to DNS and HTTP.
  unfoldable pub fetch :
      Text → Url → ClientMetadataService → Result MetadataError (Client × ℕ) × ClientMetadataService
  fetch id url s = (fetch_metadata web s.calls id url, record s { calls = suc s.calls })

  -- The section under the second lock.
  unfoldable pub keep_fetched :
      Text
      → Client × ℕ
      → ClientMetadataService
      → Result MetadataError Client × ClientMetadataService
  keep_fetched id (client, ttl) s = (
    ok client,
    record {
      cache = remember web.now s.calls id client ttl s.cache;
      calls = suc s.calls + length s.cache;
    },
  )

  unfoldable pub cached_or_fetched : Text → Url → Option Client → Resolution Client
  cached_or_fetched id url (some client) = done (ok client)
  cached_or_fetched id url none = do found ← atomic (fetch id url); atomic (keep_fetched id found)

  -- `resolve_metadata` step by step: another caller's steps may come between two of them.
  unfoldable pub resolving : Text → Resolution Client
  resolving id = do
    url ← done (metadata_url web.urls id)
    cached ← atomic (find_cached id)
    cached_or_fetched id url cached

  -- `resolve_metadata` of a caller that has the service to itself.
  unfoldable pub resolve_metadata :
      Text → ClientMetadataService → Result MetadataError Client × ClientMetadataService
  resolve_metadata id = alone (resolving id)

  -- The callers, one for each identifier that is looked up.
  abbrev pub callers : List Text → List (Resolution Client)
  callers ids = pool resolving ids

pub data ResolveError (E : Type 0) : Type 0 where
  registry : E → ResolveError E
  metadata : MetadataError → ResolveError E

abbrev pub as_resolved :
    {E : Type 0}
    → Result MetadataError Client × ClientMetadataService
    → Result (ResolveError E) Client × ClientMetadataService
as_resolved (ok client, s) = (ok client, s)
as_resolved (err e, s) = (err (metadata e), s)
as_resolved (panic, s) = (panic, s)

-- `resolve`; `found` is what `registry.find_client(id)` returns.
unfoldable pub resolve :
    {E : Type 0}
    → Web
    → Result E (Option Client)
    → Text
    → ClientMetadataService
    → Result (ResolveError E) Client × ClientMetadataService
resolve web (ok (some client)) id s = (ok client, s)
resolve web (ok none) id s = as_resolved (resolve_metadata web id s)
resolve web (err e) id s = (err (registry e), s)
resolve web panic id s = (panic, s)

-- `NoRegisteredClients::find_client`, whose error type has no values.
unfoldable pub find_client : Text → Result ⊥ (Option Client)
find_client id = ok none
