-- ===== src/Metadata/Resolution/Stored.antt =====
-- The cache of `ClientMetadataService` of authzoo-oauth/src/client_metadata.rs under `resolve_metadata`,
-- for callers that share it.
use authzoo.Common.{
  ℕ, suc, ◌+◌, ◌*◌, ◌≤◌, ◌≡◌, refl, inl, inr, Bool-cases, Option, none, some, Text, All, length,
  ltb, text_eq, Result, ok, outcome, returned, failed, panicked, arith,
}
use authzoo.Common.Maps.Hash
use authzoo.Common.Maps.Hash.{HashMap}
use authzoo.Url.{Url}
use authzoo.Client.{Client}
use authzoo.Metadata.{MetadataError, metadata_url}
use authzoo.Metadata.Resolution.{Web, max_cache_entries, fetch_metadata}
use authzoo.Metadata.Resolution.Service.{
  ClientMetadataService, unexpired, find_cached, fetch, keep_fetched, cached_or_fetched, resolving,
  resolve_metadata,
}
use authzoo.Metadata.Resolution.Fetches.{
  IsFetched, IsClientOf, fetch_metadata-IsFetched, IsFetched-IsClientOf, metadata_url-Returns,
  fetch_metadata-Returns,
}
use authzoo.Metadata.Resolution.Entries.{Entry, get-All, remember-All, All-map}
use authzoo.Tasks.Rules.{Yields, Respects, Respects->>=, Respects-atomic, Respects-alone}

-- A property of the entries, as of a number of calls, and the limit on their number.
abbrev pub IsKept : (ℕ → Entry → Type 0) → ClientMetadataService → Type 0
IsKept P s = All (P s.calls) s.cache × (length s.cache ≤ max_cache_entries)

-- What callers keep true of the entries as the calls go on, and so make sure of the clients.
module _ (web : Web) (P : ℕ → Entry → Type 0) (R : Text → Client → Type 0)
    (lasts : (n m : ℕ) (e : Entry) → n ≤ m → P n e → P m e)
    (gives : (n : ℕ) (e : Entry) → P n e → R e.0 e.1.1)
    (made : (n : ℕ) (id : Text) (url : Url) (client : Client)
      → metadata_url web.urls id ≡ ok url
      → IsFetched web n id url client
      → R id client)
    (stored : (n m : ℕ) (id : Text) (client : Client) (ttl : ℕ)
      → R id client
      → ttl ≤ 300
      → n ≤ m
      → P m (id, (web.now n + ttl * 1000000000, client))) where
  All-later :
      (n m : ℕ) (cache : HashMap Text (ℕ × Client)) → n ≤ m → All (P n) cache → All (P m) cache
  All-later n m cache l h = All-map (P n) (P m) cache (λ e. lasts n m e l) h

  abbrev IsFound : Text → Option Client → Type 0
  IsFound id none = Unit
  IsFound id (some client) = R id client

  unexpired-IsFound :
      (id : Text) (n now : ℕ) (cache : HashMap Text (ℕ × Client))
      → All (P n) cache
      → IsFound id (unexpired now (Hash.get id cache))
  unexpired-IsFound id n now cache h = of_entry (Hash.get id cache) refl
    where
      of_entry : (o : Option (ℕ × Client)) → Hash.get id cache ≡ o → IsFound id (unexpired now o)
      of_entry none e = tt
      of_entry (some (expiry, client)) e = elim (Bool-cases (ltb now expiry)) [
        | inl live ↦ rw live (gives n _ (get-All (P n) id cache expiry client h e))
        | inr expired ↦ rw expired tt
      ]

  find_cached-IsFound :
      (id : Text) (s : ClientMetadataService)
      → IsKept P s
      → (IsKept P) (find_cached web id s).1 × Yields (IsFound id) (find_cached web id s).0
  unfolding find_cached
  find_cached-IsFound id s (h, l) = (
    (All-later s.calls (suc s.calls) s.cache (omega arith) h, l),
    unexpired-IsFound id s.calls (web.now s.calls) s.cache h,
  )

  abbrev IsKeepable : Text → Client × ℕ → Type 0
  IsKeepable id found = R id found.0 × (found.1 ≤ 300)

  fetch-IsKeepable :
      (id : Text) (url : Url) (s : ClientMetadataService)
      → metadata_url web.urls id ≡ ok url
      → IsKept P s
      → (IsKept P) (fetch web id url s).1 × Yields (IsKeepable id) (fetch web id url s).0
  unfolding fetch
  fetch-IsKeepable id url s at (h, l) =
      ((All-later s.calls (suc s.calls) s.cache (omega arith) h, l), of_fetch)
    where
      of_fetch : Yields (IsKeepable id) (fetch_metadata web s.calls id url)
      of_fetch = elim (outcome (fetch_metadata web s.calls id url)) [
        | returned (client, ttl) e ↦
            let (f, short) = fetch_metadata-IsFetched web s.calls id url client ttl e in
            rw e (made s.calls id url client at f, short)
        | failed x e ↦ rw e tt
        | panicked e ↦ absurd (rw e at ((fetch_metadata-Returns web s.calls id url)))
      ]

  keep_fetched-IsKept :
      (id : Text) (found : Client × ℕ) (s : ClientMetadataService)
      → IsKeepable id found
      → IsKept P s
      → (IsKept P) (keep_fetched web id found s).1 × Yields (R id) (keep_fetched web id found s).0
  unfolding keep_fetched
  keep_fetched-IsKept id (client, ttl) s (r, short) (h, l) =
      let later = suc s.calls + length s.cache in
      let now = s.calls + length s.cache in
      (
        remember-All (P later) web.now s.calls id client ttl s.cache
            (stored now later id client ttl r short (omega arith))
            (All-later s.calls later s.cache (omega arith) h, l),
        r,
      )

  cached_or_fetched-Yields :
      (id : Text) (url : Url) (cached : Option Client)
      → metadata_url web.urls id ≡ ok url
      → IsFound id cached
      → Respects (IsKept P) (Yields (R id)) (cached_or_fetched web id url cached)
  unfolding cached_or_fetched
  cached_or_fetched-Yields id url (some client) e found = found
  cached_or_fetched-Yields id url none e found =
      Respects->>= (IsKept P) (Yields (IsKeepable id)) (Yields (R id)) _ _
        (Respects-atomic (IsKept P) (Yields (IsKeepable id)) _ (λ s. fetch-IsKeepable id url s e))
        (λ keepable h.
          Respects-atomic (IsKept P) (Yields (R id)) _ (λ s. keep_fetched-IsKept id keepable s h))
        (λ e _. tt) (λ p. p)

  metadata_url-Yields :
      (id : Text) → Yields (λ url. metadata_url web.urls id ≡ ok url) (metadata_url web.urls id)
  metadata_url-Yields id = elim (outcome (metadata_url web.urls id)) [
    | returned url e ↦ rw e refl
    | failed x e ↦ rw e tt
    | panicked e ↦ absurd (rw e at (metadata_url-Returns web id))
  ]

  -- A caller that gets a client gets one of the kind that callers make sure of, and does not panic.
  pub resolving-Yields : (id : Text) → Respects (IsKept P) (Yields (R id)) (resolving web id)
  unfolding resolving
  resolving-Yields id =
      Respects->>= (IsKept P) (Yields (λ url. metadata_url web.urls id ≡ ok url)) (Yields (R id)) _
        _ (metadata_url-Yields id)
        (λ url e.
          Respects->>= (IsKept P) (Yields (IsFound id)) (Yields (R id)) _ _
            (Respects-atomic (IsKept P) (Yields (IsFound id)) _ (find_cached-IsFound id))
            (λ cached found. cached_or_fetched-Yields id url cached e found) (λ e _. tt) (λ p. p))
        (λ e _. tt) (λ p. p)

module _ (web : Web) where
  -- What `resolve_metadata` keeps true of the cache: each client is one of its identifier, and there
  -- are no more than the limit.
  abbrev pub IsValidCache : HashMap Text (ℕ × Client) → Type 0
  IsValidCache m =
      All (λ entry. IsClientOf web.urls entry.0 entry.1.1) m × (length m ≤ max_cache_entries)

  -- A result that is a client of the identifier, or an error.
  abbrev pub GivesClientOf : Text → Result MetadataError Client → Type 0
  GivesClientOf id r = Yields (IsClientOf web.urls id) r

  -- From a valid cache, `resolve_metadata` returns an error or a client of the identifier, cached or
  -- fetched, and leaves a valid cache.
  pub resolve_metadata-IsValid :
      (id : Text) (s : ClientMetadataService)
      → IsValidCache s.cache
      → GivesClientOf id (resolve_metadata web id s).0
        × IsValidCache (resolve_metadata web id s).1.cache
  unfolding resolve_metadata
  resolve_metadata-IsValid id s v =
      let P : ℕ → Entry → Type 0 = λ n e. IsClientOf web.urls e.0 e.1.1 in
      let R = IsClientOf web.urls in
      let kept =
        resolving-Yields web P R (λ n m e l h. h) (λ n e h. h)
          (λ n i url c at f. IsFetched-IsClientOf web n i url c f) (λ n m i c ttl h short l. h)
          id in
      let (left, given) = Respects-alone (IsKept P) (Yields (R id)) (resolving web id) kept s v in
      (given, left)
