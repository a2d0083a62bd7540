-- ===== src/Metadata/Resolution/Shared.antt =====
-- The callers of `resolve_metadata` (authzoo-oauth/src/client_metadata.rs) that share one cache, in
-- every order of their steps.
use authzoo.Common.{ℕ, ◌+◌, ◌*◌, ◌≤◌, ◌≡◌, List, [], Text, ok, arith}
use authzoo.Url.{Url}
use authzoo.Client.{Client}
use authzoo.Metadata.{metadata_url}
use authzoo.Metadata.Resolution.{Web}
use authzoo.Metadata.Resolution.Service.{ClientMetadataService, resolving, callers}
use authzoo.Metadata.Resolution.Fetches.{IsFetched}
use authzoo.Metadata.Resolution.Entries.{Entry}
use authzoo.Metadata.Resolution.Stored.{IsKept, resolving-Yields}
use authzoo.Tasks.{interleave, EndWell}
use authzoo.Tasks.Rules.{Yields, Respects, interleave-EndWell}

-- A client that was fetched under the checks of `IsFetched`, from the URL that is its identifier.
pub record HasOrigin (web : Web) (id : Text) (client : Client) : Type 0 where
  pub call : ℕ
  pub url : Url
  pub at : metadata_url web.urls id ≡ ok url
  pub source : IsFetched web call id url client

-- An entry that was fetched, and that does not outlive the call by more than the longest time.
abbrev pub IsFresh : Web → ℕ → Entry → Type 0
IsFresh web n entry = HasOrigin web entry.0 entry.1.1 × (entry.1.0 ≤ web.now n + 300 * 1000000000)

-- `ClientMetadataService::default`.
abbrev pub no_clients : ClientMetadataService
no_clients = record { cache = []; calls = 0 }

module _ (web : Web) (advances : (n m : ℕ) → n ≤ m → web.now n ≤ web.now m) where
  pub resolving-HasOrigin :
      (id : Text) → Respects (IsKept (IsFresh web)) (Yields (HasOrigin web id)) (resolving web id)
  resolving-HasOrigin id =
      resolving-Yields web (IsFresh web) (HasOrigin web)
        (λ n m e l (origin, fresh). (origin, omega (arith, fresh, advances n m l)))
        (λ n e (origin, fresh). origin)
        (λ n i url client at source. record { call = n; url = url; at = at; source = source })
        (λ n m i client ttl origin short l. (origin, omega (arith, short, advances n m l))) id

  -- However the steps of the callers are ordered that look up clients from an empty cache on, with a
  -- clock that does not go back: a caller that has ended has an error, no panic, or a client that was
  -- fetched, by this caller or another, under the checks of `IsFetched` and from the URL that is the
  -- identifier it asked for; and after the steps the cache has at most 256 entries, each of such a
  -- client and expiring no later than 300 seconds after the present.
  pub interleave-IsFresh :
      (ids : List Text) (schedule : List ℕ)
      → EndWell
          (λ id. Yields (HasOrigin web id))
          ids
          (interleave schedule (callers web ids) no_clients).0
        × IsKept (IsFresh web) (interleave schedule (callers web ids) no_clients).1
  interleave-IsFresh ids schedule =
      let (kept, ended) =
        interleave-EndWell (IsKept (IsFresh web)) (λ id. Yields (HasOrigin web id)) (resolving web)
          schedule ids no_clients resolving-HasOrigin (tt, omega arith) in
      (ended, kept)
