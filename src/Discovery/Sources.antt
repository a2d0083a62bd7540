-- ===== src/Discovery/Sources.antt =====
-- What the cache of authzoo/src/discovery.rs holds of fetched key sets.
use authzoo.Common.{
  ℕ, ◌≡◌, refl, Option, none, some, List, [], ◌∷◌, ◌++◌, Text, At, here, there, Result, outcome,
  returned, failed, panicked,
}
use authzoo.Jwt.{Algorithm, Jwk, JwkSet}
use authzoo.Config.{Failure, AuthzooError}
use authzoo.Jwks.{ensure_jwk_compatible}
use authzoo.Jwks.Fitting.{Fits}
use authzoo.Jwks.Selection.{ensure_jwk_compatible_iff, IsChosen}
use authzoo.KeyCache
use authzoo.KeyCache.{JwksKeyCache, JwksKeyCacheKey, new_key}
use authzoo.KeyCache.Contents.{Holds, Returned, insert-Holds, get-Holds}
use authzoo.World.{
  Client, Fetch, unsent, error_status, unparsable, fetched, Environment, State, ◌>>=◌, ask,
}
use authzoo.World.Triples.{Post, Keeps, if_both}
use authzoo.Discovery.{
  get_or_init, checked_key, read_cache, cached_jwks_key, write_cache, cache_jwks_key, received,
}

-- A key of a key set that was fetched from an address.
pub record IsFetched (env : Environment) (uri : Text) (jwk : Jwk) : Type 0 where
  pub call : ℕ
  pub client : Client
  pub jwks : JwkSet
  pub answered : env.get_jwks call client uri ≡ fetched jwks
  pub held : At jwk jwks.keys

-- Every cached key was fetched from the address under which it is cached.
abbrev pub IsSourced : Environment → Option JwksKeyCache → Type 0
IsSourced env none = Unit
IsSourced env (some c) = Holds (λ k jwk. IsFetched env k.jwks_uri jwk) c.entries

At-append : {A : Type 0} (before after : List A) (a : A) → At a (before ++ a ∷ after)
At-append [] after a = here refl
At-append (b ∷ before) after a = there (At-append before after a)

pub IsChosen-At :
    (find : JwkSet → Text → Option Jwk) (jwks : JwkSet) (kid : Option Text) (a : Algorithm)
    (jwk : Jwk)
    → ((id : Text) → find jwks id ≡ some jwk → At jwk jwks.keys)
    → IsChosen find jwks kid a jwk
    → At jwk jwks.keys
IsChosen-At find jwks (some id) a jwk finds (found, fits) = finds id found
IsChosen-At find jwks none a jwk finds only = rw only.split (At-append only.before only.after jwk)

pub received-fetched :
    {A : Type 0} (I : Option JwksKeyCache → Type 0) (answer : Fetch A) (e e' e'' : Failure)
    → Keeps I (λ a. answer ≡ fetched a) (received answer e e' e'')
unfolding received
received-fetched I unsent e e' e'' s i = (i, tt)
received-fetched I error_status e e' e'' s i = (i, tt)
received-fetched I unparsable e e' e'' s i = (i, tt)
received-fetched I (fetched a) e e' e'' s i = (i, refl)

module _ (env : Environment) where
  -- A usable key of the address, if there is one.
  abbrev pub Usable : Text → Algorithm → Option Jwk → Type 0
  Usable uri a none = Unit
  Usable uri a (some jwk) = IsFetched env uri jwk × Fits jwk a

  get_or_init-IsSourced :
      (o : Option JwksKeyCache) → IsSourced env o → IsSourced env (some (get_or_init o))
  unfolding get_or_init KeyCache.new
  get_or_init-IsSourced none h = tt
  get_or_init-IsSourced (some c) h = h

  checked_key-Usable :
      (uri : Text) (k : JwksKeyCacheKey) (found : Option Jwk) (a : Algorithm)
      → k.jwks_uri ≡ uri
      → Returned (λ j jwk. IsFetched env j.jwks_uri jwk) k found
      → Keeps (IsSourced env) (Usable uri a) (checked_key found a)
  unfolding checked_key
  checked_key-Usable uri k none a at h s i = (i, tt)
  checked_key-Usable uri k (some jwk) a at h s i = elim (outcome (ensure_jwk_compatible jwk a)) [
    | returned u e ↦ rw (e, checked_key) (i, (rw (← at) h, (ensure_jwk_compatible_iff jwk a).0 e))
    | failed x e ↦ rw (e, checked_key) (i, tt)
    | panicked e ↦ rw (e, checked_key) (i, tt)
  ]

  read_cache-Usable :
      (uri : Text) (k : JwksKeyCacheKey) (a : Algorithm)
      → k.jwks_uri ≡ uri
      → Keeps (IsSourced env) (Usable uri a) (read_cache env k a)
  unfolding read_cache ask ◌>>=◌
  read_cache-Usable uri k a at s i =
      let (kept, found) =
        get-Holds (λ j jwk. IsFetched env j.jwks_uri jwk) k (env.now s.calls) (get_or_init s.cache)
          (get_or_init-IsSourced s.cache i) in
      checked_key-Usable uri k _ a at found _ kept

  pub cached_jwks_key-Usable :
      (uri : Text) (k : JwksKeyCacheKey) (a : Algorithm)
      → k.jwks_uri ≡ uri
      → Keeps (IsSourced env) (Usable uri a) (cached_jwks_key env k a)
  unfolding cached_jwks_key
  cached_jwks_key-Usable uri k a at s i =
      if_both
        (λ (r : Result AuthzooError (Option Jwk) × State).
          IsSourced env r.1.cache × Post (Usable uri a) r.0)
        s.poisoned (get_or_init-IsSourced s.cache i, tt) (read_cache-Usable uri k a at s i)

  pub cache_jwks_key-Keeps :
      (k : JwksKeyCacheKey) (jwk : Jwk)
      → IsFetched env k.jwks_uri jwk
      → Keeps (IsSourced env) (λ _. Unit {0}) (cache_jwks_key env k jwk)
  unfolding cache_jwks_key write_cache ask ◌>>=◌
  cache_jwks_key-Keeps k jwk source s i =
      if_both
        (λ (r : Result AuthzooError (Unit {0}) × State).
          IsSourced env r.1.cache × Post (λ _. Unit {0}) r.0)
        s.poisoned (get_or_init-IsSourced s.cache i, tt)
        (
          insert-Holds (λ j jwk. IsFetched env j.jwks_uri jwk) k jwk (env.now s.calls)
              (get_or_init s.cache) (get_or_init-IsSourced s.cache i) source,
          tt,
        )
