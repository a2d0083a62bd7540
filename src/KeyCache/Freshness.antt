-- ===== src/KeyCache/Freshness.antt =====
-- What a read of `JwksKeyCache` (authzoo/src/discovery.rs) can return after any calls.
use authzoo.Common.{
  ℕ, zero, suc, ◌+◌, ◌<◌, ◌≡◌, refl, sym, ap, ◌∙◌, inl, inr, Bool, Bool-cases, Option-cases, Option,
  some, List, [], ◌∷◌, ◌++◌, keep, All, At, here, there, nat_beq, ◌==◌, arith,
}
use mathlib.Core.Path.{subst}
use authzoo.Common.Maps.Hash
use authzoo.Jwt.{Jwk}
use authzoo.KeyCache.{JwksKeyCacheKey as Key, cache_key_eq, CachedJwksKey, new, is_expired, get}
use authzoo.KeyCache.Order.{drop}
use authzoo.KeyCache.Lru.{Lru, read, write, live, get-read}
use authzoo.KeyCache.Traces.{Call, reading, writing, run, step_lru, run_lru, run-new-Refines}

-- An entry that a call among these wrote.
pub record Written (ttl : ℕ) (calls : List Call) (entry : Key × CachedJwksKey) : Type 0 where
  pub time : ℕ
  pub call : At (writing entry.0 entry.1.jwk time) calls
  pub lasts : entry.1.expires_at ≡ time + ttl

module _ {A : Type 0} (P : A → Type 0) where
  keep-All : (p : A → Bool) (xs : List A) → All P xs → All P (keep p xs)
  keep-All p [] h = tt
  keep-All p (x ∷ xs) (h, t) = elim (Bool-cases (p x)) [
    | inl stays ↦ rw stays (h, keep-All p xs t)
    | inr goes ↦ rw goes (keep-All p xs t)
  ]

  drop-All : (n : ℕ) (xs : List A) → All P xs → All P (drop n xs)
  drop-All zero xs h = h
  drop-All (suc n) [] h = tt
  drop-All (suc n) (x ∷ xs) (h, t) = drop-All n xs t

  concat-All : (xs : List A) (x : A) → All P xs → P x → All P (xs ++ x ∷ [])
  concat-All [] x h p = (p, tt)
  concat-All (y ∷ xs) x (h, t) p = (h, concat-All xs x t p)

module _ (P : Key × CachedJwksKey → Type 0) where
  pub remove-All : (k : Key) (l : Lru) → All P l → All P (Hash.remove k l)
  unfolding Hash.remove
  remove-All k [] h = tt
  remove-All k ((j, entry) ∷ l) (h, t) = elim (Bool-cases (j == k)) [
    | inl same ↦ rw same (remove-All k l t)
    | inr other ↦ rw other (h, remove-All k l t)
  ]

  pub get-All :
      (k : Key) (l : Lru) (entry : CachedJwksKey)
      → All P l
      → Hash.get k l ≡ some entry
      → P (k, entry)
  unfolding Hash.get
  get-All k [] entry h found = cc
  get-All k ((j, other) ∷ l) entry (h, t) found = elim (Bool-cases (j == k)) [
    | inl same ↦
        let e : j ≡ k = (cache_key_eq.eqb_iff j k).0 same in
        let f : ◌≡◌ {A = Option CachedJwksKey} (some other) (some entry) = rw same at found in
        let pair : (j, other) ≡ (k, entry) = cc in subst P pair h
    | inr differs ↦ get-All k l entry t (rw differs at found)
  ]

  read-All : (k : Key) (now : ℕ) (l : Lru) → All P l → All P (read k now l).0
  read-All k now l h = elim (Option-cases (Hash.get k l)) [
    | inl miss ↦ rw (miss, read) h
    | inr (entry, hit) ↦ elim (Bool-cases (is_expired entry now)) [
      | inl old ↦ rw (hit, old, read) (remove-All k l h)
      | inr fresh ↦
          rw (hit, fresh, read)
            (concat-All P (Hash.remove k l) (k, entry) (remove-All k l h) (get-All k l entry h hit))
    ]
  ]

  write-All :
      (capacity ttl : ℕ) (k : Key) (jwk : Jwk) (now : ℕ) (l : Lru)
      → All P l
      → P (k, record { jwk = jwk; expires_at = now + ttl })
      → All P (write capacity ttl k jwk now l)
  write-All capacity ttl k jwk now l h p = elim (Bool-cases (nat_beq capacity 0)) [
    | inl closed ↦ rw (closed, write) h
    | inr opened ↦
        rw (opened, write)
          (drop-All P _ _ (keep-All P _ _ (concat-All P (Hash.remove k l) _ (remove-All k l h) p)))
  ]

module _ (capacity ttl : ℕ) (all : List Call) where
  step_lru-Written :
      (call : Call) (l : Lru)
      → At call all
      → All (Written ttl all) l
      → All (Written ttl all) (step_lru capacity ttl call l).0
  step_lru-Written (reading k now) l at h = read-All (Written ttl all) k now l h
  step_lru-Written (writing k jwk now) l at h =
      write-All (Written ttl all) capacity ttl k jwk now l h
        (record { time = now; call = at; lasts = refl })

  run_lru-Written :
      (calls : List Call) (l : Lru)
      → ((call : Call) → At call calls → At call all)
      → All (Written ttl all) l
      → All (Written ttl all) (run_lru capacity ttl calls l)
  run_lru-Written [] l sub h = h
  run_lru-Written (call ∷ calls) l sub h =
      run_lru-Written calls _ (λ c at. sub c (there at))
        (step_lru-Written call l (sub call (here refl)) h)

-- A read of the list returns a live entry of the key.
read-live :
    (k : Key) (now : ℕ) (l : Lru) (jwk : Jwk)
    → (read k now l).1 ≡ some jwk
    → (entry : CachedJwksKey) × (Hash.get k l ≡ some entry)
      × (entry.jwk ≡ jwk)
      × (now < entry.expires_at)
read-live k now l jwk h = elim (Option-cases (Hash.get k l)) [
  | inl miss ↦ cc (rw (miss, read) at h)
  | inr (entry, hit) ↦ elim (Bool-cases (is_expired entry now)) [
    | inl old ↦ cc (rw (hit, old, read) at h)
    | inr fresh ↦ (entry, hit, some-inj (rw (hit, fresh, read) at h), ground arith)
  ]
]
  where
    some-inj : {a b : Jwk} → (◌≡◌ {A = Option Jwk} (some a) (some b)) → a ≡ b
    some-inj e = cc

-- The cache never returns a stale key or that of another request: what `get` returns after any
-- calls was written for the same cache key by one of them, less than the time to live before.
pub get-Written :
    (capacity ttl : ℕ) (calls : List Call) (k : Key) (now : ℕ) (jwk : Jwk)
    → (get k now (run calls (new capacity ttl))).1 ≡ some jwk
    → (time : ℕ) × At (writing k jwk time) calls × (now < time + ttl)
get-Written capacity ttl calls k now jwk h =
    let (r, _) = run-new-Refines capacity ttl calls in
    let c = run calls (new capacity ttl) in
    let l = run_lru capacity ttl calls [] in
    let same : (get k now c).1 ≡ (read k now l).1 =
      ap (λ p. p.1) (get-read k now c r.valid) ∙ ap (λ v. (read k now v).1) r.seen in
    let (entry, held, is, live) = read-live k now l jwk (sym same ∙ h) in
    let w =
      get-All (Written ttl calls) k l entry
        (run_lru-Written capacity ttl calls calls [] (λ call at. at) tt) held in
    (w.time, subst (λ j. At (writing k j w.time) calls) is w.call, omega (arith, live, w.lasts))
