-- ===== src/KeyCache/Traces.antt =====
-- Sequences of reads and writes of `JwksKeyCache` (authzoo/src/discovery.rs).
use authzoo.Common.{
  ℕ, ◌≡◌, refl, ap, ◌∙◌, inl, inr, Bool-cases, Option-cases, Option, none, List, [], ◌∷◌, nat_beq,
}
use authzoo.Common.Maps.Hash
use authzoo.Jwt.{Jwk}
use authzoo.KeyCache.{
  JwksKeyCacheKey as Key, cache_key_eq, JwksKeyCache, new, is_expired, mark_used, forget, get,
  forget_all, evict_expired, evict_lru, put, insert,
}
use authzoo.KeyCache.Order.{collect}
use authzoo.KeyCache.Invariant.{IsValid, new-IsValid, insert-IsValid, get-IsValid}
use authzoo.KeyCache.Lru.{Lru, view, read, write, get-read}
use authzoo.KeyCache.Eviction.{view-insert}

-- A call of `get` or `insert`, with the time.
pub data Call : Type 0 where
  reading : Key → ℕ → Call
  writing : Key → Jwk → ℕ → Call

abbrev pub step : Call → JwksKeyCache → JwksKeyCache × Option Jwk
step (reading k now) c = get k now c
step (writing k jwk now) c = (insert k jwk now c, none)

-- The cache after the calls, and what they returned.
abbrev pub run : List Call → JwksKeyCache → JwksKeyCache
run [] c = c
run (call ∷ calls) c = run calls (step call c).0

abbrev pub answers : List Call → JwksKeyCache → List (Option Jwk)
answers [] c = []
answers (call ∷ calls) c = (step call c).1 ∷ answers calls (step call c).0

-- The same on the abstract list.
module _ (capacity ttl : ℕ) where
  abbrev pub step_lru : Call → Lru → Lru × Option Jwk
  step_lru (reading k now) l = read k now l
  step_lru (writing k jwk now) l = (write capacity ttl k jwk now l, none)

  abbrev pub run_lru : List Call → Lru → Lru
  run_lru [] l = l
  run_lru (call ∷ calls) l = run_lru calls (step_lru call l).0

  abbrev pub answers_lru : List Call → Lru → List (Option Jwk)
  answers_lru [] l = []
  answers_lru (call ∷ calls) l = (step_lru call l).1 ∷ answers_lru calls (step_lru call l).0

step-IsValid : (call : Call) (c : JwksKeyCache) → IsValid c → IsValid (step call c).0
step-IsValid (reading k now) c v = get-IsValid k now c v
step-IsValid (writing k jwk now) c v = insert-IsValid k jwk now c v

-- The settings of a cache, which no call changes.
pub record HasSettings (capacity ttl : ℕ) (c : JwksKeyCache) : Type 0 where
  pub capacity_kept : c.capacity ≡ capacity
  pub ttl_kept : c.ttl ≡ ttl

module _ (capacity ttl : ℕ) where
  forget_all-HasSettings :
      (ks : List Key) (c : JwksKeyCache)
      → HasSettings capacity ttl c
      → HasSettings capacity ttl (forget_all ks c)
  unfolding forget_all forget
  forget_all-HasSettings [] c h = h
  forget_all-HasSettings (k ∷ ks) c h =
      forget_all-HasSettings ks (forget k c)
        (record { capacity_kept = h.capacity_kept; ttl_kept = h.ttl_kept })

  insert-HasSettings :
      (k : Key) (jwk : Jwk) (now : ℕ) (c : JwksKeyCache)
      → HasSettings capacity ttl c
      → HasSettings capacity ttl (insert k jwk now c)
  unfolding insert put mark_used evict_lru evict_expired
  insert-HasSettings k jwk now c h = elim (Bool-cases (nat_beq c.capacity 0)) [
    | inl closed ↦ rw (closed, insert) h
    | inr opened ↦
        let kept =
          forget_all-HasSettings _ (put k jwk now c)
            (record { capacity_kept = h.capacity_kept; ttl_kept = h.ttl_kept }) in
        rw (opened, insert)
          (record { capacity_kept = kept.capacity_kept; ttl_kept = kept.ttl_kept })
  ]

  get-HasSettings :
      (k : Key) (now : ℕ) (c : JwksKeyCache)
      → HasSettings capacity ttl c
      → HasSettings capacity ttl (get k now c).0
  unfolding get forget mark_used
  get-HasSettings k now c h = elim (Option-cases (Hash.get k c.entries)) [
    | inl miss ↦ rw (miss, get) h
    | inr (entry, hit) ↦ elim (Bool-cases (is_expired entry now)) [
      | inl old ↦
          rw (hit, old, get) (record { capacity_kept = h.capacity_kept; ttl_kept = h.ttl_kept })
      | inr live ↦
          rw (hit, live, get) (record { capacity_kept = h.capacity_kept; ttl_kept = h.ttl_kept })
    ]
  ]

  step-HasSettings :
      (call : Call) (c : JwksKeyCache)
      → HasSettings capacity ttl c
      → HasSettings capacity ttl (step call c).0
  step-HasSettings (reading k now) c h = get-HasSettings k now c h
  step-HasSettings (writing k jwk now) c h = insert-HasSettings k jwk now c h

  -- One call of the cache is the call on its list.
  step-view :
      (call : Call) (c : JwksKeyCache)
      → IsValid c
      → HasSettings capacity ttl c
      → (view (step call c).0, (step call c).1) ≡ step_lru capacity ttl call (view c)
  step-view (reading k now) c v h = get-read k now c v
  step-view (writing k jwk now) c v h =
      ap (λ l. (l, none))
        (view-insert k jwk now c v
          ∙ ap (λ n. write n c.ttl k jwk now (view c)) h.capacity_kept
          ∙ ap (λ n. write capacity n k jwk now (view c)) h.ttl_kept)

-- A cache beside a list: valid, with these settings, and seen as the list.
pub record Refines (capacity ttl : ℕ) (c : JwksKeyCache) (l : Lru) : Type 0 where
  pub valid : IsValid c
  pub settings : HasSettings capacity ttl c
  pub seen : view c ≡ l

module _ (capacity ttl : ℕ) where
  step-Refines :
      (call : Call) (c : JwksKeyCache) (l : Lru)
      → Refines capacity ttl c l
      → Refines capacity ttl (step call c).0 (step_lru capacity ttl call l).0
        × ((step call c).1 ≡ (step_lru capacity ttl call l).1)
  step-Refines call c l r =
      let same =
        step-view capacity ttl call c r.valid r.settings ∙ ap (step_lru capacity ttl call) r.seen in
      (
        record {
          valid = step-IsValid call c r.valid;
          settings = step-HasSettings capacity ttl call c r.settings;
          seen = ap (λ p. p.0) same;
        },
        ap (λ p. p.1) same,
      )

  run-Refines :
      (calls : List Call) (c : JwksKeyCache) (l : Lru)
      → Refines capacity ttl c l
      → Refines capacity ttl (run calls c) (run_lru capacity ttl calls l)
        × (answers calls c ≡ answers_lru capacity ttl calls l)
  run-Refines [] c l r = (r, refl)
  run-Refines (call ∷ calls) c l r =
      let (kept, same) = step-Refines call c l r in
      let (end, rest) = run-Refines calls (step call c).0 (step_lru capacity ttl call l).0 kept in
      (end, rw (same, rest) refl)

  -- A new cache and an empty list answer every sequence of reads and writes alike, and stay alike:
  -- after it, the cache is valid, with its settings kept, no more entries than its capacity, and seen
  -- as the list.
  pub run-new-Refines :
      (calls : List Call)
      → Refines capacity ttl (run calls (new capacity ttl)) (run_lru capacity ttl calls [])
        × (answers calls (new capacity ttl) ≡ answers_lru capacity ttl calls [])
  unfolding new collect
  run-new-Refines calls = run-Refines calls (new capacity ttl) [] (record {
    valid = new-IsValid capacity ttl;
    settings = record { capacity_kept = refl; ttl_kept = refl };
    seen = refl;
  })
