-- ===== src/Threads/Rules.antt =====
-- The rules for the threads of authzoo/src/validator.rs: what they make sure of, among other threads
-- that keep the same invariant, and that they do not panic.
use mathlib.Core.Path.{subst}
use authzoo.Common.{◌≡◌, Bool, Option, Returns, if◌then◌else◌}
use authzoo.KeyCache.{JwksKeyCache}
use authzoo.World.{State, M}
use authzoo.World.Logic.{IsSafe, IsSane}
use authzoo.World.Triples.{Post, Post-map, Keeps}
use authzoo.Tasks.{◌>>=◌, atomic, alone}
use authzoo.Tasks.Rules.{
  Respects, Respects->>=, Respects-atomic, Respects-if, Respects-map, Respects-alone,
}
use authzoo.Threads.{Thread}

module _ (I : Option JwksKeyCache → Type 0) where
  -- Each step keeps the invariant of the cache, and a value that the thread returns satisfies `Q`.
  abbrev pub Makes : {A : Type 0} → (A → Type 0) → Thread A → Type 0
  Makes Q t = Respects (λ s. I s.cache) (Post Q) t

  pub Makes->>= :
      {A B : Type 0} (Q : A → Type 0) (R : B → Type 0) (t : Thread A) (f : A → Thread B)
      → Makes Q t
      → ((a : A) → Q a → Makes R (f a))
      → Makes R (t >>= f)
  Makes->>= Q R t f h k =
      Respects->>= (λ s. I s.cache) (Post Q) (Post R) t f h k (λ e _. tt) (λ _. tt)

  pub Makes-atomic : {A : Type 0} (Q : A → Type 0) (m : M A) → Keeps I Q m → Makes Q (atomic m)
  Makes-atomic Q m h = Respects-atomic (λ s. I s.cache) (Post Q) m h

  pub Makes-if :
      {A : Type 0} (Q : A → Type 0) (b : Bool) (t u : Thread A)
      → Makes Q t
      → Makes Q u
      → Makes Q (if b then t else u)
  Makes-if Q b t u h k = Respects-if (λ s. I s.cache) (Post Q) b t u h k

  pub Makes-map :
      {A : Type 0} (Q R : A → Type 0) (t : Thread A) → ((a : A) → Q a → R a) → Makes Q t → Makes R t
  Makes-map Q R t f h =
      Respects-map (λ s. I s.cache) (Post Q) (Post R) t (λ r q. Post-map Q R r f q) h

  pub Makes-Keeps :
      {A : Type 0} (Q : A → Type 0) (t : Thread A) (m : M A)
      → ((s : State) → alone t s ≡ m s)
      → Makes Q t
      → Keeps I Q m
  Makes-Keeps Q t m runs h s i =
      subst (λ r. I r.1.cache × Post Q r.0) (runs s)
        (Respects-alone (λ s. I s.cache) (Post Q) t h s i)

-- Each step keeps a sane state, and the thread does not panic.
abbrev pub IsSafeThread : {A : Type 0} → Thread A → Type 0
IsSafeThread t = Respects IsSane Returns t

pub IsSafeThread->>= :
    {A B : Type 0} (t : Thread A) (f : A → Thread B)
    → IsSafeThread t
    → ((a : A) → IsSafeThread (f a))
    → IsSafeThread (t >>= f)
IsSafeThread->>= t f h k =
    Respects->>= IsSane Returns Returns t f h (λ a _. k a) (λ e _. tt) (λ p. p)

pub IsSafeThread-atomic : {A : Type 0} (m : M A) → IsSafe m → IsSafeThread (atomic m)
IsSafeThread-atomic m h = Respects-atomic IsSane Returns m λ s i. ((h s i).1, (h s i).0)

pub IsSafeThread-if :
    {A : Type 0} (b : Bool) (t u : Thread A)
    → IsSafeThread t
    → IsSafeThread u
    → IsSafeThread (if b then t else u)
IsSafeThread-if b t u h k = Respects-if IsSane Returns b t u h k

pub IsSafeThread-IsSafe :
    {A : Type 0} (t : Thread A) (m : M A)
    → ((s : State) → alone t s ≡ m s)
    → IsSafeThread t
    → IsSafe m
IsSafeThread-IsSafe t m runs h s i =
    subst (λ r. Returns r.0 × IsSane r.1) (runs s)
      (let (kept, returned) = Respects-alone IsSane Returns t h s i in (returned, kept))
