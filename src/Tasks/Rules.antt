-- ===== src/Tasks/Rules.antt =====
-- What holds of threads whatever the order of their steps: an invariant of the state that each step
-- keeps, and what each result satisfies.
use authzoo.Common.{
  ℕ, zero, suc, List, [], ◌∷◌, Bool, true, false, Result, ok, err, panic, if◌then◌else◌,
}
use authzoo.Tasks.{Task, done, step, ◌>>=◌, atomic, alone, step_of, interleave, EndWell, pool}

-- No panic, and a value that satisfies `P`.
abbrev pub Yields : {E A : Type 0} → (A → Type 0) → Result E A → Type 0
Yields P (ok a) = P a
Yields P (err e) = Unit
Yields P panic = ⊥

module _ {S E : Type 0} (I : S → Type 0) where
  -- From every state that satisfies the invariant, also one that other threads have made, each step
  -- of the task leads to one that does, and a result satisfies the second predicate.
  abbrev pub Respects : {A : Type 0} → (Result E A → Type 0) → Task S E A → Type 0
  Respects Q (done r) = Q r
  Respects Q (step write rest) = (s : S) → I s → I (write s) × Respects Q (rest s)

  pub Respects->>= :
      {A B : Type 0} (Q : Result E A → Type 0) (R : Result E B → Type 0) (t : Task S E A)
      (f : A → Task S E B)
      → Respects Q t
      → ((a : A) → Q (ok a) → Respects R (f a))
      → ((e : E) → Q (err e) → R (err e))
      → (Q panic → R panic)
      → Respects R (t >>= f)
  unfolding ◌>>=◌
  Respects->>= Q R (done (ok a)) f h on_ok on_err on_panic = on_ok a h
  Respects->>= Q R (done (err e)) f h on_ok on_err on_panic = on_err e h
  Respects->>= Q R (done panic) f h on_ok on_err on_panic = on_panic h
  Respects->>= Q R (step write rest) f h on_ok on_err on_panic =
      λ s i. ((h s i).0, Respects->>= Q R (rest s) f (h s i).1 on_ok on_err on_panic)

  pub Respects-atomic :
      {A : Type 0} (Q : Result E A → Type 0) (m : S → Result E A × S)
      → ((s : S) → I s → I (m s).1 × Q (m s).0)
      → Respects Q (atomic m)
  unfolding atomic
  Respects-atomic Q m h = h

  pub Respects-if :
      {A : Type 0} (Q : Result E A → Type 0) (b : Bool) (t u : Task S E A)
      → Respects Q t
      → Respects Q u
      → Respects Q (if b then t else u)
  Respects-if Q true t u h k = h
  Respects-if Q false t u h k = k

  pub Respects-map :
      {A : Type 0} (Q R : Result E A → Type 0) (t : Task S E A)
      → ((r : Result E A) → Q r → R r)
      → Respects Q t
      → Respects R t
  Respects-map Q R (done r) f h = f r h
  Respects-map Q R (step write rest) f h = λ s i. ((h s i).0, Respects-map Q R (rest s) f (h s i).1)

  pub Respects-alone :
      {A : Type 0} (Q : Result E A → Type 0) (t : Task S E A)
      → Respects Q t
      → (s : S) → I s
      → I (alone t s).1 × Q (alone t s).0
  unfolding alone
  Respects-alone Q (done r) h s i = (i, h)
  Respects-alone Q (step write rest) h s i = Respects-alone Q (rest s) (h s i).1 _ (h s i).0

  -- Each thread serves a request.
  module _ {Request A : Type 0} (Q : Request → Result E A → Type 0) where
    abbrev AllRespect : List Request → List (Task S E A) → Type 0
    AllRespect [] [] = Unit
    AllRespect [] (t ∷ threads) = ⊥
    AllRespect (q ∷ requests) [] = ⊥
    AllRespect (q ∷ requests) (t ∷ threads) = Respects (Q q) t × AllRespect requests threads

    step_of-AllRespect :
        (n : ℕ) (requests : List Request) (threads : List (Task S E A)) (s : S)
        → I s
        → AllRespect requests threads
        → I (step_of n threads s).1 × AllRespect requests (step_of n threads s).0
    unfolding step_of
    step_of-AllRespect n [] [] s i h = (i, tt)
    step_of-AllRespect n [] (t ∷ threads) s i h = absurd h
    step_of-AllRespect n (q ∷ requests) [] s i h = absurd h
    step_of-AllRespect zero (q ∷ requests) (done r ∷ threads) s i h = (i, h)
    step_of-AllRespect zero (q ∷ requests) (step write rest ∷ threads) s i (h, k) =
        ((h s i).0, ((h s i).1, k))
    step_of-AllRespect (suc n) (q ∷ requests) (t ∷ threads) s i (h, k) =
        let (j, l) = step_of-AllRespect n requests threads s i k in (j, (h, l))

    interleave-AllRespect :
        (schedule : List ℕ) (requests : List Request) (threads : List (Task S E A)) (s : S)
        → I s
        → AllRespect requests threads
        → I (interleave schedule threads s).1
          × AllRespect requests (interleave schedule threads s).0
    unfolding interleave
    interleave-AllRespect [] requests threads s i h = (i, h)
    interleave-AllRespect (n ∷ schedule) requests threads s i h =
        let (j, k) = step_of-AllRespect n requests threads s i h in
        interleave-AllRespect schedule requests _ _ j k

    AllRespect-EndWell :
        (requests : List Request) (threads : List (Task S E A))
        → AllRespect requests threads
        → EndWell Q requests threads
    AllRespect-EndWell [] threads h = tt
    AllRespect-EndWell (q ∷ requests) [] h = tt
    AllRespect-EndWell (q ∷ requests) (done r ∷ threads) (h, k) =
        (h, AllRespect-EndWell requests threads k)
    AllRespect-EndWell (q ∷ requests) (step write rest ∷ threads) (h, k) =
        AllRespect-EndWell requests threads k

    pool-AllRespect :
        (serve : Request → Task S E A) (requests : List Request)
        → ((q : Request) → Respects (Q q) (serve q))
        → AllRespect requests (pool serve requests)
    unfolding pool
    pool-AllRespect serve [] h = tt
    pool-AllRespect serve (q ∷ requests) h = (h q, pool-AllRespect serve requests h)

    -- If each thread keeps the invariant by itself, then whatever the order of the steps, the
    -- invariant holds after them, and every thread that has ended has a result as it should be.
    pub interleave-EndWell :
        (serve : Request → Task S E A) (schedule : List ℕ) (requests : List Request) (s : S)
        → ((q : Request) → Respects (Q q) (serve q))
        → I s
        → I (interleave schedule (pool serve requests) s).1
          × EndWell Q requests (interleave schedule (pool serve requests) s).0
    interleave-EndWell serve schedule requests s h i =
        let (kept, all) =
          interleave-AllRespect schedule requests (pool serve requests) s i
            (pool-AllRespect serve requests h) in
        (kept, AllRespect-EndWell requests _ all)
