-- ===== src/Tasks.antt =====
-- Threads that share a state: a task is what one thread still has to do, a step at a time. A step is
-- what no other thread can come into: a section under a lock, or a call to the outside. Between its
-- steps a thread touches nothing that is shared.
pub mod Rules
use authzoo.Common.{ℕ, zero, suc, ◌≡◌, refl, ap, ◌∙◌, List, [], ◌∷◌, Result, ok, err, panic}

-- `step` has what the step does to the state, and what is left to do, by the state at the step.
pub data Task (S E A : Type 0) : Type 0 where
  done : Result E A → Task S E A
  step : (S → S) → (S → Task S E A) → Task S E A

module _ {S E : Type 0} where
  infixl 5 ◌>>=◌ ◌>>◌
  unfoldable pub ◌>>=◌ : {A B : Type 0} → Task S E A → (A → Task S E B) → Task S E B
  done (ok a) >>= f = f a
  done (err e) >>= f = done (err e)
  done panic >>= f = done panic
  step write rest >>= f = step write (λ s. rest s >>= f)

  abbrev pub ◌>>◌ : {B : Type 0} → Task S E (Unit {0}) → Task S E B → Task S E B
  first >> rest = first >>= λ _. rest

  -- A computation that is one step.
  unfoldable pub atomic : {A : Type 0} → (S → Result E A × S) → Task S E A
  atomic m = step (λ s. (m s).1) (λ s. done ((m s).0))

  -- What a thread does that has the state to itself.
  unfoldable pub alone : {A : Type 0} → Task S E A → S → Result E A × S
  alone (done r) s = (r, s)
  alone (step write rest) s = alone (rest s) (write s)

  module _ {A : Type 0} where
    -- The next step of one thread, by its number. A thread that has ended takes none.
    unfoldable pub step_of : ℕ → List (Task S E A) → S → List (Task S E A) × S
    step_of n [] s = ([], s)
    step_of zero (done r ∷ threads) s = (done r ∷ threads, s)
    step_of zero (step write rest ∷ threads) s = (rest s ∷ threads, write s)
    step_of (suc n) (thread ∷ threads) s =
        let after = step_of n threads s in (thread ∷ after.0, after.1)

    -- A schedule is the number of the thread that takes each step.
    unfoldable pub interleave : List ℕ → List (Task S E A) → S → List (Task S E A) × S
    interleave [] threads s = (threads, s)
    interleave (n ∷ schedule) threads s =
        let after = step_of n threads s in interleave schedule after.0 after.1

-- A thread for each request, which serves it.
unfoldable pub pool :
    {S E Request A : Type 0} → (Request → Task S E A) → List Request → List (Task S E A)
pool serve [] = []
pool serve (q ∷ requests) = serve q ∷ pool serve requests

-- What each thread that has ended returned, by the request that it serves.
module _ {S E Request A : Type 0} (Q : Request → Result E A → Type 0) where
  abbrev pub EndWell : List Request → List (Task S E A) → Type 0
  EndWell [] threads = Unit
  EndWell (q ∷ requests) [] = Unit
  EndWell (q ∷ requests) (done r ∷ threads) = Q q r × EndWell requests threads
  EndWell (q ∷ requests) (step write rest ∷ threads) = EndWell requests threads
