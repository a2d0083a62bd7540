-- ===== src/World/Triples.antt =====
-- What a stateful computation keeps of the state, however it ends, and makes sure of when it returns.
use authzoo.Common.{
  ℕ, ◌≡◌, refl, Bool, true, false, Option, none, some, Result, ok, err, panic, if◌then◌else◌,
}
use authzoo.Config.{AuthzooError, Failure}
use authzoo.KeyCache.{JwksKeyCache}
use authzoo.World.{State, M, lift, expect, ask}

abbrev pub Post {ℓ κ} : {A : Type ℓ} → (A → Type κ) → Result AuthzooError A → Type κ
Post Q (ok a) = Q a
Post Q (err e) = Unit
Post Q panic = Unit

-- An invariant of the cache, and what a returned value satisfies.
abbrev pub Keeps {ℓ κ μ} :
    {A : Type ℓ} → (Option JwksKeyCache → Type κ) → (A → Type μ) → M A → Type (κ ⊔ μ)
Keeps I Q m = (s : State) → I s.cache → I (m s).1.cache × Post Q (m s).0

module _ {κ} (I : Option JwksKeyCache → Type κ) where
  pub Keeps-lift {ℓ} : {A : Type ℓ} (r : Result AuthzooError A) → Keeps I (λ a. r ≡ ok a) (lift r)
  Keeps-lift (ok a) s i = (i, refl)
  Keeps-lift (err e) s i = (i, tt)
  Keeps-lift panic s i = (i, tt)

  pub Keeps-expect {ℓ} :
      {A : Type ℓ} (o : Option A) (e : Failure) → Keeps I (λ a. o ≡ some a) (expect o e)
  Keeps-expect none e s i = (i, tt)
  Keeps-expect (some a) e s i = (i, refl)

  pub Keeps-ask {ℓ} :
      {A : Type ℓ} (answer : ℕ → A) → Keeps I (λ a. (n : ℕ) × (answer n ≡ a)) (ask answer)
  unfolding ask
  Keeps-ask answer s i = (i, (s.calls, refl))

  pub Keeps-if {ℓ μ} :
      {A : Type ℓ} (Q : A → Type μ) (b : Bool) (m n : M A)
      → Keeps I Q m
      → Keeps I Q n
      → Keeps I Q (if b then m else n)
  Keeps-if Q true m n h k = h
  Keeps-if Q false m n h k = k

-- Both branches of a test.
pub if_both {ℓ κ} :
    {A : Type ℓ} (P : A → Type κ) (b : Bool) {x y : A} → P x → P y → P (if b then x else y)
if_both P true p q = p
if_both P false p q = q

pub Post-map {ℓ κ μ} :
    {A : Type ℓ} (Q : A → Type κ) (R : A → Type μ) (r : Result AuthzooError A)
    → ((a : A) → Q a → R a)
    → Post Q r
    → Post R r
Post-map Q R (ok a) f q = f a q
Post-map Q R (err e) f q = tt
Post-map Q R panic f q = tt

pub Keeps-map {ℓ κ μ ν} :
    {A : Type ℓ} (I : Option JwksKeyCache → Type κ) (Q : A → Type μ) (R : A → Type ν) (m : M A)
    → ((a : A) → Q a → R a)
    → Keeps I Q m
    → Keeps I R m
Keeps-map I Q R m f h s i = ((h s i).0, Post-map Q R (m s).0 f (h s i).1)
