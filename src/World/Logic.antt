-- ===== src/World/Logic.antt =====
-- Two properties of stateful computations, with a rule for each way to build one: what a value that
-- is returned satisfies, and that nothing panics and the key cache stays sane.
use authzoo.Common.{
  ℕ, ◌≡◌, Bool, true, false, Option, none, some, Result, ok, err, panic, Returns, if◌then◌else◌,
}
use mathlib.Core.Path.{subst}
use authzoo.Config.{AuthzooError, Failure}
use authzoo.KeyCache.{JwksKeyCache}
use authzoo.KeyCache.Invariant.{IsValid}
use authzoo.World.{State, M, ◌>>=◌, pure, lift, wrap, expect, ask, >>=-eq-ok}

-- Whatever the computation returns satisfies `P`.
abbrev pub Ensures {ℓ κ} : {A : Type ℓ} → (A → Type κ) → M A → Type (ℓ ⊔ κ)
Ensures {A} P m = (s s' : State) (a : A) → m s ≡ (ok a, s') → P a

pub holds_of_ok {ℓ κ} :
    {A : Type ℓ} (P : A → Type κ) {a b : A} {s s' : State}
    → (◌≡◌ {A = Result AuthzooError A × State} (ok a, s) (ok b, s'))
    → P a
    → P b
holds_of_ok P h p = subst P (cc) p

pub Ensures->>= {ℓ κ μ ν} :
    {A : Type ℓ} {B : Type κ} (P : A → Type μ) (Q : B → Type ν) (m : M A) (f : A → M B)
    → Ensures P m
    → ((a : A) → P a → Ensures Q (f a))
    → Ensures Q (m >>= f)
Ensures->>= P Q m f hm hf s s' b h =
    let (a, t, e, e') = >>=-eq-ok m f s h in hf a (hm s t a e) t s' b e'

pub Ensures-ask {ℓ} :
    {A : Type ℓ} (answer : ℕ → A) → Ensures (λ a. (n : ℕ) × (answer n ≡ a)) (ask answer)
unfolding ask
Ensures-ask answer s s' a h = (s.calls, cc)

pub Ensures-lift {ℓ} : {A : Type ℓ} (r : Result AuthzooError A) → Ensures (λ a. r ≡ ok a) (lift r)
Ensures-lift r s s' a h = cc

pub Ensures-expect {ℓ} :
    {A : Type ℓ} (o : Option A) (e : Failure) → Ensures (λ a. o ≡ some a) (expect o e)
Ensures-expect none e s s' a h = cc
Ensures-expect (some b) e s s' a h = cc

-- The cache holds what it should, and no panic has poisoned its lock.
abbrev pub IsSaneCache : Option JwksKeyCache → Type 0
IsSaneCache none = Unit
IsSaneCache (some c) = IsValid c

abbrev pub IsSane : State → Type 0
IsSane s = IsSaneCache s.cache × (s.poisoned ≡ false)

-- Run in a sane state, the computation does not panic and leaves a sane state.
abbrev pub IsSafe {ℓ} : {A : Type ℓ} → M A → Type 0
IsSafe m = (s : State) → IsSane s → Returns (m s).0 × IsSane (m s).1

pub IsSafe-pure {ℓ} : {A : Type ℓ} (a : A) → IsSafe (pure a)
IsSafe-pure a s k = (tt, k)

pub IsSafe-lift {ℓ} : {A : Type ℓ} (r : Result AuthzooError A) → Returns r → IsSafe (lift r)
IsSafe-lift r h s k = (h, k)

pub IsSafe-expect {ℓ} : {A : Type ℓ} (o : Option A) (e : Failure) → IsSafe (expect o e)
IsSafe-expect none e s k = (tt, k)
IsSafe-expect (some a) e s k = (tt, k)

pub IsSafe-ask {ℓ} : {A : Type ℓ} (answer : ℕ → A) → IsSafe (ask answer)
unfolding ask
IsSafe-ask answer s k = (tt, k)

pub IsSafe-if {ℓ} :
    {A : Type ℓ} (b : Bool) (m n : M A) → IsSafe m → IsSafe n → IsSafe (if b then m else n)
IsSafe-if true m n h k = h
IsSafe-if false m n h k = k

pub wrap-Returns {ℓ} : {A : Type ℓ} (r : Result Failure A) → Returns r → Returns (wrap r)
wrap-Returns (ok a) h = tt
wrap-Returns (err e) h = tt
wrap-Returns panic h = h

-- A test that fails.
pub if_false {ℓ κ} :
    {A : Type ℓ} (P : A → Type κ) (b : Bool) (x y : A) → b ≡ false → P y → P (if b then x else y)
if_false P true x y h p = cc
if_false P false x y h p = p

pub wrap-eq-ok {ℓ} : {A : Type ℓ} (r : Result Failure A) {a : A} → wrap r ≡ ok a → r ≡ ok a
wrap-eq-ok (ok b) h = cc
wrap-eq-ok (err e) h = cc
wrap-eq-ok panic h = cc
