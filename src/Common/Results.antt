-- ===== src/Common/Results.antt =====
-- `Result` with `?`, and a panic as a third outcome.
use mathlib.Core.Path.{◌≡◌, refl}
use mathlib.Core.Bool.{Bool, true, false}
use mathlib.Core.Option.{Option, none, some}

pub data Result {ℓ κ} (E : Type ℓ) (A : Type κ) : Type (ℓ ⊔ κ) where
  ok : A → Result E A
  err : E → Result E A
  panic : Result E A

infixl 5 ◌>>=◌ ◌>>◌
abbrev pub ◌>>=◌ {ℓ κ μ} :
    {E : Type ℓ} {A : Type κ} {B : Type μ} → Result E A → (A → Result E B) → Result E B
ok a >>= f = f a
err e >>= f = err e
panic >>= f = panic

abbrev pub ◌>>◌ {ℓ κ} : {E : Type ℓ} {B : Type κ} → Result E (Unit {0}) → Result E B → Result E B
step >> rest = step >>= λ _. rest

-- An early return: `if !b { return Err(e) }`.
abbrev pub require {ℓ} : {E : Type ℓ} → Bool → E → Result E (Unit {0})
require true e = ok tt
require false e = err e

-- `Option::ok_or`.
abbrev pub ok_or {ℓ κ} : {E : Type ℓ} {A : Type κ} → Option A → E → Result E A
ok_or (some a) e = ok a
ok_or none e = err e

-- A chain that returned: its first step did, and then the rest.
pub >>=-eq-ok {ℓ κ μ} :
    {E : Type ℓ} {First : Type κ} {Last : Type μ} (step : Result E First)
    (rest : First → Result E Last) {last : Last}
    → (step >>= rest) ≡ ok last
    → (first : First) × (step ≡ ok first) × (rest first ≡ ok last)
>>=-eq-ok panic rest done = cc
>>=-eq-ok (err e) rest done = cc
>>=-eq-ok (ok first) rest done = (first, refl, done)

-- `Result::map_err`.
abbrev pub map_err {ℓ κ μ} :
    {E : Type ℓ} {F : Type κ} {A : Type μ} → (E → F) → Result E A → Result F A
map_err f (ok a) = ok a
map_err f (err e) = err (f e)
map_err f panic = panic

-- The code returns a value: it neither fails nor panics.
abbrev pub Succeeds {ℓ κ} : {E : Type ℓ} {A : Type κ} → Result E A → Type 0
Succeeds (ok a) = Unit
Succeeds (err e) = ⊥
Succeeds panic = ⊥

-- The code does not panic.
abbrev pub Returns {ℓ κ} : {E : Type ℓ} {A : Type κ} → Result E A → Type 0
Returns (ok a) = Unit
Returns (err e) = Unit
Returns panic = ⊥

-- To split on a computed result and keep the equation.
pub data Outcome {ℓ κ} {E : Type ℓ} {A : Type κ} (r : Result E A) : Type (ℓ ⊔ κ) where
  returned : (a : A) → r ≡ ok a → Outcome r
  failed : (e : E) → r ≡ err e → Outcome r
  panicked : r ≡ panic → Outcome r

pub outcome {ℓ κ} : {E : Type ℓ} {A : Type κ} (r : Result E A) → Outcome r
outcome (ok a) = returned a refl
outcome (err e) = failed e refl
outcome panic = panicked refl

pub require-eq {ℓ} : {E : Type ℓ} (b : Bool) (e : E) {u : Unit {0}} → require b e ≡ ok u → b ≡ true
require-eq true e h = refl
require-eq false e h = cc

pub ok_or-eq {ℓ κ} :
    {E : Type ℓ} {A : Type κ} (o : Option A) (e : E) {a : A} → ok_or o e ≡ ok a → o ≡ some a
ok_or-eq none e h = cc
ok_or-eq (some a) e h = cc

pub ok-first {ℓ κ μ} :
    {E : Type ℓ} {A : Type κ} {B : Type μ} {a c : A} {b d : B}
    → (◌≡◌ {A = Result E (A × B)} (ok (a, b)) (ok (c, d)))
    → a ≡ c
ok-first h = cc

pub ok-inj {ℓ κ} :
    {E : Type ℓ} {A : Type κ} {a b : A} → (◌≡◌ {A = Result E A} (ok a) (ok b)) → a ≡ b
ok-inj h = cc
