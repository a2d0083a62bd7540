-- ===== src/World.antt =====
-- What authzoo/src/discovery.rs and authzoo/src/validator.rs do to the world around them: the global
-- key cache and the outside. A computation passes the state on, also when it fails. The outside is a
-- parameter: the answers of the clock, the files and the HTTP servers, by the number of the call.
pub mod Logic
pub mod Triples
use authzoo.Common.{
  ℕ, suc, Bool, true, false, Option, none, some, List, Text, Result, ok, err, panic, ◌≡◌, refl,
}
use authzoo.Jwt.{JwkSet}
use authzoo.Config.{AuthzooError, Failure, other}
use authzoo.KeyCache.{JwksKeyCache}

-- The settings of a `ClientBuilder` that the code sets.
pub record Client : Type 0 where
  pub root_certificate : Option Text
  pub authorization : Option Text

-- `send`, `error_for_status` and `json`.
pub data Fetch (A : Type 0) : Type 0 where
  unsent error_status unparsable : Fetch A
  fetched : A → Fetch A

pub record Environment : Type 0 where
  pub now : ℕ → ℕ
  pub read_ca_certificate : ℕ → Option Text
  pub read_service_account_token : ℕ → Option Text
  pub is_certificate : Text → Bool
  pub is_header_value : Text → Bool
  pub can_build : Client → Bool
  -- The `jwks_uri` of an OpenID configuration.
  pub get_openid_configuration : ℕ → Client → Text → Fetch Text
  pub get_jwks : ℕ → Client → Text → Fetch JwkSet

-- `JWKS_KEY_CACHE`, whether a panic has poisoned its mutex, and the number of calls made.
pub record State : Type 0 where
  pub cache : Option JwksKeyCache
  pub poisoned : Bool
  pub calls : ℕ

abbrev pub M {ℓ} : Type ℓ → Type ℓ
M A = State → Result AuthzooError A × State

abbrev pub bind {ℓ κ} :
    {A : Type ℓ} {B : Type κ}
    → Result AuthzooError A × State
    → (A → M B)
    → Result AuthzooError B × State
bind (ok a, s) f = f a s
bind (err e, s) f = (err e, s)
bind (panic, s) f = (panic, s)

infixl 5 ◌>>=◌ ◌>>◌
unfoldable pub ◌>>=◌ {ℓ κ} : {A : Type ℓ} {B : Type κ} → M A → (A → M B) → M B
◌>>=◌ m f s = bind (m s) f

abbrev pub ◌>>◌ {ℓ} : {Last : Type ℓ} → M (Unit {0}) → M Last → M Last
step >> rest = step >>= λ _. rest

abbrev pub pure {ℓ} : {A : Type ℓ} → A → M A
pure a s = (ok a, s)

abbrev pub fail {ℓ} : {A : Type ℓ} → AuthzooError → M A
fail e s = (err e, s)

-- `?` on a result that needs no state.
abbrev pub lift {ℓ} : {A : Type ℓ} → Result AuthzooError A → M A
lift r s = (r, s)

-- `?` on an `anyhow` result.
abbrev pub wrap {ℓ} : {A : Type ℓ} → Result Failure A → Result AuthzooError A
wrap (ok a) = ok a
wrap (err e) = err (other e)
wrap panic = panic

-- `.context(…)?` on an option of a value.
abbrev pub expect {ℓ} : {A : Type ℓ} → Option A → Failure → M A
expect (some a) e = pure a
expect none e = fail (other e)

-- A call to the outside.
unfoldable pub ask {ℓ} : {A : Type ℓ} → (ℕ → A) → M A
ask answer s = (ok (answer s.calls), record s { calls = suc s.calls })

-- The rest of a computation that returned.
pub >>=-eq-ok {ℓ κ} :
    {A : Type ℓ} {B : Type κ} (m : M A) (f : A → M B) (s : State) {b : B} {s' : State}
    → (m >>= f) s ≡ (ok b, s')
    → (a : A) × (t : State) × (m s ≡ (ok a, t)) × (f a t ≡ (ok b, s'))
unfolding ◌>>=◌
>>=-eq-ok {A} {B} m f s {b} {s'} h = of_result (m s) h
  where
    of_result :
        (r : Result AuthzooError A × State)
        → bind r f ≡ (ok b, s')
        → (a : A) × (t : State) × (r ≡ (ok a, t)) × (f a t ≡ (ok b, s'))
    of_result (ok a, t) e = (a, t, refl, e)
    of_result (err x, t) e = cc
    of_result (panic, t) e = cc
