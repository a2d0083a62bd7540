-- ===== src/Jwt.antt =====
-- What authzoo/src uses of the crates jsonwebtoken and serde_json. The enums have the variants
-- that the code names; `unhandled`, `other` and `use_other` stand for the rest, which it meets with
-- `_`. The functions are the fields of `Jwt`, a parameter of the model: `V` is serde_json's
-- `Value`, `K` is `DecodingKey`. A function that reads the clock takes the number of the call.
use authzoo.Common.{ℕ, Bool, Option, List, Text, Eq, Result, ◌≡◌, ◌↔◌, refl, true, false}
use authzoo.Common.Maps.Tree.{BTreeMap}
use native.Mathlib.Decide.{ℕ_discrete}

pub data Algorithm : Type 0 where
  hs256 hs384 hs512 rs256 rs384 rs512 ps256 ps384 ps512 es256 es384 ed_dsa : Algorithm
  unhandled : ℕ → Algorithm

pub data KeyAlgorithm : Type 0 where
  hs256 hs384 hs512 rs256 rs384 rs512 ps256 ps384 ps512 es256 es384 ed_dsa : KeyAlgorithm
  other : ℕ → KeyAlgorithm

unfoldable pub Algorithm-discrete : Discrete Algorithm
Algorithm-discrete = hlevel ℕ_discrete

unfoldable pub KeyAlgorithm-discrete : Discrete KeyAlgorithm
KeyAlgorithm-discrete = hlevel ℕ_discrete

abbrev pub decided {ℓ} : {A : Type ℓ} → Dec A → Bool
decided (yes p) = true
decided (no p) = false

pub decided_iff {ℓ} :
    {A : Type ℓ} (dec : Discrete A) (a b : A) → (decided (dec a b) ≡ true) ↔ (a ≡ b)
decided_iff dec a b = elim (dec a b) as (λ d. (decided d ≡ true) ↔ (a ≡ b)) [
  | yes p ↦ (λ _. p, λ _. refl)
  | no p ↦ (λ h. cc, λ e. absurd (p e))
]

instance abbrev pub algorithm_eq : Eq Algorithm
algorithm_eq = record {
  eqb = λ a b. decided (Algorithm-discrete a b);
  eqb_iff = decided_iff Algorithm-discrete;
}

instance abbrev pub key_algorithm_eq : Eq KeyAlgorithm
key_algorithm_eq = record {
  eqb = λ a b. decided (KeyAlgorithm-discrete a b);
  eqb_iff = decided_iff KeyAlgorithm-discrete;
}

pub data PublicKeyUse : Type 0 where
  signature : PublicKeyUse
  use_other : Text → PublicKeyUse

-- Each with the parameters of its key, as a text.
pub data AlgorithmParameters : Type 0 where
  octet_key rsa elliptic_curve octet_key_pair : Text → AlgorithmParameters

pub record CommonParameters : Type 0 where
  pub public_key_use : Option PublicKeyUse
  pub key_algorithm : Option KeyAlgorithm
  pub key_id : Option Text

pub record Jwk : Type 0 where
  pub common : CommonParameters
  pub algorithm : AlgorithmParameters

pub record JwkSet : Type 0 where
  pub keys : List Jwk

pub record Header : Type 0 where
  pub alg : Algorithm
  pub kid : Option Text

-- `Validation::new(algorithm)` with `set_audience` and `set_issuer` for one name each.
pub record Validation : Type 0 where
  pub algorithm : Algorithm
  pub audience : Text
  pub issuer : Text

-- `ValidatedClaims` of authzoo/src/claims.rs: the subject, and every other claim.
pub record ValidatedClaims (V : Type 0) : Type 0 where
  pub sub : Text
  pub claims : BTreeMap V

-- The accessors of `serde_json::Value`.
pub record Json (V : Type 0) : Type 0 where
  pub as_str : V → Option Text
  pub as_array : V → Option (List V)

pub record Jwt (V K : Type 0) : Type 0 where
  pub decode_header : Text → Option Header
  pub decode : ℕ → Text → K → Validation → Result Text (ValidatedClaims V)
  pub from_secret : Text → K
  pub from_rsa_pem : Text → Option K
  pub from_ec_pem : Text → Option K
  pub from_ed_pem : Text → Option K
  pub from_jwk : Jwk → Option K
  pub find : JwkSet → Text → Option Jwk
  -- `{:?}` of an algorithm.
  pub debug_algorithm : Algorithm → Text
