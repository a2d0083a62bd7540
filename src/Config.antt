-- ===== src/Config.antt =====
-- authzoo/src/config.rs, and the errors of authzoo/src/error.rs: roles and claim requirements.
-- The constructors of an untagged enum keep their names. An `anyhow` error is the message of its
-- outermost context, as a constructor of `Failure` with the values that the message shows.
pub mod Acceptance
pub mod Validation
use authzoo.Common.{
  Bool, false, not, ◌||◌, Option, none, some, List, [], ◌∷◌, Text, text, text_beq, is_empty, any,
  ◌==◌, Result, ok, require, ◌>>◌, ◌++◌,
}
use authzoo.Common.Maps.Tree.{BTreeMap}
use authzoo.Jwt.{Algorithm, algorithm_eq, Json}

pub data JwtAlgorithm : Type 0 where
  hs256 hs384 hs512 rs256 rs384 rs512 ps256 ps384 ps512 es256 es384 ed_dsa : JwtAlgorithm

pub record DetailedClaimRequirement : Type 0 where
  pub any_of : List Text

pub record ContainsClaimRequirement : Type 0 where
  pub contains : Text

pub data ClaimRequirement : Type 0 where
  equals : Text → ClaimRequirement
  any_of : List Text → ClaimRequirement
  detailed : DetailedClaimRequirement → ClaimRequirement
  contains : ContainsClaimRequirement → ClaimRequirement

pub record RoleConfig : Type 0 where
  pub name : Text
  pub audience : Text
  pub issuer : Text
  pub validation_key : Option Text
  pub algorithms : List JwtAlgorithm
  pub claims : BTreeMap ClaimRequirement

pub record Config : Type 0 where
  pub roles : List RoleConfig

pub data Failure : Type 0 where
  header_undecodable : Text → Failure
  discovery_header_undecodable : Failure
  pem_for_hmac : Algorithm → Failure
  rsa_key_invalid ec_key_invalid ed_key_invalid : Failure
  openid_fetch_failed openid_error_status openid_unparsable : Text → Failure
  jwks_fetch_failed jwks_error_status jwks_unparsable : Text → Failure
  client_build_failed ca_certificate_invalid authorization_invalid : Failure
  cached_jwk_unusable discovered_jwk_unusable : Text → Failure
  no_jwk_for_kid : Text → Failure
  no_jwk_for_algorithm many_jwks_for_algorithm : Algorithm → Failure
  jwk_incompatible : Text → Algorithm → Failure

pub data AuthzooError : Type 0 where
  empty_role_name : AuthzooError
  empty_audience empty_issuer empty_validation_key empty_algorithms : Text → AuthzooError
  empty_claim_name : Text → AuthzooError
  empty_claim_requirement : Text → Text → AuthzooError
  duplicate_role unknown_role : Text → AuthzooError
  algorithm_not_allowed : Text → Algorithm → AuthzooError
  token_validation : Text → Text → AuthzooError
  missing_claim : Text → ClaimRequirement → AuthzooError
  other : Failure → AuthzooError

-- `JwtAlgorithm::to_algorithm`.
unfoldable pub to_algorithm : JwtAlgorithm → Algorithm
to_algorithm hs256 = Algorithm.hs256
to_algorithm hs384 = Algorithm.hs384
to_algorithm hs512 = Algorithm.hs512
to_algorithm rs256 = Algorithm.rs256
to_algorithm rs384 = Algorithm.rs384
to_algorithm rs512 = Algorithm.rs512
to_algorithm ps256 = Algorithm.ps256
to_algorithm ps384 = Algorithm.ps384
to_algorithm ps512 = Algorithm.ps512
to_algorithm es256 = Algorithm.es256
to_algorithm es384 = Algorithm.es384
to_algorithm ed_dsa = Algorithm.ed_dsa

abbrev pub default_algorithms : List JwtAlgorithm
default_algorithms = rs256 ∷ es256 ∷ []

-- `RoleConfig::allows_algorithm`.
unfoldable pub allows_algorithm : RoleConfig → Algorithm → Bool
allows_algorithm role algorithm = any (λ allowed. to_algorithm allowed == algorithm) role.algorithms

-- The `is_empty` of `ClaimRequirement::validate`.
unfoldable pub lacks_value : ClaimRequirement → Bool
lacks_value (equals value) = is_empty value
lacks_value (any_of values) = is_empty values || any is_empty values
lacks_value (detailed d) = is_empty d.any_of || any is_empty d.any_of
lacks_value (contains c) = is_empty c.contains

-- `ClaimRequirement::validate`.
unfoldable pub validate_requirement :
    ClaimRequirement → Text → Text → Result AuthzooError (Unit {0})
validate_requirement r role claim =
    require (not (lacks_value r)) (empty_claim_requirement role claim)

-- The loop of `RoleConfig::validate` over the claims.
unfoldable pub validate_claims : Text → BTreeMap ClaimRequirement → Result AuthzooError (Unit {0})
validate_claims role [] = ok tt
validate_claims role ((claim, requirement) ∷ rest) = do
  require (not (is_empty claim)) (empty_claim_name role)
  validate_requirement requirement role claim
  validate_claims role rest

-- `matches!(self.validation_key.as_deref(), Some(""))`.
abbrev pub is_blank_key : Option Text → Bool
is_blank_key none = false
is_blank_key (some k) = is_empty k

-- `RoleConfig::validate`.
unfoldable pub validate_role : RoleConfig → Result AuthzooError (Unit {0})
validate_role role = do
  require (not (is_empty role.name)) empty_role_name
  require (not (is_empty role.audience)) (empty_audience role.name)
  require (not (is_empty role.issuer)) (empty_issuer role.name)
  require (not (is_blank_key role.validation_key)) (empty_validation_key role.name)
  require (not (is_empty role.algorithms)) (empty_algorithms role.name)
  validate_claims role.name role.claims

-- `value == Some(required)` for an optional text.
abbrev pub is_text : Option Text → Text → Bool
is_text none required = false
is_text (some value) required = text_beq value required

-- `ClaimRequirement::matches`.
unfoldable pub matches : ClaimRequirement → Option Text → Bool
matches (equals required) value = is_text value required
matches (any_of required) value = any (is_text value) required
matches (detailed required) value = any (is_text value) required.any_of
matches (contains _) value = false

-- `Option::and_then`.
abbrev pub and_then {ℓ κ} : {A : Type ℓ} {B : Type κ} → Option A → (A → Option B) → Option B
and_then none f = none
and_then (some a) f = f a

module _ {V : Type 0} (json : Json V) where
  -- `value.and_then(Value::as_array).is_some_and(…)`.
  unfoldable pub holds_element : Option (List V) → Text → Bool
  holds_element none required = false
  holds_element (some elements) required = any (λ v. is_text (json.as_str v) required) elements

  -- `ClaimRequirement::matches_value`.
  unfoldable pub matches_value : ClaimRequirement → Option V → Bool
  unfolding matches holds_element
  matches_value (contains c) value = holds_element (and_then value json.as_array) c.contains
  matches_value wanted value = matches wanted (and_then value json.as_str)

-- `Display for ClaimRequirement`; `debug` is `{:?}` of a `Vec<String>`.
unfoldable pub fmt_requirement : (List Text → Text) → ClaimRequirement → Text
fmt_requirement debug (equals value) = text "equals '" ++ value ++ text "'"
fmt_requirement debug (any_of values) = text "one of " ++ debug values
fmt_requirement debug (detailed d) = text "one of " ++ debug d.any_of
fmt_requirement debug (contains c) = text "contains '" ++ c.contains ++ text "'"
