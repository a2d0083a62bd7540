-- ===== src/Validator.antt =====
-- authzoo/src/validator.rs: a token against the configured roles.
pub mod Roles
pub mod Acceptance
pub mod Outcomes
pub mod Safety
pub mod Completeness
pub mod Provenance
pub mod Entitlement
pub mod Judgement
use authzoo.Common.{
  Bool, true, false, not, Option, none, some, List, [], ◌∷◌, Text, text_beq, text_eq, contains,
  Result, ok, err, panic, if◌then◌else◌,
}
use authzoo.Common.Maps.Tree
use authzoo.Common.Maps.Tree.{BTreeMap}
use authzoo.Jwt.{Algorithm, Header, Json, Jwt, Validation, ValidatedClaims}
use authzoo.Config.{
  RoleConfig, Config, AuthzooError, other, header_undecodable, algorithm_not_allowed,
  token_validation, duplicate_role, unknown_role, validate_role, allows_algorithm,
}
use authzoo.Claims.{require_claims}
use authzoo.Keys.{resolving_decoding_key}
use authzoo.World.{Environment, State, M, bind, ◌>>=◌, ◌>>◌, pure, fail, lift, expect, ask}

pub record TokenValidator : Type 0 where
  pub roles : BTreeMap RoleConfig

-- The loop of `TokenValidator::new`: the names seen, the roles by name, and the roles left.
unfoldable pub collect_roles :
    List Text → BTreeMap RoleConfig → List RoleConfig → Result AuthzooError (BTreeMap RoleConfig)
collect_roles names roles_by_name [] = ok roles_by_name
collect_roles names roles_by_name (role ∷ roles) =
    let rest = collect_roles (role.name ∷ names) (Tree.insert role.name role roles_by_name) roles in
    elim (validate_role role) [
      | ok _ ↦ if contains role.name names then err (duplicate_role role.name) else rest
      | err e ↦ err e
      | panic ↦ panic
    ]

abbrev pub as_validator {ℓ} :
    {E : Type ℓ} → Result E (BTreeMap RoleConfig) → Result E TokenValidator
as_validator (ok roles) = ok (record { roles = roles })
as_validator (err e) = err e
as_validator panic = panic

-- `TokenValidator::new`.
unfoldable pub new : List RoleConfig → Result AuthzooError TokenValidator
new roles = as_validator (collect_roles [] [] roles)

-- `TryFrom<Config>`.
unfoldable pub try_from : Config → Result AuthzooError TokenValidator
unfolding new
try_from config = new config.roles

-- `TokenValidator::ensure_roles_exist`.
unfoldable pub ensure_roles_exist : TokenValidator → List Text → Result AuthzooError (Unit {0})
ensure_roles_exist v [] = ok tt
ensure_roles_exist v (role_name ∷ role_names) =
    if Tree.contains_key role_name v.roles
    then ensure_roles_exist v role_names
    else err (unknown_role role_name)

-- `map_err` of the decoder's error.
abbrev pub with_role {ℓ} : {A : Type ℓ} → Text → Result Text A → Result AuthzooError A
with_role role (ok a) = ok a
with_role role (err source) = err (token_validation role source)
with_role role panic = panic

-- What `filter_map` does with one result.
abbrev pub prepend {ℓ} : {A : Type ℓ} → Option A → List A → List A
prepend none xs = xs
prepend (some x) xs = x ∷ xs

module _ {V K : Type 0} (json : Json V) (jwt : Jwt V K) (env : Environment) where
  -- `validate_token_for_role`, once the algorithm is allowed.
  unfoldable pub validate_allowed : RoleConfig → Text → Algorithm → M (ValidatedClaims V)
  validate_allowed role token algorithm = do
    decoding_key ← resolving_decoding_key jwt env role token algorithm
    let validation : Validation = record {
      algorithm = algorithm;
      audience = role.audience;
      issuer = role.issuer;
    }
    decoded ← ask (λ n. jwt.decode n token decoding_key validation)
    claims ← lift (with_role role.name decoded)
    lift (require_claims json claims role.claims)
    pure claims

  unfoldable pub validate_token_for_role : RoleConfig → Text → M (ValidatedClaims V)
  unfolding validate_allowed
  validate_token_for_role role token = do
    header ← expect (jwt.decode_header token) (header_undecodable role.name)
    let algorithm = header.alg
    if allows_algorithm role algorithm
        then validate_allowed role token algorithm
        else fail (algorithm_not_allowed role.name algorithm)

  -- `TokenValidator::validate_for_role`.
  unfoldable pub validate_for_role : TokenValidator → Text → Text → M (ValidatedClaims V)
  validate_for_role v role_name token = elim (Tree.get role_name v.roles) [
    | none ↦ fail (unknown_role role_name)
    | some role ↦ validate_token_for_role role token
  ]

  -- The `filter_map` of `TokenValidator::validate`: what one role adds to the names.
  unfoldable pub named_if_ok :
      Text
      → Result AuthzooError (ValidatedClaims V) × State
      → Result AuthzooError (Option Text) × State
  named_if_ok name (ok _, s) = (ok (some name), s)
  named_if_ok name (err _, s) = (ok none, s)
  named_if_ok name (panic, s) = (panic, s)

  unfoldable pub validate_roles : BTreeMap RoleConfig → Text → M (List Text)
  validate_roles [] token = pure []
  validate_roles ((name, role) ∷ roles) token = do
    found ← (λ s. named_if_ok name (validate_token_for_role role token s))
    names ← validate_roles roles token
    pure (prepend found names)

  -- `TokenValidator::validate`.
  unfoldable pub validate : TokenValidator → Text → M (List Text)
  unfolding validate_roles named_if_ok
  validate v token = validate_roles v.roles token
