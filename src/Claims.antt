-- ===== src/Claims.antt =====
-- authzoo/src/claims.rs: the claims of a validated token, and the requirements of a role on them.
pub mod Required
use authzoo.Common.{
  Bool, true, false, Option, none, some, List, [], ◌∷◌, Text, text, text_beq, Result, ok, err,
  if◌then◌else◌,
}
use authzoo.Common.Maps.Tree
use authzoo.Common.Maps.Tree.{BTreeMap}
use authzoo.Jwt.{Json, ValidatedClaims}
use authzoo.Config.{ClaimRequirement, AuthzooError, missing_claim, matches, matches_value, and_then}

module _ {V : Type 0} (json : Json V) where
  -- `ValidatedClaims::claim_value`.
  unfoldable pub claim_value : ValidatedClaims V → Text → Option Text
  claim_value c claim_name =
      if text_beq claim_name (text "sub")
      then some c.sub
      else and_then (Tree.get claim_name c.claims) json.as_str

  -- `ValidatedClaims::satisfies`.
  unfoldable pub satisfies : ValidatedClaims V → Text → ClaimRequirement → Bool
  satisfies c claim_name requirement =
      if text_beq claim_name (text "sub")
      then matches requirement (some c.sub)
      else matches_value json requirement (Tree.get claim_name c.claims)

  -- `ValidatedClaims::first_missing_required_claim`.
  unfoldable pub first_missing_required_claim :
      ValidatedClaims V → BTreeMap ClaimRequirement → Option (Text × ClaimRequirement)
  first_missing_required_claim c [] = none
  first_missing_required_claim c ((claim_name, requirement) ∷ rest) =
      if satisfies c claim_name requirement
      then first_missing_required_claim c rest
      else some (claim_name, requirement)

  -- `ValidatedClaims::require_claims`.
  unfoldable pub require_claims :
      ValidatedClaims V → BTreeMap ClaimRequirement → Result AuthzooError (Unit {0})
  require_claims c required = elim (first_missing_required_claim c required) [
    | none ↦ ok tt
    | some (claim, requirement) ↦ err (missing_claim claim requirement)
  ]
