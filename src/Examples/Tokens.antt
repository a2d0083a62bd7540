-- ===== src/Examples/Tokens.antt =====
-- Tokens against roles (authzoo/src/validator.rs, claims.rs, config.rs, keys.rs).
use authzoo.Common.{
  ℕ, ◌≡◌, ◌↔◌, refl, arith, true, none, some, [], ◌∷◌, Text, text, text_beq, All, Returns, ok,
  Succeeds,
}
use authzoo.Common.Maps.Tree
use authzoo.Jwt.{Algorithm, Algorithm-discrete, Validation}
use authzoo.Config.{
  RoleConfig, missing_claim, equals, to_algorithm, allows_algorithm, matches, matches_value,
  validate_role, validate_claims, validate_requirement, lacks_value,
}
use authzoo.Config.Acceptance.{Accepts, matches_value_iff}
use authzoo.Config.Validation.{IsWellFormed, validate_role_iff}
use authzoo.Claims.{require_claims, first_missing_required_claim, satisfies}
use authzoo.Claims.Required.{Meets, FirstUnmet, require_claims_iff, require_claims-FirstUnmet}
use authzoo.Jwks.{select_jwk_for_token}
use authzoo.Jwks.Fitting.{family}
use authzoo.Jwks.Selection.{IsChosen, select_jwk_for_token_iff}
use authzoo.World.{◌>>=◌, ask}
use authzoo.Keys.{decoding_key_for_algorithm, key_or_discover, resolving_decoding_key}
use authzoo.Keys.Trust.{IsKeyOf, decoding_key_for_algorithm_iff}
use authzoo.Validator.{
  new, collect_roles, validate_allowed, validate_token_for_role, validate_for_role, named_if_ok,
  validate_roles, validate,
}
use authzoo.Validator.Roles.{role_named, HasDistinctNames, new_iff, new-get}
use authzoo.Validator.Acceptance.{IsAccepted}
use authzoo.Validator.Completeness.{IsValidFor, validate_token_for_role_iff}
use authzoo.Validator.Judgement.{IsJudged, validate-IsJudged}
use authzoo.Validator.Outcomes.{validate_for_role-IsAccepted}
use authzoo.Examples.Samples.{
  json, jwt, env, start, after_decode, role, validator, claims, jwk, jwks, str,
}

validate_token_for_role_iff_example :
    ((validate_token_for_role json jwt env role (text "good") start).0 ≡ ok claims)
    ↔ IsValidFor json jwt env role (text "PEM") (text "good") start.calls claims
validate_token_for_role_iff_example =
    validate_token_for_role_iff json jwt env role (text "PEM") (text "good") start claims refl

validate_for_role-IsAccepted_example :
    (r : RoleConfig) × (role_named (text "ci") (role ∷ []) ≡ some r)
    × IsWellFormed r
    × IsAccepted json jwt env r (text "good") claims
unfolding validate_for_role validate_token_for_role validate_allowed resolving_decoding_key
    key_or_discover decoding_key_for_algorithm ◌>>=◌ ask allows_algorithm to_algorithm text_beq
    Algorithm-discrete require_claims first_missing_required_claim satisfies matches_value matches
    Tree.get new collect_roles Tree.insert Tree.precedes validate_role validate_claims
    validate_requirement lacks_value
validate_for_role-IsAccepted_example =
    validate_for_role-IsAccepted json jwt env (role ∷ []) validator (text "ci") (text "good") start
      after_decode claims refl refl

validate-IsJudged_example :
    IsJudged json jwt env validator.roles (text "good") start (text "ci" ∷ [])
unfolding validate validate_roles named_if_ok validate_token_for_role validate_allowed
    resolving_decoding_key key_or_discover decoding_key_for_algorithm ◌>>=◌ ask allows_algorithm
    to_algorithm text_beq Algorithm-discrete require_claims first_missing_required_claim satisfies
    matches_value matches Tree.get new collect_roles Tree.insert Tree.precedes validate_role
    validate_claims validate_requirement lacks_value
validate-IsJudged_example =
    validate-IsJudged json jwt env (role ∷ []) validator (text "good") start after_decode
      (text "ci" ∷ []) refl refl

-- The decoder of the sample never panics.
decode-Returns : (n : ℕ) (t k : Text) (w : Validation) → Returns (jwt.decode n t k w)
decode-Returns n t k w = ground arith

new_iff_example :
    Succeeds (new (role ∷ [])) ↔ (All IsWellFormed (role ∷ []) × HasDistinctNames (role ∷ []))
new_iff_example = new_iff (role ∷ [])

new-get_example : Tree.get (text "ci") validator.roles ≡ role_named (text "ci") (role ∷ [])
unfolding new collect_roles Tree.insert validate_role validate_claims validate_requirement
    lacks_value
new-get_example = new-get (role ∷ []) validator (text "ci") refl

require_claims_iff_example :
    (require_claims json claims role.claims ≡ ok tt) ↔ All (Meets json claims) role.claims
require_claims_iff_example = require_claims_iff json claims role.claims

require_claims-FirstUnmet_example :
    FirstUnmet json claims
      ((text "org", equals (text "other")) ∷ [])
      (missing_claim (text "org") (equals (text "other")))
unfolding require_claims first_missing_required_claim satisfies matches_value matches Tree.get
    text_beq
require_claims-FirstUnmet_example =
    require_claims-FirstUnmet json claims ((text "org", equals (text "other")) ∷ [])
      (missing_claim (text "org") (equals (text "other"))) refl

matches_value_iff_example :
    (matches_value json (equals (text "acme")) (some (str (text "acme"))) ≡ true)
    ↔ Accepts json (equals (text "acme")) (some (str (text "acme")))
matches_value_iff_example = matches_value_iff json (equals (text "acme")) (some (str (text "acme")))

validate_role_iff_example : (validate_role role ≡ ok tt) ↔ IsWellFormed role
validate_role_iff_example = validate_role_iff role

decoding_key_for_algorithm_iff_example :
    (decoding_key_for_algorithm jwt (text "PEM") Algorithm.es256 ≡ ok (text "PEM"))
    ↔ IsKeyOf jwt (text "PEM") (text "PEM") (family Algorithm.es256)
decoding_key_for_algorithm_iff_example =
    decoding_key_for_algorithm_iff jwt (text "PEM") Algorithm.es256 (text "PEM")

select_jwk_for_token_iff_example :
    (select_jwk_for_token jwt.find jwks none Algorithm.es256 ≡ ok jwk)
    ↔ IsChosen jwt.find jwks none Algorithm.es256 jwk
select_jwk_for_token_iff_example = select_jwk_for_token_iff jwt.find jwks none Algorithm.es256 jwk
