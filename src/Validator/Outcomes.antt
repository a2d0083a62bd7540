-- ===== src/Validator/Outcomes.antt =====
-- The results of `validate_for_role` (authzoo/src/validator.rs).
use authzoo.Common.{
  ◌≡◌, sym, inl, inr, Bool-cases, Option-cases, some, List, [], ◌∷◌, Text, text_beq, All, ok, arith,
}
use authzoo.Common.Maps.Tree
use authzoo.Common.Maps.Tree.{BTreeMap}
use authzoo.Jwt.{Json, Jwt, ValidatedClaims}
use authzoo.Config.{RoleConfig}
use authzoo.Config.Validation.{IsWellFormed}
use authzoo.World.{Environment, State}
use authzoo.Validator.{TokenValidator, new, validate_for_role}
use authzoo.Validator.Roles.{role_named, new_iff, new-get}
use authzoo.Validator.Acceptance.{IsAccepted, validate_token_for_role-IsAccepted}

role_named-IsWellFormed :
    (name : Text) (roles : List RoleConfig) (role : RoleConfig)
    → All IsWellFormed roles
    → role_named name roles ≡ some role
    → IsWellFormed role
unfolding role_named
role_named-IsWellFormed name [] role w h = cc
role_named-IsWellFormed name (r ∷ roles) role w h = elim (Bool-cases (text_beq r.name name)) [
  | inl this ↦ let same : r ≡ role = ground arith in rw (sym same) (w.0)
  | inr later ↦ role_named-IsWellFormed name roles role (w.1) (ground arith)
]

module _ {V K : Type 0} (json : Json V) (jwt : Jwt V K) (env : Environment) where
  -- A token that a built validator validates for a role name: the configuration has a role of that
  -- name, it is well formed, and it accepts the token with the claims returned.
  pub validate_for_role-IsAccepted :
      (roles : List RoleConfig) (v : TokenValidator) (name token : Text) (s s' : State)
      (claims : ValidatedClaims V)
      → new roles ≡ ok v
      → validate_for_role json jwt env v name token s ≡ (ok claims, s')
      → (role : RoleConfig) × (role_named name roles ≡ some role)
        × IsWellFormed role
        × IsAccepted json jwt env role token claims
  unfolding validate_for_role
  validate_for_role-IsAccepted roles v name token s s' claims built h =
      elim (Option-cases (Tree.get name v.roles)) [
        | inl missing ↦ cc (rw (missing, validate_for_role) at h)
        | inr (role, found) ↦ (
          role,
          (ground (arith, new-get roles v name built)),
          role_named-IsWellFormed name roles role (((new_iff roles).0 (rw built tt)).0)
              (ground (arith, new-get roles v name built)),
          validate_token_for_role-IsAccepted json jwt env role token s s' claims
              (rw (found, validate_for_role) at h),
        )
      ]
