-- ===== src/Config/Validation.antt =====
-- `RoleConfig::validate` of authzoo/src/config.rs: which roles pass, and which fault is named.
use authzoo.Common.{
  ◌≡◌, refl, ap, ◌≢◌, ◌↔◌, inl, inr, Bool-cases, false, ◌++◌, some, List, [], ◌∷◌, Text, any,
  is_empty, filled_iff, All, ok, err, arith,
}
use mathlib.Core.Path.{subst}
use authzoo.Common.Maps.Tree.{BTreeMap}
use authzoo.Config.{
  ClaimRequirement, equals, any_of, detailed, contains, lacks_value, validate_requirement,
  validate_claims, validate_role, RoleConfig, AuthzooError, empty_claim_name,
  empty_claim_requirement,
}

-- A list of acceptable values that can be met, and by no empty text.
abbrev pub IsOpen : List Text → Type 0
IsOpen ss = (ss ≢ []) × All (λ s. s ≢ []) ss

-- A requirement that some value can meet, and no empty text.
abbrev pub IsMeaningful : ClaimRequirement → Type 0
IsMeaningful (equals s) = s ≢ []
IsMeaningful (any_of ss) = IsOpen ss
IsMeaningful (detailed d) = IsOpen d.any_of
IsMeaningful (contains c) = c.contains ≢ []

abbrev pub IsSound : Text × ClaimRequirement → Type 0
IsSound (claim, r) = (claim ≢ []) × IsMeaningful r

pub record IsWellFormed (role : RoleConfig) : Type 0 where
  pub named : role.name ≢ []
  pub audience : role.audience ≢ []
  pub issuer : role.issuer ≢ []
  pub keyed : role.validation_key ≢ some []
  pub signed : role.algorithms ≢ []
  pub claims : All IsSound role.claims

none_empty_iff : (ss : List Text) → (any is_empty ss ≡ false) ↔ All (λ s. s ≢ []) ss
none_empty_iff [] = ground arith
none_empty_iff (s ∷ ss) = ground (arith, filled_iff s, none_empty_iff ss)

lacks_value_iff : (r : ClaimRequirement) → (lacks_value r ≡ false) ↔ IsMeaningful r
unfolding lacks_value
lacks_value_iff (equals s) = filled_iff s
lacks_value_iff (any_of ss) = ground (arith, filled_iff ss, none_empty_iff ss)
lacks_value_iff (detailed d) = ground (arith, filled_iff d.any_of, none_empty_iff d.any_of)
lacks_value_iff (contains c) = filled_iff c.contains

validate_claims_iff :
    (role : Text) (m : BTreeMap ClaimRequirement) → (validate_claims role m ≡ ok tt) ↔ All IsSound m
unfolding validate_claims validate_requirement
validate_claims_iff role [] = ground arith
validate_claims_iff role ((claim, r) ∷ m) =
    ground (arith, filled_iff claim, lacks_value_iff r, validate_claims_iff role m)

-- A role passes `validate` exactly when it is well formed: name, audience, issuer and a given
-- validation key are not empty, an algorithm is allowed, every claim has a name, and every
-- requirement lists at least one value and no empty one.
pub validate_role_iff : (role : RoleConfig) → (validate_role role ≡ ok tt) ↔ IsWellFormed role
unfolding validate_role
validate_role_iff role = ground (
  arith,
  filled_iff role.name,
  filled_iff role.audience,
  filled_iff role.issuer,
  filled_iff role.algorithms,
  validate_claims_iff role.name role.claims,
)

-- The fault of one claim, as the error names it.
pub data Fault (role : Text) : Text × ClaimRequirement → AuthzooError → Type 0 where
  unnamed :
      {claim : Text} {r : ClaimRequirement}
      → claim ≡ []
      → Fault role (claim, r) (empty_claim_name role)
  unmet :
      {claim : Text} {r : ClaimRequirement}
      → claim ≢ []
      → ¬ IsMeaningful r
      → Fault role (claim, r) (empty_claim_requirement role claim)

-- Where `validate_claims` stops: the claims before the fault are sound.
pub record FirstFault (role : Text) (m : BTreeMap ClaimRequirement) (e : AuthzooError)
    : Type 0 where
  before : BTreeMap ClaimRequirement
  entry : Text × ClaimRequirement
  after : BTreeMap ClaimRequirement
  split : m ≡ before ++ entry ∷ after
  sound : All IsSound before
  fault : Fault role entry e

FirstFault-cons :
    {role : Text} {m : BTreeMap ClaimRequirement} {e : AuthzooError} (x : Text × ClaimRequirement)
    → IsSound x
    → FirstFault role m e
    → FirstFault role (x ∷ m) e
FirstFault-cons x s f = record {
  before = x ∷ f.before;
  entry = f.entry;
  after = f.after;
  split = ap (◌∷◌ x) f.split;
  sound = (s, f.sound);
  fault = f.fault;
}

FirstFault-here :
    {role : Text} (m : BTreeMap ClaimRequirement) {e : AuthzooError} (x : Text × ClaimRequirement)
    → Fault role x e
    → FirstFault role (x ∷ m) e
FirstFault-here m x f = record {
  before = [];
  entry = x;
  after = m;
  split = refl;
  sound = tt;
  fault = f;
}

-- An error of `validate_claims` is about the first claim that is not sound, and says what is wrong
-- with it: an empty claim name, or a requirement that lists no value or an empty one.
pub validate_claims-FirstFault :
    (role : Text) (m : BTreeMap ClaimRequirement) (e : AuthzooError)
    → validate_claims role m ≡ err e
    → FirstFault role m e
unfolding validate_claims validate_requirement
validate_claims-FirstFault role [] e h = cc
validate_claims-FirstFault role ((claim, r) ∷ m) e h = elim (Bool-cases (is_empty claim)) [
  | inl empty ↦
      subst (FirstFault role ((claim, r) ∷ m)) (ground arith)
        (FirstFault-here m (claim, r) (unnamed (ground arith)))
  | inr named ↦ elim (Bool-cases (lacks_value r)) [
    | inl lacks ↦ subst (FirstFault role ((claim, r) ∷ m)) (ground arith) (
        FirstFault-here m (claim, r)
          (unmet (ground (arith, filled_iff claim)) (ground (arith, lacks_value_iff r))))
    | inr fine ↦
        FirstFault-cons (claim, r) ((filled_iff claim).0 named, (lacks_value_iff r).0 fine)
          (validate_claims-FirstFault role m e (ground arith))
  ]
]
