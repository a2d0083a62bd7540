-- ===== src/Validator/Roles.antt =====
-- `TokenValidator::new` and `ensure_roles_exist` of authzoo/src/validator.rs: which configurations
-- make a validator, and what it holds.
use mathlib.Core.Path.{subst}
use authzoo.Common.{
  ◌≡◌, refl, ap, ◌≢◌, ◌↔◌, inl, inr, Option-cases, true, false, Option, none, some, List, [], ◌∷◌,
  ◌++◌, Text, text_beq, text_beq_iff, text_eq, contains, Succeeds, ok, err, All, arith,
  if◌then◌else◌,
}
use authzoo.Common.Maps.Tree
use authzoo.Common.Maps.Tree.{BTreeMap, get-insert}
use authzoo.Common.Maps.Sorted.{IsSorted, insert-IsSorted}
use authzoo.Config.{RoleConfig, AuthzooError, unknown_role}
use authzoo.Config.Validation.{IsWellFormed, validate_role_iff}
use authzoo.Validator.{TokenValidator, collect_roles, new, ensure_roles_exist}

-- The first role of a name.
unfoldable pub role_named : Text → List RoleConfig → Option RoleConfig
role_named name [] = none
role_named name (role ∷ roles) =
    if text_beq role.name name then some role else role_named name roles

-- No two roles share a name, and none has a name of the list.
abbrev pub HasFreshNames : List Text → List RoleConfig → Type 0
HasFreshNames names [] = Unit
HasFreshNames names (role ∷ roles) =
    (contains role.name names ≡ false) × HasFreshNames (role.name ∷ names) roles

abbrev pub HasDistinctNames : List RoleConfig → Type 0
HasDistinctNames roles = HasFreshNames [] roles

collect_roles_iff :
    (names : List Text) (m : BTreeMap RoleConfig) (roles : List RoleConfig)
    → Succeeds (collect_roles names m roles) ↔ (All IsWellFormed roles × HasFreshNames names roles)
unfolding collect_roles
collect_roles_iff names m [] = ((λ _. (tt, tt)), λ _. tt)
collect_roles_iff names m (role ∷ roles) = ground (
  arith,
  validate_role_iff role,
  collect_roles_iff (role.name ∷ names) (Tree.insert role.name role m) roles,
)

role_named-fresh :
    (k : Text) (names : List Text) (roles : List RoleConfig) (r : RoleConfig)
    → HasFreshNames names roles
    → role_named k roles ≡ some r
    → contains k names ≡ false
unfolding role_named
role_named-fresh k names [] r f h = cc
role_named-fresh k names (role ∷ roles) r f h =
    ground (arith, text_beq_iff role.name k, role_named-fresh k (role.name ∷ names) roles r f.1)

collect_roles-get :
    (names : List Text) (m m' : BTreeMap RoleConfig) (roles : List RoleConfig) (k : Text)
    → HasFreshNames names roles
    → collect_roles names m roles ≡ ok m'
    → Tree.get k m' ≡ elim (role_named k roles) [ some r ↦ some r | none ↦ Tree.get k m ]
unfolding collect_roles role_named
collect_roles-get names m m' [] k f h = ground arith
collect_roles-get names m m' (role ∷ roles) k f h =
    let m'' = Tree.insert role.name role m in
    let later : collect_roles (role.name ∷ names) m'' roles ≡ ok m' = ground arith in
    let ih = collect_roles-get (role.name ∷ names) m'' m' roles k f.1 later in
    elim (Option-cases (role_named k roles)) [
      | inl absent ↦ ground (arith, ih, get-insert role.name k role m)
      | inr (r, found) ↦
          let fresh = role_named-fresh k (role.name ∷ names) roles r f.1 found in ground (arith, ih)
    ]

collect_roles-IsSorted :
    (names : List Text) (m m' : BTreeMap RoleConfig) (roles : List RoleConfig)
    → IsSorted m
    → collect_roles names m roles ≡ ok m'
    → IsSorted m'
unfolding collect_roles
collect_roles-IsSorted names m m' [] sorted h = subst (IsSorted {V = RoleConfig}) (cc) sorted
collect_roles-IsSorted names m m' (role ∷ roles) sorted h =
    collect_roles-IsSorted (role.name ∷ names) (Tree.insert role.name role m) m' roles
      (insert-IsSorted role.name role m sorted) (ground arith)

-- The validator holds its roles in the order of their names.
pub new-IsSorted :
    (roles : List RoleConfig) (v : TokenValidator) → new roles ≡ ok v → IsSorted v.roles
unfolding new
new-IsSorted roles v h = collect_roles-IsSorted [] [] v.roles roles tt (ground arith)

-- `new` makes a validator exactly when every role is well formed and no name is used twice.
pub new_iff :
    (roles : List RoleConfig)
    → Succeeds (new roles) ↔ (All IsWellFormed roles × HasDistinctNames roles)
unfolding new
new_iff roles = ground (arith, collect_roles_iff [] [] roles)

-- The validator holds each role under its name, and nothing else.
pub new-get :
    (roles : List RoleConfig) (v : TokenValidator) (name : Text)
    → new roles ≡ ok v
    → Tree.get name v.roles ≡ role_named name roles
unfolding new Tree.get
new-get roles v name h =
    let fresh = ((new_iff roles).0 (rw h tt)).1 in
    ground (arith, collect_roles-get [] [] v.roles roles name fresh)

-- Every name is the name of a role that the validator holds.
abbrev pub AreKnown : TokenValidator → List Text → Type 0
AreKnown v names = All (λ name. Tree.get name v.roles ≢ none) names

-- The first name of the list that no role has.
pub record FirstUnknown (v : TokenValidator) (names : List Text) (e : AuthzooError) : Type 0 where
  before : List Text
  name : Text
  after : List Text
  split : names ≡ before ++ name ∷ after
  known : AreKnown v before
  unknown : Tree.get name v.roles ≡ none
  named : e ≡ unknown_role name

contains_key_iff :
    (name : Text) (v : TokenValidator)
    → (Tree.contains_key name v.roles ≡ true) ↔ (Tree.get name v.roles ≢ none)
unfolding Tree.contains_key
contains_key_iff name v = ground arith

-- An error of `ensure_roles_exist` names the first name of the list that no role has.
pub ensure_roles_exist-FirstUnknown :
    (v : TokenValidator) (names : List Text) (e : AuthzooError)
    → ensure_roles_exist v names ≡ err e
    → FirstUnknown v names e
unfolding ensure_roles_exist Tree.contains_key
ensure_roles_exist-FirstUnknown v [] e h = cc
ensure_roles_exist-FirstUnknown v (name ∷ names) e h = elim (Option-cases (Tree.get name v.roles)) [
  | inl missing ↦ record {
    before = [];
    name = name;
    after = names;
    split = refl;
    known = tt;
    unknown = missing;
    named = ground arith;
  }
  | inr (role, found) ↦
      let f = ensure_roles_exist-FirstUnknown v names e (ground arith) in
      record {
        before = name ∷ f.before;
        name = f.name;
        after = f.after;
        split = ap (◌∷◌ name) f.split;
        known = (ground arith, f.known);
        unknown = f.unknown;
        named = f.named;
      }
]

-- `ensure_roles_exist` passes exactly when every name has a role.
pub ensure_roles_exist_iff :
    (v : TokenValidator) (names : List Text)
    → (ensure_roles_exist v names ≡ ok tt) ↔ AreKnown v names
unfolding ensure_roles_exist
ensure_roles_exist_iff v [] = ground arith
ensure_roles_exist_iff v (name ∷ names) =
    ground (arith, contains_key_iff name v, ensure_roles_exist_iff v names)
