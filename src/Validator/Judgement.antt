-- ===== src/Validator/Judgement.antt =====
-- Which role names `validate` of authzoo/src/validator.rs lists.
use mathlib.Core.Path.{subst}
use authzoo.Common.{
  ◌≡◌, refl, sym, ap, true, false, Option, none, some, List, [], ◌∷◌, Text, text_beq, text_beq_iff,
  text_eq, At, here, there, All, Result, ok, err, panic, arith, if◌then◌else◌, contains,
}
use authzoo.Common.Maps.Tree.{BTreeMap, precedes}
use authzoo.Common.Maps.Sorted.{IsBefore, IsSorted, precedes-differ}
use authzoo.Jwt.{Json, Jwt, ValidatedClaims}
use authzoo.Config.{RoleConfig, AuthzooError}
use authzoo.World.{Environment, State, >>=-eq-ok}
use authzoo.Validator.{
  TokenValidator, new, validate_token_for_role, named_if_ok, validate_roles, validate, prepend,
}
use authzoo.Validator.Roles.{new-IsSorted}
use authzoo.Validator.Acceptance.{IsAccepted, validate_token_for_role-IsAccepted}

-- Each name precedes the names after it.
abbrev pub AreAscending : List Text → Type 0
AreAscending [] = Unit
AreAscending (name ∷ names) = All (λ later. precedes name later ≡ true) names × AreAscending names

module _ {V K : Type 0} (json : Json V) (jwt : Jwt V K) (env : Environment) where
  -- The state in which the loop of `validate` comes to the role of the name: every role before it has
  -- had its check, from the state that the one before left.
  unfoldable pub reached : BTreeMap RoleConfig → Text → Text → State → State
  reached [] token name s = s
  reached ((n, role) ∷ m) token name s =
      let next = reached m token name (validate_token_for_role json jwt env role token s).1 in
      if text_beq n name then s else next

  -- What the role's check, run in the state, says of its name.
  pub data IsVerdict (token : Text) (names : List Text) (s : State) (name : Text)
      (role : RoleConfig) : Type 0 where
    listed :
        (claims : ValidatedClaims V) (t : State)
        → At name names
        → validate_token_for_role json jwt env role token s ≡ (ok claims, t)
        → IsAccepted json jwt env role token claims
        → IsVerdict token names s name role
    omitted :
        (e : AuthzooError) (t : State)
        → contains name names ≡ false
        → validate_token_for_role json jwt env role token s ≡ (err e, t)
        → IsVerdict token names s name role

  abbrev AreVerdicts : BTreeMap RoleConfig → BTreeMap RoleConfig → Text → State → List Text → Type 0
  AreVerdicts whole m token s names =
      All (λ entry. IsVerdict token names (reached whole token entry.0 s) entry.0 entry.1) m

  abbrev AreHeld : BTreeMap RoleConfig → List Text → Type 0
  AreHeld m names = All (λ name. (role : RoleConfig) × At (name, role) m) names

  -- What `validate` says of the roles, run in the state: the names are in order, each is a role's, and
  -- each role has its verdict from its check of this run.
  pub record IsJudged (m : BTreeMap RoleConfig) (token : Text) (s : State) (names : List Text)
      : Type 0 where
    pub ascending : AreAscending names
    pub held : AreHeld m names
    pub judged : AreVerdicts m m token s names

  reached_here :
      (m : BTreeMap RoleConfig) (token name : Text) (role : RoleConfig) (s : State)
      → reached ((name, role) ∷ m) token name s ≡ s
  unfolding reached
  reached_here m token name role s = rw ((text_beq_iff name name).1 refl) refl

  reached_there :
      (m : BTreeMap RoleConfig) (token name n : Text) (role : RoleConfig) (s : State)
      → precedes name n ≡ true
      → reached ((name, role) ∷ m) token n s
        ≡ reached m token n (validate_token_for_role json jwt env role token s).1
  unfolding reached
  reached_there m token name n role s h = rw ((precedes-differ name n h).0) refl

  -- The verdicts on the later roles, once the first is checked.
  AreVerdicts-there :
      (m part : BTreeMap RoleConfig) (token name : Text) (role : RoleConfig) (s : State)
      (names others : List Text)
      → IsBefore name part
      → ((n : Text) (r : RoleConfig) (t : State)
          → precedes name n ≡ true
          → IsVerdict token others t n r
          → IsVerdict token names t n r)
      → AreVerdicts m part token (validate_token_for_role json jwt env role token s).1 others
      → AreVerdicts ((name, role) ∷ m) part token s names
  AreVerdicts-there m [] token name role s names others b lift v = tt
  AreVerdicts-there m ((n, r) ∷ part) token name role s names others (first, b) lift (v, rest) = (
    rw (reached_there m token name n role s first) (lift n r _ first v),
    AreVerdicts-there m part token name role s names others b lift rest,
  )

  IsVerdict-there :
      (token name n : Text) (r : RoleConfig) (t : State) (names : List Text)
      → precedes name n ≡ true
      → IsVerdict token names t n r
      → IsVerdict token (name ∷ names) t n r
  IsVerdict-there token name n r t names h (listed c u at e a) = listed c u (there at) e a
  IsVerdict-there token name n r t names h (omitted x u miss e) =
      omitted x u (ground (arith, precedes-differ name n h)) e

  AreHeld-there :
      (name : Text) (role : RoleConfig) (m : BTreeMap RoleConfig) (names : List Text)
      → AreHeld m names
      → AreHeld ((name, role) ∷ m) names
  AreHeld-there name role m [] h = tt
  AreHeld-there name role m (n ∷ names) ((r, at), h) =
      ((r, there at), AreHeld-there name role m names h)

  IsBefore-At :
      (name n : Text) (r : RoleConfig) (m : BTreeMap RoleConfig)
      → IsBefore name m
      → At (n, r) m
      → precedes name n ≡ true
  IsBefore-At name n r [] b at = elim at [ ]
  IsBefore-At name n r ((k, w) ∷ m) (first, b) (here e) =
      subst (λ x. precedes name x ≡ true) (sym (ap (λ x. x.0) e)) first
  IsBefore-At name n r ((k, w) ∷ m) (first, b) (there at) = IsBefore-At name n r m b at

  -- The names that are held come after a key that precedes the map's.
  AreHeld-precedes :
      (name : Text) (m : BTreeMap RoleConfig) (names : List Text)
      → IsBefore name m
      → AreHeld m names
      → All (λ later. precedes name later ≡ true) names
  AreHeld-precedes name m [] b h = tt
  AreHeld-precedes name m (n ∷ names) b ((r, at), h) =
      (IsBefore-At name n r m b at, AreHeld-precedes name m names b h)

  precedes-absent :
      (name : Text) (names : List Text)
      → All (λ later. precedes name later ≡ true) names
      → contains name names ≡ false
  precedes-absent name [] h = refl
  precedes-absent name (n ∷ names) (first, h) =
      ground (arith, precedes-differ name n first, precedes-absent name names h)

  module _ (m : BTreeMap RoleConfig) (token name : Text) (role : RoleConfig) (s : State)
      (b : IsBefore name m) (others : List Text) where
    abbrev after_first : State
    after_first = (validate_token_for_role json jwt env role token s).1

    IsJudged-listed :
        (c : ValidatedClaims V)
        → validate_token_for_role json jwt env role token s ≡ (ok c, after_first)
        → IsJudged m token after_first others
        → IsJudged ((name, role) ∷ m) token s (name ∷ others)
    IsJudged-listed c e j = record {
      ascending = (AreHeld-precedes name m others b j.held, j.ascending);
      held = ((role, here refl), AreHeld-there name role m others j.held);
      judged = (
        rw (reached_here m token name role s) (
            listed c after_first (here refl) e
              (validate_token_for_role-IsAccepted json jwt env role token s after_first c e)),
        AreVerdicts-there m m token name role s (name ∷ others) others b
            (λ n r t h v. IsVerdict-there token name n r t others h v) j.judged,
      );
    }

    IsJudged-omitted :
        (x : AuthzooError)
        → validate_token_for_role json jwt env role token s ≡ (err x, after_first)
        → IsJudged m token after_first others
        → IsJudged ((name, role) ∷ m) token s others
    IsJudged-omitted x e j = record {
      ascending = j.ascending;
      held = AreHeld-there name role m others j.held;
      judged = (
        rw (reached_here m token name role s) (
            omitted x after_first
              (precedes-absent name others (AreHeld-precedes name m others b j.held)) e),
        AreVerdicts-there m m token name role s others others b (λ n r t h v. v) j.judged,
      );
    }

    IsJudged-prepend :
        (r : Result AuthzooError (ValidatedClaims V) × State) (found : Option Text) (t : State)
        → validate_token_for_role json jwt env role token s ≡ r
        → named_if_ok json jwt env name r ≡ (ok found, t)
        → IsJudged m token t others
        → IsJudged ((name, role) ∷ m) token s (prepend found others)
    unfolding named_if_ok
    IsJudged-prepend (ok c, u) found t e h j =
        let same : t ≡ after_first = cc in
        let name_found : some name ≡ found = cc in
        subst (λ o. IsJudged ((name, role) ∷ m) token s (prepend o others)) name_found
          (IsJudged-listed c (cc) (subst (λ x. IsJudged m token x others) same j))
    IsJudged-prepend (err x, u) found t e h j =
        let same : t ≡ after_first = cc in
        let none_found : none ≡ found = cc in
        subst (λ o. IsJudged ((name, role) ∷ m) token s (prepend o others)) none_found
          (IsJudged-omitted x (cc) (subst (λ y. IsJudged m token y others) same j))
    IsJudged-prepend (panic, u) found t e h j = cc

  validate_roles-IsJudged :
      (m : BTreeMap RoleConfig) (token : Text) (s s' : State) (names : List Text)
      → IsSorted m
      → validate_roles json jwt env m token s ≡ (ok names, s')
      → IsJudged m token s names
  unfolding validate_roles
  validate_roles-IsJudged [] token s s' names sorted h =
      let none_listed : [] ≡ names = cc in
      subst (IsJudged [] token s) none_listed (record { ascending = tt; held = tt; judged = tt })
  validate_roles-IsJudged ((name, role) ∷ m) token s s' names (b, sorted) h =
      let (found, t, e, rest) = >>=-eq-ok _ _ s h in
      let (others, t', e', p) = >>=-eq-ok _ _ t rest in
      let all_listed : prepend found others ≡ names = cc in
      subst (IsJudged ((name, role) ∷ m) token s) all_listed (
        IsJudged-prepend m token name role s b others _ found t refl e
          (validate_roles-IsJudged m token t t' others sorted e'))

  -- When a validator built from the configured roles validates a token, the names that it lists are
  -- in strictly ascending order, each is the name under which it holds a role, and every role that it
  -- holds is judged by its own check of this run, which starts in the state that the checks of the
  -- roles before it left: its name is listed and that check accepted the token, or its name is not
  -- listed and that check ended in an error.
  pub validate-IsJudged :
      (roles : List RoleConfig) (v : TokenValidator) (token : Text) (s s' : State)
      (names : List Text)
      → new roles ≡ ok v
      → validate json jwt env v token s ≡ (ok names, s')
      → IsJudged v.roles token s names
  unfolding validate
  validate-IsJudged roles v token s s' names built h =
      validate_roles-IsJudged v.roles token s s' names (new-IsSorted roles v built) h
