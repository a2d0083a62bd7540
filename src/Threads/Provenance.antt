-- ===== src/Threads/Provenance.antt =====
-- What the threads return that share the key cache of authzoo/src/discovery.rs, in every order of
-- their steps.
use mathlib.Core.Path.{subst}
use authzoo.Common.{ℕ, ◌≡◌, refl, sym, Option, none, some, List, Text, At, err}
use authzoo.Common.Maps.Tree
use authzoo.Jwt.{Json, Jwt, Jwk, JwkSet}
use authzoo.Config.{RoleConfig, unknown_role}
use authzoo.World.{Environment, State}
use authzoo.World.Triples.{Post}
use authzoo.Discovery.Sources.{IsSourced}
use authzoo.Validator.{TokenValidator}
use authzoo.Validator.Provenance.{
  IsVerified, AreBacked, validate_token_for_role-Makes, validate_roles-Makes,
}
use authzoo.Tasks.{done, interleave, EndWell}
use authzoo.Tasks.Rules.{interleave-EndWell}
use authzoo.Threads.{
  Request, validating_for_role, validating, Answer, accepted, named, validate_token_for_role,
  validate_for_role, validate, serve, threads,
}
use authzoo.Threads.Rules.{Makes, Makes->>=, Makes-map}

module _ {V K : Type 0} (json : Json V) (jwt : Jwt V K) (env : Environment)
    (finds : (jwks : JwkSet) (id : Text) (jwk : Jwk)
      → jwt.find jwks id ≡ some jwk
      → At jwk jwks.keys) where
  -- The claims are of a token that the role's own key verified; the names are of such roles.
  abbrev pub IsJustified : Request → Answer V → Type 0
  IsJustified (validating_for_role v role_name token) (accepted claims) =
      (role : RoleConfig) × (Tree.get role_name v.roles ≡ some role)
      × IsVerified json jwt env finds role token claims
  IsJustified (validating_for_role v role_name token) (named names) = ⊥
  IsJustified (validating v token) (named names) = AreBacked json jwt env finds v.roles token names
  IsJustified (validating v token) (accepted claims) = ⊥

  abbrev IsSourcedState : State → Type 0
  IsSourcedState s = IsSourced env s.cache

  validate_for_role-Makes :
      (v : TokenValidator) (role_name token : Text)
      → Makes
          (IsSourced env)
          (λ claims. IsJustified (validating_for_role v role_name token) (accepted claims))
          (validate_for_role json jwt env v role_name token)
  unfolding validate_for_role
  validate_for_role-Makes v role_name token = of_role (Tree.get role_name v.roles) refl
    where
      of_role :
          (found : Option RoleConfig)
          → Tree.get role_name v.roles ≡ found
          → Makes
              (IsSourced env)
              (λ claims. IsJustified (validating_for_role v role_name token) (accepted claims))
              (elim found [
                | none ↦ done (err (unknown_role role_name))
                | some role ↦ validate_token_for_role json jwt env role token
              ])
      of_role none e = tt
      of_role (some role) e =
          Makes-map (IsSourced env) (IsVerified json jwt env finds role token)
            (λ claims. IsJustified (validating_for_role v role_name token) (accepted claims))
            (validate_token_for_role json jwt env role token)
            (λ claims verified. (role, e, verified))
            (validate_token_for_role-Makes json jwt env finds role token)

  pub serve-Makes :
      (request : Request) → Makes (IsSourced env) (IsJustified request) (serve json jwt env request)
  unfolding serve validate
  serve-Makes (validating_for_role v role_name token) =
      Makes->>= (IsSourced env)
        (λ claims. IsJustified (validating_for_role v role_name token) (accepted claims))
        (IsJustified (validating_for_role v role_name token)) _ _
        (validate_for_role-Makes v role_name token) λ claims justified. justified
  serve-Makes (validating v token) =
      Makes->>= (IsSourced env) (AreBacked json jwt env finds v.roles token)
        (IsJustified (validating v token)) _ _
        (validate_roles-Makes json jwt env finds v.roles token) λ names backed. backed

  -- However the steps of the threads of a process are ordered that validate tokens, from its start
  -- without a key cache on: a thread whose `validate_for_role` returned claims had a token that the
  -- role's own key verified, of an algorithm that the role allows and with claims that meet those
  -- that the role requires, and so had one whose `validate` returned names, for each name. The own
  -- key is the one that the role configures, or else one read from a JWK in a key set that was
  -- fetched, by this thread or another, from the address that the OpenID configuration of the role's
  -- own issuer names. It relies on `find` to return a key of the set.
  pub interleave-IsJustified :
      (requests : List Request) (schedule : List ℕ) (s : State)
      → s.cache ≡ none
      → EndWell
          (λ request. Post (IsJustified request))
          requests
          (interleave schedule (threads json jwt env requests) s).0
  interleave-IsJustified requests schedule s started =
      (interleave-EndWell IsSourcedState (λ q. Post (IsJustified q)) (serve json jwt env) schedule
        requests s serve-Makes (subst (IsSourced env) (sym started) tt)).1
