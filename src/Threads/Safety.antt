-- ===== src/Threads/Safety.antt =====
-- Panics and the key cache that the callers of authzoo/src/validator.rs share, in every order of
-- their steps.
use authzoo.Common.{ℕ, Option, none, some, List, Text, Result, Returns, err}
use authzoo.Common.Maps.Tree
use authzoo.Jwt.{Json, Jwt, Validation}
use authzoo.Config.{RoleConfig, AuthzooError, unknown_role}
use authzoo.World.{Environment, State}
use authzoo.World.Logic.{IsSane}
use authzoo.Validator.{TokenValidator}
use authzoo.Validator.Safety.{validate_token_for_role-IsSafeThread, validate_roles-IsSafeThread}
use authzoo.Tasks.{done, interleave, EndWell}
use authzoo.Tasks.Rules.{interleave-EndWell}
use authzoo.Threads.{
  Request, validating_for_role, validating, Answer, validate_token_for_role, validate_for_role,
  validate, serve, threads,
}
use authzoo.Threads.Rules.{IsSafeThread, IsSafeThread->>=}

module _ {V K : Type 0} (json : Json V) (jwt : Jwt V K) (env : Environment)
    (decode-Returns : (n : ℕ) (t : Text) (k : K) (w : Validation)
      → Returns (jwt.decode n t k w)) where
  validate_for_role-IsSafeThread :
      (v : TokenValidator) (role_name token : Text)
      → IsSafeThread (validate_for_role json jwt env v role_name token)
  unfolding validate_for_role
  validate_for_role-IsSafeThread v role_name token = of_role (Tree.get role_name v.roles)
    where
      of_role :
          (found : Option RoleConfig)
          → IsSafeThread (elim found [
            | none ↦ done (err (unknown_role role_name))
            | some role ↦ validate_token_for_role json jwt env role token
          ])
      of_role none = tt
      of_role (some role) =
          validate_token_for_role-IsSafeThread json jwt env decode-Returns role token

  serve-IsSafeThread : (request : Request) → IsSafeThread (serve json jwt env request)
  unfolding serve validate
  serve-IsSafeThread (validating_for_role v role_name token) =
      IsSafeThread->>= _ _ (validate_for_role-IsSafeThread v role_name token) λ claims. tt
  serve-IsSafeThread (validating v token) =
      IsSafeThread->>= _ _ (validate_roles-IsSafeThread json jwt env decode-Returns v.roles token)
        λ names. tt

  -- Whatever request it serves.
  abbrev pub AnyReturns : Request → Result AuthzooError (Answer V) → Type 0
  AnyReturns request r = Returns r

  -- However the steps of the threads of a process are ordered that validate tokens, from a sane
  -- state and if the decoder does not panic: no thread ends in a panic, and after the steps the key
  -- cache is valid and no panic has poisoned its lock.
  pub interleave-IsSane :
      (requests : List Request) (schedule : List ℕ) (s : State)
      → IsSane s
      → IsSane (interleave schedule (threads json jwt env requests) s).1
        × EndWell AnyReturns requests (interleave schedule (threads json jwt env requests) s).0
  interleave-IsSane requests schedule s sane =
      interleave-EndWell IsSane AnyReturns (serve json jwt env) schedule requests s
        serve-IsSafeThread sane
