-- ===== src/Validator/Safety.antt =====
-- Panics and the shared key cache under `validate` of authzoo/src/validator.rs.
use authzoo.Common.{
  ℕ, Bool, ◌≡◌, refl, sym, Option, none, some, [], ◌∷◌, Text, true, false, Result, ok, err, panic,
  Returns, arith, if◌then◌else◌,
}
use authzoo.Common.Maps.Tree.{BTreeMap}
use authzoo.Jwt.{Algorithm, Json, Jwt, Validation, ValidatedClaims}
use authzoo.Config.{RoleConfig, JwtAlgorithm, to_algorithm, allows_algorithm, algorithm_not_allowed}
use authzoo.Claims.{require_claims}
use authzoo.Config.{hs256}
use authzoo.Jwks.Fitting.{IsHandled}
use authzoo.World.{Environment, State, ask}
use authzoo.World.Logic.{IsSane, IsSafe-lift, IsSafe-expect, wrap-Returns}
use authzoo.Keys.Trust.{decoding_key_for_algorithm-Returns}
use authzoo.Discovery.Safety.{discovery_decoding_key-IsSafeThread}
use authzoo.Validator
use authzoo.Validator.{TokenValidator, with_role}
use authzoo.Tasks.{done, step}
use authzoo.Tasks.Rules.{Respects->>=, Respects-atomic, Yields}
use authzoo.Threads.{
  Thread, key_or_discover, named_if_ok, validate_allowed, validate_token_for_role, validate_roles,
}
use authzoo.Threads.Sequential.{validate_roles-Runs}
use authzoo.Threads.Rules.{IsSafeThread, IsSafeThread->>=, IsSafeThread-atomic, IsSafeThread-IsSafe}
use authzoo.Validator.Acceptance.{allows_algorithm-At}

to_algorithm-IsHandled : (j : JwtAlgorithm) → IsHandled (to_algorithm j)
unfolding to_algorithm
to_algorithm-IsHandled hs256 = tt
to_algorithm-IsHandled j = ground arith

with_role-Returns {ℓ} :
    {A : Type ℓ} (role : Text) (r : Result Text A) → Returns r → Returns (with_role role r)
with_role-Returns role (ok a) h = tt
with_role-Returns role (err e) h = tt
with_role-Returns role panic h = h

module _ {V K : Type 0} (json : Json V) (jwt : Jwt V K) (env : Environment) where
  require_claims-Returns :
      (c : ValidatedClaims V) (role : RoleConfig) → Returns (require_claims json c role.claims)
  unfolding require_claims
  require_claims-Returns c role = ground arith

  key_or_discover-IsSafeThread :
      (configured : Option Text) (role : RoleConfig) (token : Text) (a : Algorithm)
      → IsHandled a
      → IsSafeThread (key_or_discover env jwt configured role token a)
  unfolding key_or_discover
  key_or_discover-IsSafeThread none role token a h =
      discovery_decoding_key-IsSafeThread env jwt a h role token
  key_or_discover-IsSafeThread (some k) role token a h =
      IsSafeThread-atomic _
        (IsSafe-lift _ (wrap-Returns _ (decoding_key_for_algorithm-Returns jwt k a h)))

  named_if_ok-IsSafeThread :
      (name : Text) (t : Thread (ValidatedClaims V))
      → IsSafeThread t
      → IsSafeThread (named_if_ok name t)
  unfolding named_if_ok
  named_if_ok-IsSafeThread name (done (ok c)) h = tt
  named_if_ok-IsSafeThread name (done (err e)) h = tt
  named_if_ok-IsSafeThread name (done panic) h = h
  named_if_ok-IsSafeThread name (step write rest) h =
      λ s i. ((h s i).0, named_if_ok-IsSafeThread name (rest s) (h s i).1)

  module _
      (decode-Returns : (n : ℕ) (t : Text) (k : K) (w : Validation)
        → Returns (jwt.decode n t k w)) where
    -- A decoder that does not panic, asked for its result.
    decodes-Returns :
        (token : Text) (key : K) (w : Validation) (s : State)
        → IsSane s
        → IsSane (ask (λ n. jwt.decode n token key w) s).1
          × Yields Returns (ask (λ n. jwt.decode n token key w) s).0
    unfolding ask
    decodes-Returns token key w s sane = (sane, decode-Returns s.calls token key w)

    validate_allowed-IsSafeThread :
        (role : RoleConfig) (token : Text) (a : Algorithm)
        → IsHandled a
        → IsSafeThread (validate_allowed json jwt env role token a)
    unfolding validate_allowed
    validate_allowed-IsSafeThread role token a h =
        IsSafeThread->>= _ _ (key_or_discover-IsSafeThread role.validation_key role token a h)
          λ key.
            Respects->>= IsSane (Yields Returns) Returns _ _
              (Respects-atomic IsSane (Yields Returns) _ (decodes-Returns token key _))
              (λ decoded returned.
                IsSafeThread->>= _ _
                  (IsSafeThread-atomic _ (IsSafe-lift _ (with_role-Returns _ decoded returned)))
                  λ claims.
                    IsSafeThread->>= _ _
                      (IsSafeThread-atomic _ (IsSafe-lift _ (require_claims-Returns claims role)))
                      λ _. tt)
              (λ e _. tt) (λ p. p)

    pub validate_token_for_role-IsSafeThread :
        (role : RoleConfig) (token : Text)
        → IsSafeThread (validate_token_for_role json jwt env role token)
    unfolding validate_token_for_role
    validate_token_for_role-IsSafeThread role token =
        IsSafeThread->>= _ _ (IsSafeThread-atomic _ (IsSafe-expect (jwt.decode_header token) _))
          λ header. of_test header.alg (allows_algorithm role header.alg) refl
      where
        of_test :
            (a : Algorithm) (b : Bool)
            → allows_algorithm role a ≡ b
            → IsSafeThread (
                if b
                then validate_allowed json jwt env role token a
                else done (err (algorithm_not_allowed role.name a)))
        of_test a false e = tt
        of_test a true e =
            let (j, at, same) = allows_algorithm-At role a e in
            validate_allowed-IsSafeThread role token a (rw (sym same) (to_algorithm-IsHandled j))

    pub validate_roles-IsSafeThread :
        (m : BTreeMap RoleConfig) (token : Text)
        → IsSafeThread (validate_roles json jwt env m token)
    unfolding validate_roles
    validate_roles-IsSafeThread [] token = tt
    validate_roles-IsSafeThread ((name, role) ∷ m) token =
        IsSafeThread->>= _ _
          (named_if_ok-IsSafeThread name _ (validate_token_for_role-IsSafeThread role token))
          λ found. IsSafeThread->>= _ _ (validate_roles-IsSafeThread m token) λ names. tt

    -- In a sane state, and if the decoder does not panic, `validate` does not panic, and it leaves the
    -- key cache valid and its lock unpoisoned.
    pub validate-IsSafe :
        (v : TokenValidator) (token : Text) (s : State)
        → IsSane s
        → Returns (Validator.validate json jwt env v token s).0
          × IsSane (Validator.validate json jwt env v token s).1
    unfolding Validator.validate
    validate-IsSafe v token s sane =
        IsSafeThread-IsSafe _ _ (validate_roles-Runs json jwt env v.roles token)
          (validate_roles-IsSafeThread v.roles token) s sane
