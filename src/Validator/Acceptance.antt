-- ===== src/Validator/Acceptance.antt =====
-- Which tokens `validate_token_for_role` of authzoo/src/validator.rs accepts.
use authzoo.Common.{
  ℕ, ◌≡◌, ◌∙◌, inl, inr, Bool-cases, true, some, Text, any_sound, At, All, Result, ok, err, panic,
  ◌==◌, if◌then◌else◌,
}
use authzoo.Jwt.{Algorithm, algorithm_eq, Header, Json, Jwt, Validation, ValidatedClaims}
use authzoo.Config.{JwtAlgorithm, RoleConfig, allows_algorithm, to_algorithm, algorithm_not_allowed}
use authzoo.Claims.{require_claims}
use authzoo.Claims.Required.{Meets, require_claims_iff}
use authzoo.Keys.Trust.{IsTrusted, resolving_decoding_key-IsTrusted}
use authzoo.World.{Environment, State, fail}
use authzoo.World.Logic.{
  Ensures, Ensures->>=, Ensures-ask, Ensures-lift, Ensures-expect, holds_of_ok,
}
use authzoo.Validator.{with_role, validate_allowed, validate_token_for_role}

-- `allows_algorithm` asks for an algorithm of the list.
pub allows_algorithm-At :
    (role : RoleConfig) (a : Algorithm)
    → allows_algorithm role a ≡ true
    → (j : JwtAlgorithm) × At j role.algorithms × (to_algorithm j ≡ a)
unfolding allows_algorithm
allows_algorithm-At role a h =
    let (j, at, e) = any_sound (λ j. to_algorithm j == a) role.algorithms h in
    (j, at, (algorithm_eq.eqb_iff (to_algorithm j) a).0 e)

pub with_role-eq-ok :
    {A : Type 0} (role : Text) (r : Result Text A) {a : A} → with_role role r ≡ ok a → r ≡ ok a
with_role-eq-ok role (ok a) h = cc
with_role-eq-ok role (err e) h = cc
with_role-eq-ok role panic h = cc

module _ {V K : Type 0} (json : Json V) (jwt : Jwt V K) (env : Environment) where
  -- A token that a role accepts, with these claims: its algorithm is one that the role allows, a
  -- trusted key verifies it for the role's audience and issuer, and its claims meet the role's.
  pub record IsAccepted (role : RoleConfig) (token : Text) (claims : ValidatedClaims V)
      : Type 0 where
    pub header : Header
    pub read : jwt.decode_header token ≡ some header
    pub allowed : (j : JwtAlgorithm) × At j role.algorithms × (to_algorithm j ≡ header.alg)
    pub key : K
    pub trusted : IsTrusted jwt role.validation_key header.alg key
    pub call : ℕ
    pub verified :
        jwt.decode call token key
          (record { algorithm = header.alg; audience = role.audience; issuer = role.issuer })
        ≡ ok claims
    pub met : All (Meets json claims) role.claims

  abbrev validation_for : RoleConfig → Algorithm → Validation
  validation_for role a = record { algorithm = a; audience = role.audience; issuer = role.issuer }

  -- What the part after the algorithm list makes sure of.
  record IsVerified (role : RoleConfig) (token : Text) (a : Algorithm) (claims : ValidatedClaims V)
      : Type 0 where
    key : K
    trusted : IsTrusted jwt role.validation_key a key
    call : ℕ
    verified : jwt.decode call token key (validation_for role a) ≡ ok claims
    met : All (Meets json claims) role.claims

  validate_allowed-IsVerified :
      (role : RoleConfig) (token : Text) (a : Algorithm)
      → Ensures (IsVerified role token a) (validate_allowed json jwt env role token a)
  unfolding validate_allowed
  validate_allowed-IsVerified role token a =
      Ensures->>= (IsTrusted jwt role.validation_key a) _ _ _
        (resolving_decoding_key-IsTrusted jwt env role token a)
        λ key trusted.
          Ensures->>= _ _ _ _ (Ensures-ask (λ n. jwt.decode n token key (validation_for role a)))
            λ decoded (call, answered).
              Ensures->>= _ _ _ _ (Ensures-lift (with_role role.name decoded)) λ claims found.
                Ensures->>= _ _ _ _ (Ensures-lift (require_claims json claims role.claims)) λ _ met.
                  λ s s' c h. holds_of_ok (IsVerified role token a) h (record {
                    key = key;
                    trusted = trusted;
                    call = call;
                    verified = answered ∙ with_role-eq-ok role.name decoded found;
                    met = (require_claims_iff json claims role.claims).0 met;
                  })

  -- What `validate_token_for_role` returns is accepted: no path around the algorithm list, the
  -- key, the registered claims or the role's claims.
  pub validate_token_for_role-IsAccepted :
      (role : RoleConfig) (token : Text) (s s' : State) (claims : ValidatedClaims V)
      → validate_token_for_role json jwt env role token s ≡ (ok claims, s')
      → IsAccepted role token claims
  unfolding validate_token_for_role
  validate_token_for_role-IsAccepted role token s s' claims h = accepted s s' claims h
    where
      checked :
          (header : Header)
          → jwt.decode_header token ≡ some header
          → Ensures (IsAccepted role token) (
              if allows_algorithm role header.alg
              then validate_allowed json jwt env role token header.alg
              else fail (algorithm_not_allowed role.name header.alg))
      checked header read s s' claims h = elim (Bool-cases (allows_algorithm role header.alg)) [
        | inl allowed ↦
            let v =
              validate_allowed-IsVerified role token header.alg s s' claims (rw allowed at h) in
            record {
              header = header;
              read = read;
              allowed = allows_algorithm-At role header.alg allowed;
              key = v.key;
              trusted = v.trusted;
              call = v.call;
              verified = v.verified;
              met = v.met;
            }
        | inr refused ↦ cc (rw refused at h)
      ]

      accepted : Ensures (IsAccepted role token) (validate_token_for_role json jwt env role token)
      accepted =
          Ensures->>= _ (IsAccepted role token) _ _ (Ensures-expect (jwt.decode_header token) _)
            checked
