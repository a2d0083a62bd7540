-- ===== src/Validator/Completeness.antt =====
-- Tokens that `validate_token_for_role` of authzoo/src/validator.rs cannot refuse, and exactly which
-- it accepts for a role with a configured key.
use mathlib.Core.Path.{subst}
use authzoo.Common.{
  ℕ, suc, ◌≡◌, refl, sym, ap, ◌∙◌, ◌↔◌, inl, inr, Bool-cases, true, Option, none, some, Text,
  any_complete, At, All, ok, ◌==◌,
}
use authzoo.Jwt.{Algorithm, algorithm_eq, Header, Json, Jwt, ValidatedClaims}
use authzoo.Config.{JwtAlgorithm, RoleConfig, Failure, allows_algorithm, to_algorithm}
use authzoo.Claims.Required.{Meets, require_claims_iff}
use authzoo.Jwks.Fitting.{family}
use authzoo.Keys.{resolving_decoding_key, key_or_discover, decoding_key_for_algorithm}
use authzoo.Keys.Trust.{IsKeyOf, decoding_key_for_algorithm_iff}
use authzoo.World.{Environment, State, ask, ◌>>=◌, >>=-eq-ok, expect, wrap}
use authzoo.World.Logic.{wrap-eq-ok}
use authzoo.Validator.{validate_allowed, validate_token_for_role}
use authzoo.Validator.Acceptance.{allows_algorithm-At, with_role-eq-ok}

allows_algorithm-listed :
    (role : RoleConfig) (a : Algorithm) (j : JwtAlgorithm)
    → At j role.algorithms
    → to_algorithm j ≡ a
    → allows_algorithm role a ≡ true
unfolding allows_algorithm
allows_algorithm-listed role a j at e =
    any_complete (λ i. to_algorithm i == a) at ((algorithm_eq.eqb_iff (to_algorithm j) a).1 e)

expect-eq-ok :
    {A : Type 0} (o : Option A) (e : Failure) {a : A} {s t : State}
    → expect o e s ≡ (ok a, t)
    → (o ≡ some a) × (s ≡ t)
expect-eq-ok none e h = cc
expect-eq-ok (some b) e h = (cc, cc)

module _ {V K : Type 0} (json : Json V) (jwt : Jwt V K) (env : Environment) where
  -- A token is accepted if its header can be read and names an algorithm that the role allows, a key
  -- is found for it, the decoder verifies it with that key for the role's audience and issuer, and
  -- the claims meet the role's. The state is that after the key was found and the clock was read.
  pub validate_token_for_role_complete :
      (role : RoleConfig) (token : Text) (s t : State) (header : Header) (j : JwtAlgorithm)
      (key : K) (claims : ValidatedClaims V)
      → jwt.decode_header token ≡ some header
      → At j role.algorithms
      → to_algorithm j ≡ header.alg
      → resolving_decoding_key jwt env role token header.alg s ≡ (ok key, t)
      → jwt.decode t.calls token key
          (record { algorithm = header.alg; audience = role.audience; issuer = role.issuer })
        ≡ ok claims
      → All (Meets json claims) role.claims
      → validate_token_for_role json jwt env role token s
        ≡ (ok claims, record t { calls = suc t.calls })
  unfolding validate_token_for_role validate_allowed ◌>>=◌ ask
  validate_token_for_role_complete role token s t header j key claims read at is found verified
        met =
      rw
        (
          read,
          allows_algorithm-listed role header.alg j at is,
          found,
          verified,
          (require_claims_iff json claims role.claims).1 met,
        )
        refl

  -- A token that the configured key verifies, by a decoder that is called at this time.
  pub record IsValidFor (role : RoleConfig) (validation_key token : Text) (call : ℕ)
      (claims : ValidatedClaims V) : Type 0 where
    pub header : Header
    pub read : jwt.decode_header token ≡ some header
    pub allowed : (j : JwtAlgorithm) × At j role.algorithms × (to_algorithm j ≡ header.alg)
    pub key : K
    pub own : IsKeyOf jwt validation_key key (family header.alg)
    pub verified :
        jwt.decode call token key
          (record { algorithm = header.alg; audience = role.audience; issuer = role.issuer })
        ≡ ok claims
    pub met : All (Meets json claims) role.claims

  resolving_decoding_key-configured :
      (role : RoleConfig) (validation_key token : Text) (a : Algorithm) (s : State)
      → role.validation_key ≡ some validation_key
      → resolving_decoding_key jwt env role token a s
        ≡ (wrap (decoding_key_for_algorithm jwt validation_key a), s)
  unfolding resolving_decoding_key key_or_discover
  resolving_decoding_key-configured role k token a s configured = rw configured refl

  validate_allowed-IsValidFor :
      (role : RoleConfig) (validation_key token : Text) (header : Header) (s s' : State)
      (claims : ValidatedClaims V)
      → role.validation_key ≡ some validation_key
      → jwt.decode_header token ≡ some header
      → allows_algorithm role header.alg ≡ true
      → validate_allowed json jwt env role token header.alg s ≡ (ok claims, s')
      → IsValidFor role validation_key token s.calls claims
  unfolding validate_allowed ask
  validate_allowed-IsValidFor role k token header s s' claims configured read allowed h =
      let (key, t, found, h1) = >>=-eq-ok _ _ s h in
      let (decoded, t', asked, h2) = >>=-eq-ok _ _ t h1 in
      let (c, t'', lifted, h3) = >>=-eq-ok _ _ t' h2 in
      let (u, t''', met, h4) = >>=-eq-ok _ _ t'' h3 in
      let own = resolving_decoding_key-configured role k token header.alg s configured in
      let same : s ≡ t = cc in
      let returned : c ≡ claims = cc in
      subst (IsValidFor role k token s.calls) returned (record {
        header = header;
        read = read;
        allowed = allows_algorithm-At role header.alg allowed;
        key = key;
        own =
            (decoding_key_for_algorithm_iff jwt k header.alg key).0
              (wrap-eq-ok (decoding_key_for_algorithm jwt k header.alg) (cc));
        verified = with_role-eq-ok role.name _ (cc);
        met = (require_claims_iff json c role.claims).0 (cc);
      })

  validate_token_for_role-IsValidFor :
      (role : RoleConfig) (validation_key token : Text) (s s' : State) (claims : ValidatedClaims V)
      → role.validation_key ≡ some validation_key
      → validate_token_for_role json jwt env role token s ≡ (ok claims, s')
      → IsValidFor role validation_key token s.calls claims
  unfolding validate_token_for_role
  validate_token_for_role-IsValidFor role k token s s' claims configured h =
      let (header, t, read, h1) = >>=-eq-ok (expect (jwt.decode_header token) _) _ s h in
      let (found, same) = expect-eq-ok (jwt.decode_header token) _ read in
      elim (Bool-cases (allows_algorithm role header.alg)) [
        | inl allowed ↦
            subst (λ x. IsValidFor role k token x.calls claims) (sym same)
              (validate_allowed-IsValidFor role k token header t s' claims configured found allowed
                (rw allowed at h1))
        | inr refused ↦ cc (rw refused at h1)
      ]

  -- For a role with a configured key, `validate_token_for_role` accepts a token with these claims
  -- exactly if the header can be read and names an algorithm that the role allows, the configured key
  -- reads as one for that algorithm's family, the decoder, called with it for the role's audience and
  -- issuer, returns the claims, and they meet those that the role requires.
  pub validate_token_for_role_iff :
      (role : RoleConfig) (validation_key token : Text) (s : State) (claims : ValidatedClaims V)
      → role.validation_key ≡ some validation_key
      → ((validate_token_for_role json jwt env role token s).0 ≡ ok claims)
        ↔ IsValidFor role validation_key token s.calls claims
  validate_token_for_role_iff role k token s claims configured = (
    λ h.
        validate_token_for_role-IsValidFor role k token s
          (validate_token_for_role json jwt env role token s).1 claims configured
          (ap (λ r. (r, (validate_token_for_role json jwt env role token s).1)) h),
    λ v.
        let (j, at, is) = v.allowed in
        let found = (decoding_key_for_algorithm_iff jwt k v.header.alg v.key).1 v.own in
        ap (λ r. r.0)
          (validate_token_for_role_complete role token s s v.header j v.key claims v.read at is
            (resolving_decoding_key-configured role k token v.header.alg s configured
              ∙ ap (λ r. (wrap r, s)) found)
            v.verified v.met),
  )
