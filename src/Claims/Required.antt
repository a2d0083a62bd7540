-- ===== src/Claims/Required.antt =====
-- The requirements of a role on the claims of a token (authzoo/src/claims.rs).
use authzoo.Common.{
  ◌≡◌, refl, ap, ◌⊎◌, ◌≢◌, ◌↔◌, inl, inr, Bool-cases, true, some, [], ◌∷◌, ◌++◌, Text, text,
  text_beq, text_beq_iff, ok, err, All, At, arith,
}
use authzoo.Common.Maps.Tree
use authzoo.Common.Maps.Tree.{BTreeMap}
use authzoo.Jwt.{Json, ValidatedClaims}
use mathlib.Core.Option.{some-injective}
use authzoo.Config.{matches, ClaimRequirement, AuthzooError, missing_claim}
use authzoo.Config.Acceptance.{Accepts, listed, matches_iff, matches_value_iff}
use authzoo.Claims.{satisfies, first_missing_required_claim, require_claims}

matches-subject_iff :
    (r : ClaimRequirement) (s : Text) → (matches r (some s) ≡ true) ↔ At s (listed r)
matches-subject_iff r s = (
  λ h. let (t, at, e) = (matches_iff r (some s)).0 h in rw (some-injective s t e) at,
  λ at. (matches_iff r (some s)).1 (s, at, refl),
)

module _ {V : Type 0} (json : Json V) where
  -- What a requirement wants of the claims: of the subject one of the listed texts; of any other
  -- claim that it is accepted.
  abbrev pub Meets : ValidatedClaims V → Text × ClaimRequirement → Type 0
  Meets c (claim, r) =
      ((claim ≡ text "sub") × At c.sub (listed r))
      ⊎ ((claim ≢ text "sub") × Accepts json r (Tree.get claim c.claims))

  satisfies_iff :
      (c : ValidatedClaims V) (claim : Text) (r : ClaimRequirement)
      → (satisfies json c claim r ≡ true) ↔ Meets c (claim, r)
  unfolding satisfies
  satisfies_iff c claim r = elim (Bool-cases (text_beq claim (text "sub"))) [
    | inl is_sub ↦
        let e : claim ≡ text "sub" = (text_beq_iff claim (text "sub")).0 is_sub in
        rw (is_sub, satisfies)
          (
            λ h. inl (e, (matches-subject_iff r c.sub).0 h),
            λ m.
                (matches-subject_iff r c.sub).1
                  (elim m [ inl (_, at) ↦ at | inr (other, _) ↦ absurd (other e) ]),
          )
    | inr not_sub ↦
        let n : claim ≢ text "sub" = λ e. cc ((text_beq_iff claim (text "sub")).1 e, not_sub) in
        rw (not_sub, satisfies)
          (
            λ h. inr (n, (matches_value_iff json r (Tree.get claim c.claims)).0 h),
            λ m.
                (matches_value_iff json r (Tree.get claim c.claims)).1
                  (elim m [ inl (e, _) ↦ absurd (n e) | inr (_, accepted) ↦ accepted ]),
          )
  ]

  -- Where `require_claims` stops.
  pub record FirstUnmet (c : ValidatedClaims V) (m : BTreeMap ClaimRequirement) (e : AuthzooError)
      : Type 0 where
    pub before : BTreeMap ClaimRequirement
    pub entry : Text × ClaimRequirement
    pub after : BTreeMap ClaimRequirement
    pub split : m ≡ before ++ entry ∷ after
    pub met : All (Meets c) before
    pub unmet : ¬ Meets c entry
    pub named : e ≡ missing_claim entry.0 entry.1

  -- `require_claims` passes exactly when every required claim is met.
  pub require_claims_iff :
      (c : ValidatedClaims V) (m : BTreeMap ClaimRequirement)
      → (require_claims json c m ≡ ok tt) ↔ All (Meets c) m
  unfolding require_claims first_missing_required_claim
  require_claims_iff c [] = ground arith
  require_claims_iff c ((claim, r) ∷ m) =
      ground (arith, satisfies_iff c claim r, require_claims_iff c m)

  -- An error of `require_claims` names the first requirement, in the order of the claim names,
  -- that is not met.
  pub require_claims-FirstUnmet :
      (c : ValidatedClaims V) (m : BTreeMap ClaimRequirement) (e : AuthzooError)
      → require_claims json c m ≡ err e
      → FirstUnmet c m e
  unfolding require_claims first_missing_required_claim
  require_claims-FirstUnmet c [] e h = cc
  require_claims-FirstUnmet c ((claim, r) ∷ m) e h = elim (Bool-cases (satisfies json c claim r)) [
    | inl sat ↦
        let f : FirstUnmet c m e = require_claims-FirstUnmet c m e (ground arith) in
        record {
          before = (claim, r) ∷ f.before;
          entry = f.entry;
          after = f.after;
          split = ap (◌∷◌ (claim, r)) f.split;
          met = ((satisfies_iff c claim r).0 sat, f.met);
          unmet = f.unmet;
          named = f.named;
        }
    | inr missed ↦ record {
      before = [];
      entry = (claim, r);
      after = m;
      split = refl;
      met = tt;
      unmet = λ w. ground (arith, satisfies_iff c claim r);
      named = ground arith;
    }
  ]
