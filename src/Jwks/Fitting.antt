-- ===== src/Jwks/Fitting.antt =====
-- Which keys fit an algorithm: `jwk_matches_algorithm` of authzoo/src/discovery.rs.
use authzoo.Common.{
  ◌≡◌, refl, ap, ◌↔◌, ◌⊎◌, inl, inr, Bool-cases, Bool, true, false, Option, none, some, Result, ok,
  ◌>>=◌, >>=-eq-ok, Succeeds, Option-cases, arith, if◌then◌else◌, ◌==◌,
}
use mathlib.Core.Option.{some-injective}
use authzoo.Jwt.{
  Algorithm, hs256, hs384, hs512, es256, es384, ed_dsa, unhandled, KeyAlgorithm, key_algorithm_eq,
  PublicKeyUse, signature, AlgorithmParameters, octet_key, rsa, elliptic_curve, octet_key_pair, Jwk,
}
use authzoo.Config.{Failure}
use authzoo.Jwks.{
  key_algorithm_for_algorithm, key_algorithm_matches, key_type_matches, is_other_use,
  jwk_matches_algorithm,
}

-- The algorithms that the code handles.
abbrev pub IsHandled : Algorithm → Type 0
IsHandled (unhandled n) = ⊥
IsHandled a = Unit

pub data Family : Type 0 where
  hmac rsa_keys elliptic edwards : Family

abbrev pub family : Algorithm → Option Family
family hs256 = some hmac
family hs384 = some hmac
family hs512 = some hmac
family es256 = some elliptic
family es384 = some elliptic
family ed_dsa = some edwards
family (unhandled n) = none
family a = some rsa_keys

abbrev pub family_of_key : AlgorithmParameters → Family
family_of_key (octet_key _) = hmac
family_of_key (rsa _) = rsa_keys
family_of_key (elliptic_curve _) = elliptic
family_of_key (octet_key_pair _) = edwards

-- A key that may verify a signature of the algorithm: it is for signatures or says no use, it is
-- for this algorithm or names none, and it is a key of the algorithm's family.
pub record Fits (jwk : Jwk) (algorithm : Algorithm) : Type 0 where
  pub signs : (jwk.common.public_key_use ≡ none) ⊎ (jwk.common.public_key_use ≡ some signature)
  pub intended :
      (jwk.common.key_algorithm ≡ none)
      ⊎ ((k : KeyAlgorithm) × (jwk.common.key_algorithm ≡ some k)
          × (key_algorithm_for_algorithm algorithm ≡ ok k))
  pub typed : family algorithm ≡ some (family_of_key jwk.algorithm)

key_type_matches_iff :
    (p : AlgorithmParameters) (a : Algorithm)
    → (key_type_matches p a ≡ ok true) ↔ (family a ≡ some (family_of_key p))
unfolding key_type_matches
key_type_matches_iff p a = ground arith

key_algorithm_matches_iff :
    (jwk : Jwk) (a : Algorithm)
    → (key_algorithm_matches jwk a ≡ ok true) ↔ (
        (jwk.common.key_algorithm ≡ none)
        ⊎ ((k : KeyAlgorithm) × (jwk.common.key_algorithm ≡ some k)
            × (key_algorithm_for_algorithm a ≡ ok k)))
unfolding key_algorithm_matches
key_algorithm_matches_iff jwk a = elim (Option-cases jwk.common.key_algorithm) [
  | inl unnamed ↦ rw (unnamed, key_algorithm_matches) ((λ _. inl refl), λ _. refl)
  | inr (k, named) ↦
      rw (named, key_algorithm_matches)
        (
          λ h.
              let (w, wanted, same) =
                >>=-eq-ok (key_algorithm_for_algorithm a) (λ w. ok (k == w)) h in
              inr (k, refl, ground (arith, key_algorithm_eq.eqb_iff k w)),
          λ h. elim h [
            | inl e ↦ cc
            | inr (w, e, n) ↦
                rw (n, ◌>>=◌) (ap ok ((key_algorithm_eq.eqb_iff k w).1 (some-injective k w e)))
          ],
        )
]

both_true :
    (b : Bool) (r : Result Failure Bool)
    → (if b then r else ok false) ≡ ok true
    → (b ≡ true) × (r ≡ ok true)
both_true true r h = (refl, h)
both_true false r h = cc

is_other_use_iff :
    (u : Option PublicKeyUse) → (is_other_use u ≡ false) ↔ ((u ≡ none) ⊎ (u ≡ some signature))
is_other_use_iff u = ground arith

-- `jwk_matches_algorithm` accepts exactly the keys that fit.
pub jwk_matches_algorithm_iff :
    (jwk : Jwk) (a : Algorithm) → (jwk_matches_algorithm jwk a ≡ ok true) ↔ Fits jwk a
unfolding jwk_matches_algorithm
jwk_matches_algorithm_iff jwk a = elim (Bool-cases (is_other_use jwk.common.public_key_use)) [
  | inl other ↦ rw (other, jwk_matches_algorithm) ((λ h. cc), λ f. ground (arith, f.signs))
  | inr fine ↦
      rw (fine, jwk_matches_algorithm)
        (
          λ h.
              let (b, e, rest) = >>=-eq-ok (key_algorithm_matches jwk a) _ h in
              let (b_true, typed) = both_true b _ rest in
              record {
                signs = (is_other_use_iff jwk.common.public_key_use).0 fine;
                intended = (key_algorithm_matches_iff jwk a).0 (rw b_true at e);
                typed = (key_type_matches_iff jwk.algorithm a).0 typed;
              },
          λ f.
              rw ((key_algorithm_matches_iff jwk a).1 f.intended)
                ((key_type_matches_iff jwk.algorithm a).1 f.typed),
        )
]

key_algorithm_for_algorithm-Succeeds :
    (a : Algorithm) → IsHandled a → Succeeds (key_algorithm_for_algorithm a)
unfolding key_algorithm_for_algorithm
key_algorithm_for_algorithm-Succeeds hs256 h = tt
key_algorithm_for_algorithm-Succeeds a h = ground arith

key_type_matches-Succeeds :
    (p : AlgorithmParameters) (a : Algorithm) → IsHandled a → Succeeds (key_type_matches p a)
unfolding key_type_matches
key_type_matches-Succeeds p hs256 h = tt
key_type_matches-Succeeds p a h = ground arith

-- On a handled algorithm the test neither fails nor panics.
pub jwk_matches_algorithm-Succeeds :
    (jwk : Jwk) (a : Algorithm) → IsHandled a → Succeeds (jwk_matches_algorithm jwk a)
unfolding jwk_matches_algorithm key_algorithm_matches
jwk_matches_algorithm-Succeeds jwk a h =
    ground
      (arith, key_algorithm_for_algorithm-Succeeds a h, key_type_matches-Succeeds jwk.algorithm a h)

pub Fits-IsHandled : (jwk : Jwk) (a : Algorithm) → Fits jwk a → IsHandled a
Fits-IsHandled jwk a f = ground (arith, f.typed)
