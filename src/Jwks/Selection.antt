-- ===== src/Jwks/Selection.antt =====
-- Which key `select_jwk_for_token` of authzoo/src/discovery.rs takes.
use authzoo.Common.{
  ◌≡◌, ◌↔◌, inl, inr, Option, none, some, List, [], ◌∷◌, ◌++◌, Text, Result, ok, err, All,
  >>=-eq-ok, Succeeds, Returns, Option-cases, arith,
}
use authzoo.Jwt.{Algorithm, Jwk, JwkSet}
use authzoo.Config.{Failure, many_jwks_for_algorithm}
use authzoo.Jwks.{
  ensure_jwk_compatible, next_match, select_by_kid, select_by_algorithm, select_jwk_for_token,
}
use authzoo.Jwks.Fitting.{
  Fits, IsHandled, Fits-IsHandled, jwk_matches_algorithm_iff, jwk_matches_algorithm-Succeeds,
}
use authzoo.Jwks.Matching.{
  taken, passed, failed, panicked, verdict, next_match-none, next_match-some, next_match_of_none,
  next_match_of_first,
}

-- The only key of the set that fits.
pub record IsOnlyFit (keys : List Jwk) (a : Algorithm) (jwk : Jwk) : Type 0 where
  pub before : List Jwk
  pub after : List Jwk
  pub split : keys ≡ before ++ jwk ∷ after
  pub none_before : All (λ k. ¬ Fits k a) before
  pub fits : Fits jwk a
  pub none_after : All (λ k. ¬ Fits k a) after

-- The choice that a token's header asks for: with a key id, the key that `find` gives for it, if it
-- fits; without one, the only key of the set that fits.
abbrev pub IsChosen : (JwkSet → Text → Option Jwk) → JwkSet → Option Text → Algorithm → Jwk → Type 0
IsChosen find jwks (some kid) a jwk = (find jwks kid ≡ some jwk) × Fits jwk a
IsChosen find jwks none a jwk = IsOnlyFit jwks.keys a jwk

select_by_kid_iff :
    (find : JwkSet → Text → Option Jwk) (jwks : JwkSet) (kid : Text) (a : Algorithm) (jwk : Jwk)
    → (select_by_kid find jwks kid a ≡ ok jwk) ↔ ((find jwks kid ≡ some jwk) × Fits jwk a)
unfolding select_by_kid ensure_jwk_compatible
select_by_kid_iff find jwks kid a jwk = elim (Option-cases (find jwks kid)) [
  | inl missing ↦ rw (missing, select_by_kid) ((λ h. cc), λ h. cc (h.0))
  | inr (k, found) ↦ elim (verdict k a) [
    | taken f e ↦ ground (arith, jwk_matches_algorithm_iff jwk a)
    | passed n e ↦ ground (arith, jwk_matches_algorithm_iff jwk a)
    | failed x e ↦ ground (arith, jwk_matches_algorithm_iff jwk a)
    | panicked e ↦ ground (arith, jwk_matches_algorithm_iff jwk a)
  ]
]

-- The two steps of the choice without a key id.
record Steps (jwks : JwkSet) (a : Algorithm) (jwk : Jwk) : Type 0 where
  rest : List Jwk
  first : next_match a jwks.keys ≡ ok (some (jwk, rest))
  second : next_match a rest ≡ ok none

Steps-of :
    (jwks : JwkSet) (a : Algorithm) (jwk : Jwk) (found : Option (Jwk × List Jwk))
    → next_match a jwks.keys ≡ ok found
    → select_by_algorithm jwks a ≡ ok jwk
    → Steps jwks a jwk
unfolding select_by_algorithm
Steps-of jwks a jwk none e h = cc (h, e)
Steps-of jwks a jwk (some (k, rest)) e h =
    let (second, e', h') = >>=-eq-ok (next_match a rest) _ (rw e at h) in finish second e' h'
  where
    finish :
        (second : Option (Jwk × List Jwk))
        → next_match a rest ≡ ok second
        → elim second as (λ _. Result Failure Jwk) [
          | none ↦ ok k
          | some _ ↦ err (many_jwks_for_algorithm a)
        ]
          ≡ ok jwk
        → Steps jwks a jwk
    finish none e' h' = record { rest = rest; first = ground arith; second = e' }
    finish (some x) e' h' = cc

select_by_algorithm_sound :
    (jwks : JwkSet) (a : Algorithm) (jwk : Jwk)
    → select_by_algorithm jwks a ≡ ok jwk
    → IsOnlyFit jwks.keys a jwk
unfolding select_by_algorithm
select_by_algorithm_sound jwks a jwk h =
    let (found, e, _) = >>=-eq-ok (next_match a jwks.keys) _ h in
    let steps = Steps-of jwks a jwk found e h in
    let first = next_match-some a jwks.keys jwk steps.rest steps.first in
    record {
      before = first.before;
      after = steps.rest;
      split = first.split;
      none_before = first.none_before;
      fits = first.fits;
      none_after = next_match-none a steps.rest steps.second;
    }

select_by_algorithm_complete :
    (jwks : JwkSet) (a : Algorithm) (jwk : Jwk)
    → IsOnlyFit jwks.keys a jwk
    → select_by_algorithm jwks a ≡ ok jwk
unfolding select_by_algorithm
select_by_algorithm_complete jwks a jwk o =
    let handled = Fits-IsHandled jwk a o.fits in
    let first = next_match_of_first a o.before jwk o.after handled o.none_before o.fits in
    let second = next_match_of_none a o.after handled o.none_after in
    ground (arith, o.split, first, second)

-- `select_jwk_for_token` returns a key exactly when it is the one that the header asks for.
pub select_jwk_for_token_iff :
    (find : JwkSet → Text → Option Jwk) (jwks : JwkSet) (kid : Option Text) (a : Algorithm)
    (jwk : Jwk)
    → (select_jwk_for_token find jwks kid a ≡ ok jwk) ↔ IsChosen find jwks kid a jwk
unfolding select_jwk_for_token
select_jwk_for_token_iff find jwks (some kid) a jwk = select_by_kid_iff find jwks kid a jwk
select_jwk_for_token_iff find jwks none a jwk =
    (select_by_algorithm_sound jwks a jwk, select_by_algorithm_complete jwks a jwk)

pub ensure_jwk_compatible_iff :
    (jwk : Jwk) (a : Algorithm) → (ensure_jwk_compatible jwk a ≡ ok tt) ↔ Fits jwk a
unfolding ensure_jwk_compatible
ensure_jwk_compatible_iff jwk a = elim (verdict jwk a) [
  | taken f e ↦ ground (arith, jwk_matches_algorithm_iff jwk a)
  | passed n e ↦ ground (arith, jwk_matches_algorithm_iff jwk a)
  | failed x e ↦ ground (arith, jwk_matches_algorithm_iff jwk a)
  | panicked e ↦ ground (arith, jwk_matches_algorithm_iff jwk a)
]

-- Whatever it asks for, a chosen key fits.
pub select_jwk_for_token-Fits :
    (find : JwkSet → Text → Option Jwk) (jwks : JwkSet) (kid : Option Text) (a : Algorithm)
    (jwk : Jwk)
    → select_jwk_for_token find jwks kid a ≡ ok jwk
    → Fits jwk a
select_jwk_for_token-Fits find jwks (some kid) a jwk h =
    ((select_jwk_for_token_iff find jwks (some kid) a jwk).0 h).1
select_jwk_for_token-Fits find jwks none a jwk h =
    ((select_jwk_for_token_iff find jwks none a jwk).0 h).fits

pub ensure_jwk_compatible-Returns :
    (jwk : Jwk) (a : Algorithm) → IsHandled a → Returns (ensure_jwk_compatible jwk a)
unfolding ensure_jwk_compatible
ensure_jwk_compatible-Returns jwk a h = ground (arith, jwk_matches_algorithm-Succeeds jwk a h)

next_match-Succeeds : (a : Algorithm) (keys : List Jwk) → IsHandled a → Succeeds (next_match a keys)
unfolding next_match
next_match-Succeeds a [] h = tt
next_match-Succeeds a (k ∷ keys) h =
    ground (arith, jwk_matches_algorithm-Succeeds k a h, next_match-Succeeds a keys h)

select_by_algorithm-Returns :
    (jwks : JwkSet) (a : Algorithm) → IsHandled a → Returns (select_by_algorithm jwks a)
unfolding select_by_algorithm
select_by_algorithm-Returns jwks a h = grind (arith, next_match-Succeeds)

-- On a handled algorithm the choice does not panic.
pub select_jwk_for_token-Returns :
    (find : JwkSet → Text → Option Jwk) (jwks : JwkSet) (kid : Option Text) (a : Algorithm)
    → IsHandled a
    → Returns (select_jwk_for_token find jwks kid a)
unfolding select_jwk_for_token
select_jwk_for_token-Returns find jwks (some kid) a h = grind (arith, ensure_jwk_compatible-Returns)
select_jwk_for_token-Returns find jwks none a h = select_by_algorithm-Returns jwks a h
