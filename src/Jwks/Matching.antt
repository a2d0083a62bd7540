-- ===== src/Jwks/Matching.antt =====
-- How `select_by_algorithm` of authzoo/src/discovery.rs looks for the next key that fits.
use authzoo.Common.{
  ◌≡◌, refl, ap, Bool, true, false, none, some, List, [], ◌∷◌, ◌++◌, Result, ok, err, panic, All,
  Succeeds, arith, if◌then◌else◌,
}
use authzoo.Jwt.{Algorithm, Jwk}
use authzoo.Config.{Failure}
use authzoo.Jwks.{jwk_matches_algorithm, next_match}
use authzoo.Jwks.Fitting.{
  Fits, IsHandled, jwk_matches_algorithm_iff, jwk_matches_algorithm-Succeeds,
}

-- The first key that fits, and the keys behind it.
pub record IsFirstFit (keys : List Jwk) (a : Algorithm) (jwk : Jwk) (rest : List Jwk) : Type 0 where
  pub before : List Jwk
  pub split : keys ≡ before ++ jwk ∷ rest
  pub none_before : All (λ k. ¬ Fits k a) before
  pub fits : Fits jwk a

-- What the test says of a key.
pub data Verdict (jwk : Jwk) (a : Algorithm) : Type 0 where
  taken : Fits jwk a → jwk_matches_algorithm jwk a ≡ ok true → Verdict jwk a
  passed : ¬ Fits jwk a → jwk_matches_algorithm jwk a ≡ ok false → Verdict jwk a
  failed : (e : Failure) → jwk_matches_algorithm jwk a ≡ err e → Verdict jwk a
  panicked : jwk_matches_algorithm jwk a ≡ panic → Verdict jwk a

Verdict-of :
    (jwk : Jwk) (a : Algorithm) (r : Result Failure Bool)
    → jwk_matches_algorithm jwk a ≡ r
    → Verdict jwk a
Verdict-of jwk a (ok true) h = taken ((jwk_matches_algorithm_iff jwk a).0 h) h
Verdict-of jwk a (ok false) h = passed (λ f. cc ((jwk_matches_algorithm_iff jwk a).1 f, h)) h
Verdict-of jwk a (err e) h = failed e h
Verdict-of jwk a panic h = panicked h

pub verdict : (jwk : Jwk) (a : Algorithm) → Verdict jwk a
verdict jwk a = Verdict-of jwk a (jwk_matches_algorithm jwk a) refl

next_match-cons :
    (a : Algorithm) (k : Jwk) (keys : List Jwk) (b : Bool)
    → jwk_matches_algorithm k a ≡ ok b
    → next_match a (k ∷ keys) ≡ (if b then ok (some (k, keys)) else next_match a keys)
unfolding next_match
next_match-cons a k keys b h = rw h

next_match_stuck :
    (a : Algorithm) (k : Jwk) (keys : List Jwk)
    → ¬ Succeeds (jwk_matches_algorithm k a)
    → ¬ Succeeds (next_match a (k ∷ keys))
unfolding next_match
next_match_stuck a k keys h s = ground arith

pub next_match-none :
    (a : Algorithm) (keys : List Jwk) → next_match a keys ≡ ok none → All (λ k. ¬ Fits k a) keys
next_match-none a [] h = tt
next_match-none a (k ∷ keys) h = elim (verdict k a) [
  | taken f e ↦ cc (next_match-cons a k keys true e, h)
  | passed n e ↦ (n, next_match-none a keys (ground (arith, next_match-cons a k keys false e)))
  | failed x e ↦ absurd (next_match_stuck a k keys (rw e (λ s. s)) (rw h tt))
  | panicked e ↦ absurd (next_match_stuck a k keys (rw e (λ s. s)) (rw h tt))
]

IsFirstFit-here :
    (a : Algorithm) (k : Jwk) (keys : List Jwk) → Fits k a → IsFirstFit (k ∷ keys) a k keys
IsFirstFit-here a k keys f = record { before = []; split = refl; none_before = tt; fits = f }

IsFirstFit-cons :
    {a : Algorithm} (k : Jwk) {keys : List Jwk} {jwk : Jwk} {rest : List Jwk}
    → ¬ Fits k a
    → IsFirstFit keys a jwk rest
    → IsFirstFit (k ∷ keys) a jwk rest
IsFirstFit-cons k n f = record {
  before = k ∷ f.before;
  split = ap (◌∷◌ k) f.split;
  none_before = (n, f.none_before);
  fits = f.fits;
}

pub next_match-some :
    (a : Algorithm) (keys : List Jwk) (jwk : Jwk) (rest : List Jwk)
    → next_match a keys ≡ ok (some (jwk, rest))
    → IsFirstFit keys a jwk rest
unfolding next_match
next_match-some a [] jwk rest h = cc
next_match-some a (k ∷ keys) jwk rest h = elim (verdict k a) [
  | taken f e ↦
      let same : (k ≡ jwk) × (keys ≡ rest) = ground (arith, next_match-cons a k keys true e) in
      rw (← same.0, ← same.1) (IsFirstFit-here a k keys f)
  | passed n e ↦
      IsFirstFit-cons k n
        (next_match-some a keys jwk rest (ground (arith, next_match-cons a k keys false e)))
  | failed x e ↦ absurd (next_match_stuck a k keys (rw e (λ s. s)) (rw h tt))
  | panicked e ↦ absurd (next_match_stuck a k keys (rw e (λ s. s)) (rw h tt))
]

judged : (a : Algorithm) (k : Jwk) → IsHandled a → ¬ Fits k a → jwk_matches_algorithm k a ≡ ok false
judged a k handled n = elim (verdict k a) [
  | taken f e ↦ absurd (n f)
  | passed _ e ↦ e
  | failed x e ↦ absurd (rw e at (jwk_matches_algorithm-Succeeds k a handled))
  | panicked e ↦ absurd (rw e at (jwk_matches_algorithm-Succeeds k a handled))
]

pub next_match_of_none :
    (a : Algorithm) (keys : List Jwk)
    → IsHandled a
    → All (λ k. ¬ Fits k a) keys
    → next_match a keys ≡ ok none
unfolding next_match
next_match_of_none a [] handled n = refl
next_match_of_none a (k ∷ keys) handled (n, ns) =
    rw (judged a k handled n) (next_match_of_none a keys handled ns)

pub next_match_of_first :
    (a : Algorithm) (before : List Jwk) (jwk : Jwk) (rest : List Jwk)
    → IsHandled a
    → All (λ k. ¬ Fits k a) before
    → Fits jwk a
    → next_match a (before ++ jwk ∷ rest) ≡ ok (some (jwk, rest))
unfolding next_match
next_match_of_first a [] jwk rest handled n f = rw ((jwk_matches_algorithm_iff jwk a).1 f)
next_match_of_first a (k ∷ before) jwk rest handled (n, ns) f =
    rw (judged a k handled n) (next_match_of_first a before jwk rest handled ns f)
