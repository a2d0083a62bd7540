-- ===== src/Jwks.antt =====
-- Choosing a key from a key set: `select_jwk_for_token` and its helpers in authzoo/src/discovery.rs.
-- `todo!` on an algorithm that the code does not handle is a panic.
pub mod Fitting
pub mod Matching
pub mod Selection
use authzoo.Common.{
  ℕ, Bool, true, false, Option, none, some, List, [], ◌∷◌, Text, text, Result, ok, err, panic,
  ok_or, require, ◌>>=◌, ◌>>◌, Eq, ◌==◌, if◌then◌else◌,
}
use authzoo.Jwt.{
  Algorithm, hs256, hs384, hs512, rs256, rs384, rs512, ps256, ps384, ps512, es256, es384, ed_dsa,
  unhandled, KeyAlgorithm, KeyAlgorithm-discrete, key_algorithm_eq, PublicKeyUse, signature,
  use_other, AlgorithmParameters, octet_key, rsa, elliptic_curve, octet_key_pair, Jwk, JwkSet,
}
use authzoo.Config.{
  Failure, no_jwk_for_kid, no_jwk_for_algorithm, many_jwks_for_algorithm, jwk_incompatible,
}

unfoldable pub key_algorithm_for_algorithm : Algorithm → Result Failure KeyAlgorithm
key_algorithm_for_algorithm hs256 = ok KeyAlgorithm.hs256
key_algorithm_for_algorithm hs384 = ok KeyAlgorithm.hs384
key_algorithm_for_algorithm hs512 = ok KeyAlgorithm.hs512
key_algorithm_for_algorithm rs256 = ok KeyAlgorithm.rs256
key_algorithm_for_algorithm rs384 = ok KeyAlgorithm.rs384
key_algorithm_for_algorithm rs512 = ok KeyAlgorithm.rs512
key_algorithm_for_algorithm ps256 = ok KeyAlgorithm.ps256
key_algorithm_for_algorithm ps384 = ok KeyAlgorithm.ps384
key_algorithm_for_algorithm ps512 = ok KeyAlgorithm.ps512
key_algorithm_for_algorithm es256 = ok KeyAlgorithm.es256
key_algorithm_for_algorithm es384 = ok KeyAlgorithm.es384
key_algorithm_for_algorithm ed_dsa = ok KeyAlgorithm.ed_dsa
key_algorithm_for_algorithm (unhandled n) = panic

unfoldable pub key_algorithm_matches : Jwk → Algorithm → Result Failure Bool
key_algorithm_matches jwk algorithm = elim jwk.common.key_algorithm [
  | none ↦ ok true
  | some key_algorithm ↦ do
    wanted ← key_algorithm_for_algorithm algorithm
    ok (key_algorithm == wanted)
]

-- `matches!(jwk.algorithm, …)` for each kind of key.
abbrev pub is_octet_key : AlgorithmParameters → Bool
is_octet_key (octet_key _) = true
is_octet_key _ = false

abbrev pub is_rsa : AlgorithmParameters → Bool
is_rsa (rsa _) = true
is_rsa _ = false

abbrev pub is_elliptic_curve : AlgorithmParameters → Bool
is_elliptic_curve (elliptic_curve _) = true
is_elliptic_curve _ = false

abbrev pub is_octet_key_pair : AlgorithmParameters → Bool
is_octet_key_pair (octet_key_pair _) = true
is_octet_key_pair _ = false

-- The final `match` of `jwk_matches_algorithm`.
unfoldable pub key_type_matches : AlgorithmParameters → Algorithm → Result Failure Bool
key_type_matches p hs256 = ok (is_octet_key p)
key_type_matches p hs384 = ok (is_octet_key p)
key_type_matches p hs512 = ok (is_octet_key p)
key_type_matches p rs256 = ok (is_rsa p)
key_type_matches p rs384 = ok (is_rsa p)
key_type_matches p rs512 = ok (is_rsa p)
key_type_matches p ps256 = ok (is_rsa p)
key_type_matches p ps384 = ok (is_rsa p)
key_type_matches p ps512 = ok (is_rsa p)
key_type_matches p es256 = ok (is_elliptic_curve p)
key_type_matches p es384 = ok (is_elliptic_curve p)
key_type_matches p ed_dsa = ok (is_octet_key_pair p)
key_type_matches p (unhandled n) = panic

-- `Some(use) if use != Signature`.
abbrev pub is_other_use : Option PublicKeyUse → Bool
is_other_use (some (use_other _)) = true
is_other_use _ = false

unfoldable pub jwk_matches_algorithm : Jwk → Algorithm → Result Failure Bool
jwk_matches_algorithm jwk algorithm =
    if is_other_use jwk.common.public_key_use then ok false else (do
      algorithm_fits ← key_algorithm_matches jwk algorithm
      if algorithm_fits then key_type_matches jwk.algorithm algorithm else ok false)

-- `key_id.as_deref().unwrap_or("<no kid>")`.
abbrev pub kid_or : Option Text → Text
kid_or none = text "<no kid>"
kid_or (some kid) = kid

unfoldable pub ensure_jwk_compatible : Jwk → Algorithm → Result Failure (Unit {0})
ensure_jwk_compatible jwk algorithm = do
  fits ← jwk_matches_algorithm jwk algorithm
  require fits (jwk_incompatible (kid_or jwk.common.key_id) algorithm)

-- `matching_keys.next()`: the next key that matches, and the keys behind it.
unfoldable pub next_match : Algorithm → List Jwk → Result Failure (Option (Jwk × List Jwk))
next_match algorithm [] = ok none
next_match algorithm (jwk ∷ rest) =
    let later = next_match algorithm rest in
    do fits ← jwk_matches_algorithm jwk algorithm; if fits then ok (some (jwk, rest)) else later

unfoldable pub select_by_kid :
    (JwkSet → Text → Option Jwk) → JwkSet → Text → Algorithm → Result Failure Jwk
select_by_kid find jwks kid algorithm = do
  jwk ← ok_or (find jwks kid) (no_jwk_for_kid kid)
  ensure_jwk_compatible jwk algorithm
  ok jwk

unfoldable pub select_by_algorithm : JwkSet → Algorithm → Result Failure Jwk
select_by_algorithm jwks algorithm = do
  first ← next_match algorithm jwks.keys
  (jwk, rest) ← ok_or first (no_jwk_for_algorithm algorithm)
  second ← next_match algorithm rest
  elim second [ none ↦ ok jwk | some _ ↦ err (many_jwks_for_algorithm algorithm) ]

-- `select_jwk_for_token`; `find` is `JwkSet::find`.
unfoldable pub select_jwk_for_token :
    (JwkSet → Text → Option Jwk) → JwkSet → Option Text → Algorithm → Result Failure Jwk
unfolding select_by_kid select_by_algorithm
select_jwk_for_token find jwks (some kid) algorithm = select_by_kid find jwks kid algorithm
select_jwk_for_token find jwks none algorithm = select_by_algorithm jwks algorithm
