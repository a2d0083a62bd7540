-- ===== src/Token/Keys.antt =====
-- The public key that authzoo-oauth/src/token.rs publishes for its signing key, as authzoo/src/discovery.rs
-- finds it in a key set.
use authzoo.Common.{
  ℕ, ◌≡◌, refl, ap, ◌∙◌, inr, Option, some, List, Text, text, ok, >>=-eq-ok, ok-inj, At,
}
use authzoo.Jwt.{
  Algorithm, KeyAlgorithm, PublicKeyUse, signature, AlgorithmParameters, elliptic_curve,
  CommonParameters, JwkSet,
}
use authzoo.Jwt
use authzoo.Jwks.{select_jwk_for_token, key_algorithm_for_algorithm}
use authzoo.Jwks.Selection.{select_jwk_for_token_iff}
use authzoo.Token
use authzoo.Token.{Signing, SigningKey, TokenError, from_pkcs8, or_invalid, or_panic}

-- How jsonwebtoken reads a published EC key that signs with ES256.
pub record ReadsAsEs256 (published : Token.Jwk) (jwk : Jwt.Jwk) : Type 0 where
  pub used : jwk.common.public_key_use ≡ some signature
  pub intended : jwk.common.key_algorithm ≡ some KeyAlgorithm.es256
  pub identified : jwk.common.key_id ≡ some published.kid
  pub curve : (parameters : Text) × (jwk.algorithm ≡ elliptic_curve parameters)

abbrev pub HasId : Text → Jwt.Jwk → Type 0
HasId id jwk = jwk.common.key_id ≡ some id

-- A key as `from_pkcs8` publishes it.
pub record IsPublished (published : Token.Jwk) : Type 0 where
  pub kty : published.kty ≡ text "EC"
  pub crv : published.crv ≡ text "P-256"
  pub use_ : published.use_ ≡ text "sig"
  pub alg : published.alg ≡ text "ES256"

module _ {S E : Type 0} (crates : Signing S E) where
  from_pkcs8-IsPublished :
      (kid : Text) (private_key_der : List ℕ) (key : SigningKey E)
      → from_pkcs8 crates kid private_key_der ≡ ok key
      → (key.public_jwk.kid ≡ key.kid) × IsPublished key.public_jwk
  unfolding from_pkcs8
  from_pkcs8-IsPublished kid private_key_der key h =
      let (k, _, h) = >>=-eq-ok (or_invalid (crates.from_pkcs8_der private_key_der)) _ h in
      let (x, _, h) = >>=-eq-ok (or_panic (crates.point_x k)) _ h in
      let (y, _, h) = >>=-eq-ok (or_panic (crates.point_y k)) _ h in
      rw (← ok-inj h) (refl, record { kty = refl; crv = refl; use_ = refl; alg = refl })

  -- A verifier finds the signing key by its id: from a key set that holds the key that `from_pkcs8`
  -- publishes, and no other key of that id, `select_jwk_for_token` takes it for a token of ES256. It
  -- relies on jsonwebtoken to read such a published key as an EC key for signing with ES256, of the
  -- same id, and to find the key of an id.
  pub select_jwk_for_token-public_jwk :
      (read_jwk : Token.Jwk → Option Jwt.Jwk) (find : JwkSet → Text → Option Jwt.Jwk)
      (jwks : JwkSet) (kid : Text) (private_key_der : List ℕ) (key : SigningKey E) (jwk : Jwt.Jwk)
      (reads : (published : Token.Jwk) (j : Jwt.Jwk)
        → IsPublished published
        → read_jwk published ≡ some j
        → ReadsAsEs256 published j)
      (finds : (set : JwkSet) (id : Text) (j : Jwt.Jwk)
        → At j set.keys
        → HasId id j
        → ((other : Jwt.Jwk) → At other set.keys → HasId id other → other ≡ j)
        → find set id ≡ some j)
      → from_pkcs8 crates kid private_key_der ≡ ok key
      → read_jwk key.public_jwk ≡ some jwk
      → At jwk jwks.keys
      → ((other : Jwt.Jwk) → At other jwks.keys → HasId key.kid other → other ≡ jwk)
      → select_jwk_for_token find jwks (some key.kid) Algorithm.es256 ≡ ok jwk
  unfolding key_algorithm_for_algorithm
  select_jwk_for_token-public_jwk read_jwk find jwks kid private_key_der key jwk reads finds made
        parsed held only =
      let (same, published) = from_pkcs8-IsPublished kid private_key_der key made in
      let r = reads key.public_jwk jwk published parsed in
      let (parameters, curve) = r.curve in
      let found = finds jwks key.kid jwk held (r.identified ∙ ap some same) only in
      (select_jwk_for_token_iff find jwks (some key.kid) Algorithm.es256 jwk).1 (
        found,
        record {
          signs = inr r.used;
          intended = inr (KeyAlgorithm.es256, r.intended, refl);
          typed = rw curve refl;
        },
      )
