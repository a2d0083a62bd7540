-- ===== src/Token.antt =====
-- authzoo-oauth/src/token.rs: ES256 tokens for a principal and a client's grant. A `DateTime` is the
-- number of its instant, in chrono's order. What
-- serde derives for the claims is written out as `payload`.
pub mod Minting
pub mod Claims
pub mod Identity
pub mod Scopes
pub mod Keys
use authzoo.Common.{
  ◌≤◌, ◌≡◌, ◌+◌, ◌*◌, ℕ, ◌+◌, ◌*◌, ◌/◌, Bool, true, false, Option, none, some, List, [], ◌∷◌, ◌++◌,
  Text, text, any, text_beq, leb, min, Result, ok, err, panic, ◌>>=◌, if◌then◌else◌, contains,
  text_eq,
}

pub record Principal : Type 0 where
  pub subject : Text
  pub email : Option Text
  pub groups : List Text

pub record Jwk : Type 0 where
  pub kty : Text
  pub crv : Text
  pub use_ : Text
  pub alg : Text
  pub kid : Text
  pub x : Text
  pub y : Text

pub data TokenError : Type 0 where
  invalid_signing_key : TokenError
  encoding : Text → TokenError

-- What a claims struct serializes to, a field for each claim that is not skipped.
pub data Claim : Type 0 where
  string : Text → Claim
  number : ℕ → Claim
  strings : List Text → Claim
  null : Claim

abbrev pub Payload : Type 0
Payload = List (Text × Claim)

pub record TokenHeader : Type 0 where
  pub alg : Text
  pub typ : Text
  pub kid : Text

-- The crate chrono: whole seconds since the epoch, and the end of some hours, if there is such a
-- `DateTime`.
pub record Chrono : Type 0 where
  pub timestamp : ℕ → ℕ
  pub add_hours : ℕ → ℕ → Option ℕ
  pub timestamp_add : (t n l : ℕ) → add_hours t n ≡ some l → timestamp l ≡ timestamp t + n * 3600
  pub timestamp_mono : (s t : ℕ) → s ≤ t → timestamp s ≤ timestamp t

-- The crates p256, jsonwebtoken and base64. `S` is a P-256 key, `E` an `EncodingKey`.
pub record Signing (S E : Type 0) : Type 0 where
  pub from_pkcs8_der : List ℕ → Option S
  -- The coordinates of the public key's uncompressed point.
  pub point_x : S → Option (List ℕ)
  pub point_y : S → Option (List ℕ)
  pub from_ec_der : List ℕ → E
  pub encode : TokenHeader → Payload → E → Result Text Text
  -- Unpadded URL-safe base64.
  pub base64 : List ℕ → Text

pub record SigningKey (E : Type 0) : Type 0 where
  pub kid : Text
  pub encoding_key : E
  pub public_jwk : Jwk

pub record AccessTokenRequest : Type 0 where
  pub client_id : Text
  pub resource : Option Text
  pub scopes : List Text

pub record IdTokenRequest : Type 0 where
  pub audience : Text
  pub nonce : Option Text
  pub authenticated_at : ℕ
  pub include_groups : Bool

pub record TokenIssuer : Type 0 where
  pub issuer : Text

pub record IdTokenClaims : Type 0 where
  pub iss : Text
  pub sub : Text
  pub aud : Text
  pub exp : ℕ
  pub iat : ℕ
  pub auth_time : ℕ
  pub nonce : Option Text
  pub email : Option Text
  pub groups : Option (List Text)

pub record AccessTokenClaims : Type 0 where
  pub iss : Text
  pub sub : Text
  pub aud : Text
  pub client_id : Text
  pub exp : ℕ
  pub iat : ℕ
  pub jti : Text
  pub scope : Text
  pub email : Option Text
  pub groups : Option (List Text)

-- `skip_serializing_if = "Option::is_none"`.
abbrev pub unless_none {ℓ} : {A : Type ℓ} → Text → (A → Claim) → Option A → Payload
unless_none name claim none = []
unless_none name claim (some a) = (name, claim a) ∷ []

abbrev pub string_or_null : Option Text → Claim
string_or_null none = null
string_or_null (some t) = string t

-- `Serialize for AccessTokenClaims`.
unfoldable pub access_payload : AccessTokenClaims → Payload
access_payload c =
    ((text "iss", string c.iss)
      ∷ (text "sub", string c.sub)
      ∷ (text "aud", string c.aud)
      ∷ (text "client_id", string c.client_id)
      ∷ (text "exp", number c.exp)
      ∷ (text "iat", number c.iat)
      ∷ (text "jti", string c.jti)
      ∷ (text "scope", string c.scope)
      ∷ [])
    ++ (unless_none (text "email") string c.email ++ unless_none (text "groups") strings c.groups)

-- `Serialize for IdTokenClaims`.
unfoldable pub id_payload : IdTokenClaims → Payload
id_payload c =
    ((text "iss", string c.iss)
      ∷ (text "sub", string c.sub)
      ∷ (text "aud", string c.aud)
      ∷ (text "exp", number c.exp)
      ∷ (text "iat", number c.iat)
      ∷ (text "auth_time", number c.auth_time)
      ∷ (text "nonce", string_or_null c.nonce)
      ∷ [])
    ++ (unless_none (text "email") string c.email ++ unless_none (text "groups") strings c.groups)

-- `?` on jsonwebtoken's error.
abbrev pub signed : Result Text Text → Result TokenError Text
signed (ok token) = ok token
signed (err source) = err (encoding source)
signed panic = panic

-- `expect` on an option.
abbrev pub or_panic {ℓ} : {A : Type ℓ} → Option A → Result TokenError A
or_panic none = panic
or_panic (some a) = ok a

abbrev pub or_invalid {ℓ} : {A : Type ℓ} → Option A → Result TokenError A
or_invalid none = err invalid_signing_key
or_invalid (some a) = ok a

module _ {S E : Type 0} (crates : Signing S E) where
  -- `SigningKey::from_pkcs8`.
  unfoldable pub from_pkcs8 : Text → List ℕ → Result TokenError (SigningKey E)
  from_pkcs8 kid private_key_der = do
    key ← or_invalid (crates.from_pkcs8_der private_key_der)
    x ← or_panic (crates.point_x key)
    y ← or_panic (crates.point_y key)
    ok (record {
      kid = kid;
      encoding_key = crates.from_ec_der private_key_der;
      public_jwk = record {
        kty = text "EC";
        crv = text "P-256";
        use_ = text "sig";
        alg = text "ES256";
        kid = kid;
        x = crates.base64 x;
        y = crates.base64 y;
      };
    })

  -- `SigningKey::sign`.
  unfoldable pub sign : SigningKey E → Payload → Text → Result TokenError Text
  sign key claims token_type = signed (
      crates.encode (record { alg = text "ES256"; typ = token_type; kid = key.kid }) claims
        key.encoding_key)
