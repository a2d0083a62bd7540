-- ===== src/Examples/Interoperation.antt =====
-- A token that is minted and then checked (authzoo-oauth/src/token.rs, authzoo/src/validator.rs).
use authzoo.Common.{
  ℕ, zero, suc, ◌*◌, ◌≤◌, ◌≡◌, refl, none, some, [], ◌∷◌, ◌++◌, length, Text, text, text_beq, here,
  Result, ok, if◌then◌else◌, arith, All, inl,
}
use authzoo.Jwt.{Algorithm, Jwt, ValidatedClaims}
use authzoo.Config.{RoleConfig, es256, equals}
use authzoo.Claims.Required.{Meets}
use authzoo.Validator.{validate_token_for_role}
use authzoo.Token.{
  Principal, TokenHeader, Payload, Claim, Signing, SigningKey, AccessTokenRequest,
  AccessTokenClaims, TokenIssuer, access_payload, sign,
}
use authzoo.Token.Minting.{mint_access_token_until, access_token_claims, hour_after, join}
use authzoo.Token.Claims.{IsGrant}
use authzoo.Interop.{Names, validate_token_for_role-minted}
use authzoo.Examples.Samples.{Value, json, env, start, after_decode, second, chrono}

-- The subject that a payload names.
abbrev subject_in : Payload → Text
subject_in [] = []
subject_in ((name, Claim.string t) ∷ payload) =
    if text_beq name (text "sub") then t else subject_in payload
subject_in (claim ∷ payload) = subject_in payload

abbrev read : Payload → ValidatedClaims Value
read payload = record { sub = subject_in payload; claims = [] }

-- The length of the key's id, the key's id and the subject.
abbrev encode : TokenHeader → Payload → Text → Result Text Text
encode header payload key = ok (length header.kid ∷ (header.kid ++ subject_in payload))

abbrev split_at : ℕ → Text → Text × Text
split_at zero s = ([], s)
split_at (suc n) [] = ([], [])
split_at (suc n) (c ∷ s) = let (before, after) = split_at n s in (c ∷ before, after)

split_at-append : (a b : Text) → split_at (length a) (a ++ b) ≡ (a, b)
split_at-append [] b = refl
split_at-append (c ∷ a) b = rw (split_at-append a b) refl

abbrev parts : Text → Text × Text
parts [] = ([], [])
parts (n ∷ s) = split_at n s

abbrev crates : Signing Text Text
crates = record {
  from_pkcs8_der = λ der. some der;
  point_x = λ k. some k;
  point_y = λ k. some k;
  from_ec_der = λ der. der;
  encode = encode;
  base64 = λ bytes. bytes;
}

abbrev jwt : Jwt Value Text
jwt = record {
  decode_header = λ t. some (record { alg = Algorithm.es256; kid = some (parts t).0 });
  decode = λ n t k v. ok (record { sub = (parts t).1; claims = [] });
  from_secret = λ k. k;
  from_rsa_pem = λ k. none;
  from_ec_pem = λ k. some k;
  from_ed_pem = λ k. none;
  from_jwk = λ j. none;
  find = λ set kid. none;
  debug_algorithm = λ a. text "ES256";
}

parts-encode :
    (header : TokenHeader) (payload : Payload) (key token : Text)
    → encode header payload key ≡ ok token
    → parts token ≡ (header.kid, subject_in payload)
parts-encode header payload key token h =
    let same : length header.kid ∷ (header.kid ++ subject_in payload) ≡ token = cc in
    rw (← same) (split_at-append header.kid (subject_in payload))

reads_header :
    (header : TokenHeader) (payload : Payload) (e token : Text)
    → crates.encode header payload e ≡ ok token
    → header.alg ≡ text "ES256"
    → jwt.decode_header token ≡ some (record { alg = Algorithm.es256; kid = some header.kid })
reads_header header payload e token h is = rw (parts-encode header payload e token h) refl

verifies :
    (call : ℕ) (header : TokenHeader) (payload : Payload) (e token k subject audience issuer : Text)
    (expires : ℕ)
    → crates.encode header payload e ≡ ok token
    → header.alg ≡ text "ES256"
    → e ≡ k
    → Names payload subject audience issuer expires
    → call ≤ expires
    → jwt.decode call token k
        (record { algorithm = Algorithm.es256; audience = audience; issuer = issuer })
      ≡ ok (read payload)
verifies call header payload e token k subject audience issuer expires h is paired names late =
    rw (parts-encode header payload e token h) refl

abbrev key : SigningKey Text
key = record {
  kid = text "k1";
  encoding_key = text "PEM";
  public_jwk = record {
    kty = text "EC";
    crv = text "P-256";
    use_ = text "sig";
    alg = text "ES256";
    kid = text "k1";
    x = [];
    y = [];
  };
}

abbrev issuer : TokenIssuer
issuer = record { issuer = text "https://id" }

abbrev principal : Principal
principal = record { subject = text "42"; email = none; groups = [] }

abbrev grant : AccessTokenRequest
grant = record { client_id = text "app"; resource = some (text "https://api"); scopes = [] }

abbrev role : RoleConfig
role = record {
  name = text "api";
  audience = text "https://api";
  issuer = text "https://id";
  validation_key = some (text "PEM");
  algorithms = es256 ∷ [];
  claims = (text "sub", equals (text "42")) ∷ [];
}

role-Meets :
    (claims : AccessTokenClaims)
    → IsGrant chrono issuer principal grant (100 * second) (9999 * second) claims
    → All (Meets json (read (access_payload claims))) role.claims
unfolding access_payload text_beq
role-Meets claims g = (inl (refl, here g.about), tt)

abbrev token : Text
token = 2 ∷ text "k142"

validate_token_for_role-minted_example :
    (claims : AccessTokenClaims) × IsGrant chrono issuer principal grant
      (100 * second)
      (9999 * second)
      claims
    × (validate_token_for_role json jwt env role token start
        ≡ (ok (read (access_payload claims)), after_decode))
unfolding mint_access_token_until sign access_token_claims hour_after access_payload join text_beq
validate_token_for_role-minted_example =
    validate_token_for_role-minted crates json jwt env (λ n. n) read (λ e k. e ≡ k) reads_header
      verifies chrono (1 ∷ []) issuer key principal grant (100 * second) (9999 * second) token role
      (text "PEM") (text "PEM") start refl refl refl refl (here refl) refl refl (omega arith)
      (omega arith) role-Meets
