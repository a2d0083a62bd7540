-- ===== src/Examples/Issuing.antt =====
-- Signing keys and access tokens (authzoo-oauth/src/token.rs).
use authzoo.Common.{
  ℕ, ◌*◌, ◌≡◌, ◌↔◌, refl, sym, ap, ◌∙◌, Option, none, some, List, [], ◌∷◌, Text, text, text_beq,
  text_beq_iff, At, here, there, ok, if◌then◌else◌, arith, Bool, true, false, Bool-cases, inl, inr,
}
use authzoo.Jwt
use authzoo.Jwt.{Algorithm, KeyAlgorithm, signature, elliptic_curve, JwkSet}
use authzoo.Jwks.{select_jwk_for_token}
use authzoo.Token
use authzoo.Token.{
  Signing, SigningKey, TokenIssuer, Principal, AccessTokenRequest, from_pkcs8, sign, access_payload,
}
use authzoo.Examples.Samples.{second, chrono}
use authzoo.Token.Minting.{mint_access_token_until, access_token_claims, hour_after}
use authzoo.Token.Claims.{IsMinted, mint_access_token_until-IsMinted}
use authzoo.Token.{IdTokenRequest}
use authzoo.Token.Minting.{mint_id_token, id_token_claims}
use authzoo.Token.Identity
use authzoo.Token.Identity.{mint_id_token-IsMinted}
use authzoo.Token.Keys.{ReadsAsEs256, HasId, IsPublished, select_jwk_for_token-public_jwk}

abbrev pub crates : Signing (List ℕ) (List ℕ)
crates = record {
  from_pkcs8_der = λ der. some der;
  point_x = λ k. some k;
  point_y = λ k. some k;
  from_ec_der = λ der. der;
  encode = λ header payload key. ok header.kid;
  base64 = λ bytes. bytes;
}

abbrev pub key : SigningKey (List ℕ)
key = record {
  kid = text "k1";
  encoding_key = 7 ∷ [];
  public_jwk = record {
    kty = text "EC";
    crv = text "P-256";
    use_ = text "sig";
    alg = text "ES256";
    kid = text "k1";
    x = 7 ∷ [];
    y = 7 ∷ [];
  };
}

abbrev pub issuer : TokenIssuer
issuer = record { issuer = text "https://id" }

abbrev principal : Principal
principal = record { subject = text "42"; email = some (text "a@b"); groups = text "dev" ∷ [] }

abbrev grant : AccessTokenRequest
grant = record { client_id = text "app"; resource = none; scopes = text "groups" ∷ [] }

mint_access_token_until-IsMinted_example :
    IsMinted crates chrono issuer key principal grant (100 * second) (9999 * second) (text "k1")
unfolding mint_access_token_until sign access_token_claims hour_after
mint_access_token_until-IsMinted_example =
    mint_access_token_until-IsMinted crates chrono (1 ∷ []) issuer key principal grant
      (100 * second) (9999 * second) (text "k1") refl

abbrev read : Token.Jwk → Jwt.Jwk
read published = record {
  common = record {
    public_key_use = some signature;
    key_algorithm = some KeyAlgorithm.es256;
    key_id = some published.kid;
  };
  algorithm = elliptic_curve published.crv;
}

abbrev read_jwk : Token.Jwk → Option Jwt.Jwk
read_jwk published = some (read published)

read_jwk-ReadsAsEs256 :
    (published : Token.Jwk) (j : Jwt.Jwk)
    → IsPublished published
    → read_jwk published ≡ some j
    → ReadsAsEs256 published j
read_jwk-ReadsAsEs256 published j shape e =
    let same : read published ≡ j = cc in
    rw (← same)
      (record { used = refl; intended = refl; identified = refl; curve = (published.crv, refl) })

abbrev has_id : Text → Option Text → Bool
has_id id none = false
has_id id (some kid) = text_beq kid id

abbrev find_in : List Jwt.Jwk → Text → Option Jwt.Jwk
find_in [] id = none
find_in (j ∷ js) id = if has_id id j.common.key_id then some j else find_in js id

has_id_iff : (id : Text) (o : Option Text) → (has_id id o ≡ true) ↔ (o ≡ some id)
has_id_iff id none = ((λ h. cc), λ h. cc)
has_id_iff id (some kid) = ground (arith, text_beq_iff kid id)

find_in-finds :
    (js : List Jwt.Jwk) (id : Text) (j : Jwt.Jwk)
    → At j js
    → HasId id j
    → ((other : Jwt.Jwk) → At other js → HasId id other → other ≡ j)
    → find_in js id ≡ some j
find_in-finds [] id j at is only = elim at [ ]
find_in-finds (k ∷ js) id j at is only = elim (Bool-cases (has_id id k.common.key_id)) [
  | inl hit ↦ rw hit (ap some (only k (here refl) ((has_id_iff id k.common.key_id).0 hit)))
  | inr miss ↦ elim at [
    | here e ↦
        let absurd : true ≡ false = sym ((has_id_iff id k.common.key_id).1 (rw (← e) is)) ∙ miss in
        cc absurd
    | there later ↦ rw miss (find_in-finds js id j later is (λ other held. only other (there held)))
  ]
]

abbrev jwks : JwkSet
jwks = record { keys = read key.public_jwk ∷ [] }

only_key :
    (other : Jwt.Jwk) → At other jwks.keys → HasId (text "k1") other → other ≡ read key.public_jwk
only_key other (here e) is = e
only_key other (there at) is = elim at [ ]

select_jwk_for_token-public_jwk_example :
    select_jwk_for_token (λ set id. find_in set.keys id) jwks (some (text "k1")) Algorithm.es256
    ≡ ok (read key.public_jwk)
unfolding from_pkcs8
select_jwk_for_token-public_jwk_example =
    select_jwk_for_token-public_jwk crates read_jwk (λ set id. find_in set.keys id) jwks (text "k1")
      (7 ∷ []) key (read key.public_jwk) read_jwk-ReadsAsEs256 (λ set. find_in-finds set.keys) refl
      refl (here refl) only_key

abbrev login : IdTokenRequest
login = record {
  audience = text "app";
  nonce = some (text "n");
  authenticated_at = 90 * second;
  include_groups = true;
}

mint_id_token-IsMinted_example :
    Identity.IsMinted crates chrono issuer key principal login (100 * second) (text "k1")
unfolding mint_id_token sign id_token_claims hour_after
mint_id_token-IsMinted_example =
    mint_id_token-IsMinted crates chrono issuer key principal login (100 * second) (text "k1") refl
