-- ===== src/Examples/Samples.antt =====
-- Concrete inputs for the crate authzoo: a role, a token, and the parameters of the model.
use authzoo.Common.{
  ℕ, ◌≡◌, ◌+◌, ◌*◌, ◌/◌, leb, arith, true, false, ◌&&◌, Option, none, some, List, [], ◌∷◌, map,
  Text, text, text_beq, ok, err, if◌then◌else◌,
}
use authzoo.Jwt.{Algorithm, Json, Jwt, Jwk, JwkSet, elliptic_curve, ValidatedClaims}
use authzoo.Config.{RoleConfig, es256, equals}
use authzoo.Token.{Chrono}
use authzoo.World.{Environment, State, unsent}
use authzoo.Validator.{TokenValidator}

pub data Value : Type 0 where
  str : Text → Value
  arr : List Text → Value

abbrev pub as_str : Value → Option Text
as_str (str t) = some t
as_str (arr ts) = none

abbrev pub as_array : Value → Option (List Value)
as_array (str t) = none
as_array (arr ts) = some (map str ts)

abbrev pub json : Json Value
json = record { as_str = as_str; as_array = as_array }

abbrev pub claims : ValidatedClaims Value
claims = record {
  sub = text "pipeline";
  claims = (text "branches", arr (text "main" ∷ [])) ∷ (text "org", str (text "acme")) ∷ [];
}

abbrev pub jwk : Jwk
jwk = record {
  common = record { public_key_use = none; key_algorithm = none; key_id = none };
  algorithm = elliptic_curve (text "P-256");
}

abbrev pub jwks : JwkSet
jwks = record { keys = jwk ∷ [] }

-- A token is good by its text, for one audience.
abbrev pub jwt : Jwt Value Text
jwt = record {
  decode_header = λ t.
      if text_beq t (text "good")
      then some (record { alg = Algorithm.es256; kid = none })
      else none;
  decode = λ n t k w.
      if text_beq t (text "good") && text_beq w.audience (text "authzoo")
      then ok claims
      else err (text "bad");
  from_secret = λ k. k;
  from_rsa_pem = λ k. none;
  from_ec_pem = λ k. some k;
  from_ed_pem = λ k. none;
  from_jwk = λ j. some (text "P-256");
  find = λ set kid. none;
  debug_algorithm = λ a. text "ES256";
}

abbrev pub env : Environment
env = record {
  now = λ n. n;
  read_ca_certificate = λ n. none;
  read_service_account_token = λ n. none;
  is_certificate = λ t. false;
  is_header_value = λ t. false;
  can_build = λ c. true;
  get_openid_configuration = λ n c u. unsent;
  get_jwks = λ n c u. unsent;
}

abbrev pub start : State
start = record { cache = none; poisoned = false; calls = 0 }

abbrev pub after_decode : State
after_decode = record { cache = none; poisoned = false; calls = 1 }

abbrev pub role : RoleConfig
role = record {
  name = text "ci";
  audience = text "authzoo";
  issuer = text "https://ci";
  validation_key = some (text "PEM");
  algorithms = es256 ∷ [];
  claims = (text "org", equals (text "acme")) ∷ (text "sub", equals (text "pipeline")) ∷ [];
}

abbrev pub validator : TokenValidator
validator = record { roles = (text "ci", role) ∷ [] }

-- Instants in nanoseconds, the last of them in the year 2262.
abbrev pub second : ℕ
second = 1000000000

abbrev pub add_hours : ℕ → ℕ → Option ℕ
add_hours t n =
    if leb (t + n * (3600 * second)) 0x7fffffffffffffff
    then some (t + n * (3600 * second))
    else none

pub add_hours-timestamp : (t n l : ℕ) → add_hours t n ≡ some l → l / second ≡ t / second + n * 3600
add_hours-timestamp t n l h = ground arith

abbrev pub chrono : Chrono
chrono = record {
  timestamp = λ t. t / second;
  add_hours = add_hours;
  timestamp_add = add_hours-timestamp;
  timestamp_mono = λ s t le. omega (arith, le);
}
