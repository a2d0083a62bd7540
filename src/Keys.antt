-- ===== src/Keys.antt =====
-- authzoo/src/keys.rs: the key that a role verifies a token with.
pub mod Trust
use authzoo.Common.{
  Bool, Option, none, some, List, Text, text, trim_start, starts_with, strip_prefix, is_whitespace,
  Result, ok, err, panic, ok_or, if◌then◌else◌,
}
use authzoo.Jwt.{
  Algorithm, hs256, hs384, hs512, rs256, rs384, rs512, ps256, ps384, ps512, es256, es384, ed_dsa,
  unhandled, Jwt,
}
use authzoo.Config.{
  RoleConfig, Failure, pem_for_hmac, rsa_key_invalid, ec_key_invalid, ed_key_invalid,
}
use authzoo.World.{Environment, M, lift, wrap}
use authzoo.Discovery.{discovery_decoding_key}

unfoldable pub looks_like_pem : Text → Bool
looks_like_pem value = starts_with (text "-----BEGIN ") (trim_start value)

module _ {V K : Type 0} (jwt : Jwt V K) where
  unfoldable pub hmac_key : Text → Algorithm → Result Failure K
  hmac_key validation_key algorithm =
      if looks_like_pem validation_key
      then err (pem_for_hmac algorithm)
      else ok (jwt.from_secret validation_key)

  unfoldable pub decoding_key_for_algorithm : Text → Algorithm → Result Failure K
  unfolding hmac_key
  decoding_key_for_algorithm k hs256 = hmac_key k hs256
  decoding_key_for_algorithm k hs384 = hmac_key k hs384
  decoding_key_for_algorithm k hs512 = hmac_key k hs512
  decoding_key_for_algorithm k rs256 = ok_or (jwt.from_rsa_pem k) rsa_key_invalid
  decoding_key_for_algorithm k rs384 = ok_or (jwt.from_rsa_pem k) rsa_key_invalid
  decoding_key_for_algorithm k rs512 = ok_or (jwt.from_rsa_pem k) rsa_key_invalid
  decoding_key_for_algorithm k ps256 = ok_or (jwt.from_rsa_pem k) rsa_key_invalid
  decoding_key_for_algorithm k ps384 = ok_or (jwt.from_rsa_pem k) rsa_key_invalid
  decoding_key_for_algorithm k ps512 = ok_or (jwt.from_rsa_pem k) rsa_key_invalid
  decoding_key_for_algorithm k es256 = ok_or (jwt.from_ec_pem k) ec_key_invalid
  decoding_key_for_algorithm k es384 = ok_or (jwt.from_ec_pem k) ec_key_invalid
  decoding_key_for_algorithm k ed_dsa = ok_or (jwt.from_ed_pem k) ed_key_invalid
  decoding_key_for_algorithm k (unhandled n) = panic

  module _ (env : Environment) where
    unfoldable pub key_or_discover : Option Text → RoleConfig → Text → Algorithm → M K
    key_or_discover (some validation_key) role token algorithm =
        lift (wrap (decoding_key_for_algorithm validation_key algorithm))
    key_or_discover none role token algorithm = discovery_decoding_key env jwt role token algorithm

    -- `resolving_decoding_key`.
    unfoldable pub resolving_decoding_key : RoleConfig → Text → Algorithm → M K
    unfolding key_or_discover
    resolving_decoding_key role token algorithm =
        key_or_discover role.validation_key role token algorithm
