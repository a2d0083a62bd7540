-- ===== src/Validator/Entitlement.antt =====
-- Which tokens `validate_token_for_role` of authzoo/src/validator.rs accepts, in a process whose other
-- threads validate tokens too.
use authzoo.Jwt.{Jwt}
use authzoo.Validator
