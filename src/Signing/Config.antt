-- ===== src/Signing/Config.antt =====
-- Signing configurations: include/aws/auth/signing_config.h and source/signing_config.c.
use aws_c_auth.Common.{
  ℕ, Bool, true, false, Option, none, some, Bytes, codes, length, ◌==◌, if◌then◌else◌, Result, ok,
  err, invalid_configuration,
}

-- enum aws_signing_algorithm; the last one is AWS_SIGNING_ALGORITHM_COUNT, and stands for every
-- value that `switch` sends to `default`.
pub data Algorithm : Type 0 where
  sig_v4_header sig_v4_query_param algorithm_count : Algorithm

-- enum aws_body_signing_config_type
pub data BodySigning : Type 0 where
  off on unsigned_payload : BodySigning

-- struct aws_signing_config_aws; a provider is an address, and `none` is NULL
pub record Config : Type 0 where
  pub algorithm : Algorithm
  pub credentials_provider : Option ℕ
  pub region : Bytes
  pub service : Bytes
  pub date : ℕ
  pub should_sign_param : Option (Bytes → Bool)
  pub use_double_uri_encode : Bool
  pub should_normalize_uri_path : Bool
  pub body_signing_type : BodySigning

-- aws_signing_algorithm_to_string. The table has two places and one initializer, so its second
-- place is NULL (`none`).
unfoldable pub algorithm_to_string : Algorithm → Option Bytes
algorithm_to_string sig_v4_header = some (codes "Aws SigV4")
algorithm_to_string sig_v4_query_param = none
algorithm_to_string algorithm_count = some (codes "Unknown")

-- aws_validate_aws_signing_config_aws
unfoldable pub validate_config : Option Config → Result (Unit {0})
validate_config none = err invalid_configuration
validate_config (some config) =
    if length config.region == 0
    then err invalid_configuration
    else if length config.service == 0
    then err invalid_configuration
    else elim config.credentials_provider [ none ↦ err invalid_configuration | some p ↦ ok tt ]

-- `body_signing_type >= AWS_BODY_SIGNING_ON`
unfoldable pub signs_body : BodySigning → Bool
signs_body off = false
signs_body on = true
signs_body unsigned_payload = true

-- s_is_header_auth
unfoldable pub is_header_auth : Algorithm → Bool
is_header_auth sig_v4_header = true
is_header_auth _ = false

-- s_is_query_param_auth
unfoldable pub is_query_param_auth : Algorithm → Bool
is_query_param_auth sig_v4_query_param = true
is_query_param_auth _ = false
