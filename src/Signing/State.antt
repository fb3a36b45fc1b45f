-- ===== src/Signing/State.antt =====
-- The signing state, its constants and the helpers that every stage uses
-- (source/aws_signing.c:54-352, include/aws/auth/private/aws_signing.h).
use aws_c_auth.Common.{
  ℕ, ◌+◌, Bool, false, not, List, [], ◌∷◌, Option, none, some, Bytes, codes, length, any,
  if◌then◌else◌, Result, ok, err, ◌>>=◌, ◌>>◌, unsupported_algorithm,
}
use aws_c_auth.External.{ByteBuf, buf_init, Library}
use aws_c_auth.Signing.Config.{
  Algorithm, sig_v4_header, sig_v4_query_param, algorithm_count, Config, validate_config,
}
use aws_c_auth.Signing.Outcome
use aws_c_auth.Signing.Outcome.{SigningResult}

-- The names that aws_signing.c defines, and the two lists of the signing result.
abbrev pub content_header_name : Bytes
content_header_name = codes "x-amz-content-sha256"

abbrev pub authorization_header_name : Bytes
authorization_header_name = codes "Authorization"

abbrev pub authorization_query_param_name : Bytes
authorization_query_param_name = codes "X-Amz-Signature"

abbrev pub algorithm_query_param_name : Bytes
algorithm_query_param_name = codes "X-Amz-Algorithm"

abbrev pub credential_query_param_name : Bytes
credential_query_param_name = codes "X-Amz-Credential"

abbrev pub date_name : Bytes
date_name = codes "X-Amz-Date"

abbrev pub signed_headers_query_param_name : Bytes
signed_headers_query_param_name = codes "X-Amz-SignedHeaders"

abbrev pub security_token_name : Bytes
security_token_name = codes "X-Amz-Security-Token"

abbrev pub http_headers_list : Bytes
http_headers_list = codes "headers"

abbrev pub http_query_params_list : Bytes
http_query_params_list = codes "params"

abbrev pub http_method_property : Bytes
http_method_property = codes "method"

abbrev pub http_uri_property : Bytes
http_uri_property = codes "uri"

-- The static tables that aws_signing_init_signing_tables fills, by their keys.
abbrev pub skipped_headers : List Bytes
skipped_headers =
    codes "x-amzn-trace-id"
    ∷ codes "UserAgent"
    ∷ codes "connection"
    ∷ codes "sec-websocket-key"
    ∷ codes "sec-websocket-protocol"
    ∷ codes "sec-websocket-version"
    ∷ codes "upgrade"
    ∷ []

abbrev pub forbidden_headers : List Bytes
forbidden_headers = content_header_name ∷ date_name ∷ authorization_header_name ∷ []

abbrev pub forbidden_params : List Bytes
forbidden_params =
    authorization_query_param_name ∷ date_name ∷ credential_query_param_name
    ∷ algorithm_query_param_name ∷ signed_headers_query_param_name ∷ []

-- struct aws_credentials
pub record Credentials : Type 0 where
  pub access_key_id : Bytes
  pub secret_access_key : Bytes
  pub session_token : Option Bytes

abbrev no_keys : Credentials
no_keys = record { access_key_id = []; secret_access_key = []; session_token = none }

-- struct aws_signable_property_list_pair
pub record Header : Type 0 where
  pub name : Bytes
  pub value : Bytes

-- What an input stream does while the payload is hashed: the seek before, one read with the status
-- asked for after it in each round, and the seek behind the loop.
pub record Stream : Type 0 where
  pub seek_before : Result (Unit {0})
  pub reads : List (Bytes × Result Bool)
  pub seek_after : Result (Unit {0})

-- struct aws_signable, by its virtual table.
pub record Signable : Type 0 where
  pub get_property : Bytes → Result Bytes
  pub get_property_list : Bytes → Result (List Header)
  pub get_payload_stream : Result (Option Stream)

-- struct aws_signing_state_aws. The pointer to the credentials is NULL until the provider's callback
-- sets it, and no stage runs before: the state begins with empty credentials. The callback and its
-- argument are in Signing/Sign.
pub record State : Type 0 where
  pub config : Config
  pub signable : Signable
  pub credentials : Credentials
  pub region_service_buffer : ByteBuf
  pub result : SigningResult
  pub canonical_request : ByteBuf
  pub string_to_sign : ByteBuf
  pub signed_headers : ByteBuf
  pub canonical_header_block : ByteBuf
  pub payload_hash : ByteBuf
  pub credential_scope : ByteBuf
  pub access_credential_scope : ByteBuf
  pub date : ByteBuf

-- The switch that the stages share: its sigv4 case, or AWS_AUTH_SIGNING_UNSUPPORTED_ALGORITHM.
unfoldable pub dispatch {ℓ} : {A : Type ℓ} → Algorithm → Result A → Result A
dispatch sig_v4_header sigv4 = sigv4
dispatch sig_v4_query_param sigv4 = sigv4
dispatch algorithm_count sigv4 = err unsupported_algorithm

-- s_get_signing_algorithm_cursor
unfoldable pub get_signing_algorithm_cursor : Algorithm → Result Bytes
get_signing_algorithm_cursor sig_v4_header = ok (codes "AWS4-HMAC-SHA256")
get_signing_algorithm_cursor sig_v4_query_param = ok (codes "AWS4-HMAC-SHA256")
get_signing_algorithm_cursor algorithm_count = err unsupported_algorithm

module _ (c : Library) where
  -- aws_hash_table_find on a table whose keys are compared without regard to case
  unfoldable pub table_has : List Bytes → Bytes → Bool
  table_has table name = any (λ key. c.eq_ignore_case key name) table

  -- s_append_signing_algorithm
  unfoldable pub append_signing_algorithm : Algorithm → ByteBuf → Result ByteBuf
  append_signing_algorithm algorithm dest = do
    algorithm_cursor ← get_signing_algorithm_cursor algorithm
    c.append_dynamic dest algorithm_cursor

  -- s_append_character_to_byte_buf
  unfoldable pub append_character : ByteBuf → ℕ → Result ByteBuf
  append_character buffer value = c.append_dynamic buffer (value ∷ [])

  -- s_should_sign_param
  unfoldable pub should_sign_param : State → Bytes → Bool
  should_sign_param state name =
      let internal = not (table_has skipped_headers name) in
      elim state.config.should_sign_param [
        | none ↦ internal
        | some filter ↦ if not (filter name) then false else internal
      ]

  -- aws_signing_state_new, with the numbers that the source names for the first capacities
  unfoldable pub state_new : Config → Signable → Result State
  state_new config signable = do
    validate_config (some config)
    let names = buf_init (length config.region + length config.service)
    names ← c.append names config.region
    names ← c.append names config.service
    ok (record {
      config = config;
      signable = signable;
      credentials = no_keys;
      region_service_buffer = names;
      result = Outcome.init;
      canonical_request = buf_init 1024;
      string_to_sign = buf_init 256;
      signed_headers = buf_init 256;
      canonical_header_block = buf_init 1024;
      payload_hash = buf_init (c.sha256_len + c.sha256_len);
      credential_scope = buf_init 128;
      access_credential_scope = buf_init 149;
      date = buf_init c.date_time_str_max_len;
    })
