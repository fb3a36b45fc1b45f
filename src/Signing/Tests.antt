-- ===== src/Signing/Tests.antt =====
-- Sample requests: the theorems of the signing modules at concrete states.
pub mod Run
use mathlib.Core.List.{flatten}
use aws_c_auth.Common.{
  ℕ, Bool, true, false, List, [], ◌∷◌, ◌++◌, Option, none, some, Bytes, codes, bytes_eq, all,
  if◌then◌else◌, ◌≡◌, ◌≢◌, ◌↔◌, refl, Error, Result, ok, err, out_of_bounds_write, Returns,
}
use aws_c_auth.External.{ByteBuf, buf_init, Uri, UriParam, Library, Documented}
use aws_c_auth.External.Example.{sample, sample_documented}
use aws_c_auth.Signing.Config.{Config, Algorithm, sig_v4_header, sig_v4_query_param, on}
use aws_c_auth.Signing.Outcome
use aws_c_auth.Signing.Outcome.{Property, SigningResult, append_property_list}
use aws_c_auth.Signing.Outcome.Lists.{contents, contents-append_property_list}
use aws_c_auth.Signing.State.{
  State, Header, Signable, Stream, Credentials, http_headers_list, http_query_params_list,
  http_uri_property, authorization_header_name, authorization_query_param_name, date_name,
}
use aws_c_auth.Signing.Path.{normalize_components}
use aws_c_auth.Signing.Path.Normal.{is_normal, normalize_components-normal}
use aws_c_auth.Signing.Query.{add_authorization_query_params}
use aws_c_auth.Signing.Query.Auth.{auth_params, encoded_all, add_authorization_query_params-auth}
use aws_c_auth.Signing.Headers.{build_canonical_headers}
use aws_c_auth.Signing.Headers.Capacity.{build_canonical_headers-in_bounds}
use aws_c_auth.Signing.Payload.{build_canonical_payload_hash}
use aws_c_auth.Signing.Request.{build_string_to_sign}
use aws_c_auth.Signing.Request.StringToSign.{four_lines, build_string_to_sign-four_lines}
use aws_c_auth.Signing.Payload.Digest.{
  Reads, last, more, Signed, stream_body, build_canonical_payload_hash-digest,
}
use aws_c_auth.Signing.Request.{build_string_to_sign}
use aws_c_auth.Signing.Request.StringToSign.{four_lines, build_string_to_sign-four_lines}
use aws_c_auth.Signing.Authorization.{build_authorization_value}
use aws_c_auth.Signing.Authorization.Key.{signature}
use aws_c_auth.Signing.Authorization.Value.{
  property, token_property, authorization_text, build_authorization_value-header,
  build_authorization_value-query,
}
use aws_c_auth.Signing.Sign.{
  Completion, completed, failed, signing_config_aws, sign_request_aws, Asked, takes,
  on_get_credentials,
}
use aws_c_auth.Signing.Sign.Admission.{IsValid, sign_request_aws-admission}
use aws_c_auth.Signing.Sign.Reserved.{
  any_reserved_header, any_reserved_param, on_get_credentials-unreserved,
}

abbrev pub request_headers : List Header
request_headers =
    record { name = codes "Host"; value = codes "example.com" }
    ∷ record { name = codes "X-Extra"; value = codes "a   b\n c" }
    ∷ []

abbrev pub body : Stream
body = record {
  seek_before = ok tt;
  reads = (codes "hello ", ok false) ∷ ([], ok false) ∷ (codes "world", ok true) ∷ [];
  seek_after = ok tt;
}

abbrev pub request : Signable
request = record {
  get_property = λ name. ok (codes "/a/./b/../c?x=1");
  get_property_list = λ name. ok request_headers;
  get_payload_stream = ok (some body);
}

abbrev config_for : Algorithm → Config
config_for algorithm = record {
  algorithm = algorithm;
  credentials_provider = some 7;
  region = codes "us-east-1";
  service = codes "service";
  date = 1440938160;
  should_sign_param = none;
  use_double_uri_encode = true;
  should_normalize_uri_path = true;
  body_signing_type = on;
}

abbrev pub keys : Credentials
keys = record {
  access_key_id = codes "AKID";
  secret_access_key = codes "secret";
  session_token = some (codes "token");
}

abbrev state_for : Algorithm → State
state_for algorithm = record {
  config = config_for algorithm;
  signable = request;
  credentials = keys;
  region_service_buffer = buf_init 16;
  result = Outcome.init;
  canonical_request = buf_init 1024;
  string_to_sign = buf_init 256;
  signed_headers = buf_init 256;
  canonical_header_block = buf_init 1024;
  payload_hash = buf_init 2;
  credential_scope = buf_init 128;
  access_credential_scope = buf_init 149;
  date = record { bytes = codes "20150830T123600Z"; capacity = 100 };
}

abbrev pub header_state : State
header_state = state_for sig_v4_header

abbrev pub query_state : State
query_state = state_for sig_v4_query_param

string_to_sign_example : Returns (build_string_to_sign sample header_state) (λ r.
    (r.string_to_sign.bytes ≡ four_lines sample sample_documented header_state)
    × (r ≡ record header_state { string_to_sign = r.string_to_sign }))
string_to_sign_example =
    build_string_to_sign-four_lines sample sample_documented header_state (λ e. cc e) refl

header_value_example : Returns (build_authorization_value sample header_state) (λ r.
    (contents r.result http_headers_list
      ≡ contents header_state.result http_headers_list
        ++ (property authorization_header_name
              (authorization_text sample sample_documented header_state)
            ∷ property date_name header_state.date.bytes
            ∷ token_property (λ t. t) header_state.credentials.session_token))
    × (contents r.result http_query_params_list
        ≡ contents header_state.result http_query_params_list))
header_value_example = build_authorization_value-header sample sample_documented header_state refl

query_value_example : Returns (build_authorization_value sample query_state) (λ r.
    (contents r.result http_query_params_list
      ≡ contents query_state.result http_query_params_list
        ++ (property authorization_query_param_name (signature sample sample_documented query_state)
            ∷ token_property sample_documented.encode_param query_state.credentials.session_token))
    × (contents r.result http_headers_list
        ≡ contents query_state.result http_headers_list
          ++ property date_name query_state.date.bytes ∷ []))
query_value_example = build_authorization_value-query sample sample_documented query_state refl

in_bounds_example : build_canonical_headers sample header_state ≢ err out_of_bounds_write
in_bounds_example =
    build_canonical_headers-in_bounds sample sample_documented header_state refl (λ e. cc e)

abbrev raw_components : List Bytes
raw_components = [] ∷ codes "a" ∷ codes "." ∷ codes ".." ∷ codes "b" ∷ []

abbrev tail_components : List Bytes
tail_components = codes "c" ∷ codes "." ∷ codes "d" ∷ []

abbrev dots : Bytes
dots = b'.' ∷ b'.' ∷ []

normal_example :
    (all is_normal (normalize_components [] raw_components) ≡ true)
    × (normalize_components [] (codes "a" ∷ codes "b" ∷ []) ≡ codes "a" ∷ codes "b" ∷ [])
    × (normalize_components [] (raw_components ++ [] ∷ tail_components)
        ≡ normalize_components [] (raw_components ++ tail_components))
    × (normalize_components [] (raw_components ++ (b'.' ∷ []) ∷ tail_components)
        ≡ normalize_components [] (raw_components ++ tail_components))
    × (normalize_components [] (raw_components ++ codes "x" ∷ dots ∷ tail_components)
        ≡ normalize_components [] (raw_components ++ tail_components))
    × (normalize_components [] (dots ∷ tail_components) ≡ normalize_components [] tail_components)
normal_example =
    normalize_components-normal raw_components tail_components (codes "a" ∷ codes "b" ∷ [])
      (codes "x") (unfold codes bytes_eq in refl) (unfold codes bytes_eq all in refl)

abbrev pub body_chunks : List Bytes
body_chunks = codes "hello " ∷ [] ∷ codes "world" ∷ []

pub body-Signed : Signed on (some body) body_chunks
body-Signed = stream_body body body_chunks refl refl (more _ (more _ (last _ _)))

payload_example : Returns (build_canonical_payload_hash sample header_state) (λ r.
    (r.payload_hash.bytes
      ≡ [] ++ sample_documented.hex (sample_documented.sha256 (flatten body_chunks)))
    × (r ≡ record header_state { payload_hash = r.payload_hash }))
payload_example =
    build_canonical_payload_hash-digest sample sample_documented header_state (some body)
      body_chunks refl body-Signed

auth_params_example : Returns (add_authorization_query_params sample query_state []) (λ (s', ps').
    (ps' ≡ [] ++ auth_params sample sample_documented query_state)
    × (contents s'.result http_query_params_list
        ≡ contents query_state.result http_query_params_list
          ++ encoded_all sample sample_documented
              (auth_params sample sample_documented query_state))
    × (s' ≡ record query_state { result = s'.result })
    × (contents s'.result http_headers_list ≡ contents query_state.result http_headers_list))
auth_params_example =
    add_authorization_query_params-auth sample sample_documented query_state [] refl

admission_example :
    ((k : Option Credentials → Completion) × ((sign_request_aws sample signing_config_aws
          (config_for sig_v4_header)
          request
          takes).1
        ≡ ok k))
    ↔ ((signing_config_aws ≡ signing_config_aws)
        × IsValid (config_for sig_v4_header)
        × (Path Asked takes takes))
admission_example =
    sign_request_aws-admission sample sample_documented signing_config_aws
      (config_for sig_v4_header) request takes
