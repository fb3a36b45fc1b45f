-- ===== src/Providers/Imds.antt =====
-- The instance metadata provider, source/credentials_provider_imds.c. Each callback of the HTTP library is
-- one function; memory does not run out.
pub mod Account
pub mod History
pub mod Answer
use aws_c_auth.Common.{
  ℕ, ◌+◌, Bool, true, false, ◌||◌, ◌&&◌, not, List, [], ◌∷◌, ◌++◌, Option, none, some, Bytes, codes,
  length, ltb, ◌==◌, if◌then◌else◌, Result, ok, err, ◌>>=◌,
}
use aws_c_auth.External.{ByteBuf, buf_init, Library}
use aws_c_auth.Signing.State.{Credentials, Header}
use aws_c_auth.Providers.Lifetime.{Provider, credentials_new, provider_acquire, provider_release}
use aws_c_auth.Providers.FromProfile.{c_str}

-- cJSON, as the code uses it: an object is the function that gives the strings it holds, case-sensitively,
-- `none` where a name is missing or no string.
pub record Json : Type 0 where
  pub parse : Bytes → Option (Bytes → Option Bytes)

-- enum aws_imds_query_state
pub data QueryState : Type 0 where
  role_name role_credentials : QueryState

-- struct aws_http_message, as far as the code fills it
pub record Request : Type 0 where
  pub headers : List Header
  pub path : Bytes
  pub method : Bytes

-- struct aws_credentials_provider_imds_user_data; `connection` is whether there is one
pub record UserData : Type 0 where
  pub query_state : QueryState
  pub connection : Bool
  pub request : Option Request
  pub current_result : Bytes
  pub status_code : ℕ

-- A query with its provider: its user data until they are freed, the requests that were made, and the
-- calls of the original callback.
pub record Imds : Type 0 where
  pub provider : Provider
  pub user_data : Option UserData
  pub requests : List Request
  pub callbacks : List (Option Credentials)
  pub is_closed : Bool

abbrev pub response_size_limit : ℕ
response_size_limit = 10000

abbrev pub metadata_resource_path : Bytes
metadata_resource_path = codes "/latest/meta-data/iam/security-credentials/"

-- s_aws_credentials_provider_imds_user_data_new, on zeroed memory
unfoldable pub user_data_new : UserData
user_data_new = record {
  query_state = role_name;
  connection = false;
  request = none;
  current_result = [];
  status_code = 0;
}

-- s_aws_credentials_provider_imds_user_data_reset_response
unfoldable pub reset_response : UserData → UserData
reset_response q = record q { current_result = []; status_code = 0; request = none }

-- the credentials of three strings, none of which is empty
unfoldable pub credentials_of_strings :
    Option Bytes → Option Bytes → Option Bytes → Option Credentials
credentials_of_strings (some access_key_id) (some secret_access_key) (some session_token) =
    if length (c_str access_key_id) == 0
      || length (c_str secret_access_key) == 0
      || length (c_str session_token) == 0
    then none
    else some (
        credentials_new (c_str access_key_id) (c_str secret_access_key)
          (some (c_str session_token)))
credentials_of_strings _ _ _ = none

-- s_parse_credentials_from_imds_document; cJSON reads up to the first NUL
unfoldable pub parse_credentials_from_imds_document : Json → Bytes → Option Credentials
parse_credentials_from_imds_document json document =
    elim (json.parse (c_str (document ++ 0 ∷ []))) [
      | none ↦ none
      | some root ↦
          credentials_of_strings (root (codes "AccessKeyId")) (root (codes "SecretAccessKey"))
            (root (codes "Token"))
    ]

-- s_imds_finalize_get_credentials_query, with s_aws_credentials_provider_imds_user_data_destroy
unfoldable pub finalize_get_credentials_query : Json → UserData → Imds → Imds
finalize_get_credentials_query json q w = record w {
  callbacks = w.callbacks ++ parse_credentials_from_imds_document json q.current_result ∷ [];
  user_data = none;
  provider = (provider_release w.provider).0;
}

-- s_imds_on_incoming_body_fn: whether it succeeds; a response that grows too long closes the connection
unfoldable pub on_incoming_body_fn : Bytes → UserData → Imds → Imds × Bool
on_incoming_body_fn received q w =
    if ltb response_size_limit (length received + length q.current_result)
    then (record w { is_closed = true }, false)
    else (
      record w { user_data = some (record q { current_result = q.current_result ++ received }) },
      true,
    )

-- s_imds_on_incoming_headers_fn, with the status that the stream gives, `none` where that fails
unfoldable pub on_incoming_headers_fn : Bool → Option ℕ → UserData → Imds → Imds × Bool
on_incoming_headers_fn is_main status q w =
    if is_main && (q.status_code == 0)
    then elim status [
      | none ↦ (w, false)
      | some code ↦ (record w { user_data = some (record q { status_code = code }) }, true)
    ]
    else (w, true)

-- the request that s_make_imds_http_query builds
abbrev pub imds_request : Bytes → Request
imds_request uri = record {
  headers =
      record { name = codes "Accept"; value = codes "*/*" }
      ∷ record { name = codes "User-Agent"; value = codes "aws-sdk-crt/imds-credentials-provider" }
      ∷ record { name = codes "Connection"; value = codes "keep-alive" }
      ∷ [];
  path = uri;
  method = codes "GET";
}

-- s_make_imds_http_query; `makes` is whether the connection gives a stream
unfoldable pub make_imds_http_query : Bool → Bytes → UserData → Imds → UserData × Imds
make_imds_http_query makes uri q w = (
  record q { request = some (imds_request uri) },
  record w { requests = if makes then w.requests ++ imds_request uri ∷ [] else w.requests },
)

-- a query that goes on with its request, or ends where the request cannot be made
unfoldable pub query_or_finalize : Json → Bool → Bytes → UserData → Imds → Imds
query_or_finalize json makes uri q w =
    let (q', w') = make_imds_http_query makes uri q w in
    if makes then record w' { user_data = some q' } else finalize_get_credentials_query json q' w'

-- s_imds_query_instance_role_credentials
unfoldable pub query_instance_role_credentials : Library → Json → Bool → UserData → Imds → Imds
query_instance_role_credentials c json makes q w =
    if length q.current_result == 0
    then finalize_get_credentials_query json q w
    else elim (c.append (buf_init (length metadata_resource_path + length q.current_result))
          metadata_resource_path
        >>= (λ uri. c.append uri q.current_result)) [
          | err e ↦ finalize_get_credentials_query json q w
          | ok uri ↦ query_or_finalize json makes uri.bytes (reset_response q) w
        ]

-- the response that s_imds_on_stream_complete_fn goes on with: nothing of it but on status 200
unfoldable pub accepted : UserData → UserData
accepted q = record q {
  request = none;
  current_result = if q.status_code == 200 then q.current_result else [];
}

-- s_imds_on_stream_complete_fn
unfoldable pub on_stream_complete_fn : Library → Json → Bool → ℕ → UserData → Imds → Imds
on_stream_complete_fn c json makes error_code q w =
    if (q.status_code == 200) && (error_code == 0)
    then elim q.query_state [
      | role_name ↦
          query_instance_role_credentials c json makes
            (record (accepted q) { query_state = role_credentials }) w
      | role_credentials ↦ finalize_get_credentials_query json (accepted q) w
    ]
    else finalize_get_credentials_query json (accepted q) w

-- s_imds_on_acquire_connection, with s_imds_query_instance_role_name
unfoldable pub on_acquire_connection : Json → Bool → Bool → UserData → Imds → Imds
on_acquire_connection json connection makes q w =
    if connection
    then query_or_finalize json makes metadata_resource_path
        (record q { connection = true; query_state = role_name }) w
    else finalize_get_credentials_query json q w

-- s_credentials_provider_imds_get_credentials_async
unfoldable pub imds_get_credentials_async : Provider → Imds
imds_get_credentials_async provider = record {
  provider = provider_acquire provider;
  user_data = some user_data_new;
  requests = [];
  callbacks = [];
  is_closed = false;
}
