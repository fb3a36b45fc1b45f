-- ===== src/Http.antt =====
-- The HTTP request as something to sign, and the signing result applied to it:
-- source/sigv4_http_request.c.
pub mod Signed
pub mod Presigned
pub mod Tests
use aws_c_auth.Common.{
  Bool, true, false, List, [], ◌∷◌, ◌++◌, Option, none, some, Bytes, bytes_eq, if◌then◌else◌,
  Result, ok, err, ◌>>=◌, unraised,
}
use aws_c_auth.External.{Library, Uri, UriParam}
use aws_c_auth.Signing.Outcome.{Property, SigningResult, get_property_list}
use aws_c_auth.Signing.State.{
  Header, Stream, Signable, http_headers_list, http_query_params_list, http_uri_property,
  http_method_property,
}

-- struct aws_http_message of aws-c-http, as far as the code reads and writes it
pub record Message : Type 0 where
  pub method : Bytes
  pub path : Bytes
  pub headers : List Header
  pub body_stream : Option Stream

-- the loop that makes the signing parameters
unfoldable pub signed_params : List Property → List UriParam
signed_params [] = []
signed_params (source_param ∷ rest) =
    record { key = source_param.name; value = source_param.value } ∷ signed_params rest

-- the loop that adds the headers; the strings of a property are never NULL
unfoldable pub add_headers : Message → List Property → Message
add_headers request [] = request
add_headers request (source_header ∷ rest) =
    add_headers
      (record request {
        headers =
            request.headers
            ++ record { name = source_header.name; value = source_header.value } ∷ [];
      })
      rest

abbrev pub add_all : Message → Option (List Property) → Message
add_all request none = request
add_all request (some headers) = add_headers request headers

-- `from_builder` is aws_uri_init_from_builder_options with host, path, port and scheme of the old URI and
-- with these parameters: the text of the new URI
module _ (c : Library) (from_builder : Uri → List UriParam → Result Bytes) where
  -- s_build_request_uri
  unfoldable pub build_request_uri : Message → SigningResult → Result Message
  build_request_uri request signing_result =
      elim (get_property_list signing_result http_query_params_list) [
        | none ↦ ok request
        | some result_param_list ↦ do
          old_uri ← c.uri_init_parse request.path
          query_params ← c.uri_query_string_params old_uri
          new_uri ← from_builder old_uri (query_params ++ signed_params result_param_list)
          ok (record request { path = new_uri })
      ]

  -- aws_apply_signing_result_to_http_request
  unfoldable pub apply_signing_result_to_http_request : Message → SigningResult → Result Message
  apply_signing_result_to_http_request request result = do
    request ← build_request_uri request result
    ok (add_all request (get_property_list result http_headers_list))

-- s_aws_signable_http_request_get_property
unfoldable pub signable_http_request_get_property : Message → Bytes → Result Bytes
signable_http_request_get_property request name =
    if bytes_eq name http_uri_property
    then ok request.path
    else if bytes_eq name http_method_property
    then ok request.method
    else err unraised

-- s_aws_signable_http_request_get_property_list
unfoldable pub signable_http_request_get_property_list : Message → Bytes → Result (List Header)
signable_http_request_get_property_list request name =
    if bytes_eq name http_headers_list then ok request.headers else err unraised

-- aws_signable_new_http_request, with s_aws_signable_http_request_get_payload_stream
unfoldable pub signable_new_http_request : Message → Signable
signable_new_http_request request = record {
  get_property = signable_http_request_get_property request;
  get_property_list = signable_http_request_get_property_list request;
  get_payload_stream = ok request.body_stream;
}
