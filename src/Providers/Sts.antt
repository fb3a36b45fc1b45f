-- ===== src/Providers/Sts.antt =====
-- The security token service provider, source/credentials_provider_sts.c, and the cache around it in
-- source/credentials.c. Memory does not run out. What the XML parser makes of a
-- response is an argument, for which Handler has the function of the source.
pub mod Body
pub mod Response
pub mod Handler
use aws_c_auth.Common.{
  ℕ, ◌+◌, ◌-◌, Bool, true, false, not, ◌&&◌, List, [], ◌∷◌, ◌++◌, Option, none, some, Bytes, codes,
  length, ltb, ◌==◌, if◌then◌else◌, Result, Error, ok, err, ◌>>=◌,
}
use aws_c_auth.External.{ByteBuf, buf_init, Library, Uri, UriParam}
use aws_c_auth.Signing.Config.{Config, sig_v4_header, on}
use aws_c_auth.Signing.State.{Header, Stream, State, Credentials}
use aws_c_auth.Signing.Outcome.{SigningResult}
use aws_c_auth.Signing.Sign.{
  Asked, Wait, Completion, completed, failed, signing_config_aws, sign_request_aws,
}
use aws_c_auth.Http.{Message, signable_new_http_request, apply_signing_result_to_http_request}
use aws_c_auth.Providers.Lifetime.{Provider, provider_acquire, provider_release}
use aws_c_auth.Providers.FromProfile.{StsOptions, at_most}

abbrev pub default_duration_secs : ℕ
default_duration_secs = 900

-- struct aws_credentials_provider_sts_impl, as far as requests read it
pub record StsImpl : Type 0 where
  pub assume_role_profile : Bytes
  pub role_session_name : Bytes
  pub duration_seconds : ℕ

abbrev at_least_default : ℕ → ℕ
at_least_default seconds =
    if ltb seconds default_duration_secs then default_duration_secs else seconds

-- aws_credentials_provider_new_sts, where the connections can be set up
unfoldable pub new_sts : StsOptions → StsImpl
new_sts options = record {
  assume_role_profile = options.role_arn;
  role_session_name = options.session_name;
  duration_seconds = at_least_default options.duration_seconds;
}

-- aws_credentials_provider_new_sts_cached: the provider, and the seconds after which the cache over it
-- asks again
unfoldable pub new_sts_cached : StsOptions → StsImpl × ℕ
new_sts_cached options = (new_sts options, at_least_default options.duration_seconds - 30)

-- snprintf of a decimal numeral into an array with room for so many bytes and a NUL
abbrev printed : (ℕ → Bytes) → ℕ → ℕ → Bytes
printed decimal room n = at_most room (decimal n)

-- s_write_body_to_buffer; `decimal` is the numeral that snprintf writes
unfoldable pub write_body_to_buffer : Library → (ℕ → Bytes) → StsImpl → ByteBuf → Result ByteBuf
write_body_to_buffer c decimal provider_impl body = do
  body ← c.append_dynamic body (codes "Version=2011-06-15&Action=AssumeRole&RoleArn=")
  body ← c.append_encoding_uri_param body provider_impl.assume_role_profile
  body ← c.append_dynamic body (codes "&RoleSessionName=")
  body ← c.append_encoding_uri_param body provider_impl.role_session_name
  body ← c.append_dynamic body (codes "&DurationSeconds=")
  c.append_dynamic body (printed decimal 5 provider_impl.duration_seconds)

-- the message that s_sts_get_creds builds; `stream_of` is aws_input_stream_new_from_cursor
unfoldable pub sts_message : (ℕ → Bytes) → (Bytes → Stream) → Bytes → Message
sts_message decimal stream_of payload = record {
  method = codes "POST";
  path = codes "/";
  headers =
      record { name = codes "host"; value = codes "sts.amazonaws.com" }
      ∷ record { name = codes "content-type"; value = codes "application/x-www-form-urlencoded" }
      ∷ record { name = codes "x-amz-api-version"; value = codes "2011-06-15" }
      ∷ record { name = codes "content-length"; value = printed decimal 20 (length payload) }
      ∷ [];
  body_stream = some (stream_of payload);
}

-- the signing configuration that s_sts_get_creds fills, on zeroed memory
unfoldable pub sts_signing_config : Option ℕ → ℕ → Config
sts_signing_config provider now = record {
  algorithm = sig_v4_header;
  credentials_provider = provider;
  region = codes "us-east-1";
  service = codes "sts";
  date = now;
  should_sign_param = none;
  use_double_uri_encode = false;
  should_normalize_uri_path = false;
  body_signing_type = on;
}

-- struct aws_credentials while it is filled: `none` is NULL
pub record Filled : Type 0 where
  pub access_key_id : Option Bytes
  pub secret_access_key : Option Bytes
  pub session_token : Option Bytes

-- What aws_xml_parser_parse makes of a response: whether it succeeds, and what the credentials hold
-- behind it.
pub record Parsed : Type 0 where
  pub succeeds : Bool
  pub credentials : Filled

-- struct sts_creds_provider_user_data
pub record StsQuery : Type 0 where
  pub message : Message
  pub connection : Bool
  pub output_buf : Bytes

-- A query with its provider: its user data until they are freed, and the calls of the callback.
pub record Sts : Type 0 where
  pub provider : Provider
  pub user_data : Option StsQuery
  pub callbacks : List (Option Filled)

-- s_clean_up_user_data
unfoldable pub clean_up_user_data : Option Filled → Sts → Sts
clean_up_user_data credentials w = record w {
  callbacks = w.callbacks ++ credentials ∷ [];
  user_data = none;
  provider = (provider_release w.provider).0;
}

-- s_on_incoming_body_fn of the STS provider
unfoldable pub sts_on_incoming_body_fn : Bytes → StsQuery → Sts → Sts
sts_on_incoming_body_fn received q w = record w {
  user_data = some (record q { output_buf = q.output_buf ++ received });
}

abbrev pub has_all : Option Bytes → Option Bytes → Option Bytes → Bool
has_all (some a) (some s) (some t) = true
has_all _ _ _ = false

-- what the callback gets from a parsed response
unfoldable pub credentials_of_response : Parsed → Option Filled
credentials_of_response parsed =
    let filled = parsed.credentials in
    if parsed.succeeds
    then (if has_all filled.access_key_id filled.secret_access_key filled.session_token
        then some filled
        else none)
    else some filled

-- s_on_stream_complete_fn, with the status that the stream gives, `none` where that fails
unfoldable pub sts_on_stream_complete_fn : (Bytes → Parsed) → Option ℕ → ℕ → StsQuery → Sts → Sts
sts_on_stream_complete_fn parse none error_code q w = clean_up_user_data none w
sts_on_stream_complete_fn parse (some http_response_code) error_code q w =
    clean_up_user_data
      (if (error_code == 0) && (http_response_code == 200)
        then credentials_of_response (parse q.output_buf)
        else none)
      w

-- s_on_connection_setup_fn; `makes` is whether the connection gives a stream
unfoldable pub on_connection_setup_fn : ℕ → Bool → StsQuery → Sts → Sts
on_connection_setup_fn error_code makes q w =
    if not (error_code == 0)
    then clean_up_user_data none w
    else (if makes
        then record w { user_data = some (record q { connection = true; output_buf = [] }) }
        else clean_up_user_data none w)

module _ (c : Library) (from_builder : Uri → List UriParam → Result Bytes) where
  abbrev pub after_signing : Result Message → StsQuery → Sts → Sts
  after_signing (err e) q w = clean_up_user_data none w
  after_signing (ok message) q w = record w { user_data = some (record q { message = message }) }

  -- s_on_signing_complete: the message that waits for a connection
  unfoldable pub on_signing_complete : Completion → StsQuery → Sts → Sts
  on_signing_complete (failed e) q w = clean_up_user_data none w
  on_signing_complete (completed result) q w =
      after_signing (apply_signing_result_to_http_request c from_builder q.message result) q w

  -- the completions that are made within aws_sign_request_aws
  unfoldable pub signed_at_once : List Completion → StsQuery → Sts → Sts
  signed_at_once [] q w = w
  signed_at_once (completion ∷ rest) q w =
      signed_at_once rest q (on_signing_complete completion q w)

  -- the end of s_sts_get_creds, from the call of aws_sign_request_aws on; behind an error the user data are
  -- cleaned up, though a completion may have done that
  abbrev pub signing_begun : Message → List Completion × Result Wait → Sts → Sts × Result Wait
  signing_begun message (completions, wait) w =
      let q : StsQuery = record { message = message; connection = false; output_buf = [] } in
      let signed = signed_at_once completions q (record w { user_data = some q }) in
      elim wait [
        | err e ↦ (clean_up_user_data none signed, err e)
        | ok callback ↦ (signed, ok callback)
      ]

  -- s_sts_get_creds behind the body
  abbrev pub body_written : (Bytes → Sts × Result Wait) → Result ByteBuf → Sts → Sts × Result Wait
  body_written rest (err e) w = (clean_up_user_data none w, err e)
  body_written rest (ok payload_body) w = rest payload_body.bytes

  -- s_sts_get_creds: the query, and what waits for the source's credentials or the error that is
  -- returned; `asked` is what the source does as it is asked
  unfoldable pub sts_get_creds :
      (ℕ → Bytes)
      → (Bytes → Stream)
      → StsImpl
      → Option ℕ
      → ℕ
      → Asked
      → Provider
      → Sts × Result (Option Credentials → Completion)
  sts_get_creds decimal stream_of impl source now asked provider =
      let w : Sts = record {
        provider = provider_acquire provider;
        user_data = none;
        callbacks = [];
      } in
      body_written
        (λ payload.
          let message = sts_message decimal stream_of payload in
          signing_begun message
            (sign_request_aws c signing_config_aws (sts_signing_config source now)
              (signable_new_http_request message) asked)
            w)
        (write_body_to_buffer c decimal impl (buf_init 256)) w
