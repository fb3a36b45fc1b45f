-- ===== src/Providers/Tests/Services.antt =====
-- Runs of the instance metadata provider and of the token service provider.
use mathlib.Core.List.{flatten}
use aws_c_auth.Common.{
  ℕ, ◌+◌, ◌<◌, ◌≤◌, true, false, List, [], ◌∷◌, ◌++◌, none, some, Bytes, codes, length, ◌==◌,
  if◌then◌else◌, ◌≡◌, refl, arith, Returns, Result, ok, no_credentials,
}
use aws_c_auth.External.{buf_init, Uri, UriParam}
use aws_c_auth.External.Example.{sample, sample_documented}
use aws_c_auth.Signing.State.{Stream}
use aws_c_auth.Providers.Lifetime.{provider_init_base}
use aws_c_auth.Providers.FromProfile.{StsOptions, imds}
use aws_c_auth.Providers.Imds.{
  Json, Imds, imds_request, metadata_resource_path, parse_credentials_from_imds_document,
  imds_get_credentials_async, on_acquire_connection, user_data_new, on_stream_complete_fn,
}
use aws_c_auth.Providers.Imds.History.{here as imds_here, next, connect, Reach-IsTracked}
use aws_c_auth.Providers.Imds.Account.{IsTracked}
use aws_c_auth.Providers.Imds.Answer.{
  respond, connected, imds-credentials, on_stream_complete_fn-refused,
}
use aws_c_auth.Providers.Sts.{
  StsImpl, Parsed, new_sts_cached, default_duration_secs, write_body_to_buffer, sts_get_creds,
}
use aws_c_auth.Providers.Sts.Body.{
  assume_role_text, write_body_to_buffer-text, new_sts_cached-grace,
}
use aws_c_auth.Signing.Sign.{refuses, calls_and_refuses}
use aws_c_auth.Providers.Sts.Response.{IsOnce, here, StsReach-IsOnce, sts_get_creds-twice}

-- cJSON on one document
abbrev json : Json
json = record {
  parse = λ text. if length text == 0 then none else some (λ name. some (codes "value"));
}

begins : (imds_get_credentials_async provider_init_base).user_data ≡ some user_data_new
unfolding imds_get_credentials_async
begins = refl

unconnected : user_data_new.connection ≡ false
unfolding user_data_new
unconnected = refl

Reach-IsTracked_example : IsTracked provider_init_base.ref_count (
    on_acquire_connection json true true user_data_new
      (imds_get_credentials_async provider_init_base))
Reach-IsTracked_example = Reach-IsTracked sample json provider_init_base _ (
    next imds_here (
      connect (imds_get_credentials_async provider_init_base) user_data_new true true begins
        unconnected))

abbrev role_pieces : List Bytes
role_pieces = codes "my" ∷ codes "role" ∷ []

abbrev document : List Bytes
document = codes "{}" ∷ []

length-role_pieces : length (flatten role_pieces) ≡ 6
unfolding flatten codes
length-role_pieces = refl

length-document : length (flatten document) ≡ 2
unfolding flatten codes
length-document = refl

imds_example :
    (let w =
        respond sample json 200 document 0
          (respond sample json 200 role_pieces 0 (connected sample json provider_init_base)) in
      (w.callbacks ≡ parse_credentials_from_imds_document json (flatten document) ∷ [])
      × (w.requests
          ≡ imds_request metadata_resource_path
            ∷ imds_request (metadata_resource_path ++ flatten role_pieces)
            ∷ []))
imds_example =
    imds-credentials sample json sample_documented provider_init_base role_pieces document 5
      length-role_pieces (omega (arith, length-role_pieces)) (omega (arith, length-document))

abbrev waiting_query : Imds
waiting_query = imds_get_credentials_async provider_init_base

refused_example :
    (on_stream_complete_fn sample json true 0
      (record user_data_new { status_code = 404 })
      waiting_query).callbacks
    ≡ waiting_query.callbacks ++ none ∷ []
refused_example =
    on_stream_complete_fn-refused sample json true 0 (record user_data_new { status_code = 404 })
      waiting_query refl (λ e. ground (arith, e))

abbrev decimal : ℕ → Bytes
decimal n = codes "900"

abbrev sts_options : StsOptions
sts_options = record {
  role_arn = codes "arn:aws:iam::1:role/r";
  session_name = codes "s";
  duration_seconds = 0;
  creds_provider = imds;
}

abbrev impl : StsImpl
impl = record {
  assume_role_profile = codes "arn:aws:iam::1:role/r";
  role_session_name = codes "s";
  duration_seconds = 900;
}

short : (n : ℕ) → n < 65536 → length (decimal n) ≤ 5
unfolding codes
short n h = omega arith

sts_body_example :
    Returns
      (write_body_to_buffer sample decimal impl (buf_init 256))
      (λ r. r.bytes ≡ [] ++ assume_role_text sample sample_documented decimal impl)
sts_body_example =
    write_body_to_buffer-text sample sample_documented decimal impl (buf_init 256) short
      (omega arith)

grace_example :
    (let (impl, refresh) = new_sts_cached sts_options in
      (default_duration_secs ≤ impl.duration_seconds)
      × (impl.duration_seconds ≡ refresh + 30)
      × (default_duration_secs ≤ sts_options.duration_seconds
          → impl.duration_seconds ≡ sts_options.duration_seconds))
grace_example = new_sts_cached-grace sts_options

abbrev parse : Bytes → Parsed
parse text = record {
  succeeds = true;
  credentials = record {
    access_key_id = some (codes "AKID");
    secret_access_key = some (codes "secret");
    session_token = some (codes "token");
  };
}

abbrev from_builder : Uri → List UriParam → Result Bytes
from_builder uri params = ok uri.path

abbrev stream_of : Bytes → Stream
stream_of payload = record {
  seek_before = ok tt;
  reads = (payload, ok true) ∷ [];
  seek_after = ok tt;
}

once_example :
    IsOnce provider_init_base.ref_count
      (sts_get_creds sample from_builder decimal stream_of impl
        (some 1)
        1440938160
        (refuses no_credentials)
        provider_init_base).0
once_example =
    StsReach-IsOnce sample from_builder parse decimal stream_of impl (some 1) 1440938160
      (refuses no_credentials) provider_init_base _ refl here

held : 0 < provider_init_base.ref_count
unfolding provider_init_base
held = omega arith

twice_example :
    (let w =
        (sts_get_creds sample from_builder decimal stream_of impl
          (some 1)
          1440938160
          (calls_and_refuses none no_credentials)
          provider_init_base).0 in
      (w.callbacks ≡ none ∷ none ∷ []) × (w.provider.ref_count + 1 ≡ provider_init_base.ref_count))
twice_example =
    sts_get_creds-twice sample from_builder parse sample_documented decimal stream_of impl 1
      1440938160 no_credentials provider_init_base short (omega arith) held
