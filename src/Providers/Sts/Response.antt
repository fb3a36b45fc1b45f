-- ===== src/Providers/Sts/Response.antt =====
-- What an STS query calls back with.
use aws_c_auth.Common.{
  ℕ, ◌+◌, ◌<◌, ◌≤◌, Bool, true, false, not, List, [], ◌∷◌, Option, none, some, Bytes, codes, length,
  length-append, ◌==◌, if◌then◌else◌, ◌≡◌, refl, ap, arith, Result, Error, ok, err,
}
use aws_c_auth.External.{ByteBuf, buf_init, Library, Documented, Uri, UriParam}
use aws_c_auth.Signing.State.{Stream, Credentials}
use aws_c_auth.Signing.Sign.{
  Asked, calls_and_refuses, Completion, completed, failed, signing_config_aws, sign_request_aws,
  on_get_credentials,
}
use aws_c_auth.Signing.Sign.Admission.{
  IsValid, state_new-IsValid, calls_at_once, sign_request_aws-quiet,
}
use aws_c_auth.Http.{Message, signable_new_http_request, apply_signing_result_to_http_request}
use aws_c_auth.Providers.Lifetime.{Provider, provider_acquire, provider_release}
use aws_c_auth.Providers.Sts.{
  StsImpl, Filled, Parsed, StsQuery, Sts, clean_up_user_data, sts_on_incoming_body_fn,
  sts_on_stream_complete_fn, on_connection_setup_fn, after_signing, on_signing_complete,
  write_body_to_buffer, sts_get_creds, signing_begun, body_written, sts_message, sts_signing_config,
  signed_at_once,
}
use aws_c_auth.Providers.Sts.Body.{write_body_to_buffer-text}

abbrev pub waiting : Option StsQuery → ℕ
waiting none = 0
waiting (some q) = 1

-- The callback is made once, and exactly when the user data are freed; the query holds one reference
-- to the provider until then.
pub record IsOnce (references : ℕ) (w : Sts) : Type 0 where
  pub once : length w.callbacks + waiting w.user_data ≡ 1
  pub referenced : w.provider.ref_count ≡ references + waiting w.user_data

module _ (c : Library) (from_builder : Uri → List UriParam → Result Bytes)
    (parse : Bytes → Parsed) where
  -- The callbacks behind a query that has begun: its request is signed, a connection comes, and the
  -- response is received.
  pub data StsStep : Sts → Sts → Type 0 where
    signed :
        (w : Sts) (q : StsQuery) (completion : Completion)
        → w.user_data ≡ some q
        → StsStep w (on_signing_complete c from_builder completion q w)
    connected :
        (w : Sts) (q : StsQuery) (error_code : ℕ) (makes : Bool)
        → w.user_data ≡ some q
        → StsStep w (on_connection_setup_fn error_code makes q w)
    received :
        (w : Sts) (q : StsQuery) (piece : Bytes)
        → w.user_data ≡ some q
        → StsStep w (sts_on_incoming_body_fn piece q w)
    completed_stream :
        (w : Sts) (q : StsQuery) (status : Option ℕ) (error_code : ℕ)
        → w.user_data ≡ some q
        → StsStep w (sts_on_stream_complete_fn parse status error_code q w)

  pub data StsReach (s : Sts) : Sts → Type 0 where
    here : StsReach s s
    next : {t u : Sts} → StsReach s t → StsStep t u → StsReach s u

  clean_up-IsOnce :
      (references : ℕ) (cr : Option Filled) (q : StsQuery) (w : Sts)
      → w.user_data ≡ some q
      → IsOnce references w
      → IsOnce references (clean_up_user_data cr w)
  unfolding clean_up_user_data provider_release
  clean_up-IsOnce references cr q w e h = record {
    once = omega (arith, h.once, ap waiting e, length-append w.callbacks (cr ∷ []));
    referenced = omega (arith, h.referenced, ap waiting e);
  }

  keep-IsOnce :
      (references : ℕ) (q q' : StsQuery) (w : Sts)
      → w.user_data ≡ some q
      → IsOnce references w
      → IsOnce references (record w { user_data = some q' })
  keep-IsOnce references q q' w e h = record {
    once = omega (arith, h.once, ap waiting e);
    referenced = omega (arith, h.referenced, ap waiting e);
  }

  after_signing-IsOnce :
      (references : ℕ) (m : Result Message) (q : StsQuery) (w : Sts)
      → w.user_data ≡ some q
      → IsOnce references w
      → IsOnce references (after_signing c from_builder m q w)
  after_signing-IsOnce references (err x) q w e h = clean_up-IsOnce references none q w e h
  after_signing-IsOnce references (ok m) q w e h = keep-IsOnce references q _ w e h

  if-IsOnce :
      (references : ℕ) (b : Bool) (v w : Sts)
      → IsOnce references v
      → IsOnce references w
      → IsOnce references (if b then v else w)
  if-IsOnce references true v w h k = h
  if-IsOnce references false v w h k = k

  StsStep-IsOnce :
      {references : ℕ} {w w' : Sts} → StsStep w w' → IsOnce references w → IsOnce references w'
  unfolding on_signing_complete on_connection_setup_fn sts_on_incoming_body_fn
      sts_on_stream_complete_fn
  StsStep-IsOnce {references} (signed w q (failed x) e) h = clean_up-IsOnce references none q w e h
  StsStep-IsOnce {references} (signed w q (completed result) e) h =
      after_signing-IsOnce references
        (apply_signing_result_to_http_request c from_builder q.message result) q w e h
  StsStep-IsOnce {references} (connected w q error_code makes e) h =
      if-IsOnce references (not (error_code == 0)) _ _ (clean_up-IsOnce references none q w e h) (
        if-IsOnce references makes _ _ (keep-IsOnce references q _ w e h)
          (clean_up-IsOnce references none q w e h))
  StsStep-IsOnce {references} (received w q piece e) h = keep-IsOnce references q _ w e h
  StsStep-IsOnce {references} (completed_stream w q none error_code e) h =
      clean_up-IsOnce references none q w e h
  StsStep-IsOnce {references} (completed_stream w q (some status) error_code e) h =
      clean_up-IsOnce references _ q w e h

  -- The query before its body is written.
  abbrev begun : Provider → Sts
  begun provider = record { provider = provider_acquire provider; user_data = none; callbacks = [] }

  failed-IsOnce :
      (provider : Provider) → IsOnce provider.ref_count (clean_up_user_data none (begun provider))
  unfolding clean_up_user_data provider_release provider_acquire
  failed-IsOnce provider = record { once = refl; referenced = omega arith }

  signing_begun-IsOnce :
      (provider : Provider) (message : Message) (completions : List Completion)
      (wait : Result (Option Credentials → Completion))
      → completions ≡ []
      → IsOnce provider.ref_count
          (signing_begun c from_builder message (completions, wait) (begun provider)).0
  unfolding provider_acquire signed_at_once clean_up_user_data provider_release
  signing_begun-IsOnce provider message [] (err e) h = record {
    once = refl;
    referenced = omega arith;
  }
  signing_begun-IsOnce provider message [] (ok wait) h = record { once = refl; referenced = refl }
  signing_begun-IsOnce provider message (x ∷ xs) wait h = cc h

  body_written-IsOnce :
      (provider : Provider) (rest : Bytes → Sts × Result (Option Credentials → Completion))
      (body : Result ByteBuf)
      → ((payload : Bytes) → IsOnce provider.ref_count (rest payload).0)
      → IsOnce provider.ref_count (body_written c from_builder rest body (begun provider)).0
  body_written-IsOnce provider rest (err e) h = failed-IsOnce provider
  body_written-IsOnce provider rest (ok payload) h = h payload.bytes

  get_creds-IsOnce :
      (decimal : ℕ → Bytes) (stream_of : Bytes → Stream) (impl : StsImpl) (source : Option ℕ)
      (now : ℕ) (asked : Asked) (provider : Provider)
      → calls_at_once asked ≡ false
      → IsOnce provider.ref_count
          (sts_get_creds c from_builder decimal stream_of impl source now asked provider).0
  unfolding sts_get_creds
  get_creds-IsOnce decimal stream_of impl source now asked provider quiet =
      body_written-IsOnce provider _ (write_body_to_buffer c decimal impl (buf_init 256))
        (λ payload.
          let message = sts_message decimal stream_of payload in
          signing_begun-IsOnce provider message _ _ (
            sign_request_aws-quiet c signing_config_aws (sts_signing_config source now)
              (signable_new_http_request message) asked quiet))

  -- After any history of an STS query whose source does not make its callback and then return an error,
  -- the query's callback was made once if its data are freed, and not yet otherwise, and it holds one
  -- reference to the provider just as long. That includes the queries for which an error is returned at
  -- once: their callback was made too.
  pub StsReach-IsOnce :
      (decimal : ℕ → Bytes) (stream_of : Bytes → Stream) (impl : StsImpl) (source : Option ℕ)
      (now : ℕ) (asked : Asked) (provider : Provider) (w : Sts)
      → calls_at_once asked ≡ false
      → StsReach (sts_get_creds c from_builder decimal stream_of impl source now asked provider).0 w
      → IsOnce provider.ref_count w
  StsReach-IsOnce decimal stream_of impl source now asked provider w quiet here =
      get_creds-IsOnce decimal stream_of impl source now asked provider quiet
  StsReach-IsOnce decimal stream_of impl source now asked provider w quiet (next {t} reach step) =
      StsStep-IsOnce step
        (StsReach-IsOnce decimal stream_of impl source now asked provider t quiet reach)

  sts_signing_config-IsValid : (source now : ℕ) → IsValid (sts_signing_config (some source) now)
  unfolding sts_signing_config codes
  sts_signing_config-IsValid source now = (λ h. cc h, λ h. cc h, source, refl)

  -- Where the source makes its callback without credentials and then returns an error, as a token service
  -- does whose own request fails, s_sts_get_creds makes its callback twice, and releases twice the
  -- reference that it took to the provider once: the last that there is, if nothing else holds one.
  pub sts_get_creds-twice :
      (d : Documented c) (decimal : ℕ → Bytes) (stream_of : Bytes → Stream) (impl : StsImpl)
      (source now : ℕ) (e : Error) (provider : Provider)
      → ((n : ℕ) → n < 65536 → length (decimal n) ≤ 5)
      → impl.duration_seconds < 65536
      → 0 < provider.ref_count
      → (let w =
            (sts_get_creds c from_builder decimal stream_of impl
              (some source)
              now
              (calls_and_refuses none e)
              provider).0 in
          (w.callbacks ≡ none ∷ none ∷ []) × (w.provider.ref_count + 1 ≡ provider.ref_count))
  unfolding sts_get_creds sign_request_aws sts_signing_config signed_at_once on_signing_complete
      clean_up_user_data provider_acquire provider_release on_get_credentials
  sts_get_creds-twice d decimal stream_of impl source now e provider digits short held =
      let body = write_body_to_buffer-text c d decimal impl (buf_init 256) digits short in
      let message = sts_message decimal stream_of body.value.bytes in
      let config = sts_signing_config (some source) now in
      let valid = sts_signing_config-IsValid source now in
      let state = state_new-IsValid c d config (signable_new_http_request message) valid in
      rw (body.is_ok, state.is_ok) (refl, omega (arith, held))
