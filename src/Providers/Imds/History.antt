-- ===== src/Providers/Imds/History.antt =====
-- What holds of an instance metadata query after every history of callbacks.
use aws_c_auth.Common.{
  ℕ, ◌+◌, Bool, true, false, ◌&&◌, ◌++◌, Option, some, Bytes, length, length-append, ltb, ◌==◌, ◌≡◌,
  refl, sym, ap, ◌∙◌, arith, Bool-cases, Option-cases, inl, inr,
}
use aws_c_auth.External.{Library}
use aws_c_auth.Providers.Lifetime.{Provider, provider_acquire}
use aws_c_auth.Providers.Imds.{
  Json, QueryState, role_name, role_credentials, Request, UserData, Imds, response_size_limit,
  metadata_resource_path, user_data_new, finalize_get_credentials_query, on_incoming_body_fn,
  on_incoming_headers_fn, query_instance_role_credentials, accepted, on_stream_complete_fn,
  on_acquire_connection, imds_get_credentials_async,
}
use aws_c_auth.Providers.Imds.Account.{
  to_come, held, wired, IsTracked, finalize-IsTracked, keep-IsTracked, query-IsTracked,
  if-IsTracked, role-IsTracked,
}

module _ (c : Library) (json : Json) where
  -- The callbacks of the HTTP library: the connection comes once, and the callbacks of a stream while
  -- its request is under way.
  pub data Step : Imds → Imds → Type 0 where
    connect :
        (w : Imds) (q : UserData) (connection makes : Bool)
        → w.user_data ≡ some q
        → q.connection ≡ false
        → Step w (on_acquire_connection json connection makes q w)
    headers :
        (w : Imds) (q : UserData) (r : Request) (is_main : Bool) (status : Option ℕ)
        → w.user_data ≡ some q
        → q.request ≡ some r
        → Step w (on_incoming_headers_fn is_main status q w).0
    body :
        (w : Imds) (q : UserData) (r : Request) (received : Bytes)
        → w.user_data ≡ some q
        → q.request ≡ some r
        → Step w (on_incoming_body_fn received q w).0
    complete :
        (w : Imds) (q : UserData) (r : Request) (makes : Bool) (error_code : ℕ)
        → w.user_data ≡ some q
        → q.request ≡ some r
        → Step w (on_stream_complete_fn c json makes error_code q w)

  pub data Reach (s : Imds) : Imds → Type 0 where
    here : Reach s s
    next : {t u : Imds} → Reach s t → Step t u → Reach s u

  connect-IsTracked :
      (references : ℕ) (connection makes : Bool) (q : UserData) (w : Imds)
      → w.user_data ≡ some q
      → q.connection ≡ false
      → IsTracked references w
      → IsTracked references (on_acquire_connection json connection makes q w)
  unfolding on_acquire_connection
  connect-IsTracked references false makes q w e n h =
      finalize-IsTracked c json references q q w e h
  connect-IsTracked references true makes q w e n h =
      query-IsTracked c json references makes metadata_resource_path q
        (record q { connection = true; query_state = role_name }) w e
        (omega (arith, h.bounded, ap held e)) (ground (arith, n)) refl h

  headers-IsTracked :
      (references : ℕ) (is_main : Bool) (status : Option ℕ) (q : UserData) (w : Imds)
      → w.user_data ≡ some q
      → IsTracked references w
      → IsTracked references (on_incoming_headers_fn is_main status q w).0
  unfolding on_incoming_headers_fn
  headers-IsTracked references is_main status q w e h =
      elim (Bool-cases (is_main && (q.status_code == 0))) [
        | inr f ↦ rw f h
        | inl f ↦ elim (Option-cases status) [
          | inl g ↦ rw (f, g) h
          | inr (code, g) ↦
              rw (f, g)
                (keep-IsTracked c json references q (record q { status_code = code }) w w.requests e
                  (omega (arith, h.bounded, ap held e)) (omega (arith, h.requests, ap to_come e))
                  (ap wired (sym e) ∙ h.connected) h)
        ]
      ]

  body-IsTracked :
      (references : ℕ) (received : Bytes) (q : UserData) (w : Imds)
      → w.user_data ≡ some q
      → IsTracked references w
      → IsTracked references (on_incoming_body_fn received q w).0
  unfolding on_incoming_body_fn
  body-IsTracked references received q w e h =
      elim (Bool-cases (ltb response_size_limit (length received + length q.current_result))) [
        | inl f ↦ rw f (record {
          once = h.once;
          referenced = h.referenced;
          bounded = h.bounded;
          requests = h.requests;
          connected = h.connected;
        })
        | inr f ↦ rw f (
            keep-IsTracked c json references q
              (record q { current_result = q.current_result ++ received }) w w.requests e
              (ground (arith, f, length-append q.current_result received))
              (omega (arith, h.requests, ap to_come e)) (ap wired (sym e) ∙ h.connected) h)
      ]

  -- Behind an accepted response, by the state of the query.
  accepted-IsTracked :
      (references : ℕ) (makes : Bool) (state : QueryState) (q : UserData) (w : Imds)
      → w.user_data ≡ some q
      → q.query_state ≡ state
      → q.connection ≡ true
      → IsTracked references w
      → IsTracked references (elim state [
        | role_name ↦
            query_instance_role_credentials c json makes
              (record (accepted q) { query_state = role_credentials })
              w
        | role_credentials ↦ finalize_get_credentials_query json (accepted q) w
      ])
  unfolding accepted
  accepted-IsTracked references makes role_name q w e s n h =
      role-IsTracked c json references makes q
        (record (accepted q) { query_state = role_credentials }) w e (rw (n, s) (omega arith)) n h
  accepted-IsTracked references makes role_credentials q w e s n h =
      finalize-IsTracked c json references q (accepted q) w e h

  complete-IsTracked :
      (references : ℕ) (makes : Bool) (error_code : ℕ) (q : UserData) (w : Imds)
      → w.user_data ≡ some q
      → q.connection ≡ true
      → IsTracked references w
      → IsTracked references (on_stream_complete_fn c json makes error_code q w)
  unfolding on_stream_complete_fn
  complete-IsTracked references makes error_code q w e n h =
      if-IsTracked c json references ((q.status_code == 200) && (error_code == 0)) _ _
        (accepted-IsTracked references makes q.query_state q w e refl n h)
        (finalize-IsTracked c json references q (accepted q) w e h)

  has_connection :
      (references : ℕ) (q : UserData) (r : Request) (w : Imds)
      → w.user_data ≡ some q
      → q.request ≡ some r
      → IsTracked references w
      → q.connection ≡ true
  has_connection references q r w e f h =
      let same : wired (some q) ≡ q.connection = simp (wired, f) in
      sym same ∙ (ap wired (sym e) ∙ h.connected)

  Step-IsTracked :
      {references : ℕ} {w w' : Imds} → Step w w' → IsTracked references w → IsTracked references w'
  Step-IsTracked {references} (connect w q connection makes e n) h =
      connect-IsTracked references connection makes q w e n h
  Step-IsTracked {references} (headers w q r is_main status e f) h =
      headers-IsTracked references is_main status q w e h
  Step-IsTracked {references} (body w q r received e f) h =
      body-IsTracked references received q w e h
  Step-IsTracked {references} (complete w q r makes error_code e f) h =
      complete-IsTracked references makes error_code q w e (has_connection references q r w e f h) h

  -- After any history of an instance metadata query: the original callback was made once if the
  -- query's data are freed, and not yet otherwise; the query holds one reference to the provider just
  -- as long; the response never exceeds its limit; and at most two requests were made.
  pub Reach-IsTracked :
      (provider : Provider) (w : Imds)
      → Reach (imds_get_credentials_async provider) w
      → IsTracked provider.ref_count w
  unfolding imds_get_credentials_async user_data_new provider_acquire
  Reach-IsTracked provider w here = record {
    once = refl;
    referenced = refl;
    bounded = omega arith;
    requests = omega arith;
    connected = refl;
  }
  Reach-IsTracked provider w (next {t} reach step) =
      Step-IsTracked step (Reach-IsTracked provider t reach)
