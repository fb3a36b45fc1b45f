-- ===== src/Providers/Imds/Answer.antt =====
-- Which credentials the instance metadata provider gives.
use mathlib.Core.List.{flatten}
use aws_c_auth.Common.{
  ℕ, suc, ◌+◌, ◌≤◌, Bool, true, false, List, [], ◌∷◌, ◌++◌, append_assoc, append-nil, none, some,
  Bytes, codes, length, length-append, ltb, leb, ◌==◌, ◌≡◌, ◌≢◌, refl, sym, ap, ◌∙◌, arith, ok,
  ◌>>=◌,
}
use aws_c_auth.External.{Library, Documented, buf_init}
use aws_c_auth.Providers.Lifetime.{Provider}
use aws_c_auth.Providers.FromProfile.{c_str}
use aws_c_auth.Providers.Imds.{
  Json, role_name, role_credentials, UserData, Imds, response_size_limit, metadata_resource_path,
  user_data_new, reset_response, parse_credentials_from_imds_document,
  finalize_get_credentials_query, on_incoming_body_fn, on_incoming_headers_fn, make_imds_http_query,
  query_or_finalize, query_instance_role_credentials, accepted, on_stream_complete_fn,
  on_acquire_connection, imds_get_credentials_async, imds_request,
}

module _ (c : Library) (json : Json) where
  -- The pieces of a body, one after the other.
  abbrev pub receive : List Bytes → Imds → Imds
  receive [] w = w
  receive (piece ∷ pieces) w =
      receive pieces (elim w.user_data [ none ↦ w | some q ↦ (on_incoming_body_fn piece q w).0 ])

  abbrev begin_response : ℕ → Imds → Imds
  begin_response status w = elim w.user_data [
    | none ↦ w
    | some q ↦ (on_incoming_headers_fn true (some status) q w).0
  ]

  abbrev end_response : ℕ → Imds → Imds
  end_response error_code w = elim w.user_data [
    | none ↦ w
    | some q ↦ on_stream_complete_fn c json true error_code q w
  ]

  -- A whole response: its status, the pieces of its body and its end.
  abbrev pub respond : ℕ → List Bytes → ℕ → Imds → Imds
  respond status pieces error_code w =
      end_response error_code (receive pieces (begin_response status w))

  -- A query whose connection has come and that has made its first request.
  abbrev pub connected : Provider → Imds
  connected provider =
      on_acquire_connection json true true user_data_new (imds_get_credentials_async provider)

  receive_lem :
      (pieces : List Bytes) (q : UserData) (w : Imds)
      → length q.current_result + length (flatten pieces) ≤ response_size_limit
      → receive pieces (record w { user_data = some q }) ≡ record w {
        user_data = some (record q { current_result = q.current_result ++ flatten pieces });
      }
  unfolding on_incoming_body_fn flatten
  receive_lem [] q w h =
      ap (λ s. record w { user_data = some (record q { current_result = s }) })
        (sym (append-nil q.current_result))
  receive_lem (piece ∷ pieces) q w h =
      let fits : ltb response_size_limit (length piece + length q.current_result) ≡ false =
        ground (arith, h, length-append piece (flatten pieces)) in
      rw fits (
        receive_lem pieces (record q { current_result = q.current_result ++ piece }) w
          (omega
            (arith, h, length-append q.current_result piece, length-append piece (flatten pieces)))
        ∙ ap (λ s. record w { user_data = some (record q { current_result = s }) })
            (append_assoc q.current_result piece (flatten pieces)))

  respond_lem :
      (status error_code : ℕ) (pieces : List Bytes) (q : UserData) (w : Imds)
      → q.status_code ≡ 0
      → length q.current_result + length (flatten pieces) ≤ response_size_limit
      → respond status pieces error_code (record w { user_data = some q }) ≡ (
          let q' = record q {
            status_code = status;
            current_result = q.current_result ++ flatten pieces;
          } in
          on_stream_complete_fn c json true error_code q' (record w { user_data = some q' }))
  unfolding on_incoming_headers_fn
  respond_lem status error_code pieces q w z h =
      rw z
        (ap (end_response error_code) (receive_lem pieces (record q { status_code = status }) w h))

  module _ (d : Documented c) where
    role_path :
        (role : Bytes)
        → (c.append (buf_init (length metadata_resource_path + length role)) metadata_resource_path
            >>= (λ uri. c.append uri role))
          ≡ ok (record {
            bytes = metadata_resource_path ++ role;
            capacity = length metadata_resource_path + length role;
          })
    unfolding codes
    role_path role =
        let room = length metadata_resource_path + length role in
        let fits : leb (length metadata_resource_path) room ≡ true = ground arith in
        let fits' : leb (length metadata_resource_path + length role) room ≡ true = ground arith in
        rw (d.append_eq (buf_init room) metadata_resource_path, fits)
          (d.append_eq _ role ∙ rw fits' refl)

    -- The end of a good response with a role's name begins the request for its credentials.
    complete-role :
        (q : UserData) (w : Imds) (n : ℕ)
        → q.status_code ≡ 200
        → q.query_state ≡ role_name
        → length q.current_result ≡ suc n
        → on_stream_complete_fn c json true 0 q w ≡ record w {
          user_data = some (record q {
            query_state = role_credentials;
            current_result = [];
            status_code = 0;
            request = some (imds_request (metadata_resource_path ++ q.current_result));
          });
          requests = w.requests ++ imds_request (metadata_resource_path ++ q.current_result) ∷ [];
        }
    unfolding on_stream_complete_fn query_instance_role_credentials accepted reset_response
        query_or_finalize make_imds_http_query
    complete-role q w n s r l =
        let some_name : (length q.current_result == 0) ≡ false = ground (arith, l) in
        simp (s, r, some_name, role_path)

  -- The end of a good response with credentials.
  complete-credentials :
      (q : UserData) (w : Imds)
      → q.status_code ≡ 200
      → q.query_state ≡ role_credentials
      → on_stream_complete_fn c json true 0 q w ≡ finalize_get_credentials_query json (accepted q) w
  unfolding on_stream_complete_fn
  complete-credentials q w s r = simp (s, r)

  -- With the response to a role's name and then that to its credentials, both good and no longer than
  -- the limit in whatever pieces they come, the original callback is made once, with what the second
  -- document holds. The requests were one for the name of the role and one for that name's
  -- credentials.
  pub imds-credentials :
      (d : Documented c) (provider : Provider) (role document : List Bytes) (n : ℕ)
      → length (flatten role) ≡ suc n
      → length (flatten role) ≤ response_size_limit
      → length (flatten document) ≤ response_size_limit
      → (let w = respond 200 document 0 (respond 200 role 0 (connected provider)) in
          (w.callbacks ≡ parse_credentials_from_imds_document json (flatten document) ∷ [])
          × (w.requests
              ≡ imds_request metadata_resource_path
                ∷ imds_request (metadata_resource_path ++ flatten role)
                ∷ []))
  unfolding on_acquire_connection query_or_finalize make_imds_http_query imds_get_credentials_async
      user_data_new finalize_get_credentials_query accepted
  imds-credentials d provider role document n l h k =
      let q : UserData = record {
        query_state = role_name;
        connection = true;
        request = some (imds_request metadata_resource_path);
        current_result = [];
        status_code = 0;
      } in
      let named : UserData = record q { status_code = 200; current_result = flatten role } in
      let q' : UserData = record q {
        query_state = role_credentials;
        request = some (imds_request (metadata_resource_path ++ flatten role));
      } in
      let w' : Imds = record (connected provider) {
        user_data = some q';
        requests =
            imds_request metadata_resource_path
            ∷ imds_request (metadata_resource_path ++ flatten role)
            ∷ [];
      } in
      let first : respond 200 role 0 (connected provider) ≡ w' =
        respond_lem 200 0 role q (connected provider) refl (omega (arith, h))
        ∙ complete-role d named (record (connected provider) { user_data = some named }) n refl refl
            l in
      let whole =
        ap (respond 200 document 0) first
        ∙ (respond_lem 200 0 document q' w' refl (omega (arith, k))
            ∙ complete-credentials
                (record q' { status_code = 200; current_result = flatten document }) _ refl refl) in
      (ap (λ w. w.callbacks) whole, ap (λ w. w.requests) whole)

  -- A response with any status but 200 ends the query without credentials, whatever its body, if cJSON
  -- takes an empty text for no document.
  pub on_stream_complete_fn-refused :
      (makes : Bool) (error_code : ℕ) (q : UserData) (w : Imds)
      → json.parse [] ≡ none
      → q.status_code ≢ 200
      → (on_stream_complete_fn c json makes error_code q w).callbacks ≡ w.callbacks ++ none ∷ []
  unfolding on_stream_complete_fn accepted finalize_get_credentials_query
      parse_credentials_from_imds_document c_str
  on_stream_complete_fn-refused makes error_code q w e n =
      let other : (q.status_code == 200) ≡ false = ground (arith, n) in
      simp (other, parse_credentials_from_imds_document, e)
