-- ===== src/Http/Signed.antt =====
-- A signed request: what it carries, and that it is not signed twice.
use aws_c_auth.Common.{
  true, List, [], ◌∷◌, ◌++◌, append_assoc, append-nil, Option, none, some, Bytes, codes, bytes_eq,
  any, ◌≡◌, ◌≢◌, refl, sym, ap, ◌∙◌, Result, ok, err, ◌>>=◌, >>=-eq-ok, arith,
}
use aws_c_auth.External.{Library, Documented, Uri, UriParam}
use aws_c_auth.Signing.Config.{sig_v4_header}
use aws_c_auth.Signing.Outcome.{Property, SigningResult, get_property_list}
use aws_c_auth.Signing.Outcome.Lists.{contents, list_or_empty}
use aws_c_auth.Signing.State.{
  State, Header, Credentials, http_headers_list, http_query_params_list, authorization_header_name,
  table_has,
}
use aws_c_auth.Signing.Authorization.{build_authorization_value}
use aws_c_auth.Signing.Authorization.Value.{
  property, authorization_text, build_authorization_value-header,
}
use aws_c_auth.Signing.Sign.{completed, on_get_credentials}
use aws_c_auth.Signing.Sign.Reserved.{any_reserved_header, on_get_credentials-unreserved}
use aws_c_auth.Http.{
  Message, add_headers, add_all, build_request_uri, apply_signing_result_to_http_request,
  signable_http_request_get_property_list, signable_new_http_request,
}

abbrev pub headers_of : List Property → List Header
headers_of [] = []
headers_of (p ∷ ps) = record { name = p.name; value = p.value } ∷ headers_of ps

add_headers_lem :
    (m : Message) (ps : List Property)
    → add_headers m ps ≡ record m { headers = m.headers ++ headers_of ps }
unfolding add_headers
add_headers_lem m [] = ap (λ l. record m { headers = l }) (sym (append-nil m.headers))
add_headers_lem m (p ∷ ps) =
    let header : Header = record { name = p.name; value = p.value } in
    add_headers_lem (record m { headers = m.headers ++ header ∷ [] }) ps
    ∙ ap (λ l. record m { headers = l }) (append_assoc m.headers (header ∷ []) (headers_of ps))

add_all_lem :
    (x : Result Message) (o : Option (List Property))
    → (x >>= λ m. ok (add_all m o))
      ≡ (x >>= λ m. ok (record m { headers = m.headers ++ headers_of (list_or_empty o) }))
add_all_lem (err e) o = refl
add_all_lem (ok m) none = ap (λ l. ok (record m { headers = l })) (sym (append-nil m.headers))
add_all_lem (ok m) (some ps) = ap (λ m. ok m) (add_headers_lem m ps)

headers_of-append : (ps qs : List Property) → headers_of (ps ++ qs) ≡ headers_of ps ++ headers_of qs
headers_of-append [] qs = refl
headers_of-append (p ∷ ps) qs =
    ap (λ l. record { name = p.name; value = p.value } ∷ l) (headers_of-append ps qs)

module _ (c : Library) (from_builder : Uri → List UriParam → Result Bytes) where
  -- What is applied is, behind the message's new path, the headers of the result.
  pub apply_lem :
      (m : Message) (r : SigningResult)
      → apply_signing_result_to_http_request c from_builder m r ≡ (
          build_request_uri c from_builder m r >>= λ m'.
          ok (record m' { headers = m'.headers ++ headers_of (contents r http_headers_list) }))
  unfolding apply_signing_result_to_http_request
  apply_lem m r =
      add_all_lem (build_request_uri c from_builder m r) (get_property_list r http_headers_list)

  -- If a signing result without query parameters is applied to a message, the message stays as it is but
  -- for the headers of the result, which stand in their order behind its own.
  pub apply_signing_result-headers :
      (m : Message) (r : SigningResult)
      → get_property_list r http_query_params_list ≡ none
      → apply_signing_result_to_http_request c from_builder m r
        ≡ ok (record m { headers = m.headers ++ headers_of (contents r http_headers_list) })
  unfolding build_request_uri
  apply_signing_result-headers m r e = apply_lem m r ∙ (simp (build_request_uri, e))

  reserved_behind :
      (hs hs' : List Header)
      → any_reserved_header c hs' ≡ true
      → any_reserved_header c (hs ++ hs') ≡ true
  unfolding any
  reserved_behind [] hs' e = e
  reserved_behind (h ∷ hs) hs' e = ground (arith, reserved_behind hs hs' e)

  authorization_reserved :
      (value : Bytes) (hs : List Header)
      → ((name : Bytes) → c.eq_ignore_case name name ≡ true)
      → any_reserved_header c (record { name = authorization_header_name; value = value } ∷ hs)
        ≡ true
  unfolding any table_has
  authorization_reserved value hs same = ground (arith, same authorization_header_name)

  -- A message with a reserved header does not sign.
  reserved-refused :
      (s : State) (m : Message) (credentials : Option Credentials) (result : SigningResult)
      → any_reserved_header c m.headers ≡ true
      → on_get_credentials c (record s { signable = signable_new_http_request m }) credentials
        ≢ completed result
  unfolding signable_new_http_request signable_http_request_get_property_list bytes_eq codes
  reserved-refused s m cr result reserved e =
      let (hs, _, _, _, got, free, _, _, _, _) =
        on_get_credentials-unreserved c (record s { signable = signable_new_http_request m }) cr
          result e in
      cc (got, free, reserved)

  headers_lem :
      (m m' : Message) (r : SigningResult)
      → apply_signing_result_to_http_request c from_builder m r ≡ ok m'
      → (hs : List Header) × (m'.headers ≡ hs ++ headers_of (contents r http_headers_list))
  headers_lem m m' r e =
      let (m'', _, built) =
        >>=-eq-ok (build_request_uri c from_builder m r) _ (sym (apply_lem m r) ∙ e) in
      (m''.headers, cc built)

  authorization_behind :
      (m m' : Message) (r : SigningResult) (old rest : List Property) (value : Bytes)
      → ((name : Bytes) → c.eq_ignore_case name name ≡ true)
      → contents r http_headers_list ≡ old ++ property authorization_header_name value ∷ rest
      → apply_signing_result_to_http_request c from_builder m r ≡ ok m'
      → any_reserved_header c m'.headers ≡ true
  authorization_behind m m' r old rest value same e applied =
      let (hs, is) = headers_lem m m' r applied in
      ap (any_reserved_header c) (
        is
        ∙ ap (λ l. hs ++ headers_of l) e
        ∙ ap (λ l. hs ++ l)
            (headers_of-append old (property authorization_header_name value ∷ rest)))
      ∙ reserved_behind hs _
          (reserved_behind (headers_of old) _ (authorization_reserved value (headers_of rest) same))

  -- A message that was signed with headers does not sign again: whatever the second configuration,
  -- credentials and the message's former headers, signing what the first signing made of it never
  -- completes with a result. The comparison of names without regard to case has each name equal
  -- itself.
  pub signed_message-refused :
      (d : Documented c) (first second : State) (m m' : Message) (credentials : Option Credentials)
      (result : SigningResult)
      → ((name : Bytes) → c.eq_ignore_case name name ≡ true)
      → first.config.algorithm ≡ sig_v4_header
      → (build_authorization_value c first >>= λ r.
          apply_signing_result_to_http_request c from_builder m r.result)
        ≡ ok m'
      → on_get_credentials c (record second { signable = signable_new_http_request m' }) credentials
        ≢ completed result
  signed_message-refused d first second m m' cr result same e signed =
      let (r, built, applied) = >>=-eq-ok (build_authorization_value c first) _ signed in
      let value = build_authorization_value-header c d first e in
      let gained : contents r.result http_headers_list
          ≡ contents value.value.result http_headers_list =
        cc (built, value.is_ok) in
      reserved-refused second m' cr result (
        authorization_behind m m' r.result (contents first.result http_headers_list) _
          (authorization_text c d first) same (gained ∙ value.holds.0) applied)
