-- ===== src/Providers/Imds/Account.antt =====
-- The account of an instance metadata query, and the parts of its callbacks that keep it.
use aws_c_auth.Common.{
  ℕ, ◌+◌, ◌≤◌, Bool, true, false, List, [], ◌∷◌, ◌++◌, Option, none, some, Bytes, length,
  length-append, ◌==◌, if◌then◌else◌, ◌≡◌, refl, ap, arith, Result, ok, err,
}
use aws_c_auth.External.{ByteBuf, Library}
use aws_c_auth.Providers.Lifetime.{provider_release}
use aws_c_auth.Providers.Imds.{
  Json, role_name, role_credentials, Request, UserData, Imds, response_size_limit, reset_response,
  finalize_get_credentials_query, make_imds_http_query, query_or_finalize,
  query_instance_role_credentials, imds_request,
}

abbrev pub live : Option UserData → ℕ
live none = 0
live (some q) = 1

-- the requests that may still be made
abbrev pub to_come : Option UserData → ℕ
to_come none = 0
to_come (some q) =
    if q.connection then elim q.query_state [ role_name ↦ 1 | role_credentials ↦ 0 ] else 2

abbrev pub held : Option UserData → ℕ
held none = 0
held (some q) = length q.current_result

-- a request has a connection
abbrev pub wired : Option UserData → Bool
wired none = true
wired (some q) = elim q.request [ none ↦ true | some r ↦ q.connection ]

-- The original callback is made once, and exactly when the user data are freed; the query holds one
-- reference to the provider until then; the response stays within its limit; there are two
-- requests at most.
pub record IsTracked (references : ℕ) (w : Imds) : Type 0 where
  pub once : length w.callbacks + live w.user_data ≡ 1
  pub referenced : w.provider.ref_count ≡ references + live w.user_data
  pub bounded : held w.user_data ≤ response_size_limit
  pub requests : length w.requests + to_come w.user_data ≤ 2
  pub connected : wired w.user_data ≡ true

module _ (c : Library) (json : Json) where
  pub finalize-IsTracked :
      (references : ℕ) (q q' : UserData) (w : Imds)
      → w.user_data ≡ some q
      → IsTracked references w
      → IsTracked references (finalize_get_credentials_query json q' w)
  unfolding finalize_get_credentials_query provider_release
  finalize-IsTracked references q q' w e h = record {
    once = omega (arith, h.once, ap live e, length-append w.callbacks (_ ∷ []));
    referenced = omega (arith, h.referenced, ap live e);
    bounded = omega arith;
    requests = omega (arith, h.requests);
    connected = refl;
  }

  pub keep-IsTracked :
      (references : ℕ) (q q' : UserData) (w : Imds) (requests : List Request)
      → w.user_data ≡ some q
      → length q'.current_result ≤ response_size_limit
      → length requests + to_come (some q') ≤ 2
      → wired (some q') ≡ true
      → IsTracked references w
      → IsTracked references (record w { user_data = some q'; requests = requests })
  keep-IsTracked references q q' w requests e b r wire h = record {
    once = omega (arith, h.once, ap live e);
    referenced = omega (arith, h.referenced, ap live e);
    bounded = b;
    requests = r;
    connected = wire;
  }

  -- A request that is made uses up one of those to come.
  pub query-IsTracked :
      (references : ℕ) (makes : Bool) (uri : Bytes) (q q' : UserData) (w : Imds)
      → w.user_data ≡ some q
      → length q'.current_result ≤ response_size_limit
      → to_come (some q') + 1 ≤ to_come (some q)
      → q'.connection ≡ true
      → IsTracked references w
      → IsTracked references (query_or_finalize json makes uri q' w)
  unfolding query_or_finalize make_imds_http_query
  query-IsTracked references true uri q q' w e b r wire h =
      keep-IsTracked references q (record q' { request = some (imds_request uri) }) w
        (w.requests ++ imds_request uri ∷ []) e b
        (omega
          (arith, r, h.requests, ap to_come e, length-append w.requests (imds_request uri ∷ [])))
        wire h
  query-IsTracked references false uri q q' w e b r wire h =
      finalize-IsTracked references q (record q' { request = some (imds_request uri) }) w e h

  pub if-IsTracked :
      (references : ℕ) (b : Bool) (v w : Imds)
      → IsTracked references v
      → IsTracked references w
      → IsTracked references (if b then v else w)
  if-IsTracked references true v w h k = h
  if-IsTracked references false v w h k = k

  path-IsTracked :
      (references : ℕ) (makes : Bool) (path : Result ByteBuf) (q q' : UserData) (w : Imds)
      → w.user_data ≡ some q
      → to_come (some q') + 1 ≤ to_come (some q)
      → q'.connection ≡ true
      → IsTracked references w
      → IsTracked references (elim path [
        | err e ↦ finalize_get_credentials_query json q' w
        | ok uri ↦ query_or_finalize json makes uri.bytes (reset_response q') w
      ])
  unfolding reset_response
  path-IsTracked references makes (err x) q q' w e r wire h =
      finalize-IsTracked references q q' w e h
  path-IsTracked references makes (ok uri) q q' w e r wire h =
      query-IsTracked references makes uri.bytes q (reset_response q') w e (omega arith) r wire h

  pub role-IsTracked :
      (references : ℕ) (makes : Bool) (q q' : UserData) (w : Imds)
      → w.user_data ≡ some q
      → to_come (some q') + 1 ≤ to_come (some q)
      → q'.connection ≡ true
      → IsTracked references w
      → IsTracked references (query_instance_role_credentials c json makes q' w)
  unfolding query_instance_role_credentials reset_response
  role-IsTracked references makes q q' w e r wire h =
      if-IsTracked references (length q'.current_result == 0) _ _
        (finalize-IsTracked references q q' w e h)
        (path-IsTracked references makes _ q q' w e r wire h)
