-- ===== src/Signing/Request/Front.antt =====
-- What the canonical request says, by the parts of the request.
use aws_c_auth.Common.{List, [], ◌∷◌, ◌++◌, Bytes, ◌≡◌}
use aws_c_auth.External.{Uri, UriParam, Library, Documented}
use aws_c_auth.Signing.State.{State, Header}
use aws_c_auth.Signing.Path.Canonical.{canonical_path}
use aws_c_auth.Signing.Query.Order.{query_text}
use aws_c_auth.Signing.Query.Canonical.{sorted_params}
use aws_c_auth.Signing.Headers.Groups.{block_text, signed_text}
use aws_c_auth.Signing.Headers.Canonical.{sorted_headers}
use aws_c_auth.Signing.Payload.Digest.{with_digest}
use aws_c_auth.Signing.Request.Scope.{scope_text}

-- The buffers that the canonical request is made of are empty.
abbrev pub IsFresh : State → Type 0
IsFresh s =
    (s.canonical_request.bytes ≡ [])
    × (s.signed_headers.bytes ≡ [])
    × (s.canonical_header_block.bytes ≡ [])
    × (s.credential_scope.bytes ≡ [])
    × (s.access_credential_scope.bytes ≡ [])

module _ (c : Library) (d : Documented c) where
  -- the state with the date and the payload hash
  abbrev pub dated : State → List Bytes → State
  dated s chunks =
      with_digest c d
        (record s { date = record s.date { bytes = s.date.bytes ++ d.date_str s.config.date } })
        chunks

  -- The names that are signed, and the key with the scope, as the query parameters give them.
  abbrev pub described : State → List Header → State
  described s hs = record s {
    signed_headers = record s.signed_headers { bytes = signed_text c (sorted_headers c d s hs) };
    access_credential_scope = record s.access_credential_scope {
      bytes = s.credentials.access_key_id ++ (b'/' ∷ scope_text c d s);
    };
  }

  -- The header lines, an empty line and the names that are signed.
  abbrev pub headers_text : State → List Header → Bytes
  headers_text s hs =
      let sorted = sorted_headers c d s hs in
      block_text c sorted ++ (b'\n' ∷ b'\n' ∷ (signed_text c sorted ++ b'\n' ∷ []))

  -- Method, path and query string, each with a newline behind it, and the headers.
  abbrev pub front_of : State → Bytes → Uri → List UriParam → Bytes → Bytes
  front_of s method uri ps block =
      (method ++ b'\n' ∷ [])
      ++ ((canonical_path c d s.config uri.path ++ b'\n' ∷ [])
          ++ ((query_text c d (sorted_params c d s ps) ++ b'\n' ∷ []) ++ block))

  abbrev pub front_text : State → Bytes → Uri → List UriParam → List Header → Bytes
  front_text s method uri ps hs = front_of (described s hs) method uri ps (headers_text s hs)
