-- ===== src/Signing/Path/Canonical.antt =====
-- The canonical path, s_append_canonical_path.
use aws_c_auth.Common.{
  Bool, true, false, [], ◌∷◌, ◌++◌, Bytes, length, if◌then◌else◌, refl, ok, ◌>>=◌, Returns, returns,
}
use aws_c_auth.External.{ByteBuf, buf_init, Uri, Library, Documented}
use aws_c_auth.Signing.Buffers.{Writes, Extended, line-Extended, append_dynamic-text}
use aws_c_auth.Signing.Config.{Config}
use aws_c_auth.Signing.State.{State}
use aws_c_auth.Signing.Path.{append_normalized_path, append_canonical_path}
use aws_c_auth.Signing.Path.Normal.{
  normalized_text, append_normalized_path-text, append_normalized_path-Writes,
}

module _ (c : Library) (d : Documented c) where
  abbrev pub path_by : Bool → Bool → Bytes → Bytes
  path_by true true path = d.encode_path (normalized_text c d path)
  path_by true false path = d.encode_path path
  path_by false true path = normalized_text c d path
  path_by false false path = path

  encode_path-text :
      (b : ByteBuf) (s : Bytes) → Writes b (c.append_encoding_uri_path b s) (d.encode_path s)
  encode_path-text b s = rw (d.encode_path_eq b s) (returns _ _ (refl, d.encoding_grown_keeps b s))

  path_by-text :
      (double normalize : Bool) (path : Bytes) (b : ByteBuf)
      → Writes b
          (if double
            then (if normalize
                then (append_normalized_path c path (buf_init (length path)) >>= (λ r. ok r.bytes))
                else ok path)
              >>= (λ p. c.append_encoding_uri_path b p)
            else if normalize
            then append_normalized_path c path b
            else c.append_dynamic b path)
          (path_by double normalize path)
  path_by-text true true path b =
      let normal = append_normalized_path-text c d path (buf_init (length path)) in
      rw normal.is_ok (rw normal.holds (encode_path-text b (normalized_text c d path)))
  path_by-text true false path b = encode_path-text b path
  path_by-text false true path b = append_normalized_path-Writes c d path b
  path_by-text false false path b = append_dynamic-text c d b path

  -- what the flags of the configuration ask for: a normalized path or the path as it is, and encoded
  -- once more or not
  abbrev pub canonical_path : Config → Bytes → Bytes
  canonical_path config path =
      path_by config.use_double_uri_encode config.should_normalize_uri_path path

  pub append_canonical_path-text :
      (uri : Uri) (s : State)
      → Returns
          (append_canonical_path c uri s)
          (Extended s (canonical_path s.config uri.path ++ b'\n' ∷ []))
  unfolding append_canonical_path
  append_canonical_path-text uri s = line-Extended c d s _ (canonical_path s.config uri.path) (
      path_by-text s.config.use_double_uri_encode s.config.should_normalize_uri_path uri.path
        s.canonical_request)
