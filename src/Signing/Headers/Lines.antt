-- ===== src/Signing/Headers/Lines.antt =====
-- The text of a header's value in the header block: the lines of the value, each trimmed and with its
-- runs of spaces squashed.
use aws_c_auth.Common.{
  ℕ, Bool, true, false, List, [], ◌∷◌, ◌++◌, append-nil, Bytes, length, ◌==◌, if◌then◌else◌, ◌≡◌,
  refl, sym, ap, subst, ok, ◌>>=◌, Bool-cases, inl, inr,
}
use aws_c_auth.External.{ByteBuf, Library, Documented, joined}
use aws_c_auth.Signing.Buffers.{
  Writes, Fits, Writes-nothing, Writes-bind, Fits-rest, Fits-first, retext, append_character-text,
}
use aws_c_auth.Signing.Headers.Squash.{squashed, write_squashed-text}
use aws_c_auth.Signing.State.{append_character}
use aws_c_auth.Signing.Headers.{is_space, write_squashed, append_header_lines}

module _ (c : Library) where
  -- The lines of a value that have something besides white space, trimmed and squashed.
  abbrev pub lines_of : List Bytes → List Bytes
  lines_of [] = []
  lines_of (line ∷ lines) =
      let rest = lines_of lines in
      let trimmed_value = c.trim_pred line is_space in
      if length trimmed_value == 0 then rest else squashed trimmed_value ∷ rest

  abbrev pub value_lines : Bytes → List Bytes
  value_lines value = lines_of (c.split_on_char value b'\n')

-- Each text with the separator in front of it.
abbrev pub led : ℕ → List Bytes → Bytes
led sep [] = []
led sep (p ∷ ps) = sep ∷ p ++ led sep ps

-- The texts with a separator between them, or with one in front of each.
abbrev pub texts : Bool → ℕ → List Bytes → Bytes
texts true sep ps = led sep ps
texts false sep ps = joined sep ps

pub joined-led : (sep : ℕ) (p : Bytes) (ps : List Bytes) → joined sep (p ∷ ps) ≡ p ++ led sep ps
joined-led sep p [] = sym (append-nil p)
joined-led sep p (q ∷ ps) = ap (λ l. p ++ sep ∷ l) (joined-led sep q ps)

comma : Bool → Bytes
comma true = b',' ∷ []
comma false = []

texts-comma :
    (prepend : Bool) (p : Bytes) (ps : List Bytes)
    → texts prepend b',' (p ∷ ps) ≡ comma prepend ++ (p ++ led b',' ps)
unfolding comma
texts-comma true p ps = refl
texts-comma false p ps = joined-led b',' p ps

module _ (c : Library) (d : Documented c) where
  comma-text :
      (prepend : Bool) (b : ByteBuf)
      → Writes b (if prepend then append_character c b b',' else ok b) (comma prepend)
  unfolding comma
  comma-text true b = append_character-text c d b b','
  comma-text false b = Writes-nothing b

  -- a line that is written, with the lines behind it
  line-text :
      (prepend : Bool) (trimmed : Bytes) (lines : List Bytes) (b : ByteBuf)
      → ((r : ByteBuf)
          → Fits r (led b',' (lines_of c lines))
          → Writes r (append_header_lines c true lines r) (led b',' (lines_of c lines)))
      → Fits b (texts prepend b',' (squashed trimmed ∷ lines_of c lines))
      → Writes b
          ((if prepend then append_character c b b',' else ok b) >>= (λ b'.
            write_squashed false trimmed b' >>= (λ b''. append_header_lines c true lines b'')))
          (texts prepend b',' (squashed trimmed ∷ lines_of c lines))
  line-text prepend trimmed lines b behind =
      let rest = led b',' (lines_of c lines) in
      retext b _ (sym (texts-comma prepend (squashed trimmed) (lines_of c lines))) (λ fits.
        Writes-bind b _ _ (comma prepend) (squashed trimmed ++ rest) (comma-text prepend b)
          (λ r e le.
            let fits' = Fits-rest b r (comma prepend) (squashed trimmed ++ rest) fits e le in
            Writes-bind r _ _ (squashed trimmed) rest
              (write_squashed-text trimmed r (Fits-first r (squashed trimmed) rest fits'))
              (λ r' e' le'. behind r' (Fits-rest r r' (squashed trimmed) rest fits' e' le'))))

  pub append_header_lines-text :
      (lines : List Bytes) (prepend : Bool) (b : ByteBuf)
      → Fits b (texts prepend b',' (lines_of c lines))
      → Writes b (append_header_lines c prepend lines b) (texts prepend b',' (lines_of c lines))
  unfolding append_header_lines
  append_header_lines-text [] true b fits = Writes-nothing b
  append_header_lines-text [] false b fits = Writes-nothing b
  append_header_lines-text (line ∷ lines) prepend b fits =
      let trimmed : Bytes = c.trim_pred line is_space in
      let rest : List Bytes = lines_of c lines in
      elim (Bool-cases (length trimmed == 0)) [
        | inl e ↦
            let same : lines_of c (line ∷ lines) ≡ rest = rw e refl in
            rw e (
              append_header_lines-text lines prepend b
                (subst (λ l. Fits b (texts prepend b',' l)) same fits))
        | inr e ↦
            let more : lines_of c (line ∷ lines) ≡ squashed trimmed ∷ rest = rw e refl in
            rw e (
              line-text prepend trimmed lines b (append_header_lines-text lines true)
                (subst (λ l. Fits b (texts prepend b',' l)) more fits))
      ]
