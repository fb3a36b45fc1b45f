-- ===== src/Xml/Traverse/Document.antt =====
-- aws_xml_parser_parse comes to an end.
use aws_c_auth.Common.{
  ℕ, zero, suc, ◌+◌, ◌<◌, ◌≤◌, Option, none, some, Bytes, length, ltb, ◌==◌, ◌≡◌, ◌≢◌, refl, arith,
  Bool-cases, Option-cases, inl, inr,
}
use aws_c_auth.External.{Library}
use aws_c_auth.Xml.{Parser, Node, load_node_decl}
use aws_c_auth.Xml.Ends.{Finds, length-advance}
use aws_c_auth.Xml.Traverse.{
  Run, ran, out_of_bounds, out_of_fuel, memchr, Tag, no_tag, tag, next_tag, burn_preamble,
  behind_preamble, is_preamble, node_next_sibling, parser_parse, sibling_tag,
}
use aws_c_auth.Xml.Traverse.Fuel.{Ends, Callback, length-memchr}
use aws_c_auth.Xml.Traverse.Rounds.{after_sibling-ends}

behind_preamble-shorter :
    (doc start location : Bytes)
    → memchr b'<' doc ≡ some start
    → memchr b'>' doc ≡ some location
    → length (behind_preamble start location) < length doc
behind_preamble-shorter doc start location e e' =
    let opened = length-memchr b'<' doc start e in
    let ended = length-memchr b'>' doc location e' in
    elim (Bool-cases (ltb (length start) (length location))) [
      | inl f ↦ rw f (ground (arith, f, ended))
      | inr f ↦ rw f (omega (arith, ended, length-advance 1 location))
    ]

-- More rounds than the document is long change nothing for the preamble.
pub burn_preamble-enough :
    (fuel fuel' : ℕ) (doc : Bytes)
    → length doc < fuel
    → length doc < fuel'
    → burn_preamble fuel doc ≡ burn_preamble fuel' doc
unfolding burn_preamble
burn_preamble-enough zero fuel' doc h h' = absurd (omega (arith, h))
burn_preamble-enough (suc fuel) zero doc h h' = absurd (omega (arith, h'))
burn_preamble-enough (suc fuel) (suc fuel') doc h h' = elim (Bool-cases (length doc == 0)) [
  | inl e ↦ rw (burn_preamble, e) refl
  | inr e ↦ elim (Option-cases (memchr b'<' doc)) [
    | inl f ↦ rw (burn_preamble, e, f) refl
    | inr (start, f) ↦ elim (Option-cases (memchr b'>' doc)) [
      | inl g ↦ rw (burn_preamble, e, f, g) refl
      | inr (location, g) ↦ elim (Bool-cases (is_preamble start)) [
        | inl p ↦
            let less = behind_preamble-shorter doc start location f g in
            rw (burn_preamble, e, f, g, p)
              (burn_preamble-enough fuel fuel' (behind_preamble start location)
                (omega (arith, h, less)) (omega (arith, h', less)))
        | inr p ↦ rw (burn_preamble, e, f, g, p) refl
      ]
    ]
  ]
]

Ends-ne : {D : Type 0} (floor : ℕ) (p : Parser) (run : Run D) → Ends floor p run → run ≢ out_of_fuel
Ends-ne floor p (ran q user_data succeeds processed) h = λ e. cc e
Ends-ne floor p out_of_bounds h = λ e. cc e
Ends-ne floor p out_of_fuel h = absurd h

module _ (c : Library) (find_exact : Bytes → Bytes → Option Bytes) (finds : Finds find_exact)
    {D : Type 0} where
  sibling_tag-ends :
      (callback : Parser → Node → D → Run D) (p : Parser) (user_data : D) (t : Tag)
      → ((q : Parser) (node : Node) (user_data : D)
          → q.depth ≡ p.depth
          → q.max_depth ≡ p.max_depth
          → callback q node user_data ≢ out_of_fuel)
      → sibling_tag c find_exact callback p user_data t ≢ out_of_fuel
  sibling_tag-ends callback p user_data no_tag h = λ e. cc e
  sibling_tag-ends callback p user_data (tag closes none doc) h = λ e. cc e
  sibling_tag-ends callback p user_data (tag closes (some decl) doc) h =
      elim (Option-cases (load_node_decl c decl doc)) [
        | inl e ↦ rw e (λ q. cc q)
        | inr (node, e) ↦ rw e (
            after_sibling-ends c find_exact finds node _
              (h (record p { doc = doc }) node user_data refl refl))
      ]

  -- Parsing a document ends where its callback ends at the first level.
  pub parser_parse-ends :
      (fuel : ℕ) (callback : Parser → Node → D → Run D) (p : Parser) (user_data : D)
      → Callback fuel callback
      → 1 ≤ p.max_depth
      → p.max_depth ≤ fuel
      → parser_parse c find_exact callback p user_data ≢ out_of_fuel
  unfolding parser_parse node_next_sibling
  parser_parse-ends fuel callback p user_data ends some_depth enough =
      elim (Option-cases (burn_preamble (length p.doc + 1) p.doc)) [
        | inl e ↦ rw (parser_parse, e) (λ q. cc q)
        | inr (doc, e) ↦ elim (Option-cases (memchr b'<' doc)) [
          | inl f ↦ rw (parser_parse, e, node_next_sibling, f) (λ q. cc q)
          | inr (start, f) ↦
              rw (parser_parse, e, node_next_sibling, f)
                (sibling_tag-ends callback (record p { doc = start; depth = 1 }) user_data
                  (next_tag start)
                  (λ q node user_data' d m. Ends-ne q.depth q _ (
                    ends q node user_data' (omega (arith, d, m, some_depth))
                      (omega (arith, d, m, enough)))))
        ]
      ]
