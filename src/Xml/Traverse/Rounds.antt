-- ===== src/Xml/Traverse/Rounds.antt =====
-- The rounds of aws_xml_node_traverse, s_node_next_sibling and aws_xml_parser_parse come to an end.
use aws_c_auth.Common.{
  ℕ, zero, suc, ◌+◌, ◌<◌, ◌≤◌, true, false, not, ◌||◌, Option, none, some, Bytes, length, leb, ◌≡◌,
  ◌≢◌, refl, ◌∙◌, arith, Bool-cases, Option-cases, inl, inr,
}
use aws_c_auth.External.{Library}
use aws_c_auth.Xml.{Parser, Node, advance_to_closing_tag, load_node_decl}
use aws_c_auth.Xml.Ends.{Finds}
use aws_c_auth.Xml.Traverse.{
  Run, ran, out_of_bounds, out_of_fuel, Tag, no_tag, tag, next_tag, after_callback, traverse_round,
  traverse_loop, node_traverse, finish, skipped, after_sibling,
}
use aws_c_auth.Xml.Traverse.Fuel.{Ends, Callback, TagIn, Moved, advance-Moved, next_tag-TagIn}

module _ (c : Library) (find_exact : Bytes → Bytes → Option Bytes) (finds : Finds find_exact)
    {D : Type 0} where
  -- The rounds behind the one from a parser end.
  Rest : ℕ → Parser → (Parser → D → Run D) → Type 0
  Rest floor p rest =
      (q : Parser) (user_data : D)
      → length q.doc < length p.doc
      → q.max_depth ≡ p.max_depth
      → floor < q.depth
      → q.depth ≤ q.max_depth
      → Ends floor p (rest q user_data)

  finish-Ends :
      (floor : ℕ) (p q : Parser) (user_data : D)
      → length q.doc ≤ length p.doc
      → q.max_depth ≡ p.max_depth
      → floor < q.depth
      → q.depth ≤ q.max_depth
      → Ends floor p (finish c find_exact q user_data)
  finish-Ends floor p q user_data less same above below = elim (Bool-cases q.stop_parsing) [
    | inl e ↦ rw e (less, same, omega arith, below)
    | inr e ↦ rw e (less, same, omega arith, omega arith)
  ]

  skipped-Ends :
      (floor : ℕ) (p q : Parser) (rest : Parser → D → Run D) (user_data : D)
      (r : Parser × Option Bytes)
      → Rest floor p rest
      → length q.doc < length p.doc
      → q.max_depth ≡ p.max_depth
      → floor < q.depth
      → q.depth ≤ q.max_depth
      → Moved find_exact finds q r.0
      → Ends floor p (skipped c find_exact rest user_data r)
  unfolding Rest Moved
  skipped-Ends floor p q rest user_data (r, none) h less same above below (l, m, e) =
      (omega (arith, l, less), m ∙ same, omega (arith, e, above), omega (arith, m, e, below))
  skipped-Ends floor p q rest user_data (r, some body) h less same above below (l, m, e) =
      elim (Bool-cases r.error) [
        | inl t ↦
            rw t (
              omega (arith, l, less),
              m ∙ same,
              omega (arith, e, above),
              omega (arith, m, e, below),
            )
        | inr t ↦ rw t (
            h (record r { error = false }) user_data (omega (arith, l, less)) (m ∙ same)
              (omega (arith, e, above)) (omega (arith, m, e, below)))
      ]

  after_callback-Ends :
      (floor : ℕ) (p q : Parser) (node : Node) (rest : Parser → D → Run D) (run : Run D)
      → Rest floor p rest
      → length q.doc < length p.doc
      → q.max_depth ≡ p.max_depth
      → floor < q.depth
      → Ends q.depth q run
      → Ends floor p (after_callback c find_exact rest node run)
  unfolding after_callback Rest
  after_callback-Ends floor p q node rest out_of_bounds h less same above e = tt
  after_callback-Ends floor p q node rest out_of_fuel h less same above e = e
  after_callback-Ends floor p q node rest (ran r user_data false processed) h less same above e =
      (omega (arith, e, less), e.1 ∙ same, omega (arith, e, above), e.3)
  after_callback-Ends floor p q node rest (ran r user_data true processed) h less same above e =
      elim (Bool-cases (r.stop_parsing || processed)) [
        | inl t ↦
            rw t (h r user_data (omega (arith, e, less)) (e.1 ∙ same) (omega (arith, e, above)) e.3)
        | inr f ↦ rw f (
            skipped-Ends floor p r rest user_data (advance_to_closing_tag find_exact r node) h
              (omega (arith, e, less)) (e.1 ∙ same) (omega (arith, e, above)) e.3
              (advance-Moved find_exact finds r node))
      ]

  Ends-mono :
      (floor : ℕ) (q p : Parser) (run : Run D)
      → length q.doc ≤ length p.doc
      → q.max_depth ≡ p.max_depth
      → Ends floor q run
      → Ends floor p run
  Ends-mono floor q p (ran r user_data succeeds processed) less same e =
      (omega (arith, e, less), e.1 ∙ same, e.2, e.3)
  Ends-mono floor q p out_of_bounds less same e = tt
  Ends-mono floor q p out_of_fuel less same e = e

  round-Ends :
      (floor fuel : ℕ) (p : Parser) (rest : Parser → D → Run D)
      (callback : Parser → Node → D → Run D) (user_data : D) (t : Tag)
      → TagIn p.doc t
      → Rest floor p rest
      → Callback fuel callback
      → floor < p.depth
      → p.depth ≤ p.max_depth
      → p.max_depth < fuel + suc floor
      → Ends floor p (traverse_round c find_exact rest callback p user_data t)
  unfolding traverse_round TagIn
  round-Ends floor fuel p rest callback user_data no_tag less h ends above below enough =
      (omega arith, refl, omega arith, below)
  round-Ends floor fuel p rest callback user_data (tag true decl doc) less h ends above below
        enough =
      finish-Ends floor p (record p { doc = doc }) user_data (omega (arith, less)) refl above below
  round-Ends floor fuel p rest callback user_data (tag false none doc) less h ends above below
        enough =
      tt
  round-Ends floor fuel p rest callback user_data (tag false (some decl) doc) less h ends above
        below enough =
      elim (Option-cases (load_node_decl c decl doc)) [
        | inl e ↦ rw e (omega (arith, less), refl, omega arith, below)
        | inr (node, e) ↦ rw e (
            after_callback-Ends floor p (record p { doc = doc }) node rest _ h less refl above
              (ends (record p { doc = doc }) node user_data below (omega (arith, enough, above))))
      ]

  traverse_loop-Ends :
      (rounds floor fuel : ℕ) (callback : Parser → Node → D → Run D) (p : Parser) (user_data : D)
      → Callback fuel callback
      → length p.doc < rounds
      → floor < p.depth
      → p.depth ≤ p.max_depth
      → p.max_depth < fuel + suc floor
      → Ends floor p (traverse_loop c find_exact rounds callback p user_data)
  unfolding traverse_loop Rest
  traverse_loop-Ends zero floor fuel callback p user_data ends short above below enough =
      absurd (omega (arith, short))
  traverse_loop-Ends (suc rounds) floor fuel callback p user_data ends short above below enough =
      elim (Bool-cases (p.stop_parsing || p.error)) [
        | inl e ↦
            rw (traverse_loop, e) (finish-Ends floor p p user_data (omega arith) refl above below)
        | inr e ↦
            rw (traverse_loop, e)
              (round-Ends floor fuel p _ callback user_data (next_tag p.doc) (next_tag-TagIn p.doc)
                (λ q user_data' less same above' below'.
                  Ends-mono floor q p _ (omega (arith, less)) same (
                    traverse_loop-Ends rounds floor fuel callback q user_data' ends
                      (omega (arith, short, less)) above' below' (omega (arith, same, enough))))
                ends above below enough)
      ]

  -- With a callback that ends on one more level, the traversal of a node ends.
  pub node_traverse-Ends :
      (fuel : ℕ) (callback : Parser → Node → D → Run D) (p : Parser) (node : Node) (user_data : D)
      → Callback fuel callback
      → p.depth ≤ p.max_depth
      → p.max_depth < suc fuel + p.depth
      → Ends p.depth p (node_traverse c find_exact callback p node user_data)
  unfolding node_traverse
  node_traverse-Ends fuel callback p node user_data ends below enough =
      elim (Bool-cases (leb p.max_depth p.depth)) [
        | inl e ↦ rw e (omega arith, refl, omega arith, below)
        | inr e ↦ rw e (
            traverse_loop-Ends (length p.doc + 1) p.depth fuel callback
              (record p { depth = p.depth + 1 }) user_data ends (omega arith) (omega arith)
              (ground (arith, e)) (omega (arith, enough)))
      ]

  skipped-ends :
      (user_data : D) (r : Parser × Option Bytes)
      → skipped c find_exact
          (λ parser user_data. ran parser user_data (not parser.error) true)
          user_data
          r
        ≢ out_of_fuel
  skipped-ends user_data (r, none) = λ q. cc q
  skipped-ends user_data (r, some body) = elim (Bool-cases r.error) [
    | inl e ↦ rw e (λ q. cc q)
    | inr e ↦ rw e (λ q. cc q)
  ]

  pub after_sibling-ends :
      (node : Node) (run : Run D)
      → run ≢ out_of_fuel
      → after_sibling c find_exact node run ≢ out_of_fuel
  unfolding after_sibling
  after_sibling-ends node out_of_bounds h = λ q. cc q
  after_sibling-ends node out_of_fuel h = h
  after_sibling-ends node (ran parser user_data goes_on processed) h = elim (Bool-cases processed) [
    | inl e ↦ rw e (λ q. cc q)
    | inr e ↦ rw e (
        skipped-ends user_data
          (advance_to_closing_tag find_exact (record parser { stop_parsing = not goes_on }) node))
  ]
