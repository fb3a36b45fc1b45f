-- ===== src/Xml/Traverse.antt =====
-- The document and its nodes: aws_xml_parser_parse, s_node_next_sibling and aws_xml_node_traverse of
-- source/xml_parser.c. A callback is a function from the parser, the node and the user's data.
pub mod Fuel
pub mod Rounds
pub mod Document
use aws_c_auth.Common.{
  ℕ, zero, suc, ◌+◌, ◌-◌, Bool, true, false, not, ◌||◌, [], ◌∷◌, Option, none, some, Bytes, length,
  ltb, leb, ◌==◌, if◌then◌else◌,
}
use aws_c_auth.External.{Library}
use aws_c_auth.Xml.{Parser, Node, load_node_decl, first_bytes, advance, advance_to_closing_tag}

-- memchr: the rest from the first such byte on
unfoldable pub memchr : ℕ → Bytes → Option Bytes
memchr value [] = none
memchr value (x ∷ s) = let rest = memchr value s in if x == value then some (x ∷ s) else rest

-- s_max_document_depth
abbrev pub max_document_depth : ℕ
max_document_depth = 20

-- aws_xml_parser_init
unfoldable pub parser_init : Bytes → ℕ → Parser
parser_init doc max_depth = record {
  doc = doc;
  depth = 0;
  max_depth = if max_depth == 0 then max_document_depth else max_depth;
  error = false;
  stop_parsing = false;
}

-- What a run comes to: the parser and the data behind it, whether it succeeds, and, for a callback,
-- whether the node was processed; or the read of a declaration that ends in front of its begin; or
-- more rounds than there is fuel.
pub data Run {ℓ} (D : Type ℓ) : Type ℓ where
  ran : Parser → D → Bool → Bool → Run D
  out_of_bounds : Run D
  out_of_fuel : Run D

-- The tag that comes next: whether it closes the parent, the declaration between the brackets, `none`
-- where the ">" stands before the "<", and the document behind the ">".
pub data Tag : Type 0 where
  no_tag : Tag
  tag : Bool → Option Bytes → Bytes → Tag

abbrev second_is : ℕ → Bytes → Bool
second_is value (x ∷ y ∷ s) = y == value
second_is value _ = false

abbrev between : Bytes → Bytes → Option Bytes
between next_location end_location =
    if ltb (length next_location) (length end_location)
    then none
    else some
        (first_bytes (length next_location - length end_location - 1) (advance 1 next_location))

abbrev tag_of : Option Bytes → Option Bytes → Tag
tag_of (some next_location) (some end_location) =
    tag (second_is b'/' next_location) (between next_location end_location) (advance 1 end_location)
tag_of _ _ = no_tag

-- both brackets are looked for from the start of the document
unfoldable pub next_tag : Bytes → Tag
next_tag doc = tag_of (memchr b'<' doc) (memchr b'>' doc)

abbrev is_preamble : Bytes → Bool
is_preamble start = second_is b'?' start || second_is b'!' start

-- the document behind a preamble; where the ">" stands before the "<", nothing moves
abbrev behind_preamble : Bytes → Bytes → Bytes
behind_preamble start location =
    if ltb (length start) (length location) then start else advance 1 location

-- the loop of aws_xml_parser_parse over the preamble
unfoldable pub burn_preamble : ℕ → Bytes → Option Bytes
burn_preamble zero doc = none
burn_preamble (suc fuel) doc = elim (length doc == 0) [
  | true ↦ some doc
  | false ↦ elim (memchr b'<' doc) [
    | none ↦ none
    | some start ↦ elim (memchr b'>' doc) [
      | none ↦ none
      | some location ↦ elim (is_preamble start) [
        | true ↦ burn_preamble fuel (behind_preamble start location)
        | false ↦ some start
      ]
    ]
  ]
]

module _ (c : Library) (find_exact : Bytes → Bytes → Option Bytes) {D : Type 0} where
  -- a node that its callback has not processed is skipped
  abbrev skipped : (Parser → D → Run D) → D → Parser × Option Bytes → Run D
  skipped rest user_data (parser, none) = ran parser user_data false true
  skipped rest user_data (parser, some body) =
      if parser.error then ran parser user_data false true else rest parser user_data

  -- the part of the loop behind the callback; `rest` is the next round
  unfoldable pub after_callback : (Parser → D → Run D) → Node → Run D → Run D
  after_callback rest node out_of_bounds = out_of_bounds
  after_callback rest node out_of_fuel = out_of_fuel
  after_callback rest node (ran parser user_data false processed) =
      ran (record parser { stop_parsing = true }) user_data (not parser.error) true
  after_callback rest node (ran parser user_data true processed) =
      if parser.stop_parsing || processed
      then rest parser user_data
      else skipped rest user_data (advance_to_closing_tag find_exact parser node)

  -- the end of aws_xml_node_traverse
  abbrev finish : Parser → D → Run D
  finish parser user_data =
      if parser.stop_parsing
      then ran parser user_data (not parser.error) true
      else ran (record parser { depth = parser.depth - 1 }) user_data (not parser.error) true

  abbrev loaded_or : Option Node → Run D → (Node → Run D) → Run D
  loaded_or none failed rest = failed
  loaded_or (some node) failed rest = rest node

  -- one round of the loop of aws_xml_node_traverse
  unfoldable pub traverse_round :
      (Parser → D → Run D) → (Parser → Node → D → Run D) → Parser → D → Tag → Run D
  traverse_round rest callback parser user_data no_tag = ran parser user_data false true
  traverse_round rest callback parser user_data (tag true decl_body doc) =
      finish (record parser { doc = doc }) user_data
  traverse_round rest callback parser user_data (tag false none doc) = out_of_bounds
  traverse_round rest callback parser user_data (tag false (some decl_body) doc) =
      loaded_or (load_node_decl c decl_body doc)
        (ran (record parser { doc = doc }) user_data false true)
        (λ node. after_callback rest node (callback (record parser { doc = doc }) node user_data))

  unfoldable pub traverse_loop : ℕ → (Parser → Node → D → Run D) → Parser → D → Run D
  traverse_loop zero callback parser user_data = out_of_fuel
  traverse_loop (suc fuel) callback parser user_data = elim (parser.stop_parsing || parser.error) [
    | true ↦ finish parser user_data
    | false ↦
        traverse_round (traverse_loop fuel callback) callback parser user_data (next_tag parser.doc)
  ]

  -- aws_xml_node_traverse; each round passes a tag, so the length of the document is fuel enough
  unfoldable pub node_traverse : (Parser → Node → D → Run D) → Parser → Node → D → Run D
  node_traverse callback parser node user_data =
      if leb parser.max_depth parser.depth
      then ran (record parser { error = true }) user_data false true
      else traverse_loop (length parser.doc + 1) callback
          (record parser { depth = parser.depth + 1 }) user_data

  -- the end of s_node_next_sibling
  unfoldable pub after_sibling : Node → Run D → Run D
  after_sibling node out_of_bounds = out_of_bounds
  after_sibling node out_of_fuel = out_of_fuel
  after_sibling node (ran parser user_data goes_on processed) =
      let parser' = record parser { stop_parsing = not goes_on } in
      let done : Parser → D → Run D =
        λ parser user_data. ran parser user_data (not parser.error) true in
      if processed
      then done parser' user_data
      else skipped done user_data (advance_to_closing_tag find_exact parser' node)

  abbrev sibling_tag : (Parser → Node → D → Run D) → Parser → D → Tag → Run D
  sibling_tag callback parser user_data (tag closed (some decl_body) doc) =
      loaded_or (load_node_decl c decl_body doc)
        (ran (record parser { doc = doc }) user_data false true)
        (λ node. after_sibling node (callback (record parser { doc = doc }) node user_data))
  sibling_tag callback parser user_data _ = ran parser user_data false true

  -- s_node_next_sibling
  unfoldable pub node_next_sibling : (Parser → Node → D → Run D) → Parser → D → Run D
  node_next_sibling callback parser user_data = elim (memchr b'<' parser.doc) [
    | none ↦ ran parser user_data (not parser.error) true
    | some start ↦ sibling_tag callback (record parser { doc = start }) user_data (next_tag start)
  ]

  -- aws_xml_parser_parse
  unfoldable pub parser_parse : (Parser → Node → D → Run D) → Parser → D → Run D
  parser_parse callback parser user_data = elim (burn_preamble (length parser.doc + 1) parser.doc) [
    | none ↦ ran parser user_data false true
    | some doc ↦ node_next_sibling callback (record parser { doc = doc; depth = 1 }) user_data
  ]
