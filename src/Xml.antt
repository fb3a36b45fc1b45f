-- ===== src/Xml.antt =====
-- XML nodes and their ends, source/xml_parser.c. A pointer into the document is the rest of the
-- document from there on, so the earlier of two pointers is the longer rest.
pub mod Body
pub mod Ends
pub mod Traverse
pub mod Tests
use aws_c_auth.Common.{
  ℕ, zero, suc, ◌+◌, ◌-◌, Bool, true, false, List, [], ◌∷◌, ◌++◌, Option, none, some, Bytes, length,
  ltb, ◌==◌, if◌then◌else◌,
}
use aws_c_auth.External.{Library}

-- struct aws_xml_attribute
pub record Attribute : Type 0 where
  pub name : Bytes
  pub value : Bytes

-- struct aws_xml_node
pub record Node : Type 0 where
  pub name : Bytes
  pub attributes : List Attribute
  pub doc_at_body : Bytes
  pub processed : Bool

-- struct aws_xml_parser; `depth` is the length of the callback stack, and `error` whether the error is
-- set
pub record Parser : Type 0 where
  pub doc : Bytes
  pub depth : ℕ
  pub max_depth : ℕ
  pub error : Bool
  pub stop_parsing : Bool

-- the pointer of a cursor moved on by this many bytes, which it has
unfoldable pub advance : ℕ → Bytes → Bytes
advance zero s = s
advance (suc n) [] = []
advance (suc n) (x ∷ s) = advance n s

-- this many bytes from a pointer on
unfoldable pub first_bytes : ℕ → Bytes → Bytes
first_bytes zero s = []
first_bytes (suc n) [] = []
first_bytes (suc n) (x ∷ s) = x ∷ first_bytes n s

abbrev second_or_empty : List Bytes → Bytes
second_or_empty (a ∷ b ∷ rest) = b
second_or_empty _ = []

abbrev first_or_empty : List Bytes → Bytes
first_or_empty (a ∷ rest) = a
first_or_empty [] = []

module _ (c : Library) where
  -- the loop over the attributes; a pair with a second "=" overruns its two places and is passed over
  unfoldable pub load_attributes : List Bytes → List Attribute
  load_attributes [] = []
  load_attributes (attribute_pair ∷ splits) =
      let rest = load_attributes splits in
      let att_val_pair = c.split_on_char attribute_pair b'=' in
      if ltb 2 (length att_val_pair)
      then rest
      else record {
        name = first_or_empty att_val_pair;
        value = c.trim_pred (second_or_empty att_val_pair) (λ x. x == b'"');
      }
        ∷ rest

  abbrev loaded : List Bytes → Bytes → Option Node
  loaded [] doc_at_body = none
  loaded (name ∷ splits) doc_at_body =
      if ltb 11 (length (name ∷ splits))
      then none
      else some (record {
        name = name;
        attributes = load_attributes splits;
        doc_at_body = doc_at_body;
        processed = false;
      })

  -- s_load_node_decl, with the document behind the declaration; `none` is an error, as with more than
  -- the eleven pieces for which there is room
  unfoldable pub load_node_decl : Bytes → Bytes → Option Node
  load_node_decl decl_body doc_at_body = loaded (c.split_on_char decl_body b' ') doc_at_body

-- what is looked for: the beginning of an opening tag, and a closing tag
abbrev pub open_cmp : Bytes → Bytes
open_cmp name = b'<' ∷ name

abbrev pub closing_cmp : Bytes → Bytes
closing_cmp name = b'<' ∷ b'/' ∷ (name ++ b'>' ∷ [])

-- How the search for the closing tag ends: with the document behind the tag and the tag itself, or
-- with the document in which there is none.
pub data Search : Type 0 where
  closed : Bytes → Bytes → Search
  unclosed : Bytes → Search
  out_of_fuel : Search

-- MAX_NAME_LEN and NODE_CLOSE_OVERHEAD
abbrev pub max_name_len : ℕ
max_name_len = 256

abbrev pub node_close_overhead : ℕ
node_close_overhead = 3

-- `find_exact` is aws_byte_cursor_find_exact: the rest from the first occurrence on, or none
module _ (find_exact : Bytes → Bytes → Option Bytes) where
  -- the inner loop: the opening tags before the closing one, each of which deepens the search; then the
  -- document behind the closing tag. Each round shortens the document.
  unfoldable pub skip_opens : ℕ → Bytes → Bytes → Bytes → ℕ → Option (Bytes × ℕ)
  skip_opens zero name doc close depth_count = none
  skip_opens (suc fuel) name doc close depth_count = elim (find_exact doc (open_cmp name)) [
    | none ↦ some (advance (length (closing_cmp name)) close, depth_count - 1)
    | some opened ↦ elim (ltb (length close) (length opened)) [
      | true ↦ skip_opens fuel name (advance 1 opened) close (depth_count + 1)
      | false ↦ some (advance (length (closing_cmp name)) close, depth_count - 1)
    ]
  ]

  -- the outer loop
  unfoldable pub find_closing : ℕ → Bytes → Bytes → ℕ → Search
  find_closing zero name doc depth_count = out_of_fuel
  find_closing (suc fuel) name doc depth_count = elim (find_exact doc (closing_cmp name)) [
    | none ↦ unclosed doc
    | some close ↦ elim (skip_opens (length doc + 1) name doc close depth_count) [
      | none ↦ out_of_fuel
      | some (doc', depth) ↦ elim (depth == 0) [
        | true ↦ closed doc' close
        | false ↦ find_closing fuel name doc' depth
      ]
    ]
  ]

  abbrev pub too_long : Node → Bool
  too_long node =
      if ltb (length node.doc_at_body) (length node.name + node_close_overhead)
      then true
      else ltb (max_name_len + node_close_overhead) (length node.name + node_close_overhead)

  -- the end of s_advance_to_closing_tag: the parser, and the body if there is one
  abbrev pub body_of : Search → Parser → Node → Parser × Option Bytes
  body_of (closed doc close) parser node = (
    record parser { doc = doc },
    some (first_bytes (length node.doc_at_body - length close) node.doc_at_body),
  )
  body_of (unclosed doc) parser node = (record parser { doc = doc }, none)
  body_of out_of_fuel parser node = (parser, none)

  -- s_advance_to_closing_tag
  unfoldable pub advance_to_closing_tag : Parser → Node → Parser × Option Bytes
  advance_to_closing_tag parser node =
      if too_long node
      then (record parser { error = true }, none)
      else body_of (find_closing (length parser.doc + 1) node.name parser.doc 1) parser node

  -- aws_xml_node_as_body
  unfoldable pub node_as_body : Parser → Node → (Parser × Option Bytes) × Node
  node_as_body parser node = (
    advance_to_closing_tag parser (record node { processed = true }),
    record node { processed = true },
  )
