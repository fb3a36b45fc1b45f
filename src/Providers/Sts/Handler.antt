-- ===== src/Providers/Sts/Handler.antt =====
-- The handler of the nodes of an STS response: s_on_node_encountered_fn of
-- source/credentials_provider_sts.c, and what the parser makes of a response with it.
pub mod Ends
use aws_c_auth.Common.{
  ℕ, zero, suc, ◌+◌, true, false, not, ◌||◌, [], Option, none, some, Bytes, codes, if◌then◌else◌,
}
use aws_c_auth.External.{Library}
use aws_c_auth.Xml.{Parser, Node, node_as_body}
use aws_c_auth.Xml.Traverse.{
  Run, ran, out_of_bounds, out_of_fuel, node_traverse, parser_init, parser_parse,
  max_document_depth,
}
use aws_c_auth.Providers.Sts.{Filled, Parsed}

-- credentials on zeroed memory
abbrev pub unfilled : Filled
unfilled = record { access_key_id = none; secret_access_key = none; session_token = none }

-- the bytes that a body gives, none where it fails and the cursor stays zero
abbrev body_or_empty : Option Bytes → Bytes
body_or_empty none = []
body_or_empty (some body) = body

abbrev pub with_access_key_id : Filled → Bytes → Filled
with_access_key_id credentials value = record credentials { access_key_id = some value }

abbrev pub with_secret_access_key : Filled → Bytes → Filled
with_secret_access_key credentials value = record credentials { secret_access_key = some value }

abbrev pub with_session_token : Filled → Bytes → Filled
with_session_token credentials value = record credentials { session_token = some value }

module _ (c : Library) (find_exact : Bytes → Bytes → Option Bytes) where
  -- one of the three branches for a leaf; whether the body was found is not looked at
  abbrev leaf :
      Bytes → (Filled → Bytes → Filled) → (Parser × Node) × Filled → (Parser × Node) × Filled
  leaf name fill ((parser, node), credentials) =
      if c.eq_ignore_case node.name name
      then (let ((parser', body), node') = node_as_body find_exact parser node in
          ((parser', node'), fill credentials (body_or_empty body)))
      else ((parser, node), credentials)

  abbrev leaves : (Parser × Node) × Filled → Run Filled
  leaves start =
      let ((parser, node), credentials) = leaf (codes "SessionToken") with_session_token (
        leaf (codes "SecretAccessKey") with_secret_access_key
          (leaf (codes "AccessKeyId") with_access_key_id start)) in
      ran parser credentials true node.processed

  -- the int of aws_xml_node_traverse as the bool of the handler: success is 0, that is false
  abbrev as_bool : Run Filled → Run Filled
  as_bool (ran parser credentials success processed) = ran parser credentials (not success) true
  as_bool out_of_bounds = out_of_bounds
  as_bool out_of_fuel = out_of_fuel

  -- s_on_node_encountered_fn; it calls itself one level deeper in the document
  unfoldable pub on_node_encountered_fn : ℕ → Parser → Node → Filled → Run Filled
  on_node_encountered_fn zero parser node credentials = out_of_fuel
  on_node_encountered_fn (suc fuel) parser node credentials =
      elim (c.eq_ignore_case node.name (codes "AssumeRoleResponse")
        || (c.eq_ignore_case node.name (codes "AssumeRoleResult")
            || c.eq_ignore_case node.name (codes "Credentials"))) [
              | true ↦
                  as_bool (
                    node_traverse c find_exact (on_node_encountered_fn fuel) parser node
                      credentials)
              | false ↦ leaves ((parser, node), credentials)
            ]

  abbrev pub parsed_of : Run Filled → Option Parsed
  parsed_of (ran parser credentials success processed) =
      some (record { succeeds = success; credentials = credentials })
  parsed_of _ = none

  -- aws_xml_parser_parse on a response; `none` is a read behind the document. Nodes are nested no deeper
  -- than the parser's limit.
  unfoldable pub parse_response : Bytes → Option Parsed
  parse_response payload = parsed_of (
      parser_parse c find_exact (on_node_encountered_fn (max_document_depth + 2))
        (parser_init payload 0) unfilled)
