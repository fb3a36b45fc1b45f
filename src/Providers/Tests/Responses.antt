-- ===== src/Providers/Tests/Responses.antt =====
-- The parser on a response of the token service.
use aws_c_auth.Common.{true, ◌++◌, some, Bytes, codes, ◌≡◌, refl, bytes_eq, all}
use aws_c_auth.External.Example.{sample, split, prepend, lower, left_trim, right_trim}
use aws_c_auth.Xml.{
  advance, first_bytes, load_attributes, load_node_decl, skip_opens, find_closing,
  advance_to_closing_tag, node_as_body,
}
use aws_c_auth.Xml.Tests.{seek}
use aws_c_auth.Xml.Traverse.{
  memchr, parser_init, next_tag, burn_preamble, after_callback, traverse_round, traverse_loop,
  node_traverse, after_sibling, node_next_sibling, parser_parse,
}
use aws_c_auth.Providers.Sts.Handler.{on_node_encountered_fn, parse_response}

abbrev response : Bytes
response =
    codes "<?xml?><AssumeRoleResponse><AssumeRoleResult><Credentials>"
    ++ codes "<AccessKeyId>AK</AccessKeyId><SecretAccessKey>SK</SecretAccessKey>"
    ++ codes "<Other>x</Other><SessionToken>T</SessionToken></Credentials>"
    ++ codes "</AssumeRoleResult></AssumeRoleResponse>"

response_parsed :
    parse_response sample seek response
    ≡ some (record {
      succeeds = true;
      credentials = record {
        access_key_id = some (codes "AK");
        secret_access_key = some (codes "SK");
        session_token = some (codes "T");
      };
    })
unfolding parse_response parser_parse burn_preamble memchr node_next_sibling next_tag load_node_decl
    load_attributes on_node_encountered_fn node_traverse traverse_loop traverse_round after_callback
    after_sibling node_as_body advance_to_closing_tag find_closing skip_opens advance first_bytes
    parser_init split prepend lower codes bytes_eq all left_trim right_trim
response_parsed = refl
