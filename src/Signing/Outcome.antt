-- ===== src/Signing/Outcome.antt =====
-- struct aws_signing_result of source/signing_result.c: properties by name, and named lists of
-- properties.
pub mod Lists
use aws_c_auth.Common.{List, [], ◌∷◌, ◌++◌, Option, none, some, Bytes, Table, find, put}

-- struct aws_signing_result_property
pub record Property : Type 0 where
  pub name : Bytes
  pub value : Bytes

pub record SigningResult : Type 0 where
  pub properties : Table Bytes
  pub property_lists : Table (List Property)

-- aws_signing_result_init
abbrev pub init : SigningResult
init = record { properties = []; property_lists = [] }

-- aws_signing_result_set_property
unfoldable pub set_property : SigningResult → Bytes → Bytes → SigningResult
set_property result name value = record result { properties = put name value result.properties }

-- aws_signing_result_get_property; `none` is a null out parameter
unfoldable pub get_property : SigningResult → Bytes → Option Bytes
get_property result name = find name result.properties

-- s_get_or_create_property_list: the list's contents, and the result that now has the list
unfoldable pub get_or_create_property_list : SigningResult → Bytes → SigningResult × List Property
get_or_create_property_list result list_name = elim (find list_name result.property_lists) [
  | some properties ↦ (result, properties)
  | none ↦ (record result { property_lists = put list_name [] result.property_lists }, [])
]

-- aws_signing_result_append_property_list; the push writes through the pointer into the table
unfoldable pub append_property_list : SigningResult → Bytes → Bytes → Bytes → SigningResult
append_property_list result list_name name value =
    let (result', properties) = get_or_create_property_list result list_name in
    let property : Property = record { name = name; value = value } in
    record result' {
      property_lists = put list_name (properties ++ property ∷ []) result'.property_lists;
    }

-- aws_signing_result_get_property_list
unfoldable pub get_property_list : SigningResult → Bytes → Option (List Property)
get_property_list result list_name = find list_name result.property_lists
