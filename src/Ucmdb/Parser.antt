-- ===== src/Ucmdb/Parser.antt =====
-- utils/ucmdb/ucmdb_parser.py, class UcmdbCIParser, on the sequence of the tags that end.
pub mod Keys
pub mod Roundtrip
use text.Mathlib.Text.{◌==◌ as str_eq}
use sts_agent.Prelude.{Option, none, some, String, List, [], ◌∷◌, if◌then◌else◌}
use sts_agent.Prelude.Dicts.{insert}
use sts_agent.Ucmdb.{Element, Elements, new_element, get}

-- What the XML library gives of a tag at its end.
pub record Tag : Type 0 where
  pub tag : String
  pub attrib : List (String × String)
  pub text : Option String

-- The parser, and `current_element`.
pub record Parser : Type 0 where
  pub components : Elements
  pub relations : Elements
  pub current : Element

abbrev pub create_parser : Parser
create_parser = record { components = []; relations = []; current = new_element }

abbrev pub with_value : Option String → Option String → Element → Element
with_value none text e = e
with_value (some name) text e = record e { attributes = insert str_eq name text e.attributes }

unfoldable pub attribute_text_to_data : Tag → Element → Element
attribute_text_to_data t e = with_value (get "name" t.attrib) t.text e

abbrev pub with_operation : Option String → Element → Element
with_operation none e = e
with_operation (some operation) e = record e { operation = some operation }

-- An element with a name and an id, with its id as the key.
abbrev pub identified : Option String → Option String → Element → Option (String × Element)
identified (some name) (some id) e = some (id, record e { name = some name; ucmdb_id = some id })
identified none id e = none
identified (some name) none e = none

abbrev pub ended : Tag → Element → Option (String × Element)
ended t e =
    identified (get "name" t.attrib) (get "ucmdb_id" t.attrib)
      (with_operation (get "operation" t.attrib) e)

-- `current_element['data']['DiscoveryID1']` as the field, if it is there.
abbrev pub or_field : Option (Option String) → Option (Option String) → Option (Option String)
or_field none field = field
or_field (some value) field = some value

abbrev pub with_ends : Element → Element
with_ends e = record e {
  source_id = or_field (get "DiscoveryID1" e.attributes) e.source_id;
  target_id = or_field (get "DiscoveryID2" e.attributes) e.target_id;
}

abbrev pub stored : Option (String × Element) → Elements → Elements
stored none d = d
stored (some (id, e)) d = insert str_eq id e d

abbrev pub stored_link : Option (String × Element) → Elements → Elements
stored_link none d = d
stored_link (some (id, e)) d = insert str_eq id (with_ends e) d

unfoldable pub parse_tag : Tag → Parser → Parser
parse_tag t p =
    if str_eq t.tag "attribute"
    then record p { current = attribute_text_to_data t p.current }
    else if str_eq t.tag "object"
    then record p { components = stored (ended t p.current) p.components; current = new_element }
    else if str_eq t.tag "link"
    then record p { relations = stored_link (ended t p.current) p.relations; current = new_element }
    else p

unfoldable pub parse_from : List Tag → Parser → Parser
parse_from [] p = p
parse_from (t ∷ ts) p = parse_from ts (parse_tag t p)

unfoldable pub parse : List Tag → Parser
parse ts = parse_from ts create_parser
