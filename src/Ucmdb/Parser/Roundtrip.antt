-- ===== src/Ucmdb/Parser/Roundtrip.antt =====
-- utils/ucmdb/ucmdb_parser.py: the tags of a dump, as its documentation shows them, and what the
-- parser makes of them.
use text.Mathlib.Text.{◌==◌ as str_eq}
use text.Mathlib.TextEquality.{eq_iff}
use sts_agent.Prelude.{
  Bool, true, false, Option, none, some, String, List, [], ◌∷◌, ◌++◌, map, flatten, All,
  if◌then◌else◌, ◌≡◌, refl, ap, ◌∙◌,
}
use sts_agent.Prelude.Dicts.{lookup, insert, IsDict}
use sts_agent.Prelude.Dicts.Gather.{gather, gather-IsDict}
use sts_agent.Ucmdb.{Element, Elements, new_element}
use sts_agent.Ucmdb.Parser.{
  Tag, Parser, with_ends, parse_tag, parse_from, parse, attribute_text_to_data,
}

-- An object or a link of a dump.
pub record Item : Type 0 where
  pub is_link : Bool
  pub operation : String
  pub name : String
  pub ucmdb_id : String
  pub attributes : List (String × Option String)

abbrev pub attribute_tag : String × Option String → Tag
attribute_tag (name, value) = record {
  tag = "attribute";
  attrib = ("name", name) ∷ [];
  text = value;
}

abbrev pub end_tag : Item → Tag
end_tag i = record {
  tag = if i.is_link then "link" else "object";
  attrib = ("name", i.name) ∷ ("operation", i.operation) ∷ ("ucmdb_id", i.ucmdb_id) ∷ [];
  text = none;
}

-- The tags of a file, in the order in which they end.
abbrev pub render_item : Item → List Tag
render_item i = map attribute_tag i.attributes ++ end_tag i ∷ []

abbrev pub render : List Item → List Tag
render items = flatten (map render_item items)

abbrev pub as_element : Item → Element
as_element i = record {
  operation = some i.operation;
  name = some i.name;
  ucmdb_id = some i.ucmdb_id;
  source_id = none;
  target_id = none;
  attributes = i.attributes;
}

-- The two dictionaries with one more element; a later one of the same id replaces it.
abbrev pub added : Item → Elements × Elements → Elements × Elements
added i (components, relations) =
    if i.is_link
    then (components, insert str_eq i.ucmdb_id (with_ends (as_element i)) relations)
    else (insert str_eq i.ucmdb_id (as_element i) components, relations)

abbrev pub all_added : List Item → Elements × Elements → Elements × Elements
all_added [] d = d
all_added (i ∷ items) d = all_added items (added i d)

abbrev pub parser_of : Elements × Elements → Parser
parser_of (components, relations) = record {
  components = components;
  relations = relations;
  current = new_element;
}

parse_from-append :
    (ts us : List Tag) (p : Parser) → parse_from (ts ++ us) p ≡ parse_from us (parse_from ts p)
unfolding parse_from
parse_from-append [] us p = refl
parse_from-append (t ∷ ts) us p = parse_from-append ts us (parse_tag t p)

abbrev with_attributes : Parser → List (String × Option String) → Parser
with_attributes p a = record p { current = record p.current { attributes = a } }

parse_from-attributes :
    (new old : List (String × Option String)) (p : Parser)
    → parse_from (map attribute_tag new) (with_attributes p old)
      ≡ with_attributes p (gather str_eq eq_iff old new)
unfolding parse_from parse_tag attribute_text_to_data lookup
parse_from-attributes [] old p = refl
parse_from-attributes ((name, value) ∷ new) old p =
    parse_from-attributes new (insert str_eq name value old) p

end-added :
    (d : Elements × Elements) (is_link : Bool) (operation name id : String)
    (a : List (String × Option String))
    → let i : Item = record {
      is_link = is_link;
      operation = operation;
      name = name;
      ucmdb_id = id;
      attributes = a;
    } in
      parse_tag (end_tag i) (with_attributes (parser_of d) a) ≡ parser_of (added i d)
unfolding parse_tag lookup
end-added d true operation name id a = refl
end-added d false operation name id a = refl

item-added :
    (i : Item) (d : Elements × Elements)
    → IsDict str_eq i.attributes
    → parse_from (render_item i) (parser_of d) ≡ parser_of (added i d)
unfolding parse_from
item-added i d h =
    let attributes = i.attributes in
    let last = end_tag i ∷ [] in
    parse_from-append (map attribute_tag attributes) last (parser_of d)
    ∙ ap (parse_from last) (
        parse_from-attributes attributes [] (parser_of d)
        ∙ ap (with_attributes (parser_of d)) (gather-IsDict str_eq eq_iff attributes h))
    ∙ end-added d i.is_link i.operation i.name i.ucmdb_id attributes

items-added :
    (items : List Item) (d : Elements × Elements)
    → All (λ i. IsDict str_eq i.attributes) items
    → parse_from (render items) (parser_of d) ≡ parser_of (all_added items d)
unfolding parse_from
items-added [] d h = refl
items-added (i ∷ items) d (distinct, h) =
    parse_from-append (render_item i) (render items) (parser_of d)
    ∙ ap (parse_from (render items)) (item-added i d distinct)
    ∙ items-added items (added i d) h

-- The tags of any objects and links, each with attributes of different names, are parsed back to
-- the dictionaries of these elements, where of several with one id the last one counts.
pub parse-render :
    (items : List Item)
    → All (λ i. IsDict str_eq i.attributes) items
    → parse (render items) ≡ parser_of (all_added items ([], []))
unfolding parse
parse-render items h = items-added items ([], []) h
