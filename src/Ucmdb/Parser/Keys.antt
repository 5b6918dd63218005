-- ===== src/Ucmdb/Parser/Keys.antt =====
-- utils/ucmdb/ucmdb_parser.py: what a parsed file holds under each key.
use text.Mathlib.Text.{◌==◌ as str_eq}
use text.Mathlib.TextEquality.{eq_iff}
use sts_agent.Prelude.{
  Option, none, some, String, List, [], ◌∷◌, if◌then◌else◌, ◌≡◌, refl, ap, ◌∙◌, if_cases,
}
use sts_agent.Prelude.Dicts.{AllEntries, AllEntries-insert}
use sts_agent.Ucmdb.{Element, Elements, new_element, get}
use sts_agent.Ucmdb.Parser.{
  Tag, Parser, create_parser, with_operation, identified, ended, or_field, with_ends, stored,
  stored_link, parse_tag, parse_from, parse, with_value, attribute_text_to_data,
}

-- An element that has a name, and its key as its id.
abbrev pub IsKeyed : String → Element → Type 0
IsKeyed id e = (e.ucmdb_id ≡ some id) × ((name : String) × (e.name ≡ some name))

-- A relation, whose ends are the two data of the file.
abbrev pub IsLink : String → Element → Type 0
IsLink id e =
    IsKeyed id e
    × (e.source_id ≡ get "DiscoveryID1" e.attributes)
    × (e.target_id ≡ get "DiscoveryID2" e.attributes)

abbrev pub IsParsed : Parser → Type 0
IsParsed p =
    AllEntries IsKeyed p.components
    × AllEntries IsLink p.relations
    × (p.current.source_id ≡ none)
    × (p.current.target_id ≡ none)

abbrev Endless : Element → Type 0
Endless e = (e.source_id ≡ none) × (e.target_id ≡ none)

with_value-Endless :
    (name text : Option String) (e : Element) → Endless e → Endless (with_value name text e)
with_value-Endless none text e h = h
with_value-Endless (some name) text e h = h

with_operation-Endless :
    (operation : Option String) (e : Element) → Endless e → Endless (with_operation operation e)
with_operation-Endless none e h = h
with_operation-Endless (some operation) e h = h

or_field-none : (o : Option (Option String)) → or_field o none ≡ o
or_field-none none = refl
or_field-none (some v) = refl

stored-AreKeyed :
    (name id : Option String) (e : Element) (d : Elements)
    → AllEntries IsKeyed d
    → AllEntries IsKeyed (stored (identified name id e) d)
stored-AreKeyed (some name) (some id) e d h =
    AllEntries-insert str_eq eq_iff IsKeyed id (record e { name = some name; ucmdb_id = some id }) d
      (refl, (name, refl)) h
stored-AreKeyed none id e d h = h
stored-AreKeyed (some name) none e d h = h

stored_link-AreLinks :
    (name id : Option String) (e : Element) (d : Elements)
    → Endless e
    → AllEntries IsLink d
    → AllEntries IsLink (stored_link (identified name id e) d)
stored_link-AreLinks (some name) (some id) e d (s, t) h =
    AllEntries-insert str_eq eq_iff IsLink id
      (with_ends (record e { name = some name; ucmdb_id = some id })) d
      (
        (refl, (name, refl)),
        ap (or_field (get "DiscoveryID1" e.attributes)) s
            ∙ or_field-none (get "DiscoveryID1" e.attributes),
        ap (or_field (get "DiscoveryID2" e.attributes)) t
            ∙ or_field-none (get "DiscoveryID2" e.attributes),
      )
      h
stored_link-AreLinks none id e d _ h = h
stored_link-AreLinks (some name) none e d _ h = h

parse_tag-IsParsed : (t : Tag) (p : Parser) → IsParsed p → IsParsed (parse_tag t p)
unfolding parse_tag attribute_text_to_data
parse_tag-IsParsed t p (objects, links, no_source, no_target) =
    let ends : Endless p.current = (no_source, no_target) in
    let e = with_operation (get "operation" t.attrib) p.current in
    let endless = with_operation-Endless (get "operation" t.attrib) p.current ends in
    let name = get "name" t.attrib in
    let valued = with_value-Endless name t.text p.current ends in
    let id = get "ucmdb_id" t.attrib in
    let link = record p {
      relations = stored_link (ended t p.current) p.relations;
      current = new_element;
    } in
    let object = record p {
      components = stored (ended t p.current) p.components;
      current = new_element;
    } in
    let other = if str_eq t.tag "link" then link else p in
    if_cases IsParsed (str_eq t.tag "attribute")
      (record p { current = attribute_text_to_data t p.current })
      (if str_eq t.tag "object" then object else other) (λ _. (objects, links, valued.0, valued.1))
      (λ _.
        if_cases IsParsed (str_eq t.tag "object") object other
          (λ _. (stored-AreKeyed name id e p.components objects, links, refl, refl))
          (λ _.
            if_cases IsParsed (str_eq t.tag "link") link p
              (λ _. (objects, stored_link-AreLinks name id e p.relations endless links, refl, refl))
              (λ _. (objects, links, no_source, no_target))))

parse_from-IsParsed : (ts : List Tag) (p : Parser) → IsParsed p → IsParsed (parse_from ts p)
unfolding parse_from
parse_from-IsParsed [] p h = h
parse_from-IsParsed (t ∷ ts) p h = parse_from-IsParsed ts (parse_tag t p) (parse_tag-IsParsed t p h)

-- Whatever the tags of a file, every element parsed has a name and stands under its own id, and the
-- ends of every relation are its data DiscoveryID1 and DiscoveryID2, each missing where that is.
pub parse-IsParsed : (ts : List Tag) → IsParsed (parse ts)
unfolding parse
parse-IsParsed ts = parse_from-IsParsed ts create_parser (tt, tt, refl, refl)
