-- ===== src/Ucmdb/Dump.antt =====
-- utils/ucmdb/ucmdb_file_dump.py: the files of a dump with their dates, and their elements merged.
pub mod Changes
pub mod Merge
pub mod Returns
pub mod Order
use text.Mathlib.Text.{◌==◌ as str_eq}
use sts_agent.Prelude.{
  ℕ, Bool, true, false, ◌&&◌, ◌||◌, Option, none, some, String, List, [], ◌∷◌, map, select,
  if◌then◌else◌, leb, ◌==◌, not, ltb, length,
}
use sts_agent.Prelude.Dicts.{insert, pop}
use sts_agent.Ucmdb.{Element, Elements, among, bind, flat}
use sts_agent.Ucmdb.Parser.{Tag, Parser, parse}

-- The paths of the files, and when each was modified, in seconds.
abbrev pub Dates : Type 0
Dates = List (String × ℕ)

pub record DumpStructure : Type 0 where
  pub snapshot_dates : Dates
  pub increment_dates : Dates

abbrev pub has_item : String → ℕ → Dates → Bool
has_item path date [] = false
has_item path date ((p, d) ∷ dates) = (str_eq p path && d == date) || has_item path date dates

-- `set(a.items()) - set(b.items())`
abbrev pub added_items : Dates → Dates → Dates
added_items a b = select (λ item. not (has_item item.0 item.1 b)) a

unfoldable pub has_changes : DumpStructure → DumpStructure → Bool
has_changes s previous =
    ltb 0 (length (added_items s.snapshot_dates previous.snapshot_dates))
    || ltb 0 (length (added_items previous.snapshot_dates s.snapshot_dates))
    || ltb 0 (length (added_items s.increment_dates previous.increment_dates))
    || ltb 0 (length (added_items previous.increment_dates s.increment_dates))

abbrev insert_dated : String × ℕ → Dates → Dates
insert_dated e [] = e ∷ []
insert_dated e (f ∷ dates) =
    let rest = insert_dated e dates in if leb e.1 f.1 then e ∷ f ∷ dates else f ∷ rest

-- `sorted(dates.items(), key=operator.itemgetter(1))`
abbrev pub sorted_dates : Dates → Dates
sorted_dates [] = []
sorted_dates (e ∷ dates) = insert_dated e (sorted_dates dates)

abbrev pub path_of : String × ℕ → String
path_of (path, date) = path

unfoldable pub get_snapshots : DumpStructure → List String
get_snapshots s = map path_of (sorted_dates s.snapshot_dates)

unfoldable pub get_increments : DumpStructure → List String
get_increments s = map path_of (sorted_dates s.increment_dates)

-- The dump, with the `excluded_component_ids` of the call of `load`.
pub record FileDump : Type 0 where
  pub structure : DumpStructure
  pub components : Elements
  pub relations : Elements
  pub excluded_component_ids : List String

abbrev pub create_dump : DumpStructure → FileDump
create_dump s = record {
  structure = s;
  components = [];
  relations = [];
  excluded_component_ids = [];
}

-- `k in d and d[k] in names`
abbrev pub is_among : Option String → List String → Bool
is_among none names = false
is_among (some s) names = among s names

unfoldable pub is_relation_excluded : Element → List String → List String → Bool
is_relation_excluded e types ids =
    is_among e.name types || is_among (flat e.source_id) ids || is_among (flat e.target_id) ids

-- By the operation; `none` where the exception `Unknown operation` is raised, or KeyError.
abbrev pub handled : Elements → String → Element → Option String → Option Elements
handled d id e none = none
handled d id e (some operation) =
    if str_eq operation "add" || str_eq operation "update"
    then some (insert str_eq id e d)
    else if str_eq operation "delete"
    then some (pop str_eq id d)
    else none

unfoldable pub handle_element : Elements → String → Element → Option Elements
handle_element d id e = handled d id e e.operation

-- One turn of the loop over the components of a file: `component['name']` may raise.
abbrev pub load_named : List String → String → Element → FileDump → Option String → Option FileDump
load_named types id e d none = none
load_named types id e d (some name) =
    if among name types
    then some (record d { excluded_component_ids = id ∷ d.excluded_component_ids })
    else bind (handle_element d.components id e) (λ c. some (record d { components = c }))

unfoldable pub load_component : List String → String → Element → FileDump → Option FileDump
load_component types id e d = load_named types id e d e.name

unfoldable pub load_relation : List String → String → Element → FileDump → Option FileDump
load_relation types id e d =
    if is_relation_excluded e types d.excluded_component_ids
    then some d
    else bind (handle_element d.relations id e) (λ r. some (record d { relations = r }))

unfoldable pub each :
    (String → Element → FileDump → Option FileDump) → Elements → FileDump → Option FileDump
each step [] d = some d
each step ((id, e) ∷ elements) d = bind (step id e d) (each step elements)

unfoldable pub load_file : List String → Parser → FileDump → Option FileDump
load_file types p d =
    bind (each (load_component types) p.components d) (each (load_relation types) p.relations)

-- `file` gives the tags of a path, or `none` where the XML library raises.
unfoldable pub load_files :
    (String → Option (List Tag)) → List String → List String → FileDump → Option FileDump
load_files file types [] d = some d
load_files file types (path ∷ paths) d =
    bind (bind (file path) (λ tags. load_file types (parse tags) d)) (load_files file types paths)

unfoldable pub load : (String → Option (List Tag)) → List String → FileDump → Option FileDump
load file types d =
    bind
      (load_files file types (get_snapshots d.structure) (record d { excluded_component_ids = [] }))
      (load_files file types (get_increments d.structure))
