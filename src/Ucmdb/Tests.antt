-- ===== src/Ucmdb/Tests.antt =====
-- A dump of three components, loaded and labelled, and the theorems at it.
use sts_agent.Prelude.{
  true, false, Option, none, some, String, List, [], ◌∷◌, ◌++◌, ◌≡◌, ◌≤◌, refl, length, arith,
  Option-cases, subst, sym, inl, inr, if◌then◌else◌, All,
}
use text.Mathlib.Text.{◌==◌ as str_eq}
use text.Mathlib.TextEquality.{eq_iff}
use sts_agent.Prelude.Dicts.{lookup, insert, pop, AllValues, AllEntries-lookup}
use sts_agent.Ucmdb.{Element, Elements, get}
use sts_agent.Ucmdb.Parser.{Tag, parse, parse_from, parse_tag, attribute_text_to_data}
use sts_agent.Ucmdb.Parser.Roundtrip.{Item, render, parser_of, all_added, parse-render}
use sts_agent.Ucmdb.Dump.{
  DumpStructure, FileDump, create_dump, has_changes, get_snapshots, get_increments, handle_element,
  is_relation_excluded, load_component, load_relation, each, load_file, load_files, load,
}
use sts_agent.Ucmdb.Dump.Merge.{view_files, load-lookup}
use sts_agent.Ucmdb.Dump.Returns.{Returns, load-Returns}
use sts_agent.Ucmdb.Trees.{
  Graph, Trees, Run, create_trees, build_graph, find_root_ids, bfs_turn, bfs, label_from_root,
  label_roots, label_trees,
}
use sts_agent.Ucmdb.Trees.Reach.{outgoing, IsLive, HasTarget, or_empty}
use sts_agent.Ucmdb.Trees.Labels.{RootsEnd, label_trees-Ends}

abbrev object : String → String → Item
object operation id = record {
  is_link = false;
  operation = operation;
  name = "host";
  ucmdb_id = id;
  attributes = ("name", some id) ∷ [];
}

abbrev link : String → String → String → Item
link id source target = record {
  is_link = true;
  operation = "add";
  name = "usage";
  ucmdb_id = id;
  attributes = ("DiscoveryID1", some source) ∷ ("DiscoveryID2", some target) ∷ [];
}

abbrev items : List Item
items =
    object "add" "a"
    ∷ object "add" "b"
    ∷ object "add" "c"
    ∷ link "ab" "a" "b"
    ∷ link "ba" "b" "a"
    ∷ []

abbrev file : String → Option (List Tag)
file path = some (render (if str_eq path "full/1.xml" then items else object "delete" "c" ∷ []))

abbrev structure : DumpStructure
structure = record {
  snapshot_dates = ("full/1.xml", 5) ∷ [];
  increment_dates = ("increment/2.xml", 9) ∷ ("increment/1.xml", 7) ∷ [];
}

program : Unit {0}
unfolding lookup insert pop parse parse_from parse_tag attribute_text_to_data has_changes
    get_snapshots get_increments handle_element is_relation_excluded load_component load_relation
    each load_file load_files load build_graph find_root_ids bfs_turn bfs label_from_root
    label_roots label_trees
program = tt

abbrev no_dump : FileDump
no_dump = record {
  structure = structure;
  components = [];
  relations = [];
  excluded_component_ids = [];
}

abbrev or_dump : Option FileDump → FileDump
or_dump none = no_dump
or_dump (some d) = d

abbrev dump : FileDump
dump = or_dump (load file [] (create_dump structure))

ordered : get_increments structure ≡ "increment/1.xml" ∷ "increment/2.xml" ∷ []
unfolding program
ordered = refl

ids : Elements → List String
ids [] = []
ids ((id, e) ∷ d) = id ∷ ids d

loaded : (ids dump.components ≡ "a" ∷ "b" ∷ []) × (ids dump.relations ≡ "ab" ∷ "ba" ∷ [])
unfolding program ids
loaded = (refl, refl)

abbrev trees : Trees
trees = create_trees dump.components dump.relations (("a", "tree") ∷ [])

abbrev or_nothing : Run → Elements
or_nothing Run.raised = []
or_nothing Run.unfinished = []
or_nothing (Run.finished c) = c

abbrev labels_of : Option Element → Option (Option String)
labels_of none = none
labels_of (some e) = get "label.tree" e.attributes

labelled : labels_of (get "b" (or_nothing (label_trees 10 trees))) ≡ some (some "tree")
unfolding program
labelled = refl

parse-render_example : parse (render items) ≡ parser_of (all_added items ([], []))
unfolding program
parse-render_example =
    parse-render items
      ((refl, tt), ((refl, tt), ((refl, tt), ((refl, (refl, tt)), ((refl, (refl, tt)), tt)))))

abbrev one_file : DumpStructure
one_file = record { snapshot_dates = ("full/1.xml", 5) ∷ []; increment_dates = [] }

load-lookup_example :
    get "c" dump.components
    ≡ view_files file [] "c" none (get_snapshots structure ++ get_increments structure)
unfolding program
load-lookup_example = load-lookup [] "c" file (create_dump structure) dump refl

load-Returns_example : Returns (load file [] (create_dump structure))
unfolding program
load-Returns_example =
    load-Returns file [] (create_dump structure)
      (
        (
          (("add", refl, refl), (("add", refl, refl), (("add", refl, refl), tt))),
          (("add", refl, refl), (("add", refl, refl), tt)),
        ),
        tt,
      )
      ((((("delete", refl, refl), tt), tt)), ((((("delete", refl, refl), tt), tt)), tt))

abbrev or_empty_graph : Option Graph → Graph
or_empty_graph none = []
or_empty_graph (some g) = g

abbrev graph : Graph
graph = or_empty_graph (build_graph dump.relations [])

-- What holds of each list of a graph, and of the empty one, holds of what goes out.
by_values :
    (P : List Element → Type 0) (g : Graph) → P [] → AllValues P g → (a : String) → P (outgoing g a)
by_values P g empty all a = elim (Option-cases (get a g)) [
  | inl e ↦ subst (λ o. P (or_empty o)) (sym e) empty
  | inr (es, e) ↦
      subst (λ o. P (or_empty o)) (sym e) (AllEntries-lookup str_eq eq_iff (λ k. P) a es g all e)
]

abbrev IsOpen : String → Element → Type 0
IsOpen k e =
    (e.ucmdb_id ≡ some k)
    × ((operation : String) × (e.operation ≡ some operation) × (str_eq operation "deleted" ≡ false))

dump-IsLive : IsLive dump.components
unfolding program
dump-IsLive k e is =
    AllEntries-lookup str_eq eq_iff IsOpen k e dump.components
      ((refl, ("add", refl, refl)), ((refl, ("add", refl, refl)), tt)) is

label_trees-Ends_example :
    RootsEnd graph (("a", "tree") ∷ []) dump.components (label_trees 10 trees)
unfolding program
label_trees-Ends_example =
    label_trees-Ends trees graph (("a", "tree") ∷ []) 1 10 refl refl
      (by_values (All HasTarget) graph tt (((some "b", refl), tt), (((some "a", refl), tt), tt)))
      (by_values (λ rs. length rs ≤ 1) graph (omega arith) (omega arith, (omega arith, tt)))
      dump-IsLive ((_, refl), tt) (omega arith)
