-- ===== src/Ucmdb/Trees.antt =====
-- utils/ucmdb/ucmdb_component_trees.py, class UcmdbComponentTrees: the components below a root get
-- its label.
pub mod Reach
pub mod Weights
pub mod Turns
pub mod Search
pub mod Labels
pub mod Outgoing
use Prim.Native.String.{◌++◌ as str_append}
use text.Mathlib.Text.{◌==◌ as str_eq}
use sts_agent.Prelude.{
  ℕ, zero, suc, Bool, true, false, Option, none, some, String, List, [], ◌∷◌, ◌++◌, if◌then◌else◌,
}
use sts_agent.Prelude.Dicts.{insert}
use sts_agent.Ucmdb.{Element, Elements, get, get_value, among, bind}

-- The relations that go out of a component.
abbrev pub Graph : Type 0
Graph = List (String × List Element)

abbrev pub Labels : Type 0
Labels = List (String × String)

pub record Trees : Type 0 where
  pub components : Elements
  pub relations : Elements
  pub tree_parent_to_label : Labels
  pub component_id_to_label : Labels
  pub graph : Graph

abbrev pub create_trees : Elements → Elements → Labels → Trees
create_trees components relations labels = record {
  components = components;
  relations = relations;
  tree_parent_to_label = labels;
  component_id_to_label = [];
  graph = [];
}

abbrev pub with_relation : String → Element → Graph → Option (List Element) → Graph
with_relation source e g none = insert str_eq source (e ∷ []) g
with_relation source e g (some es) = insert str_eq source (es ++ e ∷ []) g

-- One turn of the loop of `_build_graph`; `none` where KeyError is raised. A relation with the
-- source None is put under a key that no component has.
abbrev pub add_outgoing : Element → Graph → Option String → Option (Option String) → Option Graph
add_outgoing e g none source = none
add_outgoing e g (some operation) none = if str_eq operation "delete" then some g else none
add_outgoing e g (some operation) (some none) = some g
add_outgoing e g (some operation) (some (some source)) =
    if str_eq operation "delete" then some g else some (with_relation source e g (get source g))

unfoldable pub build_graph : Elements → Graph → Option Graph
build_graph [] g = some g
build_graph ((id, e) ∷ relations) g =
    bind (add_outgoing e g e.operation e.source_id) (build_graph relations)

abbrev root_of : Option String → Option String → Labels → Option Labels
root_of none id roots = some roots
root_of (some label) none roots = none
root_of (some label) (some id) roots = some (insert str_eq id label roots)

abbrev label_of : Labels → Option String → Option String
label_of labels none = none
label_of labels (some name) = get name labels

-- One turn of the loop of `_find_root_ids`.
abbrev pub add_root : Labels → Element → Labels → Option String → Option Labels
add_root labels e roots none = none
add_root labels e roots (some operation) =
    if str_eq operation "delete"
    then some roots
    else root_of (label_of labels (get_value "name" e.attributes)) e.ucmdb_id roots

unfoldable pub find_root_ids : Labels → Elements → Labels → Option Labels
find_root_ids labels [] roots = some roots
find_root_ids labels ((id, e) ∷ components) roots =
    bind (add_root labels e roots e.operation) (find_root_ids labels components)

-- `data['label.%s' % label] = label`
abbrev pub with_label : String → Element → Element
with_label label e = record e {
  attributes = insert str_eq (str_append "label." label) (some label) e.attributes;
}

abbrev pub append_label : String → String → Element → Elements → Elements
append_label k label e components = insert str_eq k (with_label label e) components

-- The components that a turn of the loop of `_bfs` adds to the queue; a component is its key.
abbrev pub add_target : String → Option Element → Option (List String) → Option (List String)
add_target t none rest = rest
add_target t (some e) none = none
add_target t (some e) (some ts) = some (t ∷ ts)

abbrev pub target :
    List String → Elements → Option (Option String) → Option (List String) → Option (List String)
target visited components none rest = none
target visited components (some none) rest = rest
target visited components (some (some t)) rest =
    if among t visited then rest else add_target t (get t components) rest

abbrev pub targets : List String → Elements → List Element → Option (List String)
targets visited components [] = some []
targets visited components (r ∷ relations) =
    target visited components r.target_id (targets visited components relations)

-- What a turn of the loop leaves.
pub data Turn : Type 0 where
  raises : Turn
  goes_on : List String → List String → Elements → Turn

abbrev pub queue_targets : List String → List String → Elements → Option (List String) → Turn
queue_targets queue visited components none = raises
queue_targets queue visited components (some ts) = goes_on (queue ++ ts) visited components

abbrev pub follow : List String → List String → Elements → Option (List Element) → Turn
follow queue visited components none = goes_on queue visited components
follow queue visited components (some relations) =
    queue_targets queue visited components (targets visited components relations)

abbrev pub turn_with :
    Graph
    → String
    → String
    → List String
    → List String
    → Elements
    → Element
    → Option String
    → Option String
    → Turn
turn_with g label k queue visited components e none operation = raises
turn_with g label k queue visited components e (some id) none = raises
turn_with g label k queue visited components e (some id) (some operation) =
    if str_eq operation "deleted"
    then goes_on queue (id ∷ visited) components
    else follow queue (id ∷ visited) (append_label k label e components) (get id g)

abbrev pub turn_at :
    Graph → String → String → List String → List String → Elements → Option Element → Turn
turn_at g label k queue visited components none = raises
turn_at g label k queue visited components (some e) =
    turn_with g label k queue visited components e e.ucmdb_id e.operation

unfoldable pub bfs_turn : Graph → String → String → List String → List String → Elements → Turn
bfs_turn g label k queue visited components =
    turn_at g label k queue visited components (get k components)

pub data Run : Type 0 where
  raised : Run
  unfinished : Run
  finished : Elements → Run

abbrev pub keep_on : (List String → List String → Elements → Run) → Turn → Run
keep_on loop raises = raised
keep_on loop (goes_on queue visited components) = loop queue visited components

-- `_bfs` from a queue, with the number of turns that it may take.
unfoldable pub bfs : Graph → String → ℕ → List String → List String → Elements → Run
bfs g label fuel [] visited components = finished components
bfs g label zero (k ∷ queue) visited components = unfinished
bfs g label (suc fuel) (k ∷ queue) visited components =
    keep_on (bfs g label fuel) (bfs_turn g label k queue visited components)

abbrev pub from_root : Graph → ℕ → String → String → Elements → Option Element → Run
from_root g fuel root label components none = raised
from_root g fuel root label components (some e) = bfs g label fuel (root ∷ []) [] components

-- `_label_from_root`
unfoldable pub label_from_root : Graph → ℕ → String → String → Elements → Run
label_from_root g fuel root label components =
    from_root g fuel root label components (get root components)

abbrev pub next_root : (Elements → Run) → Run → Run
next_root loop raised = raised
next_root loop unfinished = unfinished
next_root loop (finished components) = loop components

-- `_label_trees`, and `label_trees`
unfoldable pub label_roots : Graph → ℕ → Labels → Elements → Run
label_roots g fuel [] components = finished components
label_roots g fuel ((root, label) ∷ roots) components =
    next_root (label_roots g fuel roots) (label_from_root g fuel root label components)

abbrev pub label_found : Trees → ℕ → Option Graph → Option Labels → Run
label_found t fuel none roots = raised
label_found t fuel (some g) none = raised
label_found t fuel (some g) (some roots) = label_roots g fuel roots t.components

unfoldable pub label_trees : ℕ → Trees → Run
label_trees fuel t =
    label_found t fuel (build_graph t.relations t.graph)
      (find_root_ids t.tree_parent_to_label t.components t.component_id_to_label)
