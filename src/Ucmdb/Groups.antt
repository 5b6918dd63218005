-- ===== src/Ucmdb/Groups.antt =====
-- utils/ucmdb/ucmdb_component_groups.py, class UcmdbComponentGroups: the components that relations
-- connect get one label.
pub mod Decimal
pub mod Sets
pub mod Connected
pub mod Tests
use Prim.Native.String.{◌++◌ as str_append}
use text.Mathlib.Text.{◌==◌ as str_eq}
use sts_agent.Prelude.{
  ℕ, suc, ◌+◌, Bool, true, false, ◌||◌, Option, none, some, String, List, [], ◌∷◌, if◌then◌else◌,
  ◌==◌, leb,
}
use sts_agent.Prelude.Dicts.{lookup, insert}
use sts_agent.Ucmdb.{Element, Elements, get, get_value, flat, bind}
use sts_agent.Ucmdb.Groups.Decimal.{decimal}

-- The class UF of the package python_algorithms.
pub record UnionFind (U : Type 0) : Type 0 where
  pub create : ℕ → U
  pub connected : U → ℕ → ℕ → Bool
  pub union : U → ℕ → ℕ → U
  pub find : U → ℕ → ℕ

abbrev pub Numbers : Type 0
Numbers = List (String × ℕ)

pub record Groups (U : Type 0) : Type 0 where
  pub components : Elements
  pub relations : Elements
  pub component_name_to_label : List (String × String)
  pub label_min_group_size : ℕ
  pub group_counts : List (ℕ × ℕ)
  pub component_id_to_label : List (String × String)
  pub component_number : Numbers
  pub unionfind : U

-- What the loop of `__init__` builds.
pub record Numbering : Type 0 where
  pub numbers : Numbers
  pub labels : List (String × String)
  pub counter : ℕ

abbrev pub is_some : {A : Type 0} → Option A → Bool
is_some none = false
is_some (some a) = true

abbrev pub name_label : List (String × String) → Option String → Option String
name_label names none = none
name_label names (some name) = get name names

abbrev pub with_name_label :
    String → Option String → List (String × String) → List (String × String)
with_name_label id none labels = labels
with_name_label id (some label) labels = insert str_eq id label labels

abbrev pub numbered : List (String × String) → String → Element → Numbering → Numbering
numbered names id e n = record {
  numbers = insert str_eq id n.counter n.numbers;
  labels = with_name_label id (name_label names (get_value "name" e.attributes)) n.labels;
  counter = n.counter + 1;
}

-- One turn of it: `none` where the component has no operation.
abbrev pub number_component :
    List (String × String) → String → Element → Option String → Numbering → Option Numbering
number_component names id e none n = none
number_component names id e (some operation) n =
    some
      (if str_eq operation "delete" || is_some (get id n.numbers) then n else numbered names id e n)

unfoldable pub number_components : List (String × String) → Elements → Numbering → Option Numbering
number_components names [] n = some n
number_components names ((id, e) ∷ components) n =
    bind (number_component names id e e.operation n) (number_components names components)

abbrev pub no_numbering : Numbering
no_numbering = record { numbers = []; labels = []; counter = 0 }

-- `component_number.get(id)`, where the id may be None.
abbrev pub number_of : Numbers → Option String → Option ℕ
number_of numbers none = none
number_of numbers (some id) = get id numbers

abbrev pub plus_one : Option ℕ → ℕ
plus_one none = 1
plus_one (some n) = n + 1

-- `data['label.connected_group'] = label`
abbrev pub append_label : String → Element → Element
append_label label e = record e {
  attributes = insert str_eq "label.connected_group" (some label) e.attributes;
}

abbrev pub size_label : ℕ → Option ℕ → Option String
size_label least none = none
size_label least (some size) =
    if leb least size then some (str_append "group_of_size_" (decimal size)) else none

-- The label of a group, `none` where there is none and the group is too small.
abbrev pub group_label : ℕ → List (ℕ × ℕ) → ℕ → Option String → Option String
group_label least counts group none = size_label least (lookup ◌==◌ group counts)
group_label least counts group (some label) = some label

abbrev pub with_group_label : Option String → Element → Element
with_group_label none e = e
with_group_label (some label) e = append_label label e

module _ {U : Type 0} (uf : UnionFind U) where
  abbrev pub groups_of : Elements → Elements → List (String × String) → ℕ → Numbering → Groups U
  groups_of components relations names size n = record {
    components = components;
    relations = relations;
    component_name_to_label = names;
    label_min_group_size = size;
    group_counts = [];
    component_id_to_label = n.labels;
    component_number = n.numbers;
    unionfind = uf.create n.counter;
  }

  abbrev pub created :
      Elements → Elements → List (String × String) → ℕ → Option Numbering → Option (Groups U)
  created components relations names size none = none
  created components relations names size (some n) =
      some (groups_of components relations names size n)

  unfoldable pub create_groups :
      Elements → Elements → List (String × String) → ℕ → Option (Groups U)
  create_groups components relations names size =
      created components relations names size (number_components names components no_numbering)

  abbrev pub union_numbers : U → Option ℕ → Option ℕ → U
  union_numbers u none b = u
  union_numbers u (some a) none = u
  union_numbers u (some a) (some b) = if uf.connected u a b then u else uf.union u a b

  unfoldable pub union_groups : Numbers → Elements → U → U
  union_groups numbers [] u = u
  union_groups numbers ((id, e) ∷ relations) u = union_groups numbers relations (
      union_numbers u (number_of numbers (flat e.source_id)) (number_of numbers (flat e.target_id)))

  abbrev pub count_group : U → Option ℕ → List (ℕ × ℕ) → List (ℕ × ℕ)
  count_group u none counts = counts
  count_group u (some number) counts =
      let group = uf.find u number in insert ◌==◌ group (plus_one (lookup ◌==◌ group counts)) counts

  unfoldable pub calculate_group_counts : U → Numbers → Elements → List (ℕ × ℕ) → List (ℕ × ℕ)
  calculate_group_counts u numbers [] counts = counts
  calculate_group_counts u numbers ((id, e) ∷ components) counts =
      calculate_group_counts u numbers components (count_group u (get id numbers) counts)

  -- The first loop of `_label_components`; `none` where KeyError is raised.
  abbrev pub label_number : U → String → Option ℕ → List (ℕ × String) → Option (List (ℕ × String))
  label_number u label none labels = none
  label_number u label (some number) labels = some (insert ◌==◌ (uf.find u number) label labels)

  unfoldable pub label_numbers :
      U → Numbers → List (String × String) → List (ℕ × String) → Option (List (ℕ × String))
  label_numbers u numbers [] labels = some labels
  label_numbers u numbers ((id, label) ∷ rest) labels =
      bind (label_number u label (get id numbers) labels) (label_numbers u numbers rest)

  abbrev pub label_component :
      U → ℕ → List (ℕ × ℕ) → List (ℕ × String) → Option ℕ → Element → Element
  label_component u least counts labels none e = e
  label_component u least counts labels (some number) e =
      let group = uf.find u number in
      with_group_label (group_label least counts group (lookup ◌==◌ group labels)) e

  unfoldable pub label_components :
      U → ℕ → List (ℕ × ℕ) → List (ℕ × String) → Numbers → Elements → Elements
  label_components u least counts labels numbers [] = []
  label_components u least counts labels numbers ((id, e) ∷ components) =
      (id, label_component u least counts labels (get id numbers) e)
      ∷ label_components u least counts labels numbers components

  abbrev pub labelled_by :
      Groups U → U → List (ℕ × ℕ) → Option (List (ℕ × String)) → Option (Groups U)
  labelled_by g u counts none = none
  labelled_by g u counts (some labels) = some (record g {
    components =
        label_components u g.label_min_group_size counts labels g.component_number g.components;
    group_counts = counts;
    unionfind = u;
  })

  -- `label_groups`
  unfoldable pub label_groups : Groups U → Option (Groups U)
  label_groups g =
      let u = union_groups g.component_number g.relations g.unionfind in
      let counts = calculate_group_counts u g.component_number g.components g.group_counts in
      labelled_by g u counts (label_numbers u g.component_number g.component_id_to_label [])
