-- ===== src/Ucmdb/Groups/Tests.antt =====
-- Two connected components and one apart, and the theorems at them, with a union-find by functions.
use sts_agent.Prelude.{
  ℕ, Option, none, some, String, List, [], ◌∷◌, if◌then◌else◌, ◌==◌, ==_iff, ◌≡◌, ◌↔◌, ◌⊎◌, inl,
  refl, arith,
}
use sts_agent.Prelude.Dicts.{lookup, insert}
use sts_agent.Ucmdb.{Element, Elements, get, new_element}
use sts_agent.Ucmdb.Groups.{
  UnionFind, Numbers, Groups, number_components, create_groups, union_groups,
  calculate_group_counts, label_numbers, label_components, label_groups,
}
use sts_agent.Ucmdb.Groups.Decimal.{decimal}
use sts_agent.Ucmdb.Groups.Sets.{UnionFindLaws, Linked}
use sts_agent.Ucmdb.Groups.Connected.{AreAlike, label_groups-AreAlike}

-- The representative of each item.
abbrev by_functions : UnionFind (ℕ → ℕ)
by_functions = record {
  create = λ n x. x;
  connected = λ f a b. f a == f b;
  union = λ f a b x. if f x == f a then f b else f x;
  find = λ f x. f x;
}

merged :
    (x y a b : ℕ)
    → ((if x == a then b else x) ≡ (if y == a then b else y))
      ↔ ((x ≡ y) ⊎ (((x ≡ a) × (y ≡ b)) ⊎ ((x ≡ b) × (y ≡ a))))
merged x y a b = ground arith

by_functions-laws : UnionFindLaws by_functions
by_functions-laws = record {
  find_create = λ n x y _ _ e. e;
  find_union = λ n f a b x y _ _ _ _ _. merged (f x) (f y) (f a) (f b);
  connected_iff = λ n f a b _ _ _. ==_iff (f a) (f b);
}

abbrev component : String → Element
component name = record new_element {
  operation = some "add";
  name = some "host";
  attributes = ("name", some name) ∷ [];
}

abbrev components : Elements
components = ("a", component "x") ∷ ("b", component "y") ∷ ("c", component "z") ∷ []

abbrev relations : Elements
relations =
    (
      "ab",
      record new_element {
        operation = some "add";
        source_id = some (some "a");
        target_id = some (some "b");
      },
    )
    ∷ []

abbrev no_groups : Groups (ℕ → ℕ)
no_groups = record {
  components = [];
  relations = [];
  component_name_to_label = [];
  label_min_group_size = 0;
  group_counts = [];
  component_id_to_label = [];
  component_number = [];
  unionfind = λ x. x;
}

abbrev or_no_groups : Option (Groups (ℕ → ℕ)) → Groups (ℕ → ℕ)
or_no_groups none = no_groups
or_no_groups (some g) = g

abbrev names : List (String × String)
names = ("z", "alone") ∷ []

abbrev groups : Groups (ℕ → ℕ)
groups = or_no_groups (create_groups by_functions components relations names 2)

abbrev result : Groups (ℕ → ℕ)
result = or_no_groups (label_groups by_functions groups)

program : Unit {0}
unfolding lookup insert number_components create_groups union_groups calculate_group_counts
    label_numbers label_components label_groups decimal
program = tt

abbrev group_of : Option Element → Option (Option String)
group_of none = none
group_of (some e) = get "label.connected_group" e.attributes

grouped_labels :
    (group_of (get "a" result.components) ≡ some (some "group_of_size_2"))
    × (group_of (get "b" result.components) ≡ some (some "group_of_size_2"))
    × (group_of (get "c" result.components) ≡ some (some "alone"))
unfolding program
grouped_labels = (refl, refl, refl)

label_groups-AreAlike_example : AreAlike components result.components "a" "b"
unfolding program
label_groups-AreAlike_example =
    label_groups-AreAlike by_functions by_functions-laws components relations names 2 groups result
      "a" "b" 0 1 refl refl refl refl (Linked.related (inl (refl, refl)))

abbrev numbers : Numbers
numbers = ("a", 0) ∷ ("b", 1) ∷ ("c", 2) ∷ []
