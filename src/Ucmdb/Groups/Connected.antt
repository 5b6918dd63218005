-- ===== src/Ucmdb/Groups/Connected.antt =====
-- utils/ucmdb/ucmdb_component_groups.py, label_groups: connected components get one label.
use text.Mathlib.Text.{◌==◌ as str_eq}
use text.Mathlib.TextEquality.{eq_iff}
use mathlib.Core.Option.{some-injective, none-ne-some}
use sts_agent.Prelude.{
  ℕ, ◌+◌, ◌<◌, ◌||◌, Option, none, some, String, List, [], ◌∷◌, All-map, if◌then◌else◌, if_cases,
  ◌==◌, ◌≡◌, refl, sym, ap, ◌∙◌, subst, arith, Bool-cases, inl, inr,
}
use sts_agent.Prelude.Dicts.{lookup, AllValues, AllValues-insert, AllEntries-lookup}
use sts_agent.Ucmdb.{Element, Elements, get, bind-some}
use sts_agent.Ucmdb.Groups.{
  UnionFind, Numbers, Groups, Numbering, is_some, numbered, number_component, number_components,
  no_numbering, groups_of, created, create_groups, union_groups, calculate_group_counts,
  label_numbers, with_group_label, group_label, label_component, label_components, labelled_by,
  label_groups,
}
use sts_agent.Ucmdb.Groups.Sets.{UnionFindLaws, Linked, union_groups-Linked}

-- Each number is below the counter.
abbrev pub IsBounded : Numbering → Type 0
IsBounded n = AllValues (λ a. a < n.counter) n.numbers

number_component-IsBounded :
    (names : List (String × String)) (id : String) (e : Element) (o : Option String)
    (n n' : Numbering)
    → IsBounded n
    → number_component names id e o n ≡ some n'
    → IsBounded n'
number_component-IsBounded names id e none n n' h is = absurd (none-ne-some n' is)
number_component-IsBounded names id e (some operation) n n' h is =
    let skips = str_eq operation "delete" || is_some (get id n.numbers) in
    let next = numbered names id e n in
    subst IsBounded (some-injective (if skips then n else next) n' is) (
      if_cases IsBounded skips n next (λ _. h)
        (λ _.
          AllValues-insert str_eq (λ a. a < n.counter + 1) id n.counter n.numbers (omega arith)
            (All-map (λ x. x.1 < n.counter) (λ x. x.1 < n.counter + 1) (λ x lt. omega (arith, lt))
              n.numbers h)))

number_components-IsBounded :
    (names : List (String × String)) (components : Elements) (n n' : Numbering)
    → IsBounded n
    → number_components names components n ≡ some n'
    → IsBounded n'
unfolding number_components
number_components-IsBounded names [] n n' h is = subst IsBounded (some-injective n n' is) h
number_components-IsBounded names ((id, e) ∷ components) n n' h is =
    let (n1, first, rest) =
      bind-some (number_component names id e e.operation n) (number_components names components) n'
        is in
    number_components-IsBounded names components n1 n'
      (number_component-IsBounded names id e e.operation n n1 h first) rest

abbrev pub grouped : Option String → Option Element → Option Element
grouped label none = none
grouped label (some e) = some (with_group_label label e)

-- The two components have one label, or neither is labelled.
abbrev pub AreAlike : Elements → Elements → String → String → Type 0
AreAlike c c' x y =
    (label : Option String) × (get x c' ≡ grouped label (get x c))
    × (get y c' ≡ grouped label (get y c))

module _ {U : Type 0} (uf : UnionFind U) where
  abbrev with_number :
      U → ℕ → List (ℕ × ℕ) → List (ℕ × String) → Option ℕ → Option Element → Option Element
  with_number u least counts labels o none = none
  with_number u least counts labels o (some e) = some (label_component uf u least counts labels o e)

  label_components-lookup :
      (u : U) (least : ℕ) (counts : List (ℕ × ℕ)) (labels : List (ℕ × String)) (numbers : Numbers)
      (x : String) (c : Elements)
      → get x (label_components uf u least counts labels numbers c)
        ≡ with_number u least counts labels (get x numbers) (get x c)
  unfolding label_components lookup
  label_components-lookup u least counts labels numbers x [] = refl
  label_components-lookup u least counts labels numbers x ((id, e) ∷ c) =
      elim (Bool-cases (str_eq id x)) [
        | inl same ↦ rw same (
            ap (λ k. some (label_component uf u least counts labels (get k numbers) e))
              ((eq_iff id x).0 same))
        | inr other ↦ rw other (label_components-lookup u least counts labels numbers x c)
      ]

  abbrev label_at : U → ℕ → List (ℕ × ℕ) → List (ℕ × String) → ℕ → Option String
  label_at u least counts labels group = group_label least counts group (lookup ◌==◌ group labels)

  with_number-grouped :
      (u : U) (least : ℕ) (counts : List (ℕ × ℕ)) (labels : List (ℕ × String)) (a : ℕ)
      (o : Option Element)
      → with_number u least counts labels (some a) o
        ≡ grouped (label_at u least counts labels (uf.find u a)) o
  with_number-grouped u least counts labels a none = refl
  with_number-grouped u least counts labels a (some e) = refl

  labelled_by-AreAlike :
      (g g' : Groups U) (u : U) (counts : List (ℕ × ℕ)) (o : Option (List (ℕ × String)))
      (x y : String) (a b : ℕ)
      → get x g.component_number ≡ some a
      → get y g.component_number ≡ some b
      → uf.find u a ≡ uf.find u b
      → labelled_by uf g u counts o ≡ some g'
      → AreAlike g.components g'.components x y
  labelled_by-AreAlike g g' u counts none x y a b is_a is_b same is = absurd (none-ne-some g' is)
  labelled_by-AreAlike g g' u counts (some labels) x y a b is_a is_b same is =
      let least = g.label_min_group_size in
      let numbers = g.component_number in
      let after = label_components uf u least counts labels numbers g.components in
      let done : Groups U = record g { components = after; group_counts = counts; unionfind = u } in
      let one : (z : String) (d : ℕ)
          → get z numbers ≡ some d
          → get z g'.components
            ≡ grouped (label_at u least counts labels (uf.find u d)) (get z g.components) =
        λ z d is_d.
          ap (λ r. get z r.components) (sym (some-injective done g' is))
          ∙ label_components-lookup u least counts labels numbers z g.components
          ∙ ap (λ o. with_number u least counts labels o (get z g.components)) is_d
          ∙ with_number-grouped u least counts labels d (get z g.components) in
      (
        label_at u least counts labels (uf.find u a),
        one x a is_a,
        one y b is_b
            ∙ ap (λ r. grouped (label_at u least counts labels r) (get y g.components)) (sym same),
      )

  created-some :
      (components relations : Elements) (names : List (String × String)) (size : ℕ)
      (o : Option Numbering) (g : Groups U)
      → created uf components relations names size o ≡ some g
      → (n : Numbering) × (o ≡ some n) × (groups_of uf components relations names size n ≡ g)
  created-some components relations names size none g h = absurd (none-ne-some g h)
  created-some components relations names size (some n) g h =
      (n, refl, some-injective (groups_of uf components relations names size n) g h)

  abbrev IsAlike : Elements → Elements → String → String → ℕ → ℕ → Groups U → Groups U → Type 0
  IsAlike components relations x y a b g' g =
      label_groups uf g ≡ some g'
      → get x g.component_number ≡ some a
      → get y g.component_number ≡ some b
      → Linked g.component_number relations a b
      → AreAlike components g'.components x y

  groups_of-AreAlike :
      (laws : UnionFindLaws uf) (components relations : Elements) (names : List (String × String))
      (size : ℕ) (n : Numbering) (g' : Groups U) (x y : String) (a b : ℕ)
      → IsBounded n
      → IsAlike components relations x y a b g' (groups_of uf components relations names size n)
  unfolding label_groups
  groups_of-AreAlike laws components relations names size n g' x y a b bounded done is_a is_b link =
      let g = groups_of uf components relations names size n in
      let u = union_groups uf n.numbers relations (uf.create n.counter) in
      let counts = calculate_group_counts uf u n.numbers components [] in
      let lt : (z : String) (d : ℕ) → get z n.numbers ≡ some d → d < n.counter =
        λ z d. AllEntries-lookup str_eq eq_iff (λ _ v. v < n.counter) z d n.numbers bounded in
      let same =
        (union_groups-Linked uf laws n.counter n.numbers bounded relations a b (lt x a is_a)
            (lt y b is_b)).1
          link in
      labelled_by-AreAlike g g' u counts (label_numbers uf u n.numbers n.labels []) x y a b is_a
        is_b same done

  module _ (laws : UnionFindLaws uf) where
    -- If the union-find keeps its laws, the groups are created and label_groups returns, then of two
    -- components that a chain of relations connects, both have the label of the group, or neither
    -- has one, and nothing else of them is changed.
    pub label_groups-AreAlike :
        (components relations : Elements) (names : List (String × String)) (size : ℕ)
        (g g' : Groups U) (x y : String) (a b : ℕ)
        → create_groups uf components relations names size ≡ some g
        → label_groups uf g ≡ some g'
        → get x g.component_number ≡ some a
        → get y g.component_number ≡ some b
        → Linked g.component_number relations a b
        → AreAlike components g'.components x y
    unfolding create_groups label_groups
    label_groups-AreAlike components relations names size g g' x y a b is done is_a is_b link =
        let (n, numbering, is_g) =
          created-some components relations names size
            (number_components names components no_numbering) g is in
        let bounded = number_components-IsBounded names components no_numbering n tt numbering in
        subst (IsAlike components relations x y a b g') is_g
          (groups_of-AreAlike laws components relations names size n g' x y a b bounded) done is_a
          is_b link
