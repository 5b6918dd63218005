-- ===== src/Ucmdb/Trees/Labels.antt =====
-- utils/ucmdb/ucmdb_component_trees.py: the labels after all roots.
use Prim.Native.String.{◌++◌ as str_append}
use text.Mathlib.Text.{◌==◌ as str_eq}
use text.Mathlib.TextEquality.{eq_iff}
use text.Mathlib.TextLemmas.{append_cancel_left}
use mathlib.Core.Option.{none-ne-some, some-injective}
use sts_agent.Prelude.{
  ℕ, ◌≤◌, true, false, Option, none, some, String, [], ◌∷◌, All, All-map, length, ◌≡◌, ◌⊎◌, inl,
  inr, refl, sym, ap, ◌∙◌, subst, arith, if_cases,
}
use sts_agent.Prelude.Dicts.{lookup-insert, lookup-insert_if}
use sts_agent.Ucmdb.{Element, Elements, get}
use sts_agent.Ucmdb.Trees.{
  Graph, Labels, Trees, Run, with_label, from_root, label_from_root, label_roots, label_found,
  label_trees, build_graph, find_root_ids, next_root,
}
use sts_agent.Ucmdb.Trees.Reach.{There, outgoing, Reaches, IsLive, HaveTargets, relabelled}
use sts_agent.Ucmdb.Trees.Weights.{weight}
use sts_agent.Ucmdb.Trees.Search.{IsLabelled, Ends, search_root}

-- The component has the label.
abbrev pub HasLabel : String → String → Elements → Type 0
HasLabel label k c =
    (e : Element) × (get k c ≡ some e)
    × (get (str_append "label." label) e.attributes ≡ some (some label))

-- The two dictionaries have the same keys.
abbrev SameKeys : Elements → Elements → Type 0
SameKeys c c' = (k : String) → (There k c → There k c') × (There k c' → There k c)

relabelled-There :
    (label : String) (o : Option Element) (e : Element)
    → relabelled label o ≡ some e
    → (e0 : Element) × (o ≡ some e0) × (e ≡ with_label label e0)
relabelled-There label none e h = absurd (none-ne-some e h)
relabelled-There label (some e0) e h = (e0, refl, sym (some-injective (with_label label e0) e h))

module _ (g : Graph) where
  Reaches-keys :
      (c c' : Elements) (root k : String) → SameKeys c c' → Reaches g c root k → Reaches g c' root k
  Reaches-keys c c' root k same Reaches.here = Reaches.here
  Reaches-keys c c' root k same (Reaches.there {a} {b} r (target, at)) =
      Reaches.there (Reaches-keys c c' root a same r) (target, (same b).0 at)

module _ (g : Graph) (label root : String) (degree : ℕ) (c0 : Elements) (live : IsLive c0)
    (ended : HaveTargets g) (c : Elements)
    (labelled : IsLabelled g label root c0 degree live ended c) where
  abbrev IsStaged : Element → Element → Type 0
  IsStaged e0 e = (e ≡ with_label label e0) ⊎ (e ≡ e0)

  staged :
      (k : String) (e0 : Element)
      → get k c0 ≡ some e0
      → (e : Element) × (get k c ≡ some e) × IsStaged e0 e
  staged k e0 is = elim (labelled k) [
    | inl (_, at) ↦ (with_label label e0, at ∙ ap (relabelled label) is, inl refl)
    | inr (_, at) ↦ (e0, at ∙ is, inr refl)
  ]

  unstaged :
      (k : String) (e : Element)
      → get k c ≡ some e
      → (e0 : Element) × (get k c0 ≡ some e0) × IsStaged e0 e
  unstaged k e is = elim (labelled k) [
    | inl (_, at) ↦
        let (e0, is0, same) = relabelled-There label (get k c0) e (sym at ∙ is) in
        (e0, is0, inl same)
    | inr (_, at) ↦ (e, sym at ∙ is, inr refl)
  ]

  labelled-SameKeys : SameKeys c0 c
  labelled-SameKeys k = (
    (λ (e0, is). let (e, at, _) = staged k e0 is in (e, at)),
    λ (e, is). let (e0, at, _) = unstaged k e is in (e0, at),
  )

  staged_fields :
      (e0 e : Element) → IsStaged e0 e → (e.ucmdb_id ≡ e0.ucmdb_id) × (e.operation ≡ e0.operation)
  staged_fields e0 e (inl same) = (ap (λ x. x.ucmdb_id) same, ap (λ x. x.operation) same)
  staged_fields e0 e (inr same) = (ap (λ x. x.ucmdb_id) same, ap (λ x. x.operation) same)

  labelled-IsLive : IsLive c
  labelled-IsLive k e is =
      let (e0, is0, how) = unstaged k e is in
      let (id_same, operation_same) = staged_fields e0 e how in
      let (is_id, (operation, is_operation, kept)) = live k e0 is0 in
      (id_same ∙ is_id, (operation, operation_same ∙ is_operation, kept))

  labelled-HasLabel : (k : String) → Reaches g c0 root k → There k c0 → HasLabel label k c
  labelled-HasLabel k reach (e, is) = elim (labelled k) [
    | inl (_, at) ↦ (
      with_label label e,
      at ∙ ap (relabelled label) is,
      lookup-insert str_eq eq_iff (str_append "label." label) (some label) e.attributes,
    )
    | inr (never, _) ↦ absurd (ground (arith, never reach))
  ]

  staged-value :
      (other : String) (e0 e : Element)
      → IsStaged e0 e
      → get (str_append "label." other) e0.attributes ≡ some (some other)
      → get (str_append "label." other) e.attributes ≡ some (some other)
  staged-value other e0 e (inr same) has =
      ap (λ x. get (str_append "label." other) x.attributes) same ∙ has
  staged-value other e0 e (inl same) has =
      let mine = str_append "label." label in
      let theirs = str_append "label." other in
      ap (λ x. get theirs x.attributes) same
      ∙ lookup-insert_if str_eq eq_iff theirs mine (some label) e0.attributes
      ∙ if_cases (λ o. o ≡ some (some other)) (str_eq mine theirs) (some (some label))
          (get theirs e0.attributes)
          (λ eq.
            ap (λ x. some (some x))
              (append_cancel_left "label." label other ((eq_iff mine theirs).0 eq)))
          (λ _. has)

  keeps-HasLabel : (other k : String) → HasLabel other k c0 → HasLabel other k c
  keeps-HasLabel other k (e0, is, has) =
      let (e, at, how) = staged k e0 is in (e, at, staged-value other e0 e how has)

-- Each root has put its label on the components that it reaches.
abbrev pub AreLabelled : Graph → Elements → Labels → Elements → Type 0
AreLabelled g c0 [] c = Unit
AreLabelled g c0 ((root, label) ∷ roots) c =
    ((k : String) → Reaches g c0 root k → There k c0 → HasLabel label k c)
    × AreLabelled g c0 roots c

-- No root reaches the component.
abbrev pub IsApart : Graph → Elements → Labels → String → Type 0
IsApart g c0 roots k = All (λ r. Reaches g c0 r.0 k → false ≡ true) roots

abbrev pub RootsEnd : Graph → Labels → Elements → Run → Type 0
RootsEnd g roots c0 run =
    (c : Elements) × (run ≡ Run.finished c)
    × AreLabelled g c0 roots c
    × ((other k : String) → HasLabel other k c0 → HasLabel other k c)
    × ((k : String) → IsApart g c0 roots k → get k c ≡ get k c0)

module _ (g : Graph) (degree fuel : ℕ) (ended : HaveTargets g)
    (few : (a : String) → length (outgoing g a) ≤ degree) where
  label_from_root-Ends :
      (root label : String) (c0 : Elements) (live : IsLive c0)
      → There root c0
      → weight degree (length c0) ≤ fuel
      → Ends g label root c0 degree live ended (label_from_root g fuel root label c0)
  unfolding label_from_root
  label_from_root-Ends root label c0 live (e, is) enough =
      subst (λ o. Ends g label root c0 degree live ended (from_root g fuel root label c0 o))
        (sym is) (search_root g label root c0 degree live ended few fuel (e, is) enough)

  AreLabelled-back :
      (c0 c1 c : Elements) (roots : Labels)
      → SameKeys c0 c1
      → AreLabelled g c1 roots c
      → AreLabelled g c0 roots c
  AreLabelled-back c0 c1 c [] same h = tt
  AreLabelled-back c0 c1 c ((root, label) ∷ roots) same (first, h) = (
    (λ k reach at. first k (Reaches-keys g c0 c1 root k same reach) ((same k).0 at)),
    AreLabelled-back c0 c1 c roots same h,
  )

  IsApart-on :
      (c0 c1 : Elements) (roots : Labels) (k : String)
      → SameKeys c0 c1
      → IsApart g c0 roots k
      → IsApart g c1 roots k
  IsApart-on c0 c1 roots k same =
      All-map (λ r. Reaches g c0 r.0 k → false ≡ true) (λ r. Reaches g c1 r.0 k → false ≡ true)
        (λ r never reach. never (Reaches-keys g c1 c0 r.0 k (λ j. ((same j).1, (same j).0)) reach))
        roots

  apart-same :
      (root label k : String) (c0 c1 : Elements) (live : IsLive c0)
      → IsLabelled g label root c0 degree live ended c1
      → (Reaches g c0 root k → false ≡ true)
      → get k c1 ≡ get k c0
  apart-same root label k c0 c1 live labelled never = elim (labelled k) [
    | inl (reach, _) ↦ absurd (ground (arith, never reach))
    | inr (_, at) ↦ at
  ]

  label_roots-Ends :
      (roots : Labels) (c0 : Elements)
      → IsLive c0
      → All (λ r. There r.0 c0) roots
      → weight degree (length c0) ≤ fuel
      → RootsEnd g roots c0 (label_roots g fuel roots c0)
  unfolding label_roots
  label_roots-Ends [] c0 live at enough = (c0, refl, tt, (λ _ _ has. has), λ _ _. refl)
  label_roots-Ends ((root, label) ∷ roots) c0 live (at, ats) enough =
      let (c1, run, labelled, size) = label_from_root-Ends root label c0 live at enough in
      let keys = labelled-SameKeys g label root degree c0 live ended c1 labelled in
      let live1 = labelled-IsLive g label root degree c0 live ended c1 labelled in
      let ats1 = All-map (λ r. There r.0 c0) (λ r. There r.0 c1) (λ r. (keys r.0).0) roots ats in
      let enough1 = subst (λ n. weight degree n ≤ fuel) (sym size) enough in
      let (c, rest, later, keep, apart) = label_roots-Ends roots c1 live1 ats1 enough1 in
      let keep1 = keeps-HasLabel g label root degree c0 live ended c1 labelled in
      (
        c,
        ap (next_root (label_roots g fuel roots)) run ∙ rest,
        (
          (λ k reach is.
              keep label k
                (labelled-HasLabel g label root degree c0 live ended c1 labelled k reach is)),
          AreLabelled-back c0 c1 c roots keys later,
        ),
        (λ other k has. keep other k (keep1 other k has)),
        λ k (never, nevers).
            apart k (IsApart-on c0 c1 roots k keys nevers)
            ∙ apart-same root label k c0 c1 live labelled never,
      )

-- If the graph and the roots are built, every root is a component, every component has its key as
-- its id and an operation that is not `deleted`, and every relation of the graph has a target, then
-- label_trees ends, though it may queue a component more than once, within `weight` turns for each
-- root, where no component has more than `degree` relations: every root has put its label on each
-- component that a path of relations leads to, the labels from before are kept, and a component
-- that no root reaches is not changed.
pub label_trees-Ends :
    (t : Trees) (g : Graph) (roots : Labels) (degree fuel : ℕ)
    → build_graph t.relations t.graph ≡ some g
    → find_root_ids t.tree_parent_to_label t.components t.component_id_to_label ≡ some roots
    → HaveTargets g
    → ((a : String) → length (outgoing g a) ≤ degree)
    → IsLive t.components
    → All (λ r. There r.0 t.components) roots
    → weight degree (length t.components) ≤ fuel
    → RootsEnd g roots t.components (label_trees fuel t)
unfolding label_trees
label_trees-Ends t g roots degree fuel is_g is_roots ended few live at enough =
    subst
      (λ r. RootsEnd g roots t.components (label_found t fuel (build_graph t.relations t.graph) r))
      (sym is_roots)
      (subst (λ o. RootsEnd g roots t.components (label_found t fuel o (some roots))) (sym is_g)
        (label_roots-Ends g degree fuel ended few roots t.components live at enough))
