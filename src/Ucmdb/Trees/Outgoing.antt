-- ===== src/Ucmdb/Trees/Outgoing.antt =====
-- utils/ucmdb/ucmdb_component_trees.py, `_build_graph`: what it holds for a component.
use text.Mathlib.Text.{◌==◌ as str_eq}
use text.Mathlib.TextEquality.{eq_iff}
use mathlib.Core.Option.{none-ne-some, some-injective}
use mathlib.Core.List.{append-nil, append_assoc}
use sts_agent.Prelude.{
  Bool, true, false, not, ◌&&◌, Option, none, some, String, List, [], ◌∷◌, ◌++◌, if◌then◌else◌, ◌≡◌,
  refl, sym, ap, ◌∙◌, Bool-cases, inl, inr,
}
use sts_agent.Prelude.Tests.{if_true, if_false}
use sts_agent.Prelude.Dicts.{insert, lookup-insert_if}
use sts_agent.Ucmdb.{Element, Elements, get, bind-some}
use sts_agent.Ucmdb.Trees.{Graph, with_relation, add_outgoing, build_graph}
use sts_agent.Ucmdb.Trees.Reach.{outgoing, or_empty}

-- The relation starts at `a`, and is not deleted.
abbrev pub goes_from : String → Option String → Option (Option String) → Bool
goes_from a none source = false
goes_from a (some operation) none = false
goes_from a (some operation) (some none) = false
goes_from a (some operation) (some (some source)) =
    not (str_eq operation "delete") && str_eq source a

abbrev pub leaving : String → Elements → List Element
leaving a [] = []
leaving a ((id, e) ∷ relations) =
    let rest = leaving a relations in if goes_from a e.operation e.source_id then e ∷ rest else rest

joined :
    (b : Bool) (new : List Element) (e : Element) (o old : Option (List Element))
    → (b ≡ true → old ≡ o)
    → new ≡ or_empty o ++ e ∷ []
    → or_empty (if b then some new else old) ≡ or_empty old ++ (if b then e ∷ [] else [])
joined true new e o old at is_new = is_new ∙ ap (λ x. or_empty x ++ e ∷ []) (sym (at refl))
joined false new e o old at is_new = sym (append-nil (or_empty old))

insert-outgoing :
    (a source : String) (new : List Element) (e : Element) (g : Graph)
    → new ≡ outgoing g source ++ e ∷ []
    → outgoing (insert str_eq source new g) a
      ≡ outgoing g a ++ (if str_eq source a then e ∷ [] else [])
insert-outgoing a source new e g is_new =
    ap or_empty (lookup-insert_if str_eq eq_iff a source new g)
    ∙ joined (str_eq source a) new e (get source g) (get a g)
        (λ eq. ap (λ k. get k g) (sym ((eq_iff source a).0 eq))) is_new

with_relation-outgoing :
    (a source : String) (e : Element) (g : Graph) (o : Option (List Element))
    → get source g ≡ o
    → outgoing (with_relation source e g o) a
      ≡ outgoing g a ++ (if str_eq source a then e ∷ [] else [])
with_relation-outgoing a source e g none at =
    insert-outgoing a source (e ∷ []) e g (ap (λ o. or_empty o ++ e ∷ []) (sym at))
with_relation-outgoing a source e g (some es) at =
    insert-outgoing a source (es ++ e ∷ []) e g (ap (λ o. or_empty o ++ e ∷ []) (sym at))

kept-outgoing : (a : String) (g g' : Graph) → some g ≡ some g' → outgoing g' a ≡ outgoing g a ++ []
kept-outgoing a g g' h =
    ap (λ x. outgoing x a) (sym (some-injective g g' h)) ∙ sym (append-nil (outgoing g a))

add_outgoing-outgoing :
    (a : String) (e : Element) (g g' : Graph) (operation : Option String)
    (source : Option (Option String))
    → add_outgoing e g operation source ≡ some g'
    → outgoing g' a ≡ outgoing g a ++ (if goes_from a operation source then e ∷ [] else [])
add_outgoing-outgoing a e g g' none source h = absurd (none-ne-some g' h)
add_outgoing-outgoing a e g g' (some operation) none h =
    elim (Bool-cases (str_eq operation "delete")) [
      | inl d ↦
          kept-outgoing a g g' (if_true (str_eq operation "delete") (some g) none (some g') d h)
      | inr d ↦
          absurd
            (none-ne-some g' (if_false (str_eq operation "delete") (some g) none (some g') d h))
    ]
add_outgoing-outgoing a e g g' (some operation) (some none) h = kept-outgoing a g g' h
add_outgoing-outgoing a e g g' (some operation) (some (some source)) h =
    let added = with_relation source e g (get source g) in
    elim (Bool-cases (str_eq operation "delete")) [
      | inl d ↦ rw d (
          kept-outgoing a g g'
            (if_true (str_eq operation "delete") (some g) (some added) (some g') d h))
      | inr d ↦
          let same =
            some-injective added g'
              (if_false (str_eq operation "delete") (some g) (some added) (some g') d h) in
          rw d (
            ap (λ x. outgoing x a) (sym same)
            ∙ with_relation-outgoing a source e g (get source g) refl)
    ]

if_cons :
    (b : Bool) (e : Element) (rest : List Element)
    → (if b then e ∷ [] else []) ++ rest ≡ (if b then e ∷ rest else rest)
if_cons true e rest = refl
if_cons false e rest = refl

-- If the loop of _build_graph returns, the graph has for each component the relations that start
-- there and whose operation is not delete, in the order of the relations, after those from before.
pub build_graph-outgoing :
    (a : String) (relations : Elements) (g g' : Graph)
    → build_graph relations g ≡ some g'
    → outgoing g' a ≡ outgoing g a ++ leaving a relations
unfolding build_graph
build_graph-outgoing a [] g g' h =
    ap (λ x. outgoing x a) (sym (some-injective g g' h)) ∙ sym (append-nil (outgoing g a))
build_graph-outgoing a ((id, e) ∷ relations) g g' h =
    let (g1, first, rest) =
      bind-some (add_outgoing e g e.operation e.source_id) (build_graph relations) g' h in
    build_graph-outgoing a relations g1 g' rest
    ∙ ap (λ es. es ++ leaving a relations)
        (add_outgoing-outgoing a e g g1 e.operation e.source_id first)
    ∙ append_assoc (outgoing g a) _ (leaving a relations)
    ∙ ap (λ es. outgoing g a ++ es)
        (if_cons (goes_from a e.operation e.source_id) e (leaving a relations))
