-- ===== src/Ucmdb/Dump/Merge.antt =====
-- utils/ucmdb/ucmdb_file_dump.py: what a load leaves under an id, as the course of that id alone.
use text.Mathlib.Text.{◌==◌ as str_eq}
use text.Mathlib.TextEquality.{eq_iff}
use mathlib.Core.Option.{some-injective, none-ne-some}
use sts_agent.Prelude.{
  ◌||◌, Option, none, some, String, List, [], ◌∷◌, ◌++◌, if◌then◌else◌, ◌≡◌, refl, sym, ap, ◌∙◌,
  subst, Bool-cases, inl, inr,
}
use sts_agent.Prelude.Tests.{if_true, if_false, if_same}
use sts_agent.Prelude.Dicts.{insert, pop, lookup-insert_if, lookup-pop_if}
use sts_agent.Ucmdb.{bind, bind-some, among, Element, Elements, get}
use sts_agent.Ucmdb.Parser.{Tag, Parser, parse}
use sts_agent.Ucmdb.Dump.{
  FileDump, get_snapshots, get_increments, is_among, is_relation_excluded, handled, handle_element,
  load_named, load_component, load_relation, each, load_file, load_files, load,
}

-- The value of one id after an element with that id, by the operation of the element.
abbrev pub by_operation : Option Element → Element → Option String → Option Element
by_operation v e none = v
by_operation v e (some operation) =
    if str_eq operation "add" || str_eq operation "update" then some e else none

-- The value of `id` after one component, and after the components of one file, and of several.
abbrev pub view_element : List String → String → Option Element → String → Element → Option Element
view_element types id v id' e =
    if str_eq id' id then if is_among e.name types then v else by_operation v e e.operation else v

abbrev pub view : List String → String → Option Element → Elements → Option Element
view types id v [] = v
view types id v ((id', e) ∷ elements) = view types id (view_element types id v id' e) elements

abbrev pub view_file : List String → String → Option Element → Option (List Tag) → Option Element
view_file types id v none = v
view_file types id v (some tags) = view types id v (parse tags).components

abbrev pub view_files :
    (String → Option (List Tag))
    → List String
    → String
    → Option Element
    → List String
    → Option Element
view_files file types id v [] = v
view_files file types id v (path ∷ paths) =
    view_files file types id (view_file types id v (file path)) paths

handled-lookup :
    (id id' : String) (e : Element) (operation : Option String) (c c' : Elements)
    → handled c id' e operation ≡ some c'
    → get id c' ≡ (if str_eq id' id then by_operation (get id c) e operation else get id c)
handled-lookup id id' e none c c' h = absurd (none-ne-some c' h)
handled-lookup id id' e (some operation) c c' h =
    let adds = str_eq operation "add" || str_eq operation "update" in
    let deletes = str_eq operation "delete" in
    let added = insert str_eq id' e c in
    let removed = pop str_eq id' c in
    let rest : Option Elements = if deletes then some removed else none in
    elim (Bool-cases adds) [
      | inl a ↦
          let same = some-injective added c' (if_true adds (some added) rest (some c') a h) in
          rw a (
            subst (λ x. get id x ≡ (if str_eq id' id then some e else get id c)) same
              (lookup-insert_if str_eq eq_iff id id' e c))
      | inr a ↦
          let left = if_false adds (some added) rest (some c') a h in
          elim (Bool-cases deletes) [
            | inl d ↦
                let same =
                  some-injective removed c'
                    (if_true deletes (some removed) none (some c') d left) in
                rw a (
                  subst (λ x. get id x ≡ (if str_eq id' id then none else get id c)) same
                    (lookup-pop_if str_eq eq_iff id id' c))
            | inr d ↦
                absurd (none-ne-some c' (if_false deletes (some removed) none (some c') d left))
          ]
    ]

module _ (types : List String) (id : String) where
  abbrev Viewed : FileDump → String → Element → FileDump → Type 0
  Viewed d id' e d' = get id d'.components ≡ view_element types id (get id d.components) id' e

  load_named-lookup :
      (id' : String) (e : Element) (d d' : FileDump) (name : Option String)
      → e.name ≡ name
      → load_named types id' e d name ≡ some d'
      → Viewed d id' e d'
  unfolding handle_element
  load_named-lookup id' e d d' none at h = absurd (none-ne-some d' h)
  load_named-lookup id' e d d' (some name) at h =
      let skipped = record d { excluded_component_ids = id' ∷ d.excluded_component_ids } in
      let kept : Option FileDump =
        bind (handle_element d.components id' e) (λ c. some (record d { components = c })) in
      let is_out : is_among e.name types ≡ among name types = ap (λ n. is_among n types) at in
      elim (Bool-cases (among name types)) [
        | inl out ↦
            let same =
              some-injective skipped d'
                (if_true (among name types) (some skipped) kept (some d') out h) in
            let old = get id d.components in
            let seen : view_element types id old id' e ≡ old =
              rw (is_out ∙ out) (if_same (str_eq id' id) old) in
            ap (λ x. get id x.components) (sym same) ∙ sym seen
        | inr inn ↦
            let (c, is_c, same) =
              bind-some (handle_element d.components id' e)
                (λ c. some (record d { components = c })) d'
                (if_false (among name types) (some skipped) kept (some d') inn h) in
            let old = get id d.components in
            let seen : view_element types id old id' e
                ≡ (if str_eq id' id then by_operation old e e.operation else old) =
              rw (is_out ∙ inn) refl in
            ap (λ x. get id x.components)
              (sym (some-injective (record d { components = c }) d' same))
            ∙ handled-lookup id id' e e.operation d.components c is_c
            ∙ sym seen
      ]

  load_component-lookup :
      (id' : String) (e : Element) (d d' : FileDump)
      → load_component types id' e d ≡ some d'
      → Viewed d id' e d'
  unfolding load_component
  load_component-lookup id' e d d' h = load_named-lookup id' e d d' e.name refl h

  load_components-lookup :
      (elements : Elements) (d d' : FileDump)
      → each (load_component types) elements d ≡ some d'
      → get id d'.components ≡ view types id (get id d.components) elements
  unfolding each
  load_components-lookup [] d d' h = ap (λ x. get id x.components) (sym (some-injective d d' h))
  load_components-lookup ((id', e) ∷ elements) d d' h =
      let (d1, first, rest) =
        bind-some (load_component types id' e d) (each (load_component types) elements) d' h in
      load_components-lookup elements d1 d' rest
      ∙ ap (λ v. view types id v elements) (load_component-lookup id' e d d1 first)

  load_relation-components :
      (id' : String) (e : Element) (d d' : FileDump)
      → load_relation types id' e d ≡ some d'
      → d'.components ≡ d.components
  unfolding load_relation
  load_relation-components id' e d d' h =
      let out = is_relation_excluded e types d.excluded_component_ids in
      let with_relations : Elements → Option FileDump = λ r. some (record d { relations = r }) in
      let kept = bind (handle_element d.relations id' e) with_relations in
      elim (Bool-cases out) [
        | inl o ↦
            ap (λ x. x.components)
              (sym (some-injective d d' (if_true out (some d) kept (some d') o h)))
        | inr o ↦
            let (r, _, same) =
              bind-some (handle_element d.relations id' e) with_relations d'
                (if_false out (some d) kept (some d') o h) in
            ap (λ x. x.components) (sym (some-injective (record d { relations = r }) d' same))
      ]

  load_relations-components :
      (elements : Elements) (d d' : FileDump)
      → each (load_relation types) elements d ≡ some d'
      → d'.components ≡ d.components
  unfolding each
  load_relations-components [] d d' h = ap (λ x. x.components) (sym (some-injective d d' h))
  load_relations-components ((id', e) ∷ elements) d d' h =
      let (d1, first, rest) =
        bind-some (load_relation types id' e d) (each (load_relation types) elements) d' h in
      load_relations-components elements d1 d' rest ∙ load_relation-components id' e d d1 first

  load_file-lookup :
      (p : Parser) (d d' : FileDump)
      → load_file types p d ≡ some d'
      → get id d'.components ≡ view types id (get id d.components) p.components
  unfolding load_file
  load_file-lookup p d d' h =
      let (d1, first, rest) =
        bind-some (each (load_component types) p.components d)
          (each (load_relation types) p.relations) d' h in
      ap (get id) (load_relations-components p.relations d1 d' rest)
      ∙ load_components-lookup p.components d d1 first

  load_files-lookup :
      (file : String → Option (List Tag)) (paths : List String) (d d' : FileDump)
      → load_files file types paths d ≡ some d'
      → get id d'.components ≡ view_files file types id (get id d.components) paths
  unfolding load_files
  load_files-lookup file [] d d' h = ap (λ x. get id x.components) (sym (some-injective d d' h))
  load_files-lookup file (path ∷ paths) d d' h =
      let one : List Tag → Option FileDump = λ tags. load_file types (parse tags) d in
      let (d1, first, rest) = bind-some (bind (file path) one) (load_files file types paths) d' h in
      let (tags, is_tags, loaded) = bind-some (file path) one d1 first in
      let read : view_file types id (get id d.components) (file path)
          ≡ view types id (get id d.components) (parse tags).components =
        ap (view_file types id (get id d.components)) is_tags in
      load_files-lookup file paths d1 d' rest
      ∙ ap (λ v. view_files file types id v paths)
          (load_file-lookup (parse tags) d d1 loaded ∙ sym read)

  view_files-append :
      (file : String → Option (List Tag)) (xs ys : List String) (v : Option Element)
      → view_files file types id v (xs ++ ys)
        ≡ view_files file types id (view_files file types id v xs) ys
  view_files-append file [] ys v = refl
  view_files-append file (x ∷ xs) ys v =
      view_files-append file xs ys (view_file types id v (file x))

  -- If a load returns, the components refine a register for each id: what is found under an id is
  -- what its own elements leave, over the snapshots and then the increments, each in the order of
  -- their dates, where an element whose type is excluded counts for nothing, one with the operation
  -- add or update is put in the register, and one with delete empties it.
  pub load-lookup :
      (file : String → Option (List Tag)) (d d' : FileDump)
      → load file types d ≡ some d'
      → get id d'.components
        ≡ view_files file types id
            (get id d.components)
            (get_snapshots d.structure ++ get_increments d.structure)
  unfolding load
  load-lookup file d d' h =
      let snapshots = get_snapshots d.structure in
      let increments = get_increments d.structure in
      let start = record d { excluded_component_ids = [] } in
      let (d1, first, rest) =
        bind-some (load_files file types snapshots start) (load_files file types increments) d' h in
      load_files-lookup file increments d1 d' rest
      ∙ ap (λ v. view_files file types id v increments)
          (load_files-lookup file snapshots start d1 first)
      ∙ sym (view_files-append file snapshots increments (get id d.components))
