-- ===== src/Ucmdb/Dump/Returns.antt =====
-- utils/ucmdb/ucmdb_file_dump.py: when a load returns.
use sts_agent.Prelude.{
  true, false, ◌||◌, Option, none, some, String, List, [], ◌∷◌, All, if◌then◌else◌, ◌≡◌, refl, sym,
  subst, if_cases, arith,
}
use text.Mathlib.Text.{◌==◌ as str_eq}
use sts_agent.Prelude.Dicts.{AllEntries, AllValues, insert, pop}
use sts_agent.Ucmdb.{bind, among, Element, Elements}
use sts_agent.Ucmdb.Parser.{Tag, parse}
use sts_agent.Ucmdb.Parser.Keys.{IsKeyed, parse-IsParsed}
use sts_agent.Ucmdb.Dump.{
  FileDump, get_snapshots, get_increments, is_relation_excluded, handled, handle_element,
  load_named, load_component, load_relation, each, load_file, load_files, load,
}

abbrev pub Returns : {A : Type 0} → Option A → Type 0
Returns {A} o = (a : A) × (o ≡ some a)

bind-Returns :
    {A B : Type 0} (o : Option A) (f : A → Option B)
    → Returns o
    → ((a : A) → Returns (f a))
    → Returns (bind o f)
bind-Returns o f (a, e) h = subst (λ x. Returns (bind x f)) (sym e) (h a)

-- The element says what to do with it.
abbrev pub IsKnown : Element → Type 0
IsKnown e =
    (operation : String) × (e.operation ≡ some operation)
    × ((str_eq operation "add" || str_eq operation "update" || str_eq operation "delete") ≡ true)

handle_element-Returns :
    (d : Elements) (id : String) (e : Element) → IsKnown e → Returns (handle_element d id e)
unfolding handle_element
handle_element-Returns d id e (operation, is, known) =
    let adds = str_eq operation "add" || str_eq operation "update" in
    let deletes = str_eq operation "delete" in
    let rest : Option Elements = if deletes then some (pop str_eq id d) else none in
    subst (λ o. Returns (handled d id e o)) (sym is)
      (if_cases Returns adds (some (insert str_eq id e d)) rest (λ _. (insert str_eq id e d, refl))
        (λ no.
          if_cases Returns deletes (some (pop str_eq id d)) none (λ _. (pop str_eq id d, refl))
            (λ no'. absurd (ground arith))))

module _ (types : List String) where
  load_component-Returns :
      (id : String) (e : Element)
      → IsKeyed id e
      → IsKnown e
      → (d : FileDump) → Returns (load_component types id e d)
  unfolding load_component
  load_component-Returns id e (_, (name, is)) known d =
      let skipped = record d { excluded_component_ids = id ∷ d.excluded_component_ids } in
      let put : Elements → Option FileDump = λ c. some (record d { components = c }) in
      subst (λ n. Returns (load_named types id e d n)) (sym is)
        (if_cases Returns (among name types) (some skipped)
          (bind (handle_element d.components id e) put) (λ _. (skipped, refl))
          (λ _.
            bind-Returns (handle_element d.components id e) put
              (handle_element-Returns d.components id e known)
              (λ c. (record d { components = c }, refl))))

  load_relation-Returns :
      (id : String) (e : Element)
      → IsKnown e
      → (d : FileDump) → Returns (load_relation types id e d)
  unfolding load_relation
  load_relation-Returns id e known d =
      let put : Elements → Option FileDump = λ c. some (record d { relations = c }) in
      if_cases Returns (is_relation_excluded e types d.excluded_component_ids) (some d)
        (bind (handle_element d.relations id e) put) (λ _. (d, refl))
        (λ _.
          bind-Returns (handle_element d.relations id e) put
            (handle_element-Returns d.relations id e known)
            (λ c. (record d { relations = c }, refl)))

each-Returns :
    (step : String → Element → FileDump → Option FileDump) (P : String → Element → Type 0)
    → ((id : String) (e : Element) → P id e → (d : FileDump) → Returns (step id e d))
    → (elements : Elements) → AllEntries P elements
    → (d : FileDump) → Returns (each step elements d)
unfolding each
each-Returns step P h [] hs d = (d, refl)
each-Returns step P h ((id, e) ∷ elements) hs d =
    bind-Returns (step id e d) (each step elements) (h id e hs.0 d)
      (each-Returns step P h elements hs.1)

-- The tags can be read, and each element parsed of them says what to do with it.
abbrev pub IsReadable : Option (List Tag) → Type 0
IsReadable none = false ≡ true
IsReadable (some tags) =
    AllValues IsKnown (parse tags).components × AllValues IsKnown (parse tags).relations

All_both :
    (P Q : String → Element → Type 0) (d : Elements)
    → AllEntries P d
    → AllEntries Q d
    → AllEntries (λ id e. P id e × Q id e) d
All_both P Q [] h k = tt
All_both P Q (e ∷ d) h k = ((h.0, k.0), All_both P Q d h.1 k.1)

module _ (file : String → Option (List Tag)) (types : List String) where
  load_read-Returns :
      (o : Option (List Tag))
      → IsReadable o
      → (d : FileDump) → Returns (bind o (λ tags. load_file types (parse tags) d))
  unfolding load_file
  load_read-Returns none h d = absurd (ground arith)
  load_read-Returns (some tags) (objects, links) d =
      let p = parse tags in
      let parsed = parse-IsParsed tags in
      bind-Returns (each (load_component types) p.components d)
        (each (load_relation types) p.relations)
        (each-Returns (load_component types) (λ id e. IsKeyed id e × IsKnown e)
          (λ id e h. load_component-Returns types id e h.0 h.1) p.components
          (All_both IsKeyed (λ id. IsKnown) p.components parsed.0 objects) d)
        (each-Returns (load_relation types) (λ id. IsKnown) (load_relation-Returns types)
          p.relations links)

  load_files-Returns :
      (paths : List String)
      → All (λ path. IsReadable (file path)) paths
      → (d : FileDump) → Returns (load_files file types paths d)
  unfolding load_files
  load_files-Returns [] h d = (d, refl)
  load_files-Returns (path ∷ paths) h d =
      bind-Returns (bind (file path) (λ tags. load_file types (parse tags) d))
        (load_files file types paths) (load_read-Returns (file path) h.0 d)
        (load_files-Returns paths h.1)

  -- If every file of the dump can be read, and every element parsed of it has the operation add,
  -- update or delete, then a load returns, whichever types are excluded: no other key that it reads
  -- of an element can be missing.
  pub load-Returns :
      (d : FileDump)
      → All (λ path. IsReadable (file path)) (get_snapshots d.structure)
      → All (λ path. IsReadable (file path)) (get_increments d.structure)
      → Returns (load file types d)
  unfolding load
  load-Returns d snapshots increments =
      bind-Returns
        (load_files file types (get_snapshots d.structure)
          (record d { excluded_component_ids = [] }))
        (load_files file types (get_increments d.structure))
        (load_files-Returns (get_snapshots d.structure) snapshots
          (record d { excluded_component_ids = [] }))
        (load_files-Returns (get_increments d.structure) increments)
