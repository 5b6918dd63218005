-- ===== src/Topology/Instances/Reported.antt =====
-- checks/__init__.py, get_topology_instances of class AgentCheck: what a receiver sees of each instance.
use text.Mathlib.Text.{◌==◌ as str_eq}
use text.Mathlib.TextEquality.{eq_iff}
use mathlib.Core.Option.{none-ne-some}
use sts_agent.Prelude.{
  Bool, true, false, ◌||◌, Option, none, some, List, [], ◌∷◌, ◌++◌, String, map, select, flatten,
  ◌≡◌, refl, ap, sym, subst, ◌∙◌, inl, inr, if_cases, if_true, if_false, Bool-cases, Option-cases,
}
use sts_agent.Prelude.Dicts.{
  lookup, insert, IsDict, AllEntries, AllEntries-insert, AllEntries-lookup,
}
use sts_agent.Prelude.Dicts.Gather.{insert-IsDict}
use sts_agent.Topology.{
  TopologyInstance, Topology, create_instance, add_component, add_relation, start_snapshot,
  stop_snapshot, get_topology, clear_topology_and_snapshot,
}
use sts_agent.Topology.Snapshots.{Call, result, session, IsAlternating, session_snapshots}
use sts_agent.Topology.Instances.{
  Instances, or_new, set_default, assure_instance, instance_of, changed, call_on, call_all, kept,
  get_topology_instances, reports,
}
use sts_agent.Topology.Instances.Views.{calls_of, call_all-instance}

opened_still : (b : Bool) → b || false ≡ b
opened_still true = refl
opened_still false = refl

module _ {A B : Type 0} where
  -- Each key stands once, and is that of its instance.
  abbrev IsKeyed : Instances A B → Type 0
  IsKeyed d = IsDict str_eq d × AllEntries (λ key t. t.instance_key ≡ key) d

  abbrev Keeps : String → Option (TopologyInstance A B) → Type 0
  Keeps key none = Unit
  Keeps key (some t) = t.instance_key ≡ key

  result-Keeps :
      (key : String) (c : Call A B) (t : TopologyInstance A B)
      → t.instance_key ≡ key
      → Keeps key (result c t)
  unfolding add_component add_relation start_snapshot stop_snapshot
  result-Keeps key (Call.component c) t h = if_cases (Keeps key) t.stop _ _ (λ e. tt) (λ e. h)
  result-Keeps key (Call.relation r) t h = if_cases (Keeps key) t.stop _ _ (λ e. tt) (λ e. h)
  result-Keeps key Call.start t h =
      if_cases (Keeps key) t.stop _ _ (λ e. tt)
        (λ e. if_cases (Keeps key) t.in_snapshot _ _ (λ f. tt) (λ f. h))
  result-Keeps key Call.stop t h = if_cases (Keeps key) t.in_snapshot _ _ (λ e. h) (λ e. tt)

  insert-IsKeyed :
      (key : String) (t : TopologyInstance A B) (d : Instances A B)
      → t.instance_key ≡ key
      → IsKeyed d
      → IsKeyed (insert str_eq key t d)
  insert-IsKeyed key t d same (distinct, keyed) = (
    insert-IsDict str_eq eq_iff key t d distinct,
    AllEntries-insert str_eq eq_iff (λ k u. u.instance_key ≡ k) key t d same keyed,
  )

  set_default-IsKeyed :
      (key : String) (o : Option (TopologyInstance A B)) (d : Instances A B)
      → IsKeyed d
      → IsKeyed (set_default key o d)
  set_default-IsKeyed key none d h = insert-IsKeyed key (create_instance key) d refl h
  set_default-IsKeyed key (some t) d h = h

  instance_of-key :
      (key : String) (d : Instances A B) → IsKeyed d → (instance_of key d).instance_key ≡ key
  instance_of-key key d (distinct, keyed) = elim (Option-cases (lookup str_eq key d)) [
    | inl e ↦ ap (λ o. (or_new key o).instance_key) e
    | inr (t, e) ↦
        ap (λ o. (or_new key o).instance_key) e
        ∙ AllEntries-lookup str_eq eq_iff (λ k u. u.instance_key ≡ k) key t d keyed e
  ]

  changed-IsKeyed :
      (key : String) (o : Option (TopologyInstance A B)) (d : Instances A B)
      → Keeps key o
      → IsKeyed d
      → IsKeyed (changed key o d)
  changed-IsKeyed key none d same h = h
  changed-IsKeyed key (some t) d same h = insert-IsKeyed key t d same h

  call_on-IsKeyed :
      (key : String) (c : Call A B) (d : Instances A B) → IsKeyed d → IsKeyed (call_on key c d)
  unfolding call_on assure_instance
  call_on-IsKeyed key c d h =
      let assured = assure_instance key d in
      let keyed = set_default-IsKeyed key (lookup str_eq key d) d h in
      changed-IsKeyed key (result c (instance_of key assured)) assured
        (result-Keeps key c (instance_of key assured) (instance_of-key key assured keyed)) keyed

  call_all-IsKeyed :
      (calls : List (String × Call A B)) (d : Instances A B)
      → IsKeyed d
      → IsKeyed (call_all calls d)
  unfolding call_all
  call_all-IsKeyed [] d h = h
  call_all-IsKeyed ((key, c) ∷ calls) d h =
      call_all-IsKeyed calls (call_on key c d) (call_on-IsKeyed key c d h)

  -- The dictionary that is left.
  kept-none :
      (j : String) (d : Instances A B) → lookup str_eq j d ≡ none → lookup str_eq j (kept d) ≡ none
  unfolding lookup kept clear_topology_and_snapshot
  kept-none j [] h = refl
  kept-none j ((k, t) ∷ d) h = elim (Bool-cases (str_eq k j)) [
    | inl e ↦
        absurd (none-ne-some t (sym (if_true (str_eq k j) (some t) (lookup str_eq j d) none e h)))
    | inr e ↦
        let rest = kept-none j d (if_false (str_eq k j) (some t) (lookup str_eq j d) none e h) in
        if_cases (λ (d' : Instances A B). lookup str_eq j d' ≡ none) t.in_snapshot _ _
          (λ f. rw e rest) (λ f. rest)
  ]

  kept-IsKeyed : (d : Instances A B) → IsKeyed d → IsKeyed (kept d)
  unfolding kept clear_topology_and_snapshot
  kept-IsKeyed [] h = h
  kept-IsKeyed ((k, t) ∷ d) ((new, distinct), (same, keyed)) =
      let (distinct', keyed') = kept-IsKeyed d (distinct, keyed) in
      if_cases IsKeyed t.in_snapshot _ _ (λ e. ((kept-none k d new, distinct'), (same, keyed')))
        (λ e. (distinct', keyed'))

  -- An instance that is dropped is one that is made again.
  dropped :
      (key : String) (t : TopologyInstance A B)
      → t.instance_key ≡ key
      → t.in_snapshot ≡ false
      → create_instance key ≡ clear_topology_and_snapshot false t
  unfolding clear_topology_and_snapshot
  dropped key t same closed =
      ap create_instance (sym same)
      ∙ ap
          (λ b. record {
            instance_key = t.instance_key;
            in_snapshot = b;
            components = [];
            relations = [];
            start = false;
            stop = false;
          })
          (sym closed)

  kept-instance :
      (j : String) (d : Instances A B)
      → IsKeyed d
      → instance_of j (kept d) ≡ clear_topology_and_snapshot false (instance_of j d)
  unfolding lookup kept clear_topology_and_snapshot
  kept-instance j [] h = refl
  kept-instance j ((k, t) ∷ d) ((new, distinct), (same, keyed)) =
      let rest = kept-instance j d (distinct, keyed) in
      elim (Bool-cases (str_eq k j)) [
        | inl e ↦
            let is_j = (eq_iff k j).0 e in
            rw e (
              if_cases
                (λ (d' : Instances A B). instance_of j d' ≡ clear_topology_and_snapshot false t)
                t.in_snapshot _ _ (λ f. rw e refl)
                (λ f.
                  ap (or_new j) (kept-none j d (subst (λ i. lookup str_eq i d ≡ none) is_j new))
                  ∙ dropped j t (same ∙ is_j) f))
        | inr e ↦ rw e (
            if_cases
              (λ (d' : Instances A B).
                instance_of j d' ≡ clear_topology_and_snapshot false (instance_of j d))
              t.in_snapshot _ _ (λ f. rw e rest) (λ f. rest))
      ]

  -- The reports of one instance.
  abbrev pub of_key : String → List (Topology A B) → List (Topology A B)
  of_key key topologies = select (λ r. str_eq r.key key) topologies

  abbrev one_report : Option (TopologyInstance A B) → List (Topology A B)
  one_report none = []
  one_report (some t) = get_topology t ∷ []

  of_key-reports :
      (j : String) (d : Instances A B)
      → IsKeyed d
      → of_key j (map (λ e. get_topology e.1) d) ≡ one_report (lookup str_eq j d)
  unfolding lookup get_topology
  of_key-reports j [] h = refl
  of_key-reports j ((k, t) ∷ d) ((new, distinct), (same, keyed)) =
      let rest = of_key-reports j d (distinct, keyed) in
      elim (Bool-cases (str_eq k j)) [
        | inl e ↦
            let none_later = subst (λ i. lookup str_eq i d ≡ none) ((eq_iff k j).0 e) new in
            rw (ap (λ x. str_eq x j) same ∙ e, e)
              (ap (λ ts. get_topology t ∷ ts) (rest ∙ ap one_report none_later))
        | inr e ↦ rw (ap (λ x. str_eq x j) same ∙ e, e) rest
      ]

  -- An instance that is not there is not reported, and has no snapshot.
  one_report-IsAlternating :
      (j : String) (o : Option (TopologyInstance A B)) (opened : Bool)
      (ts ts' : List (Topology A B))
      → ((b : Bool) → IsAlternating b ts → IsAlternating b ts')
      → IsAlternating opened (get_topology (or_new j o) ∷ ts)
      → IsAlternating opened (one_report o ++ ts')
  unfolding get_topology
  one_report-IsAlternating j (some t) opened ts ts' f (starts, stops, rest) =
      (starts, stops, f _ rest)
  one_report-IsAlternating j none opened ts ts' f (starts, stops, rest) =
      f opened (subst (λ b. IsAlternating b ts) (opened_still opened) rest)

  reports-session :
      (j : String) (runs : List (List (String × Call A B))) (d : Instances A B) (opened : Bool)
      → IsKeyed d
      → IsAlternating opened (session (map (calls_of j) runs) (instance_of j d))
      → IsAlternating opened (flatten (map (of_key j) (reports runs d)))
  unfolding session reports get_topology_instances
  reports-session j [] d opened keyed h = tt
  reports-session j (calls ∷ runs) d opened keyed h =
      let after = call_all calls d in
      let keyed' = call_all-IsKeyed calls d keyed in
      let later = session (map (calls_of j) runs) in
      subst
        (λ ts. IsAlternating opened (ts ++ flatten (map (of_key j) (reports runs (kept after)))))
        (sym (of_key-reports j after keyed'))
        (one_report-IsAlternating j (lookup str_eq j after) opened
          (later (instance_of j (kept after)))
          (flatten (map (of_key j) (reports runs (kept after))))
          (λ b k. reports-session j runs (kept after) b (kept-IsKeyed after keyed') k)
          (subst (λ t. IsAlternating opened (get_topology (instance_of j after) ∷ later t))
            (sym (kept-instance j after keyed'))
            (subst
              (λ t.
                IsAlternating opened (get_topology t ∷ later (clear_topology_and_snapshot false t)))
              (sym (call_all-instance j calls d)) h)))

  -- Whatever calls a check makes on any of its topology instances in its runs, and whatever raises and
  -- is caught, the reports of each instance open and close snapshots in turn, where
  -- get_topology_instances drops the instances that are in none.
  pub reports-IsAlternating :
      (key : String) (runs : List (List (String × Call A B)))
      → IsAlternating false (flatten (map (of_key key) (reports runs [])))
  unfolding lookup
  reports-IsAlternating key runs =
      reports-session key runs [] false (tt, tt) (session_snapshots key (map (calls_of key) runs))
