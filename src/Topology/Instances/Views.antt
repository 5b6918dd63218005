-- ===== src/Topology/Instances/Views.antt =====
-- checks/__init__.py, class AgentCheck: a call on one topology instance leaves the others alone.
use text.Mathlib.Text.{◌==◌ as str_eq}
use text.Mathlib.TextEquality.{eq_iff}
use sts_agent.Prelude.{
  false, Option, none, some, List, [], ◌∷◌, String, if◌then◌else◌, ◌≡◌, refl, ap, sym, subst, ◌∙◌,
  inl, inr, Bool-cases,
}
use sts_agent.Prelude.Dicts.{lookup, lookup-insert, lookup-insert_if, lookup-insert_other}
use sts_agent.Topology.{TopologyInstance, create_instance}
use sts_agent.Topology.Snapshots.{Call, result, caught, run}
use sts_agent.Topology.Instances.{
  Instances, or_new, set_default, assure_instance, instance_of, changed, call_on, call_all,
}

-- The calls on the instance of a key.
unfoldable pub calls_of : {A B : Type 0} → String → List (String × Call A B) → List (Call A B)
calls_of key [] = []
calls_of key ((k, c) ∷ calls) =
    let rest = calls_of key calls in if str_eq k key then c ∷ rest else rest

module _ {A B : Type 0} where
  set_default-instance :
      (j k : String) (o : Option (TopologyInstance A B)) (d : Instances A B)
      → lookup str_eq k d ≡ o
      → instance_of j (set_default k o d) ≡ instance_of j d
  set_default-instance j k (some t) d h = refl
  set_default-instance j k none d h =
      ap (or_new j) (lookup-insert_if str_eq eq_iff j k (create_instance k) d)
      ∙ elim (Bool-cases (str_eq k j)) [
        | inl e ↦
            let same = (eq_iff k j).0 e in
            rw e (subst (λ i. create_instance k ≡ instance_of i d) same (sym (ap (or_new k) h)))
        | inr e ↦ rw e refl
      ]

  assure_instance-instance :
      (j k : String) (d : Instances A B) → instance_of j (assure_instance k d) ≡ instance_of j d
  unfolding assure_instance
  assure_instance-instance j k d = set_default-instance j k (lookup str_eq k d) d refl

  changed-instance :
      (k : String) (o : Option (TopologyInstance A B)) (d : Instances A B)
      → instance_of k (changed k o d) ≡ caught (instance_of k d) o
  changed-instance k none d = refl
  changed-instance k (some t) d = ap (or_new k) (lookup-insert str_eq eq_iff k t d)

  changed-other :
      (j k : String) (o : Option (TopologyInstance A B)) (d : Instances A B)
      → str_eq k j ≡ false
      → instance_of j (changed k o d) ≡ instance_of j d
  changed-other j k none d h = refl
  changed-other j k (some t) d h = ap (or_new j) (lookup-insert_other str_eq eq_iff j k t d h)

  call_on-instance :
      (k : String) (c : Call A B) (d : Instances A B)
      → instance_of k (call_on k c d) ≡ caught (instance_of k d) (result c (instance_of k d))
  unfolding call_on
  call_on-instance k c d =
      changed-instance k (result c (instance_of k (assure_instance k d))) (assure_instance k d)
      ∙ ap (λ t. caught t (result c t)) (assure_instance-instance k k d)

  call_on-other :
      (j k : String) (c : Call A B) (d : Instances A B)
      → str_eq k j ≡ false
      → instance_of j (call_on k c d) ≡ instance_of j d
  unfolding call_on
  call_on-other j k c d h =
      changed-other j k (result c (instance_of k (assure_instance k d))) (assure_instance k d) h
      ∙ assure_instance-instance j k d

  -- The instance of a key after any calls is that after the calls on it.
  pub call_all-instance :
      (j : String) (calls : List (String × Call A B)) (d : Instances A B)
      → instance_of j (call_all calls d) ≡ run (calls_of j calls) (instance_of j d)
  unfolding call_all run calls_of
  call_all-instance j [] d = refl
  call_all-instance j ((k, c) ∷ calls) d =
      call_all-instance j calls (call_on k c d) ∙ elim (Bool-cases (str_eq k j)) [
        | inl e ↦
            let same = (eq_iff k j).0 e in
            rw e (
              ap (run (calls_of j calls)) (
                subst
                  (λ i.
                    instance_of i (call_on k c d)
                    ≡ caught (instance_of i d) (result c (instance_of i d)))
                  same (call_on-instance k c d)))
        | inr e ↦ rw e (ap (run (calls_of j calls)) (call_on-other j k c d e))
      ]
