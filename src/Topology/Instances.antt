-- ===== src/Topology/Instances.antt =====
-- checks/__init__.py, class AgentCheck: the topology instances of a check, each with its own snapshots.
pub mod Views
pub mod Reported
use text.Mathlib.Text.{◌==◌ as str_eq}
use sts_agent.Prelude.{
  Bool, true, false, Option, none, some, List, [], ◌∷◌, String, if◌then◌else◌, map,
}
use sts_agent.Prelude.Dicts.{lookup, insert}
use sts_agent.Topology.{
  TopologyInstance, Topology, create_instance, get_topology, clear_topology_and_snapshot,
}
use sts_agent.Topology.Snapshots.{Call, result}

-- `topology_instances`; the key of an instance is the text of its sorted items.
abbrev pub Instances : Type 0 → Type 0 → Type 0
Instances A B = List (String × TopologyInstance A B)

module _ {A B : Type 0} where
  abbrev pub or_new : String → Option (TopologyInstance A B) → TopologyInstance A B
  or_new key none = create_instance key
  or_new key (some t) = t

  abbrev set_default : String → Option (TopologyInstance A B) → Instances A B → Instances A B
  set_default key none d = insert str_eq key (create_instance key) d
  set_default key (some t) d = d

  -- `_assure_instance`: the dictionary after it, and the instance.
  unfoldable pub assure_instance : String → Instances A B → Instances A B
  assure_instance key d = set_default key (lookup str_eq key d) d

  abbrev pub instance_of : String → Instances A B → TopologyInstance A B
  instance_of key d = or_new key (lookup str_eq key d)

  -- The instance after a method of it; one that raises leaves it.
  abbrev pub changed : String → Option (TopologyInstance A B) → Instances A B → Instances A B
  changed key none d = d
  changed key (some t) d = insert str_eq key t d

  -- `_add_component`, `_add_relation`, `_start_snapshot` and `_stop_snapshot`, where the check catches
  -- what they raise.
  unfoldable pub call_on : String → Call A B → Instances A B → Instances A B
  call_on key c d =
      let assured = assure_instance key d in
      changed key (result c (instance_of key assured)) assured

  -- `_clear_topology`, which no check calls.
  unfoldable pub clear_topology : String → Bool → Instances A B → Instances A B
  clear_topology key clear_in_snapshot d =
      let assured = assure_instance key d in
      insert str_eq key (clear_topology_and_snapshot clear_in_snapshot (instance_of key assured))
        assured

  unfoldable pub call_all : List (String × Call A B) → Instances A B → Instances A B
  call_all [] d = d
  call_all ((key, c) ∷ calls) d = call_all calls (call_on key c d)

  -- What is left of the dictionary: the instances in a snapshot, cleared.
  unfoldable pub kept : Instances A B → Instances A B
  kept [] = []
  kept ((key, t) ∷ d) =
      let rest = kept d in
      let cleared = clear_topology_and_snapshot false t in
      if cleared.in_snapshot then (key, cleared) ∷ rest else rest

  unfoldable pub get_topology_instances : Instances A B → List (Topology A B) × Instances A B
  get_topology_instances d = (map (λ e. get_topology e.1) d, kept d)

  -- The reports of several runs of the check.
  unfoldable pub reports :
      List (List (String × Call A B)) → Instances A B → List (List (Topology A B))
  reports [] d = []
  reports (calls ∷ runs) d =
      let got = get_topology_instances (call_all calls d) in got.0 ∷ reports runs got.1
