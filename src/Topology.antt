-- ===== src/Topology.antt =====
-- checks/__init__.py, class TopologyInstance: the topology that a check reports, in snapshots.
pub mod Snapshots
pub mod Instances
mod Tests
use sts_agent.Prelude.{
  Bool, true, false, ◌||◌, Option, none, some, List, [], ◌∷◌, ◌++◌, String, if◌then◌else◌,
}

pub record TopologyInstance (A B : Type 0) : Type 0 where
  pub instance_key : String
  pub in_snapshot : Bool
  pub components : List A
  pub relations : List B
  pub start : Bool
  pub stop : Bool

-- The dictionary of `get_topology`; the flags are `none` where it has no such key.
pub record Topology (A B : Type 0) : Type 0 where
  pub key : String
  pub components : List A
  pub relations : List B
  pub start_snapshot : Option Bool
  pub stop_snapshot : Option Bool

module _ {A B : Type 0} where
  -- The constructor.
  abbrev pub create_instance : String → TopologyInstance A B
  create_instance instance_key = record {
    instance_key = instance_key;
    in_snapshot = false;
    components = [];
    relations = [];
    start = false;
    stop = false;
  }

  -- The methods give `none` where they raise, and leave the state.
  unfoldable pub add_component : A → TopologyInstance A B → Option (TopologyInstance A B)
  add_component c t =
      if t.stop then none else some (record t { components = t.components ++ c ∷ [] })

  unfoldable pub add_relation : B → TopologyInstance A B → Option (TopologyInstance A B)
  add_relation r t = if t.stop then none else some (record t { relations = t.relations ++ r ∷ [] })

  unfoldable pub start_snapshot : TopologyInstance A B → Option (TopologyInstance A B)
  start_snapshot t =
      if t.stop
      then none
      else if t.in_snapshot
      then none
      else some (record t { in_snapshot = true; start = true })

  unfoldable pub stop_snapshot : TopologyInstance A B → Option (TopologyInstance A B)
  stop_snapshot t =
      if t.in_snapshot then some (record t { in_snapshot = false; stop = true }) else none

  unfoldable pub get_topology : TopologyInstance A B → Topology A B
  get_topology t = record {
    key = t.instance_key;
    components = t.components;
    relations = t.relations;
    start_snapshot = if t.in_snapshot || t.start then some t.start else none;
    stop_snapshot = if t.in_snapshot || t.stop then some t.stop else none;
  }

  unfoldable pub clear_topology_and_snapshot : Bool → TopologyInstance A B → TopologyInstance A B
  clear_topology_and_snapshot clear_in_snapshot t = record {
    instance_key = t.instance_key;
    in_snapshot = if clear_in_snapshot then false else t.in_snapshot;
    components = [];
    relations = [];
    start = false;
    stop = false;
  }
