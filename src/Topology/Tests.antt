-- ===== src/Topology/Tests.antt =====
-- Three runs of a check, and the theorem at them.
use sts_agent.Prelude.{
  ℕ, Bool, Option, true, false, some, none, List, [], ◌∷◌, String, map, flatten, ◌≡◌, refl,
}
use sts_agent.Prelude.Dicts.{lookup, insert}
use sts_agent.Topology.{
  create_instance, add_component, add_relation, start_snapshot, stop_snapshot, get_topology,
  clear_topology_and_snapshot, Topology,
}
use sts_agent.Topology.Snapshots.{Call, IsAlternating, run, session}
use sts_agent.Topology.Instances.{
  assure_instance, call_on, call_all, kept, get_topology_instances, reports,
}
use sts_agent.Topology.Instances.Reported.{of_key, reports-IsAlternating}

-- A snapshot over two runs; the third run stops none.
abbrev runs : List (List (Call ℕ ℕ))
runs =
    (Call.start ∷ Call.component 1 ∷ [])
    ∷ (Call.relation 2 ∷ Call.stop ∷ Call.component 3 ∷ [])
    ∷ (Call.stop ∷ Call.component 4 ∷ [])
    ∷ []

abbrev summary : Topology ℕ ℕ → List ℕ × Option Bool × Option Bool
summary t = (t.components, t.start_snapshot, t.stop_snapshot)

reported :
    map summary (session runs (create_instance "host"))
    ≡ (1 ∷ [], some true, some false) ∷ ([], none, some true) ∷ (4 ∷ [], none, none) ∷ []
unfolding add_component add_relation start_snapshot stop_snapshot get_topology
    clear_topology_and_snapshot run session
reported = refl

-- Two instances: the first is in a snapshot over the runs, the second is dropped and made again.
abbrev instance_runs : List (List (String × Call ℕ ℕ))
instance_runs =
    (("host", Call.start) ∷ ("disk", Call.component 1) ∷ ("host", Call.start) ∷ [])
    ∷ (("host", Call.component 2) ∷ ("host", Call.stop) ∷ [])
    ∷ (("disk", Call.stop) ∷ ("disk", Call.start) ∷ [])
    ∷ []

reported_instances :
    map (map summary) (reports instance_runs [])
    ≡ (([], some true, some false) ∷ (1 ∷ [], none, none) ∷ [])
      ∷ ((2 ∷ [], none, some true) ∷ [])
      ∷ (([], some true, some false) ∷ [])
      ∷ []
unfolding add_component add_relation start_snapshot stop_snapshot get_topology lookup insert
    clear_topology_and_snapshot assure_instance call_on call_all kept get_topology_instances reports
reported_instances = refl

reports-IsAlternating_example :
    IsAlternating false (flatten (map (of_key "host") (reports instance_runs [])))
reports-IsAlternating_example = reports-IsAlternating "host" instance_runs
