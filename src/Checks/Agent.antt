-- ===== src/Checks/Agent.antt =====
-- checks/__init__.py, class AgentCheck: what a check saves, and the run of its instances.
pub mod Historate
pub mod Runs
pub mod Statuses
pub mod Tests
use sts_agent.Prelude.{
  ℕ, suc, ◌+◌, Bool, true, false, not, Option, none, some, List, [], ◌∷◌, ◌++◌, String, ltb, ◌==◌,
  if◌then◌else◌,
}
use sts_agent.Prelude.Dicts.{lookup, insert}
use text.Mathlib.Text.{◌==◌ as str_eq}
use sts_agent.Aggregator.Metric.Point.{Error, Result, returned, raised}
use sts_agent.Aggregator.State.{Submission}
use sts_agent.Aggregator.Received.{Metrics}
use sts_agent.Topology.{TopologyInstance, Topology}
use sts_agent.Topology.Snapshots.{Call as TopologyCall, result}
use sts_agent.Topology.Instances.{
  Instances, instance_of, assure_instance, changed, get_topology_instances,
}

-- The attributes that the calls and the runs change.
pub record AgentCheck (E S A B G : Type 0) : Type 0 where
  pub aggregator : G
  pub events : List E
  pub service_checks : List S
  pub topology_instances : Instances A B
  pub warnings : List String
  pub instance_metadata : List (String × String)
  pub svc_metadata : List (List (String × String))
  pub last_collection_time : List (ℕ × ℕ)

-- What may be raised: by the aggregator, by a topology instance, or by the check itself.
pub data Fault : Type 0 where
  metric_fault : Error → Fault
  topology_fault : Fault
  check_fault : String → Fault

-- The methods that a check calls; a metric comes with two readings of the clock.
pub data Call (V E S A B : Type 0) : Type 0 where
  metric : Submission V → ℕ → ℕ → Call V E S A B
  event : E → Call V E S A B
  service_check : S → Call V E S A B
  service_metadata : String → String → Call V E S A B
  warning : String → Call V E S A B
  topology : String → TopologyCall A B → Call V E S A B

-- What the method `check` of a subclass does in turn: it calls, or calls and catches what is raised,
-- or raises.
pub data Action (V E S A B : Type 0) : Type 0 where
  calls : Call V E S A B → Action V E S A B
  tries : Call V E S A B → Action V E S A B
  raises : String → Action V E S A B

pub data Status : Type 0 where
  ok : Status
  warned : List String → Status
  failed : Fault → Status

pub record InstanceStatus : Type 0 where
  pub instance_id : ℕ
  pub status : Status

-- An instance in a run: its min_collection_interval, the time, and what the check does with it.
pub record Turn (V E S A B : Type 0) : Type 0 where
  pub min_collection_interval : Option ℕ
  pub now : ℕ
  pub actions : List (Action V E S A B)

-- `dict(pairs)`
unfoldable pub dict_of : List (String × String) → List (String × String) → List (String × String)
dict_of [] d = d
dict_of ((k, v) ∷ pairs) d = dict_of pairs (insert str_eq k v d)

-- `last_collection_time[i]`, a defaultdict of int
abbrev pub or_zero_time : Option ℕ → ℕ
or_zero_time none = 0
or_zero_time (some t) = t

abbrev pub time_of : ℕ → List (ℕ × ℕ) → ℕ
time_of i times = or_zero_time (lookup (λ a b. a == b) i times)

abbrev pub or_interval : ℕ → Option ℕ → ℕ
or_interval default none = default
or_interval default (some n) = n

-- What a call leaves, and what it raises; and what a run leaves, with its statuses.
abbrev pub Done : Type 0 → Type 0
Done C = Option Fault × C

abbrev pub Ran : Type 0 → Type 0
Ran C = List InstanceStatus × C

abbrev pub has_warnings : List String → Bool
has_warnings [] = false
has_warnings (w ∷ ws) = true

module _ {E S A B G : Type 0} where
  abbrev pub submitted_to : AgentCheck E S A B G → Result Unit × G → Done (AgentCheck E S A B G)
  submitted_to c (returned u, aggregator) = (none, record c { aggregator = aggregator })
  submitted_to c (raised e, aggregator) =
      (some (metric_fault e), record c { aggregator = aggregator })

  abbrev pub topology_called :
      String
      → Instances A B
      → AgentCheck E S A B G
      → Option (TopologyInstance A B)
      → Done (AgentCheck E S A B G)
  topology_called key d c none = (some topology_fault, record c { topology_instances = d })
  topology_called key d c (some t) =
      (none, record c { topology_instances = changed key (some t) d })

  abbrev pub goes_on :
      Done (AgentCheck E S A B G)
      → (AgentCheck E S A B G → Done (AgentCheck E S A B G))
      → Done (AgentCheck E S A B G)
  goes_on (none, c) next = next c
  goes_on (some f, c) next = (some f, c)

  unfoldable pub get_warnings : AgentCheck E S A B G → List String × AgentCheck E S A B G
  get_warnings c = (c.warnings, record c { warnings = [] })

  abbrev pub instance_status :
      ℕ → Done (AgentCheck E S A B G) → InstanceStatus × AgentCheck E S A B G
  instance_status i (some f, c) = (record { instance_id = i; status = failed f }, c)
  instance_status i (none, c) =
      let got = get_warnings c in
      if has_warnings c.warnings
      then (record { instance_id = i; status = warned got.0 }, got.1)
      else (record { instance_id = i; status = ok }, c)

  unfoldable pub roll_up_instance_metadata : AgentCheck E S A B G → AgentCheck E S A B G
  roll_up_instance_metadata c = record c {
    svc_metadata = c.svc_metadata ++ dict_of c.instance_metadata [] ∷ [];
    instance_metadata = [];
  }

  -- The `finally` clause, which an instance that is skipped has too.
  abbrev pub finally : AgentCheck E S A B G → AgentCheck E S A B G
  finally c = (get_warnings (roll_up_instance_metadata c)).1

  unfoldable pub get_events : AgentCheck E S A B G → List E × AgentCheck E S A B G
  get_events c = (c.events, record c { events = [] })

  unfoldable pub get_service_checks : AgentCheck E S A B G → List S × AgentCheck E S A B G
  get_service_checks c = (c.service_checks, record c { service_checks = [] })

  unfoldable pub get_topologies : AgentCheck E S A B G → List (Topology A B) × AgentCheck E S A B G
  get_topologies c =
      let got = get_topology_instances c.topology_instances in
      (got.0, record c { topology_instances = got.1 })

  abbrev pub rolled_up : List (String × String) → AgentCheck E S A B G → AgentCheck E S A B G
  rolled_up [] c = c
  rolled_up (pair ∷ pairs) c = roll_up_instance_metadata c

  unfoldable pub get_service_metadata :
      AgentCheck E S A B G → List (List (String × String)) × AgentCheck E S A B G
  get_service_metadata c =
      let rolled = rolled_up c.instance_metadata c in
      (rolled.svc_metadata, record rolled { svc_metadata = [] })

module _ {V E S A B : Type 0} (min_collection_interval : ℕ) where
  -- `now - last < min_collection_interval`
  abbrev pub is_early : ℕ → Turn V E S A B → List (ℕ × ℕ) → Bool
  is_early i turn times =
      ltb turn.now
        (time_of i times + or_interval min_collection_interval turn.min_collection_interval)

module _ {V E S A B G : Type 0} (aggregates : Metrics V G) where
  unfoldable pub perform : Call V E S A B → AgentCheck E S A B G → Done (AgentCheck E S A B G)
  perform (Call.metric s cur_time now) c =
      submitted_to c (aggregates.submit s cur_time now c.aggregator)
  perform (Call.event e) c = (none, record c { events = c.events ++ e ∷ [] })
  perform (Call.service_check s) c =
      (none, record c { service_checks = c.service_checks ++ s ∷ [] })
  perform (Call.service_metadata k v) c =
      (none, record c { instance_metadata = c.instance_metadata ++ (k, v) ∷ [] })
  perform (Call.warning w) c = (none, record c { warnings = c.warnings ++ w ∷ [] })
  perform (Call.topology key t) c =
      let assured = assure_instance key c.topology_instances in
      topology_called key assured c (result t (instance_of key assured))

  -- `self.check(instance)`
  unfoldable pub check :
      List (Action V E S A B) → AgentCheck E S A B G → Done (AgentCheck E S A B G)
  check [] c = (none, c)
  check (calls call ∷ actions) c = goes_on (perform call c) (check actions)
  check (tries call ∷ actions) c = check actions (perform call c).1
  check (raises message ∷ actions) c = (some (check_fault message), c)

module _ {V E S A B G : Type 0} (aggregates : Metrics V G) (min_collection_interval : ℕ) where
  abbrev pub collected :
      ℕ → Turn V E S A B → AgentCheck E S A B G → InstanceStatus × AgentCheck E S A B G
  collected i turn c = instance_status i (
      check aggregates turn.actions (record c {
        last_collection_time = insert (λ a b. a == b) i turn.now c.last_collection_time;
      }))

  -- The instances from the `i`-th on.
  unfoldable pub run_from :
      ℕ → List (Turn V E S A B) → AgentCheck E S A B G → Ran (AgentCheck E S A B G)
  run_from i [] c = ([], c)
  run_from i (turn ∷ turns) c =
      let got = collected i turn c in
      let skipped = run_from (suc i) turns (finally c) in
      let rest = run_from (suc i) turns (finally got.1) in
      if is_early min_collection_interval i turn c.last_collection_time
      then skipped
      else (got.0 ∷ rest.0, rest.1)

  -- `run`
  unfoldable pub run : List (Turn V E S A B) → AgentCheck E S A B G → Ran (AgentCheck E S A B G)
  run turns c = run_from 0 turns c
