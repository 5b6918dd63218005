-- ===== src/Checks/Agent/Statuses.antt =====
-- checks/__init__.py, run of class AgentCheck: the statuses of the instances.
use text.Mathlib.Text.{◌==◌ as str_eq}
use text.Mathlib.TextEquality.{eq_iff}
use mathlib.Core.Option.{none-ne-some}
use sts_agent.Prelude.{
  ℕ, suc, Bool, true, false, ◌||◌, Option, none, some, List, [], ◌∷◌, ◌++◌, String, ◌==◌, ==_iff,
  All, All-append, All-append_left, All-append_right, All-map, ◌≡◌, ◌⊎◌, inl, refl, ap, ◌∙◌,
}
use sts_agent.Prelude.Dicts.{eq_refl}
use sts_agent.Aggregator.Metric.Point.{Result, returned, raised}
use sts_agent.Aggregator.Received.{Metrics}
use sts_agent.Topology.{TopologyInstance}
use sts_agent.Topology.Snapshots.{result}
use sts_agent.Topology.Instances.{Instances, instance_of, assure_instance}
use sts_agent.Checks.{has_name}
use sts_agent.Checks.Agent.{
  AgentCheck, Fault, Call, Action, calls, tries, raises, Status, ok, warned, failed, InstanceStatus,
  Turn, Done, has_warnings, submitted_to, topology_called, perform, goes_on, check, is_early,
}

pub same_index_iff : (a b : ℕ) → ((a == b) ≡ true → a ≡ b) × (a ≡ b → (a == b) ≡ true)
same_index_iff a b = ==_iff a b

module _ {V E S A B : Type 0} where
  abbrev pub warning_of : Call V E S A B → List String
  warning_of (Call.warning w) = w ∷ []
  warning_of _ = []

  -- The warnings of an instance, and whether a call of it or the check itself may raise.
  unfoldable pub warnings_of : List (Action V E S A B) → List String
  warnings_of [] = []
  warnings_of (calls call ∷ actions) = warning_of call ++ warnings_of actions
  warnings_of (tries call ∷ actions) = warning_of call ++ warnings_of actions
  warnings_of (raises message ∷ actions) = warnings_of actions

  unfoldable pub may_raise : List (Action V E S A B) → Bool
  may_raise [] = false
  may_raise (calls call ∷ actions) = true
  may_raise (tries call ∷ actions) = may_raise actions
  may_raise (raises message ∷ actions) = true

  -- A status is that of the instance: its warnings are of the instance, and one that fails may raise.
  abbrev pub IsOwn : Turn V E S A B → Status → Type 0
  IsOwn turn ok = Unit
  IsOwn turn (warned ws) =
      (has_warnings ws ≡ true) × All (λ w. has_name w (warnings_of turn.actions) ≡ true) ws
  IsOwn turn (failed f) = may_raise turn.actions ≡ true

  -- The statuses are those of the instances from the `i`-th on that are due, in their order.
  abbrev pub IsReport : ℕ → ℕ → List (Turn V E S A B) → List (ℕ × ℕ) → List InstanceStatus → Type 0
  IsReport default i [] times [] = Unit
  IsReport default i [] times (s ∷ ss) = ⊥
  IsReport default i (turn ∷ turns) times [] =
      (is_early default i turn times ≡ true) × IsReport default (suc i) turns times []
  IsReport default i (turn ∷ turns) times (s ∷ ss) =
      ((is_early default i turn times ≡ true) × IsReport default (suc i) turns times (s ∷ ss))
      ⊎ ((is_early default i turn times ≡ false)
          × (s.instance_id ≡ i)
          × IsOwn turn s.status
          × IsReport default (suc i) turns times ss)

  pub early-IsReport :
      (default i : ℕ) (turn : Turn V E S A B) (turns : List (Turn V E S A B)) (times : List (ℕ × ℕ))
      (ss : List InstanceStatus)
      → is_early default i turn times ≡ true
      → IsReport default (suc i) turns times ss
      → IsReport default i (turn ∷ turns) times ss
  early-IsReport default i turn turns times [] e h = (e, h)
  early-IsReport default i turn turns times (s ∷ ss) e h = inl (e, h)

or_true : (b : Bool) → b || true ≡ true
or_true true = refl
or_true false = refl

has_name-later :
    (w x : String) (xs : List String) → has_name w xs ≡ true → has_name w (x ∷ xs) ≡ true
has_name-later w x xs h = ap (λ b. str_eq x w || b) h ∙ or_true (str_eq x w)

pub all_named : (xs : List String) → All (λ w. has_name w xs ≡ true) xs
all_named [] = tt
all_named (x ∷ xs) = (
  ap (λ b. b || has_name x xs) (eq_refl str_eq eq_iff x),
  All-map (λ w. has_name w xs ≡ true) (λ w. has_name w (x ∷ xs) ≡ true) (λ w. has_name-later w x xs)
      xs (all_named xs),
)

module _ {E S A B G : Type 0} where
  -- Only the aggregator, and only the topology instances, change.
  submitted_to-keeps :
      (P : AgentCheck E S A B G → Type 0) (r : Result Unit × G) (c : AgentCheck E S A B G)
      → ((g : G) → P (record c { aggregator = g }))
      → P (submitted_to c r).1
  submitted_to-keeps P (returned u, g) c h = h g
  submitted_to-keeps P (raised e, g) c h = h g

  topology_called-keeps :
      (P : AgentCheck E S A B G → Type 0) (key : String) (d : Instances A B)
      (c : AgentCheck E S A B G) (o : Option (TopologyInstance A B))
      → ((d : Instances A B) → P (record c { topology_instances = d }))
      → P (topology_called key d c o).1
  topology_called-keeps P key d c none h = h d
  topology_called-keeps P key d c (some t) h = h _

module _ {V E S A B G : Type 0} (aggregates : Metrics V G) where
  -- The warnings after a call.
  perform-warnings :
      (P : String → Type 0) (call : Call V E S A B) (c : AgentCheck E S A B G)
      → All P c.warnings
      → All P (warning_of call)
      → All P (perform aggregates call c).1.warnings
  unfolding perform
  perform-warnings P (Call.metric s cur_time now) c h k =
      submitted_to-keeps (λ d. All P d.warnings) (aggregates.submit s cur_time now c.aggregator) c
        (λ g. h)
  perform-warnings P (Call.event e) c h k = h
  perform-warnings P (Call.service_check s) c h k = h
  perform-warnings P (Call.service_metadata n v) c h k = h
  perform-warnings P (Call.warning w) c h k = All-append P c.warnings (w ∷ []) h k
  perform-warnings P (Call.topology key t) c h k =
      let assured = assure_instance key c.topology_instances in
      topology_called-keeps (λ d. All P d.warnings) key assured c
        (result t (instance_of key assured)) (λ d. h)

  perform-times :
      (call : Call V E S A B) (c : AgentCheck E S A B G)
      → (perform aggregates call c).1.last_collection_time ≡ c.last_collection_time
  unfolding perform
  perform-times (Call.metric s cur_time now) c =
      submitted_to-keeps (λ d. d.last_collection_time ≡ c.last_collection_time)
        (aggregates.submit s cur_time now c.aggregator) c (λ g. refl)
  perform-times (Call.event e) c = refl
  perform-times (Call.service_check s) c = refl
  perform-times (Call.service_metadata n v) c = refl
  perform-times (Call.warning w) c = refl
  perform-times (Call.topology key t) c =
      let assured = assure_instance key c.topology_instances in
      topology_called-keeps (λ d. d.last_collection_time ≡ c.last_collection_time) key assured c
        (result t (instance_of key assured)) (λ d. refl)

  goes_on-keeps :
      (P : AgentCheck E S A B G → Type 0) (d : Done (AgentCheck E S A B G))
      (next : AgentCheck E S A B G → Done (AgentCheck E S A B G))
      → P d.1
      → ((c : AgentCheck E S A B G) → P c → P (next c).1)
      → P (goes_on d next).1
  goes_on-keeps P (none, c) next h k = k c h
  goes_on-keeps P (some f, c) next h k = h

  pub check-warnings :
      (P : String → Type 0) (actions : List (Action V E S A B)) (c : AgentCheck E S A B G)
      → All P c.warnings
      → All P (warnings_of actions)
      → All P (check aggregates actions c).1.warnings
  unfolding check warnings_of
  check-warnings P [] c h k = h
  check-warnings P (calls call ∷ actions) c h k =
      goes_on-keeps (λ d. All P d.warnings) (perform aggregates call c) (check aggregates actions)
        (perform-warnings P call c h (All-append_left P (warning_of call) (warnings_of actions) k))
        (λ d h'.
          check-warnings P actions d h'
            (All-append_right P (warning_of call) (warnings_of actions) k))
  check-warnings P (tries call ∷ actions) c h k =
      check-warnings P actions (perform aggregates call c).1
        (perform-warnings P call c h (All-append_left P (warning_of call) (warnings_of actions) k))
        (All-append_right P (warning_of call) (warnings_of actions) k)
  check-warnings P (raises message ∷ actions) c h k = h

  pub check-times :
      (actions : List (Action V E S A B)) (c : AgentCheck E S A B G)
      → (check aggregates actions c).1.last_collection_time ≡ c.last_collection_time
  unfolding check
  check-times [] c = refl
  check-times (calls call ∷ actions) c =
      goes_on-keeps (λ d. d.last_collection_time ≡ c.last_collection_time)
        (perform aggregates call c) (check aggregates actions) (perform-times call c)
        (λ d h. check-times actions d ∙ h)
  check-times (tries call ∷ actions) c =
      check-times actions (perform aggregates call c).1 ∙ perform-times call c
  check-times (raises message ∷ actions) c = refl

  pub check-raises :
      (actions : List (Action V E S A B)) (c : AgentCheck E S A B G) (f : Fault)
      → (check aggregates actions c).0 ≡ some f
      → may_raise actions ≡ true
  unfolding check may_raise
  check-raises [] c f h = absurd (none-ne-some f h)
  check-raises (calls call ∷ actions) c f h = refl
  check-raises (tries call ∷ actions) c f h = check-raises actions (perform aggregates call c).1 f h
  check-raises (raises message ∷ actions) c f h = refl
