-- ===== src/Checks/Agent/Runs.antt =====
-- checks/__init__.py, run of class AgentCheck: one instance after the other.
use sts_agent.Prelude.{ℕ, ◌≤◌, true, List, String, All, ◌≡◌}
use sts_agent.Aggregator.Received.{Metrics}
use sts_agent.Checks.{has_name}
use sts_agent.Checks.Agent.{AgentCheck, Action, time_of}
use sts_agent.Checks.Agent.Statuses.{warnings_of}

abbrev IsNamed : {V E S A B : Type 0} → List (Action V E S A B) → List String → Type 0
IsNamed actions ws = All (λ w. has_name w (warnings_of actions) ≡ true) ws

module _ {V E S A B G : Type 0} (aggregates : Metrics V G) (min_collection_interval : ℕ) where
  -- The times of the instances from the `i`-th on are those at the start of the run.
  abbrev SameTimes : ℕ → AgentCheck E S A B G → List (ℕ × ℕ) → Type 0
  SameTimes i c times = (n : ℕ) → i ≤ n → time_of n c.last_collection_time ≡ time_of n times
