-- ===== src/Checks/Agent/Tests.antt =====
-- checks/__init__.py, class AgentCheck: a run of four instances.
use sts_agent.Prelude.{ℕ, suc, ◌+◌, none, List, [], ◌∷◌, String, ◌==◌, if◌then◌else◌, ◌≡◌, refl}
use sts_agent.Prelude.Dicts.{lookup, insert}
use sts_agent.Aggregator.Metric.Point.{value_error, returned, raised}
use sts_agent.Aggregator.State.{Submission}
use sts_agent.Aggregator.Received.{Metrics}
use sts_agent.Checks.Agent.{
  AgentCheck, metric_fault, check_fault, Call, Action, Status, calls, tries, raises, ok, warned,
  failed, InstanceStatus, Turn, perform, check, get_warnings, roll_up_instance_metadata, run_from,
  run, dict_of, get_service_metadata,
}

-- An aggregator that counts, and refuses zero.
abbrev counting : Metrics ℕ ℕ
counting = record {
  submit =
      λ s cur_time now n. if s.value == 0 then (raised value_error, n) else (returned tt, suc n);
  count = λ n. n;
  total_count = λ n. n;
  count_packet = λ n. n;
  add_total = λ k n. n + k;
}

abbrev of_value : ℕ → Submission ℕ
of_value n = record {
  name = "disk.free";
  value = n;
  mtype = "g";
  tags = none;
  hostname = none;
  device_name = none;
  timestamp = none;
  sample_rate = 1;
}

abbrev turn : List (Action ℕ String String ℕ ℕ) → Turn ℕ String String ℕ ℕ
turn actions = record { min_collection_interval = none; now = 100; actions = actions }

-- The first has a warning, the second warns and fails, the third ran 5 seconds ago, the fourth catches
-- what the aggregator raises.
abbrev turns : List (Turn ℕ String String ℕ ℕ)
turns =
    turn (
      calls (Call.metric (of_value 7) 100 100)
      ∷ calls (Call.warning "slow")
      ∷ calls (Call.service_metadata "os" "linux")
      ∷ [])
    ∷ turn (calls (Call.warning "lost") ∷ raises "no answer" ∷ calls (Call.event "up") ∷ [])
    ∷ turn (calls (Call.warning "early") ∷ [])
    ∷ turn (tries (Call.metric (of_value 0) 100 100) ∷ calls (Call.event "done") ∷ [])
    ∷ []

abbrev fresh : AgentCheck String String ℕ ℕ ℕ
fresh = record {
  aggregator = 0;
  events = [];
  service_checks = [];
  topology_instances = [];
  warnings = [];
  instance_metadata = [];
  svc_metadata = [];
  last_collection_time = (2, 95) ∷ [];
}

abbrev status_at : ℕ → Status → InstanceStatus
status_at i s = record { instance_id = i; status = s }

run_statuses :
    (run counting 15 turns fresh).0
    ≡ status_at 0 (warned ("slow" ∷ []))
      ∷ status_at 1 (failed (check_fault "no answer"))
      ∷ status_at 3 ok
      ∷ []
unfolding perform check get_warnings roll_up_instance_metadata run_from run lookup insert
run_statuses = refl

-- Each instance has its own metadata, the skipped one too.
run_metadata :
    (get_service_metadata (run counting 15 turns fresh).1).0
    ≡ (("os", "linux") ∷ []) ∷ [] ∷ [] ∷ [] ∷ []
unfolding perform check get_warnings roll_up_instance_metadata run_from run lookup insert dict_of
    get_service_metadata
run_metadata = refl

-- A fault that is not caught ends the check of its instance.
run_uncaught :
    (run counting 15 (turn (calls (Call.metric (of_value 0) 100 100) ∷ []) ∷ []) fresh).0
    ≡ status_at 0 (failed (metric_fault value_error)) ∷ []
unfolding perform check get_warnings roll_up_instance_metadata run_from run lookup insert
run_uncaught = refl
