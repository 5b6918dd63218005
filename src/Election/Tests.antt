-- ===== src/Election/Tests.antt =====
-- Rounds at concrete times, and the theorems at them.
use Prim.Native.String.{[] as empty, ◌∷◌ as char_cons}
use sts_agent.Prelude.{
  ℕ, zero, suc, true, false, none, some, String, [], ◌∷◌, ◌≡◌, refl, sym, ap, ◌∙◌, arith,
}
use sts_agent.Election.{
  ConfigMap, World, Fault, Outside, create_elector, get_cm, is_lock_expired, is_cm_mine,
  build_update_cm_payload, try_lock_cm, try_refresh_cm, acquire_fetched, refresh_fetched,
  try_acquire, try_refresh, try_acquire_or_refresh,
}
use sts_agent.Election.Cluster.{Cluster, seen_by, turn, begin_with, Reach, Leads, one_leader}
use sts_agent.Election.Progress.{IsLed, rounds, takes_over, unstamped_never_locked}
use sts_agent.Election.Overlap.{overlapped, IsLeader, overlapping_leaders}

-- Names of different lengths.
names : ℕ → String
names zero = empty
names (suc n) = char_cons "a" (names n)

size : String → ℕ
size empty = zero
size (char_cons c s) = suc (size s)

size-names : (n : ℕ) → size (names n) ≡ n
unfolding names size
size-names zero = refl
size-names (suc n) = ap suc (size-names n)

distinct : (i j : ℕ) → names i ≡ names j → i ≡ j
distinct i j e = sym (size-names i) ∙ ap size e ∙ size-names j

-- A healthy round at `t`; the server sets its fields.
abbrev healthy_at : ℕ → Outside
healthy_at t = record {
  checked = t;
  compared = t;
  stamped = t;
  get = Fault.passes;
  delete = Fault.passes;
  post = Fault.passes;
  put = Fault.passes;
  stored = λ c. record c { resource_version = some "1"; self_link = some "link"; uid = some "uid" };
}

abbrev begin : Cluster
begin = begin_with names (some 10) none 0

abbrev once : Cluster
once = turn begin 0 (healthy_at 3)

-- The leader refreshes within the last 30 seconds of its lease; the other one does not lead.
abbrev twice : Cluster
twice = turn (turn once 1 (healthy_at 5)) 0 (healthy_at 7)

program : Unit {0}
unfolding create_elector get_cm is_lock_expired is_cm_mine build_update_cm_payload try_lock_cm
    try_refresh_cm acquire_fetched refresh_fetched try_acquire try_refresh try_acquire_or_refresh
    turn overlapped names
program = tt

Leads-once : Leads once 0
unfolding program
Leads-once = (refl, 3, refl, omega arith)

refreshed :
    ((twice.electors 0).is_leader ≡ true)
    × ((twice.electors 1).is_leader ≡ false)
    × ((twice.electors 0).last_acquire_time ≡ some 7)
unfolding program
refreshed = (refl, refl, refl)

Reach-once : Reach names (some 10) once
Reach-once =
    Reach.later 0 (healthy_at 3) Reach.begun (omega arith, omega arith, (λ c. refl), λ c. refl)
      (omega arith)

abbrev first : ℕ
first = 0

one_leader_example : first ≡ first
one_leader_example =
    one_leader names (some 10) distinct once first first Reach-once Leads-once Leads-once

-- At 13 the lease of the first node ends.
takes_over_example :
    IsLed (healthy_at 13) (seen_by once 1) (try_acquire_or_refresh (healthy_at 13) (seen_by once 1))
unfolding program
takes_over_example =
    takes_over (healthy_at 13) (seen_by once 1) (refl, refl, refl) refl tt (3, refl, omega arith)

abbrev bare : ConfigMap
bare = record {
  creator = none;
  acquired_time = none;
  resource_version = some "1";
  self_link = some "link";
  uid = some "uid";
}

abbrev meets_bare : World
meets_bare = record { cm = some bare; elector = create_elector "node" none }

unstamped_never_locked_example :
    ((rounds (healthy_at 1 ∷ healthy_at 2 ∷ []) meets_bare).cm ≡ some bare)
    × ((rounds (healthy_at 1 ∷ healthy_at 2 ∷ []) meets_bare).elector.is_leader ≡ false)
unfolding program
unstamped_never_locked_example =
    unstamped_never_locked bare refl (healthy_at 1 ∷ healthy_at 2 ∷ []) meets_bare refl refl

abbrev stale : ConfigMap
stale = record {
  creator = some "gone";
  acquired_time = some 0;
  resource_version = none;
  self_link = none;
  uid = none;
}

abbrev late : Cluster
late = begin_with names (some 10) (some stale) 20

overlapping_leaders_example :
    IsLeader 21 ((overlapped late 0 (healthy_at 21) 1 (healthy_at 20)).electors 0)
    × IsLeader 20 ((overlapped late 0 (healthy_at 21) 1 (healthy_at 20)).electors 1)
unfolding program
overlapping_leaders_example =
    overlapping_leaders late 0 1 (healthy_at 21) (healthy_at 20) stale 0 (λ e. omega (arith, e))
      (refl, refl, refl) (refl, refl, refl) refl refl (omega arith) (omega arith) refl tt
