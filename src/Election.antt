-- ===== src/Election.antt =====
-- utils/kubernetes/leader_elector.py, class LeaderElector: a lock held as a ConfigMap.
pub mod Lease
pub mod Rounds
pub mod Cluster
pub mod Progress
pub mod Overlap
pub mod Tests
use text.Mathlib.Text.{◌==◌ as str_eq}
use sts_agent.Prelude.{
  ℕ, ◌+◌, ◌*◌, Bool, true, false, Option, none, some, String, leb, if◌then◌else◌,
}

-- Times are microseconds.
abbrev pub second : ℕ
second = 1_000_000

-- `DEFAULT_LEASE_DURATION`
abbrev pub default_lease_duration : ℕ
default_lease_duration = 5 * 60 * second

-- The metadata of the ConfigMap: the two annotations, and the fields that the API server sets.
pub record ConfigMap : Type 0 where
  pub creator : Option String
  pub acquired_time : Option ℕ
  pub resource_version : Option String
  pub self_link : Option String
  pub uid : Option String

-- The elector and what it uses of `kubeutil`. `is_leader` is the truth value of the attribute,
-- which is None after a failed attempt.
pub record Elector : Type 0 where
  pub node_name : String
  pub lease_duration : ℕ
  pub is_leader : Bool
  pub last_acquire_time : Option ℕ

-- The ConfigMap that the API server has, if any, and one elector.
pub record World : Type 0 where
  pub cm : Option ConfigMap
  pub elector : Elector

-- How a request ends: it is carried out, or the exception has a response, or it has none, as when
-- the connection fails, or when it is lost after the server has carried out the request.
pub data Fault : Type 0 where
  passes : Fault
  refused : Fault
  no_response : Fault
  lost : Fault

-- The clock readings of one call, in their order, the faults of its requests, and what the API
-- server stores for a payload.
pub record Outside : Type 0 where
  pub checked : ℕ
  pub compared : ℕ
  pub stamped : ℕ
  pub get : Fault
  pub delete : Fault
  pub post : Fault
  pub put : Fault
  pub stored : ConfigMap → ConfigMap

-- What `_get_cm` gives.
pub data Fetched : Type 0 where
  raised : Fetched
  nothing : Fetched
  found : ConfigMap → Fetched

-- `kubeutil.leader_lease_duration or DEFAULT_LEASE_DURATION`
unfoldable pub create_elector : String → Option ℕ → Elector
create_elector node_name lease = record {
  node_name = node_name;
  lease_duration = elim lease [
    | none ↦ default_lease_duration
    | some d ↦ if leb d 0 then default_lease_duration else d
  ];
  is_leader = false;
  last_acquire_time = none;
}

abbrev set_acquired : World → ℕ → World
set_acquired w t = record w { elector = record w.elector { last_acquire_time = some t } }

-- `strptime` of a missing annotation raises.
abbrev pub fetched : World → ConfigMap → Option ℕ → World × Fetched
fetched w c none = (w, raised)
fetched w c (some t) = (set_acquired w t, found c)

abbrev pub answered : World → Option ConfigMap → World × Fetched
answered w none = (w, nothing)
answered w (some c) = fetched w c c.acquired_time

-- `_get_cm`: an error with a response is taken for a missing map.
unfoldable pub get_cm : Fault → World → World × Fetched
get_cm no_response w = (w, raised)
get_cm lost w = (w, raised)
get_cm refused w = (w, nothing)
get_cm passes w = answered w w.cm

-- `_is_lock_expired`
abbrev pub expired_at : ℕ → ℕ → Option ℕ → Bool
expired_at lease now none = true
expired_at lease now (some t) = leb (t + lease) now

unfoldable pub is_lock_expired : ℕ → Elector → ConfigMap → Bool
is_lock_expired now e c = expired_at e.lease_duration now c.acquired_time

-- `_is_cm_mine`
abbrev pub created_by : String → Option String → Bool
created_by name none = false
created_by name (some creator) = str_eq creator name

unfoldable pub is_cm_mine : Elector → ConfigMap → Bool
is_cm_mine e c = created_by e.node_name c.creator

-- `_build_create_cm_payload`
abbrev pub create_payload : ℕ → Elector → ConfigMap
create_payload now e = record {
  creator = some e.node_name;
  acquired_time = some now;
  resource_version = none;
  self_link = none;
  uid = none;
}

-- `_build_update_cm_payload`; `del` raises where a field is missing.
abbrev pub update_payload :
    ℕ → ConfigMap → Option String → Option String → Option String → Option ConfigMap
update_payload now c (some version) (some link) (some uid) =
    some
      (record c { acquired_time = some now; resource_version = none; self_link = none; uid = none })
update_payload now c _ _ _ = none

unfoldable pub build_update_cm_payload : ℕ → ConfigMap → Option ConfigMap
build_update_cm_payload now c = update_payload now c c.resource_version c.self_link c.uid

-- The request `DELETE`, and whether the call goes on. A map that is gone counts as deleted.
abbrev pub deleted : Fault → World → World × Bool
deleted passes w = (record w { cm = none }, true)
deleted refused w = (w, false)
deleted no_response w = (w, false)
deleted lost w = (record w { cm = none }, false)

abbrev pub delete_found : Fault → World → Fetched → World × Bool
delete_found fault w (found c) = deleted fault w
delete_found fault w nothing = (w, true)
delete_found fault w raised = (w, true)

abbrev pub put_cm : Outside → World → ConfigMap → World
put_cm o w c = record w { cm = some (o.stored c) }

-- The request `POST`: it conflicts with a map that is there.
abbrev pub posted : Outside → Fault → World → Option ConfigMap → World × Bool
posted o passes w none =
    (set_acquired (put_cm o w (create_payload o.stamped w.elector)) o.stamped, true)
posted o lost w none = (put_cm o w (create_payload o.stamped w.elector), false)
posted o refused w none = (w, false)
posted o no_response w none = (w, false)
posted o fault w (some c) = (w, false)

abbrev pub post_lock : Outside → World × Bool → World × Bool
post_lock o (w, false) = (w, false)
post_lock o (w, true) = posted o o.post w w.cm

-- `_try_lock_cm`
unfoldable pub try_lock_cm : Outside → World → Fetched → World × Bool
try_lock_cm o w cm = post_lock o (delete_found o.delete w cm)

-- The request `PUT`.
abbrev pub put_update : Outside → Fault → World → Option ConfigMap → World × Bool
put_update o passes w (some c) = (set_acquired (put_cm o w c) o.stamped, true)
put_update o lost w (some c) = (put_cm o w c, false)
put_update o refused w (some c) = (w, false)
put_update o no_response w (some c) = (w, false)
put_update o fault w none = (w, false)

-- `_try_refresh_cm`
unfoldable pub try_refresh_cm : Outside → World → ConfigMap → World × Bool
try_refresh_cm o w c = put_update o o.put w (build_update_cm_payload o.stamped c)

-- What `_try_acquire` and `_try_refresh` do with what they fetched.
unfoldable pub acquire_fetched : Outside → World × Fetched → World × Bool
acquire_fetched o (w, raised) = (w, false)
acquire_fetched o (w, nothing) = try_lock_cm o w nothing
acquire_fetched o (w, found c) =
    if is_lock_expired o.compared w.elector c
    then try_lock_cm o w (found c)
    else (w, is_cm_mine w.elector c)

unfoldable pub refresh_fetched : Outside → World × Fetched → World × Bool
refresh_fetched o (w, raised) = (w, false)
refresh_fetched o (w, nothing) = try_lock_cm o w nothing
refresh_fetched o (w, found c) =
    if is_lock_expired o.compared w.elector c
    then try_lock_cm o w (found c)
    else if is_cm_mine w.elector c
    then try_refresh_cm o w c
    else (w, false)

unfoldable pub try_acquire : Outside → World → World × Bool
try_acquire o w = acquire_fetched o (get_cm o.get w)

unfoldable pub try_refresh : Outside → World → World × Bool
try_refresh o w = refresh_fetched o (get_cm o.get w)

abbrev pub set_leader : World × Bool → World
set_leader (w, b) = record w { elector = record w.elector { is_leader = b } }

-- `expiry_time and expiry_time - timedelta(seconds=30) <= utcnow()`
abbrev pub needs_refresh : ℕ → ℕ → Option ℕ → Bool
needs_refresh lease now none = false
needs_refresh lease now (some t) = leb (t + lease) (now + 30 * second)

-- `not expiry_time or expiry_time <= utcnow()`
abbrev pub may_acquire : ℕ → ℕ → Option ℕ → Bool
may_acquire lease now none = true
may_acquire lease now (some t) = leb (t + lease) now

-- `try_acquire_or_refresh`
unfoldable pub try_acquire_or_refresh : Outside → World → World
try_acquire_or_refresh o w =
    let e = w.elector in
    if e.is_leader
    then if needs_refresh e.lease_duration o.checked e.last_acquire_time
      then set_leader (try_refresh o w)
      else w
    else if may_acquire e.lease_duration o.checked e.last_acquire_time
    then set_leader (try_acquire o w)
    else w
