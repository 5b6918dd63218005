-- ===== src/Services/Events.antt =====
-- utils/kubernetes/pod_service_mapper.py, process_events: what the events of the cluster change.
use text.Mathlib.Text.{◌==◌ as str_eq}
use sts_agent.Prelude.{
  Bool, true, false, ◌&&◌, ◌||◌, Option, none, some, String, List, [], ◌∷◌, ◌++◌, if◌then◌else◌,
}
use sts_agent.Prelude.Dicts.{lookup, insert, pop}
use sts_agent.Services.{Reply, PodServiceMapper, has, keys_with, search_pods_for_service}

pub record Event : Type 0 where
  pub kind : Option String
  pub reason : Option String
  pub uid : Option String

-- The mapper, and the local variables of the loop; a set is a list in the order of its additions.
pub record Processed : Type 0 where
  pub mapper : PodServiceMapper
  pub pod_uids : List String
  pub service_cache_checked : Bool

abbrev pub is : Option String → String → Bool
is none s = false
is (some r) s = str_eq r s

-- `pod_uids.add(pod)`
abbrev pub add : String → List String → List String
add pod pods = if has pod pods then pods else pods ++ pod ∷ []

unfoldable pub add_all : List String → List String → List String
add_all [] pods = pods
add_all (pod ∷ more) pods = add_all more (add pod pods)

abbrev pub forget_pod : Option String → PodServiceMapper → PodServiceMapper
forget_pod none m = m
forget_pod (some pod) m = record m {
  pod_labels_cache = pop str_eq pod m.pod_labels_cache;
  pod_services_mapping = pop str_eq pod m.pod_services_mapping;
}

-- `services.remove(uid)` if it is there.
unfoldable pub remove_uid : String → List String → List String
remove_uid uid [] = []
remove_uid uid (u ∷ us) = let rest = remove_uid uid us in if str_eq u uid then us else u ∷ rest

unfoldable pub remove_from_all : String → List (String × List String) → List (String × List String)
remove_from_all uid [] = []
remove_from_all uid ((pod, services) ∷ d) = (pod, remove_uid uid services) ∷ remove_from_all uid d

-- DeletedLoadBalancer
abbrev pub service_deleted : Option String → Processed → Processed
service_deleted none s = s
service_deleted (some uid) s = record s {
  mapper = record s.mapper {
    pod_services_mapping = remove_from_all uid s.mapper.pod_services_mapping;
  };
  pod_uids = add_all (keys_with (has uid) s.mapper.pod_services_mapping) s.pod_uids;
}

abbrev pub add_service : String → String → Option (List String) → Processed → Processed
add_service uid pod none s = s
add_service uid pod (some services) s = if has uid services then s else record s {
  mapper = record s.mapper {
    pod_services_mapping = insert str_eq pod (services ++ uid ∷ []) s.mapper.pod_services_mapping;
  };
  pod_uids = add pod s.pod_uids;
}

unfoldable pub add_to_pods : String → List String → Processed → Processed
add_to_pods uid [] s = s
add_to_pods uid (pod ∷ pods) s =
    add_to_pods uid pods (add_service uid pod (lookup str_eq pod s.mapper.pod_services_mapping) s)

abbrev pub add_found : Option String → PodServiceMapper × List String → Processed → Processed
add_found none (m, pods) s = record s { mapper = m }
add_found (some uid) (m, pods) s = add_to_pods uid pods (record s { mapper = m })

-- CreatedLoadBalancer and UpdatedLoadBalancer
abbrev pub service_updated : Reply → Option String → Processed → Processed
service_updated reply uid s = add_found uid (search_pods_for_service reply uid s.mapper) s

-- The first event of a service invalidates the cache.
abbrev pub invalidated : Processed → Processed
invalidated s = if s.service_cache_checked then s else record s {
  mapper = record s.mapper { service_cache_invalidated = true };
  service_cache_checked = true;
}

abbrev pub service_event : Reply → Event → Processed → Processed
service_event reply e s =
    if is e.reason "DeletedLoadBalancer"
    then service_deleted e.uid s
    else if is e.reason "CreatedLoadBalancer" || is e.reason "UpdatedLoadBalancer"
    then service_updated reply e.uid s
    else s

unfoldable pub process_event : Reply → Event → Processed → Processed
process_event reply e s =
    if is e.kind "Pod" && is e.reason "Killing"
    then record s { mapper = forget_pod e.uid s.mapper }
    else if is e.kind "Service"
    then service_event reply e (invalidated s)
    else s

-- Each event comes with what the request answers if it is made for it.
unfoldable pub process_all : List (Event × Reply) → Processed → Processed
process_all [] s = s
process_all ((e, reply) ∷ events) s = process_all events (process_event reply e s)

abbrev pub start_events : PodServiceMapper → Processed
start_events m = record { mapper = m; pod_uids = []; service_cache_checked = false }

unfoldable pub process_events :
    List (Event × Reply) → PodServiceMapper → PodServiceMapper × List String
process_events events m =
    if m.disable_403
    then (m, [])
    else let s = process_all events (start_events m) in (s.mapper, s.pod_uids)
