-- ===== src/Services/Valid.antt =====
-- utils/kubernetes/pod_service_mapper.py: the state of the mapper after any calls.
use text.Mathlib.Text.{◌==◌ as str_eq}
use mathlib.Core.Option.{none-ne-some}
use sts_agent.Prelude.{
  true, ◌&&◌, ◌||◌, Option, none, some, String, List, [], ◌∷◌, ◌++◌, if◌then◌else◌, inr, refl,
  if_cases, arith,
}
use sts_agent.Prelude.Dicts.{lookup, insert}
use sts_agent.Services.{Reply, PodServiceMapper, has, match_names_for_pod, search_pods_for_service}
use sts_agent.Services.Events.{
  Event, Processed, is, add, forget_pod, service_deleted, add_service, add_to_pods, add_found,
  service_updated, invalidated, service_event, process_event, process_all, start_events,
  process_events,
}
use sts_agent.Services.Counted.{
  Reach, created, matched, named, searched, processed, IsValid, match_services-IsValid,
  search-IsValid,
}

forget_pod-IsValid :
    (uid : Option String) (m : PodServiceMapper) → IsValid m → IsValid (forget_pod uid m)
forget_pod-IsValid none m h = h
forget_pod-IsValid (some pod) m h = h

service_deleted-IsValid :
    (uid : Option String) (s : Processed)
    → IsValid s.mapper
    → IsValid (service_deleted uid s).mapper
service_deleted-IsValid none s h = h
service_deleted-IsValid (some uid) s h = h

add_service-IsValid :
    (uid pod : String) (o : Option (List String)) (s : Processed)
    → IsValid s.mapper
    → IsValid (add_service uid pod o s).mapper
add_service-IsValid uid pod none s h = h
add_service-IsValid uid pod (some services) s h =
    if_cases (λ (t : Processed). IsValid t.mapper) (has uid services) s
      (record s {
        mapper = record s.mapper {
          pod_services_mapping =
              insert str_eq pod (services ++ uid ∷ []) s.mapper.pod_services_mapping;
        };
        pod_uids = add pod s.pod_uids;
      })
      (λ e. h) (λ e. h)

add_to_pods-IsValid :
    (uid : String) (pods : List String) (s : Processed)
    → IsValid s.mapper
    → IsValid (add_to_pods uid pods s).mapper
unfolding add_to_pods
add_to_pods-IsValid uid [] s h = h
add_to_pods-IsValid uid (pod ∷ pods) s h =
    let o = lookup str_eq pod s.mapper.pod_services_mapping in
    add_to_pods-IsValid uid pods (add_service uid pod o s) (add_service-IsValid uid pod o s h)

add_found-IsValid :
    (uid : Option String) (r : PodServiceMapper × List String) (s : Processed)
    → IsValid r.0
    → IsValid (add_found uid r s).mapper
add_found-IsValid none (m, pods) s h = h
add_found-IsValid (some uid) (m, pods) s h =
    add_to_pods-IsValid uid pods (record s { mapper = m }) h

service_event-IsValid :
    (reply : Reply) (e : Event) (s : Processed)
    → IsValid s.mapper
    → IsValid (service_event reply e s).mapper
service_event-IsValid reply e s h =
    let updated = service_updated reply e.uid s in
    let is_updated = is e.reason "CreatedLoadBalancer" || is e.reason "UpdatedLoadBalancer" in
    if_cases (λ (t : Processed). IsValid t.mapper) (is e.reason "DeletedLoadBalancer")
      (service_deleted e.uid s) (if is_updated then updated else s)
      (λ k. service_deleted-IsValid e.uid s h)
      (λ k.
        if_cases (λ (t : Processed). IsValid t.mapper) is_updated updated s
          (λ u.
            add_found-IsValid e.uid (search_pods_for_service reply e.uid s.mapper) s
              (search-IsValid reply e.uid s.mapper h))
          (λ u. h))

invalidated-IsValid : (s : Processed) → IsValid s.mapper → IsValid (invalidated s).mapper
invalidated-IsValid s h =
    if_cases (λ (t : Processed). IsValid t.mapper) s.service_cache_checked s
      (record s {
        mapper = record s.mapper { service_cache_invalidated = true };
        service_cache_checked = true;
      })
      (λ e. h) (λ e. h)

process_event-IsValid :
    (reply : Reply) (e : Event) (s : Processed)
    → IsValid s.mapper
    → IsValid (process_event reply e s).mapper
unfolding process_event
process_event-IsValid reply e s h =
    let changed = service_event reply e (invalidated s) in
    if_cases (λ (t : Processed). IsValid t.mapper) (is e.kind "Pod" && is e.reason "Killing")
      (record s { mapper = forget_pod e.uid s.mapper }) (if is e.kind "Service" then changed else s)
      (λ k. forget_pod-IsValid e.uid s.mapper h)
      (λ k.
        if_cases (λ (t : Processed). IsValid t.mapper) (is e.kind "Service") changed s
          (λ u. service_event-IsValid reply e (invalidated s) (invalidated-IsValid s h)) (λ u. h))

process_all-IsValid :
    (events : List (Event × Reply)) (s : Processed)
    → IsValid s.mapper
    → IsValid (process_all events s).mapper
unfolding process_all
process_all-IsValid [] s h = h
process_all-IsValid ((e, reply) ∷ events) s h =
    process_all-IsValid events (process_event reply e s) (process_event-IsValid reply e s h)

process_events-IsValid :
    (events : List (Event × Reply)) (m : PodServiceMapper)
    → IsValid m
    → IsValid (process_events events m).0
unfolding process_events
process_events-IsValid events m h =
    let s = process_all events (start_events m) in
    if_cases (λ (r : PodServiceMapper × List String). IsValid r.0) m.disable_403 (m, [])
      (s.mapper, s.pod_uids) (λ e. h) (λ e. process_all-IsValid events (start_events m) h)

-- After any calls of a new mapper, whatever the requests answer: the mapper is disabled if it has
-- counted four answers of status 403, and else it is not and has counted fewer, and every service with
-- a cached selector has an uid, a selector that is not empty and a cached name.
pub Reach-IsValid : {m : PodServiceMapper} → Reach m → IsValid m
unfolding match_names_for_pod lookup
Reach-IsValid created =
    (inr (refl, ground arith), λ uid selector h. absurd (none-ne-some selector h))
Reach-IsValid (matched reply refresh p {m} r) =
    match_services-IsValid reply refresh p m (Reach-IsValid r)
Reach-IsValid (named reply refresh p {m} r) =
    match_services-IsValid reply refresh p m (Reach-IsValid r)
Reach-IsValid (searched reply uid {m} r) = search-IsValid reply uid m (Reach-IsValid r)
Reach-IsValid (processed events {m} r) = process_events-IsValid events m (Reach-IsValid r)
