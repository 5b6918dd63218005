-- ===== src/Services/Impact.antt =====
-- utils/kubernetes/pod_service_mapper.py, process_events: the pods that it returns.
use text.Mathlib.Text.{◌==◌ as str_eq}
use text.Mathlib.TextEquality.{eq_iff}
use sts_agent.Prelude.{
  true, false, ◌&&◌, ◌||◌, Option, none, some, String, List, [], ◌∷◌, ◌++◌, if◌then◌else◌, ◌≡◌, ◌⊎◌,
  inl, inr, refl, ap, sym, subst, ◌∙◌, if_cases, Bool-cases, Option-cases,
}
use mathlib.Core.Bool.{true≢false}
use sts_agent.Prelude.Dicts.{lookup, insert, lookup-insert_other, lookup-pop_if}
use sts_agent.Services.{
  Reply, items, forbidden, failed, Service, PodServiceMapper, has, keys_with, refilled, filled,
  fill_services_cache, cache_service, cache_services, without_services, is_skipped, search_cached,
  search_pods_for_service,
}
use sts_agent.Services.Events.{
  Event, Processed, is, add, forget_pod, service_deleted, add_service, add_to_pods, add_found,
  service_updated, invalidated, service_event, process_event, process_all, start_events,
  process_events,
}
use sts_agent.Services.Members.{
  add_all-grows, has-add_all, add-grows, has-add, has-keys_with, remove_from_all-none,
  remove_from_all-other,
}

-- The services of the pod are the same, or the pod is forgotten.
abbrev pub IsUnmoved : String → PodServiceMapper → PodServiceMapper → Type 0
IsUnmoved pod m m' =
    (lookup str_eq pod m'.pod_services_mapping ≡ lookup str_eq pod m.pod_services_mapping)
    ⊎ (lookup str_eq pod m'.pod_services_mapping ≡ none)

IsUnmoved-then :
    (pod : String) (a b c : PodServiceMapper)
    → IsUnmoved pod a b
    → IsUnmoved pod b c
    → IsUnmoved pod a c
IsUnmoved-then pod a b c (inl h) (inl k) = inl (k ∙ h)
IsUnmoved-then pod a b c (inr h) (inl k) = inr (k ∙ h)
IsUnmoved-then pod a b c h (inr k) = inr k

-- The set grows, and a pod that is not in it is unmoved.
abbrev Notes : String → Processed → Processed → Type 0
Notes pod s s' =
    (has pod s.pod_uids ≡ true → has pod s'.pod_uids ≡ true)
    × (has pod s'.pod_uids ≡ false → IsUnmoved pod s.mapper s'.mapper)

Notes-same :
    (pod : String) (s : Processed) (m : PodServiceMapper)
    → m.pod_services_mapping ≡ s.mapper.pod_services_mapping
    → Notes pod s (record s { mapper = m })
Notes-same pod s m h = (λ k. k, λ k. inl (ap (lookup str_eq pod) h))

Notes-then : (pod : String) (a b c : Processed) → Notes pod a b → Notes pod b c → Notes pod a c
Notes-then pod a b c (grows, keeps) (grows', keeps') = (
  λ h. grows' (grows h),
  λ h. elim (Bool-cases (has pod b.pod_uids)) [
    | inl e ↦ absurd (true≢false (sym (grows' e) ∙ h))
    | inr e ↦ IsUnmoved-then pod a.mapper b.mapper c.mapper (keeps e) (keeps' h)
  ],
)

Keeps : PodServiceMapper → PodServiceMapper → Type 0
Keeps m m' = m'.pod_services_mapping ≡ m.pod_services_mapping

cache_services-Keeps :
    (services : List Service) (m : PodServiceMapper) → Keeps m (cache_services services m)
unfolding cache_services cache_service Keeps
cache_services-Keeps [] m = refl
cache_services-Keeps (s ∷ services) m =
    cache_services-Keeps services (cache_service s m)
    ∙ if_cases (Keeps m) (is_skipped s) m
        (record m {
          service_cache_names = insert str_eq s.uid s.name m.service_cache_names;
          service_cache_selectors = insert str_eq s.uid s.selector m.service_cache_selectors;
        })
        (λ e. refl) (λ e. refl)

filled-Keeps : (reply : Reply) (m : PodServiceMapper) → Keeps m (filled reply m)
unfolding Keeps
filled-Keeps (items services) m = cache_services-Keeps services (without_services m)
filled-Keeps forbidden m = refl
filled-Keeps failed m = refl

refilled-Keeps : (reply : Reply) (m : PodServiceMapper) → Keeps m (refilled reply m)
unfolding fill_services_cache Keeps
refilled-Keeps reply m =
    if_cases (Keeps m) m.service_cache_invalidated (fill_services_cache reply m) m
      (λ e.
        if_cases (Keeps m) m.disable_403 m (filled reply m) (λ f. refl) (λ f. filled-Keeps reply m))
      (λ e. refl)

search-Keeps :
    (reply : Reply) (uid : Option String) (m : PodServiceMapper)
    → Keeps m (search_pods_for_service reply uid m).0
unfolding search_pods_for_service Keeps
search-Keeps reply uid m =
    if_cases (λ (r : PodServiceMapper × List String). Keeps m r.0) m.disable_403 (m, [])
      (search_cached uid (refilled reply m)) (λ e. refl) (λ e. refilled-Keeps reply m)

forget_pod-Notes :
    (pod : String) (uid : Option String) (s : Processed)
    → Notes pod s (record s { mapper = forget_pod uid s.mapper })
forget_pod-Notes pod none s = Notes-same pod s s.mapper refl
forget_pod-Notes pod (some k) s = (
  λ h. h,
  λ h.
      let d = s.mapper.pod_services_mapping in
      subst (λ o. (o ≡ lookup str_eq pod d) ⊎ (o ≡ none))
        (sym (lookup-pop_if str_eq eq_iff pod k d))
        (if_cases (λ o. (o ≡ lookup str_eq pod d) ⊎ (o ≡ none)) (str_eq k pod) none
          (lookup str_eq pod d) (λ e. inr refl) (λ e. inl refl)),
)

service_deleted-Notes :
    (pod : String) (uid : Option String) (s : Processed) → Notes pod s (service_deleted uid s)
service_deleted-Notes pod none s = Notes-same pod s s.mapper refl
service_deleted-Notes pod (some uid) s =
    let d = s.mapper.pod_services_mapping in
    (
      add_all-grows pod (keys_with (has uid) d) s.pod_uids,
      λ h. elim (Option-cases (lookup str_eq pod d)) [
        | inl e ↦ inr (remove_from_all-none uid pod d e)
        | inr (us, e) ↦ elim (Bool-cases (has uid us)) [
          | inl f ↦ absurd (
              true≢false (
                sym (
                  has-add_all pod (keys_with (has uid) d) s.pod_uids
                    (has-keys_with (has uid) pod us d e f))
                ∙ h))
          | inr f ↦ inl (remove_from_all-other uid pod us d e f ∙ sym e)
        ]
      ],
    )

-- A pod that is added may get other services.
add-Notes :
    (pod k : String) (services : List String) (s : Processed)
    → Notes pod s (record s {
      mapper = record s.mapper {
        pod_services_mapping = insert str_eq k services s.mapper.pod_services_mapping;
      };
      pod_uids = add k s.pod_uids;
    })
add-Notes pod k services s = (
  add-grows pod k s.pod_uids,
  λ h. elim (Bool-cases (str_eq k pod)) [
    | inl e ↦ absurd (
        true≢false (
          sym (
            subst (λ z. has z (add k s.pod_uids) ≡ true) ((eq_iff k pod).0 e)
              (has-add k s.pod_uids))
          ∙ h))
    | inr e ↦ inl (lookup-insert_other str_eq eq_iff pod k services s.mapper.pod_services_mapping e)
  ],
)

add_service-Notes :
    (pod uid k : String) (o : Option (List String)) (s : Processed)
    → Notes pod s (add_service uid k o s)
add_service-Notes pod uid k none s = Notes-same pod s s.mapper refl
add_service-Notes pod uid k (some services) s =
    if_cases (Notes pod s) (has uid services) s
      (record s {
        mapper = record s.mapper {
          pod_services_mapping =
              insert str_eq k (services ++ uid ∷ []) s.mapper.pod_services_mapping;
        };
        pod_uids = add k s.pod_uids;
      })
      (λ e. Notes-same pod s s.mapper refl) (λ e. add-Notes pod k (services ++ uid ∷ []) s)

add_to_pods-Notes :
    (pod uid : String) (pods : List String) (s : Processed) → Notes pod s (add_to_pods uid pods s)
unfolding add_to_pods
add_to_pods-Notes pod uid [] s = Notes-same pod s s.mapper refl
add_to_pods-Notes pod uid (k ∷ pods) s =
    let o = lookup str_eq k s.mapper.pod_services_mapping in
    Notes-then pod s (add_service uid k o s) (add_to_pods uid pods (add_service uid k o s))
      (add_service-Notes pod uid k o s) (add_to_pods-Notes pod uid pods (add_service uid k o s))

add_found-Notes :
    (pod : String) (uid : Option String) (r : PodServiceMapper × List String) (s : Processed)
    → Keeps s.mapper r.0
    → Notes pod s (add_found uid r s)
unfolding Keeps
add_found-Notes pod none (m, pods) s h = Notes-same pod s m h
add_found-Notes pod (some uid) (m, pods) s h =
    Notes-then pod s (record s { mapper = m }) (add_to_pods uid pods (record s { mapper = m }))
      (Notes-same pod s m h) (add_to_pods-Notes pod uid pods (record s { mapper = m }))

service_event-Notes :
    (pod : String) (reply : Reply) (e : Event) (s : Processed)
    → Notes pod s (service_event reply e s)
service_event-Notes pod reply e s =
    let updated = service_updated reply e.uid s in
    let is_updated = is e.reason "CreatedLoadBalancer" || is e.reason "UpdatedLoadBalancer" in
    if_cases (Notes pod s) (is e.reason "DeletedLoadBalancer") (service_deleted e.uid s)
      (if is_updated then updated else s) (λ h. service_deleted-Notes pod e.uid s)
      (λ h.
        if_cases (Notes pod s) is_updated updated s
          (λ k.
            add_found-Notes pod e.uid (search_pods_for_service reply e.uid s.mapper) s
              (search-Keeps reply e.uid s.mapper))
          (λ k. Notes-same pod s s.mapper refl))

invalidated-Notes : (pod : String) (s : Processed) → Notes pod s (invalidated s)
invalidated-Notes pod s =
    if_cases (Notes pod s) s.service_cache_checked s
      (record s {
        mapper = record s.mapper { service_cache_invalidated = true };
        service_cache_checked = true;
      })
      (λ e. Notes-same pod s s.mapper refl) (λ e. (λ h. h, λ h. inl refl))

process_event-Notes :
    (pod : String) (reply : Reply) (e : Event) (s : Processed)
    → Notes pod s (process_event reply e s)
unfolding process_event
process_event-Notes pod reply e s =
    let changed = service_event reply e (invalidated s) in
    if_cases (Notes pod s) (is e.kind "Pod" && is e.reason "Killing")
      (record s { mapper = forget_pod e.uid s.mapper }) (if is e.kind "Service" then changed else s)
      (λ h. forget_pod-Notes pod e.uid s)
      (λ h.
        if_cases (Notes pod s) (is e.kind "Service") changed s
          (λ k.
            Notes-then pod s (invalidated s) changed (invalidated-Notes pod s)
              (service_event-Notes pod reply e (invalidated s)))
          (λ k. Notes-same pod s s.mapper refl))

process_all-Notes :
    (pod : String) (events : List (Event × Reply)) (s : Processed)
    → Notes pod s (process_all events s)
unfolding process_all
process_all-Notes pod [] s = Notes-same pod s s.mapper refl
process_all-Notes pod ((e, reply) ∷ events) s =
    let t = process_event reply e s in
    Notes-then pod s t (process_all events t) (process_event-Notes pod reply e s)
      (process_all-Notes pod events t)

-- A pod that process_events does not return has the services in the mapping that it had before, or it
-- is not in the mapping any more, whatever the events are and the requests for services answer.
pub process_events-IsUnmoved :
    (events : List (Event × Reply)) (m : PodServiceMapper) (pod : String)
    → has pod (process_events events m).1 ≡ false
    → IsUnmoved pod m (process_events events m).0
unfolding process_events
process_events-IsUnmoved events m pod =
    let s = process_all events (start_events m) in
    if_cases (λ (r : PodServiceMapper × List String). has pod r.1 ≡ false → IsUnmoved pod m r.0)
      m.disable_403 (m, []) (s.mapper, s.pod_uids) (λ e h. inl refl)
      (λ e. (process_all-Notes pod events (start_events m)).1)
