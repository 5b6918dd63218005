-- ===== src/Services/Tests.antt =====
-- utils/kubernetes/pod_service_mapper.py: tests with two pods and two services.
use sts_agent.Prelude.{true, false, some, String, List, [], ◌∷◌, ◌≡◌, refl}
use sts_agent.Prelude.Dicts.{lookup, insert, pop}
use sts_agent.Services.{
  Reply, items, forbidden, failed, Service, Pod, PodServiceMapper, create_mapper, has, keys_with,
  cache_service, cache_services, fill_services_cache, has_labels, does_pod_fulfill_selectors,
  match_services_for_pod, match_names_for_pod, search_pods_for_service,
}
use sts_agent.Services.Events.{
  Event, add_all, remove_uid, remove_from_all, add_to_pods, process_event, process_all,
  process_events,
}
use sts_agent.Services.Impact.{IsUnmoved, process_events-IsUnmoved}
use sts_agent.Services.Counted.{created, matched, processed, IsValid}
use sts_agent.Services.Valid.{Reach-IsValid}

program : Unit {0}
unfolding lookup insert pop has keys_with cache_service cache_services fill_services_cache
    has_labels does_pod_fulfill_selectors match_services_for_pod match_names_for_pod
    search_pods_for_service add_all remove_uid remove_from_all add_to_pods process_event process_all
    process_events
program = tt

abbrev web : Service
web = record { uid = "s1"; name = "web"; selector = ("app", "web") ∷ [] }

abbrev store : Service
store = record { uid = "s2"; name = "store"; selector = ("app", "store") ∷ ("tier", "back") ∷ [] }

abbrev front : Pod
front = record { uid = some "p1"; labels = some (("app", "web") ∷ ("tier", "front") ∷ []) }

abbrev back : Pod
back = record { uid = some "p2"; labels = some (("tier", "back") ∷ ("app", "store") ∷ []) }

abbrev mapped : PodServiceMapper
mapped =
    (match_services_for_pod failed false back
      (match_services_for_pod (items (web ∷ [])) false front create_mapper).0).0

front_services :
    (match_names_for_pod (items (web ∷ store ∷ [])) false front create_mapper).1 ≡ some "web" ∷ []
unfolding program
front_services = refl

abbrev event : String → String → String → Event
event kind reason uid = record { kind = some kind; reason = some reason; uid = some uid }

-- A new service for the second pod, and the end of the service of the first.
abbrev events : List (Event × Reply)
events =
    (event "Service" "CreatedLoadBalancer" "s2", items (web ∷ store ∷ []))
    ∷ (event "Pod" "Killing" "p1", failed)
    ∷ []

back_moves : (process_events events mapped).1 ≡ "p2" ∷ []
unfolding program
back_moves = refl

process_events-IsUnmoved_example : IsUnmoved "p1" mapped (process_events events mapped).0
unfolding program
process_events-IsUnmoved_example = process_events-IsUnmoved events mapped "p1" refl

-- Four refused requests, with an event of a service before each but the first.
abbrev again : List (Event × Reply)
again = (event "Service" "UpdatedLoadBalancer" "s1", forbidden) ∷ []

abbrev refused : PodServiceMapper
refused =
    (process_events again
      (process_events again
        (process_events again
          (match_services_for_pod forbidden false front create_mapper).0).0).0).0

is_disabled :
    (refused.disable_403 ≡ true) × ((match_services_for_pod failed true front refused).1 ≡ [])
unfolding program
is_disabled = (refl, refl)

Reach-IsValid_example : IsValid refused
Reach-IsValid_example =
    Reach-IsValid
      (processed again (processed again (processed again (matched forbidden false front created))))
