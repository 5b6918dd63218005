-- ===== src/Services/Counted.antt =====
-- utils/kubernetes/pod_service_mapper.py: the mappers that the calls lead to.
use text.Mathlib.Text.{◌==◌ as str_eq}
use text.Mathlib.TextEquality.{eq_iff}
use mathlib.Core.Option.{none-ne-some}
use sts_agent.Prelude.{
  suc, ◌<◌, Bool, true, false, ◌||◌, Option, none, some, String, List, [], ◌∷◌, ◌==◌, ==_iff, ◌≡◌,
  ◌⊎◌, inl, inr, refl, ap, ◌∙◌, if_cases, Bool-cases, arith,
}
use sts_agent.Prelude.Dicts.{lookup, insert, lookup-insert, lookup-insert_other}
use sts_agent.Prelude.Dicts.Gather.{insert-lookup}
use sts_agent.Services.{
  LabelSet, Reply, items, forbidden, failed, Service, Pod, PodServiceMapper, create_mapper,
  is_empty, has_value, refilled, filled, max_403_retries, count_403, fill_services_cache,
  cache_service, cache_services, without_services, is_skipped, remember_labels, or_no_labels,
  match_pod, match_mapped, match_services_for_pod, match_names_for_pod, search_cached,
  search_pods_for_service,
}
use sts_agent.Services.Events.{Event, process_events}

-- A mapper after any calls.
pub data Reach : PodServiceMapper → Type 0 where
  created : Reach create_mapper
  matched :
      (reply : Reply) (refresh : Bool) (p : Pod) {m : PodServiceMapper}
      → Reach m
      → Reach (match_services_for_pod reply refresh p m).0
  named :
      (reply : Reply) (refresh : Bool) (p : Pod) {m : PodServiceMapper}
      → Reach m
      → Reach (match_names_for_pod reply refresh p m).0
  searched :
      (reply : Reply) (uid : Option String) {m : PodServiceMapper}
      → Reach m
      → Reach (search_pods_for_service reply uid m).0
  processed :
      (events : List (Event × Reply)) {m : PodServiceMapper}
      → Reach m
      → Reach (process_events events m).0

-- Four answers of status 403 disable the mapper, and nothing else does.
abbrev pub IsCounted : PodServiceMapper → Type 0
IsCounted m =
    ((m.disable_403 ≡ true) × (m.errors_403 ≡ max_403_retries))
    ⊎ ((m.disable_403 ≡ false) × (m.errors_403 < max_403_retries))

-- A service with a selector has an uid, a selector that is not empty, and a name.
abbrev pub IsNamed : PodServiceMapper → Type 0
IsNamed m =
    (uid : String) (selector : LabelSet)
    → lookup str_eq uid m.service_cache_selectors ≡ some selector
    → (str_eq uid "" ≡ false)
      × (is_empty selector ≡ false)
      × (has_value (lookup str_eq uid m.service_cache_names) ≡ true)

abbrev pub IsValid : PodServiceMapper → Type 0
IsValid m = IsCounted m × IsNamed m

or_false : (a b : Bool) → a || b ≡ false → (a ≡ false) × (b ≡ false)
or_false a b h = ground arith

cache_service-IsNamed :
    (s : Service) (m : PodServiceMapper) → IsNamed m → IsNamed (cache_service s m)
unfolding cache_service
cache_service-IsNamed s m h =
    let names = insert str_eq s.uid s.name m.service_cache_names in
    if_cases IsNamed (is_skipped s) m
      (record m {
        service_cache_names = names;
        service_cache_selectors = insert str_eq s.uid s.selector m.service_cache_selectors;
      })
      (λ e. h)
      (λ e.
        let (uid, selector) = or_false (str_eq s.uid "") (is_empty s.selector) e in
        insert-lookup str_eq eq_iff
          (λ u l.
            (str_eq u "" ≡ false)
            × (is_empty l ≡ false)
            × (has_value (lookup str_eq u names) ≡ true))
          s.uid s.selector m.service_cache_selectors
          (
            uid,
            selector,
            ap has_value (lookup-insert str_eq eq_iff s.uid s.name m.service_cache_names),
          )
          (λ u l other k.
            let (a, b, c) = h u l k in
            (
              a,
              b,
              ap has_value
                    (lookup-insert_other str_eq eq_iff u s.uid s.name m.service_cache_names other)
                  ∙ c,
            )))

cache_service-IsCounted :
    (s : Service) (m : PodServiceMapper) → IsCounted m → IsCounted (cache_service s m)
unfolding cache_service
cache_service-IsCounted s m h =
    if_cases IsCounted (is_skipped s) m
      (record m {
        service_cache_names = insert str_eq s.uid s.name m.service_cache_names;
        service_cache_selectors = insert str_eq s.uid s.selector m.service_cache_selectors;
      })
      (λ e. h) (λ e. h)

cache_services-IsValid :
    (services : List Service) (m : PodServiceMapper)
    → IsValid m
    → IsValid (cache_services services m)
unfolding cache_services
cache_services-IsValid [] m h = h
cache_services-IsValid (s ∷ services) m (counts, names) =
    cache_services-IsValid services (cache_service s m)
      (cache_service-IsCounted s m counts, cache_service-IsNamed s m names)

without_services-IsNamed : (m : PodServiceMapper) → IsNamed (without_services m)
unfolding lookup
without_services-IsNamed m = λ uid selector h. absurd (none-ne-some selector h)

count_403-IsCounted :
    (m : PodServiceMapper) → m.disable_403 ≡ false → IsCounted m → IsCounted (count_403 m)
count_403-IsCounted m off (inl h) = absurd (ground arith)
count_403-IsCounted m off (inr (h, below)) = elim (Bool-cases (suc m.errors_403 == 4)) [
  | inl e ↦ rw e (inl (refl, (==_iff (suc m.errors_403) 4).0 e))
  | inr e ↦ rw e (inr (off, ground arith))
]

filled-IsValid :
    (reply : Reply) (m : PodServiceMapper)
    → m.disable_403 ≡ false
    → IsValid m
    → IsValid (filled reply m)
filled-IsValid (items services) m off (counts, names) =
    cache_services-IsValid services (without_services m) (counts, without_services-IsNamed m)
filled-IsValid forbidden m off (counts, names) =
    (count_403-IsCounted m off counts, without_services-IsNamed (count_403 m))
filled-IsValid failed m off (counts, names) = (counts, without_services-IsNamed m)

refilled-IsValid : (reply : Reply) (m : PodServiceMapper) → IsValid m → IsValid (refilled reply m)
unfolding fill_services_cache
refilled-IsValid reply m h =
    if_cases IsValid m.service_cache_invalidated (fill_services_cache reply m) m
      (λ e.
        if_cases IsValid m.disable_403 m (filled reply m) (λ f. h)
          (λ f. filled-IsValid reply m f h))
      (λ e. h)

match_mapped-IsValid :
    (reply : Reply) (refresh : Bool) (pod : String) (labels : LabelSet) (o : Option (List String))
    (m : PodServiceMapper)
    → IsValid m
    → IsValid (match_mapped reply refresh pod labels o m).0
match_mapped-IsValid reply true pod labels o m h = refilled-IsValid reply m h
match_mapped-IsValid reply false pod labels none m h = refilled-IsValid reply m h
match_mapped-IsValid reply false pod labels (some matches) m h = h

match_pod-IsValid :
    (reply : Reply) (refresh : Bool) (uid : Option String) (labels : LabelSet)
    (m : PodServiceMapper)
    → IsValid m
    → IsValid (match_pod reply refresh uid labels m).0
match_pod-IsValid reply refresh none labels m h = h
match_pod-IsValid reply refresh (some pod) labels m h =
    match_mapped-IsValid reply refresh pod labels (lookup str_eq pod m.pod_services_mapping)
      (remember_labels pod labels m) h

pub match_services-IsValid :
    (reply : Reply) (refresh : Bool) (p : Pod) (m : PodServiceMapper)
    → IsValid m
    → IsValid (match_services_for_pod reply refresh p m).0
unfolding match_services_for_pod
match_services-IsValid reply refresh p m h =
    if_cases (λ (r : PodServiceMapper × List String). IsValid r.0) m.disable_403 (m, [])
      (match_pod reply refresh p.uid (or_no_labels p.labels) m) (λ e. h)
      (λ e. match_pod-IsValid reply refresh p.uid (or_no_labels p.labels) m h)

pub search-IsValid :
    (reply : Reply) (uid : Option String) (m : PodServiceMapper)
    → IsValid m
    → IsValid (search_pods_for_service reply uid m).0
unfolding search_pods_for_service
search-IsValid reply uid m h =
    if_cases (λ (r : PodServiceMapper × List String). IsValid r.0) m.disable_403 (m, [])
      (search_cached uid (refilled reply m)) (λ e. h) (λ e. refilled-IsValid reply m h)
