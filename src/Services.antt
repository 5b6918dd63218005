-- ===== src/Services.antt =====
-- utils/kubernetes/pod_service_mapper.py: the services that select the pods of a node.
pub mod Counted
pub mod Events
pub mod Impact
pub mod Members
pub mod Tests
pub mod Valid
use text.Mathlib.Text.{◌==◌ as str_eq}
use sts_agent.Prelude.{
  ℕ, suc, Bool, true, false, not, ◌&&◌, ◌||◌, Option, none, some, String, List, [], ◌∷◌, ◌++◌, map,
  ◌==◌, if◌then◌else◌,
}
use sts_agent.Prelude.Dicts.{lookup, insert, pop}

-- `MAX_403_RETRIES`
abbrev pub max_403_retries : ℕ
max_403_retries = 4

abbrev pub LabelSet : Type 0
LabelSet = List (String × String)

-- A service of the reply, with "" and {} for what it lacks.
pub record Service : Type 0 where
  pub uid : String
  pub name : String
  pub selector : LabelSet

-- What the request for the services does: its items, an HTTPError of status 403, or any other error.
pub data Reply : Type 0 where
  items : List Service → Reply
  forbidden : Reply
  failed : Reply

pub record PodServiceMapper : Type 0 where
  pub service_cache_selectors : List (String × LabelSet)
  pub service_cache_names : List (String × String)
  pub service_cache_invalidated : Bool
  pub pod_labels_cache : List (String × LabelSet)
  pub pod_services_mapping : List (String × List String)
  pub errors_403 : ℕ
  pub disable_403 : Bool

abbrev pub create_mapper : PodServiceMapper
create_mapper = record {
  service_cache_selectors = [];
  service_cache_names = [];
  service_cache_invalidated = true;
  pod_labels_cache = [];
  pod_services_mapping = [];
  errors_403 = 0;
  disable_403 = false;
}

abbrev pub is_empty : {A : Type 0} → List A → Bool
is_empty [] = true
is_empty (x ∷ xs) = false

-- `x in xs`
unfoldable pub has : String → List String → Bool
has x [] = false
has x (y ∷ ys) = str_eq y x || has x ys

abbrev pub has_value : {A : Type 0} → Option A → Bool
has_value none = false
has_value (some a) = true

abbrev pub is_skipped : Service → Bool
is_skipped s = str_eq s.uid "" || is_empty s.selector

unfoldable pub cache_service : Service → PodServiceMapper → PodServiceMapper
cache_service s m = if is_skipped s then m else record m {
  service_cache_names = insert str_eq s.uid s.name m.service_cache_names;
  service_cache_selectors = insert str_eq s.uid s.selector m.service_cache_selectors;
}

unfoldable pub cache_services : List Service → PodServiceMapper → PodServiceMapper
cache_services [] m = m
cache_services (s ∷ services) m = cache_services services (cache_service s m)

abbrev pub without_services : PodServiceMapper → PodServiceMapper
without_services m = record m { service_cache_selectors = []; service_cache_names = [] }

abbrev pub validated : PodServiceMapper → PodServiceMapper
validated m = record m { service_cache_invalidated = false }

abbrev pub count_403 : PodServiceMapper → PodServiceMapper
count_403 m = record m {
  errors_403 = suc m.errors_403;
  disable_403 = if suc m.errors_403 == max_403_retries then true else m.disable_403;
}

abbrev pub filled : Reply → PodServiceMapper → PodServiceMapper
filled (items services) m = validated (cache_services services (without_services m))
filled forbidden m = validated (without_services (count_403 m))
filled failed m = validated (without_services m)

-- `_fill_services_cache`
unfoldable pub fill_services_cache : Reply → PodServiceMapper → PodServiceMapper
fill_services_cache reply m = if m.disable_403 then m else filled reply m

-- The cache is filled if it is invalidated.
abbrev pub refilled : Reply → PodServiceMapper → PodServiceMapper
refilled reply m = if m.service_cache_invalidated then fill_services_cache reply m else m

abbrev pub label_or_empty : Option String → String
label_or_empty none = ""
label_or_empty (some s) = s

unfoldable pub has_labels : LabelSet → LabelSet → Bool
has_labels labels [] = true
has_labels labels ((label, value) ∷ selectors) =
    str_eq (label_or_empty (lookup str_eq label labels)) value && has_labels labels selectors

-- `_does_pod_fulfill_selectors`
unfoldable pub does_pod_fulfill_selectors : LabelSet → LabelSet → Bool
does_pod_fulfill_selectors labels selectors =
    if is_empty labels || is_empty selectors then false else has_labels labels selectors

-- The keys whose value passes a test, in their order.
unfoldable pub keys_with : {W : Type 0} → (W → Bool) → List (String × W) → List String
keys_with p [] = []
keys_with p ((k, w) ∷ d) = let rest = keys_with p d in if p w then k ∷ rest else rest

-- The metadata of a pod; its uid and its labels may be missing.
pub record Pod : Type 0 where
  pub uid : Option String
  pub labels : Option LabelSet

abbrev pub or_no_labels : Option LabelSet → LabelSet
or_no_labels none = []
or_no_labels (some labels) = labels

abbrev pub remember_labels : String → LabelSet → PodServiceMapper → PodServiceMapper
remember_labels pod labels m = record m {
  pod_labels_cache = insert str_eq pod labels m.pod_labels_cache;
}

abbrev pub Matched : Type 0
Matched = PodServiceMapper × List String

-- A pod matched with the services of the cache.
abbrev pub match_cached : String → LabelSet → PodServiceMapper → Matched
match_cached pod labels m =
    let matches = keys_with (does_pod_fulfill_selectors labels) m.service_cache_selectors in
    (record m { pod_services_mapping = insert str_eq pod matches m.pod_services_mapping }, matches)

abbrev pub match_mapped :
    Reply → Bool → String → LabelSet → Option (List String) → PodServiceMapper → Matched
match_mapped reply true pod labels mapped m = match_cached pod labels (refilled reply m)
match_mapped reply false pod labels none m = match_cached pod labels (refilled reply m)
match_mapped reply false pod labels (some matches) m = (m, matches)

abbrev pub match_pod : Reply → Bool → Option String → LabelSet → PodServiceMapper → Matched
match_pod reply refresh none labels m = (m, [])
match_pod reply refresh (some pod) labels m =
    match_mapped reply refresh pod labels (lookup str_eq pod m.pod_services_mapping)
      (remember_labels pod labels m)

-- `match_services_for_pod` with the uids, where the request answers `reply` if it is made.
unfoldable pub match_services_for_pod : Reply → Bool → Pod → PodServiceMapper → Matched
match_services_for_pod reply refresh p m =
    if m.disable_403 then (m, []) else match_pod reply refresh p.uid (or_no_labels p.labels) m

-- `match_services_for_pod` with the names: one that is not in the cache is `none`.
unfoldable pub match_names_for_pod :
    Reply → Bool → Pod → PodServiceMapper → PodServiceMapper × List (Option String)
match_names_for_pod reply refresh p m =
    let matched = match_services_for_pod reply refresh p m in
    (matched.0, map (λ uid. lookup str_eq uid matched.0.service_cache_names) matched.1)

abbrev pub lookup_uid : {W : Type 0} → Option String → List (String × W) → Option W
lookup_uid none d = none
lookup_uid (some uid) d = lookup str_eq uid d

abbrev pub pods_selected : Option LabelSet → PodServiceMapper → List String
pods_selected none m = []
pods_selected (some selectors) m =
    keys_with (λ labels. does_pod_fulfill_selectors labels selectors) m.pod_labels_cache

abbrev pub search_cached : Option String → PodServiceMapper → Matched
search_cached uid m = (m, pods_selected (lookup_uid uid m.service_cache_selectors) m)

unfoldable pub search_pods_for_service : Reply → Option String → PodServiceMapper → Matched
search_pods_for_service reply uid m =
    if m.disable_403 then (m, []) else search_cached uid (refilled reply m)
