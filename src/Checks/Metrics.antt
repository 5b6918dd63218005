-- ===== src/Checks/Metrics.antt =====
-- checks/__init__.py, class Check: the loops over all metrics of a check.
use text.Mathlib.Text.{◌==◌ as str_eq}
use sts_agent.Prelude.{Bool, Option, none, some, String, List, [], ◌∷◌, ◌++◌, ℤ, if◌then◌else◌}
use sts_agent.Prelude.Dicts.{insert}
use sts_agent.Aggregator.Number.{Number}
use sts_agent.Checks.{
  Tags, no_tags, tupled, Key, Sample, Samples, Check, unknown_value, Result, returned, raised,
  get_sample_with_timestamp,
}

-- The attributes of a metric, which has those that Python takes as true.
pub record Attributes : Type 0 where
  pub tags : Option (List String)
  pub host_name : Option String
  pub device_name : Option String

pub record Metric (V : Type 0) : Type 0 where
  pub metric : String
  pub timestamp : ℤ
  pub value : V
  pub attributes : Attributes

abbrev pub true_tags : Option (List String) → Option (List String)
true_tags none = none
true_tags (some []) = none
true_tags (some (t ∷ ts)) = some (t ∷ ts)

abbrev pub true_text : Option String → Option String
true_text none = none
true_text (some s) = if str_eq s "" then none else some s

-- The tuple of a key as an argument of `get_sample_with_timestamp`.
abbrev pub tags_of_key : Option (List String) → Tags
tags_of_key none = no_tags
tags_of_key (some ts) = tupled ts

-- `sample[1]`
abbrev pub sample_value : {V : Type 0} → Result (Sample V) → Result V
sample_value (returned s) = returned s.value
sample_value (raised e) = raised e

abbrev pub keys_of : {W : Type 0} → List (Key × W) → List Key
keys_of [] = []
keys_of ((key, w) ∷ d) = key ∷ keys_of d

module _ {V : Type 0} (num : Number V) where
  unfoldable pub get_sample : Bool → String → Tags → Option String → Check V → Check V × Result V
  get_sample expire m tags device c =
      let got = get_sample_with_timestamp num expire m tags device c in (got.0, sample_value got.1)

  abbrev pub reported : String → Option (List String) → Sample V → Metric V
  reported m tags s = record {
    metric = m;
    timestamp = num.int s.timestamp;
    value = s.value;
    attributes = record {
      tags = true_tags tags;
      host_name = true_text s.hostname;
      device_name = true_text s.device_name;
    };
  }

  -- The metrics of a run of keys: an unknown value is skipped, any other error ends the run.
  abbrev pub reported_with :
      String
      → Option (List String)
      → Result (Sample V)
      → Check V × List (Metric V)
      → Check V
      → Check V × List (Metric V)
  reported_with m tags (returned s) rest c = (rest.0, reported m tags s ∷ rest.1)
  reported_with m tags (raised unknown_value) rest c = rest
  reported_with m tags (raised _) rest c = (c, [])

  unfoldable pub key_metrics : Bool → String → List Key → Check V → Check V × List (Metric V)
  key_metrics expire m [] c = (c, [])
  key_metrics expire m ((tags, device) ∷ keys) c =
      let got = get_sample_with_timestamp num expire m (tags_of_key tags) device c in
      reported_with m tags got.1 (key_metrics expire m keys got.0) got.0

  unfoldable pub store_metrics :
      Bool → List (String × Samples V) → Check V → Check V × List (Metric V)
  store_metrics expire [] c = (c, [])
  store_metrics expire ((m, samples) ∷ store) c =
      let got = key_metrics expire m (keys_of samples) c in
      let rest = store_metrics expire store got.0 in (rest.0, got.1 ++ rest.1)

  unfoldable pub get_metrics : Bool → Check V → Check V × List (Metric V)
  get_metrics expire c = store_metrics expire c.sample_store c

  abbrev pub with_sample : {A : Type 0} → String → Result A → List (String × A) → List (String × A)
  with_sample m (returned a) values = insert str_eq m a values
  with_sample m (raised e) values = values

  unfoldable pub collect_samples :
      {A : Type 0}
      → (String → Check V → Check V × Result A)
      → List (String × Samples V)
      → List (String × A)
      → Check V
      → Check V × List (String × A)
  collect_samples get [] values c = (c, values)
  collect_samples get ((m, samples) ∷ store) values c =
      let got = get m c in collect_samples get store (with_sample m got.1 values) got.0

  unfoldable pub get_samples_with_timestamps : Bool → Check V → Check V × List (String × Sample V)
  get_samples_with_timestamps expire c =
      collect_samples (λ m. get_sample_with_timestamp num expire m no_tags none) c.sample_store [] c

  unfoldable pub get_samples : Bool → Check V → Check V × List (String × V)
  get_samples expire c = collect_samples (λ m. get_sample expire m no_tags none) c.sample_store [] c
