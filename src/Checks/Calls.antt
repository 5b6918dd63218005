-- ===== src/Checks/Calls.antt =====
-- checks/__init__.py, class Check: the checks that its calls lead to.
use mathlib.Core.Option.{none-ne-some}
use sts_agent.Prelude.{Bool, Option, none, String, List, [], ◌∷◌}
use sts_agent.Prelude.Dicts.{lookup}
use sts_agent.Aggregator.Number.{Number}
use sts_agent.Checks.{
  Tags, no_tags, Key, Sample, Samples, Check, unknown_value, check_exception, nan, infinity,
  key_error, Result, returned, raised, counter, gauge, save_sample, save_gauge,
  get_sample_with_timestamp,
}
use sts_agent.Checks.Metrics.{
  Metric, tags_of_key, keys_of, get_sample, reported_with, key_metrics, store_metrics, get_metrics,
  with_sample, collect_samples, get_samples_with_timestamps, get_samples,
}
use sts_agent.Checks.Stored.{
  IsStored, counter-IsStored, gauge-IsStored, save_sample-IsStored, save_gauge-IsStored,
  get_sample_with_timestamp-IsStored,
}

abbrev pub new_check : {V : Type 0} → Check V
new_check = record { sample_store = []; counters = [] }

module _ {V : Type 0} (num : Number V) where
  -- A check after any calls, whether they return or raise.
  pub data Reach : Check V → Type 0 where
    created : Reach new_check
    count : (m : String) {c : Check V} → Reach c → Reach (counter m c)
    measure : (m : String) {c : Check V} → Reach c → Reach (gauge m c)
    save :
        (m : String) (value timestamp : Option V) (now : V) (tags : Tags)
        (hostname device : Option String) {c : Check V}
        → Reach c
        → Reach (save_sample m value timestamp now tags hostname device c).0
    save_measure :
        (m : String) (value timestamp : Option V) (now : V) (tags : Tags)
        (hostname device : Option String) {c : Check V}
        → Reach c
        → Reach (save_gauge m value timestamp now tags hostname device c).0
    ask :
        (expire : Bool) (m : String) (tags : Tags) (device : Option String) {c : Check V}
        → Reach c
        → Reach (get_sample_with_timestamp num expire m tags device c).0
    ask_value :
        (expire : Bool) (m : String) (tags : Tags) (device : Option String) {c : Check V}
        → Reach c
        → Reach (get_sample num expire m tags device c).0
    ask_untagged :
        (expire : Bool) {c : Check V} → Reach c → Reach (get_samples_with_timestamps num expire c).0
    ask_values : (expire : Bool) {c : Check V} → Reach c → Reach (get_samples num expire c).0
    ask_all : (expire : Bool) {c : Check V} → Reach c → Reach (get_metrics num expire c).0

  get_sample-IsStored :
      (expire : Bool) (m : String) (tags : Tags) (device : Option String) (c : Check V)
      → IsStored c
      → IsStored (get_sample num expire m tags device c).0
  unfolding get_sample
  get_sample-IsStored = get_sample_with_timestamp-IsStored num

  collect_samples-IsStored :
      {A : Type 0} (get : String → Check V → Check V × Result A)
      → ((m : String) (c : Check V) → IsStored c → IsStored (get m c).0)
      → (store : List (String × Samples V)) (values : List (String × A)) (c : Check V) → IsStored c
      → IsStored (collect_samples num get store values c).0
  unfolding collect_samples
  collect_samples-IsStored get keep [] values c h = h
  collect_samples-IsStored get keep ((m, samples) ∷ store) values c h =
      collect_samples-IsStored get keep store (with_sample num m (get m c).1 values) (get m c).0
        (keep m c h)

  -- The check after a run of keys is that after the rest of them, or that after the first.
  pub reported_with_state :
      (P : Check V → Type 0) (m : String) (tags : Option (List String)) (r : Result (Sample V))
      (rest : Check V × List (Metric V)) (c : Check V)
      → P rest.0
      → P c
      → P (reported_with num m tags r rest c).0
  reported_with_state P m tags (returned s) rest c h k = h
  reported_with_state P m tags (raised unknown_value) rest c h k = h
  reported_with_state P m tags (raised check_exception) rest c h k = k
  reported_with_state P m tags (raised nan) rest c h k = k
  reported_with_state P m tags (raised infinity) rest c h k = k
  reported_with_state P m tags (raised key_error) rest c h k = k

  key_metrics-IsStored :
      (expire : Bool) (m : String) (keys : List Key) (c : Check V)
      → IsStored c
      → IsStored (key_metrics num expire m keys c).0
  unfolding key_metrics
  key_metrics-IsStored expire m [] c h = h
  key_metrics-IsStored expire m ((tags, device) ∷ keys) c h =
      let got = get_sample_with_timestamp num expire m (tags_of_key tags) device c in
      let kept = get_sample_with_timestamp-IsStored num expire m (tags_of_key tags) device c h in
      reported_with_state IsStored m tags got.1 (key_metrics num expire m keys got.0) got.0
        (key_metrics-IsStored expire m keys got.0 kept) kept

  store_metrics-IsStored :
      (expire : Bool) (store : List (String × Samples V)) (c : Check V)
      → IsStored c
      → IsStored (store_metrics num expire store c).0
  unfolding store_metrics
  store_metrics-IsStored expire [] c h = h
  store_metrics-IsStored expire ((m, samples) ∷ store) c h =
      let got = key_metrics num expire m (keys_of samples) c in
      store_metrics-IsStored expire store got.0
        (key_metrics-IsStored expire m (keys_of samples) c h)

  -- After any calls on a new check, whether they return or raise, each key of a counter has one or
  -- two samples, and each key of a metric that is no counter has exactly one: the assertions at the
  -- end of save_sample hold.
  pub Reach-IsStored : {c : Check V} → Reach c → IsStored c
  unfolding lookup get_metrics get_samples get_samples_with_timestamps
  Reach-IsStored created = λ m samples h. absurd (none-ne-some samples h)
  Reach-IsStored (count m r) = counter-IsStored m _ (Reach-IsStored r)
  Reach-IsStored (measure m r) = gauge-IsStored m _ (Reach-IsStored r)
  Reach-IsStored (save m v t now tags host d r) =
      save_sample-IsStored m v t now tags host d _ (Reach-IsStored r)
  Reach-IsStored (save_measure m v t now tags host d r) =
      save_gauge-IsStored m v t now tags host d _ (Reach-IsStored r)
  Reach-IsStored (ask expire m tags d r) =
      get_sample_with_timestamp-IsStored num expire m tags d _ (Reach-IsStored r)
  Reach-IsStored (ask_value expire m tags d r) =
      get_sample-IsStored expire m tags d _ (Reach-IsStored r)
  Reach-IsStored (ask_untagged expire {c} r) =
      collect_samples-IsStored (λ m. get_sample_with_timestamp num expire m no_tags none)
        (λ m. get_sample_with_timestamp-IsStored num expire m no_tags none) c.sample_store [] c
        (Reach-IsStored r)
  Reach-IsStored (ask_values expire {c} r) =
      collect_samples-IsStored (λ m. get_sample num expire m no_tags none)
        (λ m. get_sample-IsStored expire m no_tags none) c.sample_store [] c (Reach-IsStored r)
  Reach-IsStored (ask_all expire {c} r) =
      store_metrics-IsStored expire c.sample_store c (Reach-IsStored r)
