-- ===== src/Aggregator/Buckets.antt =====
-- aggregator.py, class MetricsBucketAggregator: the metrics of each interval, until it is over.
pub mod Flush
pub mod Closed
pub mod Flushed
pub mod Submit
use text.Mathlib.Text.{◌==◌ as str_eq}
use sts_agent.Prelude.{
  ℕ, ◌+◌, ◌-◌, ◌%◌, Bool, true, false, Option, none, some, List, [], ◌∷◌, String, ◌==◌,
  if◌then◌else◌,
}
use sts_agent.Prelude.Dicts.{lookup, insert}
use sts_agent.Aggregator.Number.{Number}
use sts_agent.Aggregator.Metric.{Class, Metric, create, sample}
use sts_agent.Aggregator.Metric.Point.{
  Error, key_error, zero_division, Result, returned, raised, or_time,
}
use sts_agent.Aggregator.State.{Context, same, Config, Submission, or_else, context_of, is_old}

-- Equality of bucket starts.
abbrev pub same_start : ℕ → ℕ → Bool
same_start a b = a == b

-- While `metric_by_bucket` has the bucket `current_bucket`, `current_mbc` is that entry, the same
-- dictionary. After a flush that deleted the bucket and then raised it is a dictionary of its own: the
-- field here counts only then.
pub record BucketAggregator (V : Type 0) : Type 0 where
  pub metric_by_bucket : List (ℕ × List (Context × Metric V))
  pub last_sample_time_by_context : List (Context × Option ℕ)
  pub current_bucket : Option ℕ
  pub current_mbc : List (Context × Metric V)
  pub last_flush_cutoff_time : ℕ
  pub num_discarded_old_points : ℕ
  pub count : ℕ
  pub total_count : ℕ

-- The constructor.
abbrev pub create_aggregator : {V : Type 0} → BucketAggregator V
create_aggregator = record {
  metric_by_bucket = [];
  last_sample_time_by_context = [];
  current_bucket = none;
  current_mbc = [];
  last_flush_cutoff_time = 0;
  num_discarded_old_points = 0;
  count = 0;
  total_count = 0;
}

-- `metric_type_to_class`
unfoldable pub class_of : String → Option Class
class_of mtype =
    if str_eq mtype "g"
    then some Class.bucket_gauge
    else if str_eq mtype "c"
    then some Class.counter
    else if str_eq mtype "h"
    then some Class.histogram
    else if str_eq mtype "ms"
    then some Class.histogram
    else if str_eq mtype "s"
    then some Class.set
    else if str_eq mtype "r"
    then some Class.raw
    else none

-- `calculate_bucket_start`; where the interval is 0 Python raises.
unfoldable pub calculate_bucket_start : ℕ → ℕ → ℕ
calculate_bucket_start interval timestamp = timestamp - timestamp % interval

abbrev pub is_current : Option ℕ → ℕ → Bool
is_current none start = false
is_current (some current) start = start == current

module _ {V : Type 0} where
  abbrev pub ensure :
      ℕ
      → List (ℕ × List (Context × Metric V))
      → Option (List (Context × Metric V))
      → List (ℕ × List (Context × Metric V))
  ensure start buckets none = insert same_start start [] buckets
  ensure start buckets (some metrics) = buckets

  -- The bucket becomes the current one.
  unfoldable pub open_bucket : ℕ → BucketAggregator V → BucketAggregator V
  open_bucket start agg = if is_current agg.current_bucket start then agg else record agg {
    metric_by_bucket =
        ensure start agg.metric_by_bucket (lookup same_start start agg.metric_by_bucket);
    current_bucket = some start;
  }

  -- The entry of a bucket.
  abbrev pub bucket : ℕ → BucketAggregator V → List (Context × Metric V)
  bucket start agg = or_else (lookup same_start start agg.metric_by_bucket) []

  -- `metric_by_context`, where the bucket `start` is the current one.
  abbrev pub metric_by_context : ℕ → BucketAggregator V → List (Context × Metric V)
  metric_by_context start agg =
      or_else (lookup same_start start agg.metric_by_bucket) agg.current_mbc

  abbrev pub write_to :
      ℕ
      → List (Context × Metric V)
      → BucketAggregator V
      → Option (List (Context × Metric V))
      → BucketAggregator V
  write_to start metrics agg none = record agg { current_mbc = metrics }
  write_to start metrics agg (some old) = record agg {
    metric_by_bucket = insert same_start start metrics agg.metric_by_bucket;
  }

  -- `metric_by_context` was changed to `metrics`.
  abbrev pub write : ℕ → List (Context × Metric V) → BucketAggregator V → BucketAggregator V
  write start metrics agg =
      write_to start metrics agg (lookup same_start start agg.metric_by_bucket)

module _ {V : Type 0} (num : Number V) (cfg : Config V) where
  abbrev pub store :
      ℕ → Context → BucketAggregator V → Option (Metric V) → Result Unit × BucketAggregator V
  store start context agg none = (raised zero_division, agg)
  store start context agg (some sampled) =
      (returned tt, write start (insert same context sampled (metric_by_context start agg)) agg)

  -- `metric_by_context[context].sample(value, sample_rate, timestamp)`
  abbrev pub sample_in :
      ℕ → Submission V → ℕ → ℕ → BucketAggregator V → Metric V → Result Unit × BucketAggregator V
  sample_in start s timestamp now agg m =
      store start (context_of cfg s)
        (write start (insert same (context_of cfg s) m (metric_by_context start agg)) agg)
        (sample num s.value s.sample_rate (some timestamp) now m)

  abbrev pub register :
      ℕ
      → Submission V
      → ℕ
      → ℕ
      → BucketAggregator V
      → Option Class
      → Result Unit × BucketAggregator V
  register start s timestamp now agg none = (raised key_error, agg)
  register start s timestamp now agg (some c) =
      sample_in start s timestamp now agg
        (create num c s.name s.tags (some (context_of cfg s).hostname) s.device_name)

  abbrev pub submit_to :
      ℕ
      → Submission V
      → ℕ
      → ℕ
      → BucketAggregator V
      → Option (Metric V)
      → Result Unit × BucketAggregator V
  submit_to start s timestamp now agg none = register start s timestamp now agg (class_of s.mtype)
  submit_to start s timestamp now agg (some m) =
      store start (context_of cfg s) agg (sample num s.value s.sample_rate (some timestamp) now m)

  -- The point goes to the bucket of its time.
  unfoldable pub submit_at :
      Submission V → ℕ → ℕ → BucketAggregator V → Result Unit × BucketAggregator V
  submit_at s timestamp now agg =
      let start = calculate_bucket_start cfg.interval timestamp in
      let opened = open_bucket start agg in
      submit_to start s timestamp now opened
        (lookup same (context_of cfg s) (metric_by_context start opened))

  -- `submit_metric` at the time `cur_time`; the metric reads the clock once more, at `now`.
  unfoldable pub submit_metric :
      Submission V → ℕ → ℕ → BucketAggregator V → Result Unit × BucketAggregator V
  submit_metric s cur_time now agg =
      if is_old cfg s.timestamp cur_time
      then (returned tt, record agg { num_discarded_old_points = agg.num_discarded_old_points + 1 })
      else if cfg.interval == 0
      then (raised zero_division, agg)
      else submit_at s (or_time s.timestamp cur_time) now agg
