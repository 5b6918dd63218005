-- ===== src/Aggregator/Metrics.antt =====
-- aggregator.py, class MetricsAggregator: one metric for each context.
pub mod Complete
use text.Mathlib.Text.{◌==◌ as str_eq}
use sts_agent.Prelude.{
  ℕ, ◌+◌, not, ◌&&◌, Option, none, some, List, [], ◌∷◌, ◌++◌, String, if◌then◌else◌,
}
use sts_agent.Prelude.Dicts.{lookup, insert}
use sts_agent.Aggregator.Number.{Number, unit}
use sts_agent.Aggregator.Metric.{Class, Metric, create, sample}
use sts_agent.Aggregator.Metric.Point.{key_error, zero_division, Result, returned, raised, Point}
use sts_agent.Aggregator.Metric.Flush.{flush as flush_metric}
use sts_agent.Aggregator.State.{Context, same, Config, Submission, context_of, is_old, is_expired}

pub record MetricsAggregator (V : Type 0) : Type 0 where
  pub metrics : List (Context × Metric V)
  pub num_discarded_old_points : ℕ
  pub count : ℕ
  pub total_count : ℕ

-- `metric_type_to_class`
unfoldable pub class_of : String → Option Class
class_of mtype =
    if str_eq mtype "g"
    then some Class.gauge
    else if str_eq mtype "ct"
    then some Class.count
    else if str_eq mtype "ct-c"
    then some Class.monotonic_count
    else if str_eq mtype "c"
    then some Class.counter
    else if str_eq mtype "h"
    then some Class.histogram
    else if str_eq mtype "ms"
    then some Class.histogram
    else if str_eq mtype "s"
    then some Class.set
    else if str_eq mtype "_dd-r"
    then some Class.rate
    else if str_eq mtype "r"
    then some Class.raw
    else none

module _ {V : Type 0} (num : Number V) (cfg : Config V) where
  -- `self.metrics[context].sample(...)` made `sampled`.
  abbrev pub store :
      Context → MetricsAggregator V → Option (Metric V) → Result Unit × MetricsAggregator V
  store context agg none = (raised zero_division, agg)
  store context agg (some sampled) =
      (returned tt, record agg { metrics = insert same context sampled agg.metrics })

  -- The metric is there: its point is discarded or sampled.
  unfoldable pub accept :
      Submission V → ℕ → ℕ → MetricsAggregator V → Metric V → Result Unit × MetricsAggregator V
  accept s cur_time now agg m =
      if not (str_eq s.mtype "r") && is_old cfg s.timestamp cur_time
      then (returned tt, record agg { num_discarded_old_points = agg.num_discarded_old_points + 1 })
      else store (context_of cfg s) agg (sample num s.value s.sample_rate s.timestamp now m)

  abbrev pub register :
      Submission V → ℕ → ℕ → MetricsAggregator V → Option Class → Result Unit × MetricsAggregator V
  register s cur_time now agg none = (raised key_error, agg)
  register s cur_time now agg (some c) =
      let context = context_of cfg s in
      let m = create num c s.name s.tags (some context.hostname) s.device_name in
      accept s cur_time now (record agg { metrics = insert same context m agg.metrics }) m

  abbrev pub submit_to :
      Submission V
      → ℕ
      → ℕ
      → MetricsAggregator V
      → Option (Metric V)
      → Result Unit × MetricsAggregator V
  submit_to s cur_time now agg none = register s cur_time now agg (class_of s.mtype)
  submit_to s cur_time now agg (some m) = accept s cur_time now agg m

  -- `submit_metric` at the time `cur_time`; the metric reads the clock once more, at `now`.
  unfoldable pub submit_metric :
      Submission V → ℕ → ℕ → MetricsAggregator V → Result Unit × MetricsAggregator V
  submit_metric s cur_time now agg =
      submit_to s cur_time now agg (lookup same (context_of cfg s) agg.metrics)

  -- What is left of the dictionary, and the points; an exception ends the loop.
  abbrev pub flush_rest :
      Context
      → Result (List (Point V)) × Metric V
      → List (Context × Metric V)
      → List (Context × Metric V) × Result (List (Point V))
      → List (Context × Metric V) × Result (List (Point V))
  flush_rest context (raised e, m) rest after = ((context, m) ∷ rest, raised e)
  flush_rest context (returned points, m) rest (kept, raised e) = ((context, m) ∷ kept, raised e)
  flush_rest context (returned points, m) rest (kept, returned more) =
      ((context, m) ∷ kept, returned (points ++ more))

  unfoldable pub flush_metrics :
      ℕ → List (Context × Metric V) → List (Context × Metric V) × Result (List (Point V))
  flush_metrics timestamp [] = ([], returned [])
  flush_metrics timestamp ((context, m) ∷ rest) =
      let after = flush_metrics timestamp rest in
      if is_expired cfg timestamp m.last_sample_time
      then after
      else flush_rest context (flush_metric num cfg.setting timestamp cfg.interval m) rest after

  abbrev pub finish :
      MetricsAggregator V
      → List (Context × Metric V) × Result (List (Point V))
      → Result (List (Point V)) × MetricsAggregator V
  finish agg (kept, raised e) = (raised e, record agg { metrics = kept })
  finish agg (kept, returned points) = (
    returned points,
    record {
      metrics = kept;
      num_discarded_old_points = 0;
      count = 0;
      total_count = agg.total_count + agg.count;
    },
  )

  unfoldable pub flush : ℕ → MetricsAggregator V → Result (List (Point V)) × MetricsAggregator V
  flush timestamp agg = finish agg (flush_metrics timestamp agg.metrics)

-- The methods that a check calls: each submits with its own type.
module _ {V : Type 0} (num : Number V) (name : String) (value : V) (tags : Option (List String))
    (hostname device_name : Option String) where
  abbrev submission : String → Option ℕ → Submission V
  submission mtype timestamp = record {
    name = name;
    value = value;
    mtype = mtype;
    tags = tags;
    hostname = hostname;
    device_name = device_name;
    timestamp = timestamp;
    sample_rate = unit num;
  }

  abbrev pub raw : Option ℕ → Submission V
  raw timestamp = submission "r" timestamp

  abbrev pub gauge : Option ℕ → Submission V
  gauge timestamp = submission "g" timestamp

  -- `increment` and `decrement`, whose values are 1 and -1 by default
  abbrev pub increment : Submission V
  increment = submission "c" none

  abbrev pub rate : Submission V
  rate = submission "_dd-r" none

  abbrev pub submit_count : Submission V
  submit_count = submission "ct" none

  abbrev pub count_from_counter : Submission V
  count_from_counter = submission "ct-c" none

  abbrev pub histogram : Submission V
  histogram = submission "h" none

  abbrev pub set : Submission V
  set = submission "s" none
