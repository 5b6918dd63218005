-- ===== src/Aggregator/Tests.antt =====
-- Small runs of the metrics and of both aggregators, and the theorems at them.
use sts_agent.Prelude.{
  ℕ, length, ◌+◌, ◌-◌, ◌*◌, ◌/◌, ◌≤◌, none, some, List, [], ◌∷◌, map, ℤ, pos, negsuc, ltb, ◌==◌,
  ==_iff, ◌≡◌, refl, arith,
}
use sts_agent.Prelude.Dicts.{lookup, insert, pop}
use sts_agent.Aggregator.Number.{Number, IsLawful}
use sts_agent.Aggregator.Metric.{Class, Metric, Data, create, sample, sample_data}
use sts_agent.Aggregator.Metric.Point.{
  setting_of, Setting, or_time, raised, overflow, contains_string,
}
use sts_agent.Aggregator.Metric.Histogram.{
  place, median_index, sort_values, insert_value, describe, distribution, sum_and_average, sum,
  sum_from, aggregate_points, aggregators, append_points, percentile_point, percentile_points,
}
use sts_agent.Aggregator.Metric.Median.{IsOrdered, below, below-median_index}
use sts_agent.Aggregator.Metric.Calls.{Call, run, values, increases}
use sts_agent.Aggregator.Metric.Totals.{reported, run-MonotonicCount}
use sts_agent.Aggregator.Metric.Uniques.{window, IsSetOf, run-Set}
use sts_agent.Aggregator.State.{
  Config, Submission, context_of, same, same_strings, same_device, sorted_set, is_old, is_expired,
}
use sts_agent.Aggregator.Metrics.{
  class_of as metric_class, flush_metrics, accept, MetricsAggregator, submit_metric, flush, gauge,
  histogram,
}
use sts_agent.Aggregator.Buckets.{
  BucketAggregator, create_aggregator, calculate_bucket_start, class_of, open_bucket, submit_at,
}
use sts_agent.Aggregator.Buckets.{submit_metric as submit_point}
use sts_agent.Aggregator.Buckets.Flush.{
  flush as flush_points, flush_buckets, flush_bucket, flush_contexts, flush_context, create_empty,
  create_empty_metrics, flush_empty, is_counter,
}
use sts_agent.Prelude.Sorting.{sorted}
use sts_agent.Aggregator.Metric.Flush.{
  flush as flush_metric, flush_data, raw_points, counter_points,
}
use sts_agent.Aggregator.Buckets.Closed.{IsFlushed}
use sts_agent.Aggregator.Buckets.Flushed.{flush-IsFlushed}
use sts_agent.Aggregator.Buckets.Submit.{IsAccepted, submit_metric-IsAccepted}

program : Unit {0}
unfolding lookup insert pop same same_strings same_device sorted_set is_old is_expired or_time
    class_of open_bucket calculate_bucket_start submit_at submit_point sample sample_data
program = tt

-- Natural numbers as values.
abbrev of_int : ℤ → ℕ
of_int (pos n) = n
of_int (negsuc n) = 0

abbrev numbers : Number ℕ
numbers = record {
  of_int = of_int;
  of_float = of_int;
  seconds = λ t. t / 1_000_000;
  add = λ a b. a + b;
  sub = λ a b. a - b;
  mul = λ a b. a * b;
  div = λ a b. a / b;
  overflows = λ a b. ltb 1_000_000_000 a;
  less = ltb;
  equal = λ a b. a == b;
  int = λ v. pos v;
  round = λ v. pos v;
  text = λ i. "0";
}

numbers-IsLawful : IsLawful numbers
numbers-IsLawful = record {
  add_nought = λ v. omega arith;
  add_nought_right = λ v. omega arith;
  add_assoc = λ u v w. omega arith;
  equal_iff = λ u v. ==_iff u v;
}

abbrev setting : Setting ℕ
setting = setting_of (λ p. p) 0 (some ("max" ∷ "count" ∷ [])) none

abbrev config : Config ℕ
config = record {
  hostname = "node";
  interval = 10_000_000;
  expiry_seconds = 300_000_000;
  recent_point_threshold = 3_600_000_000;
  setting = setting;
}

-- Four samples, in three windows.
abbrev calls : List (Call ℕ)
calls =
    Call.sampled 3 1 none 1_000_000
    ∷ Call.sampled 8 1 none 2_000_000
    ∷ Call.flushed 10_000_000
    ∷ Call.sampled 5 1 none 11_000_000
    ∷ Call.flushed 20_000_000
    ∷ Call.sampled 9 1 none 21_000_000
    ∷ []

run-MonotonicCount_example :
    reported numbers (
      run numbers setting 10_000_000 calls
        (create numbers Class.monotonic_count "c" none none none))
    ≡ increases numbers none (values calls)
run-MonotonicCount_example =
    run-MonotonicCount numbers numbers-IsLawful setting (λ p. refl) 10_000_000 calls "c" none none
      none

run-Set_example :
    IsSetOf numbers numbers-IsLawful setting
      (λ p. refl)
      10_000_000
      (window calls [])
      (run numbers setting 10_000_000 calls (create numbers Class.set "s" none none none)).1
run-Set_example =
    run-Set numbers numbers-IsLawful setting (λ p. refl) 10_000_000 calls "s" none none none

abbrev waiting : Submission ℕ
waiting = histogram numbers "queue" 4 (some ("b" ∷ "a" ∷ "b" ∷ [])) none none

abbrev fresh : MetricsAggregator ℕ
fresh = record { metrics = []; num_discarded_old_points = 0; count = 0; total_count = 0 }

-- A bucket with one gauge.
abbrev bucketed : BucketAggregator ℕ
bucketed =
    (submit_point numbers config (gauge numbers "load" 7 none none none none) 12_000_000 12_000_000
      create_aggregator).1

flush-IsFlushed_example :
    IsFlushed
      (calculate_bucket_start 10_000_000 25_000_000)
      bucketed.metric_by_bucket
      (flush_points numbers config 25_000_000 bucketed)
flush-IsFlushed_example = flush-IsFlushed numbers config 25_000_000 bucketed (omega arith)

abbrev load : Submission ℕ
load = gauge numbers "load" 9 none none none (some 13_000_000)

-- The metric of `load` before the point, and after it.
abbrev before : Metric ℕ
before = record {
  name = "load";
  tags = none;
  hostname = some "node";
  device_name = none;
  last_sample_time = some 12_000_000;
  state = Data.bucket_gauge (some 7) (some 12_000_000);
}

abbrev after : Metric ℕ
after = record before {
  last_sample_time = some 14_000_000;
  state = Data.bucket_gauge (some 9) (some 13_000_000);
}

submit_metric-IsAccepted_example :
    IsAccepted 10_000_000
      (context_of config load)
      after
      bucketed
      (submit_point numbers config load 14_000_000 14_000_000 bucketed)
unfolding program
submit_metric-IsAccepted_example =
    submit_metric-IsAccepted numbers config load 14_000_000 14_000_000 bucketed before after
      (omega arith) refl refl refl

overflow_program : Unit {0}
unfolding program flush flush_metrics submit_metric metric_class accept flush_metric flush_data
    raw_points counter_points describe sort_values insert_value distribution median_index
    sum_and_average sum sum_from aggregate_points aggregators append_points percentile_point
    percentile_points place contains_string flush_points flush_buckets flush_bucket flush_contexts
    flush_context create_empty create_empty_metrics flush_empty is_counter sorted
overflow_program = tt

-- A bucket of a value that overflows, and one before it, which is the current bucket.
abbrev huge : Submission ℕ
huge = histogram numbers "size" 2_000_000_000 none none none

abbrev two_buckets : BucketAggregator ℕ
two_buckets =
    (submit_point numbers config load 24_000_000 24_000_000
      (submit_point numbers config huge 22_000_000 22_000_000 create_aggregator).1).1

overflowed : (flush_points numbers config 35_000_000 two_buckets).0 ≡ raised overflow
unfolding overflow_program
overflowed = refl

-- The flush has deleted the bucket of `load`, so a point for it is in no bucket.
abbrev detached : BucketAggregator ℕ
detached = (flush_points numbers config 35_000_000 two_buckets).1

point_lost :
    map
      (λ b. b.0)
      (submit_point numbers config load 36_000_000 36_000_000 detached).1.metric_by_bucket
    ≡ 20_000_000 ∷ []
unfolding overflow_program
point_lost = refl

-- The flush of a histogram whose samples overflow.
flush_overflows :
    (flush numbers config 10_000_000
      (submit_metric numbers config huge 3_000_000 3_000_001 fresh).1).0
    ≡ raised overflow
unfolding overflow_program
flush_overflows = refl

numbers-IsOrdered : IsOrdered numbers
numbers-IsOrdered = record {
  irrefl = λ v. ground arith;
  asym = λ u v h. ground arith;
  trans = λ u v w h k. ground arith;
}

abbrev samples : List ℕ
samples = 9 ∷ 3 ∷ 5 ∷ []

-- Of three samples the median reported is the least.
below-median_index_example : below numbers 3 samples ≤ length samples / 2 - 1
unfolding median_index sort_values insert_value
below-median_index_example = below-median_index numbers numbers-IsOrdered samples 3 refl
