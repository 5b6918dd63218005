-- ===== src/Aggregator/Metrics/Complete.antt =====
-- aggregator.py, MetricsAggregator in use: what each flush reports and keeps.
use sts_agent.Prelude.{
  ℕ, ◌+◌, true, false, not, List, [], ◌∷◌, map, select, flatten, ◌==◌, ◌≡◌, ◌⊎◌,
}
use text.Mathlib.Text.{◌==◌ as str_eq}
use sts_agent.Prelude.Dicts.{AllValues}
use sts_agent.Aggregator.Number.{Number, is_zero, nought}
use sts_agent.Aggregator.Metric.{Metric}
use sts_agent.Aggregator.Metric.Point.{Result, returned, raised, overflow, Point}
use sts_agent.Aggregator.Metric.Flush.{flush as flush_metric}
use sts_agent.Aggregator.Metric.Calls.{points_of}
use sts_agent.Aggregator.Metric.Returns.{IsSound, IsInRange}
use sts_agent.Aggregator.State.{Context, Config, Submission, is_expired}
use sts_agent.Aggregator.Metrics.{MetricsAggregator, submit_metric, flush}

module _ {V : Type 0} (num : Number V) (cfg : Config V) where
  -- The states of the aggregator: metrics are submitted, packets are counted, and it is flushed.
  pub data Reach : MetricsAggregator V → Type 0 where
    here : Reach (record { metrics = []; num_discarded_old_points = 0; count = 0; total_count = 0 })
    received :
        (agg : MetricsAggregator V) → Reach agg → Reach (record agg { count = agg.count + 1 })
    submitted :
        (s : Submission V) (cur_time now : ℕ) (agg : MetricsAggregator V)
        → Reach agg
        → Reach (submit_metric num cfg s cur_time now agg).1
    flushed :
        (timestamp : ℕ) (agg : MetricsAggregator V)
        → Reach agg
        → Reach (flush num cfg timestamp agg).1

  -- The metrics that are not expired, each after its own flush.
  abbrev pub survivors : ℕ → List (Context × Metric V) → List (Context × Metric V)
  survivors timestamp metrics =
      map (λ e. (e.0, (flush_metric num cfg.setting timestamp cfg.interval e.1).1))
        (select (λ e. not (is_expired cfg timestamp e.1.last_sample_time)) metrics)

  -- The points of the metrics that are not expired.
  abbrev pub reports : ℕ → List (Context × Metric V) → List (Point V)
  reports timestamp metrics = flatten (
      map (λ e. points_of (flush_metric num cfg.setting timestamp cfg.interval e.1).0)
        (select (λ e. not (is_expired cfg timestamp e.1.last_sample_time)) metrics))

  -- The flush of a metric that is not expired overflows.
  abbrev pub SomeOverflows : ℕ → List (Context × Metric V) → Type 0
  SomeOverflows timestamp [] = ⊥
  SomeOverflows timestamp ((context, m) ∷ rest) =
      ((is_expired cfg timestamp m.last_sample_time ≡ false)
        × ((flush_metric num cfg.setting timestamp cfg.interval m).0 ≡ raised overflow))
      ⊎ SomeOverflows timestamp rest

  -- The flush returns the points of the metrics that are not expired, keeps exactly these, each
  -- after its own flush, moves the count of packets to the total and forgets the discarded points;
  -- or it raises OverflowError as one of these metrics does, and leaves the counts.
  abbrev pub IsComplete :
      ℕ → MetricsAggregator V → Result (List (Point V)) × MetricsAggregator V → Type 0
  IsComplete timestamp agg (returned points, agg') =
      (points ≡ reports timestamp agg.metrics)
      × (agg'.metrics ≡ survivors timestamp agg.metrics)
      × (agg'.total_count ≡ agg.total_count + agg.count)
      × (agg'.count ≡ 0)
      × (agg'.num_discarded_old_points ≡ 0)
  IsComplete timestamp agg (raised e, agg') =
      (e ≡ overflow)
      × SomeOverflows timestamp agg.metrics
      × (agg'.total_count ≡ agg.total_count)
      × (agg'.count ≡ agg.count)
      × (agg'.num_discarded_old_points ≡ agg.num_discarded_old_points)

  abbrev AreSound : List (Context × Metric V) → Type 0
  AreSound metrics = AllValues (λ m. IsSound num m.state) metrics

  module _ (z : is_zero num (nought num) ≡ true) where
    module _ (in_range : IsInRange num cfg.setting.percentiles)
        (positive : (cfg.interval == 0) ≡ false) where
      -- The loop of a flush, against the description.
      abbrev IsLoop :
          ℕ
          → List (Context × Metric V)
          → List (Context × Metric V) × Result (List (Point V))
          → Type 0
      IsLoop timestamp metrics (kept, returned points) =
          (points ≡ reports timestamp metrics)
          × (kept ≡ survivors timestamp metrics)
          × AreSound kept
      IsLoop timestamp metrics (kept, raised e) =
          (e ≡ overflow) × SomeOverflows timestamp metrics × AreSound kept

      -- A flush from a sound state.
      IsFinished : ℕ → MetricsAggregator V → Result (List (Point V)) × MetricsAggregator V → Type 0
      IsFinished timestamp agg out = IsComplete timestamp agg out × AreSound out.1.metrics
