-- ===== src/Aggregator/Buckets/Flush.antt =====
-- aggregator.py, MetricsBucketAggregator.flush and create_empty_metrics.
use sts_agent.Prelude.{
  ℕ, ◌+◌, ◌-◌, Bool, true, false, Option, none, some, List, [], ◌∷◌, ◌++◌, map, ltb, leb, ◌==◌,
  if◌then◌else◌,
}
use sts_agent.Prelude.Dicts.{insert, pop}
use sts_agent.Prelude.Sorting.{sorted}
use sts_agent.Aggregator.Number.{Number}
use sts_agent.Aggregator.Metric.{Class, Data, Metric, create}
use sts_agent.Aggregator.Metric.Point.{Error, zero_division, Result, returned, raised, Point}
use sts_agent.Aggregator.Metric.Flush.{flush as flush_metric}
use sts_agent.Aggregator.State.{Context, same, Config, is_expired}
use sts_agent.Aggregator.Buckets.{
  BucketAggregator, same_start, is_current, bucket, calculate_bucket_start,
}

-- The variables of a flush: `self.last_sample_time_by_context`, `not_sampled_in_this_bucket`,
-- `metrics`.
pub record Pass (V : Type 0) : Type 0 where
  pub last_times : List (Context × Option ℕ)
  pub not_sampled : List (Context × Option ℕ)
  pub points : List (Point V)

-- `isinstance(metric, Counter)`
unfoldable pub is_counter : {A : Type 0} → Data A → Bool
is_counter (Data.counter value) = true
is_counter _ = false

-- An exception ends each of the three loops.
module _ {V : Type 0} where
  abbrev pub resume :
      Context
      → List (Context × Metric V)
      → (Metric V × Pass V) × Option Error
      → (List (Context × Metric V) × Pass V) × Option Error
      → (List (Context × Metric V) × Pass V) × Option Error
  resume context rest ((m, pass), some e) after = (((context, m) ∷ rest, pass), some e)
  resume context rest ((m, pass), none) ((rest', last), e) = (((context, m) ∷ rest', last), e)

  abbrev pub proceed : Pass V × Option Error → Pass V × Option Error → Pass V × Option Error
  proceed (pass, some e) after = (pass, some e)
  proceed (pass, none) after = after

  abbrev pub go_on :
      (BucketAggregator V × List (Point V)) × Option Error
      → (BucketAggregator V × List (Point V)) × Option Error
      → (BucketAggregator V × List (Point V)) × Option Error
  go_on (result, some e) after = (result, some e)
  go_on (result, none) after = after

module _ {V : Type 0} (num : Number V) (cfg : Config V) (cur_time start : ℕ) where
  -- The metric was flushed, unless that raised.
  abbrev pub report :
      Context
      → Option ℕ
      → Pass V
      → Result (List (Point V)) × Metric V
      → (Metric V × Pass V) × Option Error
  report context last pass (raised e, m) = ((m, pass), some e)
  report context last pass (returned points, m) = (
    (
      m,
      if is_counter m.state
          then record {
            last_times = insert same context last pass.last_times;
            not_sampled = pop same context pass.not_sampled;
            points = pass.points ++ points;
          }
          else record pass { points = pass.points ++ points },
    ),
    none,
  )

  -- One context of the bucket.
  unfoldable pub flush_context : Context → Metric V → Pass V → (Metric V × Pass V) × Option Error
  flush_context context m pass =
      if is_expired cfg cur_time m.last_sample_time
      then (
        (
          m,
          record pass {
            last_times = pop same context pass.last_times;
            not_sampled = pop same context pass.not_sampled;
          },
        ),
        none,
      )
      else report context m.last_sample_time pass
          (flush_metric num cfg.setting start cfg.interval m)

  unfoldable pub flush_contexts :
      List (Context × Metric V) → Pass V → (List (Context × Metric V) × Pass V) × Option Error
  flush_contexts [] pass = (([], pass), none)
  flush_contexts ((context, m) ∷ rest) pass =
      let now = flush_context context m pass in
      let after = flush_contexts rest now.0.1 in resume context rest now after

  -- A counter that nothing was added to.
  abbrev pub empty_counter : Context → Metric V
  empty_counter c = create num Class.counter c.name (some c.tags) (some c.hostname) c.device_name

  abbrev pub add_points : Pass V → Result (List (Point V)) → Pass V × Option Error
  add_points pass (raised e) = (pass, some e)
  add_points pass (returned points) = (record pass { points = pass.points ++ points }, none)

  unfoldable pub create_empty : Context → Option ℕ → Pass V → Pass V × Option Error
  create_empty context last pass =
      if is_expired cfg cur_time last
      then (record pass { last_times = pop same context pass.last_times }, none)
      else add_points pass
          (flush_metric num cfg.setting start cfg.interval (empty_counter context)).0

  unfoldable pub create_empty_metrics : List (Context × Option ℕ) → Pass V → Pass V × Option Error
  create_empty_metrics [] pass = (pass, none)
  create_empty_metrics ((context, last) ∷ rest) pass =
      let now = create_empty context last pass in
      let after = create_empty_metrics rest now.0 in proceed now after

module _ {V : Type 0} (num : Number V) (cfg : Config V) (cur_time : ℕ) where
  -- The bucket goes when all of it was flushed; if it is the current one, its dictionary stays in
  -- `current_mbc`.
  abbrev pub close :
      ℕ
      → BucketAggregator V
      → Pass V × Option Error
      → (BucketAggregator V × List (Point V)) × Option Error
  close start agg (pass, some e) =
      ((record agg { last_sample_time_by_context = pass.last_times }, pass.points), some e)
  close start agg (pass, none) = (
    (
      record agg {
        last_sample_time_by_context = pass.last_times;
        metric_by_bucket = pop same_start start agg.metric_by_bucket;
        current_mbc =
            if is_current agg.current_bucket start then bucket start agg else agg.current_mbc;
      },
      pass.points,
    ),
    none,
  )

  abbrev pub fill :
      ℕ
      → BucketAggregator V
      → (List (Context × Metric V) × Pass V) × Option Error
      → (BucketAggregator V × List (Point V)) × Option Error
  fill start agg ((metrics, pass), some e) =
      close start
        (record agg { metric_by_bucket = insert same_start start metrics agg.metric_by_bucket })
        (pass, some e)
  fill start agg ((metrics, pass), none) =
      close start
        (record agg { metric_by_bucket = insert same_start start metrics agg.metric_by_bucket })
        (create_empty_metrics num cfg cur_time start pass.not_sampled pass)

  unfoldable pub flush_bucket :
      ℕ → BucketAggregator V → List (Point V) → (BucketAggregator V × List (Point V)) × Option Error
  flush_bucket start agg points = fill start agg (
      flush_contexts num cfg cur_time start (bucket start agg) (record {
        last_times = agg.last_sample_time_by_context;
        not_sampled = agg.last_sample_time_by_context;
        points = points;
      }))

  -- The buckets that start before `cutoff`, in the order of their starts.
  unfoldable pub flush_buckets :
      ℕ
      → List ℕ
      → BucketAggregator V
      → List (Point V)
      → (BucketAggregator V × List (Point V)) × Option Error
  flush_buckets cutoff [] agg points = ((agg, points), none)
  flush_buckets cutoff (start ∷ starts) agg points =
      let now = if ltb start cutoff then flush_bucket start agg points else ((agg, points), none) in
      let after = flush_buckets cutoff starts now.0.0 now.0.1 in go_on now after

  abbrev pub ended :
      BucketAggregator V
      → Pass V × Option Error
      → (BucketAggregator V × List (Point V)) × Option Error
  ended agg (pass, e) =
      ((record agg { last_sample_time_by_context = pass.last_times }, pass.points), e)

  -- Without buckets the counters report 0, once an interval.
  unfoldable pub flush_empty :
      ℕ → BucketAggregator V → (BucketAggregator V × List (Point V)) × Option Error
  flush_empty cutoff agg =
      let times = agg.last_sample_time_by_context in
      let pass : Pass V = record { last_times = times; not_sampled = times; points = [] } in
      if leb (agg.last_flush_cutoff_time + cfg.interval) cutoff
      then ended agg (create_empty_metrics num cfg cur_time (cutoff - cfg.interval) times pass)
      else ((agg, []), none)

  abbrev pub flush_at :
      ℕ
      → BucketAggregator V
      → List (ℕ × List (Context × Metric V))
      → (BucketAggregator V × List (Point V)) × Option Error
  flush_at cutoff agg [] = flush_empty cutoff agg
  flush_at cutoff agg (b ∷ bs) = flush_buckets cutoff (sorted leb (map (λ e. e.0) (b ∷ bs))) agg []

  abbrev pub finish :
      ℕ
      → (BucketAggregator V × List (Point V)) × Option Error
      → Result (List (Point V)) × BucketAggregator V
  finish cutoff ((agg, points), some e) = (raised e, agg)
  finish cutoff ((agg, points), none) = (
    returned points,
    record agg {
      num_discarded_old_points = 0;
      total_count = agg.total_count + agg.count;
      count = 0;
      current_bucket = none;
      current_mbc = [];
      last_flush_cutoff_time = cutoff;
    },
  )

  unfoldable pub flush : BucketAggregator V → Result (List (Point V)) × BucketAggregator V
  flush agg =
      if cfg.interval == 0
      then (raised zero_division, agg)
      else let cutoff = calculate_bucket_start cfg.interval cur_time in
        finish cutoff (flush_at cutoff agg agg.metric_by_bucket)
