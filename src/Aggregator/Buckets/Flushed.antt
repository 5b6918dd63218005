-- ===== src/Aggregator/Buckets/Flushed.antt =====
-- aggregator.py, MetricsBucketAggregator.flush: the buckets that a whole flush closes.
use sts_agent.Prelude.{
  ℕ, ◌+◌, ◌-◌, ◌<◌, false, Option, none, some, List, [], ◌∷◌, map, ltb, leb, ◌==◌, ◌≡◌, refl, sym,
  ap, subst, ◌∙◌, inl, inr, Bool-cases, arith,
}
use sts_agent.Prelude.Dicts.{lookup, insert, lookup-insert_other}
use sts_agent.Prelude.Bag.{contains}
use sts_agent.Prelude.Sorting.{sorted, contains-sorted}
use sts_agent.Aggregator.Number.{Number}
use sts_agent.Aggregator.Metric.{Metric}
use sts_agent.Aggregator.Metric.Point.{Error, Point}
use sts_agent.Aggregator.State.{Context, Config}
use sts_agent.Aggregator.Buckets.{BucketAggregator, same_start, bucket, calculate_bucket_start}
use sts_agent.Aggregator.Buckets.Flush.{
  Pass, close, fill, flush_bucket, flush_buckets, flush_contexts, create_empty_metrics, ended,
  flush_empty, flush_at, finish, flush,
}
use sts_agent.Aggregator.Buckets.Closed.{
  same_start_iff, lookup-closed, IsClosed, IsCleared, go_on-IsCleared, skip-IsCleared,
  lookup-missing, present_by, IsFlushed, Buckets,
}

module _ {V : Type 0} (num : Number V) (cfg : Config V) (cur_time start : ℕ)
    (agg : BucketAggregator V) where
  close-IsClosed :
      (metrics : List (Context × Metric V)) (out : Pass V × Option Error)
      → IsClosed start agg.metric_by_bucket (
          close num cfg cur_time start
            (record agg { metric_by_bucket = insert same_start start metrics agg.metric_by_bucket })
            out)
  unfolding IsClosed
  close-IsClosed metrics (pass, some e) =
      λ s h. lookup-insert_other same_start same_start_iff s start metrics agg.metric_by_bucket h
  close-IsClosed metrics (pass, none) = λ s. lookup-closed start s metrics agg.metric_by_bucket

  fill-IsClosed :
      (out : (List (Context × Metric V) × Pass V) × Option Error)
      → IsClosed start agg.metric_by_bucket (fill num cfg cur_time start agg out)
  fill-IsClosed ((metrics, pass), some e) = close-IsClosed metrics (pass, some e)
  fill-IsClosed ((metrics, pass), none) =
      close-IsClosed metrics (create_empty_metrics num cfg cur_time start pass.not_sampled pass)

  flush_bucket-IsClosed :
      (points : List (Point V))
      → IsClosed start agg.metric_by_bucket (flush_bucket num cfg cur_time start agg points)
  unfolding flush_bucket
  flush_bucket-IsClosed points = fill-IsClosed (
      flush_contexts num cfg cur_time start (bucket start agg) (record {
        last_times = agg.last_sample_time_by_context;
        not_sampled = agg.last_sample_time_by_context;
        points = points;
      }))

module _ {V : Type 0} (num : Number V) (cfg : Config V) (cur_time : ℕ) where
  flush_buckets-IsCleared :
      (cutoff : ℕ) (starts : List ℕ) (agg : BucketAggregator V) (points : List (Point V))
      → IsCleared cutoff starts agg.metric_by_bucket
          (flush_buckets num cfg cur_time cutoff starts agg points)
  unfolding IsCleared flush_buckets contains
  flush_buckets-IsCleared cutoff [] agg points = λ s. refl
  flush_buckets-IsCleared cutoff (start ∷ starts) agg points =
      elim (Bool-cases (ltb start cutoff)) [
        | inl e ↦
            let now = flush_bucket num cfg cur_time start agg points in
            rw e (
              go_on-IsCleared cutoff start starts agg.metric_by_bucket now
                (flush_buckets num cfg cur_time cutoff starts now.0.0 now.0.1) e
                (flush_bucket-IsClosed num cfg cur_time start agg points)
                (flush_buckets-IsCleared cutoff starts now.0.0 now.0.1))
        | inr e ↦ rw e (
            skip-IsCleared cutoff start starts agg.metric_by_bucket
              (flush_buckets num cfg cur_time cutoff starts agg points) e
              (flush_buckets-IsCleared cutoff starts agg points))
      ]

  finish-IsFlushed :
      (cutoff : ℕ) (buckets : Buckets V)
      (out : (BucketAggregator V × List (Point V)) × Option Error)
      → IsCleared cutoff (sorted leb (map (λ b. b.0) buckets)) buckets out
      → IsFlushed cutoff buckets (finish num cfg cur_time cutoff out)
  unfolding IsCleared IsFlushed
  finish-IsFlushed cutoff buckets (out, some e) h = h
  finish-IsFlushed cutoff buckets (out, none) h =
      let starts = map (λ b. b.0) buckets in
      λ s.
        h s
        ∙ present_by (contains s (sorted leb starts)) (ltb s cutoff) (lookup same_start s buckets)
            (λ k. lookup-missing s buckets (sym (contains-sorted leb s starts) ∙ k))

  ended-IsCleared :
      (cutoff : ℕ) (agg : BucketAggregator V) (out : Pass V × Option Error)
      → agg.metric_by_bucket ≡ []
      → IsCleared cutoff [] [] (ended num cfg cur_time agg out)
  unfolding IsCleared lookup contains
  ended-IsCleared cutoff agg (pass, none) h = λ s. ap (lookup same_start s) h
  ended-IsCleared cutoff agg (pass, some e) h = λ s k. ap (lookup same_start s) h

  flush_empty-IsCleared :
      (cutoff : ℕ) (agg : BucketAggregator V)
      → agg.metric_by_bucket ≡ []
      → IsCleared cutoff [] [] (flush_empty num cfg cur_time cutoff agg)
  unfolding IsCleared flush_empty lookup contains
  flush_empty-IsCleared cutoff agg h =
      elim (Bool-cases (leb (agg.last_flush_cutoff_time + cfg.interval) cutoff)) [
        | inl e ↦
            let times = agg.last_sample_time_by_context in
            let pass : Pass V = record { last_times = times; not_sampled = times; points = [] } in
            rw e (
              ended-IsCleared cutoff agg
                (create_empty_metrics num cfg cur_time (cutoff - cfg.interval) times pass) h)
        | inr e ↦ rw e (λ s. ap (lookup same_start s) h)
      ]

  flush_at-IsFlushed :
      (cutoff : ℕ) (agg : BucketAggregator V) (buckets : Buckets V)
      → agg.metric_by_bucket ≡ buckets
      → IsFlushed cutoff buckets
          (finish num cfg cur_time cutoff (flush_at num cfg cur_time cutoff agg buckets))
  unfolding sorted
  flush_at-IsFlushed cutoff agg [] h =
      finish-IsFlushed cutoff [] (flush_empty num cfg cur_time cutoff agg)
        (flush_empty-IsCleared cutoff agg h)
  flush_at-IsFlushed cutoff agg (b ∷ bs) h =
      let starts = sorted leb (map (λ e. e.0) (b ∷ bs)) in
      finish-IsFlushed cutoff (b ∷ bs) (flush_buckets num cfg cur_time cutoff starts agg []) (
        subst (λ d. IsCleared cutoff starts d (flush_buckets num cfg cur_time cutoff starts agg []))
          h (flush_buckets-IsCleared cutoff starts agg []))

  -- A flush closes exactly the buckets that start before the interval of the present: after one
  -- that returns they are gone, and neither it nor one that raises touches the other buckets, if the
  -- interval is not 0.
  pub flush-IsFlushed :
      (agg : BucketAggregator V)
      → 0 < cfg.interval
      → IsFlushed
          (calculate_bucket_start cfg.interval cur_time)
          agg.metric_by_bucket
          (flush num cfg cur_time agg)
  unfolding flush
  flush-IsFlushed agg h =
      let positive : (cfg.interval == 0) ≡ false = ground arith in
      rw positive (
        flush_at-IsFlushed (calculate_bucket_start cfg.interval cur_time) agg agg.metric_by_bucket
          refl)
