-- ===== src/Aggregator/Received/Aggregators.antt =====
-- aggregator.py: the two aggregators of metrics under the base class.
use text.Mathlib.Text.{◌==◌ as str_eq}
use sts_agent.Prelude.{ℕ, ◌+◌, not, ◌&&◌, Option, none, some, List, ◌==◌, ◌≡◌, refl, ◌∙◌, if_cases}
use sts_agent.Prelude.Dicts.{lookup, insert}
use sts_agent.Aggregator.Number.{Number}
use sts_agent.Aggregator.Metric.{Class, Metric, create, sample}
use sts_agent.Aggregator.Metric.Point.{Result, or_time}
use sts_agent.Aggregator.State.{Config, Submission, Context, same, context_of, is_old}
use sts_agent.Aggregator.Metrics.{
  MetricsAggregator, class_of, store, accept, register, submit_to, submit_metric,
}
use sts_agent.Aggregator.Buckets.{
  BucketAggregator, calculate_bucket_start, is_current, same_start, metric_by_context, write_to,
  write, open_bucket, submit_at, class_of as bucket_class_of, store as store_in_bucket,
  register as register_in_bucket, submit_to as submit_to_bucket, submit_metric as submit_to_buckets,
}
use sts_agent.Aggregator.Received.{Metrics}
use sts_agent.Aggregator.Received.Counted.{IsMetrics}

module _ {V : Type 0} (num : Number V) (cfg : Config V) where
  abbrev pub metrics_aggregator : Metrics V (MetricsAggregator V)
  metrics_aggregator = record {
    submit = submit_metric num cfg;
    count = λ a. a.count;
    total_count = λ a. a.total_count;
    count_packet = λ a. record a { count = a.count + 1 };
    add_total = λ n a. record a { total_count = a.total_count + n };
  }

  abbrev pub bucket_aggregator : Metrics V (BucketAggregator V)
  bucket_aggregator = record {
    submit = submit_to_buckets num cfg;
    count = λ a. a.count;
    total_count = λ a. a.total_count;
    count_packet = λ a. record a { count = a.count + 1 };
    add_total = λ n a. record a { total_count = a.total_count + n };
  }

  -- The counts after a call are those before it.
  abbrev Leaves : MetricsAggregator V → Result Unit × MetricsAggregator V → Type 0
  Leaves a run = (run.1.count ≡ a.count) × (run.1.total_count ≡ a.total_count)

  abbrev LeavesBuckets : BucketAggregator V → Result Unit × BucketAggregator V → Type 0
  LeavesBuckets a run = (run.1.count ≡ a.count) × (run.1.total_count ≡ a.total_count)

  store-Leaves :
      (context : Context) (a : MetricsAggregator V) (o : Option (Metric V))
      → Leaves a (store num cfg context a o)
  store-Leaves context a none = (refl, refl)
  store-Leaves context a (some m) = (refl, refl)

  accept-Leaves :
      (s : Submission V) (cur_time now : ℕ) (a : MetricsAggregator V) (m : Metric V)
      → Leaves a (accept num cfg s cur_time now a m)
  unfolding accept
  accept-Leaves s cur_time now a m =
      if_cases (Leaves a) (not (str_eq s.mtype "r") && is_old cfg s.timestamp cur_time) _ _
        (λ e. (refl, refl))
        (λ e.
          store-Leaves (context_of cfg s) a (sample num s.value s.sample_rate s.timestamp now m))

  register-Leaves :
      (s : Submission V) (cur_time now : ℕ) (a : MetricsAggregator V) (o : Option Class)
      → Leaves a (register num cfg s cur_time now a o)
  register-Leaves s cur_time now a none = (refl, refl)
  register-Leaves s cur_time now a (some c) =
      let context = context_of cfg s in
      let m = create num c s.name s.tags (some context.hostname) s.device_name in
      accept-Leaves s cur_time now (record a { metrics = insert same context m a.metrics }) m

  submit_to-Leaves :
      (s : Submission V) (cur_time now : ℕ) (a : MetricsAggregator V) (o : Option (Metric V))
      → Leaves a (submit_to num cfg s cur_time now a o)
  submit_to-Leaves s cur_time now a none = register-Leaves s cur_time now a (class_of s.mtype)
  submit_to-Leaves s cur_time now a (some m) = accept-Leaves s cur_time now a m

  submit_metric-Leaves :
      (s : Submission V) (cur_time now : ℕ) (a : MetricsAggregator V)
      → Leaves a (submit_metric num cfg s cur_time now a)
  unfolding submit_metric
  submit_metric-Leaves s cur_time now a =
      submit_to-Leaves s cur_time now a (lookup same (context_of cfg s) a.metrics)

  pub metrics_aggregator-IsMetrics : IsMetrics metrics_aggregator
  metrics_aggregator-IsMetrics = record {
    submit_counts = submit_metric-Leaves;
    packet_counts = λ a. (refl, refl);
    total_counts = λ n a. (refl, refl);
  }

  write-counts :
      (start : ℕ) (metrics : List (Context × Metric V)) (a : BucketAggregator V)
      (o : Option (List (Context × Metric V)))
      → ((write_to start metrics a o).count ≡ a.count)
        × ((write_to start metrics a o).total_count ≡ a.total_count)
  write-counts start metrics a none = (refl, refl)
  write-counts start metrics a (some old) = (refl, refl)

  store_in_bucket-LeavesBuckets :
      (start : ℕ) (context : Context) (a : BucketAggregator V) (o : Option (Metric V))
      → LeavesBuckets a (store_in_bucket num cfg start context a o)
  store_in_bucket-LeavesBuckets start context a none = (refl, refl)
  store_in_bucket-LeavesBuckets start context a (some m) =
      write-counts start (insert same context m (metric_by_context start a)) a
        (lookup same_start start a.metric_by_bucket)

  register-LeavesBuckets :
      (start : ℕ) (s : Submission V) (t now : ℕ) (a : BucketAggregator V) (o : Option Class)
      → LeavesBuckets a (register_in_bucket num cfg start s t now a o)
  register-LeavesBuckets start s t now a none = (refl, refl)
  register-LeavesBuckets start s t now a (some c) =
      let context = context_of cfg s in
      let m = create num c s.name s.tags (some context.hostname) s.device_name in
      let d = insert same context m (metric_by_context start a) in
      let (count, total) = write-counts start d a (lookup same_start start a.metric_by_bucket) in
      let (count', total') =
        store_in_bucket-LeavesBuckets start context (write start d a)
          (sample num s.value s.sample_rate (some t) now m) in
      (count' ∙ count, total' ∙ total)

  submit_to-LeavesBuckets :
      (start : ℕ) (s : Submission V) (t now : ℕ) (a : BucketAggregator V) (o : Option (Metric V))
      → LeavesBuckets a (submit_to_bucket num cfg start s t now a o)
  submit_to-LeavesBuckets start s t now a none =
      register-LeavesBuckets start s t now a (bucket_class_of s.mtype)
  submit_to-LeavesBuckets start s t now a (some m) =
      store_in_bucket-LeavesBuckets start (context_of cfg s) a
        (sample num s.value s.sample_rate (some t) now m)

  open_bucket-counts :
      (start : ℕ) (a : BucketAggregator V)
      → ((open_bucket start a).count ≡ a.count)
        × ((open_bucket start a).total_count ≡ a.total_count)
  unfolding open_bucket
  open_bucket-counts start a =
      if_cases (λ (b : BucketAggregator V). (b.count ≡ a.count) × (b.total_count ≡ a.total_count))
        (is_current a.current_bucket start) _ _ (λ e. (refl, refl)) (λ e. (refl, refl))

  submit_at-LeavesBuckets :
      (s : Submission V) (t now : ℕ) (a : BucketAggregator V)
      → LeavesBuckets a (submit_at num cfg s t now a)
  unfolding submit_at
  submit_at-LeavesBuckets s t now a =
      let start = calculate_bucket_start cfg.interval t in
      let opened = open_bucket start a in
      let (count, total) = open_bucket-counts start a in
      let (count', total') =
        submit_to-LeavesBuckets start s t now opened
          (lookup same (context_of cfg s) (metric_by_context start opened)) in
      (count' ∙ count, total' ∙ total)

  submit_to_buckets-LeavesBuckets :
      (s : Submission V) (cur_time now : ℕ) (a : BucketAggregator V)
      → LeavesBuckets a (submit_to_buckets num cfg s cur_time now a)
  unfolding submit_to_buckets
  submit_to_buckets-LeavesBuckets s cur_time now a =
      if_cases (LeavesBuckets a) (is_old cfg s.timestamp cur_time) _ _ (λ e. (refl, refl))
        (λ e.
          if_cases (LeavesBuckets a) (cfg.interval == 0) _ _ (λ e. (refl, refl))
            (λ e. submit_at-LeavesBuckets s (or_time s.timestamp cur_time) now a))

  pub bucket_aggregator-IsMetrics : IsMetrics bucket_aggregator
  bucket_aggregator-IsMetrics = record {
    submit_counts = submit_to_buckets-LeavesBuckets;
    packet_counts = λ a. (refl, refl);
    total_counts = λ n a. (refl, refl);
  }
