-- ===== src/Aggregator/Buckets/Submit.antt =====
-- aggregator.py, MetricsBucketAggregator.submit_metric: the dictionary and the context of a point.
use sts_agent.Prelude.{
  ℕ, ◌<◌, Bool, true, false, ◌&&◌, Option, none, some, List, [], ◌==◌, ==_iff, ◌≡◌, refl, sym, ap,
  subst, ◌∙◌, inl, inr, Bool-cases, Option-cases, arith,
}
use sts_agent.Prelude.Dicts.{
  lookup, insert, lookup-insert, lookup-insert_other, insert-insert_later,
}
use sts_agent.Aggregator.Number.{Number}
use sts_agent.Aggregator.Metric.{Class, Metric, create, sample}
use sts_agent.Aggregator.Metric.Point.{Result, returned, raised, or_time}
use sts_agent.Aggregator.State.{Context, same, Config, Submission, or_else, context_of, is_old}
use sts_agent.Aggregator.State.Contexts.{same_iff}
use sts_agent.Aggregator.Buckets.{
  BucketAggregator, same_start, class_of, is_current, ensure, calculate_bucket_start, open_bucket,
  bucket, metric_by_context, write, register, submit_to, submit_at, submit_metric,
}
use sts_agent.Aggregator.Buckets.Closed.{same_start_iff}

-- Another place: another bucket, or another context in this one.
abbrev pub IsElsewhere : ℕ → Context → ℕ → Context → Type 0
IsElsewhere start context s c = (start == s) && same context c ≡ false

context_differs :
    (start s : ℕ) (context c : Context)
    → IsElsewhere start context s c
    → (start == s) ≡ true
    → same context c ≡ false
context_differs start s context c h e = ap (λ b. b && same context c) (sym e) ∙ h

abbrev is_missing : {A : Type 0} → Option A → Bool
is_missing none = true
is_missing (some a) = false

module _ {V : Type 0} where
  -- The bucket is the current one, but a flush that raised has deleted it.
  abbrev pub is_detached : ℕ → BucketAggregator V → Bool
  is_detached start agg =
      is_current agg.current_bucket start
      && is_missing (lookup same_start start agg.metric_by_bucket)

  -- The metrics among which a point of the bucket finds its own.
  abbrev pub dictionary : Bool → ℕ → BucketAggregator V → List (Context × Metric V)
  dictionary true start agg = agg.current_mbc
  dictionary false start agg = bucket start agg

  abbrev pub find : ℕ → Context → BucketAggregator V → Option (Metric V)
  find start context agg = lookup same context (dictionary (is_detached start agg) start agg)

  -- The metric is in its bucket, or in the dictionary that is left of a deleted one, where the other
  -- contexts are as before.
  abbrev pub IsHere :
      Bool → ℕ → Context → Metric V → BucketAggregator V → BucketAggregator V → Type 0
  IsHere false start context m agg agg' = lookup same context (bucket start agg') ≡ some m
  IsHere true start context m agg agg' =
      (agg'.metric_by_bucket ≡ agg.metric_by_bucket)
      × (lookup same context agg'.current_mbc ≡ some m)
      × ((c : Context)
          → same context c ≡ false
          → lookup same c agg'.current_mbc ≡ lookup same c agg.current_mbc)

  -- And all buckets are as they were elsewhere.
  unfoldable pub IsPut : ℕ → Context → Metric V → BucketAggregator V → BucketAggregator V → Type 0
  IsPut start context m agg agg' =
      IsHere (is_detached start agg) start context m agg agg'
      × ((s : ℕ) (c : Context)
          → IsElsewhere start context s c
          → lookup same c (bucket s agg') ≡ lookup same c (bucket s agg))

  -- The bucket that is opened is there, and is what it was.
  IsOpened : ℕ → BucketAggregator V → BucketAggregator V → Type 0
  IsOpened start agg opened =
      ((metrics : List (Context × Metric V)) × (lookup same_start start opened.metric_by_bucket
          ≡ some metrics)
        × (metrics ≡ bucket start agg))
      × ((s : ℕ) → (start == s) ≡ false → bucket s opened ≡ bucket s agg)

  ensure-IsOpened :
      (start : ℕ) (agg : BucketAggregator V) (o : Option (List (Context × Metric V)))
      → lookup same_start start agg.metric_by_bucket ≡ o
      → IsOpened start agg (record agg {
        metric_by_bucket = ensure start agg.metric_by_bucket o;
        current_bucket = some start;
      })
  unfolding IsOpened
  ensure-IsOpened start agg (some metrics) h =
      ((metrics, h, sym (ap (λ o. or_else o []) h)), λ s e. refl)
  ensure-IsOpened start agg none h = (
    (
      [],
      lookup-insert same_start same_start_iff start [] agg.metric_by_bucket,
      sym (ap (λ o. or_else o []) h),
    ),
    λ s e.
        ap (λ o. or_else o [])
          (lookup-insert_other same_start same_start_iff s start [] agg.metric_by_bucket e),
  )

  -- The context in a bucket that is written.
  opened-elsewhere :
      (start : ℕ) (context : Context) (m : Metric V) (agg opened : BucketAggregator V)
      (metrics : List (Context × Metric V))
      → metrics ≡ bucket start agg
      → ((s : ℕ) → (start == s) ≡ false → bucket s opened ≡ bucket s agg)
      → (s : ℕ) (c : Context) → IsElsewhere start context s c
      → lookup same c (
          or_else
            (lookup same_start s
              (insert same_start start (insert same context m metrics) opened.metric_by_bucket))
            [])
        ≡ lookup same c (bucket s agg)
  opened-elsewhere start context m agg opened metrics before others s c h =
      elim (Bool-cases (start == s)) [
        | inl e ↦
            subst
              (λ t.
                lookup same c (
                  or_else
                    (lookup same_start t (
                      insert same_start start (insert same context m metrics)
                        opened.metric_by_bucket))
                    [])
                ≡ lookup same c (bucket t agg))
              ((==_iff start s).0 e)
              (ap (λ o. lookup same c (or_else o []))
                  (lookup-insert same_start same_start_iff start (insert same context m metrics)
                    opened.metric_by_bucket)
                ∙ lookup-insert_other same same_iff c context m metrics
                    (context_differs start s context c h e)
                ∙ ap (lookup same c) before)
        | inr e ↦
            ap (λ o. lookup same c (or_else o []))
              (lookup-insert_other same_start same_start_iff s start (insert same context m metrics)
                opened.metric_by_bucket e)
            ∙ ap (lookup same c) (others s e)
      ]

  -- The writing of one metric.
  abbrev put : ℕ → Context → Metric V → BucketAggregator V → BucketAggregator V
  put start context m agg = write start (insert same context m (metric_by_context start agg)) agg

  opened-IsPut :
      (start : ℕ) (context : Context) (m : Metric V) (agg opened : BucketAggregator V)
      → is_detached start agg ≡ false
      → IsOpened start agg opened
      → IsPut start context m agg (put start context m opened)
  unfolding IsPut IsOpened
  opened-IsPut start context m agg opened attached ((metrics, found, before), others) =
      rw (attached, found)
        (
          ap (λ o. lookup same context (or_else o []))
                (lookup-insert same_start same_start_iff start (insert same context m metrics)
                  opened.metric_by_bucket)
              ∙ lookup-insert same same_iff context m metrics,
          opened-elsewhere start context m agg opened metrics before others,
        )

  detached-IsPut :
      (start : ℕ) (context : Context) (m : Metric V) (agg : BucketAggregator V)
      → is_detached start agg ≡ true
      → lookup same_start start agg.metric_by_bucket ≡ none
      → IsPut start context m agg (put start context m agg)
  unfolding IsPut
  detached-IsPut start context m agg detached missing =
      rw (detached, missing)
        (
          (
            refl,
            lookup-insert same same_iff context m agg.current_mbc,
            λ c h. lookup-insert_other same same_iff c context m agg.current_mbc h,
          ),
          λ s c h. refl,
        )

  -- The metric is put into the bucket once it is open.
  open_bucket-IsPut :
      (start : ℕ) (context : Context) (m : Metric V) (agg : BucketAggregator V)
      → IsPut start context m agg (put start context m (open_bucket start agg))
  unfolding open_bucket IsOpened
  open_bucket-IsPut start context m agg = elim (Bool-cases (is_current agg.current_bucket start)) [
    | inl e ↦ elim (Option-cases (lookup same_start start agg.metric_by_bucket)) [
      | inl missing ↦ rw e (
          detached-IsPut start context m agg
            (ap (λ b. b && is_missing (lookup same_start start agg.metric_by_bucket)) e
              ∙ ap is_missing missing)
            missing)
      | inr (metrics, found) ↦ rw e (
          opened-IsPut start context m agg agg
            (ap (λ b. b && is_missing (lookup same_start start agg.metric_by_bucket)) e
              ∙ ap is_missing found)
            ((metrics, found, sym (ap (λ o. or_else o []) found)), λ s h. refl))
    ]
    | inr e ↦ rw e (
        opened-IsPut start context m agg _
          (ap (λ b. b && is_missing (lookup same_start start agg.metric_by_bucket)) e)
          (ensure-IsOpened start agg (lookup same_start start agg.metric_by_bucket) refl))
  ]

  dictionary-ensure :
      (start : ℕ) (agg : BucketAggregator V) (o : Option (List (Context × Metric V)))
      → lookup same_start start agg.metric_by_bucket ≡ o
      → or_else (lookup same_start start (ensure start agg.metric_by_bucket o)) agg.current_mbc
        ≡ bucket start agg
  dictionary-ensure start agg none h =
      ap (λ o. or_else o agg.current_mbc)
        (lookup-insert same_start same_start_iff start [] agg.metric_by_bucket)
      ∙ sym (ap (λ o. or_else o []) h)
  dictionary-ensure start agg (some metrics) h =
      ap (λ o. or_else o agg.current_mbc) h ∙ sym (ap (λ o. or_else o []) h)

  -- It is put among the metrics of the dictionary.
  open_bucket-dictionary :
      (start : ℕ) (agg : BucketAggregator V)
      → metric_by_context start (open_bucket start agg)
        ≡ dictionary (is_detached start agg) start agg
  unfolding open_bucket
  open_bucket-dictionary start agg = elim (Bool-cases (is_current agg.current_bucket start)) [
    | inl e ↦ elim (Option-cases (lookup same_start start agg.metric_by_bucket)) [
      | inl missing ↦ rw (e, missing) refl
      | inr (metrics, found) ↦ rw (e, found) (sym (ap (λ o. or_else o []) found))
    ]
    | inr e ↦ rw e (dictionary-ensure start agg (lookup same_start start agg.metric_by_bucket) refl)
  ]

  put-put :
      (start : ℕ) (context : Context) (m m' : Metric V) (agg : BucketAggregator V)
      → put start context m' (put start context m agg) ≡ put start context m' agg
  put-put start context m m' agg =
      elim (Option-cases (lookup same_start start agg.metric_by_bucket)) [
        | inl missing ↦
            rw (missing, missing)
              (ap (λ metrics. record agg { current_mbc = metrics })
                (insert-insert_later same same_iff context m m' agg.current_mbc))
        | inr (metrics, found) ↦
            let old = insert same context m metrics in
            rw (found, lookup-insert same_start same_start_iff start old agg.metric_by_bucket)
              (ap (λ d. record agg { metric_by_bucket = d })
                (insert-insert_later same_start same_start_iff start old
                    (insert same context m' old) agg.metric_by_bucket
                  ∙ ap (λ d. insert same_start start d agg.metric_by_bucket)
                      (insert-insert_later same same_iff context m m' metrics)))
      ]

  -- The call returns, the metric is at its place, and everything elsewhere is as before.
  unfoldable pub IsAccepted :
      ℕ → Context → Metric V → BucketAggregator V → Result Unit × BucketAggregator V → Type 0
  IsAccepted start context m agg (returned tt, agg') = IsPut start context m agg agg'
  IsAccepted start context m agg (raised e, agg') = ⊥

module _ {V : Type 0} (num : Number V) (cfg : Config V) (s : Submission V) where
  abbrev created : Option Class → Option (Metric V)
  created none = none
  created (some c) =
      some (create num c s.name s.tags (some (context_of cfg s).hostname) s.device_name)

  -- The metric that takes the sample: the one that is there, else a new one of the type's class.
  abbrev pub entry : Option (Metric V) → Option (Metric V)
  entry none = created (class_of s.mtype)
  entry (some m) = some m

  module _ (start timestamp now : ℕ) (agg : BucketAggregator V) where
    module _ (m m' : Metric V)
        (sampled : sample num s.value s.sample_rate (some timestamp) now m ≡ some m') where
      sampled_as :
          (m0 : Metric V)
          → some m0 ≡ some m
          → sample num s.value s.sample_rate (some timestamp) now m0 ≡ some m'
      sampled_as m0 h =
          ap (λ o. sample num s.value s.sample_rate (some timestamp) now (or_else o m0)) h ∙ sampled

      register-IsAccepted :
          (c : Option Class)
          → created c ≡ some m
          → IsAccepted start
              (context_of cfg s)
              m'
              agg
              (register num cfg start s timestamp now (open_bucket start agg) c)
      unfolding IsAccepted
      register-IsAccepted none h = absurd (ground arith)
      register-IsAccepted (some c) h =
          let m0 = create num c s.name s.tags (some (context_of cfg s).hostname) s.device_name in
          rw (sampled_as m0 h) (
            subst (IsPut start (context_of cfg s) m' agg)
              (sym (put-put start (context_of cfg s) m0 m' (open_bucket start agg)))
              (open_bucket-IsPut start (context_of cfg s) m' agg))

      submit_to-IsAccepted :
          (o : Option (Metric V))
          → entry o ≡ some m
          → IsAccepted start
              (context_of cfg s)
              m'
              agg
              (submit_to num cfg start s timestamp now (open_bucket start agg) o)
      unfolding IsAccepted
      submit_to-IsAccepted none h = register-IsAccepted (class_of s.mtype) h
      submit_to-IsAccepted (some m0) h =
          rw (sampled_as m0 h) (open_bucket-IsPut start (context_of cfg s) m' agg)

  -- A point that is not too old is sampled by the metric of its context in the bucket of its
  -- time, which is made if it is not there: if that sample does not raise, the call returns, the
  -- metric is in that bucket as the sample leaves it, and each metric of another context or of
  -- another bucket is as it was, if the interval is not 0. Where a flush that raised has deleted the
  -- bucket while it was the current one, the metric is in the dictionary that is left of it instead,
  -- and no bucket is changed or made.
  pub submit_metric-IsAccepted :
      (cur_time now : ℕ) (agg : BucketAggregator V) (m m' : Metric V)
      → 0 < cfg.interval
      → is_old cfg s.timestamp cur_time ≡ false
      → entry (
          find
            (calculate_bucket_start cfg.interval (or_time s.timestamp cur_time))
            (context_of cfg s)
            agg)
        ≡ some m
      → sample num s.value s.sample_rate (some (or_time s.timestamp cur_time)) now m ≡ some m'
      → IsAccepted
          (calculate_bucket_start cfg.interval (or_time s.timestamp cur_time))
          (context_of cfg s)
          m'
          agg
          (submit_metric num cfg s cur_time now agg)
  unfolding submit_metric submit_at
  submit_metric-IsAccepted cur_time now agg m m' positive recent found sampled =
      let timestamp = or_time s.timestamp cur_time in
      let start = calculate_bucket_start cfg.interval timestamp in
      let opened = open_bucket start agg in
      let context = context_of cfg s in
      let nonzero : (cfg.interval == 0) ≡ false = ground arith in
      rw (recent, nonzero)
        (submit_to-IsAccepted start timestamp now agg m m' sampled
          (lookup same context (metric_by_context start opened))
          (ap (λ d. entry (lookup same context d)) (open_bucket-dictionary start agg) ∙ found))
