-- ===== src/Aggregator/Metric/Totals.antt =====
-- aggregator.py, classes Count and MonotonicCount: no sample is lost or counted twice.
use sts_agent.Prelude.{
  ℕ, Option, none, some, List, [], ◌∷◌, ◌≡◌, refl, sym, ◌∙◌, String, Bool-cases, inl, inr,
}
use sts_agent.Aggregator.Number.{Number, IsLawful, nought, is_zero, positive_part, or_zero}
use sts_agent.Aggregator.Metric.{Class, create, Metric, Data, sample, sample_data, sample_monotonic}
use sts_agent.Aggregator.Metric.Point.{MetricTypes, Point, Setting, plain}
use sts_agent.Aggregator.Metric.Flush.{flush, flush_data}
use sts_agent.Aggregator.Metric.Calls.{Call, values, IsKept, call, run, total, increases}

module _ {V : Type 0} (num : Number V) (lawful : IsLawful num) where
  or_zero-some : (v : V) → or_zero num (some v) ≡ v
  or_zero-some v = elim (Bool-cases (is_zero num v)) [
    | inl e ↦ rw e (sym ((lawful.equal_iff v (nought num)).0 e))
    | inr e ↦ rw e refl
  ]

-- What the metric has counted and not yet reported.
abbrev pub counted : {A : Type 0} → Metric A → Option A
counted m = elim m.state [ Data.count v ↦ v | Data.monotonic_count prev curr t ↦ t | _ ↦ none ]

module _ {V : Type 0} (num : Number V) where
  -- The values reported and what is left to report, in one sum.
  abbrev pub reported : List V × Metric V → V
  reported (points, m) = num.add (total num points) (or_zero num (counted m))

module _ {V : Type 0} (num : Number V) (lawful : IsLawful num) (setting : Setting V)
    (kept : IsKept setting) (interval : ℕ) where
  reported-point :
      (p : Point V) (r : List V × Metric V)
      → reported num ((setting.formatter p).value ∷ r.0, r.1) ≡ num.add p.value (reported num r)
  reported-point p r =
      cc (kept p, lawful.add_assoc p.value (total num r.0) (or_zero num (counted r.1)))

  total-run :
      (cs : List (Call V)) (m : Metric V) (v : Option V)
      → reported num (run num setting interval cs (record m { state = Data.count v }))
        ≡ num.add (or_zero num v) (total num (values cs))
  unfolding run call sample sample_data flush flush_data
  total-run [] m v = cc (lawful.add_nought (or_zero num v), lawful.add_nought_right (or_zero num v))
  total-run (Call.sampled x sample_rate timestamp now ∷ cs) m v =
      let next = record m { last_sample_time = some now } in
      cc (
        total-run cs next (some (num.add (or_zero num v) x)),
        or_zero-some num lawful (num.add (or_zero num v) x),
        lawful.add_assoc (or_zero num v) x (total num (values cs)),
      )
  total-run (Call.flushed ts ∷ cs) m none = total-run cs m none
  total-run (Call.flushed ts ∷ cs) m (some x) =
      let after = record m { state = Data.count none } in
      cc (
        reported-point (plain setting ts interval m MetricTypes.count ts x)
            (run num setting interval cs after),
        total-run cs after none,
        lawful.add_nought (total num (values cs)),
        or_zero-some num lawful x,
      )

  -- The value that the next one is compared with.
  abbrev latest : Option V → Option V → Option V
  latest prev none = prev
  latest prev (some curr) = some curr

  -- A count goes with a current value.
  abbrev IsCounting : Option V → Option V → Type 0
  IsCounting none (some t) = ⊥
  IsCounting _ _ = Unit

  -- What `MonotonicCount.sample` adds to the count.
  abbrev increased : V → V → Option V → V
  increased prev x t = num.add (or_zero num t) (positive_part num (num.sub x prev))

  increased-run :
      (prev x : V) (now : ℕ) (t : Option V) (cs : List (Call V)) (m : Metric V)
      → reported num (
          run num setting interval cs (record m {
            last_sample_time = some now;
            state = Data.monotonic_count (some prev) (some x) (some (increased prev x t));
          }))
        ≡ num.add (or_zero num (some (increased prev x t))) (increases num (some x) (values cs))
      → reported num (
          run num setting interval cs (record m {
            last_sample_time = some now;
            state = Data.monotonic_count (some prev) (some x) (some (increased prev x t));
          }))
        ≡ num.add (or_zero num t) (increases num (some prev) (x ∷ values cs))
  increased-run prev x now t cs m h = cc (
    h,
    or_zero-some num lawful (increased prev x t),
    lawful.add_assoc (or_zero num t) (positive_part num (num.sub x prev))
        (increases num (some x) (values cs)),
  )

  increases-run :
      (cs : List (Call V)) (m : Metric V) (prev curr t : Option V)
      → IsCounting curr t
      → reported num
          (run num setting interval cs (record m { state = Data.monotonic_count prev curr t }))
        ≡ num.add (or_zero num t) (increases num (latest prev curr) (values cs))
  unfolding run call sample sample_data sample_monotonic flush flush_data
  increases-run [] m prev curr t h =
      cc (lawful.add_nought (or_zero num t), lawful.add_nought_right (or_zero num t))
  increases-run (Call.sampled x sample_rate timestamp now ∷ cs) m none none none h =
      increases-run cs (record m { last_sample_time = some now }) none (some x) none tt
  increases-run (Call.sampled x sample_rate timestamp now ∷ cs) m (some prev) none none h =
      increased-run prev x now none cs m (
        increases-run cs (record m { last_sample_time = some now }) (some prev) (some x)
          (some (increased prev x none)) tt)
  increases-run (Call.sampled x sample_rate timestamp now ∷ cs) m prev none (some t) h = elim h [ ]
  increases-run (Call.sampled x sample_rate timestamp now ∷ cs) m prev (some curr) t h =
      increased-run curr x now t cs m (
        increases-run cs (record m { last_sample_time = some now }) (some curr) (some x)
          (some (increased curr x t)) tt)
  increases-run (Call.flushed ts ∷ cs) m prev curr none h = increases-run cs m prev curr none h
  increases-run (Call.flushed ts ∷ cs) m prev none (some x) h = elim h [ ]
  increases-run (Call.flushed ts ∷ cs) m prev (some curr) (some x) h =
      let after = record m { state = Data.monotonic_count (some curr) none none } in
      cc (
        reported-point (plain setting ts interval m MetricTypes.count ts x)
            (run num setting interval cs after),
        increases-run cs after (some curr) none none tt,
        lawful.add_nought (increases num (some curr) (values cs)),
        or_zero-some num lawful x,
      )

  module _ (cs : List (Call V)) (name : String) (tags : Option (List String))
      (hostname device_name : Option String) where
    -- In any order of samples and flushes, the values that a Count reported and what it has still
    -- to report add up to the values that it sampled, if numbers add associatively with 0,
    -- their equality test is exact, and the formatter keeps values.
    pub run-Count :
        reported num
          (run num setting interval cs (create num Class.count name tags hostname device_name))
        ≡ total num (values cs)
    run-Count =
        total-run cs (create num Class.count name tags hostname device_name) none
        ∙ lawful.add_nought (total num (values cs))

    -- In any order of samples and flushes, the values that a MonotonicCount reported and what it
    -- has still to report add up to the increases from each sampled value to the next one,
    -- if numbers add associatively with 0, their equality test is exact, and the formatter keeps
    -- values.
    pub run-MonotonicCount :
        reported num (
          run num setting interval cs
            (create num Class.monotonic_count name tags hostname device_name))
        ≡ increases num none (values cs)
    run-MonotonicCount =
        increases-run cs (create num Class.monotonic_count name tags hostname device_name) none none
          none tt
        ∙ lawful.add_nought (increases num none (values cs))
