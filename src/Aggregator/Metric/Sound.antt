-- ===== src/Aggregator/Metric/Sound.antt =====
-- aggregator.py: samples keep the condition under which a metric's flush does not raise.
use sts_agent.Prelude.{ℕ, true, Option, none, some, List, [], ◌∷◌, ◌++◌, String, ◌≡◌}
use sts_agent.Aggregator.Number.{Number, is_zero, nought, multiplicity}
use sts_agent.Aggregator.Metric.{
  Class, Metric, Data, empty, sample_monotonic, sample_data, scaled, observed, sampled, sample,
  create,
}
use sts_agent.Aggregator.Metric.Returns.{IsSound}

module _ {V : Type 0} (num : Number V) where
  empty-IsSound : (c : Class) → is_zero num (nought num) ≡ true → IsSound num (empty num c)
  empty-IsSound Class.raw z = tt
  empty-IsSound Class.gauge z = tt
  empty-IsSound Class.bucket_gauge z = tt
  empty-IsSound Class.count z = tt
  empty-IsSound Class.monotonic_count z = tt
  empty-IsSound Class.counter z = tt
  empty-IsSound Class.histogram z = z
  empty-IsSound Class.set z = tt
  empty-IsSound Class.rate z = tt

  pub create-IsSound :
      (c : Class) (name : String) (tags : Option (List String))
      (hostname device_name : Option String)
      → is_zero num (nought num) ≡ true
      → IsSound num (create num c name tags hostname device_name).state
  create-IsSound c name tags hostname device_name z = empty-IsSound c z

  -- The state after a sample, if it does not raise, is sound.
  abbrev IsSoundly : Option (Data V) → Type 0
  IsSoundly none = Unit
  IsSoundly (some d) = IsSound num d

  scaled-IsSoundly : (v value : V) (n : Option V) → IsSoundly (scaled num v value n)
  scaled-IsSoundly v value none = tt
  scaled-IsSoundly v value (some n) = tt

  append-IsSound :
      (counted v : V) (samples : List V) → IsSound num (Data.histogram counted (samples ++ v ∷ []))
  append-IsSound counted v [] = tt
  append-IsSound counted v (x ∷ xs) = tt

  observed-IsSoundly :
      (v counted : V) (samples : List V) (n : Option V)
      → IsSoundly (observed num v counted samples n)
  observed-IsSoundly v counted samples none = tt
  observed-IsSoundly v counted samples (some n) = append-IsSound (num.add counted n) v samples

  monotonic-IsSound :
      (v : V) (prev curr t : Option V) → IsSound num (sample_monotonic num v prev curr t)
  unfolding sample_monotonic
  monotonic-IsSound v none none t = tt
  monotonic-IsSound v (some prev) none t = tt
  monotonic-IsSound v prev (some curr) t = tt

  sample_data-IsSoundly :
      (v sample_rate : V) (timestamp : Option ℕ) (now : ℕ) (d : Data V)
      → IsSoundly (sample_data num v sample_rate timestamp now d)
  unfolding sample_data
  sample_data-IsSoundly v sample_rate timestamp now (Data.raw values) = tt
  sample_data-IsSoundly v sample_rate timestamp now (Data.gauge value _) = tt
  sample_data-IsSoundly v sample_rate timestamp now (Data.bucket_gauge value _) = tt
  sample_data-IsSoundly v sample_rate timestamp now (Data.count value) = tt
  sample_data-IsSoundly v sample_rate timestamp now (Data.monotonic_count prev curr t) =
      monotonic-IsSound v prev curr t
  sample_data-IsSoundly v sample_rate timestamp now (Data.counter value) =
      scaled-IsSoundly v value (multiplicity num sample_rate)
  sample_data-IsSoundly v sample_rate timestamp now (Data.histogram counted samples) =
      observed-IsSoundly v counted samples (multiplicity num sample_rate)
  sample_data-IsSoundly v sample_rate timestamp now (Data.set values) = tt
  sample_data-IsSoundly v sample_rate timestamp now (Data.rate samples) = tt

  -- The same for a metric.
  abbrev pub IsSampled : Option (Metric V) → Type 0
  IsSampled none = Unit
  IsSampled (some m) = IsSound num m.state

  sampled-IsSampled :
      (m : Metric V) (now : ℕ) (o : Option (Data V)) → IsSoundly o → IsSampled (sampled num m now o)
  sampled-IsSampled m now none h = tt
  sampled-IsSampled m now (some d) h = h

  pub sample-IsSampled :
      (v sample_rate : V) (timestamp : Option ℕ) (now : ℕ) (m : Metric V)
      → IsSampled (sample num v sample_rate timestamp now m)
  unfolding sample
  sample-IsSampled v sample_rate timestamp now m =
      sampled-IsSampled m now (sample_data num v sample_rate timestamp now m.state)
        (sample_data-IsSoundly v sample_rate timestamp now m.state)
