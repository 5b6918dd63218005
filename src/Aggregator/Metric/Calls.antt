-- ===== src/Aggregator/Metric/Calls.antt =====
-- aggregator.py, a metric in use: samples and flushes in any order.
use sts_agent.Prelude.{ℕ, Option, none, some, List, [], ◌∷◌, ◌++◌, map, ◌≡◌}
use sts_agent.Aggregator.Number.{Number, nought, positive_part}
use sts_agent.Aggregator.Metric.{Metric, sample}
use sts_agent.Aggregator.Metric.Point.{Result, returned, raised, Point, Setting}
use sts_agent.Aggregator.Metric.Flush.{flush}

pub data Call (V : Type 0) : Type 0 where
  sampled : (value sample_rate : V) → (timestamp : Option ℕ) → (now : ℕ) → Call V
  flushed : (timestamp : ℕ) → Call V

-- The samples among the calls.
abbrev pub values : {V : Type 0} → List (Call V) → List V
values [] = []
values (Call.sampled v sample_rate timestamp now ∷ cs) = v ∷ values cs
values (Call.flushed ts ∷ cs) = values cs

-- A formatter that leaves the values alone.
abbrev pub IsKept : {A : Type 0} → Setting A → Type 0
IsKept {A = A} setting = (p : Point A) → (setting.formatter p).value ≡ p.value

-- A call that raises reports nothing.
abbrev pub points_of : {V : Type 0} → Result (List (Point V)) → List (Point V)
points_of (returned points) = points
points_of (raised e) = []

module _ {V : Type 0} (num : Number V) (setting : Setting V) (interval : ℕ) where
  -- A sample that raises leaves the metric as it was.
  abbrev sampled_or : Metric V → Option (Metric V) → Metric V
  sampled_or m none = m
  sampled_or m (some m') = m'

  unfoldable pub call : Call V → Metric V → List (Point V) × Metric V
  call (Call.sampled v sample_rate timestamp now) m =
      ([], sampled_or m (sample num v sample_rate timestamp now m))
  call (Call.flushed ts) m =
      let (points, m') = flush num setting ts interval m in (points_of points, m')

  -- The values reported by a sequence of calls, and the metric after it.
  unfoldable pub run : List (Call V) → Metric V → List V × Metric V
  unfolding call
  run [] m = ([], m)
  run (c ∷ cs) m =
      let (points, m') = call c m in
      let (more, last) = run cs m' in (map (λ p. p.value) points ++ more, last)

module _ {V : Type 0} (num : Number V) where
  abbrev pub total : List V → V
  total [] = nought num
  total (v ∷ vs) = num.add v (total vs)

  -- The increases from each value to the next one, from the last value seen on; decreases are 0.
  abbrev pub increases : Option V → List V → V
  increases last [] = nought num
  increases none (v ∷ vs) = increases (some v) vs
  increases (some u) (v ∷ vs) = num.add (positive_part num (num.sub v u)) (increases (some v) vs)
