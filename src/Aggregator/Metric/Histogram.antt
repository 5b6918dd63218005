-- ===== src/Aggregator/Metric/Histogram.antt =====
-- aggregator.py, class Histogram: the order, the aggregates and the percentiles of its samples.
use Prim.Native.String.{◌++◌ as str_append}
use sts_agent.Prelude.{
  ℕ, ◌/◌, Option, none, some, List, [], ◌∷◌, ◌++◌, String, ℤ, pos, difference, item, length,
  split_last, ◌==◌, if◌then◌else◌,
}
use sts_agent.Aggregator.Number.{Number, nought, unit, quotient}
use sts_agent.Aggregator.Metric.{Metric}
use sts_agent.Aggregator.Metric.Point.{
  Result, returned, raised, index_error, zero_division, overflow, MetricTypes, Point, Setting,
  contains_string, suffixed,
}

-- `int(round(length / 2 - 1))`, where the division is that of integers.
unfoldable pub median_index : ℕ → ℤ
median_index n = difference (n / 2) 1

module _ {V : Type 0} (num : Number V) where
  unfoldable pub insert_value : V → List V → List V
  insert_value v [] = v ∷ []
  insert_value v (x ∷ xs) =
      let rest = insert_value v xs in if num.less x v then x ∷ rest else v ∷ x ∷ xs

  -- `samples.sort()`
  unfoldable pub sort_values : List V → List V
  sort_values [] = []
  sort_values (x ∷ xs) = insert_value x (sort_values xs)

  unfoldable pub sum_from : V → List V → Option V
  sum_from acc [] = some acc
  sum_from acc (x ∷ xs) =
      let rest = sum_from (num.add acc x) xs in if num.overflows acc x then none else rest

  -- `sum(xs)`, `none` where it raises OverflowError.
  unfoldable pub sum : List V → Option V
  sum xs = sum_from (nought num) xs

  abbrev pub with_average : Option V → Option V → Option (V × V)
  with_average none average = none
  with_average (some total) none = none
  with_average (some total) (some average) = some (total, average)

  abbrev pub average_of : List V → Option V → Option V
  average_of samples none = none
  average_of samples (some total) = quotient num total (num.of_float (pos (length samples)))

  -- `sum_` and `avg`
  unfoldable pub sum_and_average : List V → Option (V × V)
  sum_and_average samples = let total = sum samples in with_average total (average_of samples total)

module _ {V : Type 0} (num : Number V) where
  -- `int(round(p * length - 1))`
  unfoldable pub place : V → ℕ → ℤ
  place p n = num.round (num.sub (num.mul p (num.of_int (pos n))) (unit num))

-- The points of a list, in front of the others.
unfoldable pub append_points : {P : Type 0} → List P → Result (List P) → Result (List P)
append_points points (raised e) = raised e
append_points points (returned more) = returned (points ++ more)

module _ {V : Type 0} (num : Number V) (setting : Setting V) (ts interval : ℕ) (m : Metric V) where
  -- The aggregates that the configuration names.
  unfoldable pub aggregate_points : List (String × V × MetricTypes) → List (Point V)
  aggregate_points [] = []
  aggregate_points ((suffix, v, type) ∷ rest) =
      let points = aggregate_points rest in
      if contains_string suffix setting.aggregates
      then suffixed setting ts interval m suffix m.device_name type v ∷ points
      else points

  -- The point of one percentile, `none` where its position is out of range; it has no device.
  unfoldable pub percentile_point : V → Option V → Result (List (Point V)) → Result (List (Point V))
  percentile_point p none rest = raised index_error
  percentile_point p (some v) rest =
      let name = str_append (num.text (num.int (num.mul p (num.of_int (pos 100))))) "percentile" in
      append_points (suffixed setting ts interval m name none MetricTypes.gauge v ∷ []) rest

  -- `samples[int(round(p * length - 1))]` for each percentile.
  unfoldable pub percentile_points : List V → List V → Result (List (Point V))
  percentile_points samples [] = returned []
  percentile_points samples (p ∷ ps) =
      percentile_point p (item samples (place num p (length samples)))
        (percentile_points samples ps)

  -- The list `aggregators`.
  unfoldable pub aggregators : V → V → V → V → V → V → List (String × V × MetricTypes)
  aggregators low high med average sum rate =
      ("min", low, MetricTypes.gauge)
      ∷ ("max", high, MetricTypes.gauge)
      ∷ ("median", med, MetricTypes.gauge)
      ∷ ("avg", average, MetricTypes.gauge)
      ∷ ("sum", sum, MetricTypes.gauge)
      ∷ ("count", rate, MetricTypes.rate)
      ∷ []

  -- `self.count / interval` is `none` where it overflows.
  abbrev pub rated_points : V → V → V → V × V → List V → Option V → Result (List (Point V))
  rated_points low high med (sum, average) samples none = raised overflow
  rated_points low high med (sum, average) samples (some rate) =
      append_points (aggregate_points (aggregators low high med average sum rate))
        (percentile_points samples setting.percentiles)

  abbrev pub averaged : V → V → V → V → List V → Option (V × V) → Result (List (Point V))
  averaged total low high med samples none = raised overflow
  averaged total low high med samples (some sums) =
      if interval == 0
      then raised zero_division
      else rated_points low high med sums samples (quotient num total (num.seconds interval))

  -- The points of the sorted samples, whose least and greatest are `low` and `high`.
  unfoldable pub distribution : V → V → V → List V → Option V → Result (List (Point V))
  distribution total low high samples none = raised index_error
  distribution total low high samples (some med) =
      averaged total low high med samples (sum_and_average num samples)

  unfoldable pub describe : V → List V → Result (List (Point V))
  describe total [] = raised index_error
  describe total (x ∷ xs) =
      distribution total x (split_last x xs).1 (x ∷ xs)
        (item (x ∷ xs) (median_index (length (x ∷ xs))))
