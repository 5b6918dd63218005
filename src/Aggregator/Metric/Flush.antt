-- ===== src/Aggregator/Metric/Flush.antt =====
-- aggregator.py, `flush` of the metric classes.
use sts_agent.Prelude.{
  ℕ, Option, none, some, List, [], ◌∷◌, pos, difference, length, ◌==◌, if◌then◌else◌,
}
use sts_agent.Aggregator.Number.{Number, nought, is_zero, quotient}
use sts_agent.Aggregator.Metric.{Metric, Data}
use sts_agent.Aggregator.Metric.Point.{
  Result, returned, raised, zero_division, overflow, MetricTypes, Point, Setting, or_time, point,
}
use sts_agent.Aggregator.Metric.Histogram.{sort_values, describe}

-- `samples[-2]` and `samples[-1]` of a list with `a` and `b` in front.
abbrev pub last_two {ℓ} : {A : Type ℓ} → A → A → List A → A × A
last_two a b [] = (a, b)
last_two a b (c ∷ cs) = last_two b c cs

module _ {V : Type 0} (num : Number V) where
  -- `Rate._rate`, `none` where it raises.
  unfoldable pub rate_between : ℕ × V → ℕ × V → Option V
  rate_between (t1, v1) (t2, v2) =
      if t1 == t2
      then none
      else if num.overflows v2 v1
      then none
      else if num.less (num.sub v2 v1) (nought num)
      then none
      else quotient num (num.sub v2 v1) (num.of_float (difference t2 t1))

module _ {V : Type 0} (num : Number V) (setting : Setting V) (ts interval : ℕ) (m : Metric V) where
  unfoldable pub raw_points : List (V × Option ℕ) → List (Point V)
  raw_points [] = []
  raw_points ((v, t) ∷ rest) =
      point setting ts interval m MetricTypes.raw (or_time t ts) v ∷ raw_points rest

  -- The one point of a value, if there is one.
  abbrev pub point_of : MetricTypes → ℕ → Option V → List (Point V)
  point_of type t none = []
  point_of type t (some v) = point setting ts interval m type t v ∷ []

  -- What `MonotonicCount.flush` leaves: without a count it returns early.
  abbrev pub rotate : Option V → Option V → Option V → Data V
  rotate prev curr none = Data.monotonic_count prev curr none
  rotate prev curr (some total) = Data.monotonic_count curr none none

  abbrev pub rate_points : List (ℕ × V) → List (Point V) × Data V
  rate_points [] = ([], Data.rate [])
  rate_points (x ∷ []) = ([], Data.rate (x ∷ []))
  rate_points (x ∷ y ∷ ys) =
      let (before, last) = last_two x y ys in
      (point_of MetricTypes.gauge ts (rate_between num before last), Data.rate (last ∷ []))

  abbrev pub rate_of_counter : Option V → Result (List (Point V))
  rate_of_counter none = raised overflow
  rate_of_counter (some rate) = returned (point setting ts interval m MetricTypes.rate ts rate ∷ [])

  unfoldable pub counter_points : V → Result (List (Point V))
  counter_points value =
      if interval == 0
      then raised zero_division
      else rate_of_counter (quotient num value (num.seconds interval))

  abbrev set_points : List V → List (Point V)
  set_points [] = []
  set_points (x ∷ xs) =
      point setting ts interval m MetricTypes.gauge ts (num.of_int (pos (length (x ∷ xs)))) ∷ []

  -- What `Histogram.flush` leaves: the samples are sorted in place before anything can fail.
  abbrev pub described : V → List V → Result (List (Point V)) → Result (List (Point V)) × Data V
  described total samples (raised e) = (raised e, Data.histogram total samples)
  described total samples (returned points) = (returned points, Data.histogram (nought num) [])

  -- The points and the attributes after the call.
  unfoldable pub flush_data : Data V → Result (List (Point V)) × Data V
  unfolding raw_points
  flush_data (Data.raw values) = (returned (raw_points values), Data.raw [])
  flush_data (Data.gauge value timestamp) = (
    returned (point_of MetricTypes.gauge (or_time timestamp ts) value),
    Data.gauge none timestamp,
  )
  flush_data (Data.bucket_gauge value timestamp) =
      (returned (point_of MetricTypes.gauge ts value), Data.bucket_gauge none timestamp)
  flush_data (Data.count value) = (returned (point_of MetricTypes.count ts value), Data.count none)
  flush_data (Data.monotonic_count prev curr total) =
      (returned (point_of MetricTypes.count ts total), rotate prev curr total)
  flush_data (Data.counter value) = (counter_points value, Data.counter (nought num))
  flush_data (Data.histogram total samples) =
      if is_zero num total
      then (returned [], Data.histogram total samples)
      else described total (sort_values num samples)
          (describe num setting ts interval m total (sort_values num samples))
  flush_data (Data.set values) = (returned (set_points values), Data.set [])
  flush_data (Data.rate samples) =
      let (points, state) = rate_points samples in (returned points, state)

  -- `metric.flush(timestamp, interval)`
  unfoldable pub flush : Result (List (Point V)) × Metric V
  flush = let (points, state) = flush_data m.state in (points, record m { state = state })
