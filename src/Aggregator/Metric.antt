-- ===== src/Aggregator/Metric.antt =====
-- aggregator.py, the metric classes: their attributes, `sample` and `flush`.
pub mod Point
pub mod Histogram
pub mod Flush
pub mod Calls
pub mod Totals
pub mod Returns
pub mod Sound
pub mod Uniques
pub mod Median
use sts_agent.Prelude.{
  ℕ, ◌+◌, ◌*◌, ◌/◌, Bool, true, false, ◌||◌, Option, none, some, List, [], ◌∷◌, ◌++◌, String, ℤ,
  if◌then◌else◌,
}
use sts_agent.Aggregator.Number.{Number, nought, or_zero, positive_part, multiplicity}

-- Times are microseconds.
abbrev pub second : ℕ
second = 1_000_000

pub data Class : Type 0 where
  raw : Class
  gauge : Class
  bucket_gauge : Class
  count : Class
  monotonic_count : Class
  counter : Class
  histogram : Class
  set : Class
  rate : Class

-- What the classes do not share: a constructor for each class, with its attributes in the order
-- in which its constructor assigns them.
pub data Data (V : Type 0) : Type 0 where
  raw : (values : List (V × Option ℕ)) → Data V
  gauge : (value : Option V) → (timestamp : Option ℕ) → Data V
  bucket_gauge : (value : Option V) → (timestamp : Option ℕ) → Data V
  count : (value : Option V) → Data V
  monotonic_count : (prev_counter curr_counter counted : Option V) → Data V
  counter : (value : V) → Data V
  histogram : (counted : V) → (samples : List V) → Data V
  set : (values : List V) → Data V
  rate : (samples : List (ℕ × V)) → Data V

pub record Metric (V : Type 0) : Type 0 where
  pub name : String
  pub tags : Option (List String)
  pub hostname : Option String
  pub device_name : Option String
  pub last_sample_time : Option ℕ
  pub state : Data V

-- `sys.maxint`, as a time
abbrev pub maxint : ℕ
maxint = 9_223_372_036_854_775_807 * second

module _ {V : Type 0} (num : Number V) where
  abbrev pub empty : Class → Data V
  empty Class.raw = Data.raw []
  empty Class.gauge = Data.gauge none none
  empty Class.bucket_gauge = Data.bucket_gauge none none
  empty Class.count = Data.count none
  empty Class.monotonic_count = Data.monotonic_count none none none
  empty Class.counter = Data.counter (nought num)
  empty Class.histogram = Data.histogram (nought num) []
  empty Class.set = Data.set []
  empty Class.rate = Data.rate []

  -- Raw metrics are never thrown away.
  abbrev pub first_sample_time : Class → Option ℕ
  first_sample_time Class.raw = some maxint
  first_sample_time _ = none

  -- The constructor of each class.
  abbrev pub create :
      Class → String → Option (List String) → Option String → Option String → Metric V
  create c name tags hostname device_name = record {
    name = name;
    tags = tags;
    hostname = hostname;
    device_name = device_name;
    last_sample_time = first_sample_time c;
    state = empty c;
  }

  -- `values.add(value)`
  set_add : V → List V → List V
  set_add v [] = v ∷ []
  set_add v (x ∷ xs) = if num.equal x v then x ∷ xs else x ∷ set_add v xs

  -- `MonotonicCount.sample` after `curr_counter` was moved on.
  abbrev increase : Option V → V → Option V → Data V
  increase none curr total = Data.monotonic_count none (some curr) total
  increase (some prev) curr total =
      Data.monotonic_count (some prev) (some curr)
        (some (num.add (or_zero num total) (positive_part num (num.sub curr prev))))

  unfoldable pub sample_monotonic : V → Option V → Option V → Option V → Data V
  sample_monotonic v prev none total = increase prev v total
  sample_monotonic v prev (some curr) total = increase (some curr) v total

  -- `self.value += value * int(1 / sample_rate)`
  abbrev scaled : V → V → Option V → Option (Data V)
  scaled v value none = none
  scaled v value (some n) = some (Data.counter (num.add value (num.mul v n)))

  -- `self.count += int(1 / sample_rate)` and `self.samples.append(value)`
  abbrev observed : V → V → List V → Option V → Option (Data V)
  observed v total samples none = none
  observed v total samples (some n) = some (Data.histogram (num.add total n) (samples ++ v ∷ []))

  -- `sample` at the time `now`, but for the last sample time; `none` where it raises.
  unfoldable pub sample_data : V → V → Option ℕ → ℕ → Data V → Option (Data V)
  unfolding set_add sample_monotonic
  sample_data v sample_rate timestamp now (Data.raw values) =
      some (Data.raw (values ++ (v, timestamp) ∷ []))
  sample_data v sample_rate timestamp now (Data.gauge value _) =
      some (Data.gauge (some v) timestamp)
  sample_data v sample_rate timestamp now (Data.bucket_gauge value _) =
      some (Data.bucket_gauge (some v) timestamp)
  sample_data v sample_rate timestamp now (Data.count value) =
      some (Data.count (some (num.add (or_zero num value) v)))
  sample_data v sample_rate timestamp now (Data.monotonic_count prev curr total) =
      some (sample_monotonic v prev curr total)
  sample_data v sample_rate timestamp now (Data.counter value) =
      scaled v value (multiplicity num sample_rate)
  sample_data v sample_rate timestamp now (Data.histogram total samples) =
      observed v total samples (multiplicity num sample_rate)
  sample_data v sample_rate timestamp now (Data.set values) = some (Data.set (set_add v values))
  sample_data v sample_rate timestamp now (Data.rate samples) =
      some (Data.rate (samples ++ (now / second, v) ∷ []))

  -- Raw metrics keep the time of their constructor.
  abbrev sampled_at : ℕ → Option ℕ → Data V → Option ℕ
  sampled_at now last (Data.raw values) = last
  sampled_at now last _ = some now

  abbrev sampled : Metric V → ℕ → Option (Data V) → Option (Metric V)
  sampled m now none = none
  sampled m now (some d) =
      some (record m { last_sample_time = sampled_at now m.last_sample_time d; state = d })

  -- `metric.sample(value, sample_rate, timestamp)` at the time `now`
  unfoldable pub sample : V → V → Option ℕ → ℕ → Metric V → Option (Metric V)
  sample v sample_rate timestamp now m =
      sampled m now (sample_data v sample_rate timestamp now m.state)
