-- ===== src/Aggregator/Metric/Returns.antt =====
-- aggregator.py: the conditions under which `flush` of a metric raises nothing but OverflowError.
use sts_agent.Prelude.{
  ℕ, zero, suc, lt→ltb, ◌-◌, ◌/◌, ◌<◌, Bool, true, false, Option, none, some, List, [], ◌∷◌, negsuc,
  get_elem?, item, length, All, ◌==◌, leb, if◌then◌else◌, ◌≡◌, refl, inl, inr, Bool-cases, arith,
  split_last,
}
use sts_agent.Aggregator.Number.{Number, is_zero, nought, quotient}
use sts_agent.Aggregator.Metric.{Metric, Data}
use sts_agent.Aggregator.Metric.Point.{Result, returned, raised, overflow, Point, Setting}
use sts_agent.Aggregator.Metric.Histogram.{
  median_index, insert_value, sort_values, place, append_points, percentile_point,
  percentile_points, sum_and_average, rated_points, averaged, distribution, describe,
}
use sts_agent.Aggregator.Metric.Flush.{
  rate_of_counter, counter_points, described, flush_data, flush,
}

abbrev pub MayOverflow : {A : Type 0} → Result A → Type 0
MayOverflow (returned a) = Unit
MayOverflow (raised e) = e ≡ overflow

abbrev IsSome : {A : Type 0} → Option A → Type 0
IsSome none = ⊥
IsSome (some a) = Unit

module _ {V : Type 0} where
  get_elem?-IsSome : (xs : List V) (i : ℕ) → i < length xs → IsSome (get_elem? xs i)
  get_elem?-IsSome [] i h = absurd (omega arith)
  get_elem?-IsSome (x ∷ xs) zero h = tt
  get_elem?-IsSome (x ∷ xs) (suc i) h = get_elem?-IsSome xs i (omega arith)

  item-negsuc-IsSome : (xs : List V) (i : ℕ) → i < length xs → IsSome (item xs (negsuc i))
  item-negsuc-IsSome xs i h =
      rw (lt→ltb i (length xs) h) (get_elem?-IsSome xs (length xs - 1 - i) (omega arith))

  median-IsSome : (x : V) (xs : List V) → IsSome (item (x ∷ xs) (median_index (length (x ∷ xs))))
  unfolding median_index
  median-IsSome x xs = elim (Bool-cases (leb 1 (suc (length xs) / 2))) [
    | inl e ↦ rw e (get_elem?-IsSome (x ∷ xs) (suc (length xs) / 2 - 1) (ground arith))
    | inr e ↦ rw e (item-negsuc-IsSome (x ∷ xs) (1 - suc (length xs) / 2 - 1) (omega arith))
  ]

  append_points-MayOverflow :
      (points : List (Point V)) (more : Result (List (Point V)))
      → MayOverflow more
      → MayOverflow (append_points points more)
  unfolding append_points
  append_points-MayOverflow points (returned more) h = tt
  append_points-MayOverflow points (raised e) h = h

module _ {V : Type 0} (num : Number V) where
  -- Each configured percentile finds a sample, however many there are.
  abbrev pub IsInRange : List V → Type 0
  IsInRange percentiles =
      All (λ p. (x : V) (xs : List V) → IsSome (item (x ∷ xs) (place num p (length (x ∷ xs)))))
        percentiles

  -- A histogram that has counted something has samples.
  abbrev pub IsSound : Data V → Type 0
  IsSound (Data.histogram counted []) = is_zero num counted ≡ true
  IsSound _ = Unit

  IsNonempty : List V → Type 0
  IsNonempty [] = ⊥
  IsNonempty (x ∷ xs) = Unit

  if_IsNonempty :
      (b : Bool) (xs ys : List V)
      → IsNonempty xs
      → IsNonempty ys
      → IsNonempty (if b then xs else ys)
  if_IsNonempty true xs ys hx hy = hx
  if_IsNonempty false xs ys hx hy = hy

  insert_value-IsNonempty : (x : V) (ys : List V) → IsNonempty (insert_value num x ys)
  unfolding IsNonempty insert_value
  insert_value-IsNonempty x [] = tt
  insert_value-IsNonempty x (y ∷ ys) =
      if_IsNonempty (num.less y x) (y ∷ insert_value num x ys) (x ∷ y ∷ ys) tt tt

  sort_values-IsNonempty : (x : V) (xs : List V) → IsNonempty (sort_values num (x ∷ xs))
  unfolding sort_values
  sort_values-IsNonempty x xs = insert_value-IsNonempty x (sort_values num xs)

module _ {V : Type 0} (num : Number V) (setting : Setting V) (ts interval : ℕ) (m : Metric V)
    (in_range : IsInRange num setting.percentiles) (positive : (interval == 0) ≡ false) where
  percentile_point-MayOverflow :
      (p : V) (o : Option V) (rest : Result (List (Point V)))
      → IsSome o
      → MayOverflow rest
      → MayOverflow (percentile_point num setting ts interval m p o rest)
  unfolding percentile_point
  percentile_point-MayOverflow p none rest h returns = elim h [ ]
  percentile_point-MayOverflow p (some v) rest h returns = append_points-MayOverflow _ rest returns

  percentile_points-MayOverflow :
      (x : V) (xs ps : List V)
      → IsInRange num ps
      → MayOverflow (percentile_points num setting ts interval m (x ∷ xs) ps)
  unfolding percentile_points
  percentile_points-MayOverflow x xs [] h = tt
  percentile_points-MayOverflow x xs (p ∷ ps) h =
      percentile_point-MayOverflow p (item (x ∷ xs) (place num p (length (x ∷ xs))))
        (percentile_points num setting ts interval m (x ∷ xs) ps) (h.0 x xs)
        (percentile_points-MayOverflow x xs ps h.1)

  rated_points-MayOverflow :
      (low high med : V) (sums : V × V) (x : V) (xs : List V) (o : Option V)
      → MayOverflow (rated_points num setting ts interval m low high med sums (x ∷ xs) o)
  rated_points-MayOverflow low high med (sum, average) x xs none = refl
  rated_points-MayOverflow low high med (sum, average) x xs (some rate) =
      append_points-MayOverflow _ _
        (percentile_points-MayOverflow x xs setting.percentiles in_range)

  averaged-MayOverflow :
      (counted low high med x : V) (xs : List V) (o : Option (V × V))
      → MayOverflow (averaged num setting ts interval m counted low high med (x ∷ xs) o)
  averaged-MayOverflow counted low high med x xs none = refl
  averaged-MayOverflow counted low high med x xs (some sums) = rw positive (
      rated_points-MayOverflow low high med sums x xs (quotient num counted (num.seconds interval)))

  distribution-MayOverflow :
      (counted high : V) (x : V) (xs : List V) (o : Option V)
      → IsSome o
      → MayOverflow (distribution num setting ts interval m counted x high (x ∷ xs) o)
  unfolding distribution
  distribution-MayOverflow counted high x xs none h = elim h [ ]
  distribution-MayOverflow counted high x xs (some med) h =
      averaged-MayOverflow counted x high med x xs (sum_and_average num (x ∷ xs))

  describe-MayOverflow :
      (counted : V) (xs : List V)
      → IsNonempty num xs
      → MayOverflow (describe num setting ts interval m counted xs)
  unfolding describe IsNonempty
  describe-MayOverflow counted [] h = elim h [ ]
  describe-MayOverflow counted (x ∷ xs) h =
      distribution-MayOverflow counted (split_last x xs).1 x xs
        (item (x ∷ xs) (median_index (length (x ∷ xs)))) (median-IsSome x xs)

  -- The call returns or overflows, and leaves a sound state.
  abbrev IsSoundFlush : Result (List (Point V)) × Data V → Type 0
  IsSoundFlush (points, state) = MayOverflow points × IsSound num state

  described-IsSoundFlush :
      (counted : V) (samples : List V) (o : Result (List (Point V)))
      → is_zero num (nought num) ≡ true
      → IsSound num (Data.histogram counted samples)
      → MayOverflow o
      → IsSoundFlush (described num setting ts interval m counted samples o)
  described-IsSoundFlush counted samples (raised e) z sound h = (h, sound)
  described-IsSoundFlush counted samples (returned points) z sound h = (tt, z)

  counter-IsSoundFlush :
      (o : Option V)
      → IsSoundFlush (rate_of_counter num setting ts interval m o, Data.counter (nought num))
  counter-IsSoundFlush none = (refl, tt)
  counter-IsSoundFlush (some rate) = (tt, tt)

  nonempty-IsSound :
      (counted : V) (xs : List V) → IsNonempty num xs → IsSound num (Data.histogram counted xs)
  unfolding IsNonempty
  nonempty-IsSound counted [] h = elim h [ ]
  nonempty-IsSound counted (x ∷ xs) h = tt

  flush_data-IsSoundFlush :
      (state : Data V)
      → is_zero num (nought num) ≡ true
      → IsSound num state
      → IsSoundFlush (flush_data num setting ts interval m state)
  unfolding flush_data counter_points
  flush_data-IsSoundFlush (Data.raw values) z h = (tt, tt)
  flush_data-IsSoundFlush (Data.gauge value timestamp) z h = (tt, tt)
  flush_data-IsSoundFlush (Data.bucket_gauge value timestamp) z h = (tt, tt)
  flush_data-IsSoundFlush (Data.count value) z h = (tt, tt)
  flush_data-IsSoundFlush (Data.monotonic_count prev curr none) z h = (tt, tt)
  flush_data-IsSoundFlush (Data.monotonic_count prev curr (some t)) z h = (tt, tt)
  flush_data-IsSoundFlush (Data.counter value) z h =
      rw positive (counter-IsSoundFlush (quotient num value (num.seconds interval)))
  flush_data-IsSoundFlush (Data.histogram counted []) z h = rw h (tt, h)
  flush_data-IsSoundFlush (Data.histogram counted (x ∷ xs)) z h =
      elim (Bool-cases (is_zero num counted)) [
        | inl e ↦ rw e (tt, tt)
        | inr e ↦
            let samples = sort_values num (x ∷ xs) in
            rw e (
              described-IsSoundFlush counted samples
                (describe num setting ts interval m counted samples) z
                (nonempty-IsSound counted samples (sort_values-IsNonempty num x xs))
                (describe-MayOverflow counted samples (sort_values-IsNonempty num x xs)))
      ]
  flush_data-IsSoundFlush (Data.set values) z h = (tt, tt)
  flush_data-IsSoundFlush (Data.rate []) z h = (tt, tt)
  flush_data-IsSoundFlush (Data.rate (x ∷ [])) z h = (tt, tt)
  flush_data-IsSoundFlush (Data.rate (x ∷ y ∷ ys)) z h = (tt, tt)

  pub flush-IsSoundFlush :
      is_zero num (nought num) ≡ true
      → IsSound num m.state
      → MayOverflow (flush num setting ts interval m).0
        × IsSound num (flush num setting ts interval m).1.state
  unfolding flush
  flush-IsSoundFlush z h = flush_data-IsSoundFlush m.state z h
