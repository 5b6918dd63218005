-- ===== src/Aggregator/Buckets/Closed.antt =====
-- aggregator.py, MetricsBucketAggregator: which buckets a flush closes, and where a point goes.
use sts_agent.Prelude.{
  ℕ, Bool, true, false, ◌&&◌, ◌||◌, Option, none, some, List, [], ◌∷◌, map, ltb, ◌==◌, ==_iff,
  if◌then◌else◌, ◌≡◌, ◌↔◌, refl, sym, ◌∙◌, inl, inr, Bool-cases, arith,
}
use mathlib.Core.Bool.{false≢true}
use sts_agent.Prelude.Dicts.{lookup, insert, pop, lookup-insert_other, lookup-pop, lookup-pop_other}
use sts_agent.Prelude.Bag.{contains}
use sts_agent.Aggregator.Metric.{Metric}
use sts_agent.Aggregator.Metric.Point.{Error, Result, returned, raised, Point}
use sts_agent.Aggregator.State.{Context}
use sts_agent.Aggregator.Buckets.{BucketAggregator, same_start}
use sts_agent.Aggregator.Buckets.Flush.{go_on}

pub same_start_iff : (a b : ℕ) → (same_start a b ≡ true) ↔ (a ≡ b)
same_start_iff a b = ==_iff a b

-- A time before the cutoff is not one after it.
differs :
    (start s cutoff : ℕ) → ltb start cutoff ≡ true → ltb s cutoff ≡ false → (start == s) ≡ false
differs start s cutoff h k = ground arith

before : (start s cutoff : ℕ) → ltb start cutoff ≡ true → (start == s) ≡ true → ltb s cutoff ≡ true
before start s cutoff h k = ground arith

-- One bucket after the others.
cleared_by {ℓ} :
    {A : Type ℓ} (a b c : Bool) (o w : Option A)
    → o ≡ (if a then none else w)
    → (a ≡ true → c ≡ true)
    → (if b && c then none else o) ≡ (if (a || b) && c then none else w)
cleared_by true true true o w h k = refl
cleared_by true false true o w h k = h
cleared_by true b false o w h k = absurd (false≢true (k refl))
cleared_by false true true o w h k = refl
cleared_by false true false o w h k = h
cleared_by false false c o w h k = h

-- A bucket that is left.
skipped_by {ℓ} :
    {A : Type ℓ} (a b c : Bool) (w : Option A)
    → (a ≡ true → c ≡ false)
    → (if b && c then none else w) ≡ (if (a || b) && c then none else w)
skipped_by false b c w k = refl
skipped_by true true false w k = refl
skipped_by true false false w k = refl
skipped_by true b true w k = absurd (false≢true (sym (k refl)))

after : (start s cutoff : ℕ) → ltb start cutoff ≡ false → (start == s) ≡ true → ltb s cutoff ≡ false
after start s cutoff h k = ground arith

-- A bucket that is not there is gone.
pub present_by {ℓ} :
    {A : Type ℓ} (b c : Bool) (w : Option A)
    → (b ≡ false → w ≡ none)
    → (if b && c then none else w) ≡ (if c then none else w)
present_by true c w k = refl
present_by false true w k = k refl
present_by false false w k = refl

abbrev pub Buckets : Type 0 → Type 0
Buckets A = List (ℕ × List (Context × Metric A))

module _ {V : Type 0} where
  pub lookup-closed :
      (start s : ℕ) (metrics : List (Context × Metric V)) (buckets : Buckets V)
      → lookup same_start s (pop same_start start (insert same_start start metrics buckets))
        ≡ (if start == s then none else lookup same_start s buckets)
  lookup-closed start s metrics buckets = elim (Bool-cases (start == s)) [
    | inl e ↦
        rw (e, (==_iff start s).0 e)
          (lookup-pop same_start same_start_iff s (insert same_start s metrics buckets))
    | inr e ↦ rw e (
        lookup-pop_other same_start same_start_iff s start (insert same_start start metrics buckets)
          e
        ∙ lookup-insert_other same_start same_start_iff s start metrics buckets e)
  ]

  -- What a bucket's flush does to the dictionary of buckets: an exception leaves the others.
  unfoldable pub IsClosed :
      ℕ → Buckets V → (BucketAggregator V × List (Point V)) × Option Error → Type 0
  IsClosed start buckets ((agg, points), none) =
      (s : ℕ)
      → lookup same_start s agg.metric_by_bucket
        ≡ (if start == s then none else lookup same_start s buckets)
  IsClosed start buckets ((agg, points), some e) =
      (s : ℕ)
      → (start == s) ≡ false
      → lookup same_start s agg.metric_by_bucket ≡ lookup same_start s buckets

  -- What the flush of some buckets does to the dictionary.
  unfoldable pub IsCleared :
      ℕ → List ℕ → Buckets V → (BucketAggregator V × List (Point V)) × Option Error → Type 0
  IsCleared cutoff starts buckets ((agg, points), none) =
      (s : ℕ)
      → lookup same_start s agg.metric_by_bucket
        ≡ (if contains s starts && ltb s cutoff then none else lookup same_start s buckets)
  IsCleared cutoff starts buckets ((agg, points), some e) =
      (s : ℕ)
      → ltb s cutoff ≡ false
      → lookup same_start s agg.metric_by_bucket ≡ lookup same_start s buckets

  pub go_on-IsCleared :
      (cutoff start : ℕ) (starts : List ℕ) (buckets : Buckets V)
      (now after : (BucketAggregator V × List (Point V)) × Option Error)
      → ltb start cutoff ≡ true
      → IsClosed start buckets now
      → IsCleared cutoff starts now.0.0.metric_by_bucket after
      → IsCleared cutoff (start ∷ starts) buckets (go_on now after)
  unfolding IsClosed IsCleared contains
  go_on-IsCleared cutoff start starts buckets ((agg, points), some e) after h closed cleared =
      λ s k. closed s (differs start s cutoff h k)
  go_on-IsCleared cutoff start starts buckets ((agg, points), none) (out, some e) h closed cleared =
      λ s k. cleared s k ∙ closed s ∙ rw (differs start s cutoff h k) refl
  go_on-IsCleared cutoff start starts buckets ((agg, points), none) (out, none) h closed cleared =
      λ s.
        cleared s
        ∙ cleared_by (start == s) (contains s starts) (ltb s cutoff)
            (lookup same_start s agg.metric_by_bucket) (lookup same_start s buckets) (closed s)
            (before start s cutoff h)

  pub skip-IsCleared :
      (cutoff start : ℕ) (starts : List ℕ) (buckets : Buckets V)
      (out : (BucketAggregator V × List (Point V)) × Option Error)
      → ltb start cutoff ≡ false
      → IsCleared cutoff starts buckets out
      → IsCleared cutoff (start ∷ starts) buckets out
  unfolding IsCleared contains
  skip-IsCleared cutoff start starts buckets (out, some e) h cleared = cleared
  skip-IsCleared cutoff start starts buckets (out, none) h cleared = λ s.
      cleared s
      ∙ skipped_by (start == s) (contains s starts) (ltb s cutoff) (lookup same_start s buckets)
          (after start s cutoff h)

  pub lookup-missing :
      (s : ℕ) (buckets : Buckets V)
      → contains s (map (λ b. b.0) buckets) ≡ false
      → lookup same_start s buckets ≡ none
  unfolding lookup contains
  lookup-missing s [] h = refl
  lookup-missing s ((start, metrics) ∷ rest) h = ground (arith, lookup-missing s rest)

  -- Every bucket that starts before the cutoff is gone after a flush that returns, and no other
  -- bucket is touched, whether it returns or raises.
  unfoldable pub IsFlushed : ℕ → Buckets V → Result (List (Point V)) × BucketAggregator V → Type 0
  IsFlushed cutoff buckets (returned points, agg) =
      (s : ℕ)
      → lookup same_start s agg.metric_by_bucket
        ≡ (if ltb s cutoff then none else lookup same_start s buckets)
  IsFlushed cutoff buckets (raised e, agg) =
      (s : ℕ)
      → ltb s cutoff ≡ false
      → lookup same_start s agg.metric_by_bucket ≡ lookup same_start s buckets
