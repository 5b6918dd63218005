-- ===== src/Aggregator/Metric/Median.antt =====
-- aggregator.py, class Histogram: the rank of the median among the samples.
use sts_agent.Prelude.{
  ℕ, zero, suc, ◌-◌, ◌/◌, ◌≤◌, ◌<◌, true, false, none, some, List, [], ◌∷◌, pos, difference,
  get_elem?, item, length, select, All, All-map, leb, ◌≡◌, refl, ap, ◌∙◌, sym, subst, inl, inr,
  Bool-cases, arith,
}
use sts_agent.Aggregator.Number.{Number}
use sts_agent.Aggregator.Metric.Histogram.{median_index, insert_value, sort_values}

-- What comparison satisfies.
pub record IsOrdered {V : Type 0} (num : Number V) : Type 0 where
  pub irrefl : (v : V) → num.less v v ≡ false
  pub asym : (u v : V) → num.less u v ≡ true → num.less v u ≡ false
  pub trans : (u v w : V) → num.less v u ≡ false → num.less w v ≡ false → num.less w u ≡ false

module _ {V : Type 0} (num : Number V) where
  -- None of the later values is less.
  IsSorted : List V → Type 0
  IsSorted [] = Unit
  IsSorted (x ∷ xs) = All (λ y. num.less y x ≡ false) xs × IsSorted xs

  -- How many of the values are less than `v`.
  abbrev pub below : V → List V → ℕ
  below v xs = length (select (λ x. num.less x v) xs)

  below-insert_value : (v x : V) (xs : List V) → below v (insert_value num x xs) ≡ below v (x ∷ xs)
  unfolding insert_value
  below-insert_value v x [] = refl
  below-insert_value v x (y ∷ ys) = elim (Bool-cases (num.less y x)) [
    | inl e ↦ rw e (ground (arith, below-insert_value v x ys))
    | inr e ↦ rw e refl
  ]

  below-sort_values : (v : V) (xs : List V) → below v (sort_values num xs) ≡ below v xs
  unfolding sort_values
  below-sort_values v [] = refl
  below-sort_values v (x ∷ xs) =
      ground (arith, below-insert_value v x (sort_values num xs), below-sort_values v xs)

  length-insert_value : (x : V) (xs : List V) → length (insert_value num x xs) ≡ suc (length xs)
  unfolding insert_value
  length-insert_value x [] = refl
  length-insert_value x (y ∷ ys) = ground (arith, length-insert_value x ys)

  length-sort_values : (xs : List V) → length (sort_values num xs) ≡ length xs
  unfolding sort_values
  length-sort_values [] = refl
  length-sort_values (x ∷ xs) =
      omega (arith, length-insert_value x (sort_values num xs), length-sort_values xs)

  All-insert_value :
      (P : V → Type 0) (x : V) (xs : List V) → P x → All P xs → All P (insert_value num x xs)
  unfolding insert_value
  All-insert_value P x [] p h = (p, tt)
  All-insert_value P x (y ∷ ys) p h = elim (Bool-cases (num.less y x)) [
    | inl e ↦ rw e (h.0, All-insert_value P x ys p h.1)
    | inr e ↦ rw e (p, h)
  ]

  below-none : (v : V) (xs : List V) → All (λ y. num.less y v ≡ false) xs → below v xs ≡ 0
  below-none v [] h = refl
  below-none v (x ∷ xs) h = rw h.0 (below-none v xs h.1)

module _ {V : Type 0} (num : Number V) (ordered : IsOrdered num) where
  insert_value-IsSorted :
      (x : V) (xs : List V) → IsSorted num xs → IsSorted num (insert_value num x xs)
  unfolding IsSorted insert_value
  insert_value-IsSorted x [] h = (tt, tt)
  insert_value-IsSorted x (y ∷ ys) h = elim (Bool-cases (num.less y x)) [
    | inl e ↦ rw e (
      All-insert_value num (λ z. num.less z y ≡ false) x ys (ordered.asym y x e) h.0,
      insert_value-IsSorted x ys h.1,
    )
    | inr e ↦ rw e (
      (
        e,
        All-map (λ z. num.less z y ≡ false) (λ z. num.less z x ≡ false) (λ z. ordered.trans x y z e)
            ys h.0,
      ),
      h,
    )
  ]

  sort_values-IsSorted : (xs : List V) → IsSorted num (sort_values num xs)
  unfolding IsSorted sort_values
  sort_values-IsSorted [] = tt
  sort_values-IsSorted (x ∷ xs) =
      insert_value-IsSorted x (sort_values num xs) (sort_values-IsSorted xs)

  -- At most `i` of the values are less than the one at the place `i` of a sorted list.
  below-get_elem? :
      (xs : List V) (i : ℕ) (v : V) → IsSorted num xs → get_elem? xs i ≡ some v → below num v xs ≤ i
  unfolding IsSorted
  below-get_elem? [] i v h e = absurd (ground arith)
  below-get_elem? (x ∷ xs) zero v h e =
      subst (λ w. below num w (x ∷ xs) ≤ 0) (ap (λ o. elim o [ none ↦ x | some w ↦ w ]) e)
        (rw (ordered.irrefl x) (omega (arith, below-none num x xs h.0)))
  below-get_elem? (x ∷ xs) (suc i) v h e = ground (arith, below-get_elem? xs i v h.1 e)

  below-single :
      (xs : List V) (v : V)
      → length xs < 2
      → item xs (median_index (length xs)) ≡ some v
      → below num v xs ≤ length xs / 2 - 1
  unfolding median_index
  below-single [] v h e = omega arith
  below-single (x ∷ []) v h e =
      subst (λ w. below num w (x ∷ []) ≤ 0) (ap (λ o. elim o [ none ↦ x | some w ↦ w ]) e)
        (rw (ordered.irrefl x) (omega arith))
  below-single (x ∷ y ∷ ys) v h e = absurd (omega arith)

  below-median :
      (xs : List V) (v : V)
      → IsSorted num xs
      → item xs (median_index (length xs)) ≡ some v
      → below num v xs ≤ length xs / 2 - 1
  unfolding median_index
  below-median xs v h e = elim (Bool-cases (leb 1 (length xs / 2))) [
    | inl c ↦
        let i = length xs / 2 - 1 in
        let place : difference (length xs / 2) 1 ≡ pos i = rw c refl in
        below-get_elem? xs i v h (sym (ap (item xs) place) ∙ e)
    | inr c ↦ below-single xs v (ground arith) e
  ]

  -- At most half of the number of samples, less one, are less than the median, if comparison is a
  -- strict order: of three samples none is.
  pub below-median_index :
      (samples : List V) (med : V)
      → item (sort_values num samples) (median_index (length (sort_values num samples))) ≡ some med
      → below num med samples ≤ length samples / 2 - 1
  below-median_index samples med e = omega (
    arith,
    below-median (sort_values num samples) med (sort_values-IsSorted samples) e,
    below-sort_values num med samples,
    length-sort_values num samples,
  )
