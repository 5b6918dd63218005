-- ===== src/Aggregator/Metric/Uniques.antt =====
-- aggregator.py, class Set: the number of different values since the last flush.
use sts_agent.Prelude.{
  ℕ, Bool, false, ◌||◌, Option, some, List, [], ◌∷◌, map, pos, length, String, ◌≡◌, refl, sym, ap,
  ◌∙◌, inl, inr, Bool-cases, arith,
}
use sts_agent.Aggregator.Number.{Number, IsLawful}
use sts_agent.Aggregator.Metric.{Class, Metric, Data, create, set_add, sample, sample_data}
use sts_agent.Aggregator.Metric.Point.{Setting, MetricTypes, plain}
use sts_agent.Aggregator.Metric.Flush.{flush, flush_data}
use sts_agent.Aggregator.Metric.Calls.{Call, IsKept, points_of, call, run}

-- The values sampled since the last flush, behind `seen`.
abbrev pub window : {A : Type 0} → List (Call A) → List A → List A
window [] seen = seen
window (Call.sampled v sample_rate timestamp now ∷ cs) seen = window cs (v ∷ seen)
window (Call.flushed ts ∷ cs) seen = window cs []

module _ {V : Type 0} (num : Number V) where
  abbrev pub member : V → List V → Bool
  member v [] = false
  member v (x ∷ xs) = num.equal x v || member v xs

  abbrev pub IsUnique : List V → Type 0
  IsUnique [] = Unit
  IsUnique (x ∷ xs) = (member x xs ≡ false) × IsUnique xs

  -- The same values, each once.
  abbrev pub IsDistinct : List V → List V → Type 0
  IsDistinct values seen = IsUnique values × ((v : V) → member v values ≡ member v seen)

  -- What a Set reports for its values: their number, if there are any.
  abbrev pub sizes : List V → List V
  sizes [] = []
  sizes (x ∷ xs) = num.of_int (pos (length (x ∷ xs))) ∷ []

module _ {V : Type 0} (num : Number V) (lawful : IsLawful num) where
  equal-sym : (a b : V) → num.equal a b ≡ false → num.equal b a ≡ false
  equal-sym a b h = elim (Bool-cases (num.equal b a)) [
    | inl e ↦ absurd (ground (arith, (lawful.equal_iff a b).1 (sym ((lawful.equal_iff b a).0 e))))
    | inr e ↦ e
  ]

  member-set_add :
      (v x : V) (xs : List V) → member num v (set_add num x xs) ≡ (num.equal x v || member num v xs)
  unfolding set_add
  member-set_add v x [] = refl
  member-set_add v x (y ∷ ys) = elim (Bool-cases (num.equal y x)) [
    | inl e ↦ rw e (ground (arith, ap (λ z. num.equal z v) ((lawful.equal_iff y x).0 e)))
    | inr e ↦ rw e (ground (arith, member-set_add v x ys))
  ]

  set_add-IsUnique : (x : V) (xs : List V) → IsUnique num xs → IsUnique num (set_add num x xs)
  unfolding set_add
  set_add-IsUnique x [] h = (refl, tt)
  set_add-IsUnique x (y ∷ ys) h = elim (Bool-cases (num.equal y x)) [
    | inl e ↦ rw e h
    | inr e ↦ rw e (member-set_add y x ys ∙ rw (equal-sym y x e) h.0, set_add-IsUnique x ys h.1)
  ]

  set_add-IsDistinct :
      (x : V) (values seen : List V)
      → IsDistinct num values seen
      → IsDistinct num (set_add num x values) (x ∷ seen)
  set_add-IsDistinct x values seen (unique, same) = (
    set_add-IsUnique x values unique,
    λ v. member-set_add v x values ∙ ap (λ b. num.equal x v || b) (same v),
  )

module _ {V : Type 0} (num : Number V) (lawful : IsLawful num) (setting : Setting V)
    (kept : IsKept setting) (interval : ℕ) where
  -- The next flush reports the number of the different values that were seen.
  abbrev pub IsSetOf : List V → Metric V → Type 0
  IsSetOf seen m =
      (values : List V) × IsDistinct num values seen
      × ((ts : ℕ)
          → map (λ p. p.value) (points_of (flush num setting ts interval m).0) ≡ sizes num values)

  flush-sizes :
      (m : Metric V) (values : List V) (ts : ℕ)
      → map
          (λ p. p.value)
          (points_of (flush num setting ts interval (record m { state = Data.set values })).0)
        ≡ sizes num values
  unfolding flush flush_data
  flush-sizes m [] ts = refl
  flush-sizes m (x ∷ xs) ts =
      ap (λ v. v ∷ [])
        (kept
          (plain setting ts interval m MetricTypes.gauge ts (num.of_int (pos (length (x ∷ xs))))))

  run-IsSetOf :
      (cs : List (Call V)) (m : Metric V) (values seen : List V)
      → IsDistinct num values seen
      → IsSetOf
          (window cs seen)
          (run num setting interval cs (record m { state = Data.set values })).1
  unfolding run call sample sample_data flush flush_data
  run-IsSetOf [] m values seen h = (values, h, flush-sizes m values)
  run-IsSetOf (Call.sampled v sample_rate timestamp now ∷ cs) m values seen h =
      run-IsSetOf cs (record m { last_sample_time = some now }) (set_add num v values) (v ∷ seen)
        (set_add-IsDistinct num lawful v values seen h)
  run-IsSetOf (Call.flushed ts ∷ cs) m values seen h = run-IsSetOf cs m [] [] (tt, λ v. refl)

  -- After any samples and flushes the next flush of a Set reports the number of different values
  -- sampled since the last flush, and nothing when there are none, if the equality
  -- test of numbers is exact and the formatter keeps values.
  pub run-Set :
      (cs : List (Call V)) (name : String) (tags : Option (List String))
      (hostname device_name : Option String)
      → IsSetOf
          (window cs [])
          (run num setting interval cs (create num Class.set name tags hostname device_name)).1
  run-Set cs name tags hostname device_name =
      run-IsSetOf cs (create num Class.set name tags hostname device_name) [] [] (tt, λ v. refl)
