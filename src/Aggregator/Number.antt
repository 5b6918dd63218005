-- ===== src/Aggregator/Number.antt =====
-- Python's numbers, as aggregator.py computes with the values of the samples.
use sts_agent.Prelude.{ℕ, String, Bool, Option, none, some, ℤ, pos, if◌then◌else◌, ◌≡◌, ◌↔◌, true}

-- The operators of Python's numbers. `of_int` is an `int`, `of_float` that `int` as a `float`,
-- `seconds` a time in microseconds as a `float`; `int` truncates and `round` is to the nearest,
-- and `text` is the `int` in decimal. `overflows a b` says that one of the two is a `float` and
-- the other an `int` that is too great for one, where Python raises OverflowError for each
-- operator: the sums and the quotients of a flush test it. The values that one metric samples are
-- such that `add`, `sub` and `mul` do not overflow in `sample`, and no sample rate is so small
-- that its inverse is infinite.
pub record Number (V : Type 0) : Type 0 where
  pub of_int : ℤ → V
  pub of_float : ℤ → V
  pub seconds : ℕ → V
  pub add : V → V → V
  pub sub : V → V → V
  pub mul : V → V → V
  pub div : V → V → V
  pub overflows : V → V → Bool
  pub less : V → V → Bool
  pub equal : V → V → Bool
  pub int : V → ℤ
  pub round : V → ℤ
  pub text : ℤ → String

module _ {V : Type 0} (num : Number V) where
  abbrev pub nought : V
  nought = num.of_int (pos 0)

  abbrev pub unit : V
  unit = num.of_int (pos 1)

  abbrev pub is_zero : V → Bool
  is_zero v = num.equal v nought

  -- `a / b`, `none` where it raises OverflowError.
  abbrev pub quotient : V → V → Option V
  quotient a b = if num.overflows a b then none else some (num.div a b)

  -- `v or 0`
  abbrev pub or_zero : Option V → V
  or_zero none = nought
  or_zero (some v) = if is_zero v then nought else v

  -- `max(0, v)`
  abbrev pub positive_part : V → V
  positive_part v = if num.less nought v then v else nought

  -- `int(1 / sample_rate)`, `none` where it raises ZeroDivisionError.
  abbrev pub multiplicity : V → Option V
  multiplicity rate = if is_zero rate then none else some (num.of_int (num.int (num.div unit rate)))

-- What integers and exact sums satisfy.
pub record IsLawful {V : Type 0} (num : Number V) : Type 0 where
  pub add_nought : (v : V) → num.add (nought num) v ≡ v
  pub add_nought_right : (v : V) → num.add v (nought num) ≡ v
  pub add_assoc : (u v w : V) → num.add (num.add u v) w ≡ num.add u (num.add v w)
  pub equal_iff : (u v : V) → (num.equal u v ≡ true) ↔ (u ≡ v)
