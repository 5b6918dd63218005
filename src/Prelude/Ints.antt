-- ===== src/Prelude/Ints.antt =====
-- Python's integers as list positions: a negative position counts from the end.
use Prim.Native.Nat.{ℕ, zero, suc, ◌+◌, ◌-◌}
use mathlib.Core.Option.{Option, none, some}
use mathlib.Core.List.{List, [], ◌∷◌}
use sts_agent.Prelude.Tests.{ltb, leb, if◌then◌else◌}
use sts_agent.Prelude.Lists.{length}

-- `negsuc n` is `-(n + 1)`.
pub data ℤ : Type 0 where
  pos : ℕ → ℤ
  negsuc : ℕ → ℤ

-- `a - b`
abbrev pub difference : ℕ → ℕ → ℤ
difference a b = if leb b a then pos (a - b) else negsuc (b - a - 1)

-- `a + b`
infixl 65 ◌+ℤ◌
abbrev pub ◌+ℤ◌ : ℤ → ℤ → ℤ
pos a +ℤ pos b = pos (a + b)
pos a +ℤ negsuc b = difference a (b + 1)
negsuc a +ℤ pos b = difference b (a + 1)
negsuc a +ℤ negsuc b = negsuc (a + b + 1)

abbrev pub get_elem? {ℓ} : {A : Type ℓ} → List A → ℕ → Option A
get_elem? [] i = none
get_elem? (x ∷ xs) zero = some x
get_elem? (x ∷ xs) (suc i) = get_elem? xs i

-- `xs[i]`, `none` where Python raises IndexError.
abbrev pub item {ℓ} : {A : Type ℓ} → List A → ℤ → Option A
item xs (pos i) = get_elem? xs i
item xs (negsuc i) = if ltb i (length xs) then get_elem? xs (length xs - 1 - i) else none
